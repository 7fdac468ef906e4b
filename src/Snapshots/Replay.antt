-- ===== src/Snapshots/Replay.antt =====
-- What a client loads, a snapshot and the operations since, against the replay of all operations of
-- the document: handleJoin of src/collaboration/collaboration.gateway.ts and
-- src/snapshots/snapshot.processor.ts.
use meridian_backend.Prelude.{
  ℕ, Bool, Option, none, some, List, [], ◌∷◌, ◌++◌, ◌≡◌, refl, sym, ap, ◌∙◌, arith, select_where,
  order_by, order_by-IsSorted, select_where-order_by, split_at_key, ltb, leb, ◌&&◌, ◌==◌, and_then,
  and_then-and_then,
}
use meridian_backend.Schema.{Snapshot, Operation, Database}
use meridian_backend.Operations.{operations_since, sequence_of}
use meridian_backend.Snapshots.{
  YjsDocs, latest_snapshot, after_sequence, apply_optional, replay, restore,
}

abbrev pub is_of : ℕ → Operation → Bool
is_of d op = op.document_id == d

-- All operations of a document in the order of their sequence numbers.
abbrev pub history : ℕ → Database → List Operation
history d db = order_by sequence_of (select_where (is_of d) db.operations)

-- Those up to a sequence number.
abbrev pub history_until : ℕ → ℕ → Database → List Operation
history_until d k db = select_where (λ op. leb (sequence_of op) k) (history d db)

select_where-select_where :
    {A : Type 0} (p q : A → Bool) (xs : List A)
    → select_where p (select_where q xs) ≡ select_where (λ a. q a && p a) xs
select_where-select_where p q [] = refl
select_where-select_where p q (x ∷ xs) = ground (arith, select_where-select_where p q xs)

pub operations_since-history :
    (d k : ℕ) (db : Database)
    → operations_since d k db ≡ select_where (λ op. ltb k (sequence_of op)) (history d db)
operations_since-history d k db =
    ap (order_by sequence_of)
      (sym (select_where-select_where (λ op. ltb k (sequence_of op)) (is_of d) db.operations))
    ∙ sym (
        select_where-order_by sequence_of (λ op. ltb k (sequence_of op))
          (select_where (is_of d) db.operations))

pub history-split :
    (d k : ℕ) (db : Database) → history_until d k db ++ operations_since d k db ≡ history d db
history-split d k db =
    ap (λ later. history_until d k db ++ later) (operations_since-history d k db)
    ∙ split_at_key sequence_of k (history d db)
        (order_by-IsSorted sequence_of (select_where (is_of d) db.operations))

module _ {Doc : Type 0} (yjs : YjsDocs Doc) where
  pub replay-append :
      (xs ys : List Operation) (doc : Doc)
      → replay yjs (xs ++ ys) doc ≡ and_then (replay yjs xs doc) (replay yjs ys)
  replay-append [] ys doc = refl
  replay-append (x ∷ xs) ys doc =
      and_then-and_then (apply_optional yjs x.yjs_update doc) (replay yjs xs) (replay yjs ys)
        (replay yjs (xs ++ ys)) (replay-append xs ys)

  -- The replay of the whole history.
  abbrev pub full_replay : ℕ → Database → Option Doc
  full_replay d db = replay yjs (history d db) yjs.new_doc

  -- What a client that joins can build: the latest snapshot, then the operations since.
  abbrev pub load : ℕ → Database → Option Doc
  load d db =
      and_then (restore yjs (latest_snapshot d db))
        (replay yjs (operations_since d (after_sequence (latest_snapshot d db)) db))

  -- The latest snapshot, if there is one, encodes the replay of the operations up to its sequence
  -- number; without one, no operation is numbered 0.
  abbrev pub IsFaithful : ℕ → Database → Option Snapshot → Type 0
  IsFaithful d db none = history_until d 0 db ≡ []
  IsFaithful d db (some s) =
      (doc : Doc) × (replay yjs (history_until d s.operation_sequence db) yjs.new_doc ≡ some doc)
      × (s.content_blob ≡ yjs.encode_state doc)

  module _
      (round_trip : (doc : Doc)
        → yjs.apply_update (yjs.encode_state doc) yjs.new_doc ≡ some doc) where
    restored :
        (d : ℕ) (db : Database) (o : Option Snapshot)
        → IsFaithful d db o
        → restore yjs o ≡ replay yjs (history_until d (after_sequence o) db) yjs.new_doc
    restored d db none h = rw h refl
    restored d db (some s) (doc, replayed, blob) = rw (blob, replayed) (round_trip doc)

    -- If the latest snapshot of a document is faithful, then the snapshot and the operations since
    -- give what the replay of the whole history gives, a failure included. An encoded state, applied
    -- to a new Yjs document, gives that state.
    pub load-full_replay :
        (d : ℕ) (db : Database)
        → IsFaithful d db (latest_snapshot d db)
        → load d db ≡ full_replay d db
    load-full_replay d db h =
        let k = after_sequence (latest_snapshot d db) in
        ap (λ o. and_then o (replay yjs (operations_since d k db)))
          (restored d db (latest_snapshot d db) h)
        ∙ sym (replay-append (history_until d k db) (operations_since d k db) yjs.new_doc)
        ∙ ap (λ ops. replay yjs ops yjs.new_doc) (history-split d k db)
