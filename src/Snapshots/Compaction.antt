-- ===== src/Snapshots/Compaction.antt =====
-- What a job of src/snapshots/snapshot.processor.ts does to a document.
use meridian_backend.Prelude.{
  ℕ, ◌≤◌, Option, none, some, List, [], ◌∷◌, ◌++◌, ◌≡◌, refl, sym, ap, subst, ◌∙◌, arith, All,
  All-right, select_where, IsSorted, order_by-IsSorted, ltb, leb, find_where, find_where-append,
  update_where, find_where_sound, ==_refl, find_where-update_where, Option-cases, inl, inr,
  and_then,
}
use meridian_backend.Schema.{Document, Snapshot, Operation, Database}
use meridian_backend.Memberships.{has_document_id}
use meridian_backend.Documents.{update_document}
use meridian_backend.Operations.{operations_since, sequence_of}
use meridian_backend.Snapshots.{
  YjsDocs, latest_snapshot, after_sequence, replay, restore, last_of, has_snapshot_id, set_latest,
  new_snapshot, compact_new, one, process_snapshot,
}
use meridian_backend.Snapshots.Replay.{
  is_of, history, history_until, history-split, operations_since-history, load, full_replay,
  IsFaithful, load-full_replay,
}

All-last_of {κ} :
    (P : Operation → Type κ) (op : Operation) (ops : List Operation)
    → All P (op ∷ ops)
    → P (last_of op ops)
All-last_of P op [] (p, h) = p
All-last_of P op (next ∷ ops) (p, h) = All-last_of P next ops h

-- In a sorted list the last row has the greatest key.
last_of-greatest :
    (low : List Operation) (op : Operation) (ops : List Operation)
    → IsSorted sequence_of (low ++ op ∷ ops)
    → All (λ o. sequence_of o ≤ sequence_of (last_of op ops)) (low ++ op ∷ ops)
last_of-greatest [] op [] h = (ground arith, tt)
last_of-greatest [] op (next ∷ ops) (first, h) = (
  All-last_of (λ o. sequence_of op ≤ sequence_of o) next ops first,
  last_of-greatest [] next ops h,
)
last_of-greatest (x ∷ low) op ops (first, h) = (
  All-last_of (λ o. sequence_of x ≤ sequence_of o) op ops
      (All-right (λ o. sequence_of x ≤ sequence_of o) low (op ∷ ops) first),
  last_of-greatest low op ops h,
)

select_until_greatest :
    (k : ℕ) (xs : List Operation)
    → All (λ o. sequence_of o ≤ k) xs
    → select_where (λ o. leb (sequence_of o) k) xs ≡ xs
select_until_greatest k [] h = refl
select_until_greatest k (x ∷ xs) (le, h) = ground (arith, select_until_greatest k xs h)

select_after_greatest :
    (k : ℕ) (xs : List Operation)
    → All (λ o. sequence_of o ≤ k) xs
    → select_where (λ o. ltb k (sequence_of o)) xs ≡ []
select_after_greatest k [] h = refl
select_after_greatest k (x ∷ xs) (le, h) = ground (arith, select_after_greatest k xs h)

module _ {Doc : Type 0} (yjs : YjsDocs Doc) (id now d : ℕ) (db : Database) where
  abbrev written : Doc → ℕ → Database
  written doc sequence = update_document (set_latest id) d (record db {
    snapshots =
        db.snapshots
        ++ new_snapshot id now d (yjs.encode_state doc) (yjs.encode_state_vector doc) sequence ∷ [];
  })

  latest_snapshot-written :
      (doc : Doc) (sequence : ℕ) (x : Document)
      → find_where (has_document_id d) db.documents ≡ some x
      → find_where (has_snapshot_id id) db.snapshots ≡ none
      → latest_snapshot d (written doc sequence)
        ≡ some (new_snapshot id now d (yjs.encode_state doc) (yjs.encode_state_vector doc) sequence)
  latest_snapshot-written doc sequence x there fresh = rw (updated, appended) refl
    where
      made : Snapshot
      made = new_snapshot id now d (yjs.encode_state doc) (yjs.encode_state_vector doc) sequence

      updated :
          find_where
            (has_document_id d)
            (update_where (has_document_id d) (set_latest id) db.documents)
          ≡ some (set_latest id x)
      updated =
          find_where-update_where (has_document_id d) (has_document_id d) (set_latest id)
            (λ a. refl) db.documents x there
          ∙ rw (find_where_sound (has_document_id d) db.documents x there) refl

      appended : find_where (has_snapshot_id id) (db.snapshots ++ made ∷ []) ≡ some made
      appended =
          find_where-append (has_snapshot_id id) db.snapshots (made ∷ []) fresh
          ∙ rw (==_refl id) refl

  -- The job either leaves the database as it is, or writes a snapshot of what it loaded.
  compact_new_cases {κ} :
      (P : Database → Type κ) (s : Option Snapshot) (later : List Operation)
      → P db
      → ((op : Operation) (ops : List Operation) (doc : Doc) (x : Document)
          → later ≡ op ∷ ops
          → and_then (restore yjs s) (replay yjs later) ≡ some doc
          → find_where (has_document_id d) db.documents ≡ some x
          → P (written doc (sequence_of (last_of op ops))))
      → P (compact_new yjs id now d s later db).1
  compact_new_cases P s [] same wrote = same
  compact_new_cases P s (op ∷ ops) same wrote =
      elim (Option-cases (and_then (restore yjs s) (replay yjs (op ∷ ops)))) [
        | inl broken ↦ rw broken same
        | inr (doc, loaded) ↦ elim (Option-cases (find_where (has_document_id d) db.documents)) [
          | inl missing ↦ rw (loaded, missing) same
          | inr (x, there) ↦ rw (loaded, there) (wrote op ops doc x refl loaded there)
        ]
      ]

restored_alone :
    {Doc : Type 0} (yjs : YjsDocs Doc) (doc : Doc) (o : Option Doc) (ops : List Operation)
    → ops ≡ []
    → and_then o (replay yjs ops) ≡ some doc
    → o ≡ some doc
restored_alone yjs doc none ops read h = cc h
restored_alone yjs doc (some a) ops read h = subst (λ ops'. replay yjs ops' a ≡ some doc) read h

module _ {Doc : Type 0} (yjs : YjsDocs Doc)
    (round_trip : (doc : Doc) → yjs.apply_update (yjs.encode_state doc) yjs.new_doc ≡ some doc)
    (id now d : ℕ) (db : Database) (h : IsFaithful yjs d db (latest_snapshot d db))
    (fresh : find_where (has_snapshot_id id) db.snapshots ≡ none) where
  abbrev later : List Operation
  later = operations_since d (after_sequence (latest_snapshot d db)) db

  -- Nothing of the document's history is above the last operation that the job read.
  history-below :
      (op : Operation) (ops : List Operation)
      → later ≡ op ∷ ops
      → All (λ o. sequence_of o ≤ sequence_of (last_of op ops)) (history d db)
  history-below op ops read =
      subst (All (λ o. sequence_of o ≤ sequence_of (last_of op ops))) split (
        last_of-greatest (history_until d (after_sequence (latest_snapshot d db)) db) op ops (
          subst (IsSorted sequence_of) (sym split)
            (order_by-IsSorted sequence_of (select_where (is_of d) db.operations))))
    where
      split : history_until d (after_sequence (latest_snapshot d db)) db ++ op ∷ ops ≡ history d db
      split =
          ap (λ ys. history_until d (after_sequence (latest_snapshot d db)) db ++ ys) (sym read)
          ∙ history-split d (after_sequence (latest_snapshot d db)) db

  -- A job for a document keeps its latest snapshot faithful, and leaves the operations alone. A new
  -- snapshot's generated id is new.
  pub process_snapshot-IsFaithful :
      IsFaithful yjs d
        (process_snapshot yjs id now (one d) db).0
        (latest_snapshot d (process_snapshot yjs id now (one d) db).0)
  unfolding process_snapshot
  process_snapshot-IsFaithful =
      compact_new_cases yjs id now d db (λ db'. IsFaithful yjs d db' (latest_snapshot d db'))
        (latest_snapshot d db) later h
        λ op ops doc x read loaded there.
          rw
            (latest_snapshot-written yjs id now d db doc (sequence_of (last_of op ops)) x there
              fresh)
            (
              doc,
              rw
                  (select_until_greatest (sequence_of (last_of op ops)) (history d db)
                    (history-below op ops read))
                  (sym (load-full_replay yjs round_trip d db h) ∙ loaded),
              refl,
            )

  -- If the document is there and its history can be replayed, then after the job no operation is
  -- newer than its latest snapshot: the snapshot alone gives what the replay of the whole history
  -- gives.
  pub process_snapshot-compacts :
      (doc : Doc) (x : Document)
      → full_replay yjs d db ≡ some doc
      → find_where (has_document_id d) db.documents ≡ some x
      → (restore yjs (latest_snapshot d (process_snapshot yjs id now (one d) db).0) ≡ some doc)
        × (operations_since d
              (after_sequence (latest_snapshot d (process_snapshot yjs id now (one d) db).0))
              (process_snapshot yjs id now (one d) db).0
            ≡ [])
  unfolding process_snapshot
  process_snapshot-compacts doc x replayed there = go later refl
    where
      loaded : load yjs d db ≡ some doc
      loaded = load-full_replay yjs round_trip d db h ∙ replayed

      go :
          (ops : List Operation)
          → later ≡ ops
          → (restore yjs
                (latest_snapshot d (compact_new yjs id now d (latest_snapshot d db) ops db).1)
              ≡ some doc)
            × (operations_since d
                  (after_sequence
                    (latest_snapshot d (compact_new yjs id now d (latest_snapshot d db) ops db).1))
                  (compact_new yjs id now d (latest_snapshot d db) ops db).1
                ≡ [])
      go [] read =
          (restored_alone yjs doc (restore yjs (latest_snapshot d db)) later read loaded, read)
      go (op ∷ ops) read =
          rw
            (
              subst
                  (λ ops'.
                    and_then (restore yjs (latest_snapshot d db)) (replay yjs ops') ≡ some doc)
                  read loaded,
              there,
            )
            (rw
              (latest_snapshot-written yjs id now d db doc (sequence_of (last_of op ops)) x there
                fresh)
              (
                round_trip doc,
                operations_since-history d (sequence_of (last_of op ops)) db
                    ∙ select_after_greatest (sequence_of (last_of op ops)) (history d db)
                        (history-below op ops read),
              ))
