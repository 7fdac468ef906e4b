-- ===== src/Snapshots.antt =====
-- src/snapshots/snapshots.service.ts and src/snapshots/snapshot.processor.ts. The documents of Yjs
-- and what the processor does with them are a parameter.
pub mod Replay
pub mod Compaction
mod Tests
use meridian_backend.Prelude.{
  ℕ, Bool, true, false, Option, none, some, List, [], ◌∷◌, ◌++◌, map, Action, Result, ok, err, pure,
  gets, modify, or_throw, throw_if, transaction, ◌>>=◌, ◌>>◌, pg_error, plain_error, find_where,
  is_some, not, ◌==◌, and_then,
}
use meridian_backend.Schema.{Bytes, Document, Snapshot, Operation, Database}
use meridian_backend.Memberships.{has_document_id}
use meridian_backend.Documents.{update_document}
use meridian_backend.Operations.{operations_since, get_operations_since_sequence, sequence_of}

-- The calls of Yjs: `new Y.Doc()`, `applyUpdate`, which throws on bytes that are no update,
-- `encodeStateAsUpdate`, and the state vector as a list of pairs.
pub record YjsDocs (Doc : Type 0) : Type 0 where
  pub new_doc : Doc
  pub apply_update : Bytes → Doc → Option Doc
  pub encode_state : Doc → Bytes
  pub encode_state_vector : Doc → List (ℕ × ℕ)

abbrev pub has_snapshot_id : ℕ → Snapshot → Bool
has_snapshot_id id s = s.id == id

-- The inner join of the document's row with its latest snapshot.
abbrev pub latest_snapshot : ℕ → Database → Option Snapshot
latest_snapshot document_id db =
    and_then (find_where (has_document_id document_id) db.documents)
      λ d. and_then d.latest_snapshot_id λ id. find_where (has_snapshot_id id) db.snapshots

abbrev pub get_latest_snapshot : ℕ → Action Database (Option Snapshot)
get_latest_snapshot document_id = gets (latest_snapshot document_id)

abbrev pub set_latest : ℕ → Document → Document
set_latest id d = record d { latest_snapshot_id = some id }

abbrev pub new_snapshot : ℕ → ℕ → ℕ → Bytes → List (ℕ × ℕ) → ℕ → Snapshot
new_snapshot id now document_id blob vector sequence = record {
  id = id;
  document_id = document_id;
  content_blob = blob;
  version_vector = vector;
  operation_sequence = sequence;
  created_at = now;
}

-- The row's foreign key is checked at its insertion.
abbrev pub create_snapshot : ℕ → ℕ → ℕ → Bytes → List (ℕ × ℕ) → ℕ → Action Database (Unit {0})
create_snapshot id now document_id blob vector sequence = transaction (do
  document ← gets (λ db. find_where (has_document_id document_id) db.documents)
  throw_if (not (is_some document)) (pg_error "23503")
  modify (λ db. record db {
    snapshots = db.snapshots ++ new_snapshot id now document_id blob vector sequence ∷ [];
  })
  modify (update_document (set_latest id) document_id))

-- `snapshot?.operationSequence ?? 0`
abbrev pub after_sequence : Option Snapshot → ℕ
after_sequence none = 0
after_sequence (some s) = s.operation_sequence

-- `operations[operations.length - 1]`, of a list that begins with the first argument.
abbrev pub last_of : Operation → List Operation → Operation
last_of op [] = op
last_of op (next ∷ ops) = last_of next ops

module _ {Doc : Type 0} (yjs : YjsDocs Doc) where
  -- `if (op.yjsUpdate) decodeUpdate(doc, op.yjsUpdate)`
  abbrev pub apply_optional : Option Bytes → Doc → Option Doc
  apply_optional none doc = some doc
  apply_optional (some update) doc = yjs.apply_update update doc

  abbrev pub replay : List Operation → Doc → Option Doc
  replay [] doc = some doc
  replay (op ∷ ops) doc = and_then (apply_optional op.yjs_update doc) (replay ops)

  abbrev pub restore : Option Snapshot → Option Doc
  restore none = some yjs.new_doc
  restore (some s) = yjs.apply_update s.content_blob yjs.new_doc

  -- The rest of the job, where there are new operations.
  abbrev pub compact_new : ℕ → ℕ → ℕ → Option Snapshot → List Operation → Action Database (Unit {0})
  compact_new id now document_id snapshot [] = pure tt
  compact_new id now document_id snapshot (op ∷ ops) = do
    doc ← or_throw (and_then (restore snapshot) (replay (op ∷ ops))) (plain_error "Invalid update")
    create_snapshot id now document_id (yjs.encode_state doc) (yjs.encode_state_vector doc)
        (last_of op ops).operation_sequence

  abbrev pub compact : ℕ → ℕ → ℕ → Action Database (Unit {0})
  compact id now document_id = do
    snapshot ← get_latest_snapshot document_id
    operations ← get_operations_since_sequence document_id (after_sequence snapshot)
    compact_new id now document_id snapshot operations

  -- A job is for one document or for all of them.
  pub data Target : Type 0 where
    one : ℕ → Target
    all : Target

  -- `process`: the database after the job, and the documents for which it queues a job. What the
  -- job throws is logged; the writes of `createSnapshot` are in a transaction.
  unfoldable pub process_snapshot : ℕ → ℕ → Target → Database → Database × List ℕ
  process_snapshot id now (one document_id) db = ((compact id now document_id db).1, [])
  process_snapshot id now all db = (db, map (λ (d : Document). d.id) db.documents)
