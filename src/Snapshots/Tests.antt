-- ===== src/Snapshots/Tests.antt =====
-- Tests of src/snapshots, and its theorems at concrete inputs. A Yjs document is here the list of
-- the bytes applied to it.
use meridian_backend.Prelude.{ℕ, some, none, [], ◌∷◌, ◌++◌, ◌≡◌, refl}
use meridian_backend.Schema.{Bytes, Database, Operation, insert, human}
use meridian_backend.Samples.{shared, document_ten}
use meridian_backend.Operations.{operations_since}
use meridian_backend.Snapshots.{
  YjsDocs, latest_snapshot, after_sequence, restore, one, process_snapshot,
}
use meridian_backend.Snapshots.Replay.{IsFaithful, load, full_replay, load-full_replay}
use meridian_backend.Snapshots.Compaction.{process_snapshot-IsFaithful, process_snapshot-compacts}

abbrev bytes_docs : YjsDocs Bytes
bytes_docs = record {
  new_doc = [];
  apply_update = λ u doc. some (doc ++ u);
  encode_state = λ doc. doc;
  encode_state_vector = λ doc. [];
}

abbrev round_trip :
    (doc : Bytes)
    → bytes_docs.apply_update (bytes_docs.encode_state doc) bytes_docs.new_doc ≡ some doc
round_trip doc = refl

abbrev operation : ℕ → Operation
operation n = record {
  id = n;
  document_id = 10;
  user_id = 1;
  type = insert;
  yjs_update = some (n ∷ []);
  after_id = none;
  operation_sequence = n;
  clock_value = some n;
  source = human;
  payload = none;
  created_at = 8;
}

-- Document 10 has a snapshot of its first operation, and two operations since.
abbrev compacted : Database
compacted = record shared {
  documents = record document_ten { latest_snapshot_id = some 5 } ∷ [];
  operations = operation 1 ∷ operation 3 ∷ operation 2 ∷ [];
  snapshots =
      record {
        id = 5;
        document_id = 10;
        content_blob = 1 ∷ [];
        version_vector = [];
        operation_sequence = 1;
        created_at = 9;
      }
      ∷ [];
}

compacted-IsFaithful : IsFaithful bytes_docs 10 compacted (latest_snapshot 10 compacted)
compacted-IsFaithful = (1 ∷ [], refl, refl)

load-full_replay_example : load bytes_docs 10 compacted ≡ full_replay bytes_docs 10 compacted
load-full_replay_example = load-full_replay bytes_docs round_trip 10 compacted compacted-IsFaithful

process_snapshot-IsFaithful_example :
    IsFaithful bytes_docs 10
      (process_snapshot bytes_docs 6 70 (one 10) compacted).0
      (latest_snapshot 10 (process_snapshot bytes_docs 6 70 (one 10) compacted).0)
process_snapshot-IsFaithful_example =
    process_snapshot-IsFaithful bytes_docs round_trip 6 70 10 compacted compacted-IsFaithful refl

process_snapshot-compacts_example :
    (restore bytes_docs (latest_snapshot 10 (process_snapshot bytes_docs 6 70 (one 10) compacted).0)
      ≡ some (1 ∷ 2 ∷ 3 ∷ []))
    × (operations_since 10
          (after_sequence
            (latest_snapshot 10 (process_snapshot bytes_docs 6 70 (one 10) compacted).0))
          (process_snapshot bytes_docs 6 70 (one 10) compacted).0
        ≡ [])
process_snapshot-compacts_example =
    process_snapshot-compacts bytes_docs round_trip 6 70 10 compacted compacted-IsFaithful refl
      (1 ∷ 2 ∷ 3 ∷ []) (record document_ten { latest_snapshot_id = some 5 }) refl refl
