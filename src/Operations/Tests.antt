-- ===== src/Operations/Tests.antt =====
-- Tests of src/operations, and its theorems at concrete inputs.
use meridian_backend.Prelude.{ℕ, ◌+◌, List, [], ◌∷◌}
use meridian_backend.Schema.{insert, count_payload}
use meridian_backend.Samples.{shared}
use meridian_backend.Operations.{Generated, Classified, record_update}
use meridian_backend.Operations.Clocks.{Records, record_update-Records}
use meridian_backend.Operations.Lamport.{Edit, IsLamport, record_all, record_all-IsLamport}

abbrev generated : ℕ → Generated
generated n = record { id = n; sequence = n; outbox_id = n + 100; now = 60 }

abbrev classified : ℕ → Classified
classified clock = record { type = insert; payload = count_payload 1; received_clock = clock }

record_update-Records_example :
    Records
      (generated 1)
      10
      1
      (7 ∷ [])
      (classified 4)
      shared
      (record_update (generated 1) 10 1 (7 ∷ []) (classified 4) shared)
record_update-Records_example =
    record_update-Records (generated 1) 10 1 (7 ∷ []) (classified 4) shared

abbrev edit : ℕ → ℕ → Edit
edit n clock = record {
  generated = generated n;
  document_id = 10;
  user_id = 1;
  update = n ∷ [];
  classified = classified clock;
}

-- The second update carries an older clock than the first; the third comes from an unknown user.
abbrev edits : List Edit
edits = edit 1 4 ∷ edit 2 0 ∷ record (edit 3 9) { user_id = 99 } ∷ []

record_all-IsLamport_example : IsLamport (record_all edits shared).operations
record_all-IsLamport_example = record_all-IsLamport edits shared tt
