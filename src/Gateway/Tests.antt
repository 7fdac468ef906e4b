-- ===== src/Gateway/Tests.antt =====
-- Tests of src/collaboration, and its theorems at concrete inputs.
use meridian_backend.Prelude.{ltb, true, not, some, [], ◌∷◌, map, Result, ok, ◌≡◌, ◌⊎◌, find_where}
use meridian_backend.Schema.{Bytes, editor}
use meridian_backend.Samples.{shared}
use meridian_backend.Operations.{Generated}
use meridian_backend.Yjs.{Update, string_content}
use meridian_backend.Gateway.{Client, Instance, has_client_id, handle_update}
use meridian_backend.Gateway.Windows.{windows, at_start, three_in_row, windows-three_in_row}
use meridian_backend.Gateway.Writes.{IsWrite, handle_update-IsWrite}

abbrev client : Client
client = record {
  id = 3;
  authenticated = true;
  user_id = 1;
  email = "ada@example.com";
  role = some editor;
  document_id = some 10;
  message_count = some 0;
  consecutive_violations = 0;
  timer_runs = true;
  is_open = true;
}

windows-three_in_row_example :
    (windows 2 (3 ∷ 4 ∷ 1 ∷ 5 ∷ 5 ∷ 5 ∷ 0 ∷ []) (at_start 0 client)).is_open
    ≡ not (three_in_row (map (ltb 2) (3 ∷ 4 ∷ 1 ∷ 5 ∷ 5 ∷ 5 ∷ 0 ∷ [])))
windows-three_in_row_example = windows-three_in_row 2 (3 ∷ 4 ∷ 1 ∷ 5 ∷ 5 ∷ 5 ∷ 0 ∷ []) client

-- Bytes that all decode to the insertion of themselves.
abbrev decode : Bytes → Result Update
decode bytes = ok (record {
  structs =
      record {
        id = record { client = 8; clock = 4 };
        length = 1;
        content = some (string_content bytes);
      }
      ∷ [];
  deleted = [];
})

abbrev generated : Generated
generated = record { id = 1; sequence = 1; outbox_id = 101; now = 60 }

abbrev instance_ : Instance
instance_ = record {
  database = shared;
  clients = client ∷ [];
  rooms = (10, 3 ∷ []) ∷ [];
  sent = [];
  queued = [];
}

handle_update-IsWrite_example :
    ((handle_update 2 decode generated true 3 (7 ∷ []) instance_).database ≡ shared)
    ⊎ ((c : Client) × (find_where (has_client_id 3) instance_.clients ≡ some c)
        × IsWrite 2 decode generated true
            (7 ∷ [])
            instance_
            c
            (handle_update 2 decode generated true 3 (7 ∷ []) instance_).database)
handle_update-IsWrite_example = handle_update-IsWrite 2 decode generated true (7 ∷ []) instance_ 3
