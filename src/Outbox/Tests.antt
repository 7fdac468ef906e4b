-- ===== src/Outbox/Tests.antt =====
-- Tests of src/outbox, and its theorems at concrete inputs.
use meridian_backend.Prelude.{
  ◌*◌, ◌^◌, ◌≤◌, ◌<◌, min, ℕ, none, some, List, [], ◌∷◌, ◌++◌, ok, err, ◌≡◌, refl, Result,
  plain_error, arith,
}
use meridian_backend.Schema.{OutboxRow}
use meridian_backend.Samples.{shared}
use meridian_backend.Outbox.{
  base_delay_ms, max_delay_ms, outbox_frame_header, retry_delay, Broker, Random, get_outbox_by_id,
  process_outbox,
}
use meridian_backend.Outbox.Delays.{retry_delay-bounds}
use meridian_backend.Outbox.Delivery.{process_all, process_all-empties}

abbrev row : OutboxRow
row = record {
  id = 101;
  document_id = 10;
  operation_id = 1;
  payload = 7 ∷ [];
  attempts = 1;
  last_attempted_at = some 55;
  created_at = 50;
}

abbrev broker : Broker
broker = record { database = record shared { outbox = row ∷ [] }; published = []; add_calls = [] }

abbrev half : Random
half = record { part = 1; whole = 2 }

abbrev refusals : List (ℕ × Random × Result ℕ)
refusals =
    (60, half, err (plain_error "down"))
    ∷ (70, half, err (plain_error "down"))
    ∷ (80, half, err (plain_error "down"))
    ∷ []

process_all-empties_example :
    get_outbox_by_id 101 (process_all 3 refusals 101 broker).database ≡ none
process_all-empties_example = process_all-empties 3 101 refusals broker row refl (omega arith)

abbrev second_answers : List (ℕ × Random × Result ℕ)
second_answers = (60, half, err (plain_error "down")) ∷ (70, half, ok 2) ∷ (80, half, ok 2) ∷ []

published_once :
    (process_all 3 second_answers 101 broker).published ≡ (10, outbox_frame_header ++ 7 ∷ []) ∷ []
unfolding process_outbox
published_once = refl

retry_delay-bounds_example :
    (min (base_delay_ms * 2 ^ 2) max_delay_ms * (retry_delay 2 half).denominator
      ≤ 2 * (retry_delay 2 half).numerator)
    × ((retry_delay 2 half).numerator < max_delay_ms * (retry_delay 2 half).denominator)
retry_delay-bounds_example = retry_delay-bounds 2 half (omega arith)
