-- ===== src/Outbox.antt =====
-- src/outbox/outbox.service.ts and src/outbox/outbox.processor.ts. The insertion of a row is part
-- of the transaction in Operations.antt. Redis and BullMQ are seen through the calls made to them.
pub mod Delivery
pub mod Delays
mod Tests
use meridian_backend.Prelude.{
  ℕ, ◌+◌, ◌*◌, ◌^◌, min, Bool, Option, none, some, List, [], ◌∷◌, ◌++◌, map, Result, ok, err,
  find_where, update_where, delete_where, select_where, order_by, ltb, leb, if◌then◌else◌, ◌==◌,
}
use meridian_backend.Schema.{Bytes, OutboxRow, Database}

-- A delay is a number of milliseconds as a fraction.
pub record Delay : Type 0 where
  pub numerator : ℕ
  pub denominator : ℕ

-- `queue.add(OUTBOX_JOB, { outboxId }, { jobId: outboxId, delay })`
pub record OutboxJob : Type 0 where
  pub outbox_id : ℕ
  pub delay : Option Delay

-- The database, the frames published to the channels `doc:{documentId}`, and the calls of
-- `queue.add`. BullMQ ignores a call with the `jobId` of a job that it still has, as the one that
-- calls; which jobs run in the end is not decided here.
pub record Broker : Type 0 where
  pub database : Database
  pub published : List (ℕ × Bytes)
  pub add_calls : List OutboxJob

abbrev pub has_row_id : ℕ → OutboxRow → Bool
has_row_id id row = row.id == id

abbrev pub get_pending_rows : ℕ → Database → List OutboxRow
get_pending_rows max_attempts db =
    order_by (λ row. row.created_at) (select_where (λ row. ltb row.attempts max_attempts) db.outbox)

abbrev pub get_outbox_by_id : ℕ → Database → Option OutboxRow
get_outbox_by_id id db = find_where (has_row_id id) db.outbox

abbrev pub delete_row : ℕ → Database → Database
delete_row id db = record db { outbox = delete_where (has_row_id id) db.outbox }

abbrev pub set_attempts : ℕ → ℕ → OutboxRow → OutboxRow
set_attempts now attempts row = record row { attempts = attempts; last_attempted_at = some now }

abbrev pub update_attempts : ℕ → ℕ → ℕ → Database → Database
update_attempts now id attempts db = record db {
  outbox = update_where (has_row_id id) (set_attempts now attempts) db.outbox;
}

unfoldable pub enqueue_delivery : ℕ → Broker → Broker
enqueue_delivery outbox_id b = record b {
  add_calls = b.add_calls ++ record { outbox_id = outbox_id; delay = none } ∷ [];
}

-- `Buffer.alloc(16)`
abbrev pub outbox_frame_header : Bytes
outbox_frame_header = 0 ∷ 0 ∷ 0 ∷ 0 ∷ 0 ∷ 0 ∷ 0 ∷ 0 ∷ 0 ∷ 0 ∷ 0 ∷ 0 ∷ 0 ∷ 0 ∷ 0 ∷ 0 ∷ []

abbrev pub base_delay_ms : ℕ
base_delay_ms = 1000

abbrev pub max_delay_ms : ℕ
max_delay_ms = 300_000

-- `on module init`: a job for every pending row.
unfoldable pub on_module_init : ℕ → Broker → Broker
on_module_init max_attempts b = record b {
  add_calls =
      b.add_calls
      ++ map (λ (row : OutboxRow). record { outbox_id = row.id; delay = none })
          (get_pending_rows max_attempts b.database);
}

-- `Math.random()`, a fraction below 1.
pub record Random : Type 0 where
  pub part : ℕ
  pub whole : ℕ

-- `delay * (0.5 + Math.random() * 0.5)`, of the capped exponential, as an exact fraction; the
-- source rounds it to a double.
abbrev pub retry_delay : ℕ → Random → Delay
retry_delay attempts r = record {
  numerator = min (base_delay_ms * 2 ^ attempts) max_delay_ms * (r.whole + r.part);
  denominator = 2 * r.whole;
}

-- The `catch` block, with its call of `queue.add`.
abbrev pub retry : ℕ → Random → OutboxRow → Broker → Broker
retry now r row b =
    let attempts = row.attempts + 1 in
    record b {
      database = update_attempts now row.id attempts b.database;
      add_calls =
          b.add_calls ++ record { outbox_id = row.id; delay = some (retry_delay attempts r) } ∷ [];
    }

-- What follows `publish`, by its outcome.
abbrev pub settle_delivery : ℕ → Random → OutboxRow → Result ℕ → Broker → Broker
settle_delivery now r row (ok receivers) b = record b {
  database = delete_row row.id b.database;
  published = b.published ++ (row.document_id, outbox_frame_header ++ row.payload) ∷ [];
}
settle_delivery now r row (err e) b = retry now r row b

abbrev pub process_row : ℕ → ℕ → Random → Result ℕ → Broker → Option OutboxRow → Broker
process_row max_attempts now r outcome b none = b
process_row max_attempts now r outcome b (some row) =
    if leb max_attempts row.attempts
    then record b { database = delete_row row.id b.database }
    else settle_delivery now r row outcome b

-- `process`: `outcome` is what Redis answers to `publish`.
unfoldable pub process_outbox : ℕ → ℕ → Random → Result ℕ → ℕ → Broker → Broker
process_outbox max_attempts now r outcome outbox_id b =
    process_row max_attempts now r outcome b (get_outbox_by_id outbox_id b.database)
