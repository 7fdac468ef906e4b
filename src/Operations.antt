-- ===== src/Operations.antt =====
-- src/operations/operations.service.ts, and the transaction in which `handleUpdate` of
-- src/collaboration/collaboration.gateway.ts writes an update (lines 459-496).
pub mod Clocks
pub mod Lamport
mod Tests
use meridian_backend.Prelude.{
  ℕ, ◌+◌, max, Bool, Option, none, some, List, [], ◌∷◌, ◌++◌, Action, Result, ok, err, pure, gets,
  modify, transaction, ◌>>=◌, ◌>>◌, pg_error, find_where, select_where, length, is_some, get_or,
  ltb, if◌then◌else◌, ◌==◌, ◌&&◌, order_by,
}
use meridian_backend.Schema.{
  Bytes, Operation, OperationType, OperationSource, human, Payload, OutboxRow, Database,
}
use meridian_backend.Users.{has_id}
use meridian_backend.Memberships.{has_document_id}

abbrev pub is_after : ℕ → ℕ → Operation → Bool
is_after document_id after_sequence op =
    op.document_id == document_id && ltb after_sequence op.operation_sequence

abbrev pub sequence_of : Operation → ℕ
sequence_of op = op.operation_sequence

abbrev pub operations_since : ℕ → ℕ → Database → List Operation
operations_since document_id after_sequence db =
    order_by sequence_of (select_where (is_after document_id after_sequence) db.operations)

abbrev pub get_operations_since_sequence : ℕ → ℕ → Action Database (List Operation)
get_operations_since_sequence document_id after_sequence =
    gets (operations_since document_id after_sequence)

abbrev pub count_operations_since_sequence : ℕ → ℕ → Action Database ℕ
count_operations_since_sequence document_id after_sequence =
    gets (λ db. length (select_where (is_after document_id after_sequence) db.operations))

-- A missing clock counts as 0, the value that the query falls back to.
abbrev pub clock_of : Operation → ℕ
clock_of op = get_or op.clock_value 0

-- `max(clock_value) … where document_id`, `?? 0n`
abbrev pub max_clock : ℕ → List Operation → ℕ
max_clock document_id [] = 0
max_clock document_id (op ∷ ops) =
    if op.document_id == document_id
    then max (clock_of op) (max_clock document_id ops)
    else max_clock document_id ops

abbrev pub get_max_clock_value : ℕ → Action Database ℕ
get_max_clock_value document_id = gets (λ db. max_clock document_id db.operations)

-- What `insertOperation` is given.
pub record NewOperation : Type 0 where
  pub document_id : ℕ
  pub user_id : ℕ
  pub yjs_update : Bytes
  pub type : OperationType
  pub source : OperationSource
  pub payload : Option Payload
  pub clock_value : ℕ

-- What Postgres gives to a new row: ids, the identity column and the time.
pub record Generated : Type 0 where
  pub id : ℕ
  pub sequence : ℕ
  pub outbox_id : ℕ
  pub now : ℕ

abbrev pub new_operation : Generated → NewOperation → Operation
new_operation t data_ = record {
  id = t.id;
  document_id = data_.document_id;
  user_id = data_.user_id;
  type = data_.type;
  yjs_update = some data_.yjs_update;
  after_id = none;
  operation_sequence = t.sequence;
  clock_value = some data_.clock_value;
  source = data_.source;
  payload = data_.payload;
  created_at = t.now;
}

-- The foreign keys of an operation.
abbrev pub has_parents : Database → Operation → Bool
has_parents db op =
    is_some (find_where (has_document_id op.document_id) db.documents)
    && is_some (find_where (has_id op.user_id) db.users)

abbrev pub insert_operation : Generated → NewOperation → Action Database Operation
insert_operation t data_ db =
    let op = new_operation t data_ in
    if has_parents db op
    then (ok op, record db { operations = db.operations ++ op ∷ [] })
    else (err (pg_error "23503"), db)

abbrev pub new_outbox_row : Generated → ℕ → ℕ → Bytes → OutboxRow
new_outbox_row t document_id operation_id payload = record {
  id = t.outbox_id;
  document_id = document_id;
  operation_id = operation_id;
  payload = payload;
  attempts = 0;
  last_attempted_at = none;
  created_at = t.now;
}

-- `insertOutboxEntry` of src/outbox/outbox.service.ts
abbrev pub insert_outbox_entry : Generated → ℕ → ℕ → Bytes → Action Database ℕ
insert_outbox_entry t document_id operation_id payload = do
  modify (λ db. record db {
    outbox = db.outbox ++ new_outbox_row t document_id operation_id payload ∷ [];
  })
  pure t.outbox_id

-- What `classifyUpdate` says of an update.
pub record Classified : Type 0 where
  pub type : OperationType
  pub payload : Payload
  pub received_clock : ℕ

abbrev pub next_clock : ℕ → ℕ → ℕ
next_clock local received = (if ltb received local then local else received) + 1

abbrev pub operation_data : ℕ → ℕ → Bytes → Classified → ℕ → NewOperation
operation_data document_id user_id update classified clock = record {
  document_id = document_id;
  user_id = user_id;
  yjs_update = update;
  type = classified.type;
  source = human;
  payload = some classified.payload;
  clock_value = clock;
}

-- The body of the transaction; the row lock that it takes first writes nothing.
abbrev pub record_body : Generated → ℕ → ℕ → Bytes → Classified → Action Database (ℕ × Operation)
record_body t document_id user_id update classified = do
  local_clock ← get_max_clock_value document_id
  op ← insert_operation t (
      operation_data document_id user_id update classified
        (next_clock local_clock classified.received_clock))
  outbox_id ← insert_outbox_entry t document_id op.id update
  pure (outbox_id, op)

unfoldable pub record_update :
    Generated → ℕ → ℕ → Bytes → Classified → Action Database (ℕ × Operation)
record_update t document_id user_id update classified =
    transaction (record_body t document_id user_id update classified)
