-- ===== src/Operations/Clocks.antt =====
-- The Lamport clock that `handleUpdate` of src/collaboration/collaboration.gateway.ts assigns, and
-- the rows that its transaction writes.
use meridian_backend.Prelude.{
  ℕ, ◌≤◌, ◌<◌, true, some, List, [], ◌∷◌, ◌++◌, Result, ok, err, ◌≡◌, refl, arith, All, All-imp,
  Bool, false, pg_error,
}
use meridian_backend.Schema.{Bytes, Operation, Database}
use meridian_backend.Operations.{
  Generated, Classified, clock_of, max_clock, next_clock, new_operation, operation_data,
  new_outbox_row, has_parents, record_update,
}

-- No clock of the document is above the maximum.
pub max_clock-above :
    (d : ℕ) (ops : List Operation)
    → All (λ op. op.document_id ≡ d → clock_of op ≤ max_clock d ops) ops
max_clock-above d [] = tt
max_clock-above d (op ∷ ops) = (
  λ same. ground (arith, same),
  All-imp (λ o. o.document_id ≡ d → clock_of o ≤ max_clock d ops)
      (λ o. o.document_id ≡ d → clock_of o ≤ max_clock d (op ∷ ops))
      (λ o h same. ground (arith, h same)) ops (max_clock-above d ops),
)

-- The effect of recording an update: the rows written, and the clock of the operation against the
-- one that the update carries and those of its document.
pub record IsRecorded (t : Generated) (d user : ℕ) (update : Bytes) (c : Classified) (db : Database)
    (outbox_id : ℕ) (op : Operation) (db' : Database) : Type 0 where
  pub written : db' ≡ record db {
    operations = db.operations ++ op ∷ [];
    outbox = db.outbox ++ new_outbox_row t d op.id update ∷ [];
  }
  pub announced : outbox_id ≡ t.outbox_id
  pub carries : op.yjs_update ≡ some update
  pub of_document : op.document_id ≡ d
  pub above_received : c.received_clock < clock_of op
  pub above_all : All (λ o. o.document_id ≡ d → clock_of o < clock_of op) db.operations

abbrev pub Records :
    Generated → ℕ → ℕ → Bytes → Classified → Database → Result (ℕ × Operation) × Database → Type 0
Records t d user update c db (ok (outbox_id, op), db') =
    IsRecorded t d user update c db outbox_id op db'
Records t d user update c db (err e, db') = db' ≡ db

next_clock-above : (local received : ℕ) → local < next_clock local received
next_clock-above local received = ground arith

next_clock-received : (local received : ℕ) → received < next_clock local received
next_clock-received local received = ground arith

module _ (t : Generated) (d user : ℕ) (update : Bytes) (c : Classified) (db : Database) where
  abbrev recorded : Operation
  recorded =
      new_operation t
        (operation_data d user update c (next_clock (max_clock d db.operations) c.received_clock))

  abbrev outcome : Bool → Result (ℕ × Operation) × Database
  outcome true = (
    ok (t.outbox_id, recorded),
    record db {
      operations = db.operations ++ recorded ∷ [];
      outbox = db.outbox ++ new_outbox_row t d t.id update ∷ [];
    },
  )
  outcome false = (err (pg_error "23503"), db)

  record_update-outcome : record_update t d user update c db ≡ outcome (has_parents db recorded)
  unfolding record_update
  record_update-outcome = ground arith

  outcome-Records : (b : Bool) → Records t d user update c db (outcome b)
  outcome-Records false = refl
  outcome-Records true = record {
    written = refl;
    announced = refl;
    carries = refl;
    of_document = refl;
    above_received = next_clock-received (max_clock d db.operations) c.received_clock;
    above_all =
        All-imp (λ o. o.document_id ≡ d → clock_of o ≤ max_clock d db.operations)
          (λ o. o.document_id ≡ d → clock_of o < clock_of recorded)
          (λ o h same.
            omega (arith, h same, next_clock-above (max_clock d db.operations) c.received_clock))
          db.operations (max_clock-above d db.operations);
  }

  -- Recording an update either throws and changes nothing, or it appends one operation and one
  -- outbox row that carries the same update, and changes nothing else; the operation's clock is
  -- above the clock that the update carries and above every clock of its document.
  pub record_update-Records : Records t d user update c db (record_update t d user update c db)
  record_update-Records = rw record_update-outcome (outcome-Records (has_parents db recorded))
