-- ===== src/Operations/Lamport.antt =====
-- The clocks of a document's operations, over any sequence of updates that `handleUpdate` of
-- src/collaboration/collaboration.gateway.ts records.
use meridian_backend.Prelude.{
  ℕ, ◌<◌, List, [], ◌∷◌, ◌++◌, Result, ok, err, ◌≡◌, sym, All, All-append, ◌∙◌, All-imp,
}
use meridian_backend.Schema.{Bytes, Operation, Database}
use meridian_backend.Operations.{Generated, Classified, clock_of, record_update}
use meridian_backend.Operations.Clocks.{Records, record_update-Records}

-- Within a document, later rows have greater clocks.
abbrev pub IsLamport : List Operation → Type 0
IsLamport [] = Unit
IsLamport (x ∷ xs) =
    All (λ y. y.document_id ≡ x.document_id → clock_of x < clock_of y) xs × IsLamport xs

pub IsLamport-snoc :
    (xs : List Operation) (op : Operation)
    → IsLamport xs
    → All (λ o. o.document_id ≡ op.document_id → clock_of o < clock_of op) xs
    → IsLamport (xs ++ op ∷ [])
IsLamport-snoc [] op h below = (tt, tt)
IsLamport-snoc (x ∷ xs) op (first, h) (lt, below) = (
  All-append (λ y. y.document_id ≡ x.document_id → clock_of x < clock_of y) xs (op ∷ []) first
      ((λ same. lt (sym same)), tt),
  IsLamport-snoc xs op h below,
)

Records-IsLamport :
    (t : Generated) (d user : ℕ) (update : Bytes) (c : Classified) (db : Database)
    (r : Result (ℕ × Operation) × Database)
    → IsLamport db.operations
    → Records t d user update c db r
    → IsLamport r.1.operations
Records-IsLamport t d user update c db (ok (outbox_id, op), db') h k = rw k.written (
    IsLamport-snoc db.operations op h (
      All-imp (λ o. o.document_id ≡ d → clock_of o < clock_of op)
        (λ o. o.document_id ≡ op.document_id → clock_of o < clock_of op)
        (λ o lt same. lt (same ∙ k.of_document)) db.operations k.above_all))
Records-IsLamport t d user update c db (err e, db') h k = rw k h

-- An update that a client sends, with what the server adds to it.
pub record Edit : Type 0 where
  pub generated : Generated
  pub document_id : ℕ
  pub user_id : ℕ
  pub update : Bytes
  pub classified : Classified

abbrev pub record_all : List Edit → Database → Database
record_all [] db = db
record_all (e ∷ es) db =
    record_all es (record_update e.generated e.document_id e.user_id e.update e.classified db).1

-- However many updates are recorded, to whichever documents and with whatever clocks in them: if
-- the clocks of each document strictly increase along the table before, they do so after.
pub record_all-IsLamport :
    (es : List Edit) (db : Database)
    → IsLamport db.operations
    → IsLamport (record_all es db).operations
record_all-IsLamport [] db h = h
record_all-IsLamport (e ∷ es) db h = record_all-IsLamport es _ (
    Records-IsLamport e.generated e.document_id e.user_id e.update e.classified db
      (record_update e.generated e.document_id e.user_id e.update e.classified db) h
      (record_update-Records e.generated e.document_id e.user_id e.update e.classified db))
