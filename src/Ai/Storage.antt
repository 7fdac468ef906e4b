-- ===== src/Ai/Storage.antt =====
-- The operations that `applyOps` of src/ai/ai.service.ts stores.
use meridian_backend.Prelude.{
  ℕ, ◌+◌, ◌≤◌, ◌<◌, true, false, List, [], ◌∷◌, ◌++◌, Result, ok, err, pure, ◌>>=◌, ◌≡◌, refl,
  arith, All, All-append, All-imp, Bool-cases, inl, inr, state-bind_pure, transaction_cases, subst,
}
use meridian_backend.Schema.{Bytes, Operation, Database}
use meridian_backend.Operations.{
  Generated, Classified, clock_of, max_clock, new_operation, new_outbox_row, has_parents,
}
use meridian_backend.Operations.Clocks.{max_clock-above}
use meridian_backend.Operations.Lamport.{IsLamport, IsLamport-snoc}
use meridian_backend.Ai.{ai_operation_data, store_each, store_body, store_updates}

module _ (classify : Bytes → Result Classified) (d user : ℕ) where
  abbrev IsBelow : ℕ → Database → Type 0
  IsBelow clock db = All (λ o. o.document_id ≡ d → clock_of o ≤ clock) db.operations

  abbrev stored : Generated → Bytes → ℕ → Classified → Operation
  stored t binary clock c = new_operation t (ai_operation_data d user binary c (clock + 1))

  -- The database after the rows of one update.
  abbrev after : Generated → Bytes → ℕ → Classified → Database → Database
  after t binary clock c db = record db {
    operations = db.operations ++ stored t binary clock c ∷ [];
    outbox = db.outbox ++ new_outbox_row t d t.id binary ∷ [];
  }

  after-IsBelow :
      (t : Generated) (binary : Bytes) (clock : ℕ) (c : Classified) (db : Database)
      → IsBelow clock db
      → IsBelow (clock + 1) (after t binary clock c db)
  after-IsBelow t binary clock c db h =
      All-append (λ o. o.document_id ≡ d → clock_of o ≤ clock + 1) db.operations
        (stored t binary clock c ∷ [])
        (All-imp (λ o. o.document_id ≡ d → clock_of o ≤ clock)
          (λ o. o.document_id ≡ d → clock_of o ≤ clock + 1) (λ o le same. omega (arith, le same))
          db.operations h)
        ((λ same. omega arith), tt)

  after-IsLamport :
      (t : Generated) (binary : Bytes) (clock : ℕ) (c : Classified) (db : Database)
      → IsBelow clock db
      → IsLamport db.operations
      → IsLamport (after t binary clock c db).operations
  after-IsLamport t binary clock c db h k =
      IsLamport-snoc db.operations (stored t binary clock c) k (
        All-imp (λ o. o.document_id ≡ d → clock_of o ≤ clock)
          (λ o. o.document_id ≡ d → clock_of o < clock + 1) (λ o le same. omega (arith, le same))
          db.operations h)

  abbrev rest_after :
      Generated
      → Bytes
      → ℕ
      → Classified
      → List (Generated × Bytes)
      → Database
      → Result (List ℕ) × Database
  rest_after t binary clock c bs db =
      (store_each classify d user (clock + 1) bs >>= λ ids. pure (t.outbox_id ∷ ids))
        (after t binary clock c db)

  module _ (t : Generated) (binary : Bytes) (clock : ℕ) (bs : List (Generated × Bytes))
      (db : Database) where
    store_each-known :
        (c : Classified)
        → classify binary ≡ ok c
        → has_parents db (stored t binary clock c) ≡ true
        → store_each classify d user clock ((t, binary) ∷ bs) db ≡ rest_after t binary clock c bs db
    store_each-known c is_ok known = simp (is_ok, known) refl

    store_each-orphan :
        (c : Classified)
        → classify binary ≡ ok c
        → has_parents db (stored t binary clock c) ≡ false
        → (store_each classify d user clock ((t, binary) ∷ bs) db).1 ≡ db
    store_each-orphan c is_ok orphan = simp (is_ok, orphan) refl

  store_each-IsLamport :
      (bs : List (Generated × Bytes)) (clock : ℕ) (db : Database)
      → IsBelow clock db
      → IsLamport db.operations
      → IsLamport (store_each classify d user clock bs db).1.operations
  store_each-IsLamport [] clock db h k = k
  store_each-IsLamport ((t, binary) ∷ bs) clock db h k = go (classify binary) refl (λ c.
      store_each-IsLamport bs (clock + 1) (after t binary clock c db)
        (after-IsBelow t binary clock c db h) (after-IsLamport t binary clock c db h k))
    where
      go :
          (r : Result Classified)
          → classify binary ≡ r
          → ((c : Classified)
              → IsLamport
                  (store_each classify d user
                    (clock + 1)
                    bs
                    (after t binary clock c db)).1.operations)
          → IsLamport (store_each classify d user clock ((t, binary) ∷ bs) db).1.operations
      go (err e) is_r rest = rw is_r k
      go (ok c) is_r rest = elim (Bool-cases (has_parents db (stored t binary clock c))) [
        | inr orphan ↦ rw (store_each-orphan t binary clock bs db c is_r orphan) k
        | inl known ↦
            rw
              (
                store_each-known t binary clock bs db c is_r known,
                state-bind_pure (store_each classify d user (clock + 1) bs)
                    (λ ids. t.outbox_id ∷ ids) (after t binary clock c db),
              )
              (rest c)
      ]

  -- Storing the updates of accepted edits, as many as there are: if the clocks of each document
  -- strictly increase along the table of operations before, they do so after.
  pub store_updates-IsLamport :
      (bs : List (Generated × Bytes)) (db : Database)
      → IsLamport db.operations
      → IsLamport (store_updates classify d user bs db).1.operations
  unfolding store_updates
  store_updates-IsLamport bs db k =
      transaction_cases (λ r. IsLamport r.1.operations) (store_body classify d user bs) db
        (λ ids db' e. subst (λ (r : Result (List ℕ) × Database). IsLamport r.1.operations) e body)
        (λ x db' e. k)
    where
      body : IsLamport (store_body classify d user bs db).1.operations
      body =
          store_each-IsLamport bs (max_clock d db.operations) db (max_clock-above d db.operations) k
