-- ===== src/Outbox/Delivery.antt =====
-- What the jobs of src/outbox/outbox.processor.ts do to a row of the outbox.
use meridian_backend.Prelude.{
  ℕ, zero, suc, Bool, true, false, ◌+◌, ◌-◌, ◌<◌, none, some, List, [], ◌∷◌, ◌++◌, length, Result,
  ok, err, Exception, ◌≡◌, refl, sym, ◌∙◌, arith, find_where, find_where_sound, update_where, subst,
  ==_refl, find_where-update_where, find_where-delete_where, ==_iff, Bool-cases, inl, inr, leb,
  if◌then◌else◌,
}
use meridian_backend.Schema.{Bytes, OutboxRow}
use meridian_backend.Outbox.{
  Broker, Random, has_row_id, get_outbox_by_id, set_attempts, retry_delay, outbox_frame_header,
  process_outbox, process_row,
}

-- A row's fate in one job: at the limit it is dropped; published, it is gone and its update is on
-- the channel of its document behind a header of zeros; otherwise it stays with one more attempt,
-- and the queue is asked for another job.
abbrev pub Fate : ℕ → ℕ → Random → OutboxRow → Broker → Broker → Result ℕ → Type 0
Fate max_attempts now r row b b' (ok receivers) =
    (get_outbox_by_id row.id b'.database ≡ none)
    × (b'.add_calls ≡ b.add_calls)
    × (b'.published ≡ (
        if leb max_attempts row.attempts
        then b.published
        else b.published ++ (row.document_id, outbox_frame_header ++ row.payload) ∷ []))
Fate max_attempts now r row b b' (err e) =
    (get_outbox_by_id row.id b'.database ≡ (
      if leb max_attempts row.attempts
      then none
      else some (set_attempts now (row.attempts + 1) row)))
    × (b'.add_calls ≡ (
        if leb max_attempts row.attempts
        then b.add_calls
        else b.add_calls
          ++ record { outbox_id = row.id; delay = some (retry_delay (row.attempts + 1) r) } ∷ []))
    × (b'.published ≡ b.published)

module _ (max_attempts now : ℕ) (r : Random) (b : Broker) (id : ℕ) (row : OutboxRow) where
  same_id : get_outbox_by_id id b.database ≡ some row → row.id ≡ id
  same_id there =
      (==_iff row.id id).0 (find_where_sound (has_row_id id) b.database.outbox row there)

  updated_row :
      get_outbox_by_id id b.database ≡ some row
      → find_where
          (has_row_id row.id)
          (update_where (has_row_id row.id) (set_attempts now (row.attempts + 1)) b.database.outbox)
        ≡ some (set_attempts now (row.attempts + 1) row)
  updated_row there =
      find_where-update_where (has_row_id row.id) (has_row_id row.id)
        (set_attempts now (row.attempts + 1)) (λ a. refl) b.database.outbox row
        (subst (λ i. find_where (has_row_id i) b.database.outbox ≡ some row) (sym (same_id there))
          there)
      ∙ rw (==_refl row.id) refl

  process_row-Fate :
      (outcome : Result ℕ)
      → get_outbox_by_id id b.database ≡ some row
      → Fate max_attempts now r row b (process_row max_attempts now r outcome b (some row)) outcome
  process_row-Fate (ok n) there = elim (Bool-cases (leb max_attempts row.attempts)) [
    | inl spent ↦
        rw spent (find_where-delete_where (has_row_id row.id) b.database.outbox, refl, refl)
    | inr live ↦ rw live (find_where-delete_where (has_row_id row.id) b.database.outbox, refl, refl)
  ]
  process_row-Fate (err e) there = elim (Bool-cases (leb max_attempts row.attempts)) [
    | inl spent ↦
        rw spent (find_where-delete_where (has_row_id row.id) b.database.outbox, refl, refl)
    | inr live ↦ rw live (updated_row there, refl, refl)
  ]

  -- A job for a row that is there decides its fate by what Redis answers and by the limit.
  pub process_outbox-Fate :
      (outcome : Result ℕ)
      → get_outbox_by_id id b.database ≡ some row
      → Fate max_attempts now r row b (process_outbox max_attempts now r outcome id b) outcome
  unfolding process_outbox
  process_outbox-Fate outcome there = rw there (process_row-Fate outcome there)

  -- The row after a job, looked up by the id in the job.
  after_ok :
      (n : ℕ)
      → get_outbox_by_id id b.database ≡ some row
      → get_outbox_by_id id (process_outbox max_attempts now r (ok n) id b).database ≡ none
  after_ok n there =
      subst
        (λ i. get_outbox_by_id i (process_outbox max_attempts now r (ok n) id b).database ≡ none)
        (same_id there) (process_outbox-Fate (ok n) there).0

  after_err :
      (e : Exception)
      → get_outbox_by_id id b.database ≡ some row
      → get_outbox_by_id id (process_outbox max_attempts now r (err e) id b).database ≡ (
          if leb max_attempts row.attempts
          then none
          else some (set_attempts now (row.attempts + 1) row))
  after_err e there =
      subst
        (λ i. get_outbox_by_id i (process_outbox max_attempts now r (err e) id b).database ≡ (
          if leb max_attempts row.attempts
          then none
          else some (set_attempts now (row.attempts + 1) row)))
        (same_id there) (process_outbox-Fate (err e) there).0

-- Jobs for one row, one after the other, with what each of them is answered.
abbrev pub process_all : ℕ → List (ℕ × Random × Result ℕ) → ℕ → Broker → Broker
process_all max_attempts [] id b = b
process_all max_attempts ((now, r, outcome) ∷ rest) id b =
    process_all max_attempts rest id (process_outbox max_attempts now r outcome id b)

module _ (max_attempts id : ℕ) where
  process_outbox-gone :
      (now : ℕ) (r : Random) (outcome : Result ℕ) (b : Broker)
      → get_outbox_by_id id b.database ≡ none
      → process_outbox max_attempts now r outcome id b ≡ b
  unfolding process_outbox
  process_outbox-gone now r outcome b gone = rw gone refl

  stays_gone :
      (jobs : List (ℕ × Random × Result ℕ)) (b : Broker)
      → get_outbox_by_id id b.database ≡ none
      → get_outbox_by_id id (process_all max_attempts jobs id b).database ≡ none
  stays_gone [] b gone = gone
  stays_gone ((now, r, outcome) ∷ rest) b gone =
      stays_gone rest _ (rw (process_outbox-gone now r outcome b gone) gone)

  -- A row that is there leaves the outbox after at most one job more than the attempts it has left,
  -- whatever Redis answers and whenever the jobs run.
  pub process_all-empties :
      (jobs : List (ℕ × Random × Result ℕ)) (b : Broker) (row : OutboxRow)
      → get_outbox_by_id id b.database ≡ some row
      → max_attempts - row.attempts < length jobs
      → get_outbox_by_id id (process_all max_attempts jobs id b).database ≡ none
  process_all-empties [] b row there few = ground arith
  process_all-empties ((now, r, ok n) ∷ rest) b row there few =
      stays_gone rest _ (after_ok max_attempts now r b id row n there)
  process_all-empties ((now, r, err e) ∷ rest) b row there few =
      let after = after_err max_attempts now r b id row e there in
      elim (Bool-cases (leb max_attempts row.attempts)) [
        | inl spent ↦ stays_gone rest _ (after ∙ rw spent refl)
        | inr live ↦
            process_all-empties rest (process_outbox max_attempts now r (err e) id b)
              (set_attempts now (row.attempts + 1) row) (after ∙ rw live refl) (ground arith)
      ]

-- One of so many first jobs is answered by Redis.
abbrev pub acknowledged : ℕ → List (ℕ × Random × Result ℕ) → Bool
acknowledged zero jobs = false
acknowledged (suc left) [] = false
acknowledged (suc left) ((now, r, ok receivers) ∷ jobs) = true
acknowledged (suc left) ((now, r, err e) ∷ jobs) = acknowledged left jobs

-- The update of a row, in the channel of its document.
abbrev pub frame_of : OutboxRow → ℕ × Bytes
frame_of row = (row.document_id, outbox_frame_header ++ row.payload)
