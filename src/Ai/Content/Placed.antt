-- ===== src/Ai/Content/Placed.antt =====
-- What `checkContentExistence` of src/ai/ai.service.ts lets through.
use meridian_backend.Prelude.{
  ℕ, suc, ◌+◌, Bool, true, Option, none, some, List, [], ◌∷◌, length, length-append, All,
  All-append, ◌≡◌, refl, ◌⊎◌, inl, inr, arith, Bool-cases,
}
use meridian_backend.Schema.{Bytes}
use meridian_backend.Ai.Content.{
  RangeEdit, AnchorPosition, AiOp, insert_op, range_op, ContentCheck, all_exact, fuzzy_match,
  partial, slice, same_text, Progress, accept, reject, at_anchor, Round, go_on, stop,
  place_anchored, place_range, check_op, conclude, after_round, check_rest, check_content_existence,
}

same_text_sound : (xs ys : Bytes) → same_text xs ys ≡ true → xs ≡ ys
same_text_sound [] [] h = refl
same_text_sound [] (d ∷ ys) h = cc h
same_text_sound (c ∷ xs) [] h = cc h
same_text_sound (c ∷ xs) (d ∷ ys) h = ground (arith, same_text_sound xs ys)

module _ (find : Bytes → ℕ → Option (ℕ × ℕ)) (similar : Bytes → Bytes → Bool) (text : Bytes) where
  -- An insertion with an anchor is at an end of a match of the anchor; a range holds the text that
  -- it quotes, or is a match of it.
  abbrev pub IsPlaced : AiOp → Type 0
  IsPlaced (insert_op position inserted none) = Unit
  IsPlaced (insert_op position inserted (some (anchor, side))) =
      (near : ℕ) × (m : ℕ × ℕ) × (find anchor near ≡ some m) × (position ≡ at_anchor side m)
  IsPlaced (range_op edit start end_ expected) =
      (expected ≡ slice start end_ text) ⊎ ((near : ℕ) × (find expected near ≡ some (start, end_)))

  abbrev IsGood : ℕ → Progress → Type 0
  IsGood n p = All IsPlaced p.valid × (length p.valid + length p.rejected ≡ n)

  abbrev IsGoodRound : ℕ → Round → Type 0
  IsGoodRound n (go_on p) = IsGood n p
  IsGoodRound n (stop expected actual) = Unit

  accept-IsGood :
      (op : AiOp) (n : ℕ) (p : Progress) → IsPlaced op → IsGood n p → IsGood (suc n) (accept op p)
  accept-IsGood op n p placed (all, count) = (
    All-append IsPlaced p.valid (op ∷ []) all (placed, tt),
    omega (arith, count, length-append p.valid (op ∷ [])),
  )

  reject-IsGood : (index n : ℕ) (p : Progress) → IsGood n p → IsGood (suc n) (reject index p)
  reject-IsGood index n p (all, count) =
      (all, omega (arith, count, length-append p.rejected (index ∷ [])))

  place_anchored-IsGood :
      (position : ℕ) (inserted anchor : Bytes) (side : AnchorPosition) (index n : ℕ) (p : Progress)
      (o : Option (ℕ × ℕ))
      → find anchor position ≡ o
      → IsGood n p
      → IsGoodRound
          (suc n)
          (place_anchored find similar text position inserted anchor side index p o)
  place_anchored-IsGood position inserted anchor side index n p none is_o h =
      reject-IsGood index n p h
  place_anchored-IsGood position inserted anchor side index n p (some m) is_o h =
      accept-IsGood (insert_op (at_anchor side m) inserted (some (anchor, side))) n p
        (position, m, is_o, refl) h

  place_range-IsGood :
      (edit : RangeEdit) (start end_ : ℕ) (expected : Bytes) (index n : ℕ) (p : Progress)
      (o : Option (ℕ × ℕ))
      → find expected start ≡ o
      → IsGood n p
      → IsGoodRound (suc n) (place_range find similar text edit start end_ expected index p o)
  place_range-IsGood edit start end_ expected index n p (some m) is_o h =
      accept-IsGood (range_op edit m.0 m.1 expected) n p (inr (start, is_o)) h
  place_range-IsGood edit start end_ expected index n p none is_o h =
      elim (Bool-cases (similar expected (slice start end_ text))) [
        | inl alike ↦ rw alike tt
        | inr unlike ↦ rw unlike (reject-IsGood index n p h)
      ]

  check_op-IsGood :
      (op : AiOp) (index n : ℕ) (p : Progress)
      → IsGood n p
      → IsGoodRound (suc n) (check_op find similar text op index p)
  check_op-IsGood (insert_op position inserted none) index n p h = accept-IsGood _ n p tt h
  check_op-IsGood (insert_op position inserted (some (anchor, side))) index n p h =
      place_anchored-IsGood position inserted anchor side index n p (find anchor position) refl h
  check_op-IsGood (range_op edit start end_ expected) index n p h =
      elim (Bool-cases (same_text expected (slice start end_ text))) [
        | inl exact ↦ rw exact (
            accept-IsGood (range_op edit start end_ expected) n p
              (inl (same_text_sound expected (slice start end_ text) exact)) h)
        | inr moved ↦
            rw moved
              (place_range-IsGood edit start end_ expected index n p (find expected start) refl h)
      ]

  -- What the check's outcome says of so many operations.
  abbrev pub Passes : ℕ → ContentCheck → Type 0
  Passes n (all_exact valid) = All IsPlaced valid × (length valid ≡ n)
  Passes n (partial valid rejected) = All IsPlaced valid × (length valid + length rejected ≡ n)
  Passes n (fuzzy_match index expected actual) = Unit

  conclude-Passes :
      (n : ℕ) (valid : List AiOp) (rejected : List ℕ)
      → All IsPlaced valid
      → length valid + length rejected ≡ n
      → Passes n (conclude valid rejected)
  conclude-Passes n valid [] all count = (all, omega (arith, count))
  conclude-Passes n valid (index ∷ more) all count = (all, count)

  after_round-Passes :
      (n total index : ℕ) (rest : Progress → ContentCheck) (r : Round)
      → IsGoodRound n r
      → ((p : Progress) → IsGood n p → Passes total (rest p))
      → Passes total (after_round rest index r)
  after_round-Passes n total index rest (go_on p) h k = k p h
  after_round-Passes n total index rest (stop expected actual) h k = tt

  check_rest-Passes :
      (ops : List AiOp) (index n total : ℕ) (p : Progress)
      → length ops + n ≡ total
      → IsGood n p
      → Passes total (check_rest find similar text ops index p)
  check_rest-Passes [] index n total p sum (all, count) =
      conclude-Passes total p.valid p.rejected all (omega (arith, count, sum))
  check_rest-Passes (op ∷ ops) index n total p sum h =
      after_round-Passes (suc n) total index (check_rest find similar text ops (index + 1))
        (check_op find similar text op index p) (check_op-IsGood op index n p h)
        (λ p' good. check_rest-Passes ops (index + 1) (suc n) total p' (omega (arith, sum)) good)

  -- Where the check lets operations through, every one of them is placed: a range holds the text
  -- that it quotes or is a match of it, and an anchored insertion is at an end of a match of its
  -- anchor. Those let through and those rejected are as many as were given, and none is rejected
  -- where all are exact.
  pub check_content_existence-Passes :
      (ops : List AiOp) → Passes (length ops) (check_content_existence find similar text ops)
  unfolding check_content_existence
  check_content_existence-Passes ops =
      check_rest-Passes ops 0 0 (length ops) _ (omega arith) (tt, omega arith)
