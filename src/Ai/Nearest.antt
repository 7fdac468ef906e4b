-- ===== src/Ai/Nearest.antt =====
-- `findNearestExactText` of src/ai/ai.service.ts finds an occurrence that is nearest.
use meridian_backend.Prelude.{
  ℕ, zero, suc, ◌+◌, ◌≤◌, Bool, true, Option, none, some, [], ◌∷◌, length, ◌≡◌, refl, ap, subst,
  ◌∙◌, arith, Bool-cases, inl, inr, ltb, ◌&&◌,
}
use meridian_backend.Schema.{Bytes}
use meridian_backend.Ai.{
  distance, is_prefix, is_nearer, consider, scan, range_or, find_nearest_exact_text,
}

abbrev pub drop : ℕ → Bytes → Bytes
drop zero text = text
drop (suc n) [] = []
drop (suc n) (c ∷ text) = drop n text

-- The needle begins at an index of the text.
abbrev pub occurs_at : Bytes → Bytes → ℕ → Bool
occurs_at needle text j = is_prefix needle (drop j text)

-- A match within a distance has been found.
abbrev pub IsWithin : ℕ → Option (ℕ × ℕ) → Type 0
IsWithin d none = ⊥
IsWithin d (some (start, best)) = best ≤ d

module _ (needle : Bytes) (preferred : ℕ) where
  consider-keeps :
      (suffix : Bytes) (i d : ℕ) (best : Option (ℕ × ℕ))
      → IsWithin d best
      → IsWithin d (consider needle preferred suffix i best)
  consider-keeps suffix i d none h = elim h [ ]
  consider-keeps suffix i d (some (start, b)) h =
      elim (Bool-cases (is_prefix needle suffix && ltb (distance i preferred) b)) [
        | inl better ↦ rw better (ground arith)
        | inr worse ↦ rw worse h
      ]

  consider-finds :
      (suffix : Bytes) (i : ℕ) (best : Option (ℕ × ℕ))
      → is_prefix needle suffix ≡ true
      → IsWithin (distance i preferred) (consider needle preferred suffix i best)
  consider-finds suffix i none here = rw here (ground arith)
  consider-finds suffix i (some (start, b)) here =
      elim (Bool-cases (ltb (distance i preferred) b)) [
        | inl better ↦ rw (here, better) (ground arith)
        | inr worse ↦ rw (here, worse) (ground arith)
      ]

  scan-keeps :
      (text : Bytes) (i d : ℕ) (best : Option (ℕ × ℕ))
      → IsWithin d best
      → IsWithin d (scan needle preferred text i best)
  scan-keeps [] i d best h = consider-keeps [] i d best h
  scan-keeps (c ∷ text) i d best h =
      scan-keeps text (i + 1) d _ (consider-keeps (c ∷ text) i d best h)

  -- No occurrence is nearer than the one found.
  scan-nearest :
      (text : Bytes) (i k : ℕ) (best : Option (ℕ × ℕ))
      → k ≤ length text
      → occurs_at needle text k ≡ true
      → IsWithin (distance (i + k) preferred) (scan needle preferred text i best)
  scan-nearest [] i zero best le here =
      subst (λ j. IsWithin (distance j preferred) (scan needle preferred [] i best)) (omega arith)
        (consider-finds [] i best here)
  scan-nearest [] i (suc k) best le here = ground arith
  scan-nearest (c ∷ text) i zero best le here =
      subst (λ j. IsWithin (distance j preferred) (scan needle preferred (c ∷ text) i best))
        (omega arith)
        (scan-keeps text (i + 1) (distance i preferred) _ (consider-finds (c ∷ text) i best here))
  scan-nearest (c ∷ text) i (suc k) best le here =
      subst (λ j. IsWithin (distance j preferred) (scan needle preferred (c ∷ text) i best))
        (omega arith)
        (scan-nearest text (i + 1) k (consider needle preferred (c ∷ text) i best) (omega arith)
          here)

  module _ (whole : Bytes) where
    -- What has been found begins where the needle does, at the distance noted.
    abbrev IsFound : Option (ℕ × ℕ) → Type 0
    IsFound none = Unit
    IsFound (some (start, best)) =
        (occurs_at needle whole start ≡ true) × (best ≡ distance start preferred)

    consider-IsFound :
        (suffix : Bytes) (i : ℕ) (best : Option (ℕ × ℕ))
        → drop i whole ≡ suffix
        → IsFound best
        → IsFound (consider needle preferred suffix i best)
    consider-IsFound suffix i best at_i h =
        elim (Bool-cases (is_prefix needle suffix && is_nearer (distance i preferred) best)) [
          | inl better ↦ rw better ((ap (is_prefix needle) at_i ∙ ground arith), refl)
          | inr worse ↦ rw worse h
        ]

    drop-next :
        (i : ℕ) (xs : Bytes) (c : ℕ) (text : Bytes) → drop i xs ≡ c ∷ text → drop (i + 1) xs ≡ text
    drop-next zero [] c text h = cc h
    drop-next zero (x ∷ xs) c text h = ground arith
    drop-next (suc i) [] c text h = cc h
    drop-next (suc i) (x ∷ xs) c text h =
        ap (λ j. drop j (x ∷ xs)) {y = suc (i + 1)} (omega arith) ∙ drop-next i xs c text h

    scan-IsFound :
        (text : Bytes) (i : ℕ) (best : Option (ℕ × ℕ))
        → drop i whole ≡ text
        → IsFound best
        → IsFound (scan needle preferred text i best)
    scan-IsFound [] i best at_i h = consider-IsFound [] i best at_i h
    scan-IsFound (c ∷ text) i best at_i h =
        scan-IsFound text (i + 1) _ (drop-next i whole c text at_i)
          (consider-IsFound (c ∷ text) i best at_i h)

-- If the needle occurs in the text, then the range found begins at an occurrence, has the length of
-- the needle, and no occurrence is nearer to the preferred start.
pub find_nearest_exact_text-nearest :
    (insensitive : Bytes → Bytes → ℕ → Option (ℕ × ℕ)) (text needle : Bytes) (preferred j : ℕ)
    → j ≤ length text
    → occurs_at needle text j ≡ true
    → (start : ℕ) × (find_nearest_exact_text insensitive text needle preferred
        ≡ some (start, start + length needle))
      × (occurs_at needle text start ≡ true)
      × (distance start preferred ≤ distance j preferred)
unfolding find_nearest_exact_text
find_nearest_exact_text-nearest insensitive text needle preferred j le here =
    go (scan needle preferred text 0 none) refl
      (scan-IsFound needle preferred text text 0 none refl tt)
      (subst (λ k. IsWithin (distance k preferred) (scan needle preferred text 0 none))
        (omega arith) (scan-nearest needle preferred text 0 j none le here))
  where
    go :
        (r : Option (ℕ × ℕ))
        → scan needle preferred text 0 none ≡ r
        → IsFound needle preferred text r
        → IsWithin (distance j preferred) r
        → (start : ℕ) × (find_nearest_exact_text insensitive text needle preferred
            ≡ some (start, start + length needle))
          × (occurs_at needle text start ≡ true)
          × (distance start preferred ≤ distance j preferred)
    go none is_r found within = elim within [ ]
    go (some (start, best)) is_r found within = (
      start,
      ap (λ r. range_or needle r (insensitive text needle preferred)) is_r,
      found.0,
      omega (arith, found.1, within),
    )
