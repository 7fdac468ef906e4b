-- ===== src/Ai/Whitespace/Matches.antt =====
-- What the search that ignores the kind of white space finds.
use meridian_backend.Prelude.{
  ℕ, zero, suc, ◌+◌, ◌-◌, Bool, true, false, Option, none, some, [], ◌∷◌, ◌≡◌, ◌∙◌, ap, sym, refl,
  length, arith, if◌then◌else◌, if_both, ◌&&◌,
}
use meridian_backend.Schema.{Bytes}
use meridian_backend.Ai.{distance, is_nearer}
use meridian_backend.Ai.Content.{take, skip, slice, same_text}
use meridian_backend.Ai.Whitespace.{
  normalize_anchor_text, normalized_from, consider_normalized, scan_normalized, range_of_best,
  find_nearest_whitespace_insensitive_text,
}

-- The best start so far is one from which the text reads like the needle.
abbrev IsMatch : Bytes → Bytes → Option (ℕ × ℕ) → Type 0
IsMatch text needle none = Unit
IsMatch text needle (some (start, best)) =
    same_text (normalized_from needle (skip start text)) needle ≡ true

considered :
    (text needle suffix : Bytes) (preferred start : ℕ) (best : Option (ℕ × ℕ)) (b : Bool)
    → suffix ≡ skip start text
    → same_text (normalized_from needle suffix) needle ≡ b
    → IsMatch text needle best
    → IsMatch text needle (
        if b && is_nearer (distance start preferred) best
        then some (start, distance start preferred)
        else best)
considered text needle suffix preferred start best true at_ e h =
    if_both (IsMatch text needle) (is_nearer (distance start preferred) best)
      (some (start, distance start preferred)) best
      (ap (λ s. same_text (normalized_from needle s) needle) (sym at_) ∙ e) h
considered text needle suffix preferred start best false at_ e h = h

tail : Bytes → Bytes
tail [] = []
tail (c ∷ rest) = rest

skip_next :
    (start : ℕ) (text rest : Bytes) (c : ℕ)
    → (c ∷ rest) ≡ skip start text
    → rest ≡ skip (suc start) text
unfolding tail
skip_next zero [] rest c h = ap tail h
skip_next zero (d ∷ text) rest c h = ap tail h
skip_next (suc start) [] rest c h = ap tail h
skip_next (suc start) (d ∷ text) rest c h = skip_next start text rest c h

scan_normalized-IsMatch :
    (text needle suffix : Bytes) (preferred start : ℕ) (best : Option (ℕ × ℕ))
    → suffix ≡ skip start text
    → IsMatch text needle best
    → IsMatch text needle (scan_normalized needle preferred suffix start best)
scan_normalized-IsMatch text needle [] preferred start best at_ h = h
scan_normalized-IsMatch text needle (c ∷ suffix) preferred start best at_ h =
    scan_normalized-IsMatch text needle suffix preferred (start + 1)
      (consider_normalized needle preferred (c ∷ suffix) start best)
      (skip_next start text suffix c at_ ∙ ap (λ i. skip i text) one_more)
      (considered text needle (c ∷ suffix) preferred start best _ at_ refl h)
  where
    one_more : suc start ≡ start + 1
    one_more = omega arith

-- A range of the text reads like the needle, up to the kind of its white space.
abbrev pub ReadsLike : Bytes → Bytes → Option (ℕ × ℕ) → Type 0
ReadsLike text needle none = Unit
ReadsLike text needle (some (start, end_)) =
    same_text (normalize_anchor_text (slice start end_ text)) (normalize_anchor_text needle) ≡ true

range_of_best-reads :
    (text needle : Bytes) (best : Option (ℕ × ℕ))
    → IsMatch text (normalize_anchor_text needle) best
    → ReadsLike text needle (range_of_best (normalize_anchor_text needle) best)
range_of_best-reads text needle none h = tt
range_of_best-reads text needle (some (start, best)) h =
    ap
      (λ n.
        same_text (normalize_anchor_text (take n (skip start text))) (normalize_anchor_text needle))
      width
    ∙ h
  where
    width :
        start + length (normalize_anchor_text needle) - start
        ≡ length (normalize_anchor_text needle)
    width = omega arith

-- A range that the search finds reads like the needle, up to the kind of its white space.
pub find_nearest_whitespace_insensitive_text-ReadsLike :
    (text needle : Bytes) (preferred : ℕ)
    → ReadsLike text needle (find_nearest_whitespace_insensitive_text text needle preferred)
unfolding find_nearest_whitespace_insensitive_text
find_nearest_whitespace_insensitive_text-ReadsLike text [] preferred = tt
find_nearest_whitespace_insensitive_text-ReadsLike text (c ∷ needle) preferred =
    range_of_best-reads text (c ∷ needle)
      (scan_normalized (normalize_anchor_text (c ∷ needle)) preferred text 0 none)
      (scan_normalized-IsMatch text (normalize_anchor_text (c ∷ needle)) text preferred 0 none refl
        tt)
