-- ===== src/Ai/Whitespace.antt =====
-- `findNearestWhitespaceInsensitiveText` of src/ai/ai.service.ts: the nearest range that holds the
-- quoted text up to the kind of its white space.
pub mod Matches
use meridian_backend.Prelude.{
  ℕ, ◌+◌, Bool, Option, none, some, List, [], ◌∷◌, map, length, leb, if◌then◌else◌, ◌==◌, ◌&&◌,
  ◌||◌,
}
use meridian_backend.Schema.{Bytes}
use meridian_backend.Ai.{distance, is_nearer, find_nearest_exact_text}
use meridian_backend.Ai.Content.{take, same_text}

-- `\s`
abbrev pub is_white : ℕ → Bool
is_white c =
    leb 9 c && leb c 13
    || c == 32
    || c == 160
    || c == 5760
    || leb 8192 c && leb c 8202
    || c == 8232
    || c == 8233
    || c == 8239
    || c == 8287
    || c == 12288
    || c == 65279

abbrev pub normalize_anchor_char : ℕ → ℕ
normalize_anchor_char c = if is_white c then 32 else c

abbrev pub normalize_anchor_text : Bytes → Bytes
normalize_anchor_text = map normalize_anchor_char

-- The inner loop: a character is one character when it is normalized, so that it stops after as
-- many characters as the needle has, or at the end of the text.
abbrev pub normalized_from : Bytes → Bytes → Bytes
normalized_from needle suffix = normalize_anchor_text (take (length needle) suffix)

abbrev pub consider_normalized : Bytes → ℕ → Bytes → ℕ → Option (ℕ × ℕ) → Option (ℕ × ℕ)
consider_normalized needle preferred suffix start best =
    if same_text (normalized_from needle suffix) needle && is_nearer (distance start preferred) best
    then some (start, distance start preferred)
    else best

-- The outer loop, over the text from `start` on.
abbrev pub scan_normalized : Bytes → ℕ → Bytes → ℕ → Option (ℕ × ℕ) → Option (ℕ × ℕ)
scan_normalized needle preferred [] start best = best
scan_normalized needle preferred (c ∷ text) start best =
    scan_normalized needle preferred text (start + 1)
      (consider_normalized needle preferred (c ∷ text) start best)

abbrev pub range_of_best : Bytes → Option (ℕ × ℕ) → Option (ℕ × ℕ)
range_of_best needle none = none
range_of_best needle (some (start, best)) = some (start, start + length needle)

abbrev pub search_normalized : Bytes → Bytes → ℕ → Option (ℕ × ℕ)
search_normalized text [] preferred = none
search_normalized text (c ∷ needle) preferred =
    range_of_best (c ∷ needle) (scan_normalized (c ∷ needle) preferred text 0 none)

unfoldable pub find_nearest_whitespace_insensitive_text :
    (text needle : Bytes) → (preferred : ℕ) → Option (ℕ × ℕ)
find_nearest_whitespace_insensitive_text text needle preferred =
    search_normalized text (normalize_anchor_text needle) preferred

-- `findNearestExactText` with it.
abbrev pub find_nearest_text : (text needle : Bytes) → (preferred : ℕ) → Option (ℕ × ℕ)
find_nearest_text = find_nearest_exact_text find_nearest_whitespace_insensitive_text
