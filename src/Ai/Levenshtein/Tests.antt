-- ===== src/Ai/Levenshtein/Tests.antt =====
-- The table at two concrete texts.
use meridian_backend.Prelude.{[], ◌∷◌, ◌≡◌, ◌≤◌, refl}
use meridian_backend.Schema.{Bytes}
use meridian_backend.Ai.Levenshtein.{levenshtein}
use meridian_backend.Ai.Levenshtein.Scripts.{Script, price, reversed_onto, levenshtein-cheapest}

abbrev sitting : Bytes
sitting = 1 ∷ 2 ∷ 3 ∷ 3 ∷ 2 ∷ 4 ∷ 5 ∷ []

abbrev kitten : Bytes
kitten = 6 ∷ 2 ∷ 3 ∷ 3 ∷ 7 ∷ 4 ∷ []

three_edits : levenshtein sitting kitten ≡ 3
unfolding levenshtein
three_edits = refl

levenshtein-cheapest_example :
    ((s : Script (reversed_onto sitting []) (reversed_onto kitten []))
      → levenshtein sitting kitten ≤ price s)
    × ((s : Script (reversed_onto sitting []) (reversed_onto kitten [])) × (price s
          ≡ levenshtein sitting kitten))
levenshtein-cheapest_example = levenshtein-cheapest sitting kitten
