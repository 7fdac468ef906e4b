-- ===== src/Ai/Tests.antt =====
-- Tests of src/ai, and its theorems at concrete inputs.
use meridian_backend.Prelude.{
  List, Bool, false, ℕ, ◌+◌, ◌≤◌, true, none, some, Option, [], ◌∷◌, Result, ok, ◌≡◌, refl, arith,
}
use meridian_backend.Schema.{Bytes, insert, count_payload}
use meridian_backend.Samples.{shared}
use meridian_backend.Operations.{Generated, Classified}
use meridian_backend.Operations.Lamport.{IsLamport}
use meridian_backend.Ai.{distance, find_nearest_exact_text, store_updates}
use meridian_backend.Ai.Content.{
  AiOp, range_op, insert_op, delete_range, format_range, after, partial, check_content_existence,
}
use meridian_backend.Ai.Content.Placed.{Passes, check_content_existence-Passes}
use meridian_backend.Ai.Nearest.{occurs_at, find_nearest_exact_text-nearest}
use meridian_backend.Ai.Storage.{store_updates-IsLamport}

abbrev nothing : Bytes → Bytes → ℕ → Option (ℕ × ℕ)
nothing text needle preferred = none

-- `ab` begins at 0, 3 and 7; the edit asks for 5.
abbrev text : Bytes
text = 1 ∷ 2 ∷ 0 ∷ 1 ∷ 2 ∷ 0 ∷ 0 ∷ 1 ∷ 2 ∷ []

abbrev ab : Bytes
ab = 1 ∷ 2 ∷ []

the_earlier_of_two : find_nearest_exact_text nothing text ab 5 ≡ some (3, 5)
unfolding find_nearest_exact_text
the_earlier_of_two = refl

find_nearest_exact_text-nearest_example :
    (start : ℕ) × (find_nearest_exact_text nothing text ab 5 ≡ some (start, start + 2))
    × (occurs_at ab text start ≡ true)
    × (distance start 5 ≤ distance 7 5)
find_nearest_exact_text-nearest_example =
    find_nearest_exact_text-nearest nothing text ab 5 7 (omega arith) refl

abbrev classify : Bytes → Result Classified
classify bytes = ok (record { type = insert; payload = count_payload 1; received_clock = 4 })

abbrev generated : ℕ → Generated
generated n = record { id = n; sequence = n; outbox_id = n + 100; now = 60 }

store_updates-IsLamport_example :
    IsLamport
      (store_updates classify 10 1
        ((generated 1, 7 ∷ []) ∷ (generated 2, 8 ∷ []) ∷ [])
        shared).1.operations
store_updates-IsLamport_example =
    store_updates-IsLamport classify 10 1 ((generated 1, 7 ∷ []) ∷ (generated 2, 8 ∷ []) ∷ [])
      shared tt

-- A range that is exact, one that has moved, and one that is not in the text.
abbrev proposed : List AiOp
proposed =
    range_op delete_range 0 2 ab
    ∷ range_op (format_range []) 4 6 ab
    ∷ range_op delete_range 1 2 (9 ∷ [])
    ∷ insert_op 7 (5 ∷ []) (some (ab, after))
    ∷ []

abbrev never : Bytes → Bytes → Bool
never expected actual = false

one_is_rejected :
    check_content_existence (find_nearest_exact_text nothing text) never text proposed
    ≡ partial
        (range_op delete_range 0 2 ab
          ∷ range_op (format_range []) 3 5 ab
          ∷ insert_op 9 (5 ∷ []) (some (ab, after))
          ∷ [])
        (2 ∷ [])
unfolding check_content_existence find_nearest_exact_text
one_is_rejected = refl

check_content_existence-Passes_example :
    Passes
      (find_nearest_exact_text nothing text)
      never
      text
      4
      (check_content_existence (find_nearest_exact_text nothing text) never text proposed)
check_content_existence-Passes_example =
    check_content_existence-Passes (find_nearest_exact_text nothing text) never text proposed
