-- ===== src/Yjs/Tests.antt =====
-- Tests of src/yjs, and its theorems at concrete inputs.
use meridian_backend.Prelude.{ℕ, ◌+◌, ◌≤◌, ok, some, [], ◌∷◌, ◌≡◌, refl, All}
use meridian_backend.Schema.{format, format_payload, delete, delete_payload, StructId}
use meridian_backend.Operations.{Classified}
use meridian_backend.Yjs.{Update, format_content, other_content, classify_update}
use meridian_backend.Yjs.Classes.{kind_of, classify_update-kind}

abbrev at_clock : ℕ → StructId
at_clock n = record { client = 5; clock = n }

-- Two marks that enclose a range, with the deletions that a full diff carries along.
abbrev marks : Update
marks = record {
  structs =
      record { id = at_clock 8; length = 1; content = some (format_content "bold" "true") }
      ∷ record { id = at_clock 3; length = 2; content = some other_content }
      ∷ record { id = at_clock 9; length = 1; content = some (format_content "bold" "null") }
      ∷ [];
  deleted = (5, 1 ∷ []) ∷ [];
}

abbrev bold : Classified
bold = record {
  type = format;
  payload = format_payload (at_clock 8) (at_clock 9) "bold" "true";
  received_clock = 10;
}

marks_are_bold : classify_update marks ≡ ok bold
unfolding classify_update
marks_are_bold = refl

-- A struct without text or marks of its own, beside deletions.
abbrev embed : Update
embed = record {
  structs = record { id = at_clock 3; length = 2; content = some other_content } ∷ [];
  deleted = (5, 1 ∷ []) ∷ [];
}

embed_is_delete :
    classify_update embed
    ≡ ok (record { type = delete; payload = delete_payload (at_clock 1); received_clock = 5 })
unfolding classify_update
embed_is_delete = refl

classify_update-kind_example :
    (bold.type ≡ kind_of marks)
    × All (λ s. s.id.clock + s.length ≤ bold.received_clock) marks.structs
classify_update-kind_example = classify_update-kind marks bold marks_are_bold
