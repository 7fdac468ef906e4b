-- ===== src/Yjs.antt =====
-- src/yjs/yjs.service.ts: `classifyUpdate`, on what `Y.decodeUpdate` makes of an update.
pub mod Classes
mod Tests
use meridian_backend.Prelude.{
  zero, suc, ℕ, ◌+◌, max, String, Bool, true, false, Option, none, some, List, [], ◌∷◌, Result, ok,
  err, plain_error, find_where, length,
}
use meridian_backend.Schema.{
  Bytes, StructId, Payload, insert_payload, format_payload, delete_payload, count_payload, insert,
  delete, format, yjs_update,
}
use meridian_backend.Operations.{Classified}

-- The content of an item: a string, a format mark, or another kind.
pub data Content : Type 0 where
  string_content : (str : Bytes) → Content
  format_content : (key value : String) → Content
  other_content : Content

-- A struct of an update; only an item has content (`none` for a gap or collected garbage).
pub record Struct : Type 0 where
  pub id : StructId
  pub length : ℕ
  pub content : Option Content

-- The delete set lists the clients with the clocks at which their deleted ranges begin.
pub record Update : Type 0 where
  pub structs : List Struct
  pub deleted : List (ℕ × List ℕ)

abbrev pub received_clock_of : List Struct → ℕ
received_clock_of [] = 0
received_clock_of (s ∷ ss) = max (s.id.clock + s.length) (received_clock_of ss)

abbrev pub has_string : Struct → Option Bytes
has_string s = elim s.content [
  | none ↦ none
  | some c ↦ elim c [
    | string_content str ↦ some str
    | format_content k v ↦ none
    | other_content ↦ none
  ]
]

abbrev pub has_format : Struct → Option (String × String)
has_format s = elim s.content [
  | none ↦ none
  | some c ↦ elim c [
    | string_content str ↦ none
    | format_content k v ↦ some (k, v)
    | other_content ↦ none
  ]
]

-- `structs.find(…)` with what the test finds in the struct, and the structs after it.
abbrev pub Found : Type 0 → Type 0
Found A = Option (Struct × (A × List Struct))

abbrev pub keep_first : {A : Type 0} → Struct → List Struct → Found A → Option A → Found A
keep_first s ss rest none = rest
keep_first s ss rest (some a) = some (s, (a, ss))

abbrev pub find_content : {A : Type 0} → (Struct → Option A) → List Struct → Found A
find_content f [] = none
find_content f (s ∷ ss) = keep_first s ss (find_content f ss) (f s)

-- The first other struct with a format key; the one found first is the first of all, so it is
-- looked for behind it.
abbrev pub end_id : Struct → List Struct → StructId
end_id start rest = elim (find_content has_format rest) [
  | none ↦ start.id
  | some close ↦ close.0.id
]

abbrev pub classify_deleted : ℕ → List (ℕ × List ℕ) → ℕ → Result Classified
classify_deleted clock ((client, start ∷ starts) ∷ clients) count = ok (record {
  type = delete;
  payload = delete_payload (record { client = client; clock = start });
  received_clock = clock;
})
classify_deleted clock ((client, []) ∷ clients) count =
    err (plain_error "Cannot read properties of undefined (reading 'clock')")
classify_deleted clock [] zero =
    err (plain_error "Unable to classify Yjs update: no recognizable content")
classify_deleted clock [] (suc count) =
    ok (record { type = yjs_update; payload = count_payload (suc count); received_clock = clock })

-- The tests in the order of the source, on the structs that were found.
abbrev pub classify_by : ℕ → Update → Found Bytes → Found (String × String) → Result Classified
classify_by clock u (some (s, (str, rest))) marks =
    ok (record { type = insert; payload = insert_payload s.id str; received_clock = clock })
classify_by clock u none (some (s, ((key, value), rest))) = ok (record {
  type = format;
  payload = format_payload s.id (end_id s rest) key value;
  received_clock = clock;
})
classify_by clock u none none = classify_deleted clock u.deleted (length u.structs)

unfoldable pub classify_update : Update → Result Classified
classify_update u =
    classify_by (received_clock_of u.structs) u (find_content has_string u.structs)
      (find_content has_format u.structs)
