-- ===== src/Yjs/Classes.antt =====
-- What `classifyUpdate` of src/yjs/yjs.service.ts says of an update, against a description that
-- only asks which kinds of content the update has.
use meridian_backend.Prelude.{
  ℕ, zero, suc, ◌+◌, ◌≤◌, Bool, true, false, Option, none, some, List, [], ◌∷◌, ok, ◌≡◌, refl,
  arith, All, All-imp, any, is_some, if◌then◌else◌, ◌||◌, String, length,
}
use meridian_backend.Schema.{Bytes, OperationType, insert, delete, format, yjs_update}
use meridian_backend.Operations.{Classified}
use meridian_backend.Yjs.{
  Struct, Update, has_string, has_format, find_content, received_clock_of, Found, keep_first,
  classify_by, classify_deleted, classify_update,
}

abbrev pub has_entries : List (ℕ × List ℕ) → Bool
has_entries [] = false
has_entries (c ∷ cs) = true

-- New text first, then marks, then deletions, also beside structs of other kinds; anything else
-- stays an opaque update.
abbrev pub kind_of : Update → OperationType
kind_of u =
    if any (λ s. is_some (has_string s)) u.structs
    then insert
    else if any (λ s. is_some (has_format s)) u.structs
    then format
    else if has_entries u.deleted
    then delete
    else yjs_update

module _ {A : Type 0} (f : Struct → Option A) where
  keep_first-is_some :
      (s : Struct) (ss : List Struct) (rest : Found A) (o : Option A)
      → (is_some o || is_some rest) ≡ is_some (keep_first s ss rest o)
  keep_first-is_some s ss rest none = refl
  keep_first-is_some s ss rest (some a) = refl

  any-find_content : (ss : List Struct) → any (λ s. is_some (f s)) ss ≡ is_some (find_content f ss)
  any-find_content [] = refl
  any-find_content (s ∷ ss) =
      rw (any-find_content ss) (keep_first-is_some s ss (find_content f ss) (f s))

received_clock_of-above :
    (ss : List Struct) → All (λ s. s.id.clock + s.length ≤ received_clock_of ss) ss
received_clock_of-above [] = tt
received_clock_of-above (s ∷ ss) = (
  ground arith,
  All-imp (λ x. x.id.clock + x.length ≤ received_clock_of ss)
      (λ x. x.id.clock + x.length ≤ received_clock_of (s ∷ ss)) (λ x le. ground (arith, le)) ss
      (received_clock_of-above ss),
)

deleted_kind :
    (clock count : ℕ) (ds : List (ℕ × List ℕ)) (c : Classified)
    → classify_deleted clock ds count ≡ ok c
    → (c.type ≡ (if has_entries ds then delete else yjs_update)) × (c.received_clock ≡ clock)
deleted_kind clock count ((client, start ∷ starts) ∷ clients) c h = (ground arith, ground arith)
deleted_kind clock count ((client, []) ∷ clients) c h = cc h
deleted_kind clock zero [] c h = cc h
deleted_kind clock (suc count) [] c h = (ground arith, ground arith)

classify_by-kind :
    (clock : ℕ) (u : Update) (strings : Found Bytes) (marks : Found (String × String))
    (c : Classified)
    → classify_by clock u strings marks ≡ ok c
    → (c.type ≡ (
        if is_some strings
        then insert
        else if is_some marks
        then format
        else if has_entries u.deleted
        then delete
        else yjs_update))
      × (c.received_clock ≡ clock)
classify_by-kind clock u (some (s, (str, rest))) marks c h = (ground arith, ground arith)
classify_by-kind clock u none (some (s, ((key, value), rest))) c h = (ground arith, ground arith)
classify_by-kind clock u none none c h = deleted_kind clock (length u.structs) u.deleted c h

module _ (u : Update) (c : Classified) where
  classified_kind :
      classify_update u ≡ ok c
      → (c.type ≡ kind_of u) × (c.received_clock ≡ received_clock_of u.structs)
  unfolding classify_update
  classified_kind h =
      rw (any-find_content has_string u.structs, any-find_content has_format u.structs)
        (classify_by-kind (received_clock_of u.structs) u (find_content has_string u.structs)
          (find_content has_format u.structs) c h)

  -- Where an update is classified: its type is decided by the kinds of content that it has, new
  -- text before marks, and marks before deletions, which decide whatever other structs there are;
  -- and its clock is at least the end of every struct.
  pub classify_update-kind :
      classify_update u ≡ ok c
      → (c.type ≡ kind_of u) × All (λ s. s.id.clock + s.length ≤ c.received_clock) u.structs
  classify_update-kind h =
      ((classified_kind h).0, rw (classified_kind h).1 (received_clock_of-above u.structs))
