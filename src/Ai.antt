-- ===== src/Ai.antt =====
-- src/ai/ai.service.ts: where an edit's quoted text is found in the document, and how the updates of
-- accepted edits are stored.
pub mod Nearest
pub mod Storage
pub mod Content
pub mod Chat
pub mod Whitespace
pub mod Levenshtein
pub mod Validation
mod Tests
use meridian_backend.Prelude.{
  ℕ, ◌+◌, ◌-◌, Bool, true, false, Option, none, some, List, [], ◌∷◌, length, Action, Result, ok,
  err, pure, transaction, ◌>>=◌, ltb, if◌then◌else◌, ◌==◌, ◌&&◌,
}
use meridian_backend.Schema.{Bytes, Operation, ai, Database}
use meridian_backend.Operations.{
  Generated, Classified, NewOperation, get_max_clock_value, insert_operation, insert_outbox_entry,
}

-- `Math.abs(a - b)`
abbrev pub distance : ℕ → ℕ → ℕ
distance a b = (a - b) + (b - a)

abbrev pub is_prefix : Bytes → Bytes → Bool
is_prefix [] text = true
is_prefix (c ∷ needle) [] = false
is_prefix (c ∷ needle) (d ∷ text) = c == d && is_prefix needle text

-- The best match so far: where it begins and its distance.
abbrev pub is_nearer : ℕ → Option (ℕ × ℕ) → Bool
is_nearer d none = true
is_nearer d (some (start, best)) = ltb d best

abbrev pub consider : Bytes → ℕ → Bytes → ℕ → Option (ℕ × ℕ) → Option (ℕ × ℕ)
consider needle preferred suffix index best =
    if is_prefix needle suffix && is_nearer (distance index preferred) best
    then some (index, distance index preferred)
    else best

-- The loop of `findNearestExactText`, over the text from `index` on: `indexOf` stops at the indices
-- at which the needle begins, from left to right.
abbrev pub scan : Bytes → ℕ → Bytes → ℕ → Option (ℕ × ℕ) → Option (ℕ × ℕ)
scan needle preferred [] index best = consider needle preferred [] index best
scan needle preferred (c ∷ text) index best =
    scan needle preferred text (index + 1) (consider needle preferred (c ∷ text) index best)

-- `{ start, end }`, or what the search that ignores the kind of white space finds.
abbrev pub range_or : Bytes → Option (ℕ × ℕ) → Option (ℕ × ℕ) → Option (ℕ × ℕ)
range_or needle none fallback = fallback
range_or needle (some (start, best)) fallback = some (start, start + length needle)

unfoldable pub find_nearest_exact_text :
    (Bytes → Bytes → ℕ → Option (ℕ × ℕ)) → Bytes → Bytes → ℕ → Option (ℕ × ℕ)
find_nearest_exact_text insensitive text needle preferred =
    range_or needle (scan needle preferred text 0 none) (insensitive text needle preferred)

abbrev pub ai_operation_data : ℕ → ℕ → Bytes → Classified → ℕ → NewOperation
ai_operation_data document_id user_id binary classified clock = record {
  document_id = document_id;
  user_id = user_id;
  yjs_update = binary;
  type = classified.type;
  source = ai;
  payload = some classified.payload;
  clock_value = clock;
}

abbrev pub from_result : {A : Type 0} → Result A → Action Database A
from_result r db = (r, db)

module _ (classify : Bytes → Result Classified) (document_id user_id : ℕ) where
  -- The loop of the transaction of `applyOps`, with what Postgres generates for each update.
  abbrev pub store_each : ℕ → List (Generated × Bytes) → Action Database (List ℕ)
  store_each clock [] = pure []
  store_each clock ((t, binary) ∷ rest) = do
    classified ← from_result (classify binary)
    op ← insert_operation t (ai_operation_data document_id user_id binary classified (clock + 1))
    outbox_id ← insert_outbox_entry t document_id op.id binary
    ids ← store_each (clock + 1) rest
    pure (outbox_id ∷ ids)

  abbrev pub store_body : List (Generated × Bytes) → Action Database (List ℕ)
  store_body binaries = do clock ← get_max_clock_value document_id; store_each clock binaries

  unfoldable pub store_updates : List (Generated × Bytes) → Action Database (List ℕ)
  store_updates binaries = transaction (store_body binaries)
