-- ===== src/Ai/Chat.antt =====
-- src/ai/ai.service.ts: from a message to edits of the document (chat), to a staged proposal
-- (proposeChat), and from a proposal to edits (acceptProposal, declineProposal). The edits of a Yjs
-- document, the answers of the model and JSON are an interface.
pub mod Requests
mod Outcomes
pub mod Acceptance
pub mod Ordering
mod Tests
use meridian_backend.Prelude.{
  ℕ, ◌+◌, ◌-◌, String, Bool, true, false, not, Option, none, some, List, [], ◌∷◌, ◌++◌, length,
  Action, Result, ok, err, Exception, pure, gets, modify, throw, throw_if, or_throw, ◌>>=◌, ◌>>◌,
  conflict, plain_error, ai_scope, ai_content_existence, ai_reconfirm, proposal_gone, ltb, leb, any,
  if◌then◌else◌, ◌==◌, ◌&&◌, ◌||◌, and_then,
}
use meridian_backend.Schema.{Bytes, Database}
use meridian_backend.Operations.{Generated, Classified, operations_since}
use meridian_backend.Snapshots.{YjsDocs, latest_snapshot, after_sequence, restore, replay}
use meridian_backend.Redis.{Redis, stage_proposal, peek_proposal, consume_proposal, delete_proposal}
use meridian_backend.Ai.Whitespace.{find_nearest_text}
use meridian_backend.Ai.{find_nearest_exact_text, store_updates}
use meridian_backend.Ai.Content.{
  RangeEdit, delete_range, format_range, AiOp, insert_op, range_op, ContentCheck, all_exact,
  fuzzy_match, partial, take, check_content_existence,
}

-- The proposal in Redis.
pub record StagedProposal : Type 0 where
  pub document_id : ℕ
  pub author_id : ℕ
  pub instruction : Bytes
  pub operations : List AiOp
  pub before : Bytes
  pub after : Bytes
  pub created_at : ℕ

-- What the model says of the scope: a failed call or an answer without the shape, or a verdict with
-- a reason, for which there is a default.
pub data ScopeReply : Type 0 where
  no_verdict : ScopeReply
  verdict : (scope_valid : Bool) → (violation_reason : Option Bytes) → ScopeReply

-- Yjs and the edits of src/yjs/yjs.service.ts, what generateValidatedOps gives, with ranges of
-- natural numbers, JSON, the configuration, and whether BullMQ takes a delivery.
pub record Tools (Doc : Type 0) : Type 0 where
  pub yjs : YjsDocs Doc
  pub insert_text : (position : ℕ) → Bytes → Doc → Doc
  pub delete_text : (start count : ℕ) → Doc → Doc
  pub format_text : (start count : ℕ) → (attributes : Bytes) → Doc → Doc
  pub materialize : Doc → Doc
  pub extract_text : Doc → Bytes
  pub encode_since : (before : List (ℕ × ℕ)) → Doc → Bytes
  pub classify : Bytes → Result Classified
  pub similar : Bytes → Bytes → Bool
  pub generate : (text message : Bytes) → Result (List AiOp)
  pub judge_scope : (message : Bytes) → List AiOp → (current : Bytes) → Option Bytes → ScopeReply
  pub stringify : StagedProposal → String
  pub parse : String → StagedProposal
  pub max_doc_chars : ℕ
  pub truncation_notice : Bytes
  pub proposal_ttl_seconds : ℕ
  pub queue_is_up : Bool

-- The position of an operation, and whether it goes before or with another one in the descending
-- order, ranges first among equals.
abbrev pub position_of : AiOp → ℕ
position_of (insert_op position text anchor) = position
position_of (range_op e start end_ expected) = start

abbrev pub is_insert : AiOp → Bool
is_insert (insert_op position text anchor) = true
is_insert (range_op e start end_ expected) = false

abbrev pub precedes : AiOp → AiOp → Bool
precedes a b =
    if position_of a == position_of b
    then not (is_insert a) || is_insert b
    else ltb (position_of b) (position_of a)

-- A stable sort.
abbrev pub place : AiOp → List AiOp → List AiOp
place op [] = op ∷ []
place op (next ∷ ops) =
    let rest = place op ops in if precedes op next then op ∷ next ∷ ops else next ∷ rest

abbrev pub sort_ops : List AiOp → List AiOp
sort_ops [] = []
sort_ops (op ∷ ops) = place op (sort_ops ops)

unfoldable pub order_ops_for_application : List AiOp → List AiOp
order_ops_for_application ops = if any (λ op. not (is_insert op)) ops then sort_ops ops else ops

-- The result of a chat.
pub record ChatResult : Type 0 where
  pub operations_applied : ℕ
  pub rejected_operations : List ℕ

pub record AiState (R : Redis) : Type 0 where
  pub database : Database
  pub keys : R.State
  pub queued : List ℕ

abbrev pub check_scope : ScopeReply → Option Exception
check_scope no_verdict = none
check_scope (verdict true reason) = none
check_scope (verdict false reason) = some (ai_scope reason)

-- `resolveContentCheck`
abbrev pub resolve : ContentCheck → Result (List AiOp × List ℕ)
resolve (fuzzy_match index expected actual) = err (ai_content_existence index expected actual)
resolve (partial valid rejected) = ok (valid, rejected)
resolve (all_exact valid) = ok (valid, [])

-- A fuzzy match is a conflict unless the author has confirmed.
abbrev pub needs_confirmation : Bool → ContentCheck → Option (ℕ × (Bytes × Bytes))
needs_confirmation false (fuzzy_match index expected actual) = some (index, (expected, actual))
needs_confirmation _ _ = none

-- What is applied, and what is rejected, when a proposal is accepted.
abbrev pub accepted : List AiOp → ContentCheck → List AiOp × List ℕ
accepted operations (partial valid rejected) = (valid, rejected)
accepted operations (all_exact valid) = (valid, [])
accepted operations (fuzzy_match index expected actual) = (operations, [])

-- The proposal exists, but not for this author on this document.
abbrev pub is_foreign : ℕ → ℕ → StagedProposal → Bool
is_foreign document_id user_id staged =
    not (staged.document_id == document_id) || not (staged.author_id == user_id)

abbrev pub with_generated : (ℕ → Generated) → ℕ → List Bytes → List (Generated × Bytes)
with_generated generated i [] = []
with_generated generated i (b ∷ bs) = (generated i, b) ∷ with_generated generated (i + 1) bs

abbrev pub chat_result : List AiOp → List ℕ → ChatResult
chat_result applied rejected = record {
  operations_applied = length applied;
  rejected_operations = rejected;
}

module _ {Doc : Type 0} (tools : Tools Doc) where
  abbrev pub truncate_text : Bytes → Bytes
  truncate_text text =
      if leb (length text) tools.max_doc_chars
      then text
      else take tools.max_doc_chars text ++ tools.truncation_notice

  abbrev pub apply_op : AiOp → Doc → Doc
  apply_op (insert_op position text anchor) doc = tools.insert_text position text doc
  apply_op (range_op delete_range start end_ expected) doc =
      tools.delete_text start (end_ - start) doc
  apply_op (range_op (format_range attributes) start end_ expected) doc =
      tools.format_text start (end_ - start) attributes doc

  abbrev pub apply_each : List AiOp → Doc → Doc
  apply_each [] doc = doc
  apply_each (op ∷ ops) doc = apply_each ops (apply_op op doc)

  abbrev pub compute_after_text : Doc → List AiOp → Bytes
  compute_after_text doc ops =
      truncate_text (tools.extract_text (apply_each (order_ops_for_application ops) doc))

  -- The first loop of `applyOps`: the update of each edit.
  abbrev pub op_binaries : List AiOp → Doc → List Bytes
  op_binaries [] doc = []
  op_binaries (op ∷ ops) doc =
      let edited = apply_op op doc in
      tools.encode_since (tools.yjs.encode_state_vector doc) edited ∷ op_binaries ops edited

  abbrev pub load_document : ℕ → Database → Option Doc
  load_document document_id db =
      let snapshot = latest_snapshot document_id db in
      and_then (restore tools.yjs snapshot)
        (replay tools.yjs (operations_since document_id (after_sequence snapshot) db))

  -- The document and its text; Yjs throws on bytes that are no update.
  abbrev pub reconstruct_document : ℕ → Database → Result (Doc × Bytes)
  reconstruct_document document_id db = elim (load_document document_id db) [
    | none ↦ err (plain_error "Invalid update")
    | some doc ↦
        ok (tools.materialize doc, truncate_text (tools.extract_text (tools.materialize doc)))
  ]

  abbrev pub check_content : List AiOp → Bytes → ContentCheck
  check_content ops text = check_content_existence (find_nearest_text text) tools.similar text ops

  -- The check of an acceptance against the text as it is now.
  abbrev pub reconfirmation : Doc × Bytes → StagedProposal → Bool → ContentCheck → Option Exception
  reconfirmation (doc, text) proposal confirm checked = elim (needs_confirmation confirm checked) [
    | none ↦ none
    | some mismatch ↦ some (
        ai_reconfirm text (compute_after_text doc proposal.operations) mismatch.0 mismatch.1.0
          mismatch.1.1)
  ]
