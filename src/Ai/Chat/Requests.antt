-- ===== src/Ai/Chat/Requests.antt =====
-- The requests of src/ai/ai.service.ts: chat, proposeChat, acceptProposal and declineProposal.
use meridian_backend.Prelude.{
  ℕ, String, Bool, true, false, not, Option, none, some, List, [], ◌∷◌, ◌++◌, modify, plain_error,
  Action, Result, ok, err, Exception, pure, throw, throw_if, or_throw, ◌>>=◌, ◌>>◌, conflict,
  proposal_gone, if◌then◌else◌, ◌||◌,
}
use meridian_backend.Schema.{Bytes, Database}
use meridian_backend.Operations.{Generated}
use meridian_backend.Redis.{Redis, stage_proposal, peek_proposal, consume_proposal, delete_proposal}
use meridian_backend.Ai.{store_updates}
use meridian_backend.Ai.Content.{AiOp}
use meridian_backend.Ai.Chat.{
  StagedProposal, Tools, ChatResult, AiState, check_scope, resolve, accepted, is_foreign,
  reconfirmation, with_generated, chat_result, compute_after_text, op_binaries,
  order_ops_for_application, reconstruct_document, check_content,
}

abbrev pub throw_some : {S : Type 0} → Option Exception → Action S (Unit {0})
throw_some none s = (ok tt, s)
throw_some (some e) s = (err e, s)

abbrev pub is_empty : {A : Type 0} → List A → Bool
is_empty [] = true
is_empty (x ∷ xs) = false

module _ {R : Redis} where
  abbrev pub with_database : {A : Type 0} → AiState R → Result A × Database → Result A × AiState R
  with_database s (r, db) = (r, record s { database = db })

  abbrev pub on_database : {A : Type 0} → Action Database A → Action (AiState R) A
  on_database m s = with_database s (m s.database)

  abbrev pub with_keys : {A : Type 0} → AiState R → A × R.State → Result A × AiState R
  with_keys s (a, keys) = (ok a, record s { keys = keys })

  abbrev pub on_keys : {A : Type 0} → (R.State → A × R.State) → Action (AiState R) A
  on_keys f s = with_keys s (f s.keys)

  abbrev pub read_database : {A : Type 0} → (Database → Result A) → Action (AiState R) A
  read_database f s = (f s.database, s)

  module _ {Doc : Type 0} (tools : Tools Doc) where
    -- The deliveries are queued behind the transaction; the first one that fails throws.
    abbrev pub enqueue_all : List ℕ → Action (AiState R) (Unit {0})
    enqueue_all [] = pure tt
    enqueue_all (id ∷ ids) =
        if tools.queue_is_up
        then modify (λ s. record s { queued = s.queued ++ id ∷ ids })
        else throw (plain_error "Connection is closed")

    -- `applyOps`: the updates of the edits, stored in one transaction and queued. The broadcast at
    -- the end writes nothing, and its failures are caught.
    abbrev pub apply_ops : (ℕ → Generated) → ℕ → ℕ → Doc → List AiOp → Action (AiState R) (Unit {0})
    apply_ops generated document_id user_id doc ops =
        on_database (
          store_updates tools.classify document_id user_id
            (with_generated generated 0 (op_binaries tools (order_ops_for_application ops) doc)))
        >>= enqueue_all

    -- `applyOps` unless nothing is left to apply.
    abbrev pub apply_some :
        (ℕ → Generated) → ℕ → ℕ → Doc → List AiOp → List ℕ → Action (AiState R) ChatResult
    apply_some generated document_id user_id doc [] rejected = pure (chat_result [] rejected)
    apply_some generated document_id user_id doc (op ∷ ops) rejected =
        apply_ops generated document_id user_id doc (op ∷ ops)
        >> pure (chat_result (op ∷ ops) rejected)

    -- `chat` behind the content check: no scope check where nothing is left.
    abbrev pub apply_in_scope :
        (ℕ → Generated)
        → ℕ
        → ℕ
        → Bytes
        → Doc × Bytes
        → List AiOp × List ℕ
        → Action (AiState R) ChatResult
    apply_in_scope generated document_id user_id message (doc, text) ([], rejected) =
        pure (chat_result [] rejected)
    apply_in_scope generated document_id user_id message (doc, text) (op ∷ ops, rejected) =
        throw_some (check_scope (tools.judge_scope message (op ∷ ops) text none))
        >> apply_some generated document_id user_id doc (op ∷ ops) rejected

    unfoldable pub chat : (ℕ → Generated) → ℕ → ℕ → Bytes → Action (AiState R) ChatResult
    chat generated document_id user_id message = do
      loaded ← read_database (reconstruct_document tools document_id)
      ops ← read_database (λ _. tools.generate loaded.1 message)
      resolved ← read_database (λ _. resolve (check_content tools ops loaded.1))
      apply_in_scope generated document_id user_id message loaded resolved

    -- `proposeChat` behind the content check; the id of the proposal is an argument, and the result is
    -- the proposal, of which the response shows the diff.
    abbrev pub stage_in_scope :
        ℕ → ℕ → ℕ → ℕ → Bytes → Doc × Bytes → List AiOp → Action (AiState R) StagedProposal
    stage_in_scope now proposal_id document_id user_id message (doc, text) ops =
        let after = compute_after_text tools doc ops in
        let proposal : StagedProposal = record {
          document_id = document_id;
          author_id = user_id;
          instruction = message;
          operations = ops;
          before = text;
          after = after;
          created_at = now;
        } in
        throw_some (check_scope (tools.judge_scope message ops text (some after)))
        >> on_keys (λ keys. (
          proposal,
          stage_proposal R now proposal_id (tools.stringify proposal) tools.proposal_ttl_seconds
              keys,
        ))

    unfoldable pub propose_chat : ℕ → ℕ → ℕ → ℕ → Bytes → Action (AiState R) StagedProposal
    propose_chat now proposal_id document_id user_id message = do
      loaded ← read_database (reconstruct_document tools document_id)
      ops ← read_database (λ _. tools.generate loaded.1 message)
      resolved ← read_database (λ _. resolve (check_content tools ops loaded.1))
      throw_if (is_empty resolved.0 || not (is_empty resolved.1))
          (conflict "Referenced text not found; the document may have changed. Ask the AI again.")
      stage_in_scope now proposal_id document_id user_id message loaded resolved.0

    -- `acceptProposal` behind the claim.
    abbrev pub apply_claimed :
        (ℕ → Generated)
        → ℕ
        → ℕ
        → Doc
        → List AiOp × List ℕ
        → Option String
        → Action (AiState R) ChatResult
    apply_claimed generated document_id user_id doc applied claimed =
        or_throw claimed proposal_gone >>= λ _.
        apply_some generated document_id user_id doc applied.0 applied.1

    -- `acceptProposal` from the claim on.
    abbrev pub claim_and_apply :
        (ℕ → Generated) → ℕ → ℕ → ℕ → ℕ → Doc → List AiOp × List ℕ → Action (AiState R) ChatResult
    claim_and_apply generated now document_id user_id proposal_id doc applied =
        on_keys (consume_proposal R now proposal_id)
        >>= apply_claimed generated document_id user_id doc applied

    -- `acceptProposal` with the document as it is now.
    abbrev pub accept_loaded :
        (ℕ → Generated)
        → ℕ
        → ℕ
        → ℕ
        → ℕ
        → Bool
        → StagedProposal
        → Doc × Bytes
        → Action (AiState R) ChatResult
    accept_loaded generated now document_id user_id proposal_id confirm staged loaded =
        let checked = check_content tools staged.operations loaded.1 in
        throw_some (reconfirmation tools loaded staged confirm checked) >>= λ _.
        claim_and_apply generated now document_id user_id proposal_id loaded.0
          (accepted staged.operations checked)

    -- `acceptProposal` for a proposal of this author on this document.
    abbrev pub accept_own :
        (ℕ → Generated) → ℕ → ℕ → ℕ → ℕ → Bool → StagedProposal → Action (AiState R) ChatResult
    accept_own generated now document_id user_id proposal_id confirm staged =
        read_database (reconstruct_document tools document_id)
        >>= accept_loaded generated now document_id user_id proposal_id confirm staged

    abbrev pub accept_found :
        (ℕ → Generated) → ℕ → ℕ → ℕ → ℕ → Bool → String → Action (AiState R) ChatResult
    accept_found generated now document_id user_id proposal_id confirm raw =
        throw_if (is_foreign document_id user_id (tools.parse raw)) proposal_gone >>= λ _.
        accept_own generated now document_id user_id proposal_id confirm (tools.parse raw)

    abbrev pub accept_peeked :
        (ℕ → Generated) → ℕ → ℕ → ℕ → ℕ → Bool → Option String → Action (AiState R) ChatResult
    accept_peeked generated now document_id user_id proposal_id confirm raw =
        or_throw raw proposal_gone
        >>= accept_found generated now document_id user_id proposal_id confirm

    -- `acceptProposal`: the proposal is peeked at one time and claimed at a later one.
    unfoldable pub accept_proposal :
        (ℕ → Generated) → ℕ → ℕ → ℕ → ℕ → ℕ → Bool → Action (AiState R) ChatResult
    accept_proposal generated peeked_at now document_id user_id proposal_id confirm =
        on_keys (peek_proposal R peeked_at proposal_id tools.proposal_ttl_seconds)
        >>= accept_peeked generated now document_id user_id proposal_id confirm

    unfoldable pub decline_proposal : ℕ → ℕ → Action (AiState R) (Unit {0})
    decline_proposal now proposal_id =
        on_keys (λ keys. (tt, delete_proposal R now proposal_id keys))
