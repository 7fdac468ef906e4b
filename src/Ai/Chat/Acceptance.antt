-- ===== src/Ai/Chat/Acceptance.antt =====
-- The acceptance of proposals: what fails, and what comes after.
use mathlib.Core.Bool.{true≢false}
use meridian_backend.Prelude.{
  ℕ, ◌≤◌, String, Bool, true, false, none, List, Result, ok, err, is_ok, proposal_gone, ◌≡◌, refl,
  sym, ap,
}
use meridian_backend.Schema.{Bytes, Database}
use meridian_backend.Operations.{Generated}
use meridian_backend.Redis.{proposal, Redis, IsLawful, peek_proposal, refresh, consume_proposal}
use meridian_backend.Ai.Content.{AiOp}
use meridian_backend.Ai.Chat.{
  StagedProposal, Tools, ChatResult, AiState, accepted, reconstruct_document, check_content,
  reconfirmation, is_foreign,
}
use meridian_backend.Ai.Chat.Requests.{
  apply_some, claim_and_apply, accept_loaded, accept_peeked, accept_found, accept_own,
  accept_proposal,
}
use meridian_backend.Ai.Chat.Outcomes.{
  IsGone, Post, apply_some-Post, resumed-Post, required-Post, unless-Post, checked-Post, consumed,
}

module _ {R : Redis} (laws : IsLawful R) {Doc : Type 0} (tools : Tools Doc) (pid : ℕ) where
  accept_loaded-Post :
      (generated : ℕ → Generated) (now d u : ℕ) (confirm : Bool) (staged : StagedProposal)
      (loaded : Doc × Bytes) (db : Database) (s : AiState R)
      → s.database ≡ db
      → Post laws tools pid now db
          (accept_loaded tools generated now d u pid confirm staged loaded s)
  accept_loaded-Post generated now d u confirm staged loaded db s same =
      checked-Post laws tools pid now db
        (reconfirmation tools loaded staged confirm
          (check_content tools staged.operations loaded.1))
        (claim_and_apply tools generated now d u pid loaded.0 applied) s same
        (required-Post laws tools pid now db (consume_proposal R now pid s.keys).0 proposal_gone
          (λ _. apply_some tools generated d u loaded.0 applied.0 applied.1) claimed same
          (λ raw.
            apply_some-Post laws tools pid generated now d u loaded.0 applied.0 applied.1 db claimed
              (consumed laws tools pid now s.keys) same))
    where
      applied : List AiOp × List ℕ
      applied = accepted staged.operations (check_content tools staged.operations loaded.1)

      claimed : AiState R
      claimed = record s { keys = (consume_proposal R now pid s.keys).1 }

  accept_found-Post :
      (generated : ℕ → Generated) (now d u : ℕ) (confirm : Bool) (raw : String) (db : Database)
      (s : AiState R)
      → s.database ≡ db
      → Post laws tools pid now db (accept_found tools generated now d u pid confirm raw s)
  accept_found-Post generated now d u confirm raw db s same =
      unless-Post laws tools pid now db (is_foreign d u (tools.parse raw)) proposal_gone
        (accept_own tools generated now d u pid confirm (tools.parse raw)) s same
        (resumed-Post laws tools pid now db (reconstruct_document tools d s.database)
          (accept_loaded tools generated now d u pid confirm (tools.parse raw)) s same
          (λ loaded.
            accept_loaded-Post generated now d u confirm (tools.parse raw) loaded db s same))

  accept_proposal-Post :
      (generated : ℕ → Generated) (peeked_at now d u : ℕ) (confirm : Bool) (s : AiState R)
      → Post laws tools pid now s.database
          (accept_proposal tools generated peeked_at now d u pid confirm s)
  unfolding accept_proposal
  accept_proposal-Post generated peeked_at now d u confirm s =
      required-Post laws tools pid now s.database
        (peek_proposal R peeked_at pid tools.proposal_ttl_seconds s.keys).0 proposal_gone
        (accept_found tools generated now d u pid confirm)
        (record s { keys = (peek_proposal R peeked_at pid tools.proposal_ttl_seconds s.keys).1 })
        refl (λ raw. accept_found-Post generated now d u confirm raw s.database _ refl)

  gone_is_refused :
      (generated : ℕ → Generated) (peeked_at now d u : ℕ) (confirm : Bool) (s : AiState R)
      → R.get peeked_at (proposal pid) s.keys ≡ none
      → accept_proposal tools generated peeked_at now d u pid confirm s ≡ (err proposal_gone, s)
  unfolding accept_proposal peek_proposal
  gone_is_refused generated peeked_at now d u confirm s gone =
      ap
        (λ o.
          accept_peeked tools generated now d u pid confirm o
            (record s { keys = refresh R peeked_at pid tools.proposal_ttl_seconds o s.keys }))
        gone

  failed :
      {A : Type 0} (now : ℕ) (db : Database) (r : Result A × AiState R)
      → Post laws tools pid now db r
      → tools.queue_is_up ≡ true
      → is_ok r.0 ≡ false
      → r.1.database ≡ db
  failed now db (ok a, s) h works e = absurd (true≢false e)
  failed now db (err x, s) h works e = h works

  succeeded :
      {A : Type 0} (now : ℕ) (db : Database) (r : Result A × AiState R) (a : A)
      → Post laws tools pid now db r
      → r.0 ≡ ok a
      → IsGone laws tools pid now r.1.keys
  succeeded now db (ok b, s) a h e = h
  succeeded now db (err x, s) a h e = absurd (true≢false (sym (ap is_ok e)))

  -- While the queue of deliveries is up, an acceptance that fails, for whatever reason, leaves the
  -- database as it was.
  pub accept_proposal-fails :
      (generated : ℕ → Generated) (peeked_at now d u : ℕ) (confirm : Bool) (s : AiState R)
      → tools.queue_is_up ≡ true
      → is_ok (accept_proposal tools generated peeked_at now d u pid confirm s).0 ≡ false
      → (accept_proposal tools generated peeked_at now d u pid confirm s).1.database ≡ s.database
  accept_proposal-fails generated peeked_at now d u confirm s =
      failed now s.database (accept_proposal tools generated peeked_at now d u pid confirm s)
        (accept_proposal-Post generated peeked_at now d u confirm s)

  -- Once a proposal has been accepted, every later attempt to accept it, by whomever and on whatever
  -- document, is refused as gone and changes nothing.
  pub accept_proposal-once :
      (generated generated' : ℕ → Generated) (peeked_at now peeked_again later d d' u u' : ℕ)
      (confirm confirm' : Bool) (s : AiState R) (result : ChatResult)
      → (accept_proposal tools generated peeked_at now d u pid confirm s).0 ≡ ok result
      → now ≤ peeked_again
      → accept_proposal tools generated' peeked_again later d' u' pid confirm'
          (accept_proposal tools generated peeked_at now d u pid confirm s).1
        ≡ (err proposal_gone, (accept_proposal tools generated peeked_at now d u pid confirm s).1)
  accept_proposal-once generated generated' peeked_at now peeked_again later d d' u u' confirm
        confirm' s result done le =
      gone_is_refused generated' peeked_again later d' u' confirm' _ (
        succeeded now s.database (accept_proposal tools generated peeked_at now d u pid confirm s)
          result (accept_proposal-Post generated peeked_at now d u confirm s) done peeked_again le)
