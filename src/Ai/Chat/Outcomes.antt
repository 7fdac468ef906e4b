-- ===== src/Ai/Chat/Outcomes.antt =====
-- How the steps of acceptProposal end: what holds of the database and the proposal afterwards.
use mathlib.Core.Bool.{true≢false}
use meridian_backend.Prelude.{
  ℕ, ◌≤◌, Bool, true, false, Option, none, some, List, [], ◌∷◌, Action, Result, ok, err, Exception,
  pure, modify, throw, plain_error, ◌++◌, throw_if, or_throw, transaction, transaction_cases, ◌>>=◌,
  ◌>>◌, ◌≡◌, ◌∙◌, refl, sym, ap, subst, if◌then◌else◌,
}
use meridian_backend.Schema.{Database}
use meridian_backend.Operations.{Generated}
use meridian_backend.Redis.{proposal, Redis, IsLawful, consume_proposal}
use meridian_backend.Redis.Methods.{same_key_refl}
use meridian_backend.Ai.{store_body, store_updates}
use meridian_backend.Ai.Content.{AiOp}
use meridian_backend.Ai.Chat.{
  Tools, ChatResult, AiState, with_generated, chat_result, op_binaries, order_ops_for_application,
}
use meridian_backend.Ai.Chat.Requests.{throw_some, with_database, enqueue_all, apply_some}

-- A throw leaves the state as it was.
abbrev KeepsOnThrow : {S A : Type 0} → S → Result A × S → Type 0
KeepsOnThrow s (ok a, s') = Unit
KeepsOnThrow s (err e, s') = s' ≡ s

transaction-KeepsOnThrow :
    {S A : Type 0} (m : Action S A) (s : S) → KeepsOnThrow s (transaction m s)
transaction-KeepsOnThrow m s =
    transaction_cases (KeepsOnThrow s) m s (λ a s' e. tt) (λ x s' e. refl)

module _ {R : Redis} (laws : IsLawful R) {Doc : Type 0} (tools : Tools Doc) (pid : ℕ) where
  -- The proposal is gone from a time on.
  abbrev pub IsGone : ℕ → R.State → Type 0
  IsGone now keys = (t : ℕ) → now ≤ t → R.get t (proposal pid) keys ≡ none

  -- A success leaves the proposal gone, a failure the database as it was, if the queue is up.
  abbrev pub Post : {A : Type 0} → ℕ → Database → Result A × AiState R → Type 0
  Post now db (ok a, s) = IsGone now s.keys
  Post now db (err e, s) = tools.queue_is_up ≡ true → s.database ≡ db

  queued-Post :
      (now : ℕ) (db : Database) (s : AiState R) (c : ChatResult) (ids : List ℕ) (up : Bool)
      → tools.queue_is_up ≡ up
      → IsGone now s.keys
      → Post now db ((enqueue_all tools ids >> pure c) s)
  queued-Post now db s c [] up e gone = gone
  queued-Post now db s c (id ∷ ids) up e gone =
      subst
        (λ b. Post now db (
          ((if b
                then modify (λ s'. record s' { queued = s'.queued ++ id ∷ ids })
                else throw (plain_error "Connection is closed"))
              >> pure c)
            s))
        (sym e) (by_queue up e)
    where
      by_queue :
          (b : Bool)
          → tools.queue_is_up ≡ b
          → Post now db (
              ((if b
                    then modify (λ s'. record s' { queued = s'.queued ++ id ∷ ids })
                    else throw (plain_error "Connection is closed"))
                  >> pure c)
                s)
      by_queue true e = gone
      by_queue false e = λ works. absurd (true≢false (sym works ∙ e))

  stored-Post :
      (now : ℕ) (db : Database) (s : AiState R) (c : ChatResult) (r : Result (List ℕ) × Database)
      → IsGone now s.keys
      → s.database ≡ db
      → KeepsOnThrow s.database r
      → Post now db ((((λ (s' : AiState R). with_database s' r) >>= enqueue_all tools) >> pure c) s)
  stored-Post now db s c (ok ids, db') gone same kept =
      queued-Post now db (record s { database = db' }) c ids tools.queue_is_up refl gone
  stored-Post now db s c (err e, db') gone same kept = λ works. kept ∙ same

  pub apply_some-Post :
      (generated : ℕ → Generated) (now d u : ℕ) (doc : Doc) (ops : List AiOp) (rejected : List ℕ)
      (db : Database) (s : AiState R)
      → IsGone now s.keys
      → s.database ≡ db
      → Post now db (apply_some tools generated d u doc ops rejected s)
  unfolding store_updates
  apply_some-Post generated now d u doc [] rejected db s gone same = gone
  apply_some-Post generated now d u doc (op ∷ ops) rejected db s gone same =
      stored-Post now db s (chat_result (op ∷ ops) rejected)
        (store_updates tools.classify d u
          (with_generated generated 0
            (op_binaries tools (order_ops_for_application (op ∷ ops)) doc))
          s.database)
        gone same
        (transaction-KeepsOnThrow
          (store_body tools.classify d u (
            with_generated generated 0
              (op_binaries tools (order_ops_for_application (op ∷ ops)) doc)))
          s.database)

  -- A step that may throw and writes nothing, and what comes behind it.
  pub resumed-Post :
      {A B : Type 0} (now : ℕ) (db : Database) (r : Result A) (k : A → Action (AiState R) B)
      (s : AiState R)
      → s.database ≡ db
      → ((a : A) → Post now db (k a s))
      → Post now db (((λ (s' : AiState R). (r, s')) >>= k) s)
  resumed-Post now db (ok a) k s same h = h a
  resumed-Post now db (err e) k s same h = λ works. same

  pub required-Post :
      {A B : Type 0} (now : ℕ) (db : Database) (o : Option A) (e : Exception)
      (k : A → Action (AiState R) B) (s : AiState R)
      → s.database ≡ db
      → ((a : A) → Post now db (k a s))
      → Post now db ((or_throw o e >>= k) s)
  required-Post now db none e k s same h = λ works. same
  required-Post now db (some a) e k s same h = h a

  pub unless-Post :
      {B : Type 0} (now : ℕ) (db : Database) (c : Bool) (e : Exception) (k : Action (AiState R) B)
      (s : AiState R)
      → s.database ≡ db
      → Post now db (k s)
      → Post now db ((throw_if c e >>= λ _. k) s)
  unless-Post now db true e k s same h = λ works. same
  unless-Post now db false e k s same h = h

  pub checked-Post :
      {B : Type 0} (now : ℕ) (db : Database) (o : Option Exception) (k : Action (AiState R) B)
      (s : AiState R)
      → s.database ≡ db
      → Post now db (k s)
      → Post now db ((throw_some o >>= λ _. k) s)
  checked-Post now db none k s same h = h
  checked-Post now db (some e) k s same h = λ works. same

  pub consumed : (now : ℕ) (keys : R.State) → IsGone now (consume_proposal R now pid keys).1
  unfolding consume_proposal
  consumed now keys t le =
      ap (R.get t (proposal pid)) (laws.get_del-del now (proposal pid) keys)
      ∙ laws.get-del now t (proposal pid) (proposal pid) keys le
      ∙ ap (λ b. if b then none else R.get t (proposal pid) keys) (same_key_refl (proposal pid))
