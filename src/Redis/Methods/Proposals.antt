-- ===== src/Redis/Methods/Proposals.antt =====
-- The staged proposals of src/redis/redis.service.ts over sequences of requests.
use mathlib.Core.Bool.{true≢false}
use meridian_backend.Prelude.{
  ℕ, ◌+◌, ◌≤◌, String, Bool, true, false, Option, none, some, List, [], ◌∷◌, inl, inr, ◌≡◌, ◌∙◌, ap,
  sym, refl, if◌then◌else◌, ◌==◌, ◌&&◌, arith, is_some, Bool-cases, All, ==_iff,
}
use meridian_backend.Redis.{
  proposal, Redis, IsLawful, until, stage_proposal, peek_proposal, refresh, consume_proposal,
  delete_proposal,
}

-- A request about a proposal, for any number of authors and instances.
pub data Request : Type 0 where
  stage : ℕ → String → ℕ → Request
  peek : ℕ → ℕ → Request
  consume decline : ℕ → Request

abbrev pub stages : ℕ → Request → Bool
stages p (stage q value ttl) = p == q
stages p _ = false

module _ (R : Redis) where
  -- The state after a request.
  abbrev pub serve : ℕ → Request → R.State → R.State
  serve now (stage q value ttl) s = stage_proposal R now q value ttl s
  serve now (peek q ttl) s = (peek_proposal R now q ttl s).1
  serve now (consume q) s = (consume_proposal R now q s).1
  serve now (decline q) s = delete_proposal R now q s

  -- The request gets the proposal to apply it.
  abbrev pub claims : ℕ → ℕ → Request → R.State → Bool
  claims p now (consume q) s = (p == q) && is_some (consume_proposal R now q s).0
  claims p now _ s = false

  -- How often a proposal is claimed in a sequence of requests, each with the time since the last.
  unfoldable pub claim_count : ℕ → ℕ → List (ℕ × Request) → R.State → ℕ
  claim_count p now [] s = 0
  claim_count p now ((delay, r) ∷ rest) s =
      (if claims p (now + delay) r s then 1 else 0)
      + claim_count p (now + delay) rest (serve (now + delay) r s)

none_either : (b : Bool) (o : Option String) → o ≡ none → (if b then none else o) ≡ none
none_either true o h = refl
none_either false o h = h

none_in_time :
    (b : Bool) (now seconds t : ℕ) (x o : Option String)
    → (b ≡ true → x ≡ none)
    → o ≡ none
    → (if b then until now seconds t x else o) ≡ none
none_in_time true now seconds t x o same h = rw (same refl) (ground arith)
none_in_time false now seconds t x o same h = h

none_if_true : (b : Bool) (o : Option String) → b ≡ true → (if b then none else o) ≡ none
none_if_true b o e = rw e refl

none_unless : (b : Bool) (x o : Option String) → b ≡ false → o ≡ none → (if b then x else o) ≡ none
none_unless b x o e h = rw e h

count_first : (b : Bool) (n : ℕ) → (b ≡ true → n ≡ 0) → n ≤ 1 → (if b then 1 else 0) + n ≤ 1
count_first true n h le = ground (arith, h refl)
count_first false n h le = omega arith

count_zero : (b : Bool) (n : ℕ) → b ≡ false → n ≡ 0 → (if b then 1 else 0) + n ≡ 0
count_zero b n e h = rw e (omega arith)

both_true : (a b : Bool) → (a && b) ≡ true → a ≡ true
both_true true b h = refl
both_true false b h = h

module _ {R : Redis} (laws : IsLawful R) where
  gone-del :
      (p q now : ℕ) (s : R.State)
      → R.get now (proposal p) s ≡ none
      → R.get now (proposal p) (R.del now (proposal q) s) ≡ none
  gone-del p q now s gone =
      laws.get-del now now (proposal q) (proposal p) s (omega arith) ∙ none_either (p == q) _ gone

  same_proposal :
      (p q now : ℕ) (s : R.State)
      → R.get now (proposal p) s ≡ none
      → (p == q) ≡ true
      → R.get now (proposal q) s ≡ none
  same_proposal p q now s gone same =
      ap (λ n. R.get now (proposal n) s) (sym ((==_iff p q).0 same)) ∙ gone

  gone-refresh :
      (p q now ttl : ℕ) (o : Option String) (s : R.State)
      → R.get now (proposal p) s ≡ none
      → R.get now (proposal p) (refresh R now q ttl o s) ≡ none
  gone-refresh p q now ttl none s gone = gone
  gone-refresh p q now ttl (some value) s gone =
      laws.get-expire now now (proposal q) (proposal p) ttl s (omega arith)
      ∙ none_in_time (p == q) now ttl now _ _ (same_proposal p q now s gone) gone

  -- A proposal that is gone stays gone, unless it is staged again.
  gone-serve :
      (p now : ℕ) (r : Request) (s : R.State)
      → stages p r ≡ false
      → R.get now (proposal p) s ≡ none
      → R.get now (proposal p) (serve R now r s) ≡ none
  unfolding stage_proposal peek_proposal consume_proposal delete_proposal
  gone-serve p now (stage q value ttl) s other gone =
      laws.get-set_ex now now (proposal q) (proposal p) value ttl s (omega arith)
      ∙ none_unless (p == q) _ _ other gone
  gone-serve p now (peek q ttl) s other gone = gone-refresh p q now ttl _ s gone
  gone-serve p now (consume q) s other gone =
      ap (R.get now (proposal p)) (laws.get_del-del now (proposal q) s) ∙ gone-del p q now s gone
  gone-serve p now (decline q) s other gone = gone-del p q now s gone

  gone-claims :
      (p now : ℕ) (r : Request) (s : R.State)
      → R.get now (proposal p) s ≡ none
      → claims R p now r s ≡ false
  unfolding consume_proposal
  gone-claims p now (stage q value ttl) s gone = refl
  gone-claims p now (peek q ttl) s gone = refl
  gone-claims p now (decline q) s gone = refl
  gone-claims p now (consume q) s gone = elim (Bool-cases (p == q)) [
    | inl same ↦
        rw same
          (ap is_some (laws.get_del-get now (proposal q) s ∙ same_proposal p q now s gone same))
    | inr other ↦ rw other refl
  ]

  gone-claim_count :
      (p now : ℕ) (requests : List (ℕ × Request)) (s : R.State)
      → All (λ e. stages p e.1 ≡ false) requests
      → R.get now (proposal p) s ≡ none
      → claim_count R p now requests s ≡ 0
  unfolding claim_count
  gone-claim_count p now [] s h gone = refl
  gone-claim_count p now ((delay, r) ∷ rest) s (other, others) gone =
      let still = laws.get_mono now (now + delay) (proposal p) s (omega arith) gone in
      count_zero _ _ (gone-claims p (now + delay) r s still) (
        gone-claim_count p (now + delay) rest _ others (gone-serve p (now + delay) r s other still))

  -- Whoever claims a proposal leaves it gone.
  claims-gone :
      (p now : ℕ) (r : Request) (s : R.State)
      → claims R p now r s ≡ true
      → R.get now (proposal p) (serve R now r s) ≡ none
  unfolding consume_proposal
  claims-gone p now (stage q value ttl) s claimed = absurd (true≢false (sym claimed))
  claims-gone p now (peek q ttl) s claimed = absurd (true≢false (sym claimed))
  claims-gone p now (decline q) s claimed = absurd (true≢false (sym claimed))
  claims-gone p now (consume q) s claimed =
      ap (R.get now (proposal p)) (laws.get_del-del now (proposal q) s)
      ∙ laws.get-del now now (proposal q) (proposal p) s (omega arith)
      ∙ none_if_true (p == q) _ (both_true (p == q) _ claimed)

  -- However the requests of authors and instances follow each other, a proposal that is not staged
  -- again is claimed at most once.
  pub claim_count-once :
      (p now : ℕ) (requests : List (ℕ × Request)) (s : R.State)
      → All (λ e. stages p e.1 ≡ false) requests
      → claim_count R p now requests s ≤ 1
  unfolding claim_count
  claim_count-once p now [] s h = omega arith
  claim_count-once p now ((delay, r) ∷ rest) s (other, others) =
      count_first (claims R p (now + delay) r s) _
        (λ claimed.
          gone-claim_count p (now + delay) rest _ others (claims-gone p (now + delay) r s claimed))
        (claim_count-once p (now + delay) rest _ others)
