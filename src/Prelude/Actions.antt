-- ===== src/Prelude/Actions.antt =====
-- Exceptions as values, and actions on a state that may throw. The state comes back after a throw
-- too: what was written stays written, unless a transaction rolls it back.
use Prim.Native.String.{String}
use Prim.Native.Nat.{ℕ}
use mathlib.Core.List.{List}
use mathlib.Core.Bool.{Bool, true, false, true≢false}
use mathlib.Core.Path.{◌≡◌, refl, sym, ap}
use mathlib.Core.Option.{Option, none, some}
use meridian_backend.Prelude.Tests.{if◌then◌else◌}

-- What the services throw: the exceptions of NestJS by their status, an error of Postgres by its
-- SQLSTATE code, any other `Error`, and the errors of the AI pipeline, with texts as code units.
pub data Exception : Type 0 where
  bad_request unauthorized forbidden not_found conflict internal_error : String → Exception
  pg_error : String → Exception
  plain_error : String → Exception
  ai_format_invalid proposal_gone : Exception
  ai_scope : (reason : Option (List ℕ)) → Exception
  ai_content_existence : (index : ℕ) → (expected actual : List ℕ) → Exception
  ai_reconfirm : (before after : List ℕ) → (index : ℕ) → (expected actual : List ℕ) → Exception

pub data Result {ℓ} (A : Type ℓ) : Type ℓ where
  ok : A → Result A
  err : Exception → Result A

abbrev pub is_ok {ℓ} : {A : Type ℓ} → Result A → Bool
is_ok (ok a) = true
is_ok (err e) = false

abbrev pub Action : Type 0 → Type 0 → Type 0
Action S A = S → Result A × S

module _ {S : Type 0} {A : Type 0} where
  abbrev pub pure : A → Action S A
  pure a s = (ok a, s)

  abbrev pub throw : Exception → Action S A
  throw e s = (err e, s)

  abbrev pub gets : (S → A) → Action S A
  gets f s = (ok (f s), s)

  abbrev pub or_throw : Option A → Exception → Action S A
  or_throw o e s = (elim o [ none ↦ err e | some a ↦ ok a ], s)

  -- A transaction: a throw inside it undoes its writes.
  abbrev pub settle : S → Result A × S → Result A × S
  settle s p = elim p.0 [ ok a ↦ (ok a, p.1) | err e ↦ (err e, s) ]

  abbrev pub transaction : Action S A → Action S A
  transaction m s = settle s (m s)

  -- A transaction that throws has changed nothing.
  pub transaction_cases {ℓ} :
      (P : Result A × S → Type ℓ) (m : Action S A) (s : S)
      → ((a : A) (s' : S) → m s ≡ (ok a, s') → P (ok a, s'))
      → ((e : Exception) (s' : S) → m s ≡ (err e, s') → P (err e, s))
      → P (transaction m s)
  transaction_cases P m s done thrown = go (m s) refl
    where
      go : (p : Result A × S) → m s ≡ p → P (settle s p)
      go (ok a, s') e = done a s' e
      go (err x, s') e = thrown x s' e

abbrev pub resume : {S A B : Type 0} → Result A × S → (A → Action S B) → Result B × S
resume p f = elim p.0 [ ok a ↦ f a p.1 | err e ↦ (err e, p.1) ]

infixl 5 ◌>>=◌ ◌>>◌
abbrev pub ◌>>=◌ : {S A B : Type 0} → Action S A → (A → Action S B) → Action S B
◌>>=◌ m f s = resume (m s) f

abbrev pub ◌>>◌ : {S A B : Type 0} → Action S A → Action S B → Action S B
m >> k = m >>= λ _. k

-- What holds of the rest of a block after each way in which its first step ends holds of the block.
pub >>=_cases {ℓ} :
    {S A B : Type 0} (P : Result B × S → Type ℓ) (m : Action S A) (f : A → Action S B) (s : S)
    → ((a : A) (s' : S) → m s ≡ (ok a, s') → P (f a s'))
    → ((e : Exception) (s' : S) → m s ≡ (err e, s') → P (err e, s'))
    → P ((m >>= f) s)
>>=_cases {S} {A} P m f s done thrown = go (m s) refl
  where
    go : (p : Result A × S) → m s ≡ p → P (resume p f)
    go (ok a, s') e = done a s' e
    go (err x, s') e = thrown x s' e

module _ {S : Type 0} where
  abbrev pub throw_if : Bool → Exception → Action S (Unit {0})
  throw_if c e s = (if c then err e else ok tt, s)

  abbrev pub modify : (S → S) → Action S (Unit {0})
  modify f s = (ok tt, f s)

-- A step that only shapes the result leaves the state alone.
pub state-bind_pure :
    {S A B : Type 0} (m : Action S A) (f : A → B) (s : S) → ((m >>= λ a. pure (f a)) s).1 ≡ (m s).1
state-bind_pure {S} {A} {B} m f s = go (m s)
  where
    go : (p : Result A × S) → (resume p (λ a. pure {A = B} (f a))).1 ≡ p.1
    go (ok a, s') = refl
    go (err e, s') = refl

-- A check passes with a result of which `P` holds, or throws; it writes nothing.
abbrev pub Checks : {S A : Type 0} → S → (A → Type 0) → Result A × S → Type 0
Checks s P (ok a, s') = (s' ≡ s) × P a
Checks s P (err e, s') = s' ≡ s

-- A block that begins with a check goes on where the check passes; elsewhere it throws and has
-- written nothing.
pub Checks_cases {κ} :
    {S A B : Type 0} (s : S) (P : A → Type 0) (Q : Result B × S → Type κ) (m : Action S A)
    (k : A → Action S B)
    → Checks s P (m s)
    → ((a : A) → P a → Q (k a s))
    → ((e : Exception) → Q (err e, s))
    → Q ((m >>= k) s)
Checks_cases {S} {A} s P Q m k h run refuse = go (m s) h
  where
    go : (r : Result A × S) → Checks s P r → Q (resume r k)
    go (ok a, s') (same, p) = rw same (run a p)
    go (err e, s') same = rw same (refuse e)

pub Checks-imp :
    {S A : Type 0} (s : S) (P Q : A → Type 0)
    → ((a : A) → P a → Q a)
    → (r : Result A × S) → Checks s P r
    → Checks s Q r
Checks-imp s P Q f (ok a, s') (same, p) = (same, f a p)
Checks-imp s P Q f (err e, s') same = same

-- A value that is required is there once it has been taken.
pub or_throw-Checks :
    {S A : Type 0} (o : Option A) (e : Exception) (s : S)
    → Checks s (λ a. o ≡ some a) (or_throw o e s)
or_throw-Checks none e s = refl
or_throw-Checks (some a) e s = (refl, refl)

-- Behind `throw_if` its test is false.
pub throw_if-Checks :
    {S : Type 0} (c : Bool) (e : Exception) (s : S) → Checks s (λ _. c ≡ false) (throw_if c e s)
throw_if-Checks true e s = refl
throw_if-Checks false e s = (refl, refl)

-- What holds of the state where an action succeeds.
abbrev pub OnSuccess : {S A : Type 0} → (S → Type 0) → Result A × S → Type 0
OnSuccess P (ok a, s) = P s
OnSuccess P (err e, s) = Unit

pub OnSuccess-ok :
    {S A : Type 0} (P : S → Type 0) (r : Result A × S) (a : A) → OnSuccess P r → r.0 ≡ ok a → P r.1
OnSuccess-ok P (ok b, s) a h e = h
OnSuccess-ok P (err x, s) a h e = absurd (true≢false (sym (ap is_ok e)))
