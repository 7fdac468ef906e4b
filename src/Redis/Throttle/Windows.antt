-- ===== src/Redis/Throttle/Windows.antt =====
-- The window of a throttle: how many of the requests in it go on.
use meridian_backend.Prelude.{
  ℕ, ◌+◌, ◌-◌, ◌≤◌, ◌<◌, String, Bool, true, false, List, [], ◌∷◌, ◌≡◌, ◌∙◌, ap, refl, ltb, min,
  length, if◌then◌else◌, ◌==◌, arith,
}
use meridian_backend.Redis.Throttle.{Counters, IsLawful, throttle_increment, increment}

abbrev pub sum : List ℕ → ℕ
sum [] = 0
sum (n ∷ ns) = n + sum ns

module _ (C : Counters) (key : String) (ttl limit : ℕ) where
  -- How many of the requests that are made after these delays are not blocked.
  unfoldable pub admitted : ℕ → List ℕ → C.State → ℕ
  admitted now [] s = 0
  admitted now (delay ∷ delays) s =
      let r = increment C (now + delay) key ttl limit s in
      (if r.0.is_blocked then 0 else 1) + admitted (now + delay) delays r.1

one_more :
    (b : Bool) (n : ℕ)
    → 0 < n
    → (if (if b then n else 0) == 0 then 0 else (if b then n else 0) + 1) ≡ (if b then n + 1 else 0)
one_more true n some_hit = ground arith
one_more false n some_hit = refl

not_first :
    {A : Type 0} (f : A → ℕ) (x y : A) (n : ℕ) → 0 < n → f (if n + 1 == 1 then x else y) ≡ f y
not_first f x y n some_hit = ap (λ b. f (if b then x else y)) later
  where
    later : (n + 1 == 1) ≡ false
    later = ground arith

module _ {C : Counters} (laws : IsLawful C) (key : String) (ttl limit : ℕ) where
  -- The counter stands at `n` until `stop`.
  IsWindow : ℕ → ℕ → ℕ → C.State → Type 0
  IsWindow now n stop s = (t : ℕ) → now ≤ t → C.hits t key s ≡ (if ltb t stop then n else 0)

  opened :
      (now : ℕ) (s : C.State)
      → C.hits now key s ≡ 0
      → ((increment C now key ttl limit s).0.is_blocked ≡ ltb limit 1)
        × IsWindow now 1 (now + ttl) (increment C now key ttl limit s).1
  unfolding increment throttle_increment IsWindow
  opened now s none_left = (
    ap (ltb limit) first,
    λ t le.
        ap
          (λ c.
            C.hits t key
              (if c == 1 then C.pexpire now key ttl (C.incr now key s).1 else (C.incr now key s).1))
          first
        ∙ laws.hits-pexpire now t key ttl _ le
        ∙ ap (λ c. if ltb t (now + ttl) then c else 0)
            (laws.hits-incr_new now now key s (omega arith) none_left),
  )
    where
      first : (C.incr now key s).0 ≡ 1
      first = laws.incr-hits now key s ∙ ap (λ n. n + 1) none_left

  continued :
      (now n stop : ℕ) (s : C.State)
      → now < stop
      → 0 < n
      → IsWindow now n stop s
      → ((increment C now key ttl limit s).0.is_blocked ≡ ltb limit (n + 1))
        × IsWindow now (n + 1) stop (increment C now key ttl limit s).1
  unfolding increment throttle_increment IsWindow
  continued now n stop s before some_hit window = (
    ap (ltb limit) next,
    λ t le.
        ap
          (λ c.
            C.hits t key
              (if c == 1 then C.pexpire now key ttl (C.incr now key s).1 else (C.incr now key s).1))
          next
        ∙ not_first (C.hits t key) _ _ n some_hit
        ∙ laws.hits-incr_old now t key s le (ground (arith, here, some_hit))
        ∙ ap (λ c. if c == 0 then 0 else c + 1) (window t le)
        ∙ one_more (ltb t stop) n some_hit,
  )
    where
      here : C.hits now key s ≡ n
      here = window now (omega arith) ∙ ground (arith, before)

      next : (C.incr now key s).0 ≡ n + 1
      next = laws.incr-hits now key s ∙ ap (λ c. c + 1) here

  admitted_in_window :
      (delays : List ℕ) (now n stop : ℕ) (s : C.State)
      → now + sum delays < stop
      → 0 < n
      → IsWindow now n stop s
      → admitted C key ttl limit now delays s ≡ min (length delays) (limit - n)
  unfolding admitted IsWindow
  admitted_in_window [] now n stop s before some_hit window = omega arith
  admitted_in_window (delay ∷ delays) now n stop s before some_hit window =
      let later : IsWindow (now + delay) n stop s = λ t le. window t (omega (arith, le)) in
      let (blocked, window') =
        continued (now + delay) n stop s (omega (arith, before)) some_hit later in
      let after : C.State = (increment C (now + delay) key ttl limit s).1 in
      let rest =
        admitted_in_window delays (now + delay) (n + 1) stop after (omega (arith, before))
          (omega arith) window' in
      ap (λ b. (if b then 0 else 1) + admitted C key ttl limit (now + delay) delays after) blocked
      ∙ ap (λ c. (if ltb limit (n + 1) then 0 else 1) + c) rest
      ∙ ground arith

  -- In a window that opens with the first of its requests, as many of them go on as the limit
  -- allows, or all where they are fewer.
  pub admitted-min :
      (delay : ℕ) (delays : List ℕ) (now : ℕ) (s : C.State)
      → C.hits (now + delay) key s ≡ 0
      → sum delays < ttl
      → admitted C key ttl limit now (delay ∷ delays) s ≡ min (length (delay ∷ delays)) limit
  unfolding admitted
  admitted-min delay delays now s none_left inside =
      let (blocked, window) = opened (now + delay) s none_left in
      let after : C.State = (increment C (now + delay) key ttl limit s).1 in
      let rest =
        admitted_in_window delays (now + delay) 1 (now + delay + ttl) after (omega (arith, inside))
          (omega arith) window in
      ap (λ b. (if b then 0 else 1) + admitted C key ttl limit (now + delay) delays after) blocked
      ∙ ap (λ c. (if ltb limit 1 then 0 else 1) + c) rest
      ∙ ground arith
