-- ===== src/Gateway/Windows.antt =====
-- The rate window of a socket's messages: handleUpdate and the interval that handleJoin sets in
-- src/collaboration/collaboration.gateway.ts.
use meridian_backend.Prelude.{
  ℕ, zero, suc, ◌+◌, min, Bool, true, false, none, some, Option, List, [], ◌∷◌, map, ◌≡◌, refl, sym,
  ◌∙◌, ap, arith, ◌&&◌, ◌||◌, not, ltb, if◌then◌else◌, Bool-cases, inl, inr,
}
use meridian_backend.Gateway.{Client, judge_window, tick, count_message, is_within}

-- The socket after some messages in one window.
abbrev pub messages : ℕ → Client → Client
messages zero c = c
messages (suc n) c = messages n (count_message c)

-- How many of them go on.
abbrev pub passed : ℕ → ℕ → Client → ℕ
passed limit zero c = 0
passed limit (suc n) c =
    (if is_within limit (count_message c) then 1 else 0) + passed limit n (count_message c)

abbrev counted : ℕ → Client → Client
counted k c = record c { message_count = some k }

messages-counted : (n k : ℕ) (c : Client) → messages n (counted k c) ≡ counted (n + k) c
messages-counted zero k c = ap (λ j. counted j c) (omega arith)
messages-counted (suc n) k c = messages-counted n (k + 1) c ∙ ap (λ j. counted j c) (omega arith)

passed-counted :
    (limit n k : ℕ) (c : Client) → passed limit n (counted k c) + min k limit ≡ min (n + k) limit
passed-counted limit zero k c = ground arith
passed-counted limit (suc n) k c = ground (arith, passed-counted limit n (k + 1) c)

-- In a window that begins with a count of 0, the first messages up to the limit go on, and the rest
-- do not: of `n` messages as many go on as the smaller of `n` and the limit.
pub passed-min :
    (limit n : ℕ) (c : Client) → c.message_count ≡ some 0 → passed limit n c ≡ min n limit
passed-min limit n c fresh =
    ap (λ o. passed limit n (record c { message_count = o })) fresh
    ∙ omega (arith, passed-counted limit n 0 c)

-- A window: so many messages, then the tick.
abbrev pub window : ℕ → ℕ → Client → Client
window limit n c = tick limit (messages n c)

abbrev pub windows : ℕ → List ℕ → Client → Client
windows limit [] c = c
windows limit (n ∷ ns) c = windows limit ns (window limit n c)

-- Somewhere three in a row hold.
abbrev pub three_in_row : List Bool → Bool
three_in_row (a ∷ b ∷ c ∷ rest) = (a && b && c) || three_in_row (b ∷ c ∷ rest)
three_in_row _ = false

skip_one : (bs : List Bool) → three_in_row (false ∷ bs) ≡ three_in_row bs
skip_one [] = refl
skip_one (b ∷ []) = refl
skip_one (b ∷ c ∷ rest) = refl

skip_two : (bs : List Bool) → three_in_row (true ∷ false ∷ bs) ≡ three_in_row bs
skip_two [] = refl
skip_two (b ∷ bs) = skip_one (b ∷ bs)

skip_three : (bs : List Bool) → three_in_row (true ∷ true ∷ false ∷ bs) ≡ three_in_row bs
skip_three bs = skip_two bs

-- A socket at the start of a window.
abbrev pub at_start : ℕ → Client → Client
at_start violations c = record c {
  message_count = some 0;
  consecutive_violations = violations;
  timer_runs = true;
  is_open = true;
}

abbrev closed : Client → Client
closed c = record c { timer_runs = false; is_open = false }

count_message-closed : (c : Client) → count_message (closed c) ≡ closed (count_message c)
count_message-closed c = go c.message_count
  where
    go :
        (o : Option ℕ)
        → count_message (closed (record c { message_count = o }))
          ≡ closed (count_message (record c { message_count = o }))
    go none = refl
    go (some k) = refl

messages-closed : (n : ℕ) (c : Client) → messages n (closed c) ≡ closed (messages n c)
messages-closed zero c = refl
messages-closed (suc n) c =
    ap (messages n) (count_message-closed c) ∙ messages-closed n (count_message c)

window-closed : (limit n : ℕ) (c : Client) → window limit n (closed c) ≡ closed (messages n c)
unfolding tick
window-closed limit n c = ap (tick limit) (messages-closed n c)

windows-closed :
    (limit : ℕ) (ns : List ℕ) (c : Client) → (windows limit ns (closed c)).is_open ≡ false
windows-closed limit [] c = refl
windows-closed limit (n ∷ ns) c =
    ap (λ c'. (windows limit ns c').is_open) (window-closed limit n c)
    ∙ windows-closed limit ns (messages n c)

module _ (limit n : ℕ) (c : Client) where
  window-judged :
      (k : ℕ) → window limit n (at_start k c) ≡ judge_window limit n (counted n (at_start k c))
  unfolding tick
  window-judged k =
      ap (tick limit) (messages-counted n 0 (at_start k c))
      ∙ ap (λ j. judge_window limit j (counted j (at_start k c))) (omega arith)

  window-kept : (k : ℕ) → ltb limit n ≡ false → window limit n (at_start k c) ≡ at_start 0 c
  unfolding judge_window
  window-kept k ok_ = window-judged k ∙ rw ok_ refl

  window-first : ltb limit n ≡ true → window limit n (at_start 0 c) ≡ at_start 1 c
  unfolding judge_window
  window-first broken = window-judged 0 ∙ rw broken refl

  window-second : ltb limit n ≡ true → window limit n (at_start 1 c) ≡ at_start 2 c
  unfolding judge_window
  window-second broken = window-judged 1 ∙ rw broken refl

  window-third : ltb limit n ≡ true → window limit n (at_start 2 c) ≡ closed (at_start 3 c)
  unfolding judge_window
  window-third broken = window-judged 2 ∙ rw broken refl

abbrev opens : ℕ → List ℕ → Client → Bool
opens limit ns c = (windows limit ns c).is_open

abbrev broken : ℕ → List ℕ → List Bool
broken limit ns = map (ltb limit) ns

windows-rows :
    (limit : ℕ) (ns : List ℕ) (c : Client)
    → (opens limit ns (at_start 0 c) ≡ not (three_in_row (broken limit ns)))
      × (opens limit ns (at_start 1 c) ≡ not (three_in_row (true ∷ broken limit ns)))
      × (opens limit ns (at_start 2 c) ≡ not (three_in_row (true ∷ true ∷ broken limit ns)))
windows-rows limit [] c = (refl, refl, refl)
windows-rows limit (n ∷ ns) c =
    let bs = broken limit ns in
    elim (Bool-cases (ltb limit n)) [
      | inl over ↦ (
        ap (opens limit ns) (window-first limit n c over)
            ∙ (windows-rows limit ns c).1
            ∙ ap (λ b. not (three_in_row (b ∷ bs))) (sym over),
        ap (opens limit ns) (window-second limit n c over)
            ∙ (windows-rows limit ns c).2
            ∙ ap (λ b. not (three_in_row (true ∷ b ∷ bs))) (sym over),
        ap (opens limit ns) (window-third limit n c over)
            ∙ windows-closed limit ns (at_start 3 c)
            ∙ ap (λ b. not (three_in_row (true ∷ true ∷ b ∷ bs))) (sym over),
      )
      | inr within ↦ (
        ap (opens limit ns) (window-kept limit n c 0 within)
            ∙ (windows-rows limit ns c).0
            ∙ ap not (sym (skip_one bs))
            ∙ ap (λ b. not (three_in_row (b ∷ bs))) (sym within),
        ap (opens limit ns) (window-kept limit n c 1 within)
            ∙ (windows-rows limit ns c).0
            ∙ ap not (sym (skip_two bs))
            ∙ ap (λ b. not (three_in_row (true ∷ b ∷ bs))) (sym within),
        ap (opens limit ns) (window-kept limit n c 2 within)
            ∙ (windows-rows limit ns c).0
            ∙ ap not (sym (skip_three bs))
            ∙ ap (λ b. not (three_in_row (true ∷ true ∷ b ∷ bs))) (sym within),
      )
    ]

-- From the start of a window with no violation counted, and the interval running, a socket is still
-- open after any number of windows exactly if no three windows in a row had more messages than the
-- limit.
pub windows-three_in_row :
    (limit : ℕ) (ns : List ℕ) (c : Client)
    → (windows limit ns (at_start 0 c)).is_open ≡ not (three_in_row (map (ltb limit) ns))
windows-three_in_row limit ns c = (windows-rows limit ns c).0
