-- ===== src/Gateway/Presence/Counts.antt =====
-- The arithmetic of the presence counts: one connection more and one less.
use meridian_backend.Prelude.{
  ℕ, zero, suc, ◌+◌, ◌-◌, String, Bool, true, false, Option, none, some, ◌≡◌, ◌∙◌, ap, refl, get_or,
  is_some, ltb, leb, if◌then◌else◌, ◌==◌, ◌&&◌, ℤ, pos, negsuc, ◌+ℤ◌, is_at_most_zero, arith,
}
use meridian_backend.Redis.Presence.{is_field}
use meridian_backend.Gateway.Presence.{is_one, is_zero}

-- The count that is kept for a number of live connections.
abbrev pub as_count : ℕ → Option ℤ
as_count n = if n == 0 then none else some (pos n)

pub is_field-≡ :
    (d u document_id user_id : ℕ)
    → is_field d u document_id user_id ≡ true
    → (d ≡ document_id) × (u ≡ user_id)
is_field-≡ d u document_id user_id h = ground (arith, h)

-- The replies to one more and to one connection less.
pub is_one_more : (n : ℕ) → is_one (get_or (as_count n) (pos 0) +ℤ pos 1) ≡ (n == 0)
is_one_more n = ground arith

pub as_count_more : (n : ℕ) → some (get_or (as_count n) (pos 0) +ℤ pos 1) ≡ as_count (n + 1)
as_count_more n = grind arith

pub none_less : (n : ℕ) → is_at_most_zero (get_or (as_count n) (pos 0) +ℤ negsuc 0) ≡ leb n 1
none_less n = grind arith

pub as_count_less :
    (n : ℕ)
    → (if leb n 1 then none else some (get_or (as_count n) (pos 0) +ℤ negsuc 0)) ≡ as_count (n - 1)
as_count_less n = grind arith

pub is_zero_remaining :
    (r : ℤ) → is_zero (if is_at_most_zero r then pos 0 else r) ≡ is_at_most_zero r
is_zero_remaining (pos zero) = refl
is_zero_remaining (pos (suc n)) = ground arith
is_zero_remaining (negsuc n) = refl

-- What a connection more or less does to the count, the name and the last announcement of a user,
-- where `f` says whether it is a connection of this user to this document.
pub count_more :
    (f : Bool) (x o : Option ℤ) (n : ℕ)
    → (f ≡ true → x ≡ as_count n)
    → o ≡ as_count n
    → (if f then some (get_or x (pos 0) +ℤ pos 1) else o) ≡ as_count (if f then n + 1 else n)
count_more true x o n same h =
    ap (λ c. some (get_or c (pos 0) +ℤ pos 1)) (same refl) ∙ as_count_more n
count_more false x o n same h = h

pub said_more :
    (f one before : Bool) (n : ℕ)
    → (f ≡ true → one ≡ (n == 0))
    → before ≡ ltb 0 n
    → (if one && f then true else before) ≡ ltb 0 (if f then n + 1 else n)
said_more true true before n first h = ground arith
said_more true false before n first h = grind (arith, first refl, h)
said_more false true before n first h = h
said_more false false before n first h = h

pub count_less :
    (f : Bool) (x o : Option ℤ) (n : ℕ)
    → (f ≡ true → x ≡ as_count n)
    → o ≡ as_count n
    → (if f
        then (if is_at_most_zero (get_or x (pos 0) +ℤ negsuc 0)
            then none
            else some (get_or x (pos 0) +ℤ negsuc 0))
        else o)
      ≡ as_count (if f then n - 1 else n)
count_less true x o n same h =
    ap
      (λ c.
        if is_at_most_zero (get_or c (pos 0) +ℤ negsuc 0)
        then none
        else some (get_or c (pos 0) +ℤ negsuc 0))
      (same refl)
    ∙ ap (λ b. if b then none else some (get_or (as_count n) (pos 0) +ℤ negsuc 0)) (none_less n)
    ∙ as_count_less n
count_less false x o n same h = h

pub said_less :
    (f last before : Bool) (n : ℕ)
    → (f ≡ true → last ≡ leb n 1)
    → before ≡ ltb 0 n
    → (if last && f then false else before) ≡ ltb 0 (if f then n - 1 else n)
said_less true true before n first h = grind (arith, first refl)
said_less true false before n first h = grind (arith, first refl, h)
said_less false true before n first h = h
said_less false false before n first h = h

pub is_some-if :
    (b : Bool) (x y : Option String)
    → is_some (if b then x else y) ≡ (if b then is_some x else is_some y)
is_some-if true x y = refl
is_some-if false x y = refl

pub both_less :
    (f last : Bool) (z : ℤ) (o : Option ℤ)
    → (if last && f then none else (if f then some z else o))
      ≡ (if f then (if last then none else some z) else o)
both_less true true z o = refl
both_less true false z o = refl
both_less false true z o = refl
both_less false false z o = refl

pub suc_nonzero : (n : ℕ) → (suc n == 0) ≡ false
suc_nonzero n = ground arith
