-- ===== src/Redis/Presence/Memory.antt =====
-- Hashes kept as two functions, from document and user, with the seconds that they have left.
use meridian_backend.Prelude.{
  ℕ, ◌-◌, ◌≤◌, ◌<◌, String, true, Option, none, some, ◌≡◌, refl, ap, get_or, if◌then◌else◌, if_both,
  ◌==◌, ==_refl, ltb, arith, ℤ, pos, ◌+ℤ◌,
}
use meridian_backend.Redis.Presence.{HashKey, count_key, identity_key, Hashes, IsLawful, is_field}

pub record Fields : Type 0 where
  pub counts : ℕ → ℕ → Option ℤ
  pub names : ℕ → ℕ → Option String
  pub count_ends : ℕ → Option ℕ
  pub name_ends : ℕ → Option ℕ

abbrev put : {A : Type 0} → ℕ → ℕ → Option A → (ℕ → ℕ → Option A) → ℕ → ℕ → Option A
put document_id user_id v f d u = if is_field d u document_id user_id then v else f d u

abbrev delete : HashKey → ℕ → Fields → Fields
delete (count_key d) u s = record s { counts = put d u none s.counts }
delete (identity_key d) u s = record s { names = put d u none s.names }

abbrev ends : HashKey → Fields → Option ℕ
ends (count_key d) s = s.count_ends d
ends (identity_key d) s = s.name_ends d

abbrev put_end : ℕ → ℕ → (ℕ → Option ℕ) → ℕ → Option ℕ
put_end document_id seconds f d = if d == document_id then some seconds else f d

abbrev set_end : HashKey → ℕ → Fields → Fields
set_end (count_key d) n s = record s { count_ends = put_end d n s.count_ends }
set_end (identity_key d) n s = record s { name_ends = put_end d n s.name_ends }

-- A value and a time to live after so many seconds.
abbrev survives : {A : Type 0} → ℕ → Option ℕ → Option A → Option A
survives n none v = v
survives n (some e) v = if ltb n e then v else none

abbrev remaining : ℕ → Option ℕ → Option ℕ
remaining n none = none
remaining n (some e) = if ltb n e then some (e - n) else none

abbrev elapse : ℕ → Fields → Fields
elapse n s = record {
  counts = λ d u. survives n (s.count_ends d) (s.counts d u);
  names = λ d u. survives n (s.name_ends d) (s.names d u);
  count_ends = λ d. remaining n (s.count_ends d);
  name_ends = λ d. remaining n (s.name_ends d);
}

abbrev Lasts : ℕ → Option ℕ → Type 0
Lasts left none = Unit
Lasts left (some e) = left ≤ e

Lasts-remaining : (left n : ℕ) (e : Option ℕ) → Lasts left e → Lasts (left - n) (remaining n e)
Lasts-remaining left n none h = tt
Lasts-remaining left n (some e) h =
    if_both (Lasts (left - n)) (ltb n e) (some (e - n)) none (omega (arith, h)) tt

survives-kept :
    {A : Type 0} (left n : ℕ) (e : Option ℕ) (v : Option A)
    → Lasts left e
    → n < left
    → survives n e v ≡ v
survives-kept left n none v h lt = refl
survives-kept left n (some e) v h lt =
    let on_time : ltb n e ≡ true = ground (arith, h, lt) in rw on_time refl

survives-none :
    {A : Type 0} (n : ℕ) (e : Option ℕ) (v : Option A) → v ≡ none → survives n e v ≡ none
survives-none n none v h = h
survives-none n (some e) v h = if_both (λ o. o ≡ none) (ltb n e) v none h refl

Lasts-put_end :
    (left d document_id seconds : ℕ) (f : ℕ → Option ℕ)
    → left ≤ seconds
    → Lasts left (f d)
    → Lasts left (put_end document_id seconds f d)
Lasts-put_end left d document_id seconds f le h =
    if_both (Lasts left) (d == document_id) (some seconds) (f d) le h

put_end-Lasts : (d seconds : ℕ) (f : ℕ → Option ℕ) → Lasts seconds (put_end d seconds f d)
put_end-Lasts d seconds f = rw (==_refl d) (omega arith)

abbrev increased : ℕ → ℕ → ℤ → Fields → ℤ
increased d u n s = get_or (s.counts d u) (pos 0) +ℤ n

abbrev pub memory : Hashes
memory = record {
  State = Fields;
  count = λ d u s. s.counts d u;
  name = λ d u s. s.names d u;
  hincr_by = λ d u n s.
      (increased d u n s, record s { counts = put d u (some (increased d u n s)) s.counts });
  hset = λ d u value s. record s { names = put d u (some value) s.names };
  hdel = delete;
  expire = set_end;
  hget_all = λ d s. s.names d;
  pass = elapse;
  IsKept = λ key left s. Lasts left (ends key s);
}

abbrev pub no_fields : Fields
no_fields = record {
  counts = λ d u. none;
  names = λ d u. none;
  count_ends = λ d. none;
  name_ends = λ d. none;
}

set_end-Lasts :
    (key : HashKey) (seconds : ℕ) (s : Fields) → Lasts seconds (ends key (set_end key seconds s))
set_end-Lasts (count_key d) seconds s = put_end-Lasts d seconds s.count_ends
set_end-Lasts (identity_key d) seconds s = put_end-Lasts d seconds s.name_ends

Lasts-set_end :
    (key other : HashKey) (left seconds : ℕ) (s : Fields)
    → left ≤ seconds
    → Lasts left (ends key s)
    → Lasts left (ends key (set_end other seconds s))
Lasts-set_end (count_key d) (count_key d') left seconds s le h =
    Lasts-put_end left d d' seconds s.count_ends le h
Lasts-set_end (count_key d) (identity_key d') left seconds s le h = h
Lasts-set_end (identity_key d) (count_key d') left seconds s le h = h
Lasts-set_end (identity_key d) (identity_key d') left seconds s le h =
    Lasts-put_end left d d' seconds s.name_ends le h

Lasts-hincr_by :
    (key : HashKey) (left document_id user_id : ℕ) (n : ℤ) (s : Fields)
    → Lasts left (ends key s)
    → Lasts left (ends key (memory.hincr_by document_id user_id n s).1)
Lasts-hincr_by (count_key d) left document_id user_id n s h = h
Lasts-hincr_by (identity_key d) left document_id user_id n s h = h

Lasts-hset :
    (key : HashKey) (left document_id user_id : ℕ) (value : String) (s : Fields)
    → Lasts left (ends key s)
    → Lasts left (ends key (memory.hset document_id user_id value s))
Lasts-hset (count_key d) left document_id user_id value s h = h
Lasts-hset (identity_key d) left document_id user_id value s h = h

Lasts-delete :
    (key other : HashKey) (left user_id : ℕ) (s : Fields)
    → Lasts left (ends key s)
    → Lasts left (ends key (delete other user_id s))
Lasts-delete (count_key d) (count_key d') left user_id s h = h
Lasts-delete (count_key d) (identity_key d') left user_id s h = h
Lasts-delete (identity_key d) (count_key d') left user_id s h = h
Lasts-delete (identity_key d) (identity_key d') left user_id s h = h

Lasts-elapse :
    (key : HashKey) (left seconds : ℕ) (s : Fields)
    → Lasts left (ends key s)
    → Lasts (left - seconds) (ends key (elapse seconds s))
Lasts-elapse (count_key d) left seconds s h = Lasts-remaining left seconds (s.count_ends d) h
Lasts-elapse (identity_key d) left seconds s h = Lasts-remaining left seconds (s.name_ends d) h

set_end-counts :
    (key : HashKey) (seconds : ℕ) (s : Fields) → (set_end key seconds s).counts ≡ s.counts
set_end-counts (count_key d) seconds s = refl
set_end-counts (identity_key d) seconds s = refl

set_end-names : (key : HashKey) (seconds : ℕ) (s : Fields) → (set_end key seconds s).names ≡ s.names
set_end-names (count_key d) seconds s = refl
set_end-names (identity_key d) seconds s = refl

pub memory-IsLawful : IsLawful memory
memory-IsLawful = record {
  hincr_by-count = λ d u n s. refl;
  count-hincr_by = λ d u document_id user_id n s. refl;
  name-hincr_by = λ d u document_id user_id n s. refl;
  count-hset = λ d u document_id user_id value s. refl;
  name-hset = λ d u document_id user_id value s. refl;
  count-hdel_count = λ d u document_id user_id s. refl;
  name-hdel_count = λ d u document_id user_id s. refl;
  count-hdel_identity = λ d u document_id user_id s. refl;
  name-hdel_identity = λ d u document_id user_id s. refl;
  count-expire = λ d u key seconds s. ap (λ f. f d u) (set_end-counts key seconds s);
  name-expire = λ d u key seconds s. ap (λ f. f d u) (set_end-names key seconds s);
  expire-IsKept = set_end-Lasts;
  IsKept-expire = Lasts-set_end;
  IsKept-hincr_by = Lasts-hincr_by;
  IsKept-hset = Lasts-hset;
  IsKept-hdel = Lasts-delete;
  IsKept-pass = Lasts-elapse;
  count-pass =
      λ d u left seconds s h lt. survives-kept left seconds (s.count_ends d) (s.counts d u) h lt;
  name-pass =
      λ d u left seconds s h lt. survives-kept left seconds (s.name_ends d) (s.names d u) h lt;
  count-pass_none = λ d u seconds s h. survives-none seconds (s.count_ends d) (s.counts d u) h;
  name-pass_none = λ d u seconds s h. survives-none seconds (s.name_ends d) (s.names d u) h;
  hget_all-name = λ d u s. refl;
}
