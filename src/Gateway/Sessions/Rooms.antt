-- ===== src/Gateway/Sessions/Rooms.antt =====
-- The rooms of an instance: which sockets are in them.
use meridian_backend.Prelude.{
  if_both, ℕ, Bool, true, false, not, Option, none, some, List, [], ◌∷◌, ◌++◌, ◌≡◌, ◌∙◌, ap, refl,
  sym, subst, ==_iff, Bool-cases, inl, inr, All, All-append, All-imp, find_where,
  find_where-append-some, find_where-update_where, find_where_sound, update_where, is_some,
  if◌then◌else◌, ◌==◌, ◌&&◌,
}
use meridian_backend.Schema.{Membership, Database}
use meridian_backend.Memberships.Roles.{role_of}
use meridian_backend.Gateway.{Client, has_client_id}
use meridian_backend.Gateway.Sessions.{
  join_client, add, remove, add_to_room, keep_room, remove_from_room,
}

-- An authenticated socket that has joined a document with a role, of a user who is a member of the
-- document `d`.
abbrev pub is_joined : Database → ℕ → Client → Bool
is_joined db d c =
    c.authenticated && is_some c.role && is_some c.document_id && is_some (role_of db d c.user_id)

abbrev pub is_joined_client : Database → ℕ → Option Client → Bool
is_joined_client db d none = false
is_joined_client db d (some c) = is_joined db d c

abbrev pub IsSeated : Database → List Client → ℕ → ℕ → Type 0
IsSeated db clients d id = is_joined_client db d (find_where (has_client_id id) clients) ≡ true

-- Every socket in the room of a document has joined, and its user is a member of this document.
abbrev pub AreSeated : Database → List Client → List (ℕ × List ℕ) → Type 0
AreSeated db clients rooms = All (λ room. All (IsSeated db clients room.0) room.1) rooms

module _ (db : Database) (d : ℕ) where
  is_joined_client-some :
      (o : Option Client)
      → is_joined_client db d o ≡ true
      → (c : Client) × ((o ≡ some c) × (is_joined db d c ≡ true))
  is_joined_client-some none h = cc
  is_joined_client-some (some c) h = (c, (refl, h))

  -- What keeps a joined socket joined keeps the rooms seated.
  pub IsSeated-update_where :
      (id : ℕ) (f : Client → Client)
      → ((c : Client) → (f c).id ≡ c.id)
      → ((c : Client) → is_joined db d c ≡ true → is_joined db d (f c) ≡ true)
      → (clients : List Client) (i : ℕ) → IsSeated db clients d i
      → IsSeated db (update_where (has_client_id id) f clients) d i
  IsSeated-update_where id f same keep clients i h =
      let (c, (found, joined)) = is_joined_client-some _ h in
      ap (is_joined_client db d) (
        find_where-update_where (has_client_id i) (has_client_id id) f
          (λ a. ap (λ n. n == i) (same a)) clients c found)
      ∙ kept (has_client_id id c) c joined
    where
      kept :
          (b : Bool) (c : Client)
          → is_joined db d c ≡ true
          → is_joined db d (if b then f c else c) ≡ true
      kept true c joined = keep c joined
      kept false c joined = joined

  -- A socket that is new, whatever happens to it, leaves the others where they are.
  pub IsSeated-new :
      (id : ℕ) (f : Client → Client)
      → ((c : Client) → (f c).id ≡ c.id)
      → (xs ys : List Client) → find_where (has_client_id id) xs ≡ none
      → (i : ℕ) → IsSeated db xs d i
      → IsSeated db (update_where (has_client_id id) f (xs ++ ys)) d i
  IsSeated-new id f same xs ys fresh i h =
      let (c, (found, joined)) = is_joined_client-some _ h in
      ap (is_joined_client db d) (
        find_where-update_where (has_client_id i) (has_client_id id) f
          (λ a. ap (λ n. n == i) (same a)) (xs ++ ys) c
          (find_where-append-some (has_client_id i) xs ys c found))
      ∙ ap (λ b. is_joined db d (if b then f c else c)) (another c found)
      ∙ joined
    where
      another : (c : Client) → find_where (has_client_id i) xs ≡ some c → has_client_id id c ≡ false
      another c found = elim (Bool-cases (has_client_id id c)) [
        | inr other ↦ other
        | inl own ↦
            let same_id : i ≡ id =
              sym ((==_iff c.id i).0 (find_where_sound (has_client_id i) xs c found))
              ∙ (==_iff c.id id).0 own in
            let there : find_where (has_client_id id) xs ≡ some c =
              ap (λ n. find_where (has_client_id n) xs) (sym same_id) ∙ found in
            cc (fresh, there)
      ]

  pub IsSeated-join :
      (m : Membership) (clients : List Client) (c : Client) (i : ℕ)
      → find_where (has_client_id i) clients ≡ some c
      → c.authenticated ≡ true
      → is_some (role_of db d c.user_id) ≡ true
      → IsSeated db (update_where (has_client_id i) (join_client d m) clients) d i
  IsSeated-join m clients c i found known member =
      ap (is_joined_client db d) (
        find_where-update_where (has_client_id i) (has_client_id i) (join_client d m) (λ a. refl)
          clients c found)
      ∙ ap (λ b. is_joined db d (if b then join_client d m c else c))
          (find_where_sound (has_client_id i) clients c found)
      ∙ rw (known, member) refl

pub AreSeated-imp :
    (db : Database) (xs ys : List Client) (rooms : List (ℕ × List ℕ))
    → ((d i : ℕ) → IsSeated db xs d i → IsSeated db ys d i)
    → AreSeated db xs rooms
    → AreSeated db ys rooms
AreSeated-imp db xs ys rooms f h =
    All-imp _ _ (λ room. All-imp (IsSeated db xs room.0) (IsSeated db ys room.0) (f room.0) room.1)
      rooms h

all_but_last :
    (x y z m m' : Bool)
    → (m ≡ true → m' ≡ true)
    → (x && y && z && m) ≡ true
    → (x && y && z && m') ≡ true
all_but_last true true true m m' f h = f h
all_but_last true true false m m' f h = cc h
all_but_last true false z m m' f h = cc h
all_but_last false y z m m' f h = cc h

is_joined_client-keeps :
    (db db' : Database) (d : ℕ)
    → ((u : ℕ) → is_some (role_of db d u) ≡ true → is_some (role_of db' d u) ≡ true)
    → (o : Option Client) → is_joined_client db d o ≡ true
    → is_joined_client db' d o ≡ true
is_joined_client-keeps db db' d f none h = h
is_joined_client-keeps db db' d f (some c) h =
    all_but_last c.authenticated (is_some c.role) (is_some c.document_id) _ _ (f c.user_id) h

-- A database with the same members and maybe more.
pub AreSeated-keeps :
    (db db' : Database)
    → ((d u : ℕ) → is_some (role_of db d u) ≡ true → is_some (role_of db' d u) ≡ true)
    → (clients : List Client) (rooms : List (ℕ × List ℕ)) → AreSeated db clients rooms
    → AreSeated db' clients rooms
AreSeated-keeps db db' f clients rooms h =
    All-imp _ _
      (λ room.
        All-imp (IsSeated db clients room.0) (IsSeated db' clients room.0)
          (λ i. is_joined_client-keeps db db' room.0 (f room.0) _) room.1)
      rooms h

All-add : (P : ℕ → Type 0) (id : ℕ) (ids : List ℕ) → P id → All P ids → All P (add id ids)
All-add P id ids p h = if_both (All P) _ _ _ h (All-append P ids (id ∷ []) h (p, tt))

pub AreSeated-add_to_room :
    (db : Database) (clients : List Client) (d id : ℕ) (rooms : List (ℕ × List ℕ))
    → IsSeated db clients d id
    → AreSeated db clients rooms
    → AreSeated db clients (add_to_room d id rooms)
AreSeated-add_to_room db clients d id [] p h = ((p, tt), tt)
AreSeated-add_to_room db clients d id ((key, members) ∷ rooms) p (h, hs) =
    elim (Bool-cases (key == d)) [
      | inl own ↦ rw own (
        All-add (IsSeated db clients key) id members
            (subst (λ k. IsSeated db clients k id) (sym ((==_iff key d).0 own)) p) h,
        hs,
      )
      | inr other ↦ rw other (h, AreSeated-add_to_room db clients d id rooms p hs)
    ]

All-remove : (P : ℕ → Type 0) (id : ℕ) (ids : List ℕ) → All P ids → All P (remove id ids)
All-remove P id [] h = tt
All-remove P id (i ∷ ids) (p, h) =
    if_both (All P) (not (i == id)) _ _ (p, All-remove P id ids h) (All-remove P id ids h)

AreSeated-keep_room :
    (db : Database) (clients : List Client) (key : ℕ) (members : List ℕ) (rooms : List (ℕ × List ℕ))
    → All (IsSeated db clients key) members
    → AreSeated db clients rooms
    → AreSeated db clients (keep_room key members rooms)
AreSeated-keep_room db clients key [] rooms h hs = hs
AreSeated-keep_room db clients key (id ∷ members) rooms h hs = (h, hs)

pub AreSeated-remove_from_room :
    (db : Database) (clients : List Client) (d id : ℕ) (rooms : List (ℕ × List ℕ))
    → AreSeated db clients rooms
    → AreSeated db clients (remove_from_room d id rooms)
AreSeated-remove_from_room db clients d id [] h = tt
AreSeated-remove_from_room db clients d id ((key, members) ∷ rooms) (h, hs) =
    if_both (AreSeated db clients) (key == d) _ _
      (AreSeated-keep_room db clients key (remove id members) rooms
        (All-remove (IsSeated db clients key) id members h) hs)
      (h, AreSeated-remove_from_room db clients d id rooms hs)
