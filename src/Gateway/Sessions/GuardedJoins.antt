-- ===== src/Gateway/Sessions/GuardedJoins.antt =====
-- handleJoin keeps the rooms to members that have joined.
use meridian_backend.Prelude.{
  if_both, is_some, ℕ, String, Bool, true, Option, none, some, List, ◌≡◌, ◌∙◌, ap, sym, refl,
  find_where, find_where_sound, update_where, subst, arith, inl, inr, Bool-cases, if◌then◌else◌,
  ==_iff, ◌||◌, ℤ,
}
use meridian_backend.Schema.{Membership, Database}
use meridian_backend.Memberships.{is_membership}
use meridian_backend.Memberships.Roles.{role_of}
use meridian_backend.Users.{SafeUser}
use meridian_backend.Auth.Tokens.{user_by_id}
use meridian_backend.Redis.{Redis}
use meridian_backend.Redis.Throttle.{Counters}
use meridian_backend.Redis.Presence.{Hashes, presence_join}
use meridian_backend.Gateway.{Client, has_client_id}
use meridian_backend.Gateway.Presence.{is_one}
use meridian_backend.Gateway.Sessions.{
  Server, close, join_client, start_window, add_to_room, contains, add, on_socket,
}
use meridian_backend.Gateway.Sessions.Joins.{
  send_state, enter_found, count_in, seat, open_window, admit_member, join_document, join_client_to,
  join_found, handle_join,
}
use meridian_backend.Gateway.Sessions.Rooms.{
  is_joined, AreSeated, IsSeated-join, AreSeated-add_to_room,
}
use meridian_backend.Gateway.Sessions.Guarded.{IsGuarded, on_socket-IsGuarded}

join_client-is_joined :
    (db : Database) (room d : ℕ) (m : Membership) (c : Client)
    → is_joined db room c ≡ true
    → is_joined db room (join_client d m c) ≡ true
join_client-is_joined db room d m c h = grind (arith, h)

-- The row of a membership gives its user a role.
found_role :
    (db : Database) (d u : ℕ) (m : Membership)
    → find_where (is_membership d u) db.memberships ≡ some m
    → is_some (role_of db d u) ≡ true
found_role db d u m found = rw found refl

module _ {R : Redis} {C : Counters} {H : Hashes} where
  enter_found-IsGuarded :
      (display_name : SafeUser → String) (d : ℕ) (c : Client) (r : ℤ × H.State)
      (found : Option SafeUser) (s : Server R C H)
      → IsGuarded s
      → IsGuarded (enter_found display_name d c r found s)
  enter_found-IsGuarded display_name d c r none s h =
      if_both IsGuarded (is_one r.0) s (send_state d c.id s) h h
  enter_found-IsGuarded display_name d c r (some user) s h = h

  count_in-IsGuarded :
      (display_name : SafeUser → String) (d : ℕ) (c : Client) (s : Server R C H)
      → IsGuarded s
      → IsGuarded (count_in display_name d c s)
  count_in-IsGuarded display_name d c s h =
      enter_found-IsGuarded display_name d c (presence_join H d c.user_id s.presence)
        (user_by_id c.user_id s.gateway.database)
        (record s {
          presence = (presence_join H d c.user_id s.presence).1;
          counted = add c.id s.counted;
        })
        h

  admit_member-IsGuarded :
      (display_name : SafeUser → String) (subscribes : Bool) (d : ℕ) (c : Client) (m : Membership)
      (s : Server R C H)
      → find_where (has_client_id c.id) s.gateway.clients ≡ some c
      → c.authenticated ≡ true
      → is_some (role_of s.gateway.database d c.user_id) ≡ true
      → IsGuarded s
      → IsGuarded (admit_member display_name subscribes d c m s)
  admit_member-IsGuarded display_name subscribes d c m s found known member h =
      if_both IsGuarded (contains d s.subscribed || subscribes)
        (count_in display_name d c (open_window d c (seat d c m s)))
        (on_socket c.id close (seat d c m s))
        (count_in-IsGuarded display_name d c (open_window d c (seat d c m s)) (
          on_socket-IsGuarded c.id start_window (subscribed_to d (seat d c m s)) (λ c'. refl)
            (λ room c' j. j) seated))
        (on_socket-IsGuarded c.id close (seat d c m s) (λ c'. refl) (λ room c' j. j) seated)
    where
      subscribed_to : ℕ → Server R C H → Server R C H
      subscribed_to d s' = record s' { subscribed = add d s'.subscribed }

      clients : List Client
      clients = update_where (has_client_id c.id) (join_client d m) s.gateway.clients

      seated : AreSeated s.gateway.database clients (add_to_room d c.id s.gateway.rooms)
      seated =
          AreSeated-add_to_room s.gateway.database clients d c.id s.gateway.rooms
            (IsSeated-join s.gateway.database d m s.gateway.clients c c.id found known member)
            (on_socket-IsGuarded c.id (join_client d m) s (λ c'. refl)
              (λ room. join_client-is_joined s.gateway.database room d m) h)

  join_document-IsGuarded :
      (display_name : SafeUser → String) (subscribes : Bool) (d : ℕ) (c : Client)
      (membership : Option Membership) (s : Server R C H)
      → find_where (has_client_id c.id) s.gateway.clients ≡ some c
      → c.authenticated ≡ true
      → find_where (is_membership d c.user_id) s.gateway.database.memberships ≡ membership
      → IsGuarded s
      → IsGuarded (join_document display_name subscribes d c membership s)
  join_document-IsGuarded display_name subscribes d c none s found known queried h =
      on_socket-IsGuarded c.id close s (λ c'. refl) (λ room c' j. j) h
  join_document-IsGuarded display_name subscribes d c (some m) s found known queried h =
      admit_member-IsGuarded display_name subscribes d c m s found known
        (found_role s.gateway.database d c.user_id m queried) h

  join_client_to-IsGuarded :
      (display_name : SafeUser → String) (subscribes : Bool) (document_id : Option ℕ) (c : Client)
      (s : Server R C H)
      → find_where (has_client_id c.id) s.gateway.clients ≡ some c
      → c.authenticated ≡ true
      → IsGuarded s
      → IsGuarded (join_client_to display_name subscribes document_id c s)
  join_client_to-IsGuarded display_name subscribes none c s found known h =
      on_socket-IsGuarded c.id close s (λ c'. refl) (λ room c' j. j) h
  join_client_to-IsGuarded display_name subscribes (some d) c s found known h =
      join_document-IsGuarded display_name subscribes d c _ s found known refl h

  join_found-IsGuarded :
      (display_name : SafeUser → String) (subscribes : Bool) (document_id : Option ℕ)
      (o : Option Client) (s : Server R C H)
      → ((c : Client) → o ≡ some c → find_where (has_client_id c.id) s.gateway.clients ≡ some c)
      → IsGuarded s
      → IsGuarded (join_found display_name subscribes document_id o s)
  join_found-IsGuarded display_name subscribes document_id none s found h = h
  join_found-IsGuarded display_name subscribes document_id (some c) s found h =
      elim (Bool-cases c.authenticated) [
        | inl known ↦
            subst
              (λ b.
                IsGuarded (if b then join_client_to display_name subscribes document_id c s else s))
              (sym known)
              (join_client_to-IsGuarded display_name subscribes document_id c s (found c refl) known
                h)
        | inr unknown ↦
            subst
              (λ b.
                IsGuarded (if b then join_client_to display_name subscribes document_id c s else s))
              (sym unknown) h
      ]

  pub handle_join-IsGuarded :
      (display_name : SafeUser → String) (subscribes : Bool) (document_id : Option ℕ) (id : ℕ)
      (s : Server R C H)
      → IsGuarded s
      → IsGuarded (handle_join display_name subscribes document_id id s)
  unfolding handle_join
  handle_join-IsGuarded display_name subscribes document_id id s h =
      join_found-IsGuarded display_name subscribes document_id _ s
        (λ c found.
          ap (λ i. find_where (has_client_id i) s.gateway.clients)
            ((==_iff c.id id).0 (find_where_sound (has_client_id id) s.gateway.clients c found))
          ∙ found)
        h
