-- ===== src/Gateway/Sessions/Guarded.antt =====
-- handleConnection keeps the rooms to members that have joined.
use meridian_backend.Prelude.{
  if_both, find_where, ℕ, String, true, Option, none, some, [], ◌∷◌, ◌++◌, ◌≡◌, refl, ◌+◌, ltb, leb,
}
use meridian_backend.Auth.{JwtClaims}
use meridian_backend.Redis.{Redis, is_token_blacklisted}
use meridian_backend.Redis.Throttle.{Counters, throttle_increment}
use meridian_backend.Redis.Presence.{Hashes}
use meridian_backend.Schema.{Database}
use meridian_backend.Gateway.{Client, has_client_id, tick, judge_window}
use meridian_backend.Gateway.Sessions.{
  Server, new_client, close, authenticate_client, on_socket, admit_client, handle_connection,
}
use meridian_backend.Gateway.Sessions.Rooms.{
  is_joined, AreSeated, AreSeated-imp, IsSeated-update_where, IsSeated-new,
}

-- The client after the end of a window, with the same id and as much joined as before.
abbrev pub IsAlike : Database → ℕ → Client → Client → Type 0
IsAlike db d c c' = (c'.id ≡ c.id) × (is_joined db d c' ≡ is_joined db d c)

pub tick-IsAlike : (db : Database) (d limit : ℕ) (c : Client) → IsAlike db d c (tick limit c)
unfolding tick judge_window
tick-IsAlike db d limit c =
    if_both (IsAlike db d c) c.timer_runs _ c (windowed c.message_count) (refl, refl)
  where
    windowed :
        (o : Option ℕ)
        → IsAlike db d c (elim o [
          | none ↦ record c { message_count = some 0; consecutive_violations = 0 }
          | some count ↦ judge_window limit count c
        ])
    windowed none = (refl, refl)
    windowed (some count) =
        if_both (IsAlike db d c) (ltb limit count) _ _
          (if_both (IsAlike db d c) (leb 3 (c.consecutive_violations + 1)) _ _ (refl, refl)
            (refl, refl))
          (refl, refl)

module _ {R : Redis} {C : Counters} {H : Hashes} where
  abbrev pub IsGuarded : Server R C H → Type 0
  IsGuarded s = AreSeated s.gateway.database s.gateway.clients s.gateway.rooms

  -- A change of one socket that keeps a joined one joined.
  pub on_socket-IsGuarded :
      (id : ℕ) (f : Client → Client) (s : Server R C H)
      → ((c : Client) → (f c).id ≡ c.id)
      → ((d : ℕ) (c : Client)
          → is_joined s.gateway.database d c ≡ true
          → is_joined s.gateway.database d (f c) ≡ true)
      → IsGuarded s
      → IsGuarded (on_socket id f s)
  on_socket-IsGuarded id f s same keep h =
      AreSeated-imp s.gateway.database s.gateway.clients _ s.gateway.rooms
        (λ d. IsSeated-update_where s.gateway.database d id f same (keep d) s.gateway.clients) h

  -- A socket that is new may be closed or authenticated.
  new_socket-IsGuarded :
      (id : ℕ) (f : Client → Client) (counters : C.State) (s : Server R C H)
      → ((c : Client) → (f c).id ≡ c.id)
      → find_where (has_client_id id) s.gateway.clients ≡ none
      → IsGuarded s
      → IsGuarded (
          on_socket id f (record s {
            gateway = record s.gateway { clients = s.gateway.clients ++ new_client id ∷ [] };
            counters = counters;
          }))
  new_socket-IsGuarded id f counters s same fresh h =
      AreSeated-imp s.gateway.database s.gateway.clients _ s.gateway.rooms
        (λ d.
          IsSeated-new s.gateway.database d id f same s.gateway.clients (new_client id ∷ []) fresh)
        h

  pub handle_connection-IsGuarded :
      (limit now id : ℕ) (rate_key : String) (verified : Option JwtClaims) (s : Server R C H)
      → find_where (has_client_id id) s.gateway.clients ≡ none
      → IsGuarded s
      → IsGuarded (handle_connection limit now id rate_key verified s)
  unfolding handle_connection
  handle_connection-IsGuarded limit now id rate_key verified s fresh h =
      if_both IsGuarded (ltb limit (throttle_increment C now rate_key 60000 s.counters).0.0)
        (on_socket id close limited) (admit_client now id verified limited) closed
        (admitted verified)
    where
      limited : Server R C H
      limited = record s {
        gateway = record s.gateway { clients = s.gateway.clients ++ new_client id ∷ [] };
        counters = (throttle_increment C now rate_key 60000 s.counters).1;
      }

      closed : IsGuarded (on_socket id close limited)
      closed = new_socket-IsGuarded id close limited.counters s (λ c. refl) fresh h

      admitted : (o : Option JwtClaims) → IsGuarded (admit_client now id o limited)
      admitted none = closed
      admitted (some claims) =
          if_both IsGuarded (is_token_blacklisted R now claims.jti s.keys)
            (on_socket id close limited) (on_socket id (authenticate_client claims) limited) closed
            (new_socket-IsGuarded id (authenticate_client claims) limited.counters s (λ c. refl)
              fresh h)
