-- ===== src/Gateway/Sessions/Reachable.antt =====
-- The states of an instance that sockets can bring about, as a step relation.
use meridian_backend.Prelude.{
  ℕ, String, Bool, true, is_some, Option, none, [], find_where, ◌≡◌, ◌∙◌, sym, subst,
}
use meridian_backend.Schema.{Database}
use meridian_backend.Memberships.Roles.{role_of}
use meridian_backend.Users.{SafeUser}
use meridian_backend.Auth.{JwtClaims}
use meridian_backend.Redis.{Redis}
use meridian_backend.Redis.Throttle.{Counters}
use meridian_backend.Redis.Presence.{Hashes}
use meridian_backend.Gateway.{has_client_id, tick}
use meridian_backend.Gateway.Sessions.{Server, on_socket, handle_connection}
use meridian_backend.Gateway.Sessions.Joins.{handle_join}
use meridian_backend.Gateway.Sessions.Disconnects.{handle_disconnect}
use meridian_backend.Gateway.Sessions.Rooms.{AreSeated, AreSeated-keeps}
use meridian_backend.Gateway.Sessions.Guarded.{
  IsGuarded, tick-IsAlike, on_socket-IsGuarded, handle_connection-IsGuarded,
}
use meridian_backend.Gateway.Sessions.GuardedJoins.{handle_join-IsGuarded}
use meridian_backend.Gateway.Sessions.GuardedLeaves.{disconnect_found-IsGuarded}

module _ {R : Redis} {C : Counters} {H : Hashes} where
  -- What one socket does to the instance: a new one connects, and one joins, ends a window or closes.
  -- Meanwhile the hashes of the presence may expire, and anybody may write to the database what
  -- takes no membership away.
  pub data Step (s : Server R C H) : Server R C H → Type 0 where
    connects :
        (limit now id : ℕ) (rate_key : String) (verified : Option JwtClaims)
        → find_where (has_client_id id) s.gateway.clients ≡ none
        → Step s (handle_connection limit now id rate_key verified s)
    joins :
        (display_name : SafeUser → String) (subscribes : Bool) (document_id : Option ℕ) (id : ℕ)
        → Step s (handle_join display_name subscribes document_id id s)
    ticks : (limit id : ℕ) → Step s (on_socket id (tick limit) s)
    disconnects : (now id : ℕ) → Step s (handle_disconnect now id s)
    writes :
        (db : Database)
        → ((d u : ℕ)
            → is_some (role_of s.gateway.database d u) ≡ true
            → is_some (role_of db d u) ≡ true)
        → Step s (record s { gateway = record s.gateway { database = db } })
    waits : (seconds : ℕ) → Step s (record s { presence = H.pass seconds s.presence })

  pub data Reach (s : Server R C H) : Server R C H → Type 0 where
    here : Reach s s
    next : {t u : Server R C H} → Reach s t → Step t u → Reach s u

  Step-IsGuarded : {s t : Server R C H} → Step s t → IsGuarded s → IsGuarded t
  unfolding handle_disconnect
  Step-IsGuarded {s} (connects limit now id rate_key verified fresh) h =
      handle_connection-IsGuarded limit now id rate_key verified s fresh h
  Step-IsGuarded {s} (joins display_name subscribes document_id id) h =
      handle_join-IsGuarded display_name subscribes document_id id s h
  Step-IsGuarded {s} (ticks limit id) h =
      let db = s.gateway.database in
      on_socket-IsGuarded id (tick limit) s (λ c. (tick-IsAlike db 0 limit c).0)
        (λ d c j. (tick-IsAlike db d limit c).1 ∙ j) h
  Step-IsGuarded {s} (disconnects now id) h = disconnect_found-IsGuarded now _ s h
  Step-IsGuarded {s} (writes db keeps) h =
      AreSeated-keeps s.gateway.database db keeps s.gateway.clients s.gateway.rooms h
  Step-IsGuarded (waits seconds) h = h

  -- In every state that new connections, joins, windows and disconnections bring about from one
  -- without rooms, while no membership is taken away: every socket in the room of a document is
  -- authenticated, it has joined with a role, and its user is a member of this document.
  pub Reach-IsGuarded : {s t : Server R C H} → s.gateway.rooms ≡ [] → Reach s t → IsGuarded t
  Reach-IsGuarded {s} empty here =
      subst (AreSeated s.gateway.database s.gateway.clients) (sym empty) tt
  Reach-IsGuarded empty (next r step) = Step-IsGuarded step (Reach-IsGuarded empty r)
