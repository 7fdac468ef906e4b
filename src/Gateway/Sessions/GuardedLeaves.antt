-- ===== src/Gateway/Sessions/GuardedLeaves.antt =====
-- handleDisconnect keeps the rooms to members that have joined.
use meridian_backend.Prelude.{if_both, ℕ, Option, none, some, refl}
use meridian_backend.Redis.{Redis}
use meridian_backend.Redis.Throttle.{Counters}
use meridian_backend.Redis.Presence.{Hashes}
use meridian_backend.Gateway.{Client}
use meridian_backend.Gateway.Sessions.{Server, close, stop_window, contains, remove}
use meridian_backend.Gateway.Sessions.Disconnects.{
  count_left, count_out, has_room, vacate, unsubscribe, leave_room, request_snapshot, stop,
  leave_document, disconnect_found,
}
use meridian_backend.Gateway.Sessions.Rooms.{AreSeated-remove_from_room}
use meridian_backend.Gateway.Sessions.Guarded.{IsGuarded, on_socket-IsGuarded}

module _ {R : Redis} {C : Counters} {H : Hashes} where
  count_out-IsGuarded :
      (d : ℕ) (c : Client) (s : Server R C H) → IsGuarded s → IsGuarded (count_out d c s)
  count_out-IsGuarded d c s h = if_both IsGuarded (contains c.id s.counted) (count_left d c s) s h h

  leave_room-IsGuarded :
      (d : ℕ) (c : Client) (s : Server R C H) → IsGuarded s → IsGuarded (leave_room d c s)
  leave_room-IsGuarded d c s h =
      if_both IsGuarded (has_room d s) (unsubscribe d (count_out d c (vacate d c s))) s
        (if_both IsGuarded (has_room d (count_out d c (vacate d c s)))
          (count_out d c (vacate d c s))
          (record (count_out d c (vacate d c s)) {
            subscribed = remove d (count_out d c (vacate d c s)).subscribed;
          })
          left left)
        h
    where
      left : IsGuarded (count_out d c (vacate d c s))
      left =
          count_out-IsGuarded d c (vacate d c s) (
            AreSeated-remove_from_room s.gateway.database s.gateway.clients d c.id s.gateway.rooms
              h)

  leave_document-IsGuarded :
      (now : ℕ) (c : Client) (o : Option ℕ) (s : Server R C H)
      → IsGuarded s
      → IsGuarded (leave_document now c o s)
  leave_document-IsGuarded now c none s h = h
  leave_document-IsGuarded now c (some d) s h =
      if_both IsGuarded _ (request_snapshot now d (leave_room d c s)) (leave_room d c s)
        (leave_room-IsGuarded d c s h) (leave_room-IsGuarded d c s h)

  pub disconnect_found-IsGuarded :
      (now : ℕ) (o : Option Client) (s : Server R C H)
      → IsGuarded s
      → IsGuarded (disconnect_found now o s)
  disconnect_found-IsGuarded now none s h = h
  disconnect_found-IsGuarded now (some c) s h =
      if_both IsGuarded c.authenticated (leave_document now c c.document_id (stop c s)) (stop c s)
        (leave_document-IsGuarded now c c.document_id (stop c s) stopped) stopped
    where
      stopped : IsGuarded (stop c s)
      stopped =
          on_socket-IsGuarded c.id (λ c'. stop_window (close c')) s (λ c'. refl) (λ room c' j. j) h
