-- ===== src/Gateway/Sessions/Disconnects.antt =====
-- handleDisconnect of src/collaboration/collaboration.gateway.ts.
use meridian_backend.Prelude.{
  ℕ, Bool, Option, none, some, [], ◌∷◌, ◌++◌, length, find_where, any, leb, if◌then◌else◌, ◌==◌,
}
use meridian_backend.Operations.{operations_since}
use meridian_backend.Snapshots.{latest_snapshot, after_sequence}
use meridian_backend.Redis.{Redis, lock, try_acquire_lock}
use meridian_backend.Redis.Throttle.{Counters}
use meridian_backend.Redis.Presence.{Hashes, presence_leave}
use meridian_backend.Gateway.{Client, has_client_id}
use meridian_backend.Gateway.Presence.{leave}
use meridian_backend.Gateway.Sessions.{
  Server, close, stop_window, contains, remove, remove_from_room, on_gateway, on_socket, broadcast,
}

-- The number of operations since the last snapshot that asks for another.
abbrev pub snapshot_threshold : ℕ
snapshot_threshold = 50

module _ {R : Redis} {C : Counters} {H : Hashes} where
  -- `handleDisconnect` of a socket that is counted.
  abbrev pub count_left : ℕ → Client → Server R C H → Server R C H
  count_left document_id c s =
      let (announcements, presence) =
        leave H document_id c.user_id c.email (presence_leave H document_id c.user_id s.presence) in
      broadcast document_id c.id announcements (record s { presence = presence })

  abbrev pub count_out : ℕ → Client → Server R C H → Server R C H
  count_out document_id c s = if contains c.id s.counted then count_left document_id c s else s

  abbrev pub has_room : ℕ → Server R C H → Bool
  has_room document_id s = any (λ room. room.0 == document_id) s.gateway.rooms

  abbrev pub vacate : ℕ → Client → Server R C H → Server R C H
  vacate document_id c s =
      on_gateway (λ g. record g { rooms = remove_from_room document_id c.id g.rooms }) s

  -- A document without a room is not subscribed any longer.
  abbrev pub unsubscribe : ℕ → Server R C H → Server R C H
  unsubscribe document_id s =
      if has_room document_id s
      then s
      else record s { subscribed = remove document_id s.subscribed }

  -- `handleDisconnect` in the room of the document, where there is one.
  abbrev pub leave_room : ℕ → Client → Server R C H → Server R C H
  leave_room document_id c s =
      if has_room document_id s
      then unsubscribe document_id (count_out document_id c (vacate document_id c s))
      else s

  -- The snapshot job, unless another socket has asked for it in the last half minute.
  abbrev pub request_snapshot : ℕ → ℕ → Server R C H → Server R C H
  request_snapshot now document_id s =
      let (acquired, keys) = try_acquire_lock R now (lock document_id) 30 s.keys in
      record s {
        keys = keys;
        snapshot_jobs = if acquired then s.snapshot_jobs ++ document_id ∷ [] else s.snapshot_jobs;
      }

  abbrev pub compact_later : ℕ → ℕ → Server R C H → Server R C H
  compact_later now document_id s =
      let db = s.gateway.database in
      let after = after_sequence (latest_snapshot document_id db) in
      if leb snapshot_threshold (length (operations_since document_id after db))
      then request_snapshot now document_id s
      else s

  abbrev pub leave_document : ℕ → Client → Option ℕ → Server R C H → Server R C H
  leave_document now c none s = s
  leave_document now c (some document_id) s =
      compact_later now document_id (leave_room document_id c s)

  -- The window ends; the socket is closed already.
  abbrev pub stop : Client → Server R C H → Server R C H
  stop c s = on_socket c.id (λ c'. stop_window (close c')) s

  abbrev pub disconnect_found : ℕ → Option Client → Server R C H → Server R C H
  disconnect_found now none s = s
  disconnect_found now (some c) s =
      if c.authenticated then leave_document now c c.document_id (stop c s) else stop c s

  -- `handleDisconnect`, when a socket has closed.
  unfoldable pub handle_disconnect : ℕ → ℕ → Server R C H → Server R C H
  handle_disconnect now id s =
      disconnect_found now (find_where (has_client_id id) s.gateway.clients) s
