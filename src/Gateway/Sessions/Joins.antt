-- ===== src/Gateway/Sessions/Joins.antt =====
-- handleJoin of src/collaboration/collaboration.gateway.ts.
use mathlib.Core.Option
use meridian_backend.Prelude.{
  ℕ, String, Bool, Option, none, some, [], ◌∷◌, ◌++◌, find_where, if◌then◌else◌, ◌||◌, ℤ,
}
use meridian_backend.Schema.{Membership, Database}
use meridian_backend.Users.{SafeUser}
use meridian_backend.Memberships.{is_membership}
use meridian_backend.Operations.{operations_since}
use meridian_backend.Snapshots.{latest_snapshot, after_sequence}
use meridian_backend.Auth.Tokens.{user_by_id}
use meridian_backend.Redis.{Redis}
use meridian_backend.Redis.Throttle.{Counters}
use meridian_backend.Redis.Presence.{Hashes, presence_join, presence_roster}
use meridian_backend.Gateway.{Client, has_client_id}
use meridian_backend.Gateway.Presence.{is_one, enter}
use meridian_backend.Gateway.Sessions.{
  InitialState, Server, close, join_client, start_window, contains, add, add_to_room, on_gateway,
  on_socket, broadcast,
}

module _ (H : Hashes) where
  -- The end of `handleJoin`: the roster, the latest snapshot and the operations since.
  abbrev pub initial_state : ℕ → Database → H.State → InitialState
  initial_state document_id db presence =
      let snapshot = latest_snapshot document_id db in
      record {
        snapshot = Option.map (λ s. s.content_blob) snapshot;
        delta = operations_since document_id (after_sequence snapshot) db;
        participants = presence_roster H document_id presence;
      }

module _ {R : Redis} {C : Counters} {H : Hashes} where
  abbrev pub send_state : ℕ → ℕ → Server R C H → Server R C H
  send_state document_id id s = record s {
    initial_states =
        s.initial_states ++ (id, initial_state H document_id s.gateway.database s.presence) ∷ [];
  }

  -- `handleJoin` behind the subscription: the window, the count, and the announcement of a first
  -- connection, for which the account is needed.
  abbrev pub enter_server : ℕ → Client → ℤ × H.State → String → Server R C H → Server R C H
  enter_server document_id c counted name s =
      let (announcements, presence) = enter H document_id c.user_id name counted in
      send_state document_id c.id
        (broadcast document_id c.id announcements (record s { presence = presence }))

  -- The rest of `handleJoin` once the connection is counted: the account is looked up where the
  -- connection is the first one, and a missing account makes it throw.
  abbrev pub enter_found :
      (SafeUser → String) → ℕ → Client → ℤ × H.State → Option SafeUser → Server R C H → Server R C H
  enter_found display_name document_id c r none s =
      if is_one r.0 then s else send_state document_id c.id s
  enter_found display_name document_id c r (some user) s =
      enter_server document_id c r (display_name user) s

  abbrev pub count_in : (SafeUser → String) → ℕ → Client → Server R C H → Server R C H
  count_in display_name document_id c s =
      let r = presence_join H document_id c.user_id s.presence in
      enter_found display_name document_id c r (user_by_id c.user_id s.gateway.database)
        (record s { presence = r.1; counted = add c.id s.counted })

  -- The member's role and document are set on the socket, which joins the room.
  abbrev pub seat : ℕ → Client → Membership → Server R C H → Server R C H
  seat document_id c m s =
      on_gateway (λ g. record g { rooms = add_to_room document_id c.id g.rooms })
        (on_socket c.id (join_client document_id m) s)

  -- The document is subscribed, and the window of the socket's messages begins.
  abbrev pub open_window : ℕ → Client → Server R C H → Server R C H
  open_window document_id c s =
      on_socket c.id start_window (record s { subscribed = add document_id s.subscribed })

  -- `handleJoin` of a member; `subscribes` says whether Redis takes the subscriptions.
  abbrev pub admit_member :
      (SafeUser → String) → Bool → ℕ → Client → Membership → Server R C H → Server R C H
  admit_member display_name subscribes document_id c m s =
      if contains document_id s.subscribed || subscribes
      then count_in display_name document_id c (open_window document_id c (seat document_id c m s))
      else on_socket c.id close (seat document_id c m s)

  abbrev pub join_document :
      (SafeUser → String) → Bool → ℕ → Client → Option Membership → Server R C H → Server R C H
  join_document display_name subscribes document_id c none s = on_socket c.id close s
  join_document display_name subscribes document_id c (some m) s =
      admit_member display_name subscribes document_id c m s

  -- `handleJoin` of a socket whose `authReady` has settled.
  abbrev pub join_client_to :
      (SafeUser → String) → Bool → Option ℕ → Client → Server R C H → Server R C H
  join_client_to display_name subscribes none c s = on_socket c.id close s
  join_client_to display_name subscribes (some document_id) c s =
      join_document display_name subscribes document_id c
        (find_where (is_membership document_id c.user_id) s.gateway.database.memberships) s

  abbrev pub join_found :
      (SafeUser → String) → Bool → Option ℕ → Option Client → Server R C H → Server R C H
  join_found display_name subscribes document_id none s = s
  join_found display_name subscribes document_id (some c) s =
      if c.authenticated then join_client_to display_name subscribes document_id c s else s

  unfoldable pub handle_join :
      (SafeUser → String) → Bool → Option ℕ → ℕ → Server R C H → Server R C H
  handle_join display_name subscribes document_id id s =
      join_found display_name subscribes document_id
        (find_where (has_client_id id) s.gateway.clients) s
