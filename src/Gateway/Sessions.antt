-- ===== src/Gateway/Sessions.antt =====
-- src/collaboration/collaboration.gateway.ts: the life of a socket, its state and handleConnection.
-- The verification of tokens is a parameter, and so are the stores of Redis. What
-- `broadcastPresence` sends is kept as announcements with their local receivers.
pub mod Joins
pub mod Disconnects
pub mod Rooms
mod Guarded
mod GuardedJoins
mod GuardedLeaves
pub mod Reachable
mod Tests
use mathlib.Core.Option
use meridian_backend.Prelude.{
  ℕ, ◌+◌, String, Bool, true, false, not, Option, none, some, List, [], ◌∷◌, ◌++◌, map, length, ◌≡◌,
  find_where, select_where, update_where, any, get_or, ltb, leb, if◌then◌else◌, ◌==◌, ◌&&◌, ◌||◌, ℤ,
}
use meridian_backend.Schema.{Bytes, Membership, Operation, Database}
use meridian_backend.Users.{SafeUser}
use meridian_backend.Memberships.{is_membership}
use meridian_backend.Operations.{operations_since}
use meridian_backend.Snapshots.{latest_snapshot, after_sequence}
use meridian_backend.Auth.{JwtClaims}
use meridian_backend.Auth.Tokens.{user_by_id}
use meridian_backend.Redis.{Redis, lock, is_token_blacklisted, try_acquire_lock}
use meridian_backend.Redis.Throttle.{Counters, throttle_increment}
use meridian_backend.Redis.Presence.{Hashes, presence_join, presence_leave, presence_roster}
use meridian_backend.Gateway.{Client, Instance, has_client_id, room_members, peers_of}
use meridian_backend.Gateway.Presence.{Announcement, is_one, enter, leave}

-- The data of the event `initial_state`.
pub record InitialState : Type 0 where
  pub snapshot : Option Bytes
  pub delta : List Operation
  pub participants : ℕ → Option String

-- An instance with the stores of Redis, and what it has done: the sockets that are counted and the
-- documents that are subscribed, what it sent, and the snapshot jobs it queued.
pub record Server (R : Redis) (C : Counters) (H : Hashes) : Type 0 where
  pub gateway : Instance
  pub keys : R.State
  pub counters : C.State
  pub presence : H.State
  pub counted : List ℕ
  pub subscribed : List ℕ
  pub announced : List (Announcement × List ℕ)
  pub initial_states : List (ℕ × InitialState)
  pub snapshot_jobs : List ℕ

-- A socket as it is opened.
abbrev pub new_client : ℕ → Client
new_client id = record {
  id = id;
  authenticated = false;
  user_id = 0;
  email = "";
  role = none;
  document_id = none;
  message_count = none;
  consecutive_violations = 0;
  timer_runs = false;
  is_open = true;
}

abbrev pub close : Client → Client
close c = record c { is_open = false }

abbrev pub authenticate_client : JwtClaims → Client → Client
authenticate_client claims c = record c {
  authenticated = true;
  user_id = claims.user_id;
  email = claims.email;
}

-- `client.user.role` and `client.user.documentId`, and the window of the messages.
abbrev pub join_client : ℕ → Membership → Client → Client
join_client document_id m c = record c { role = some m.role; document_id = some document_id }

abbrev pub start_window : Client → Client
start_window c = record c { message_count = some 0; consecutive_violations = 0; timer_runs = true }

abbrev pub stop_window : Client → Client
stop_window c = record c { timer_runs = false }

-- A set of ids.
abbrev pub contains : ℕ → List ℕ → Bool
contains id ids = any (λ i. i == id) ids

abbrev pub add : ℕ → List ℕ → List ℕ
add id ids = if contains id ids then ids else ids ++ id ∷ []

abbrev pub remove : ℕ → List ℕ → List ℕ
remove id ids = select_where (λ i. not (i == id)) ids

-- The rooms, as a map from documents; a room that is not there is made.
abbrev pub add_to_room : ℕ → ℕ → List (ℕ × List ℕ) → List (ℕ × List ℕ)
add_to_room d id [] = (d, id ∷ []) ∷ []
add_to_room d id ((key, members) ∷ rooms) =
    let rest = add_to_room d id rooms in
    if key == d then (key, add id members) ∷ rooms else (key, members) ∷ rest

-- The socket leaves the room; a room that gets empty is removed.
abbrev pub keep_room : ℕ → List ℕ → List (ℕ × List ℕ) → List (ℕ × List ℕ)
keep_room key [] rooms = rooms
keep_room key (id ∷ members) rooms = (key, id ∷ members) ∷ rooms

abbrev pub remove_from_room : ℕ → ℕ → List (ℕ × List ℕ) → List (ℕ × List ℕ)
remove_from_room d id [] = []
remove_from_room d id ((key, members) ∷ rooms) =
    let rest = remove_from_room d id rooms in
    if key == d then keep_room key (remove id members) rooms else (key, members) ∷ rest

abbrev pub set_client : ℕ → (Client → Client) → Instance → Instance
set_client id f g = record g { clients = update_where (has_client_id id) f g.clients }

module _ {R : Redis} {C : Counters} {H : Hashes} where
  abbrev pub on_gateway : (Instance → Instance) → Server R C H → Server R C H
  on_gateway f s = record s { gateway = f s.gateway }

  abbrev pub on_socket : ℕ → (Client → Client) → Server R C H → Server R C H
  on_socket id f s = on_gateway (set_client id f) s

  -- `handleConnection` behind the rate limit.
  abbrev pub admit_client : ℕ → ℕ → Option JwtClaims → Server R C H → Server R C H
  admit_client now id none s = on_socket id close s
  admit_client now id (some claims) s =
      if is_token_blacklisted R now claims.jti s.keys
      then on_socket id close s
      else on_socket id (authenticate_client claims) s

  -- `handleConnection` of a new socket; the key of its counter stands for its address, and
  -- `verified` is what `verifyJwt` finds.
  unfoldable pub handle_connection :
      ℕ → ℕ → ℕ → String → Option JwtClaims → Server R C H → Server R C H
  handle_connection limit now id rate_key verified s =
      let opened = on_gateway (λ g. record g { clients = g.clients ++ new_client id ∷ [] }) s in
      let (reply, counters) = throttle_increment C now rate_key 60000 s.counters in
      let limited = record opened { counters = counters } in
      if ltb limit reply.0 then on_socket id close limited else admit_client now id verified limited

  -- What `broadcastPresence` sends, with the other open sockets of the room.
  abbrev pub broadcast : ℕ → ℕ → List Announcement → Server R C H → Server R C H
  broadcast document_id id announcements s = record s {
    announced = s.announced ++ map (λ a. (a, peers_of document_id id s.gateway)) announcements;
  }
