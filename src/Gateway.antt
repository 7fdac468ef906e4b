-- ===== src/Gateway.antt =====
-- src/collaboration/collaboration.gateway.ts: the sockets of one instance, the rate window of a
-- socket's messages, and `handleUpdate`.
pub mod Windows
pub mod Writes
pub mod Presence
pub mod Sessions
mod Tests
use meridian_backend.Prelude.{
  ℕ, ◌+◌, String, Bool, true, false, not, Option, none, some, List, [], ◌∷◌, ◌++◌, map, Result, ok,
  err, find_where, select_where, update_where, ltb, leb, if◌then◌else◌, ◌==◌, ◌&&◌, ◌||◌,
}
use meridian_backend.Schema.{Bytes, Role, viewer, Operation, Database}
use meridian_backend.Operations.{Generated, Classified, record_update}
use meridian_backend.Yjs.{Update, classify_update}

-- An AuthenticatedSocket. `authenticated` says how `authReady` settled; the counters are absent
-- before a join sets them, and `timer_runs` says whether the window's interval is set.
pub record Client : Type 0 where
  pub id : ℕ
  pub authenticated : Bool
  pub user_id : ℕ
  pub email : String
  pub role : Option Role
  pub document_id : Option ℕ
  pub message_count : Option ℕ
  pub consecutive_violations : ℕ
  pub timer_runs : Bool
  pub is_open : Bool

-- What is sent to a socket.
pub data Frame : Type 0 where
  update_frame : Bytes → Frame
  ack_ok : (operation_sequence : ℕ) → Frame
  ack_error : Frame
  rate_limit_warning : Frame

-- The body of the interval set by `handleJoin`, once a second: the count of the window that ends is
-- judged and reset; the third violation in a row clears the interval and closes the socket.
unfoldable pub judge_window : ℕ → ℕ → Client → Client
judge_window limit count c =
    if ltb limit count
    then (if leb 3 (c.consecutive_violations + 1)
        then record c {
          message_count = some 0;
          consecutive_violations = c.consecutive_violations + 1;
          timer_runs = false;
          is_open = false;
        }
        else record c {
          message_count = some 0;
          consecutive_violations = c.consecutive_violations + 1;
        })
    else record c { message_count = some 0; consecutive_violations = 0 }

unfoldable pub tick : ℕ → Client → Client
unfolding judge_window
tick limit c =
    if c.timer_runs
    then elim c.message_count [
      | none ↦ record c { message_count = some 0; consecutive_violations = 0 }
      | some count ↦ judge_window limit count c
    ]
    else c

-- One message is counted, where there is a count.
abbrev pub count_message : Client → Client
count_message c = elim c.message_count [
  | none ↦ c
  | some count ↦ record c { message_count = some (count + 1) }
]

-- A message goes on while its number in the window is within the limit.
abbrev pub is_within : ℕ → Client → Bool
is_within limit c = elim c.message_count [ none ↦ true | some count ↦ leb count limit ]

-- The first message past the limit is answered by a warning.
abbrev pub warnings : ℕ → Client → List (ℕ × Frame)
warnings limit c = elim c.message_count [
  | none ↦ []
  | some count ↦ if count == limit + 1 then (c.id, rate_limit_warning) ∷ [] else []
]

-- An instance: the database behind it, its sockets, the rooms of its documents as lists of socket
-- ids, the frames sent, and the outbox rows for which a delivery was queued.
pub record Instance : Type 0 where
  pub database : Database
  pub clients : List Client
  pub rooms : List (ℕ × List ℕ)
  pub sent : List (ℕ × Frame)
  pub queued : List ℕ

abbrev pub has_client_id : ℕ → Client → Bool
has_client_id id c = c.id == id

abbrev pub send : ℕ → Frame → Instance → Instance
send id frame g = record g { sent = g.sent ++ (id, frame) ∷ [] }

-- `roomsMap.get(documentId)`, no members where there is no room.
abbrev pub room_members : ℕ → List (ℕ × List ℕ) → List ℕ
room_members d [] = []
room_members d ((key, members) ∷ rooms) = if key == d then members else room_members d rooms

abbrev pub is_open_socket : List Client → ℕ → Bool
is_open_socket clients id = elim (find_where (has_client_id id) clients) [
  | none ↦ false
  | some c ↦ c.is_open
]

-- The peers in the room: every other socket that is open.
abbrev pub peers_of : ℕ → ℕ → Instance → List ℕ
peers_of document_id id g =
    select_where (λ socket. not (socket == id) && is_open_socket g.clients socket)
      (room_members document_id g.rooms)

abbrev pub relay : ℕ → ℕ → Bytes → Instance → Instance
relay document_id id update g = record g {
  sent = g.sent ++ map (λ socket. (socket, update_frame update)) (peers_of document_id id g);
}

-- After the transaction: queue the delivery, unless the queue is down, relay, and acknowledge.
abbrev pub settle_update :
    Bool → ℕ → ℕ → Bytes → Result (ℕ × Operation) × Database → Instance → Instance
settle_update queue_is_up document_id id update (err e, db) g =
    send id ack_error (record g { database = db })
settle_update false document_id id update (ok (outbox_id, op), db) g =
    send id ack_error (record g { database = db })
settle_update true document_id id update (ok (outbox_id, op), db) g =
    send id (ack_ok op.operation_sequence) (
      relay document_id id update (record g { database = db; queued = g.queued ++ outbox_id ∷ [] }))

abbrev pub is_viewer : Option Role → Bool
is_viewer (some viewer) = true
is_viewer _ = false

module _ (limit : ℕ) (decode : Bytes → Result Update) where
  -- `classifyUpdate`; Yjs throws on bytes that are no update.
  abbrev pub classify_bytes : Bytes → Result Classified
  classify_bytes update = elim (decode update) [ ok u ↦ classify_update u | err e ↦ err e ]

  abbrev pub write_classified :
      Generated → Bool → ℕ → Client → Bytes → Instance → Result Classified → Instance
  write_classified t queue_is_up document_id c update g (err e) = send c.id ack_error g
  write_classified t queue_is_up document_id c update g (ok classified) =
      settle_update queue_is_up document_id c.id update
        (record_update t document_id c.user_id update classified g.database) g

  -- The message of a client that may edit and has joined a document.
  abbrev pub accept_update : Generated → Bool → ℕ → Bytes → Instance → Client → Instance
  accept_update t queue_is_up document_id update g c =
      let counted = count_message c in
      let noted = record g {
        clients = update_where (has_client_id c.id) (λ _. counted) g.clients;
        sent = g.sent ++ warnings limit counted;
      } in
      if is_within limit counted
      then write_classified t queue_is_up document_id c update noted (classify_bytes update)
      else noted

  abbrev pub update_of : Generated → Bool → Bytes → Instance → Client → Instance
  update_of t queue_is_up update g c =
      if not c.authenticated || is_viewer c.role then g else elim c.document_id [
        | none ↦ g
        | some document_id ↦ accept_update t queue_is_up document_id update g c
      ]

  abbrev pub on_client : Generated → Bool → Bytes → Instance → Option Client → Instance
  on_client t queue_is_up update g none = g
  on_client t queue_is_up update g (some c) = update_of t queue_is_up update g c

  -- `handleUpdate`: `queue_is_up` says whether BullMQ takes the delivery.
  unfoldable pub handle_update : Generated → Bool → ℕ → Bytes → Instance → Instance
  handle_update t queue_is_up id update g =
      on_client t queue_is_up update g (find_where (has_client_id id) g.clients)
