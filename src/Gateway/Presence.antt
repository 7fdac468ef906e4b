-- ===== src/Gateway/Presence.antt =====
-- src/collaboration/collaboration.gateway.ts: what handleJoin and handleDisconnect do to the
-- presence of a user, and what they announce. Histories of connections on all instances.
pub mod Counts
mod Effects
mod Kept
pub mod Tracking
mod Tests
use meridian_backend.Prelude.{
  ℕ, ◌+◌, ◌-◌, String, Bool, true, false, Option, none, some, List, [], ◌∷◌, ◌++◌, get_or, ltb, ◌≡◌,
  ◌<◌, ◌⊎◌, if◌then◌else◌, ◌==◌, ◌&&◌, ℤ, pos, negsuc,
}
use meridian_backend.Redis.Presence.{
  Hashes, is_field, presence_ttl, presence_join, set_presence_identity, presence_leave,
}

pub data Status : Type 0 where
  online offline : Status

-- The message of `broadcastPresence`, in the channel of its document.
pub record Announcement : Type 0 where
  pub document_id : ℕ
  pub user_id : ℕ
  pub name : String
  pub status : Status

-- `connectionCount === 1`
abbrev pub is_one : ℤ → Bool
is_one (pos n) = n == 1
is_one (negsuc n) = false

-- `remaining === 0`
abbrev pub is_zero : ℤ → Bool
is_zero (pos n) = n == 0
is_zero (negsuc n) = false

-- A connection that is counted, with the name found for its user, one that is closed, or time that
-- goes by.
pub data Connection : Type 0 where
  joined : (document_id user_id : ℕ) → (display_name : String) → Connection
  closed : (document_id user_id : ℕ) → (email : String) → Connection
  elapsed : (seconds : ℕ) → Connection

module _ (H : Hashes) where
  -- `handleJoin`, from the count on.
  abbrev pub enter : ℕ → ℕ → String → ℤ × H.State → List Announcement × H.State
  enter document_id user_id display_name (n, s) =
      if is_one n
      then (
        record {
          document_id = document_id;
          user_id = user_id;
          name = display_name;
          status = online;
        }
            ∷ [],
        set_presence_identity H document_id user_id display_name s,
      )
      else ([], s)

  -- `handleDisconnect` of a counted socket, behind the script.
  abbrev pub leave : ℕ → ℕ → String → (ℤ × Option String) × H.State → List Announcement × H.State
  leave document_id user_id email ((remaining, name), s) =
      if is_zero remaining
      then (
        record {
          document_id = document_id;
          user_id = user_id;
          name = get_or name email;
          status = offline;
        }
            ∷ [],
        s,
      )
      else ([], s)

  abbrev pub connect : Connection → H.State → List Announcement × H.State
  connect (joined d u display_name) s = enter d u display_name (presence_join H d u s)
  connect (closed d u email) s = leave d u email (presence_leave H d u s)
  connect (elapsed seconds) s = ([], H.pass seconds s)

  unfoldable pub connect_all : List Connection → H.State → List Announcement × H.State
  connect_all [] s = ([], s)
  connect_all (c ∷ connections) s =
      let first = connect c s in
      let rest = connect_all connections first.1 in (first.0 ++ rest.0, rest.1)

-- The live connections of a user to a document.
abbrev pub live_after : ℕ → ℕ → Connection → ℕ → ℕ
live_after d u (joined document_id user_id name) n =
    if is_field d u document_id user_id then n + 1 else n
live_after d u (closed document_id user_id email) n =
    if is_field d u document_id user_id then n - 1 else n
live_after d u (elapsed seconds) n = n

abbrev pub live_connections : ℕ → ℕ → List Connection → ℕ → ℕ
live_connections d u [] n = n
live_connections d u (c ∷ connections) n = live_connections d u connections (live_after d u c n)

-- How long the hashes of a document are kept: every join of the document renews them.
abbrev pub left_after : ℕ → Connection → ℕ → ℕ
left_after d (joined document_id user_id name) left =
    if document_id == d then presence_ttl else left
left_after d (closed document_id user_id email) left = left
left_after d (elapsed seconds) left = left - seconds

-- No time goes by in which the hashes expire while the user has live connections.
abbrev pub IsInTime : Connection → (live left : ℕ) → Type 0
IsInTime (joined document_id user_id name) live left = Unit
IsInTime (closed document_id user_id email) live left = Unit
IsInTime (elapsed seconds) live left = (live ≡ 0) ⊎ (seconds < left)

abbrev pub IsRenewed : (d u : ℕ) → List Connection → (live left : ℕ) → Type 0
IsRenewed d u [] live left = Unit
IsRenewed d u (c ∷ connections) live left =
    IsInTime c live left × IsRenewed d u connections (live_after d u c live) (left_after d c left)

-- Whether the last announcement about a user says that it is online.
abbrev pub says : Status → Bool
says online = true
says offline = false

abbrev pub announced : ℕ → ℕ → List Announcement → Bool → Bool
announced d u [] before = before
announced d u (a ∷ announcements) before =
    announced d u announcements
      (if is_field d u a.document_id a.user_id then says a.status else before)
