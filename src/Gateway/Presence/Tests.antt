-- ===== src/Gateway/Presence/Tests.antt =====
-- Tests of the presence of users, and its theorem at a concrete history.
use meridian_backend.Prelude.{
  List, false, some, none, inr, arith, [], ◌∷◌, ◌≡◌, refl, ltb, is_some, pos,
}
use meridian_backend.Redis.Presence.{
  presence_ttl, presence_join, set_presence_identity, presence_leave, presence_roster,
}
use meridian_backend.Redis.Presence.Memory.{memory, memory-IsLawful, no_fields}
use meridian_backend.Gateway.Presence.{
  Connection, joined, closed, elapsed, IsRenewed, connect_all, live_connections, announced,
}
use meridian_backend.Gateway.Presence.Counts.{as_count}
use meridian_backend.Gateway.Presence.Tracking.{connect_all-presence}

-- Two tabs of one user, and one of another user who joins eleven hours later.
abbrev history : List Connection
history =
    joined 7 1 "Ada"
    ∷ joined 7 1 "Ada"
    ∷ elapsed 40_000
    ∷ joined 7 2 "Bob"
    ∷ elapsed 40_000
    ∷ closed 7 1 "a"
    ∷ []

one_tab_left : memory.count 7 1 (connect_all memory history no_fields).1 ≡ some (pos 1)
unfolding connect_all presence_join set_presence_identity presence_leave
one_tab_left = refl

-- A socket that closes between its count and the write of its name leaves the name behind.
stranded_name :
    presence_roster memory 7
      (set_presence_identity memory 7 1 "Ada"
        (presence_leave memory 7 1 (presence_join memory 7 1 no_fields).1).1)
      1
    ≡ some "Ada"
unfolding presence_roster presence_join set_presence_identity presence_leave
stranded_name = refl

history-IsRenewed : IsRenewed 7 1 history 0 presence_ttl
history-IsRenewed = (tt, (tt, (inr (omega arith), (tt, (inr (omega arith), (tt, tt))))))

-- Without a join for thirteen hours, the user is no longer counted.
lapsed :
    memory.count 7 1 (connect_all memory (joined 7 1 "Ada" ∷ elapsed 46_800 ∷ []) no_fields).1
    ≡ none
unfolding connect_all presence_join set_presence_identity
lapsed = refl

connect_all-presence_example :
    (memory.count 7 1 (connect_all memory history no_fields).1
      ≡ as_count (live_connections 7 1 history 0))
    × (is_some (presence_roster memory 7 (connect_all memory history no_fields).1 1)
        ≡ ltb 0 (live_connections 7 1 history 0))
    × (announced 7 1 (connect_all memory history no_fields).0 false
        ≡ ltb 0 (live_connections 7 1 history 0))
connect_all-presence_example =
    connect_all-presence memory-IsLawful 7 1 history no_fields history-IsRenewed tt tt refl refl
