-- ===== src/Gateway/Sessions/Tests.antt =====
-- Tests of the sessions of sockets, and their invariant at a concrete run.
use meridian_backend.Prelude.{String, true, some, [], ◌∷◌, ◌≡◌, refl}
use meridian_backend.Samples.{shared}
use meridian_backend.Users.{SafeUser}
use meridian_backend.Auth.{JwtClaims}
use meridian_backend.Redis.{is_token_blacklisted}
use meridian_backend.Redis.Memory.{memory as keys, no_keys}
use meridian_backend.Redis.Throttle.{throttle_increment}
use meridian_backend.Redis.Throttle.Memory.{memory as counters, no_counters}
use meridian_backend.Redis.Presence.{presence_join}
use meridian_backend.Redis.Presence.Memory.{memory as hashes, no_fields}
use meridian_backend.Gateway.Sessions.{Server, handle_connection}
use meridian_backend.Gateway.Sessions.Joins.{handle_join}
use meridian_backend.Gateway.Sessions.Guarded.{IsGuarded}
use meridian_backend.Gateway.Sessions.Reachable.{connects, joins, here, next, Reach-IsGuarded}

abbrev start : Server keys counters hashes
start = record {
  gateway = record { database = shared; clients = []; rooms = []; sent = []; queued = [] };
  keys = no_keys;
  counters = no_counters;
  presence = no_fields;
  counted = [];
  subscribed = [];
  announced = [];
  initial_states = [];
  snapshot_jobs = [];
}

abbrev claims : JwtClaims
claims = record { user_id = 1; email = "ada@example.com"; jti = 40 }

abbrev display_name : SafeUser → String
display_name user = user.first_name

abbrev connected : Server keys counters hashes
connected = handle_connection 10 100 3 "ip" (some claims) start

abbrev joined : Server keys counters hashes
joined = handle_join display_name true (some 10) 3 connected

in_room : joined.gateway.rooms ≡ (10, 3 ∷ []) ∷ []
unfolding handle_connection handle_join is_token_blacklisted throttle_increment presence_join
in_room = refl

Reach-IsGuarded_example : IsGuarded joined
Reach-IsGuarded_example = Reach-IsGuarded refl (
    next (next here (connects 10 100 3 "ip" (some claims) refl))
      (joins display_name true (some 10) 3))
