-- ===== src/Sessions/Connection.antt =====
-- The connection that `_TokenBlocklist` of backend/core/token_blocklist.py keeps to Redis, with its
-- back-off. Clock readings are in microseconds, the back-off is in seconds; what `from_url` and
-- `ping` do in a call is data of the call.
use otl_voice.Prelude.{
  ℕ, ◌+◌, ◌*◌, ◌≤◌, ◌≡◌, Bool, true, false, Option, none, some, String, arith, ltb, min, max, ◌==◌,
  string_eq, if◌then◌else◌,
}
use otl_voice.Prelude.Map.{Map}
use otl_voice.Python.Text.{strip, is_empty}
use otl_voice.Config.{Environ, getenv}
use otl_voice.Sessions.Session.{StoredSession}

abbrev pub second : ℕ
second = 1000000

pub record Blocklist : Type 0 where
  pub local_sessions : Map StoredSession
  pub local_revoked : Map ℕ
  pub connected : Bool
  pub redis_url : Option String
  pub last_reconnect : ℕ
  pub backoff : ℕ

-- What a call meets: the environment, `time.monotonic()` at its begin and at a failure, the readings
-- of `time.time()` at its begin (in `_is_locally_denied` or `add`), in its own work and where it
-- stamps a revocation, and whether `from_url` and `ping` return.
pub record Call : Type 0 where
  pub env : Environ
  pub monotonic : ℕ
  pub failed_at : ℕ
  pub denial_wall : ℕ
  pub wall : ℕ
  pub stamp_wall : ℕ
  pub creates : Bool
  pub pings : Bool

-- `__new__`
abbrev pub new_blocklist : Blocklist
new_blocklist = record {
  local_sessions = λ key. none;
  local_revoked = λ key. none;
  connected = false;
  redis_url = none;
  last_reconnect = 0;
  backoff = 1;
}

abbrev pub mark_redis_failure : ℕ → Blocklist → Blocklist
mark_redis_failure now s = record s {
  connected = false;
  last_reconnect = now;
  backoff = min 60 (max 1 s.backoff * 2);
}

unfoldable pub configured_url : Environ → Option String
configured_url env =
    let url = strip (getenv env "REDIS_URL") in if is_empty url then none else some url

abbrev same_url : Option String → Option String → Bool
same_url none none = true
same_url none (some b) = false
same_url (some a) none = false
same_url (some a) (some b) = a == b

abbrev pub reconfigured : Option String → Blocklist → Blocklist
reconfigured url s =
    if same_url url s.redis_url
    then s
    else record s { connected = false; redis_url = url; last_reconnect = 0; backoff = 1 }

connect : Call → Blocklist → Blocklist × Bool
connect c s =
    if s.connected
    then (s, true)
    else if ltb c.monotonic (s.last_reconnect + s.backoff * second)
    then (s, false)
    else if c.creates
    then (record s { last_reconnect = c.monotonic; connected = true }, true)
    else (mark_redis_failure c.failed_at s, false)

-- `_get_redis`, and whether it gives a client.
unfoldable pub get_redis : Call → Blocklist → Blocklist × Bool
unfolding connect
get_redis c s =
    let url = configured_url c.env in
    let s' = reconfigured url s in elim url [ none ↦ (s', false) | some address ↦ connect c s' ]

-- `_ensure_redis`, and whether it gives a client.
unfoldable pub ensure_redis : Call → Blocklist → Blocklist × Bool
ensure_redis c s =
    let (s', client) = get_redis c s in
    if client
    then (if c.pings
        then (record s' { backoff = 1 }, true)
        else (mark_redis_failure c.failed_at s', false))
    else (s', false)

-- The connection does not touch what is kept in memory.
get_redis-local :
    (c : Call) (s : Blocklist)
    → ((get_redis c s).0.local_sessions ≡ s.local_sessions)
      × ((get_redis c s).0.local_revoked ≡ s.local_revoked)
unfolding get_redis connect
get_redis-local c s = (ground arith, ground arith)

pub ensure_redis-local :
    (c : Call) (s : Blocklist)
    → ((ensure_redis c s).0.local_sessions ≡ s.local_sessions)
      × ((ensure_redis c s).0.local_revoked ≡ s.local_revoked)
unfolding ensure_redis
ensure_redis-local c s =
    let (sessions, revoked) = get_redis-local c s in
    (ground (arith, sessions), ground (arith, revoked))

get_redis-backoff :
    (c : Call) (s : Blocklist)
    → 1 ≤ s.backoff
    → s.backoff ≤ 60
    → (1 ≤ (get_redis c s).0.backoff) × ((get_redis c s).0.backoff ≤ 60)
unfolding get_redis connect
get_redis-backoff c s low high = ground arith

-- The back-off stays between one second and sixty.
pub ensure_redis-backoff :
    (c : Call) (s : Blocklist)
    → 1 ≤ s.backoff
    → s.backoff ≤ 60
    → (1 ≤ (ensure_redis c s).0.backoff) × ((ensure_redis c s).0.backoff ≤ 60)
unfolding ensure_redis
ensure_redis-backoff c s low high = ground (arith, get_redis-backoff c s low high)
