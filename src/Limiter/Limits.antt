-- ===== src/Limiter/Limits.antt =====
-- `RateLimiter` of backend/core/limiter.py: Redis, when it answers, and the table in memory, where
-- that is allowed. Clock readings are in microseconds and the back-off is in seconds. What Redis
-- does in a call is data of the call.
use otl_voice.Prelude.{
  ℕ, ◌+◌, ◌*◌, ◌≤◌, ◌≡◌, ◌⊎◌, inl, inr, Bool, true, false, ◌||◌, Option, none, some, List, [],
  String, arith, ltb, min, if◌then◌else◌, Option-cases, Bool-cases,
}
use otl_voice.Prelude.Dict.{Dict}
use otl_voice.Prelude.Int.{ℤ, pos, ◌≤ℤ◌, leb_ℤ}
use otl_voice.Prelude.Result.{Result, ok, err}
use otl_voice.Python.Text.{strip, is_empty}
use otl_voice.Config.{Environ, getenv, memory_fallback_allowed, run_config}
use otl_voice.Limiter.Local.{is_allowed_locally, run_local}
use otl_voice.Limiter.Tracker.{rate_limit_key}

abbrev pub second : ℕ
second = 1000000

pub data RateLimiterUnavailable : Type 0 where
  unavailable : RateLimiterUnavailable

pub record Settings : Type 0 where
  pub max_requests : ℕ
  pub window_seconds : ℕ
  pub redis_url : Option String

pub record Limiter : Type 0 where
  pub connected : Bool
  pub use_redis : Bool
  pub local_requests : Dict (List ℕ)
  pub last_reconnect_attempt : ℕ
  pub reconnect_backoff : ℕ

-- What a call meets: the environment, the readings of `time.monotonic()` at its begin and at a
-- failure, that of `time.time()`, whether `ping` and `zrem` return, and the third result of the
-- pipeline, if it has one that is a number.
pub record Call : Type 0 where
  pub env : Environ
  pub monotonic : ℕ
  pub failed_at : ℕ
  pub wall : ℕ
  pub pings : Bool
  pub executes : Option ℤ
  pub removes : Bool

-- `__init__`; `none` is the `ValueError`.
unfoldable pub init : ℕ → ℕ → Option String → Option (Settings × Limiter)
init max_requests window_seconds redis_url =
    if ltb max_requests 1 || ltb window_seconds 1
    then none
    else some (
      record {
        max_requests = max_requests;
        window_seconds = window_seconds;
        redis_url = redis_url;
      },
      record {
        connected = false;
        use_redis = elim redis_url [ none ↦ false | some url ↦ true ];
        local_requests = [];
        last_reconnect_attempt = 0;
        reconnect_backoff = 1;
      },
    )

-- `url.strip() or None`
abbrev url_or_none : String → Option String
url_or_none raw = let url = strip raw in if is_empty url then none else some url

unfoldable pub configured_redis_url : Option String → Environ → Option String
configured_redis_url redis_url env = elim redis_url [
  | none ↦ url_or_none (getenv env "REDIS_URL")
  | some url ↦ url_or_none url
]

abbrev pub mark_redis_failure : ℕ → Limiter → Limiter
mark_redis_failure now l = record l {
  use_redis = false;
  connected = false;
  last_reconnect_attempt = now;
  reconnect_backoff = min 60 (l.reconnect_backoff * 2);
}

-- `close`, which is `_close_redis`
abbrev pub close : Limiter → Limiter
close l = record l { connected = false }

-- `_get_redis`, and whether it gives a client.
unfoldable pub get_redis : Option String → Call → Limiter → Limiter × Bool
get_redis redis_url c l = elim (configured_redis_url redis_url c.env) [
  | none ↦ (record l { use_redis = false }, false)
  | some url ↦
      if l.connected
      then (l, true)
      else if ltb c.monotonic (l.last_reconnect_attempt + l.reconnect_backoff * second)
      then (l, false)
      else if c.pings
      then (
        record l {
          connected = true;
          use_redis = true;
          last_reconnect_attempt = c.monotonic;
          reconnect_backoff = 1;
        },
        true,
      )
      else (mark_redis_failure c.failed_at l, false)
]

leb_ℤ→≤ : (a b : ℤ) → leb_ℤ a b ≡ true → a ≤ℤ b
leb_ℤ→≤ a b h = ground arith

get_redis-backoff :
    (redis_url : Option String) (c : Call) (l : Limiter)
    → 1 ≤ l.reconnect_backoff
    → l.reconnect_backoff ≤ 60
    → let l' = (get_redis redis_url c l).0 in
      (1 ≤ l'.reconnect_backoff) × (l'.reconnect_backoff ≤ 60)
unfolding get_redis
get_redis-backoff redis_url c l low high = ground arith

module _ (digest : String → String) (settings : Settings) where
  locally : String → Call → Limiter → Limiter × Result RateLimiterUnavailable Bool
  locally key c l =
      if memory_fallback_allowed c.env
      then (let (requests, allowed) =
            is_allowed_locally settings.max_requests (settings.window_seconds * second) key c.wall
              l.local_requests in
          (record l { local_requests = requests }, ok allowed))
      else (l, err unavailable)

  failing : String → Call → Limiter → Limiter × Result RateLimiterUnavailable Bool
  unfolding locally
  failing key c l = locally key c (mark_redis_failure c.failed_at l)

  with_redis : String → Call → Option ℤ → Limiter → Limiter × Result RateLimiterUnavailable Bool
  unfolding failing
  with_redis key c none l = failing key c l
  with_redis key c (some count) l =
      if leb_ℤ count (pos settings.max_requests)
      then (l, ok true)
      else if c.removes
      then (l, ok false)
      else failing key c l

  unfoldable pub is_allowed : String → Call → Limiter → Limiter × Result RateLimiterUnavailable Bool
  unfolding with_redis rate_limit_key
  is_allowed key c l =
      let redis_key = rate_limit_key digest "rate-limit" key in
      let (l', client) = get_redis settings.redis_url c l in
      if client then with_redis redis_key c c.executes l' else locally redis_key c l'

  -- A request passes only if Redis counts no more than the limit, or the fallback to memory is
  -- allowed.
  pub is_allowed-fails_closed :
      (key : String) (c : Call) (l : Limiter)
      → (is_allowed key c l).1 ≡ ok true
      → ((count : ℤ) × (c.executes ≡ some count) × (count ≤ℤ pos settings.max_requests))
        ⊎ (memory_fallback_allowed c.env ≡ true)
  unfolding is_allowed with_redis failing locally
  is_allowed-fails_closed key c l h = elim (Option-cases c.executes) [
    | inl broken ↦ inr (ground (arith, h, broken))
    | inr (count, e) ↦ elim (Bool-cases (leb_ℤ count (pos settings.max_requests))) [
      | inl within ↦ inl (count, e, leb_ℤ→≤ count (pos settings.max_requests) within)
      | inr over ↦ inr (ground (arith, h, e, over))
    ]
  ]

  -- The back-off stays between one second and sixty.
  pub is_allowed-backoff :
      (key : String) (c : Call) (l : Limiter)
      → 1 ≤ l.reconnect_backoff
      → l.reconnect_backoff ≤ 60
      → let l' = (is_allowed key c l).0 in (1 ≤ l'.reconnect_backoff) × (l'.reconnect_backoff ≤ 60)
  unfolding is_allowed with_redis failing locally
  is_allowed-backoff key c l low high =
      ground (arith, get_redis-backoff settings.redis_url c l low high)

-- Everything that a run computes with, for the tests.
unfoldable pub run_limits : Unit {0}
unfolding is_allowed get_redis configured_redis_url init rate_limit_key strip run_local run_config
run_limits = tt
