-- ===== src/Sessions/Store.antt =====
-- The methods of `_TokenBlocklist` of backend/core/token_blocklist.py as steps. What Redis does with
-- the commands of a call, and what `jwt.decode` makes of a token, is data of the call.
use otl_voice.Prelude.{
  ℕ, ◌+◌, ◌-◌, ◌*◌, ◌/◌, Bool, true, false, not, ◌||◌, Option, none, some, String, leb, max,
  string_eq, if◌then◌else◌,
}
use otl_voice.Prelude.Map.{put, remove, restrict}
use otl_voice.Prelude.Result.{Result, ok, err}
use otl_voice.Python.Value.{Value, get_or_none}
use otl_voice.Python.Text.{strip}
use otl_voice.Prelude.Dict.{lookup}
use otl_voice.Config.{memory_fallback_allowed, run_config}
use otl_voice.Sessions.Session.{StoredSession, expired, from_json, from_dict, to_dict}
use otl_voice.Sessions.Connection.{
  second, Blocklist, Call, mark_redis_failure, ensure_redis, get_redis, configured_url,
}

pub data SessionStoreUnavailable : Type 0 where
  unavailable : SessionStoreUnavailable

-- What `exists` and `get` give, and `json.loads` of the text.
pub data Fetched : Type 0 where
  fails : Fetched
  says_revoked : Fetched
  says_absent : Fetched
  says : Value → Fetched

-- What `exists` gives for a revocation.
pub data Asked : Type 0 where
  no_answer : Asked
  answers : Bool → Asked

-- The payload of a valid token; `exp` in microseconds.
pub record Claims : Type 0 where
  pub jti : String
  pub exp : ℕ

abbrev pub is_some : {A : Type 0} → Option A → Bool
is_some none = false
is_some (some a) = true

abbrev pub clean_local : ℕ → Blocklist → Blocklist
clean_local now s = record s {
  local_sessions = restrict (λ session. not (expired now session)) s.local_sessions;
  local_revoked = restrict (λ expiry. not (leb expiry now)) s.local_revoked;
}

-- `_deny_locally`, which is also the end of `revoke_session`.
unfoldable pub deny_locally : Call → String → ℕ → Blocklist → Blocklist
deny_locally c session_id ttl s =
    let s' = clean_local c.wall s in
    record s' {
      local_sessions = remove session_id s'.local_sessions;
      local_revoked = put session_id (c.stamp_wall + max 1 ttl * second) s'.local_revoked;
    }

-- `_is_locally_denied`
abbrev pub is_locally_denied : ℕ → String → Blocklist → Blocklist × Bool
is_locally_denied now session_id s =
    let s' = clean_local now s in (s', is_some (s'.local_revoked session_id))

unfoldable pub store_locally :
    Call → String → StoredSession → Blocklist → Blocklist × Result SessionStoreUnavailable Unit
store_locally c session_id session s =
    if memory_fallback_allowed c.env
    then (let s' = clean_local c.wall s in
        (
          record s' {
            local_sessions = put session_id session s'.local_sessions;
            local_revoked = remove session_id s'.local_revoked;
          },
          ok tt,
        ))
    else (s, err unavailable)

-- `sets` is whether `set` returns.
unfoldable pub store_session :
    Call
    → Bool
    → String
    → StoredSession
    → Blocklist
    → Blocklist × Result SessionStoreUnavailable Unit
unfolding store_locally
store_session c sets session_id session s =
    let (s', client) = ensure_redis c s in
    if client
    then (if sets
        then (s', ok tt)
        else store_locally c session_id session (mark_redis_failure c.failed_at s'))
    else store_locally c session_id session s'

unfoldable pub get_locally :
    Call → String → Blocklist → Blocklist × Result SessionStoreUnavailable (Option StoredSession)
get_locally c session_id s =
    if memory_fallback_allowed c.env
    then (let s' = clean_local c.wall s in
        (
          s',
          ok (if is_some (s'.local_revoked session_id) then none else s'.local_sessions session_id),
        ))
    else (s, err unavailable)

unless_expired : ℕ → StoredSession → Option StoredSession
unless_expired now session = if expired now session then none else some session

unfoldable pub fetched :
    Call
    → String
    → Fetched
    → Blocklist
    → Blocklist × Result SessionStoreUnavailable (Option StoredSession)
unfolding get_locally unless_expired
fetched c session_id fails s = get_locally c session_id (mark_redis_failure c.failed_at s)
fetched c session_id says_revoked s = (s, ok none)
fetched c session_id says_absent s = (s, ok none)
fetched c session_id (says value) s = elim (from_json value) [
  | none ↦ get_locally c session_id (mark_redis_failure c.failed_at s)
  | some session ↦ (s, ok (unless_expired c.wall session))
]

unfoldable pub get_session :
    Call
    → Fetched
    → String
    → Blocklist
    → Blocklist × Result SessionStoreUnavailable (Option StoredSession)
unfolding fetched get_locally
get_session c answer session_id s =
    let (checked, denied) = is_locally_denied c.denial_wall session_id s in
    let (s', client) = ensure_redis c checked in
    if denied
    then (checked, ok none)
    else if client
    then fetched c session_id answer s'
    else get_locally c session_id s'

-- `executes` is whether the pipeline does.
unfoldable pub revoke_session :
    Call → Bool → String → ℕ → Blocklist → Blocklist × Result SessionStoreUnavailable Unit
revoke_session c executes session_id ttl s =
    let (s', client) = ensure_redis c s in
    let failed = mark_redis_failure c.failed_at s' in
    let answer = if memory_fallback_allowed c.env then ok tt else err unavailable in
    if client
    then (if executes then (s', ok tt) else (
      deny_locally c session_id ttl
          (if memory_fallback_allowed c.env then deny_locally c session_id ttl failed else failed),
      answer,
    ))
    else (deny_locally c session_id ttl s', answer)

-- `add`; `decoded` is `none` for a `PyJWTError`.
unfoldable pub add :
    Call → Bool → Option Claims → Blocklist → Blocklist × Result SessionStoreUnavailable Unit
add c executes none s = (s, ok tt)
add c executes (some claims) s =
    revoke_session c executes claims.jti (max 1 ((claims.exp - c.denial_wall) / second)) s

unfoldable pub revoked_locally :
    Call → String → Blocklist → Blocklist × Result SessionStoreUnavailable Bool
revoked_locally c session_id s =
    if memory_fallback_allowed c.env
    then (let s' = clean_local c.wall s in
        (
          s',
          ok (
              is_some (s'.local_revoked session_id)
              || not (is_some (s'.local_sessions session_id))),
        ))
    else (s, err unavailable)

unfoldable pub asked :
    Call → String → Asked → Blocklist → Blocklist × Result SessionStoreUnavailable Bool
unfolding revoked_locally
asked c session_id (answers revoked) s = (s, ok revoked)
asked c session_id no_answer s = revoked_locally c session_id (mark_redis_failure c.failed_at s)

unfoldable pub is_revoked :
    Call → Asked → Option Claims → Blocklist → Blocklist × Result SessionStoreUnavailable Bool
unfolding asked revoked_locally
is_revoked c reply none s = (s, ok true)
is_revoked c reply (some claims) s =
    let (checked, denied) = is_locally_denied c.denial_wall claims.jti s in
    let (s', client) = ensure_redis c checked in
    if denied
    then (checked, ok true)
    else if client
    then asked c claims.jti reply s'
    else revoked_locally c claims.jti s'

-- `clear_local` and `close`
abbrev pub clear_local : Blocklist → Blocklist
clear_local s = record s { local_sessions = λ key. none; local_revoked = λ key. none }

abbrev pub close : Blocklist → Blocklist
close s = record s { connected = false; redis_url = none }

-- Everything that a run computes with, for the tests.
unfoldable pub run_store : Unit {0}
unfolding get_session store_session revoke_session is_revoked add deny_locally fetched get_locally
    store_locally asked revoked_locally ensure_redis get_redis configured_url from_json from_dict
    to_dict get_or_none expired strip lookup run_config
run_store = tt
