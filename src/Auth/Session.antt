-- ===== src/Auth/Session.antt =====
-- The session tokens of backend/core/auth.py over the store of backend/core/token_blocklist.py.
-- `jwt.encode` and `jwt.decode` are parameters; clock readings are in microseconds.
pub mod Lifetime
use Prim.Native.String.{◌++◌ as ◌<>◌}
use otl_voice.Prelude.{
  ℕ, ◌+◌, ◌-◌, ◌*◌, ◌/◌, ◌^◌, Bool, true, false, not, ◌&&◌, ◌||◌, Option, none, some, [], ◌∷◌,
  String, max, ltb, ◌==◌, string_eq, if◌then◌else◌,
}
use otl_voice.Prelude.Dict.{Dict}
use otl_voice.Prelude.Int.{ℤ, pos, negsuc}
use otl_voice.Prelude.Result.{Result, ok, err}
use otl_voice.Python.Text.{strip, is_empty, text_length}
use otl_voice.Python.Value.{Value, Decimal, null, bool, int, real, str, arr, obj, get_or_none}
use otl_voice.Sessions.Session.{StoredSession, expired}
use otl_voice.Sessions.Connection.{second, Blocklist, Call}
use otl_voice.Sessions.Store.{
  SessionStoreUnavailable, Fetched, store_session, get_session, revoke_session,
}

-- `Employee` of backend/models.
pub record Employee : Type 0 where
  pub employee_id : String
  pub username : String
  pub full_name : String

pub record SessionContext : Type 0 where
  pub employee_id : String
  pub username : String
  pub full_name : String
  pub session_id : String

-- The claims of a token that `_decode_session_token` accepts.
pub record Payload : Type 0 where
  pub sub : String
  pub username : String
  pub jti : String
  pub exp : Decimal

-- `jwt.encode(payload, secret)`, and `jwt.decode(token, secret)` at a time under the options of the
-- code, with `none` for a `PyJWTError`.
pub record Jwt : Type 0 where
  pub encode : Dict Value → String → String
  pub decode : ℕ → String → String → Option (Dict Value)

-- A text that is not empty, and a number that is not a Boolean.
full_text : Value → Option String
full_text (str s) = if is_empty s then none else some s
full_text null = none
full_text (bool b) = none
full_text (int n) = none
full_text (real d) = none
full_text (arr vs) = none
full_text (obj fs) = none

number_of : Value → Option Decimal
number_of (int (pos n)) = some (record { negative = false; digits = n; scale = 0 })
number_of (int (negsuc n)) = some (record { negative = true; digits = n + 1; scale = 0 })
number_of (real d) = some d
number_of null = none
number_of (bool b) = none
number_of (str s) = none
number_of (arr vs) = none
number_of (obj fs) = none

payload_of : Option String → Option String → Option String → Option Decimal → Option Payload
payload_of (some sub) (some username) (some jti) (some exp) =
    some (record { sub = sub; username = username; jti = jti; exp = exp })
payload_of none username jti exp = none
payload_of (some sub) none jti exp = none
payload_of (some sub) (some username) none exp = none
payload_of (some sub) (some username) (some jti) none = none

-- `max(1, int(exp - time.time()))`
unfoldable pub remaining : ℕ → Decimal → ℕ
remaining now exp =
    if exp.negative
    then 1
    else max 1 ((exp.digits * second - now * 10 ^ exp.scale) / (second * 10 ^ exp.scale))

-- Why `activate_session` does not return.
pub data ActivationError : Type 0 where
  invalid_token : ActivationError
  other_identity : ActivationError
  store_away : ActivationError

answered_store :
    Blocklist × Result SessionStoreUnavailable Unit → Blocklist × Result ActivationError Unit
answered_store (s, ok done) = (s, ok tt)
answered_store (s, err e) = (s, err store_away)

issued :
    String → Blocklist × Result ActivationError Unit → Blocklist × Result ActivationError String
issued token (s, ok done) = (s, ok token)
issued token (s, err e) = (s, err e)

pub context_of : Payload → StoredSession → SessionContext
context_of payload stored = record {
  employee_id = stored.employee_id;
  username = stored.username;
  full_name = stored.full_name;
  session_id = payload.jti;
}

-- What the stored session is worth for the token, at a time.
pub matched :
    ℕ
    → Payload
    → Blocklist × Result SessionStoreUnavailable (Option StoredSession)
    → Blocklist × Result SessionStoreUnavailable (Option SessionContext)
unfolding context_of
matched now payload (s, err e) = (s, err e)
matched now payload (s, ok none) = (s, ok none)
matched now payload (s, ok (some stored)) = (
  s,
  ok (
      if not (stored.employee_id == payload.sub)
        || not (stored.username == payload.username)
        || expired now stored
      then none
      else some (context_of payload stored)),
)

-- `current_session`: the context, or the status of its `HTTPException`.
refused_context :
    Blocklist × Result SessionStoreUnavailable (Option SessionContext)
    → Blocklist × Result ℕ SessionContext
refused_context (s, err e) = (s, err 503)
refused_context (s, ok none) = (s, err 401)
refused_context (s, ok (some context)) = (s, ok context)

module _ (jwt : Jwt) (secret : String) where
  -- `create_session` at a time in seconds; `jti` is the answer of `secrets.token_urlsafe`, and `ttl`
  -- that of `_ttl_seconds`.
  unfoldable pub create_session : ℕ → ℕ → String → Employee → String
  create_session issued_at ttl jti employee =
      jwt.encode
        (("sub", str employee.employee_id)
          ∷ ("username", str employee.username)
          ∷ ("iss", str "otl-voice")
          ∷ ("aud", str "otl-voice-web")
          ∷ ("iat", int (pos issued_at))
          ∷ ("exp", int (pos (issued_at + ttl)))
          ∷ ("jti", str jti)
          ∷ [])
        secret

  -- `_decode_session_token`; `none` is its `AuthenticationError`.
  unfoldable pub decode_session_token : ℕ → String → Option Payload
  unfolding full_text number_of payload_of
  decode_session_token now token = elim (jwt.decode now secret token) [
    | none ↦ none
    | some payload ↦
        payload_of (full_text (get_or_none "sub" payload))
          (full_text (get_or_none "username" payload)) (full_text (get_or_none "jti" payload))
          (number_of (get_or_none "exp" payload))
  ]

  -- `activate_session`; `sets` is whether Redis takes the session.
  unfoldable pub activate_session :
      Call → Bool → ℕ → String → Employee → Blocklist → Blocklist × Result ActivationError Unit
  unfolding answered_store
  activate_session c sets now token employee s = elim (decode_session_token now token) [
    | none ↦ (s, err invalid_token)
    | some payload ↦
        if not (payload.sub == employee.employee_id) || not (payload.username == employee.username)
        then (s, err other_identity)
        else answered_store (
            store_session c sets payload.jti
              (record {
                employee_id = employee.employee_id;
                username = employee.username;
                full_name = employee.full_name;
                expires_at = payload.exp;
              })
              s)
  ]

  -- `issue_session`
  unfoldable pub issue_session :
      Call
      → Bool
      → ℕ
      → ℕ
      → ℕ
      → String
      → Employee
      → Blocklist
      → Blocklist × Result ActivationError String
  unfolding issued
  issue_session c sets issued_at ttl now jti employee s =
      let token = create_session issued_at ttl jti employee in
      issued token (activate_session c sets now token employee s)

  pub resolve_token :
      Call
      → Fetched
      → ℕ
      → ℕ
      → String
      → Blocklist
      → Blocklist × Result SessionStoreUnavailable (Option SessionContext)
  unfolding matched
  resolve_token c fetch now checked_at token s = elim (decode_session_token now token) [
    | none ↦ (s, ok none)
    | some payload ↦ matched checked_at payload (get_session c fetch payload.jti s)
  ]

  -- `resolve`, decoding at `now` and comparing the expiry at `checked_at`.
  unfoldable pub resolve :
      Call
      → Fetched
      → ℕ
      → ℕ
      → Option String
      → Blocklist
      → Blocklist × Result SessionStoreUnavailable (Option SessionContext)
  unfolding resolve_token
  resolve c fetch now checked_at none s = (s, ok none)
  resolve c fetch now checked_at (some token) s =
      if is_empty token || ltb 32768 (text_length token)
      then (s, ok none)
      else resolve_token c fetch now checked_at token s

  -- `destroy`; `executes` is whether Redis takes the revocation.
  unfoldable pub destroy :
      Call
      → Bool
      → ℕ
      → ℕ
      → Option String
      → Blocklist
      → Blocklist × Result SessionStoreUnavailable Unit
  destroy c executes now left_at none s = (s, ok tt)
  destroy c executes now left_at (some sid) s =
      if is_empty sid then (s, ok tt) else elim (decode_session_token now sid) [
        | none ↦ (s, ok tt)
        | some payload ↦ revoke_session c executes payload.jti (remaining left_at payload.exp) s
      ]

  unfoldable pub current_session :
      Call → Fetched → ℕ → ℕ → Option String → Blocklist → Blocklist × Result ℕ SessionContext
  unfolding refused_context
  current_session c fetch now checked_at cookie s =
      refused_context (resolve c fetch now checked_at cookie s)

-- `set_authenticated_ws_identity` behind a `resolve`: the identity of the connection.
unfoldable pub identity_after : Option String → Option SessionContext → Option String
identity_after identity none = identity
identity_after identity (some context) =
    if is_empty (strip context.employee_id)
    then identity
    else some ("employee:" <> strip context.employee_id)
