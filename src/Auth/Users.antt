-- ===== src/Auth/Users.antt =====
-- The users of `AUTH_USERS` and the verifiers that know a password, of backend/core/auth.py. What
-- `json.loads` reads, pair by pair, and `str.casefold` are parameters.
pub mod Sound
use otl_voice.Prelude.{
  ℕ, Bool, true, false, not, ◌&&◌, ◌||◌, Option, none, some, List, [], ◌∷◌, String, length, ltb,
  all, any, ◌==◌, nat_eq, string_eq, if◌then◌else◌,
}
use otl_voice.Prelude.Dict.{Dict, lookup, insert}
use otl_voice.Prelude.Result.{Result, ok, err, ◌>>=◌}
use otl_voice.Python.Bytes.{Bytes, same_bytes}
use otl_voice.Python.Text.{strip, is_empty}
use otl_voice.Python.Value.{
  Value, null, bool, int, real, str, arr, obj, Elements, no_elements, element, Members, no_members,
  member, dict_of, to_text,
}
use otl_voice.Auth.Password.{
  Primitives, PasswordHash, EncodeError, parse_password_hash, verify_scrypt,
}

-- An `AuthenticationConfigurationError`, or the `ValueError` that becomes one.
pub data ConfigurationError : Type 0 where
  misconfigured : ConfigurationError

pub record AuthVerification : Type 0 where
  pub employee_id : String
  pub username : String

pub record AuthUser : Type 0 where
  pub employee_id : String
  pub username : String
  pub password_hash : String

abbrev pub dummy_password_hash : String
dummy_password_hash =
    "scrypt$32768$8$1$AAAAAAAAAAAAAAAAAAAAAA==$AAAAAAAAAAAAAAAAAAAAAAAAAAAAAAAAAAAAAAAAAAA="

has_member : String → Members → Bool
has_member key no_members = false
has_member key (member k v rest) = k == key || has_member key rest

-- No object inside names a key twice: `_reject_duplicate_json_keys` raises on none of them.
unfoldable mutual
  unfolding has_member

  pub unique_json : Value → Bool
  unique_json null = true
  unique_json (bool b) = true
  unique_json (int n) = true
  unique_json (real d) = true
  unique_json (str s) = true
  unique_json (arr vs) = unique_elements vs
  unique_json (obj fields) = unique_members fields

  pub unique_elements : Elements → Bool
  unique_elements no_elements = true
  unique_elements (element v vs) = unique_json v && unique_elements vs

  pub unique_members : Members → Bool
  unique_members no_members = true
  unique_members (member k v rest) = not (has_member k rest) && unique_json v && unique_members rest

-- `raw_user.get("employeeId", identifier)`, if it is a text or an integer.
employee_text : (Value → String) → String → Option Value → Result ConfigurationError String
employee_text repr identifier none = ok identifier
employee_text repr identifier (some (str s)) = ok (strip s)
employee_text repr identifier (some (int n)) = ok (strip (to_text repr (int n)))
employee_text repr identifier (some null) = err misconfigured
employee_text repr identifier (some (bool b)) = err misconfigured
employee_text repr identifier (some (real d)) = err misconfigured
employee_text repr identifier (some (arr vs)) = err misconfigured
employee_text repr identifier (some (obj fields)) = err misconfigured

-- A value that has to be a text; `default` for a missing one.
required_text : Result ConfigurationError String → Option Value → Result ConfigurationError String
required_text default none = default
required_text default (some (str s)) = ok s
required_text default (some null) = err misconfigured
required_text default (some (bool b)) = err misconfigured
required_text default (some (int n)) = err misconfigured
required_text default (some (real d)) = err misconfigured
required_text default (some (arr vs)) = err misconfigured
required_text default (some (obj fields)) = err misconfigured

complete_user : String → String → String → Result ConfigurationError AuthUser
complete_user employee_id username password_hash =
    if is_empty employee_id || is_empty username || is_empty (strip password_hash)
    then err misconfigured
    else ok (record {
      employee_id = employee_id;
      username = username;
      password_hash = strip password_hash;
    })

module _ (repr : Value → String) where
  -- One value of `AUTH_USERS`, under its stripped key.
  unfoldable pub parse_user : String → Value → Result ConfigurationError AuthUser
  unfolding employee_text required_text complete_user
  parse_user identifier (str password_hash) = complete_user identifier identifier password_hash
  parse_user identifier (obj fields) =
      let user = dict_of fields in
      employee_text repr identifier (lookup "employeeId" user) >>= (λ employee_id.
        required_text (ok identifier) (lookup "username" user) >>= (λ username.
          required_text (err misconfigured) (lookup "password" user)
          >>= (λ password_hash. complete_user employee_id (strip username) password_hash)))
  parse_user identifier null = err misconfigured
  parse_user identifier (bool b) = err misconfigured
  parse_user identifier (int n) = err misconfigured
  parse_user identifier (real d) = err misconfigured
  parse_user identifier (arr vs) = err misconfigured

  module _ (casefold : String → String) where
    -- The loop over the items, with the users so far.
    unfoldable pub collect_users :
        Dict AuthUser → Dict Value → Result ConfigurationError (Dict AuthUser)
    collect_users users [] = ok users
    collect_users users ((raw_identifier, raw_user) ∷ items) =
        let identifier = strip raw_identifier in
        let normalized = casefold identifier in
        (if is_empty identifier then err misconfigured else parse_user identifier raw_user)
        >>= (λ user. elim (lookup normalized users) [
          | none ↦ collect_users (insert normalized user users) items
          | some other ↦ err misconfigured
        ])

    users_of : Value → Result ConfigurationError (Dict AuthUser)
    users_of (obj fields) =
        let document = dict_of fields in
        if length document == 0 || ltb 10000 (length document)
        then err misconfigured
        else collect_users [] document
    users_of null = err misconfigured
    users_of (bool b) = err misconfigured
    users_of (int n) = err misconfigured
    users_of (real d) = err misconfigured
    users_of (str s) = err misconfigured
    users_of (arr vs) = err misconfigured

    -- `_parse_auth_users` of what the text holds; `none` is a `JSONDecodeError`.
    unfoldable pub parse_auth_users : Option Value → Result ConfigurationError (Dict AuthUser)
    unfolding users_of
    parse_auth_users none = err misconfigured
    parse_auth_users (some document) =
        if unique_json document then users_of document else err misconfigured

-- What `verify` raises: the `ValueError` of `_parse_password_hash`, or the `UnicodeEncodeError` of the
-- password.
pub data VerifyError : Type 0 where
  unreadable_hash unencodable_password : VerifyError

-- `LocalCredentialVerifier`
pub record LocalVerifier : Type 0 where
  pub users : Dict AuthUser
  pub dummy_hash : PasswordHash

-- `users.values()`
abbrev pub values : Dict AuthUser → List AuthUser
values [] = []
values ((name, user) ∷ users) = user ∷ values users

module _ (prims : Primitives) where
  is_parsed : AuthUser → Bool
  is_parsed user = elim (parse_password_hash prims user.password_hash) [
    | none ↦ false
    | some h ↦ true
  ]

  -- `verify` of the user that was found, or of the dummy, under a hash that is read.
  checked_user :
      Option AuthUser → Result EncodeError Bool → Result VerifyError (Option AuthVerification)
  checked_user user (err e) = err unencodable_password
  checked_user none (ok matches) = ok none
  checked_user (some user) (ok matches) = ok (
      if matches
      then some (record { employee_id = user.employee_id; username = user.username })
      else none)

  with_hash :
      String → Option AuthUser → Option PasswordHash → Result VerifyError (Option AuthVerification)
  unfolding checked_user
  with_hash credential user none = err unreadable_hash
  with_hash credential user (some h) = checked_user user (verify_scrypt prims credential h)

  hash_of : PasswordHash → Option AuthUser → Option PasswordHash
  hash_of dummy none = some dummy
  hash_of dummy (some user) = parse_password_hash prims user.password_hash

  module _ (casefold : String → String) where
    -- `from_mapping`, with `__init__`; an error is its `AuthenticationConfigurationError` or `ValueError`.
    unfoldable pub from_mapping :
        (Value → String) → Option Value → Result ConfigurationError LocalVerifier
    unfolding is_parsed
    from_mapping repr loaded = parse_auth_users repr casefold loaded >>= (λ users.
        if not (all is_parsed (values users))
        then err misconfigured
        else elim (parse_password_hash prims dummy_password_hash) [
          | none ↦ err misconfigured
          | some dummy ↦ ok (record { users = users; dummy_hash = dummy })
        ])

    -- `LocalCredentialVerifier.verify`
    unfoldable pub verify_local :
        LocalVerifier → String → String → Result VerifyError (Option AuthVerification)
    unfolding with_hash hash_of
    verify_local v identifier credential =
        let user = lookup (casefold (strip identifier)) v.users in
        with_hash credential user (hash_of v.dummy_hash user)

-- `constant_time_equals`; `bytes_of` is `encode("utf-8", "surrogatepass")`.
abbrev pub constant_time_equals : (String → Bytes) → String → String → Bool
constant_time_equals bytes_of left right = same_bytes (bytes_of left) (bytes_of right)

module _ (bytes_of : String → Bytes) where
  -- `LegacyDevelopmentVerifier.verify`
  unfoldable pub verify_legacy : String → String → String → Option AuthVerification
  verify_legacy password identifier credential =
      let normalized = strip identifier in
      if is_empty normalized || not (constant_time_equals bytes_of credential password)
      then none
      else some (record { employee_id = normalized; username = normalized })

  -- `DemoCredentialVerifier.verify`
  unfoldable pub verify_demo : (String → String) → String → String → Option AuthVerification
  verify_demo casefold identifier credential =
      if constant_time_equals bytes_of (casefold (strip identifier)) "demo"
        && constant_time_equals bytes_of credential "demo"
      then some (record { employee_id = "DEMO-0001"; username = "demo" })
      else none
