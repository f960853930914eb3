-- ===== src/Auth/Trials.antt =====
-- The theorems about verifiers and credentials at concrete inputs.
use otl_voice.Prelude.{
  ℕ, zero, suc, ◌+◌, ◌*◌, ◌≤◌, ◌≡◌, refl, true, false, Option, none, some, [], ◌∷◌, String, arith,
  length, ◌==◌, nat_eq, string_eq, if◌then◌else◌,
}
use otl_voice.Prelude.Dict.{Dict, lookup, insert}
use otl_voice.Prelude.Int.{pos}
use otl_voice.Prelude.Result.{ok}
use otl_voice.Python.Bytes.{Bytes, bit_and}
use otl_voice.Python.Number.{parse_int}
use otl_voice.Python.Split.{split}
use otl_voice.Python.Text.{strip}
use otl_voice.Python.Value.{
  Value, str, obj, arr, element, no_elements, member, no_members, Members, dict_of, list_of,
  get_or_none, to_text,
}
use otl_voice.Config.{Environ, run_config}
use otl_voice.Sessions.Connection.{second}
use otl_voice.Prelude.{◌⊎◌}
use otl_voice.Auth.Password.{
  encoded_password, Primitives, PasswordHash, parse_password_hash, hash_scrypt_password,
  verify_scrypt, validate_scrypt_parameters, written, b64decode,
}
use otl_voice.Auth.Oidc.{
  OidcVerifier, CachedJwks, Intervals, Fetching, intervals, get_jwks, keys_in, read_claim,
}
use otl_voice.Auth.Oidc.Endpoint.{
  is_asymmetric, oidc_algorithms, once_each, Url, validate_oidc_endpoint,
}
use otl_voice.Auth.Oidc.Verify.{
  TokenReader, is_usable, header_choice, token_choice, with_key, looked_up, verify_oidc,
}
use otl_voice.Auth.Oidc.Verify.Sound.{Named, Provided, Accepted, verify_oidc_sound}
use otl_voice.Auth.Oidc.Verify.Quiet.{Attempt, total_asks, fetched_once}
use otl_voice.Auth.Verifier.{
  Verifier, oidc_of, credential_verifier, Allowed, credential_verifier-Allowed,
}
use otl_voice.Auth.Settings.{
  jwt_secret, configured_secret, is_insecure_placeholder, Response, no_response, strict,
  clear_auth_cookies, session_samesite, cookie_secure,
}
use otl_voice.Auth.Settings.Strict.{jwt_secret-configured}
use otl_voice.Python.Search.{lower_contains}
use otl_voice.Auth.Users.{
  AuthUser, AuthVerification, LocalVerifier, from_mapping, parse_auth_users, collect_users,
  parse_user, verify_local, unique_json,
}
use otl_voice.Auth.Users.Sound.{Backed, Unencodable, verify_local_sound}
use otl_voice.Auth.Password.Written.{Encodes, hash_scrypt_password-verified}

abbrev zeros : ℕ → Bytes
zeros zero = []
zeros (suc n) = 0 ∷ zeros n

abbrev salt_text : String
salt_text = "AAAAAAAAAAAAAAAAAAAAAA=="

abbrev digest_text : String
digest_text = "AAAAAAAAAAAAAAAAAAAAAAAAAAAAAAAAAAAAAAAAAAA="

-- The base64 of the salt and the digest below.
abbrev prims : Primitives
prims = record {
  encode64 = λ bytes. if length bytes == 16 then salt_text else digest_text;
  decode64 = λ text.
      if text == salt_text
      then some (zeros 16)
      else if text == digest_text
      then some (zeros 32)
      else none;
  utf8 = λ text.
      if text == "secret" then some (1 ∷ []) else if text == "lone" then none else some (2 ∷ []);
  scrypt = λ password salt n r p size. some (zeros 32);
}

salt-Encodes : Encodes prims (zeros 16)
salt-Encodes = record { decoded = refl; alphabet = refl; encoded_size = refl }

digest-Encodes : Encodes prims (zeros 32)
digest-Encodes = record { decoded = refl; alphabet = refl; encoded_size = refl }

abbrev credential : String
credential = written prims (record { n = 16384; r = 8; p = 1; salt = zeros 16; digest = zeros 32 })

credential-written : hash_scrypt_password prims "secret" 16384 8 1 (zeros 16) ≡ some credential
unfolding hash_scrypt_password encoded_password validate_scrypt_parameters bit_and
credential-written = refl

hash_scrypt_password-verified_example :
    (h : PasswordHash) × (parse_password_hash prims credential ≡ some h)
    × (verify_scrypt prims "secret" h ≡ ok true)
    × ((other : String)
        → verify_scrypt prims other h ≡ ok true
        → (bytes : Bytes) × (others : Bytes) × (prims.utf8 "secret" ≡ some bytes)
          × (prims.utf8 other ≡ some others)
          × (prims.scrypt others (zeros 16) 16384 8 1 32
              ≡ prims.scrypt bytes (zeros 16) 16384 8 1 32))
hash_scrypt_password-verified_example =
    hash_scrypt_password-verified prims "secret" 16384 8 1 (zeros 16) credential refl salt-Encodes
      (λ bytes digest read h.
        let same : zeros 32 ≡ digest = ground (arith, h) in rw (← same) (refl, digest-Encodes))
      credential-written

-- `AUTH_USERS` of one user, under primitives that accept every credential of `$`-separated parts.
abbrev document : Members
document =
    member " Ann "
      (obj (
        member "employeeId" (str "7") (
          member "password"
            (str
              "scrypt$16384$8$1$AAAAAAAAAAAAAAAAAAAAAA==$AAAAAAAAAAAAAAAAAAAAAAAAAAAAAAAAAAAAAAAAAAA=")
            no_members)))
      no_members

abbrev repr : Value → String
repr v = "?"

abbrev folded : String → String
folded text = if text == "Ann" then "ann" else text

abbrev ann : AuthUser
ann = record {
  employee_id = "7";
  username = "Ann";
  password_hash =
      "scrypt$16384$8$1$AAAAAAAAAAAAAAAAAAAAAA==$AAAAAAAAAAAAAAAAAAAAAAAAAAAAAAAAAAAAAAAAAAA=";
}

abbrev dummy : PasswordHash
dummy = record { n = 32768; r = 8; p = 1; salt = zeros 16; digest = zeros 32 }

abbrev verifier : LocalVerifier
verifier = record { users = ("ann", ann) ∷ []; dummy_hash = dummy }

mapping-read : from_mapping prims folded repr (some (obj document)) ≡ ok verifier
unfolding from_mapping parse_auth_users collect_users parse_user parse_password_hash b64decode split
    parse_int validate_scrypt_parameters bit_and strip lookup insert dict_of to_text unique_json
mapping-read = refl

verify_local_sound_example :
    let result = verify_local prims folded verifier " Ann" "secret" in
    Unencodable prims folded "secret" result
    ⊎ ((answer : Option AuthVerification) × (result ≡ ok answer)
        × Backed prims folded verifier.users " Ann" "secret" answer)
verify_local_sound_example =
    verify_local_sound prims folded repr (some (obj document)) verifier " Ann" "secret" mapping-read

-- A verifier of OIDC with one key, and a token that names it.
abbrev https : Environ
https name =
    if name == "OIDC_ISSUER"
    then some "https://id"
    else if name == "OIDC_AUDIENCE"
    then some "otl"
    else if name == "SESSION_SECRET_KEY"
    then some "secret"
    else none

abbrev id_verifier : OidcVerifier
id_verifier = oidc_of "https://id" "otl" "person_number" "preferred_username" ("RS256" ∷ [])

algorithms-allowed : oidc_algorithms https ≡ ok ("RS256" ∷ [])
unfolding oidc_algorithms once_each split strip
algorithms-allowed = refl

abbrev claims : Members
claims = member "person_number" (str "7") no_members

abbrev reader : TokenReader
reader = record {
  header = λ token. some (("alg", str "RS256") ∷ ("kid", str "one") ∷ []);
  payload = λ jwk algorithm algorithms audience issuer token. some claims;
}

abbrev one_key : Dict Value
one_key = ("keys", arr (element (obj (member "kid" (str "one") no_members)) no_elements)) ∷ []

abbrev fetching : ℕ → Fetching
fetching now = record { first = now; locked = now; url_known = true; document = some one_key }

abbrev number_seven : AuthVerification
number_seven = record { employee_id = "7"; username = "7" }

abbrev defaults : Intervals
defaults = record { cache = 300 * 1000000; refresh = 30 * 1000000 }

token-accepted :
    (verify_oidc reader id_verifier defaults (fetching 0) (fetching 1) "t" none).answer
    ≡ ok (some number_seven)
unfolding verify_oidc token_choice header_choice looked_up get_jwks keys_in with_key is_usable
    read_claim split strip get_or_none lookup dict_of list_of
token-accepted = refl

verify_oidc_sound_example :
    (algorithm : String) × (key_id : String) × (jwks : CachedJwks) × Named reader id_verifier "t"
      algorithm key_id
    × (is_asymmetric algorithm ≡ true)
    × Provided defaults (fetching 0) (fetching 1) none jwks
    × Accepted reader id_verifier "t" algorithm key_id jwks.keys number_seven
verify_oidc_sound_example =
    verify_oidc_sound reader id_verifier https defaults (fetching 0) (fetching 1) "t" none
      number_seven algorithms-allowed token-accepted

abbrev fetched_keys_ : CachedJwks
fetched_keys_ = record {
  keys = ("one", ("kid", str "one") ∷ []) ∷ [];
  expires_at = 300 * 1000000;
  fetched_at = 0;
}

keys-asked :
    (get_jwks (intervals (pos 300_000_000) (pos 30_000_000)) false (fetching 0) none).asked ≡ true
unfolding get_jwks keys_in list_of dict_of get_or_none lookup
keys-asked = refl

keys-fetched :
    (get_jwks (intervals (pos 300_000_000) (pos 30_000_000)) false (fetching 0) none).answer
    ≡ ok fetched_keys_
unfolding intervals get_jwks keys_in list_of dict_of get_or_none lookup
keys-fetched = refl

abbrev attempt : ℕ → Attempt
attempt now = record { first = fetching now; again = fetching (now + 1); token = "t" }

fetched_once_example :
    let i = intervals (pos 300_000_000) (pos 30_000_000) in
    (total_asks reader id_verifier i
        (attempt 5 ∷ attempt 1_000_000 ∷ [])
        (get_jwks i false (fetching 0) none).cached
      ≡ 0)
    × (second ≤ i.refresh)
    × (second ≤ i.cache)
unfolding intervals
fetched_once_example =
    fetched_once reader id_verifier (pos 300_000_000) (pos 30_000_000) false (fetching 0) none
      fetched_keys_ (attempt 5 ∷ attempt 1_000_000 ∷ []) keys-asked keys-fetched
      ((omega arith, omega arith), ((omega arith, omega arith), tt))

abbrev parts_of : String → Url
parts_of url = record {
  scheme = "https";
  netloc = "id";
  username = none;
  password = none;
  query = "";
  fragment = "";
}

abbrev nothing : String → Option Value
nothing text = none

chosen-verifier :
    credential_verifier https parts_of prims folded repr nothing ≡ ok (Verifier.oidc id_verifier)
unfolding credential_verifier validate_oidc_endpoint oidc_algorithms once_each run_config
chosen-verifier = refl

credential_verifier-Allowed_example :
    Allowed https parts_of prims folded repr nothing (Verifier.oidc id_verifier)
credential_verifier-Allowed_example =
    credential_verifier-Allowed https parts_of prims folded repr nothing (Verifier.oidc id_verifier)
      chosen-verifier

abbrev production : Environ
production name = if name == "SESSION_SECRET_KEY" then some "secret" else none

abbrev forty : String → Bytes
forty text = zeros 40

secret-used : (jwt_secret production forty "made" none).1 ≡ ok "secret"
unfolding jwt_secret configured_secret is_insecure_placeholder lower_contains run_config
secret-used = refl

jwt_secret-configured_example :
    (production "SESSION_SECRET_KEY" ≡ some "secret")
    × (is_insecure_placeholder "secret" ≡ false)
    × (32 ≤ length (forty "secret"))
    × ((jwt_secret production forty "made" none).0 ≡ none)
unfolding run_config
jwt_secret-configured_example =
    jwt_secret-configured production forty "made" none "secret" refl refl refl secret-used

abbrev deleted : Response
deleted = record {
  cookies =
      record {
        name = "otl_session";
        value = none;
        httponly = true;
        secure = true;
        samesite = strict;
        max_age = none;
      }
      ∷ record {
        name = "__Host-otl_session";
        value = none;
        httponly = true;
        secure = true;
        samesite = strict;
        max_age = none;
      }
      ∷ record {
        name = "csrf_token";
        value = none;
        httponly = false;
        secure = true;
        samesite = strict;
        max_age = none;
      }
      ∷ [];
  headers = ("Cache-Control", "no-store") ∷ [];
}

cookies-cleared : clear_auth_cookies production "csrf_token" no_response ≡ ok deleted
unfolding clear_auth_cookies session_samesite cookie_secure insert
cookies-cleared = refl
