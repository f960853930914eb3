-- ===== src/Auth/Oidc/Verify.antt =====
-- `OidcTokenVerifier.verify` of backend/core/auth.py.
pub mod Sound
pub mod Quiet
use otl_voice.Prelude.{
  ℕ, ◌+◌, Bool, true, false, not, ◌&&◌, ◌||◌, Option, none, some, List, [], ◌∷◌, String, any, ltb,
  leb, ◌==◌, nat_eq, string_eq, if◌then◌else◌,
}
use otl_voice.Prelude.Dict.{Dict, lookup}
use otl_voice.Prelude.Result.{Result, ok, err, ◌>>=◌}
use otl_voice.Python.Text.{is_empty, text_length}
use otl_voice.Python.Value.{Value, Members, null, bool, int, real, str, arr, obj, get_or_none}
use otl_voice.Auth.Users.{AuthVerification}
use otl_voice.Auth.Oidc.{
  OidcError, invalid_token, provider_away, OidcVerifier, CachedJwks, Intervals, Fetching, Got,
  get_jwks, read_claim, text_or_none,
}

-- What PyJWT gives for a token: its header, with `none` for a `PyJWTError`, and its payload under a
-- key, an algorithm, the algorithms of the verifier, an audience and an issuer, with `none` for the
-- exceptions that the code takes for a refusal.
pub record TokenReader : Type 0 where
  pub header : String → Option (Dict Value)
  pub payload : Dict Value → String → List String → String → String → String → Option Members

same_text : Value → String → Bool
same_text (str s) text = s == text
same_text null text = false
same_text (bool b) text = false
same_text (int n) text = false
same_text (real d) text = false
same_text (arr vs) text = false
same_text (obj fields) text = false

is_null : Value → Bool
is_null null = true
is_null _ = false

-- The key may sign tokens under the algorithm.
unfoldable pub is_usable : String → Dict Value → Bool
unfolding same_text is_null
is_usable algorithm jwk =
    let kty = get_or_none "kty" jwk in
    let alg = get_or_none "alg" jwk in
    let use_ = get_or_none "use" jwk in
    not (same_text kty "oct" || same_text kty "none")
    && (is_null alg || same_text alg algorithm)
    && (is_null use_ || same_text use_ "sig")

-- The algorithm and the key id of a header, if they are texts and the algorithm is among those given.
chosen : List String → Option String → Option String → Option (String × String)
chosen algorithms (some algorithm) (some key_id) =
    if any (λ a. a == algorithm) algorithms then some (algorithm, key_id) else none
chosen algorithms (some algorithm) none = none
chosen algorithms none key_id = none

unfoldable pub header_choice : List String → Dict Value → Option (String × String)
unfolding chosen
header_choice algorithms header =
    chosen algorithms (text_or_none (get_or_none "alg" header))
      (text_or_none (get_or_none "kid" header))

-- The verification of an employee number and a name.
verification_of : Option String → Option String → Option AuthVerification
verification_of none username = none
verification_of (some employee_id) username =
    let fits = not (is_empty employee_id) && leb (text_length employee_id) 128 in
    let name : String = elim username [
      | none ↦ employee_id
      | some name ↦ if not (is_empty name) && leb (text_length name) 256 then name else employee_id
    ] in
    if fits then some (record { employee_id = employee_id; username = name }) else none

-- The entry of the cache behind a call of `verify`, how often it asked the provider for its keys,
-- and its answer.
pub record Verified : Type 0 where
  pub cached : Option CachedJwks
  pub asks : ℕ
  pub answer : Result OidcError (Option AuthVerification)

asks_of : Got → ℕ
asks_of got = if got.asked then 1 else 0

module _ (reader : TokenReader) (v : OidcVerifier) where
  verified_payload : Option Members → Option AuthVerification
  unfolding verification_of
  verified_payload none = none
  verified_payload (some payload) =
      verification_of (read_claim (obj payload) v.person_number_claim)
        (read_claim (obj payload) v.username_claim)

  -- Under the key that was found.
  unfoldable pub with_key : String → String → Option (Dict Value) → Option AuthVerification
  unfolding verified_payload
  with_key token algorithm none = none
  with_key token algorithm (some jwk) =
      if is_usable algorithm jwk
      then verified_payload (reader.payload jwk algorithm v.algorithms v.audience v.issuer token)
      else none

  -- The algorithm and the key id of a token that is not too long.
  unfoldable pub token_choice : String → Option (String × String)
  token_choice token =
      if is_empty token || ltb 32768 (text_length token) then none else elim (reader.header token) [
        | none ↦ none
        | some header ↦ header_choice v.algorithms header
      ]

  module _ (i : Intervals) where
    forced_answer : String → String → String → Got → Result OidcError (Option AuthVerification)
    forced_answer token algorithm key_id got =
        got.answer >>= (λ jwks. ok (with_key token algorithm (lookup key_id jwks.keys)))

    -- Behind the first call of `_get_jwks`.
    unfoldable pub looked_up :
        String
        → String
        → String
        → Fetching
        → ℕ
        → Option CachedJwks
        → Result OidcError CachedJwks
        → Verified
    unfolding asks_of forced_answer
    looked_up token algorithm key_id again asks cached (err e) = record {
      cached = cached;
      asks = asks;
      answer = err e;
    }
    looked_up token algorithm key_id again asks cached (ok jwks) = elim (lookup key_id jwks.keys) [
      | some jwk ↦ record {
        cached = cached;
        asks = asks;
        answer = ok (with_key token algorithm (some jwk));
      }
      | none ↦
          let got = get_jwks i true again cached in
          record {
            cached = got.cached;
            asks = asks + asks_of got;
            answer = forced_answer token algorithm key_id got;
          }
    ]

    -- `OidcTokenVerifier.verify`, over the entry of the cache; `again` is what a forced fetch meets.
    unfoldable pub verify_oidc : Fetching → Fetching → String → Option CachedJwks → Verified
    unfolding asks_of
    verify_oidc first again token cached = elim (token_choice token) [
      | none ↦ record { cached = cached; asks = 0; answer = ok none }
      | some (algorithm, key_id) ↦
          let got = get_jwks i false first cached in
          looked_up token algorithm key_id again (asks_of got) got.cached got.answer
    ]
