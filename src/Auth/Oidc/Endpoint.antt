-- ===== src/Auth/Oidc/Endpoint.antt =====
-- `_validate_oidc_endpoint`, `_oidc_algorithms` and `_jwks_url` of backend/core/auth.py.
-- `urllib.parse.urlsplit` is a parameter.
use Prim.Native.String.{◌++◌ as ◌<>◌}
use otl_voice.Prelude.{
  ℕ, ◌+◌, ◌≡◌, arith, All, Bool-cases, inl, inr, Bool, true, false, not, ◌&&◌, ◌||◌, Option, none,
  some, List, [], ◌∷◌, code, String, any, map, keep_if, ltb, ◌==◌, nat_eq, string_eq, if◌then◌else◌,
}
use otl_voice.Prelude.Dict.{Dict}
use otl_voice.Prelude.Result.{Result, ok, err}
use otl_voice.Python.Split.{split}
use otl_voice.Python.Text.{strip, is_empty}
use otl_voice.Python.Value.{Value, str, get_or_none}
use otl_voice.Config.{Environ, getenv, is_development_or_test}
use otl_voice.Auth.Users.{ConfigurationError, misconfigured}

-- What the code reads of `urlsplit(url)`.
pub record Url : Type 0 where
  pub scheme : String
  pub netloc : String
  pub username : Option String
  pub password : Option String
  pub query : String
  pub fragment : String

is_given : Option String → Bool
is_given none = false
is_given (some s) = true

abbrev asymmetric_algorithms : List String
asymmetric_algorithms =
    "RS256" ∷ "RS384" ∷ "RS512" ∷ "PS256" ∷ "PS384" ∷ "PS512" ∷ "ES256" ∷ "ES384" ∷ "ES512"
    ∷ "EdDSA" ∷ []

abbrev pub is_asymmetric : String → Bool
is_asymmetric algorithm = any (λ known. known == algorithm) asymmetric_algorithms

-- `dict.fromkeys(…)`: every text once, where it stands first.
abbrev without : String → List String → List String
without text texts = keep_if (λ other. not (other == text)) texts

unfoldable pub once_each : List String → List String
once_each [] = []
once_each (text ∷ texts) = text ∷ without text (once_each texts)

or-false : (a b : Bool) → (a || b) ≡ false → (a ≡ false) × (b ≡ false)
or-false a b h = (ground (arith, h), ground (arith, h))

not-false : (a : Bool) → not a ≡ false → a ≡ true
not-false a h = ground (arith, h)

module _ (env : Environ) where
  -- `_validate_oidc_endpoint` of the parts of a URL.
  unfoldable pub validate_oidc_endpoint : Url → Result ConfigurationError Unit
  unfolding is_given
  validate_oidc_endpoint url =
      let https = url.scheme == "https" in
      if not (https || url.scheme == "http")
        || is_empty url.netloc
        || is_given url.username
        || is_given url.password
        || not (is_empty url.query)
        || not (is_empty url.fragment)
      then err misconfigured
      else if not https && not (is_development_or_test env)
      then err misconfigured
      else ok tt

  checked_algorithms : List String → Result ConfigurationError (List String)
  checked_algorithms [] = err misconfigured
  checked_algorithms (algorithm ∷ algorithms) =
      if any (λ a. not (is_asymmetric a)) (algorithm ∷ algorithms)
      then err misconfigured
      else ok (algorithm ∷ algorithms)

  algorithm_setting : Option String → String
  algorithm_setting none = "RS256"
  algorithm_setting (some raw) = raw

  listed_algorithms : List String
  unfolding algorithm_setting
  listed_algorithms = once_each (
      keep_if (λ algorithm. not (is_empty algorithm))
        (map strip (split b',' (algorithm_setting (env "OIDC_ALGORITHMS")))))

  -- `_oidc_algorithms`
  unfoldable pub oidc_algorithms : Result ConfigurationError (List String)
  unfolding checked_algorithms listed_algorithms
  oidc_algorithms = checked_algorithms listed_algorithms

  any-false :
      (algorithms : List String)
      → any (λ a. not (is_asymmetric a)) algorithms ≡ false
      → All (λ a. is_asymmetric a ≡ true) algorithms
  any-false [] h = tt
  any-false (a ∷ algorithms) h =
      let (first, others) = or-false (not (is_asymmetric a)) _ h in
      (not-false (is_asymmetric a) first, any-false algorithms others)

  checked_algorithms-All :
      (listed algorithms : List String)
      → checked_algorithms listed ≡ ok algorithms
      → All (λ a. is_asymmetric a ≡ true) algorithms
  unfolding checked_algorithms
  checked_algorithms-All [] algorithms h = cc
  checked_algorithms-All (a ∷ listed) algorithms h =
      elim (Bool-cases (any (λ x. not (is_asymmetric x)) (a ∷ listed))) [
        | inl weak ↦ absurd (cc (rw weak at h))
        | inr strong ↦
            let same : a ∷ listed ≡ algorithms = ground (arith, rw strong at h) in
            rw (← same) (any-false (a ∷ listed) strong)
      ]

  -- Every algorithm that the configuration allows signs with a private key.
  pub oidc_algorithms-asymmetric :
      (algorithms : List String)
      → oidc_algorithms ≡ ok algorithms
      → All (λ a. is_asymmetric a ≡ true) algorithms
  unfolding oidc_algorithms
  oidc_algorithms-asymmetric algorithms h = checked_algorithms-All listed_algorithms algorithms h

-- The entry of the discovery cache: when it expires and the URL.
pub record Discovered : Type 0 where
  pub expires_at : ℕ
  pub jwks_url : String

-- `s.rstrip("/")`
unfoldable pub rstrip_slash : String → String
rstrip_slash String.[] = ""
rstrip_slash (String.◌∷◌ c s) =
    let rest = rstrip_slash s in if is_empty rest && code c == b'/' then "" else String.◌∷◌ c rest

-- What `_jwks_url` comes to.
pub data Located : Type 0 where
  at_url : String → Located
  bad_url : Located
  provider_away : Located

is_current : ℕ → Option Discovered → Option String
is_current now none = none
is_current now (some found) = if ltb now found.expires_at then some found.jwks_url else none

module _ (env : Environ) (urlsplit : String → Url) where
  accepted_url : String → Located
  accepted_url url = elim (validate_oidc_endpoint env (urlsplit url)) [
    | ok valid ↦ at_url url
    | err e ↦ bad_url
  ]

  -- `jwks_uri` of the metadata, if they are those of the issuer.
  discovered_url : String → Value → Value → Located
  unfolding accepted_url
  discovered_url issuer (str found) (str url) =
      if found == issuer then accepted_url url else provider_away
  discovered_url issuer found url = provider_away

  -- The end of the discovery, which keeps the URL.
  kept_url : ℕ → Located → Option Discovered → Option Discovered × Located
  kept_url expires_at (at_url url) cached =
      (some (record { expires_at = expires_at; jwks_url = url }), at_url url)
  kept_url expires_at bad_url cached = (cached, bad_url)
  kept_url expires_at provider_away cached = (cached, provider_away)

  metadata_url : String → Option (Dict Value) → Located
  unfolding discovered_url
  metadata_url issuer none = provider_away
  metadata_url issuer (some document) =
      discovered_url issuer (get_or_none "issuer" document) (get_or_none "jwks_uri" document)

  -- The discovery behind its lock.
  discover : String → ℕ → ℕ → Option (Dict Value) → Option Discovered → Option Discovered × Located
  unfolding kept_url metadata_url is_current accepted_url
  discover issuer lifetime now document cached = elim (is_current now cached) [
    | some url ↦ (cached, at_url url)
    | none ↦
        let discovery_url = rstrip_slash issuer <> "/.well-known/openid-configuration" in
        elim (accepted_url discovery_url) [
          | at_url url ↦ kept_url (now + lifetime) (metadata_url issuer document) cached
          | bad_url ↦ (cached, bad_url)
          | provider_away ↦ (cached, provider_away)
        ]
  ]

  -- `_jwks_url` with a configured URL, or else over the entry of the issuer, at the times in front of
  -- the lock and behind it; `document` is the object that `_fetch_json` gives.
  unfoldable pub jwks_url :
      String → ℕ → ℕ → ℕ → Option (Dict Value) → Option Discovered → Option Discovered × Located
  unfolding discover is_current accepted_url
  jwks_url issuer lifetime first locked document cached =
      let configured = strip (getenv env "OIDC_JWKS_URL") in
      if not (is_empty configured)
      then (cached, accepted_url configured)
      else elim (is_current first cached) [
        | some url ↦ (cached, at_url url)
        | none ↦ discover issuer lifetime locked document cached
      ]
