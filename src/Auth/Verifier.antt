-- ===== src/Auth/Verifier.antt =====
-- Which verifier backend/core/auth.py chooses by the environment: `_credential_verifier`.
use otl_voice.Prelude.{
  ◌≡◌, ◌⊎◌, inl, inr, false, not, ◌&&◌, ◌||◌, Option, none, some, List, String, arith, Bool-cases,
  if-eq, if◌then◌else◌,
}
use otl_voice.Prelude.Result.{Result, ok, err, ◌>>=◌, >>=-eq-ok}
use otl_voice.Python.Text.{strip, is_empty}
use otl_voice.Python.Value.{Value}
use otl_voice.Config.{
  Environ, getenv, is_demo_mode, is_dev_mode, is_test_mode, is_development_or_test, IsOn,
  env_flag-IsOn,
}
use otl_voice.Auth.Password.{Primitives}
use otl_voice.Auth.Settings.{is_insecure_placeholder}
use otl_voice.Auth.Users.{ConfigurationError, misconfigured, LocalVerifier, from_mapping}
use otl_voice.Auth.Oidc.{OidcVerifier}
use otl_voice.Auth.Oidc.Endpoint.{Url, validate_oidc_endpoint, oidc_algorithms}

pub data Verifier : Type 0 where
  demo : Verifier
  oidc : OidcVerifier → Verifier
  local : LocalVerifier → Verifier
  legacy : String → Verifier

abbrev pub oidc_of : String → String → String → String → List String → OidcVerifier
oidc_of issuer audience number name algorithms = record {
  issuer = issuer;
  audience = audience;
  algorithms = algorithms;
  person_number_claim = number;
  username_claim = name;
}

abbrev or_default : Option String → String → String
or_default none default = default
or_default (some value) default = value

module _ (env : Environ) where
  legacy_verifier : Result ConfigurationError Verifier
  legacy_verifier =
      let password = getenv env "AUTH_PASSWORD" in
      if is_development_or_test env
        && not (is_empty password)
        && not (is_insecure_placeholder password)
      then ok (legacy password)
      else err misconfigured

  module _ (urlsplit : String → Url) where
    configured_oidc : String → String → Result ConfigurationError Verifier
    configured_oidc issuer audience = do
      checked ← validate_oidc_endpoint env (urlsplit issuer)
      let number = strip (or_default (env "OIDC_PERSON_NUMBER_CLAIM") "person_number")
      let name = strip (or_default (env "OIDC_USERNAME_CLAIM") "preferred_username")
      named ← (if is_empty number || is_empty name then err misconfigured else ok tt)
      algorithms ← oidc_algorithms env
      ok (oidc (oidc_of issuer audience number name algorithms))

    oidc_verifier : String → String → Result ConfigurationError Verifier
    unfolding configured_oidc
    oidc_verifier issuer audience =
        if is_empty issuer || is_empty audience
        then err misconfigured
        else configured_oidc issuer audience

    module _ (prims : Primitives) (casefold : String → String) (repr : Value → String)
        (loads : String → Option Value) where
      local_verifier : String → Result ConfigurationError Verifier
      local_verifier raw_users = do
        users ← from_mapping prims casefold repr (loads raw_users)
        ok (local users)

      -- `_credential_verifier`; `loads` is `json.loads`, with the pairs as they are written.
      unfoldable pub credential_verifier : Result ConfigurationError Verifier
      unfolding legacy_verifier oidc_verifier local_verifier
      credential_verifier =
          let issuer = strip (getenv env "OIDC_ISSUER") in
          let audience = strip (getenv env "OIDC_AUDIENCE") in
          let jwks = strip (getenv env "OIDC_JWKS_URL") in
          let raw_users = strip (getenv env "AUTH_USERS") in
          if is_demo_mode env
          then ok demo
          else if not (is_empty issuer) || not (is_empty audience) || not (is_empty jwks)
          then oidc_verifier issuer audience
          else if not (is_empty raw_users)
          then local_verifier raw_users
          else legacy_verifier

      -- What a verifier that the environment chooses is allowed by: one that compares a plain password
      -- by a flag for development or test, the demonstration by its flag, and one of OIDC only with the
      -- algorithms that the configuration allows.
      pub Allowed : Verifier → Type 0
      Allowed demo = IsOn env "DEMO_MODE"
      Allowed (oidc v) = oidc_algorithms env ≡ ok v.algorithms
      Allowed (local v) =
          from_mapping prims casefold repr (loads (strip (getenv env "AUTH_USERS"))) ≡ ok v
      Allowed (legacy password) =
          (IsOn env "DEV_MODE" ⊎ IsOn env "TEST_MODE")
          × (is_empty password ≡ false)
          × (is_insecure_placeholder password ≡ false)

      configured_oidc-Allowed :
          (issuer audience : String) (v : Verifier)
          → configured_oidc issuer audience ≡ ok v
          → Allowed v
      unfolding configured_oidc Allowed
      configured_oidc-Allowed issuer audience v h =
          let number = strip (or_default (env "OIDC_PERSON_NUMBER_CLAIM") "person_number") in
          let name = strip (or_default (env "OIDC_USERNAME_CLAIM") "preferred_username") in
          let claims_named : Result ConfigurationError Unit =
            if is_empty number || is_empty name then err misconfigured else ok tt in
          let (valid, e, h1) = >>=-eq-ok (validate_oidc_endpoint env (urlsplit issuer)) _ h in
          let (named, e', h2) = >>=-eq-ok claims_named _ h1 in
          let (algorithms, allowed, h3) = >>=-eq-ok (oidc_algorithms env) _ h2 in
          let same : oidc (oidc_of issuer audience number name algorithms) ≡ v =
            ground (arith, h3) in
          rw (← same) allowed

      oidc_verifier-Allowed :
          (issuer audience : String) (v : Verifier)
          → oidc_verifier issuer audience ≡ ok v
          → Allowed v
      unfolding oidc_verifier
      oidc_verifier-Allowed issuer audience v h =
          elim (Bool-cases (is_empty issuer || is_empty audience)) [
            | inl bare ↦ absurd (cc (rw bare at h))
            | inr both ↦ configured_oidc-Allowed issuer audience v (rw both at h)
          ]

      local_verifier-Allowed :
          (v : Verifier) → local_verifier (strip (getenv env "AUTH_USERS")) ≡ ok v → Allowed v
      unfolding local_verifier Allowed
      local_verifier-Allowed v h =
          let (users, read, last) =
            >>=-eq-ok (from_mapping prims casefold repr (loads (strip (getenv env "AUTH_USERS")))) _
              h in
          let same : local users ≡ v = ground (arith, last) in rw (← same) read

      legacy_verifier-Allowed : (v : Verifier) → legacy_verifier ≡ ok v → Allowed v
      unfolding legacy_verifier Allowed is_development_or_test is_dev_mode is_test_mode
      legacy_verifier-Allowed v h =
          let password = getenv env "AUTH_PASSWORD" in
          let same : legacy password ≡ v = ground (arith, h) in
          rw (← same)
            (ground (arith, h, env_flag-IsOn env "DEV_MODE", env_flag-IsOn env "TEST_MODE"))

      -- The verifier that the environment chooses is one that its flags allow: a plain password only
      -- with a flag for development or test, the demonstration only with its own flag.
      pub credential_verifier-Allowed : (v : Verifier) → credential_verifier ≡ ok v → Allowed v
      unfolding credential_verifier is_demo_mode Allowed
      credential_verifier-Allowed v h = elim (if-eq (is_demo_mode env) _ _ _ h) [
        | inl (flagged, e) ↦
            let same : demo ≡ v = ground (arith, e) in
            rw (← same) (env_flag-IsOn env "DEMO_MODE" flagged)
        | inr (live, e) ↦
            elim (if-eq
              (not (is_empty (strip (getenv env "OIDC_ISSUER")))
                || not (is_empty (strip (getenv env "OIDC_AUDIENCE")))
                || not (is_empty (strip (getenv env "OIDC_JWKS_URL"))))
              _ _ _ e) [
                | inl (given, e') ↦ oidc_verifier-Allowed _ _ v e'
                | inr (plain, e') ↦
                    elim (if-eq (not (is_empty (strip (getenv env "AUTH_USERS")))) _ _ _ e') [
                      | inl (listed, e'') ↦ local_verifier-Allowed v e''
                      | inr (alone, e'') ↦ legacy_verifier-Allowed v e''
                    ]
              ]
      ]
