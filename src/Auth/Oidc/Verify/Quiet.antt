-- ===== src/Auth/Oidc/Verify/Quiet.antt =====
-- That tokens with unknown keys do not make the verifier ask the identity provider again and again.
use otl_voice.Prelude.{
  ℕ, ◌+◌, ◌-◌, ◌≤◌, ◌<◌, ◌≡◌, refl, ltb, lt→ltb, Bool, true, false, Option, none, some, List, [],
  ◌∷◌, String, arith, All, ap, sym, ◌∙◌, Option-cases, inl, inr,
}
use otl_voice.Prelude.Dict.{Dict, lookup}
use otl_voice.Prelude.Result.{ok, err}
use otl_voice.Python.Value.{Value}
use otl_voice.Prelude.Int.{ℤ}
use otl_voice.Sessions.Connection.{second}
use otl_voice.Auth.Oidc.{
  invalid_token, intervals, OidcVerifier, CachedJwks, Intervals, Fetching, get_jwks, fetched_keys,
  served, document_keys,
}
use otl_voice.Auth.Oidc.Verify.{TokenReader, token_choice, asks_of, looked_up, verify_oidc}

get_jwks-forced_early :
    (i : Intervals) (f : Fetching) (c : CachedJwks)
    → f.first < c.fetched_at + i.refresh
    → 0 < i.refresh
    → get_jwks i true f (some c)
      ≡ record { cached = some c; asked = false; answer = err invalid_token }
unfolding get_jwks
get_jwks-forced_early i f c early positive =
    let lately : ltb (f.first - c.fetched_at) i.refresh ≡ true = ground (arith, early) in
    rw lately refl

get_jwks-fresh :
    (i : Intervals) (f : Fetching) (c : CachedJwks)
    → f.first < c.expires_at
    → get_jwks i false f (some c) ≡ record { cached = some c; asked = false; answer = ok c }
unfolding get_jwks served
get_jwks-fresh i f c early = rw (lt→ltb f.first c.expires_at early) refl

served-asks : (i : Intervals) (cached : Option CachedJwks) → (served i cached).asked ≡ false
unfolding served
served-asks i none = refl
served-asks i (some c) = refl

get_jwks-asks :
    (i : Intervals) (force : Bool) (f : Fetching) (cached : Option CachedJwks)
    → (get_jwks i force f cached).asked ≡ true
    → get_jwks i force f cached ≡ fetched_keys i f.locked cached (document_keys f.document)
unfolding get_jwks
get_jwks-asks i force f cached asked = ground (arith, asked, served-asks i cached)

fetched_keys-kept :
    (i : Intervals) (now : ℕ) (cached : Option CachedJwks) (keys : Option (Dict (Dict Value)))
    (jwks : CachedJwks)
    → (fetched_keys i now cached keys).answer ≡ ok jwks
    → ((fetched_keys i now cached keys).cached ≡ some jwks)
      × (jwks.fetched_at ≡ now)
      × (jwks.expires_at ≡ now + i.cache)
unfolding fetched_keys
fetched_keys-kept i now cached none jwks got = cc
fetched_keys-kept i now cached (some keys) jwks got =
    (ground (arith, got), ground (arith, got), ground (arith, got))

-- What a fetch that succeeds leaves in the cache.
get_jwks-fetched :
    (i : Intervals) (force : Bool) (f : Fetching) (cached : Option CachedJwks) (jwks : CachedJwks)
    → (get_jwks i force f cached).asked ≡ true
    → (get_jwks i force f cached).answer ≡ ok jwks
    → ((get_jwks i force f cached).cached ≡ some jwks)
      × (jwks.fetched_at ≡ f.locked)
      × (jwks.expires_at ≡ f.locked + i.cache)
get_jwks-fetched i force f cached jwks asked got =
    let e = get_jwks-asks i force f cached asked in
    let kept =
      fetched_keys-kept i f.locked cached (document_keys f.document) jwks
        (ap (λ g. g.answer) (sym e) ∙ got) in
    rw e kept

-- A call of `verify`: what its two calls of `_get_jwks` meet, and the token.
pub record Attempt : Type 0 where
  pub first : Fetching
  pub again : Fetching
  pub token : String

module _ (reader : TokenReader) (v : OidcVerifier) (i : Intervals) where
  -- How often a sequence of calls asks the provider for its keys.
  unfoldable pub total_asks : List Attempt → Option CachedJwks → ℕ
  total_asks [] cached = 0
  total_asks (a ∷ attempts) cached =
      let verified = verify_oidc reader v i a.first a.again a.token cached in
      verified.asks + total_asks attempts verified.cached

  -- The call is over before the keys may be fetched again.
  abbrev pub IsEarly : CachedJwks → Attempt → Type 0
  IsEarly c a = (a.first.first < c.expires_at) × (a.again.first < c.fetched_at + i.refresh)

  looked_up-quiet :
      (token algorithm key_id : String) (again : Fetching) (c : CachedJwks)
      → again.first < c.fetched_at + i.refresh
      → 0 < i.refresh
      → ((looked_up reader v i token algorithm key_id again 0 (some c) (ok c)).asks ≡ 0)
        × ((looked_up reader v i token algorithm key_id again 0 (some c) (ok c)).cached ≡ some c)
  unfolding looked_up asks_of
  looked_up-quiet token algorithm key_id again c early positive =
      elim (Option-cases (lookup key_id c.keys)) [
        | inr (jwk, found) ↦ rw (looked_up, found) (refl, refl)
        | inl missing ↦
            let e = get_jwks-forced_early i again c early positive in
            rw (looked_up, missing) (rw e (refl, refl))
      ]

  verify_oidc-quiet :
      (a : Attempt) (c : CachedJwks)
      → IsEarly c a
      → 0 < i.refresh
      → ((verify_oidc reader v i a.first a.again a.token (some c)).asks ≡ 0)
        × ((verify_oidc reader v i a.first a.again a.token (some c)).cached ≡ some c)
  unfolding verify_oidc asks_of
  verify_oidc-quiet a c (fresh, early) positive =
      elim (Option-cases (token_choice reader v a.token)) [
        | inl refused ↦ rw (verify_oidc, refused) (refl, refl)
        | inr ((algorithm, key_id), choice) ↦
            let e = get_jwks-fresh i a.first c fresh in
            rw (verify_oidc, choice)
              (rw e (looked_up-quiet a.token algorithm key_id a.again c early positive))
      ]

  total_asks-quiet :
      (attempts : List Attempt) (c : CachedJwks)
      → All (IsEarly c) attempts
      → 0 < i.refresh
      → total_asks attempts (some c) ≡ 0
  unfolding total_asks
  total_asks-quiet [] c early positive = refl
  total_asks-quiet (a ∷ attempts) c (early, later) positive =
      let (none_asked, kept) = verify_oidc-quiet a c early positive in
      let rest = total_asks-quiet attempts c later positive in
      rw kept (omega (arith, none_asked, rest))

intervals_bounds :
    (cache refresh : ℤ)
    → (second ≤ (intervals cache refresh).refresh) × (second ≤ (intervals cache refresh).cache)
unfolding intervals
intervals_bounds cache refresh = ground arith

-- Whatever the settings, once the provider has given its keys at a time, no further calls ask for them
-- for the next second at least, for as long as the keys may not be fetched again, whatever keys their
-- tokens name.
pub fetched_once :
    (reader : TokenReader) (v : OidcVerifier) (cache refresh : ℤ) (force : Bool) (f : Fetching)
    (cached : Option CachedJwks) (jwks : CachedJwks) (attempts : List Attempt)
    → let i = intervals cache refresh in
      (get_jwks i force f cached).asked ≡ true
      → (get_jwks i force f cached).answer ≡ ok jwks
      → All
          (λ a. (a.first.first < f.locked + i.cache) × (a.again.first < f.locked + i.refresh))
          attempts
      → (total_asks reader v i attempts (get_jwks i force f cached).cached ≡ 0)
        × (second ≤ i.refresh)
        × (second ≤ i.cache)
fetched_once reader v cache refresh force f cached jwks attempts asked got early =
    let (kept, at, until) =
      get_jwks-fetched (intervals cache refresh) force f cached jwks asked got in
    let (slow, long) = intervals_bounds cache refresh in
    (
      rw kept (
          total_asks-quiet reader v (intervals cache refresh) attempts jwks (rw (at, until) early)
            (omega (arith, slow))),
      slow,
      long,
    )
