-- ===== src/Auth/Oidc/Verify/Sound.antt =====
-- What an OIDC token is accepted for, and how often the provider is asked for its keys.
use otl_voice.Prelude.{
  ℕ, ◌≤◌, ◌≡◌, ◌⊎◌, ◌++◌, refl, ap, true, false, Option, none, some, List, [], ◌∷◌, String, arith,
  All, any, ◌==◌, string_eq, eq_iff, Option-cases, Bool-cases, inl, inr,
}
use otl_voice.Prelude.Dict.{Dict, lookup}
use otl_voice.Prelude.Result.{Result, ok, err, ◌>>=◌}
use otl_voice.Python.Text.{is_empty, text_length}
use otl_voice.Python.Value.{Value, Members, null, bool, int, real, arr, obj, str, get_or_none}
use otl_voice.Config.{Environ}
use otl_voice.Auth.Users.{AuthVerification}
use otl_voice.Auth.Oidc.{
  OidcError, OidcVerifier, CachedJwks, Intervals, Fetching, get_jwks, read_claim, text_or_none,
}
use otl_voice.Auth.Oidc.Endpoint.{is_asymmetric, oidc_algorithms, oidc_algorithms-asymmetric}
use otl_voice.Auth.Oidc.Verify.{
  TokenReader, is_usable, chosen, header_choice, verification_of, verified_payload, with_key,
  token_choice, forced_answer, looked_up, verify_oidc,
}

-- What an answer rests on, under an algorithm and keys by their ids: a key of the id that the token
-- names, which may sign under the algorithm, a payload that PyJWT accepts under the key, and the
-- employee number that it holds.
abbrev pub Accepted :
    TokenReader
    → OidcVerifier
    → String
    → String
    → String
    → Dict (Dict Value)
    → AuthVerification
    → Type 0
Accepted reader v token algorithm key_id keys answer =
    (jwk : Dict Value) × (payload : Members) × (lookup key_id keys ≡ some jwk)
    × (is_usable algorithm jwk ≡ true)
    × (reader.payload jwk algorithm v.algorithms v.audience v.issuer token ≡ some payload)
    × (read_claim (obj payload) v.person_number_claim ≡ some answer.employee_id)
    × (is_empty answer.employee_id ≡ false)
    × (text_length answer.employee_id ≤ 128)

-- The header of the token names the algorithm and the key, and the algorithm stands among those of
-- the verifier.
abbrev pub Named : TokenReader → OidcVerifier → String → String → String → Type 0
Named reader v token algorithm key_id =
    (header : Dict Value) × (before : List String) × (others : List String) × (reader.header token
      ≡ some header)
    × (get_or_none "alg" header ≡ str algorithm)
    × (get_or_none "kid" header ≡ str key_id)
    × (v.algorithms ≡ before ++ algorithm ∷ others)

-- The keys that the provider is known by: those of the first call of `_get_jwks`, or those of a forced
-- one behind it.
abbrev pub Provided : Intervals → Fetching → Fetching → Option CachedJwks → CachedJwks → Type 0
Provided i first again cached jwks =
    ((get_jwks i false first cached).answer ≡ ok jwks)
    ⊎ ((get_jwks i true again (get_jwks i false first cached).cached).answer ≡ ok jwks)

verification_of-number :
    (employee_id username : Option String) (answer : AuthVerification)
    → verification_of employee_id username ≡ some answer
    → (employee_id ≡ some answer.employee_id)
      × (is_empty answer.employee_id ≡ false)
      × (text_length answer.employee_id ≤ 128)
unfolding verification_of
verification_of-number none username answer h = cc
verification_of-number (some employee_id) username answer h = ground (arith, h)

any-split :
    (algorithms : List String) (algorithm : String)
    → any (λ a. a == algorithm) algorithms ≡ true
    → (before : List String) × (others : List String) × (algorithms ≡ before ++ algorithm ∷ others)
any-split [] algorithm known = cc
any-split (a ∷ algorithms) algorithm known = elim (Bool-cases (a == algorithm)) [
  | inl here ↦ ([], algorithms, ap (λ x. x ∷ algorithms) ((eq_iff a algorithm).0 here))
  | inr other ↦
      let (before, others, split) = any-split algorithms algorithm (ground (arith, known, other)) in
      (a ∷ before, others, ap (◌∷◌ a) split)
]

text_or_none-str : (v : Value) (s : String) → text_or_none v ≡ some s → v ≡ str s
unfolding text_or_none
text_or_none-str (str t) s h = elim (Bool-cases (is_empty t)) [
  | inl empty ↦ absurd (cc (rw empty at h))
  | inr full ↦ ap str (ground (arith, rw full at h))
]
text_or_none-str null s h = cc
text_or_none-str (bool b) s h = cc
text_or_none-str (int n) s h = cc
text_or_none-str (real d) s h = cc
text_or_none-str (arr vs) s h = cc
text_or_none-str (obj fields) s h = cc

chosen-known :
    (algorithms : List String) (found found_id : Option String) (algorithm key_id : String)
    → chosen algorithms found found_id ≡ some (algorithm, key_id)
    → (found ≡ some algorithm)
      × (found_id ≡ some key_id)
      × (any (λ a. a == algorithm) algorithms ≡ true)
unfolding chosen
chosen-known algorithms (some a) (some k) algorithm key_id h =
    elim (Bool-cases (any (λ x. x == a) algorithms)) [
      | inl known ↦
          let same : a ≡ algorithm = ground (arith, rw known at h) in
          (ap some same, ground (arith, rw known at h), rw (← same) known)
      | inr other ↦ absurd (cc (rw other at h))
    ]
chosen-known algorithms (some a) none algorithm key_id h = cc
chosen-known algorithms none found_id algorithm key_id h = cc

any-All :
    (algorithms : List String) (algorithm : String)
    → All (λ a. is_asymmetric a ≡ true) algorithms
    → any (λ a. a == algorithm) algorithms ≡ true
    → is_asymmetric algorithm ≡ true
any-All [] algorithm each known = cc
any-All (a ∷ algorithms) algorithm (first, others) known = elim (Bool-cases (a == algorithm)) [
  | inl here ↦ let same = (eq_iff a algorithm).0 here in rw (← same) first
  | inr other ↦ any-All algorithms algorithm others (ground (arith, known, other))
]

module _ (reader : TokenReader) (v : OidcVerifier) where
  with_key-Accepted :
      (token algorithm key_id : String) (keys : Dict (Dict Value)) (found : Option (Dict Value))
      (answer : AuthVerification)
      → lookup key_id keys ≡ found
      → with_key reader v token algorithm found ≡ some answer
      → Accepted reader v token algorithm key_id keys answer
  unfolding with_key verified_payload
  with_key-Accepted token algorithm key_id keys none answer at_id h = cc
  with_key-Accepted token algorithm key_id keys (some jwk) answer at_id h =
      elim (Option-cases (reader.payload jwk algorithm v.algorithms v.audience v.issuer token)) [
        | inl refused ↦ absurd (ground (arith, h, refused))
        | inr (payload, read) ↦
            let (number, full, short) =
              verification_of-number (read_claim (obj payload) v.person_number_claim)
                (read_claim (obj payload) v.username_claim) answer (ground (arith, h, read)) in
            (jwk, payload, at_id, ground (arith, h), read, number, full, short)
      ]

  token_choice-Named :
      (token algorithm key_id : String)
      → token_choice reader v token ≡ some (algorithm, key_id)
      → Named reader v token algorithm key_id × (any (λ a. a == algorithm) v.algorithms ≡ true)
  unfolding token_choice header_choice
  token_choice-Named token algorithm key_id h = elim (Option-cases (reader.header token)) [
    | inl broken ↦ absurd (ground (arith, h, broken))
    | inr (header, read) ↦
        let alg = get_or_none "alg" header in
        let kid = get_or_none "kid" header in
        let (found, found_id, known) =
          chosen-known v.algorithms (text_or_none alg) (text_or_none kid) algorithm key_id
            (ground (arith, h, read)) in
        let (before, others, split) = any-split v.algorithms algorithm known in
        (
          (
            header,
            before,
            others,
            read,
            text_or_none-str alg algorithm found,
            text_or_none-str kid key_id found_id,
            split,
          ),
          known,
        )
  ]

  forced-Accepted :
      (token algorithm key_id : String) (got : Result OidcError CachedJwks)
      (answer : AuthVerification)
      → (got >>= (λ jwks. ok (with_key reader v token algorithm (lookup key_id jwks.keys))))
        ≡ ok (some answer)
      → (jwks : CachedJwks) × (got ≡ ok jwks)
        × Accepted reader v token algorithm key_id jwks.keys answer
  forced-Accepted token algorithm key_id (err e) answer h = cc
  forced-Accepted token algorithm key_id (ok jwks) answer h = (
    jwks,
    refl,
    with_key-Accepted token algorithm key_id jwks.keys (lookup key_id jwks.keys) answer refl
        (ground (arith, h)),
  )

  looked_up-Accepted :
      (i : Intervals) (token algorithm key_id : String) (again : Fetching) (asks : ℕ)
      (cached : Option CachedJwks) (got : Result OidcError CachedJwks) (answer : AuthVerification)
      → (looked_up reader v i token algorithm key_id again asks cached got).answer
        ≡ ok (some answer)
      → (jwks : CachedJwks) × ((got ≡ ok jwks) ⊎ ((get_jwks i true again cached).answer ≡ ok jwks))
        × Accepted reader v token algorithm key_id jwks.keys answer
  unfolding looked_up forced_answer
  looked_up-Accepted i token algorithm key_id again asks cached (err e) answer h = cc
  looked_up-Accepted i token algorithm key_id again asks cached (ok jwks) answer h =
      elim (Option-cases (lookup key_id jwks.keys)) [
        | inr (jwk, found) ↦ (
          jwks,
          inl refl,
          with_key-Accepted token algorithm key_id jwks.keys (some jwk) answer found
              (ground (arith, rw (looked_up, found) at h)),
        )
        | inl missing ↦
            let (forced, got_again, accepted) =
              forced-Accepted token algorithm key_id (get_jwks i true again cached).answer answer
                (rw (looked_up, missing) at h) in
            (forced, inr got_again, accepted)
      ]

  -- A token is accepted only under the algorithm that its header names, which is among those that the
  -- verifier is configured for and an asymmetric one, with the key that its header names, among those
  -- that `_get_jwks` answers, the first time or forced. The key may sign under the algorithm, PyJWT
  -- accepts the payload under it, and the payload holds the employee number, of 1 to 128 characters.
  pub verify_oidc_sound :
      (env : Environ) (i : Intervals) (first again : Fetching) (token : String)
      (cached : Option CachedJwks) (answer : AuthVerification)
      → oidc_algorithms env ≡ ok v.algorithms
      → (verify_oidc reader v i first again token cached).answer ≡ ok (some answer)
      → (algorithm : String) × (key_id : String) × (jwks : CachedJwks) × Named reader v token
          algorithm key_id
        × (is_asymmetric algorithm ≡ true)
        × Provided i first again cached jwks
        × Accepted reader v token algorithm key_id jwks.keys answer
  unfolding verify_oidc
  verify_oidc_sound env i first again token cached answer configured h =
      elim (Option-cases (token_choice reader v token)) [
        | inl refused ↦ absurd (cc (rw (verify_oidc, refused) at h))
        | inr ((algorithm, key_id), choice) ↦
            let (named, known) = token_choice-Named token algorithm key_id choice in
            let got = get_jwks i false first cached in
            let (jwks, provided, accepted) =
              looked_up-Accepted i token algorithm key_id again _ got.cached got.answer answer
                (rw (verify_oidc, choice) at h) in
            (
              algorithm,
              key_id,
              jwks,
              named,
              any-All v.algorithms algorithm
                  (oidc_algorithms-asymmetric env v.algorithms configured) known,
              provided,
              accepted,
            )
      ]
