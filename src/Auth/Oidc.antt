-- ===== src/Auth/Oidc.antt =====
-- The verifier of OIDC tokens of backend/core/auth.py, with its caches. The answers of the identity
-- provider and what PyJWT makes of a token are data of the call; clock readings are in microseconds.
pub mod Endpoint
pub mod Verify
use otl_voice.Prelude.{
  ℕ, ◌+◌, ◌-◌, ◌*◌, Bool, true, false, not, ◌&&◌, ◌||◌, Option, none, some, List, [], ◌∷◌, String,
  any, min, max, ltb, leb, ◌==◌, nat_eq, string_eq, if◌then◌else◌,
}
use otl_voice.Prelude.Dict.{Dict, lookup}
use otl_voice.Prelude.Int.{ℤ, pos, negsuc}
use otl_voice.Prelude.Result.{Result, ok, err, ◌>>=◌}
use otl_voice.Python.Number.{int_text}
use otl_voice.Python.Split.{split}
use otl_voice.Python.Text.{strip, is_empty, text_length}
use otl_voice.Python.Value.{
  Value, null, bool, int, real, str, arr, obj, Elements, dict_of, list_of, get_or_none,
}
use otl_voice.Sessions.Connection.{second}
use otl_voice.Auth.Users.{AuthVerification}

-- An `AuthenticationError`, or the `IdentityProviderUnavailable` that every other exception becomes.
pub data OidcError : Type 0 where
  invalid_token provider_away : OidcError

pub record OidcVerifier : Type 0 where
  pub issuer : String
  pub audience : String
  pub algorithms : List String
  pub person_number_claim : String
  pub username_claim : String

-- `_CachedJwks`; the keys are in the order of the document.
pub record CachedJwks : Type 0 where
  pub keys : Dict (Dict Value)
  pub expires_at : ℕ
  pub fetched_at : ℕ

-- What the environment sets: the lifetime of the keys and the least time between two forced fetches.
pub record Intervals : Type 0 where
  pub cache : ℕ
  pub refresh : ℕ

-- `max(low, min(high, x))`
abbrev clamp : ℕ → ℕ → ℤ → ℕ
clamp low high (pos n) = max low (min high n)
clamp low high (negsuc n) = low

-- `_oidjwks_cache_seconds` and `_oidc_refresh_minimum_seconds` of what `_float_env` reads.
unfoldable pub intervals : ℤ → ℤ → Intervals
intervals cache refresh = record {
  cache = clamp (30 * second) (3600 * second) cache;
  refresh = clamp second (300 * second) refresh;
}

pub dict_or_none : Value → Option (Dict Value)
dict_or_none (obj fields) = some (dict_of fields)
dict_or_none null = none
dict_or_none (bool b) = none
dict_or_none (int n) = none
dict_or_none (real d) = none
dict_or_none (str s) = none
dict_or_none (arr vs) = none

pub text_or_none : Value → Option String
text_or_none (str s) = if is_empty s then none else some s
text_or_none null = none
text_or_none (bool b) = none
text_or_none (int n) = none
text_or_none (real d) = none
text_or_none (arr vs) = none
text_or_none (obj fields) = none

abbrev absent : {A : Type 0} → Option A → Bool
absent none = true
absent (some a) = false

-- The loop over the keys of a document: the first key of each id counts.
add_key : Dict (Dict Value) → Option String → Option (Dict Value) → Dict (Dict Value)
add_key rest none jwk = rest
add_key rest (some id) none = rest
add_key rest (some id) (some jwk) = (id, jwk) ∷ rest

key_id_of : Option (Dict Value) → Option String
key_id_of none = none
key_id_of (some jwk) = text_or_none (get_or_none "kid" jwk)

unfoldable pub keys_in : List Value → Dict (Dict Value)
unfolding add_key key_id_of dict_or_none text_or_none
keys_in [] = []
keys_in (raw ∷ raws) =
    let rest = keys_in raws in add_key rest (key_id_of (dict_or_none raw)) (dict_or_none raw)

-- The signing keys of a document; `none` is an `IdentityProviderUnavailable`.
some_keys : Dict (Dict Value) → Option (Dict (Dict Value))
some_keys [] = none
some_keys (key ∷ keys) = some (key ∷ keys)

listed_keys : Value → Option (Dict (Dict Value))
unfolding some_keys
listed_keys (arr raws) = some_keys (keys_in (list_of raws))
listed_keys null = none
listed_keys (bool b) = none
listed_keys (int n) = none
listed_keys (real d) = none
listed_keys (str s) = none
listed_keys (obj fields) = none

document_keys : Option (Dict Value) → Option (Dict (Dict Value))
unfolding listed_keys
document_keys none = none
document_keys (some document) = listed_keys (get_or_none "keys" document)

-- What one call of `_get_jwks` meets: the clock in front of the lock and behind it, whether
-- `_jwks_url` returns, and the object that `_fetch_json` gives.
pub record Fetching : Type 0 where
  pub first : ℕ
  pub locked : ℕ
  pub url_known : Bool
  pub document : Option (Dict Value)

-- Whether the entry of the cache serves a call that does not force a fetch.
abbrev pub is_fresh : ℕ → Bool → Option CachedJwks → Bool
is_fresh now force none = false
is_fresh now force (some cached) = not force && ltb now cached.expires_at

abbrev refreshed_lately : Intervals → ℕ → Bool → Option CachedJwks → Bool
refreshed_lately i now force none = false
refreshed_lately i now force (some cached) = force && ltb (now - cached.fetched_at) i.refresh

-- What a call of `_get_jwks` does: the entry that the cache has behind it, whether it asked the
-- provider, and its answer.
pub record Got : Type 0 where
  pub cached : Option CachedJwks
  pub asked : Bool
  pub answer : Result OidcError CachedJwks

module _ (i : Intervals) where
  fetched_keys : ℕ → Option CachedJwks → Option (Dict (Dict Value)) → Got
  fetched_keys now cached none = record {
    cached = cached;
    asked = true;
    answer = err provider_away;
  }
  fetched_keys now cached (some keys) =
      let refreshed : CachedJwks = record {
        keys = keys;
        expires_at = now + i.cache;
        fetched_at = now;
      } in
      record { cached = some refreshed; asked = true; answer = ok refreshed }

  served : Option CachedJwks → Got
  served none = record { cached = none; asked = false; answer = err provider_away }
  served (some cached) = record { cached = some cached; asked = false; answer = ok cached }

  -- `_get_jwks` over the entry of its issuer and URL.
  unfoldable pub get_jwks : Bool → Fetching → Option CachedJwks → Got
  unfolding fetched_keys served document_keys
  get_jwks force f cached =
      if is_fresh f.first force cached
      then served cached
      else if refreshed_lately i f.first force cached
      then record { cached = cached; asked = false; answer = err invalid_token }
      else if is_fresh f.locked force cached
      then served cached
      else if f.url_known
      then fetched_keys f.locked cached (document_keys f.document)
      else record { cached = cached; asked = false; answer = err provider_away }

-- `_read_claim`
claim_text : Value → Option String
claim_text (str s) = if is_empty (strip s) then none else some (strip s)
claim_text (int n) = some (int_text n)
claim_text null = none
claim_text (bool b) = none
claim_text (real d) = none
claim_text (arr vs) = none
claim_text (obj fields) = none

claim_at : List String → Value → Option Value
claim_at [] value = some value
claim_at (component ∷ components) value =
    if is_empty component then none else elim (dict_or_none value) [
      | none ↦ none
      | some fields ↦ elim (lookup component fields) [
        | none ↦ none
        | some inner ↦ claim_at components inner
      ]
    ]

unfoldable pub read_claim : Value → String → Option String
unfolding claim_text claim_at dict_or_none
read_claim payload path = elim (claim_at (split b'.' path) payload) [
  | none ↦ none
  | some value ↦ claim_text value
]
