-- ===== src/Config.antt =====
-- backend/core/config.py: the flags in the environment, and what they allow. `env` is `os.getenv`,
-- and `ip_network` is the function of `ipaddress`, `none` for its `ValueError`.
mod Tests
use otl_voice.Prelude.{
  ◌≡◌, refl, Bool, true, false, not, ◌&&◌, ◌||◌, Option, none, some, List, [], ◌∷◌, String, arith,
  any, map, keep_if, ◌==◌, string_eq, if◌then◌else◌, Option-cases, inl, inr, ◌⊎◌, ap, sym,
}
use otl_voice.Python.Text.{strip, is_empty}
use otl_voice.Python.Split.{split, join, lower_is}

abbrev pub Environ : Type 0
Environ = String → Option String

is_word : List String → String → Bool
is_word words s = any (λ word. lower_is word s) words

flag_value : String → Bool → Bool
unfolding is_word
flag_value normalized default =
    if is_word ("1" ∷ "true" ∷ "yes" ∷ "on" ∷ []) normalized
    then true
    else if is_word ("0" ∷ "false" ∷ "no" ∷ "off" ∷ []) normalized
    then false
    else default

unfoldable pub env_flag : Environ → String → Bool → Bool
unfolding flag_value
env_flag env name default = elim (env name) [
  | none ↦ default
  | some raw ↦ flag_value (strip raw) default
]

unfoldable pub is_dev_mode : Environ → Bool
is_dev_mode env = env_flag env "DEV_MODE" false

unfoldable pub is_test_mode : Environ → Bool
is_test_mode env = env_flag env "TEST_MODE" false

unfoldable pub is_development_or_test : Environ → Bool
is_development_or_test env = is_dev_mode env || is_test_mode env

unfoldable pub is_demo_mode : Environ → Bool
is_demo_mode env = env_flag env "DEMO_MODE" false

unfoldable pub is_demo_or_development : Environ → Bool
is_demo_or_development env = is_development_or_test env || is_demo_mode env

unfoldable pub redis_required : Environ → Bool
redis_required env = env_flag env "REDIS_REQUIRED" (not (is_demo_or_development env))

unfoldable pub memory_fallback_allowed : Environ → Bool
memory_fallback_allowed env =
    is_demo_or_development env
    && not (redis_required env)
    && env_flag env "ALLOW_IN_MEMORY_SESSIONS" (is_demo_mode env)

-- `os.getenv(name, "")`
abbrev pub getenv : Environ → String → String
getenv env name = elim (env name) [ none ↦ "" | some value ↦ value ]

module _ {Network : Type 0} (ip_network : String → Option Network) where
  networks_of : List String → List Network
  networks_of [] = []
  networks_of (raw ∷ raws) =
      let rest = networks_of raws in
      let value = strip raw in
      if is_empty value || value == "*"
      then rest
      else elim (ip_network value) [ none ↦ rest | some network ↦ network ∷ rest ]

  unfoldable pub trusted_proxy_networks : Environ → List Network
  unfolding networks_of
  trusted_proxy_networks env =
      let values = getenv env "TRUSTED_PROXY_IPS" ∷ getenv env "TRUSTED_PROXY_CIDRS" ∷ [] in
      networks_of (split b',' (join "," (keep_if (λ part. not (is_empty part)) values)))

development_origins : List String
development_origins =
    "http://localhost:5173" ∷ "http://localhost:4173" ∷ "http://localhost:8000" ∷ "http://localhost"
    ∷ "http://127.0.0.1:5173" ∷ "http://127.0.0.1:4173" ∷ "http://127.0.0.1:8000"
    ∷ "http://127.0.0.1" ∷ "capacitor://localhost" ∷ "https://localhost" ∷ []

unfoldable pub cors_origins : Environ → List String
unfolding development_origins
cors_origins env = elim (env "CORS_ORIGINS") [
  | none ↦ if is_demo_or_development env then development_origins else []
  | some raw ↦ keep_if (λ origin. not (is_empty origin)) (map strip (split b',' raw))
]

-- A flag of the environment is on: it is set, to one of the four words for it.
pub IsOn : Environ → String → Type 0
IsOn env name =
    (raw : String) × (env name ≡ some raw)
    × (is_word ("1" ∷ "true" ∷ "yes" ∷ "on" ∷ []) (strip raw) ≡ true)

flag_value-on :
    (s : String) → flag_value s false ≡ true → is_word ("1" ∷ "true" ∷ "yes" ∷ "on" ∷ []) s ≡ true
unfolding flag_value
flag_value-on s h = ground arith

pub env_flag-IsOn : (env : Environ) (name : String) → env_flag env name false ≡ true → IsOn env name
unfolding env_flag IsOn
env_flag-IsOn env name h = elim (Option-cases (env name)) [
  | inl unset ↦ cc (unset, h)
  | inr (raw, e) ↦ (raw, e, flag_value-on (strip raw) (rw (ap seen (sym e)) h))
]
  where
    seen : Option String → Bool
    seen o = elim o [ none ↦ false | some raw ↦ flag_value (strip raw) false ]

-- Nothing falls back to memory unless one of the three mode flags is on and Redis is not required.
pub memory_fallback_allowed-IsOn :
    (env : Environ)
    → memory_fallback_allowed env ≡ true
    → (IsOn env "DEV_MODE" ⊎ IsOn env "TEST_MODE" ⊎ IsOn env "DEMO_MODE")
      × (redis_required env ≡ false)
unfolding memory_fallback_allowed is_demo_or_development is_development_or_test is_dev_mode
    is_test_mode is_demo_mode
memory_fallback_allowed-IsOn env h = (
  ground (
    arith,
    env_flag-IsOn env "DEV_MODE",
    env_flag-IsOn env "TEST_MODE",
    env_flag-IsOn env "DEMO_MODE",
  ),
  ground arith,
)

-- Without a mode flag and without a setting of its own, Redis is required, no store falls back to
-- memory and no foreign origin is allowed.
pub production_is_strict :
    (env : Environ)
    → is_dev_mode env ≡ false
    → is_test_mode env ≡ false
    → is_demo_mode env ≡ false
    → env "REDIS_REQUIRED" ≡ none
    → env "CORS_ORIGINS" ≡ none
    → (memory_fallback_allowed env ≡ false) × (redis_required env ≡ true) × (cors_origins env ≡ [])
unfolding memory_fallback_allowed redis_required cors_origins is_demo_or_development
    is_development_or_test env_flag
production_is_strict env dev test demo redis cors = (ground arith, ground arith, ground arith)

-- Everything that a run computes with, for the tests.
unfoldable pub run_config : Unit {0}
unfolding memory_fallback_allowed redis_required cors_origins trusted_proxy_networks strip split
    join lower_is is_demo_or_development is_development_or_test is_dev_mode is_test_mode
    is_demo_mode env_flag
run_config = tt
