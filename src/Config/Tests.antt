-- ===== src/Config/Tests.antt =====
-- The flags at concrete environments.
use otl_voice.Prelude.{◌≡◌, refl, true, false, none, some, [], ◌∷◌, ◌==◌, string_eq, if◌then◌else◌}
use otl_voice.Config.{
  Environ, memory_fallback_allowed, redis_required, trusted_proxy_networks, run_config,
}

abbrev unset : Environ
unset name = none

abbrev demo : Environ
demo name = if name == "DEMO_MODE" then some " Yes " else none

abbrev proxies : Environ
proxies name = if name == "TRUSTED_PROXY_CIDRS" then some "10.0.0.0/8, *,," else none

runs :
    (memory_fallback_allowed demo ≡ true)
    × (redis_required demo ≡ false)
    × (redis_required unset ≡ true)
    × (trusted_proxy_networks some proxies ≡ "10.0.0.0/8" ∷ [])
unfolding run_config
runs = (refl, refl, refl, refl)
