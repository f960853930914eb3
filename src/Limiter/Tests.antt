-- ===== src/Limiter/Tests.antt =====
-- The theorems about the limiter at concrete inputs, and runs of it.
use Prim.Native.String.{◌++◌ as ◌<>◌}
use otl_voice.Prelude.{
  ℕ, ◌≤◌, ◌≡◌, ◌⊎◌, refl, true, false, Option, none, some, List, [], ◌∷◌, String, arith, ◌==◌,
  string_eq, if◌then◌else◌, length, keep_if,
}
use otl_voice.Prelude.Dict.{lookup}
use otl_voice.Prelude.Int.{ℤ, pos, ◌≤ℤ◌}
use otl_voice.Prelude.Result.{ok, err}
use otl_voice.Config.{Environ, memory_fallback_allowed}
use otl_voice.Limiter.ClientIp.{IpLibrary, resolve_client_ip, run_client_ip}
use otl_voice.Limiter.Spoofing.{resolve_client_ip-forged}
use otl_voice.Limiter.Local.{is_allowed_locally, run_local}
use otl_voice.Limiter.Window.{in_window, note_grant, History, begin, call, granted_in_window}
use otl_voice.Limiter.Tracker.{
  acquire, release, key_of, set_identity, ws_connection_limit, Connections, begins, opens, Counts,
  Connections-Counts, opened, run_tracker,
}
use otl_voice.Limiter.Limits.{
  Settings, Limiter, Call, is_allowed, init, unavailable, is_allowed-fails_closed, run_limits,
}

-- Addresses that are texts, where the proxies are those of the network "10".
abbrev texts : IpLibrary
texts = record {
  Address = String;
  Network = String;
  ip_address = λ s. if s == "bad" then none else some s;
  ip_network = some;
  version = λ a. 4;
  network_version = λ n. 4;
  contains = λ n a. n == a;
  compressed = λ a. a;
}

abbrev proxies : List String
proxies = "10.0.0.1" ∷ "10.0.0.2" ∷ []

client_ips :
    (resolve_client_ip texts proxies (some "9.9.9.9") (some "1.2.3.4") none ≡ "9.9.9.9")
    × (resolve_client_ip texts proxies (some "10.0.0.1:443") (some "1.1.1.1, 2.2.2.2,10.0.0.2") none
        ≡ "2.2.2.2")
    × (resolve_client_ip texts proxies (some "[10.0.0.1]:443") none (some " 3.3.3.3 ") ≡ "3.3.3.3")
    × (resolve_client_ip texts proxies (some "10.0.0.1") (some "bad,2.2.2.2") none ≡ "10.0.0.1")
    × (resolve_client_ip texts proxies (some " ") none none ≡ "unknown")
unfolding run_client_ip
client_ips = (refl, refl, refl, refl, refl)

resolve_client_ip-forged_example :
    resolve_client_ip texts proxies
      (some "10.0.0.1")
      (some ("7.7.7.7" <> "," <> "2.2.2.2,10.0.0.2"))
      none
    ≡ "2.2.2.2"
unfolding run_client_ip
resolve_client_ip-forged_example =
    resolve_client_ip-forged texts proxies (some "10.0.0.1") none "7.7.7.7" "2.2.2.2,10.0.0.2"
      "10.0.0.1" "2.2.2.2" ("2.2.2.2" ∷ "10.0.0.2" ∷ []) refl refl refl refl

abbrev no_grants : String → List ℕ
no_grants key = []

abbrev once :
    History 2 100 5
      (is_allowed_locally 2 100 "k" 5 []).0
      (note_grant "k" 5 (is_allowed_locally 2 100 "k" 5 []).1 no_grants)
unfolding run_local
once = call "k" 5 begin (omega arith) (omega arith)

local_runs :
    (is_allowed_locally 1 100 "k" 105 (("k", 5 ∷ []) ∷ []) ≡ (("k", 105 ∷ []) ∷ [], true))
    × (is_allowed_locally 1 100 "k" 104 (("k", 5 ∷ []) ∷ []) ≡ (("k", 5 ∷ []) ∷ [], false))
unfolding run_local
local_runs = (refl, refl)

granted_in_window_example :
    length (
      keep_if
        (in_window 100 0)
        (note_grant "k" 5 (is_allowed_locally 2 100 "k" 5 []).1 no_grants "k"))
    ≤ 2
granted_in_window_example = granted_in_window 2 100 once "k" 0

abbrev digest : String → String
digest s = s

abbrev no_connections : String → ℕ
no_connections key = 0

abbrev one :
    Connections digest 1 (acquire digest 1 (some "employee:7") []).0 (
      opened
        (key_of digest "employee:7")
        (acquire digest 1 (some "employee:7") []).1
        no_connections)
one = opens "employee:7" begins

Connections-Counts_example :
    Counts 1 (lookup "websocket-user:employee:7" (acquire digest 1 (some "employee:7") []).0) (
      opened
        (key_of digest "employee:7")
        (acquire digest 1 (some "employee:7") []).1
        no_connections
        "websocket-user:employee:7")
Connections-Counts_example =
    Connections-Counts digest 1 (omega arith) one "websocket-user:employee:7"

tracker_runs :
    (release digest (some "e") (acquire digest 5 (some "e") []).0 ≡ [])
    × (acquire digest 5 none [] ≡ ([], false))
    × (set_identity " 7 " none ≡ some "employee:7")
    × (ws_connection_limit (λ name. some "900") ≡ 50)
    × (ws_connection_limit (λ name. some "x") ≡ 5)
unfolding run_tracker
tracker_runs = (refl, refl, refl, refl, refl)

abbrev settings : Settings
settings = record { max_requests = 3; window_seconds = 60; redis_url = some "redis://r" }

abbrev unset : Environ
unset name = none

abbrev fresh : Limiter
fresh = record {
  connected = true;
  use_redis = true;
  local_requests = [];
  last_reconnect_attempt = 0;
  reconnect_backoff = 1;
}

abbrev counted : Option ℤ → Call
counted answer = record {
  env = unset;
  monotonic = 10;
  failed_at = 11;
  wall = 500;
  pings = true;
  executes = answer;
  removes = true;
}

limiter_runs :
    ((is_allowed digest settings "k" (counted (some (pos 3))) fresh).1 ≡ ok true)
    × ((is_allowed digest settings "k" (counted (some (pos 4))) fresh).1 ≡ ok false)
    × ((is_allowed digest settings "k" (counted none) fresh).1 ≡ err unavailable)
    × ((is_allowed digest settings "k" (counted none) fresh).0.reconnect_backoff ≡ 2)
    × (init 0 60 none ≡ none)
unfolding run_limits
limiter_runs = (refl, refl, refl, refl, refl)

is_allowed-fails_closed_example :
    ((count : ℤ) × (some (pos 3) ≡ some count) × (count ≤ℤ pos 3))
    ⊎ (memory_fallback_allowed unset ≡ true)
unfolding run_limits
is_allowed-fails_closed_example =
    is_allowed-fails_closed digest settings "k" (counted (some (pos 3))) fresh refl
