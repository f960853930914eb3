-- ===== src/Auth/Tests.antt =====
-- The theorems about authentication at concrete inputs.
use otl_voice.Prelude.{
  ℕ, ◌*◌, ◌≡◌, ◌⊎◌, refl, true, false, none, some, List, [], ◌∷◌, arith, eq_iff, ◌==◌, string_eq,
  if◌then◌else◌,
}
use otl_voice.Prelude.Dict.{lookup}
use otl_voice.Prelude.Int.{pos}
use otl_voice.Prelude.Result.{ok}
use otl_voice.Python.Value.{str, int, get_or_none}
use otl_voice.Config.{Environ, memory_fallback_allowed}
use otl_voice.Sessions.Session.{StoredSession, expired}
use otl_voice.Sessions.Connection.{Blocklist, Call, new_blocklist}
use otl_voice.Sessions.Store.{fails, run_store, store_session, get_session}
use otl_voice.Sessions.Answers.{Held}
use otl_voice.Sessions.Denied.{Step, stores, run}
use otl_voice.Auth.Session.{
  Payload, SessionContext, Jwt, decode_session_token, resolve, destroy, remaining,
}
use otl_voice.Auth.Session.Lifetime.{resolve_sound, destroyed_token_is_refused}

-- One token, which decodes to one payload.
abbrev jwt : Jwt
jwt = record {
  encode = λ payload secret. "t";
  decode = λ now secret token.
      some (
        ("sub", str "7")
        ∷ ("username", str "ann")
        ∷ ("jti", str "s")
        ∷ ("exp", int (pos 100))
        ∷ []);
}

abbrev payload : Payload
payload = record {
  sub = "7";
  username = "ann";
  jti = "s";
  exp = record { negative = false; digits = 100; scale = 0 };
}

abbrev demo_env : Environ
demo_env name = if name == "DEMO_MODE" then some "1" else none

abbrev at : ℕ → Call
at seconds = record {
  env = demo_env;
  monotonic = seconds * 1000000;
  failed_at = seconds * 1000000;
  denial_wall = seconds * 1000000;
  wall = seconds * 1000000;
  stamp_wall = seconds * 1000000;
  creates = true;
  pings = true;
}

abbrev ann : StoredSession
ann = record {
  employee_id = "7";
  username = "ann";
  full_name = "Ann";
  expires_at = record { negative = false; digits = 100; scale = 0 };
}

abbrev stored : Blocklist
stored = (store_session (at 50) false "s" ann new_blocklist).0

token-decodes : (now : ℕ) → decode_session_token jwt "key" now "t" ≡ some payload
unfolding decode_session_token get_or_none lookup
token-decodes now = refl

abbrev context : SessionContext
context = record { employee_id = "7"; username = "ann"; full_name = "Ann"; session_id = "s" }

token-resolves :
    (resolve jwt "key" (at 60) fails 60000000 60000000 (some "t") stored).1 ≡ ok (some context)
unfolding resolve decode_session_token get_or_none lookup run_store
token-resolves = refl

resolve_sound_example :
    (p : Payload) × (session : StoredSession) × (decode_session_token jwt "key" 60000000 "t"
      ≡ some p)
    × ((get_session (at 60) fails p.jti stored).1 ≡ ok (some session))
    × ("7" ≡ p.sub)
    × ("ann" ≡ p.username)
    × (session.employee_id ≡ p.sub)
    × (session.username ≡ p.username)
    × ("Ann" ≡ session.full_name)
    × ("s" ≡ p.jti)
    × (expired 60000000 session ≡ false)
    × (Held fails session ⊎ (memory_fallback_allowed demo_env ≡ true))
resolve_sound_example =
    resolve_sound jwt "key" (at 60) fails 60000000 60000000 "t" stored context token-resolves

abbrev one_step : List (Call × Step)
one_step = (at 61, stores true "other" ann) ∷ []

destroyed_token_is_refused_example :
    (resolve jwt "key"
      (at 70)
      fails
      70000000
      70000000
      (some "t")
      (run one_step (destroy jwt "key" (at 60) false 60000000 60000000 (some "t") stored).0)).1
    ≡ ok none
unfolding remaining
destroyed_token_is_refused_example =
    destroyed_token_is_refused jwt "key" (at 60) (at 70) fails 60000000 60000000 70000000 70000000
      "t" payload stored one_step refl (token-decodes 60000000)
      (λ p h. ground (arith, h, token-decodes 70000000))
      ((omega arith, omega arith, ground (arith, eq_iff "other" "s")), tt) (omega arith)
