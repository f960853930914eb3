-- ===== src/Sessions/Tests.antt =====
-- The theorems about sessions at concrete inputs, and runs of the store.
use otl_voice.Prelude.{
  ℕ, ◌*◌, ◌≡◌, refl, Bool, true, false, none, some, List, [], ◌∷◌, arith, eq_iff, ◌==◌, string_eq,
  if◌then◌else◌,
}
use otl_voice.Prelude.Int.{pos}
use otl_voice.Prelude.Result.{ok, err}
use otl_voice.Python.Value.{int, null}
use otl_voice.Config.{Environ}
use otl_voice.Sessions.Session.{StoredSession, expired, from_dict, to_dict}
use otl_voice.Sessions.Connection.{Blocklist, Call, new_blocklist}
use otl_voice.Sessions.Store.{
  fails, says, no_answer, answers, unavailable, store_session, get_session, revoke_session,
  is_revoked, run_store,
}
use otl_voice.Sessions.Denied.{Step, stores, run, revoked_stays_revoked}
use otl_voice.Sessions.Answers.{revoked_in_redis_returns}

abbrev ann : StoredSession
ann = record {
  employee_id = "7";
  username = "ann";
  full_name = "";
  expires_at = record { negative = false; digits = 1005; scale = 1 };
}

-- The demonstration without Redis, with Redis, and production.
abbrev demo : Environ
demo name = if name == "DEMO_MODE" then some "1" else none

abbrev with_redis : Environ
with_redis name =
    if name == "REDIS_URL" then some "redis://r" else if name == "DEMO_MODE" then some "1" else none

abbrev production : Environ
production name = if name == "REDIS_URL" then some "redis://r" else none

abbrev at : Environ → ℕ → Bool → Call
at env seconds up = record {
  env = env;
  monotonic = seconds * 1000000;
  failed_at = seconds * 1000000;
  denial_wall = seconds * 1000000;
  wall = seconds * 1000000;
  stamp_wall = seconds * 1000000;
  creates = true;
  pings = up;
}

abbrev stored : Blocklist
stored = (store_session (at with_redis 50 false) false "s" ann new_blocklist).0

samples :
    (from_dict (to_dict ann) ≡ some ann)
    × (from_dict (("employee_id", int (pos 7)) ∷ []) ≡ none)
    × (expired 100499999 ann ≡ false)
    × (expired 100500000 ann ≡ true)
    × ((get_session (at demo 60 true) fails "s" stored).1 ≡ ok (some ann))
    × ((get_session (at demo 101 true) fails "s" stored).1 ≡ ok none)
    × ((get_session (at production 60 false) fails "s" stored).1 ≡ err unavailable)
    × ((store_session (at production 60 false) true "s" ann new_blocklist).1 ≡ err unavailable)
    × ((is_revoked (at demo 60 true) no_answer (some (record { jti = "s"; exp = 9 })) stored).1
        ≡ ok false)
unfolding run_store
samples = (refl, refl, refl, refl, refl, refl, refl, refl, refl)

abbrev one_step : List (Call × Step)
one_step = (at demo 61 true, stores true "other" ann) ∷ []

revoked_stays_revoked_example :
    let s' = run one_step (revoke_session (at demo 60 true) false "s" 30 stored).0 in
    ((get_session (at with_redis 89 true) (says null) "s" s').1 ≡ ok none)
    × ((is_revoked
          (at with_redis 89 true)
          (answers false)
          (some (record { jti = "s"; exp = 9 }))
          s').1
        ≡ ok true)
revoked_stays_revoked_example =
    revoked_stays_revoked (at demo 60 true) "s" 30 stored one_step (at with_redis 89 true)
      (says null) (answers false) 9
      ((omega arith, omega arith, ground (arith, eq_iff "other" "s")), tt) (omega arith)

revoked_in_redis_returns_example :
    ((revoke_session (at with_redis 60 true) true "s" 30 stored).1 ≡ ok tt)
    × ((get_session
          (at with_redis 70 false)
          fails
          "s"
          (revoke_session (at with_redis 60 true) true "s" 30 stored).0).1
        ≡ ok (some ann))
unfolding run_store
revoked_in_redis_returns_example =
    revoked_in_redis_returns (at with_redis 60 true) (at with_redis 70 false) "s" 30 fails stored
      ann refl refl refl refl refl refl refl
