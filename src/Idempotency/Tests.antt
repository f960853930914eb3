-- ===== src/Idempotency/Tests.antt =====
-- The theorems about the store at concrete inputs, and runs that show what the definitions compute.
use otl_voice.Prelude.{
  ℕ, ◌+◌, ◌*◌, ◌/◌, ◌≡◌, ◌≢◌, ◌↔◌, refl, true, false, Option, none, some, [], ◌∷◌, String, arith,
  eq_iff, inl, inr, if◌then◌else◌, ◌==◌, string_eq,
}
use otl_voice.Prelude.Dict.{Dict, lookup}
use otl_voice.Prelude.Int.{pos}
use otl_voice.Prelude.Map.{Map, remove}
use otl_voice.Prelude.Result.{Result, ok}
use otl_voice.Python.Value.{Value, bool, int, str}
use otl_voice.Idempotency.Key.{
  validate_idempotency_key, idempotency_key_for_entry, scoped_idempotency_key, run_key,
}
use otl_voice.Idempotency.Key.Accepts.{IsKey, validate_idempotency_key_iff}
use otl_voice.Idempotency.Key.Scoped.{IsDigest, scoped-injective}
use otl_voice.Idempotency.Sanitize.{
  sanitize, is_ambiguous_result, is_ok, run_sanitize, oracle_unavailable,
}
use otl_voice.Idempotency.Sanitize.Public.{IsPublic, sanitize-IsPublic}
use otl_voice.Idempotency.Sanitize.Fixed.{sanitize-sanitize}
use otl_voice.Idempotency.Record.{State, Record, Row, Claim, conflict_result, replayed}
use otl_voice.Idempotency.Memory
use otl_voice.Idempotency.Sqlite.{Unavailable, healthy, claim, complete, claim_step, complete_step}
use otl_voice.Idempotency.Exclusive.{Held, completes, reads, run, claim_is_exclusive}
use otl_voice.Idempotency.Lifecycle.{
  result_is_replayed, ambiguous_is_released, stale_owner_refused, reclaim_outlives_record,
}
use otl_voice.Idempotency.Agreement.{
  Agree, Sound, claim_agrees, complete_agrees, late_release_differs, sanitized_replay,
}
use otl_voice.Idempotency.Waiting.{Waits, wait_from, wait_for_result-returns}

abbrev repr : Value → String
repr v = "?"

abbrev no_rows : Map Row
no_rows key = none

abbrev held_row : Row
held_row = record {
  base = record {
    state = State.pending;
    request_hash = "h";
    result_json = none;
    owner_token = some "t1";
    lease_until = 100;
    expires_at = 1000;
  };
  created_at = 0;
}

abbrev one_row : Map Row
one_row key = if "k" == key then some held_row else none

abbrev done : Dict Value
done = ("ok", bool true) ∷ ("id", str "300") ∷ ("secret", str "s") ∷ []

abbrev lost : Dict Value
lost = ("ok", bool false) ∷ ("status", int (pos 503)) ∷ ("code", str oracle_unavailable) ∷ []

sanitize-lost :
    sanitize repr lost
    ≡ ("ok", bool false)
      ∷ ("status", int (pos 503))
      ∷ ("code", str oracle_unavailable)
      ∷ ("error", str "Oracle Cloud is temporarily unavailable. Retry with the same requestId.")
      ∷ []
unfolding run_sanitize
sanitize-lost = refl

Held-one_row : Held "k" "t1" 100 one_row
Held-one_row = record {
  row = held_row;
  stored = refl;
  unfinished = refl;
  owner = refl;
  leased = omega arith;
  alive = omega arith;
}

claim_is_exclusive_example :
    let (t', answer) = claim repr healthy "k" "h" "t1" 1000 100 0 no_rows in
    (answer ≡ ok (Claim.claimed "t1"))
    × ((claim repr healthy "k" "h" "t2" 1000 100 99 (
          run repr 1000 100
            ((5, completes healthy "k" "t2" done) ∷ (6, reads healthy "k") ∷ [])
            t')).1
        ≢ ok (Claim.claimed "t2"))
claim_is_exclusive_example =
    claim_is_exclusive repr 1000 100 "k" "h" "t1" 0 99
      ((5, completes healthy "k" "t2" done) ∷ (6, reads healthy "k") ∷ []) "h" "t2" "t2" no_rows
      (omega arith) refl ((omega arith, inr (ground (arith, eq_iff "t2" "t1"))), (omega arith, tt))
      (omega arith)

sanitize-done : sanitize repr done ≡ ("ok", bool true) ∷ ("id", str "300") ∷ []
unfolding run_sanitize
sanitize-done = refl

done-clear : is_ambiguous_result (sanitize repr done) ≡ false
unfolding run_sanitize
done-clear = refl

lost-ambiguous : is_ambiguous_result (sanitize repr lost) ≡ true
unfolding run_sanitize
lost-ambiguous = refl

lost-failed : is_ok lost ≡ false
unfolding run_sanitize
lost-failed = refl

result_is_replayed_example :
    let (t', finished) = complete repr healthy "k" "t1" done 50 one_row in
    (finished ≡ ok true)
    × ((claim repr healthy "k" "h" "t2" 1000 100 999
          (run repr 1000 100 ((500, completes healthy "k" "t1" lost) ∷ []) t')).1
        ≡ (if held_row.request_hash == "h"
            then ok (Claim.replay (sanitize repr (replayed (sanitize repr done))))
            else ok (Claim.conflict conflict_result)))
unfolding Held-one_row
result_is_replayed_example =
    result_is_replayed repr 1000 100 "k" "t1" "t2" "h" done 50 999 100
      ((500, completes healthy "k" "t1" lost) ∷ []) one_row Held-one_row (omega arith) done-clear
      (omega arith, tt) (omega arith)

ambiguous_is_released_example :
    let (t', finished) = complete repr healthy "k" "t1" lost 50 one_row in
    (finished ≡ ok true)
    × ((claim repr healthy "k" "g" "t2" 1000 100 60 t').1 ≡ ok (Claim.claimed "t2"))
ambiguous_is_released_example =
    ambiguous_is_released repr 1000 100 "k" "t1" "g" "t2" lost 50 60 100 one_row Held-one_row
      lost-ambiguous

stale_owner_refused_example : complete repr healthy "k" "t0" done 50 one_row ≡ (one_row, ok false)
stale_owner_refused_example =
    stale_owner_refused repr 1000 100 "k" "t1" "t0" done 50 100 one_row Held-one_row
      (ground (arith, eq_iff "t0" "t1"))

reclaim_outlives_record_example :
    let (t', first) = claim repr healthy "k" "h" "t2" 1000 100 950 one_row in
    let (t'', second) = claim repr healthy "k" "h" "t3" 1000 100 1000 t' in
    (first ≡ ok (Claim.claimed "t2")) × (second ≡ ok (Claim.claimed "t3"))
reclaim_outlives_record_example =
    reclaim_outlives_record repr 1000 100 "k" "h" "t2" "t3" 950 1000 held_row one_row refl refl refl
      (omega arith) (omega arith) (omega arith) (omega arith)

abbrev one_record : Map Record
one_record key = if "k" == key then some held_row.base else none

one-Agree : Agree one_record one_row
one-Agree key = ground arith

one-Sound : Sound one_record
one-Sound key = ground arith

claim_agrees_example :
    let (m', answer) = Memory.claim "k" "h" "t2" 1000 100 150 one_record in
    let (t', answer') = claim_step repr "k" "h" "t2" 1000 100 150 one_row in
    Agree m' t' × (answer' ≡ sanitized_replay repr answer) × Sound m'
claim_agrees_example =
    claim_agrees repr 1000 100 "k" "h" "t2" 150 one_record one_row one-Agree one-Sound

complete_agrees_example :
    let (m', finished) = Memory.complete repr "k" "t1" done 50 one_record in
    let (t', finished') = complete_step repr "k" "t1" done 50 one_row in
    Agree m' t' × (finished' ≡ finished) × Sound m'
complete_agrees_example =
    complete_agrees repr "k" "t1" done 50 one_record one_row one-Agree one-Sound (inl done-clear)

late_release_differs_example :
    (Memory.complete repr "k" "t1" lost 150 one_record ≡ (one_record, false))
    × (complete_step repr "k" "t1" lost 150 one_row ≡ (remove "k" one_row, true))
late_release_differs_example =
    late_release_differs repr "k" "t1" lost 150 one_record one_row held_row one-Agree refl refl refl
      lost-ambiguous (omega arith)

abbrev nothing_yet : ℕ → Result Unavailable (Option (Dict Value))
nothing_yet n = ok none

abbrev ticks : ℕ → ℕ
ticks n = 10 + n * 5

wait_for_result-returns_example :
    (r : Result Unavailable (Dict Value)) × (wait_from nothing_yet ticks (10 + 12) (12 / 5 + 2) 0
      ≡ some r)
    × Waits nothing_yet ticks (10 + 12) 0 r
wait_for_result-returns_example =
    wait_for_result-returns nothing_yet ticks ticks 10 12 5 (omega arith) (omega arith)
      (λ n. omega arith) (λ n. omega arith)

abbrev entry : Dict Value
entry = ("hours", int (pos 8)) ∷ ("requestId", str "r-1") ∷ ("idempotencyKey", str "r-1") ∷ []

validate_idempotency_key_iff_example :
    (validate_idempotency_key (str "r-1") ≡ ok "r-1") ↔ ((str "r-1" ≡ str "r-1") × IsKey "r-1")
validate_idempotency_key_iff_example = validate_idempotency_key_iff (str "r-1") "r-1"

key_of_entry : idempotency_key_for_entry entry (some "r-1") ≡ ok (some "r-1")
unfolding idempotency_key_for_entry run_key
key_of_entry = refl

abbrev zeros : String → String
zeros e = "000000000000000000000000"

zeros-IsDigest : (e : String) → IsDigest (zeros e)
zeros-IsDigest e = (refl, refl)

scoped_zeros : scoped_idempotency_key zeros "7" "r-1" ≡ ok "timecard:000000000000000000000000:r-1"
unfolding scoped_idempotency_key run_key
scoped_zeros = refl

scoped-injective_example : (zeros "7" ≡ zeros "7") × ◌≡◌ {A = String} "r-1" "r-1"
scoped-injective_example =
    scoped-injective zeros zeros-IsDigest "7" "7" "r-1" "r-1"
      "timecard:000000000000000000000000:r-1" scoped_zeros scoped_zeros

sanitize-IsPublic_example : IsPublic (sanitize repr done)
sanitize-IsPublic_example = sanitize-IsPublic repr done

sanitize-sanitize_example :
    lookup "error" (sanitize repr (sanitize repr lost)) ≡ lookup "error" (sanitize repr lost)
sanitize-sanitize_example = sanitize-sanitize repr lost "error" (inr lost-failed)
