-- ===== src/Otl/Trials.antt =====
-- The theorems about submissions at concrete inputs.
use otl_voice.Prelude.{
  ℕ, ◌+◌, ◌≡◌, ◌≢◌, refl, true, false, Option, none, some, List, [], ◌∷◌, String, arith, length,
  eq_iff, ◌==◌, string_eq, if◌then◌else◌, inr,
}
use otl_voice.Prelude.Dict.{Dict, lookup}
use otl_voice.Prelude.Map.{Map}
use otl_voice.Prelude.Result.{ok, err}
use otl_voice.Python.Text.{strip, is_empty}
use otl_voice.Python.Value.{
  Value, Decimal, str, obj, member, no_members, truthy, to_text, get_or_none,
}
use otl_voice.Config.{Environ}
use otl_voice.Idempotency.Key.{run_key, scoped_idempotency_key}
use otl_voice.Idempotency.Key.Scoped.{IsDigest}
use otl_voice.Idempotency.Record.{State, Row, replayed}
use otl_voice.Idempotency.Sanitize.{sanitize, is_ambiguous_result, run_sanitize}
use otl_voice.Idempotency.Sqlite.{healthy, unavailable}
use otl_voice.Idempotency.Exclusive.{Held, reads, completes, run}
use otl_voice.Idempotency.Store.{Settings, sqlite_backend}
use otl_voice.Entries.Validate.{run_entries}
use otl_voice.Otl.Create.{responds, create_timecard_entry, success_result}
use otl_voice.Otl.Mapping.{Event, map_entry_to_otl, run_mapping}
use otl_voice.Otl.Mapping.Bounds.{Fits, map_entry_to_otl-Fits}
use otl_voice.Otl.Results.{oracle_failure_result, failure_result}
use otl_voice.Otl.Preflight.{preflight_entries, keys_of}
use otl_voice.Otl.Submit.{
  Around, settled, sending, indexed, create_many, employee_of, finish_row, sent_result,
}
use otl_voice.Otl.Submit.Once.{begins, begin_row-exclusive, begin_row-replays, its_result}
use otl_voice.Otl.Submit.Rows.{InOrder, create_many-answers}

abbrev repr : Value → String
repr v = "?"

abbrev decimal : String → Option Decimal
decimal s = some (record { negative = false; digits = 8; scale = 0 })

abbrev general : ℕ → String
general n = "8"

abbrev unset : Environ
unset name = none

abbrev employee_hash : String → String
employee_hash employee = "0123456789abcdef01234567"

digest : (e : String) → IsDigest (employee_hash e)
digest e = (refl, refl)

abbrev fingerprint : Dict Value → String
fingerprint entry = "f"

abbrev settings : Settings
settings = record { ttl = 1000; lease = 100; wait = 10; poll = 1 }

abbrev entry : Dict Value
entry = ("employeeNumber", str "7") ∷ ("hours", str "8") ∷ ("requestId", str "k") ∷ []

abbrev scoped : String
scoped = "timecard:0123456789abcdef01234567:k"

-- A row at a time, with Oracle's answer.
abbrev row : String → ℕ → Around
row token now = record {
  correlation = "c";
  error_id = "e";
  claim_fault = healthy;
  claim_at = now;
  token = token;
  waited = err unavailable;
  outcome =
      responds 201 (some (obj (member "timeRecordEventRequestId" (str "300") no_members))) "c";
  complete_fault = healthy;
  complete_at = now + 50;
  millis = 0;
}

abbrev no_rows : Map Row
no_rows key = none

entry-named : is_empty (employee_of repr entry) ≡ false
unfolding employee_of strip truthy to_text get_or_none lookup
entry-named = refl

entry-scoped : scoped_idempotency_key employee_hash (employee_of repr entry) "k" ≡ ok scoped
unfolding scoped_idempotency_key run_key
entry-scoped = refl

begin_row-exclusive_example :
    let (t', phase) =
      begins repr decimal general unset employee_hash fingerprint settings digest 0 entry "k"
        (row "t1" 0)
        no_rows in
    (phase ≡ sending (some (scoped, "t1")))
    × ((begins repr decimal general unset employee_hash fingerprint settings digest 3 entry "k"
          (row "t2" 99)
          (run repr 1000 100
            ((5, completes healthy scoped "t2" []) ∷ (6, reads healthy scoped) ∷ [])
            t')).1
        ≢ sending (some (scoped, "t2")))
begin_row-exclusive_example =
    begin_row-exclusive repr decimal general unset employee_hash fingerprint settings digest 0 3
      entry entry "k" scoped (row "t1" 0) (row "t2" 99) no_rows
      ((5, completes healthy scoped "t2" []) ∷ (6, reads healthy scoped) ∷ []) (some (scoped, "t2"))
      entry-named refl refl entry-scoped (omega arith) refl refl
      ((omega arith, inr (ground (arith, eq_iff "t2" "t1"))), (omega arith, tt)) (omega arith)

abbrev held_row : Row
held_row = record {
  base = record {
    state = State.pending;
    request_hash = "f";
    result_json = none;
    owner_token = some "t1";
    lease_until = 100;
    expires_at = 1000;
  };
  created_at = 0;
}

abbrev one_row : Map Row
one_row key = if scoped == key then some held_row else none

Held-one_row : Held scoped "t1" 100 one_row
Held-one_row = record {
  row = held_row;
  stored = refl;
  unfinished = refl;
  owner = refl;
  leased = omega arith;
  alive = omega arith;
}

-- Without hours, an entry is refused with status 400.
abbrev no_hours : Dict Value
no_hours = ("employeeNumber", str "7") ∷ []

abbrev sent : Dict Value
sent =
    its_result repr decimal general unset employee_hash fingerprint settings digest 0 no_hours "k"
      (row "t1" 0)

sent-definite : is_ambiguous_result (sanitize repr sent) ≡ false
unfolding its_result sent_result success_result create_timecard_entry oracle_failure_result
    failure_result run_sanitize run_mapping
sent-definite = refl

begin_row-replays_example :
    let (t', first) =
      finish_row repr decimal general unset employee_hash fingerprint
        (sqlite_backend repr)
        settings
        0
        no_hours
        (some "k")
        (row "t1" 0)
        (sending (some (scoped, "t1")))
        one_row in
    (first ≡ some sent)
    × ((begins repr decimal general unset employee_hash fingerprint settings digest 2 entry "k"
          (row "t3" 900)
          (run repr 1000 100 ((500, reads healthy scoped) ∷ []) t')).1
        ≡ settled (indexed 2 (sanitize repr (replayed (sanitize repr sent)))))
unfolding Held-one_row
begin_row-replays_example =
    begin_row-replays repr decimal general unset employee_hash fingerprint settings digest 0 2
      no_hours entry "k" scoped (row "t1" 0) (row "t3" 900) 100 one_row
      ((500, reads healthy scoped) ∷ []) Held-one_row entry-named refl entry-scoped refl refl refl
      (omega arith) sent-definite (omega arith, tt) (omega arith)

entry-passes : preflight_entries repr decimal unset (entry ∷ []) none ≡ ok (some "k" ∷ [])
unfolding preflight_entries keys_of run_entries
entry-passes = refl

create_many-answers_example :
    (t' : Map Row) × (results : List (Dict Value)) × (create_many repr decimal general unset
        employee_hash fingerprint
        (sqlite_backend repr)
        settings
        (entry ∷ [])
        none
        true
        "c"
        (λ index. row "t1" 0)
        no_rows
      ≡ ok (t', some results))
    × (length results ≡ 1)
    × InOrder 0 results
create_many-answers_example =
    create_many-answers repr decimal general unset employee_hash fingerprint (sqlite_backend repr)
      settings digest (entry ∷ []) none true "c" (λ index. row "t1" 0) no_rows (some "k" ∷ [])
      entry-passes

abbrev event : Event
event = record {
  measure = 32;
  reporter_id = "7";
  day = none;
  start_time = 540;
  stop_time = 1020;
  attributes = ("Comment", "Total Hours: 8") ∷ [];
}

entry-maps : map_entry_to_otl repr decimal general unset entry ≡ ok event
unfolding run_mapping
entry-maps = refl

map_entry_to_otl-Fits_example : Fits event
map_entry_to_otl-Fits_example =
    map_entry_to_otl-Fits repr decimal general unset entry event entry-maps
