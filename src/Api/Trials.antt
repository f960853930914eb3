-- ===== src/Api/Trials.antt =====
-- The theorems about the requests at concrete inputs, and a run of `submit_timecard`.
use otl_voice.Prelude.{
  ℕ, ◌+◌, ◌==◌, string_eq, if◌then◌else◌, ◌≡◌, refl, true, false, Option, none, some, List, [], ◌∷◌,
  String, string_eq, length,
}
use otl_voice.Prelude.Dict.{Dict}
use otl_voice.Prelude.Result.{Result, err}
use otl_voice.Python.Value.{
  truthy, Value, Decimal, bool, str, arr, obj, element, no_elements, member, no_members,
}
use otl_voice.Config.{Environ, is_demo_mode, env_flag}
use otl_voice.Otl.Credential.{OtlCredential, service_credential}
use otl_voice.Idempotency.Sanitize.{run_sanitize}
use otl_voice.Idempotency.Key.{run_key}
use otl_voice.Entries.Validate.{run_entries}
use otl_voice.Entries.Resolve.{Context, resolve_entry, with_task, with_project, with_owner}
use otl_voice.Api.RequestIds.{request_id_of}
use otl_voice.Api.Submit.{
  Body, Catalogue, loaded, Rejection, submission_failed, Reply, submit_timecard, reply_of, sent,
  entries_of, prepared,
}
use otl_voice.Api.Submit.Counts.{Fits, reply_of-counts}

abbrev repr : Value → String
repr v = "?"

abbrev decimal : String → Option Decimal
decimal s = some (record { negative = false; digits = 85; scale = 1 })

abbrev casefold : String → String
casefold s = s

-- A service account, and nothing else.
abbrev account : Environ
account name =
    if name == "OTL_SERVICE_USERNAME"
    then some "svc"
    else if name == "OTL_SERVICE_PASSWORD"
    then some "pw"
    else none

abbrev unset : Environ
unset name = none

abbrev fenced : String → Option String
fenced message = none

abbrev loads : String → Option Value
loads text = none

abbrev projects : Value
projects = arr (
    element (obj (member "projectNo" (str "P1") (member "projectName" (str "Dam") no_members)))
      no_elements)

abbrev assignments_for : String → Catalogue
assignments_for employee =
    loaded (obj (member "workOrder" (str "W1") (member "projects" projects no_members)) ∷ [])

abbrev entry : Dict Value
entry =
    ("hours", str "8.5")
    ∷ ("date", str "2024-02-29")
    ∷ ("startTime", str "09:00")
    ∷ ("stopTime", str "17:30")
    ∷ ("projectNo", str "P1")
    ∷ ("taskDetails", str "Design")
    ∷ ("employeeNumber", str "999")
    ∷ []

abbrev ctx : Context
ctx = record { employee_id = "7"; full_name = "Ada" }

abbrev body : Body
body = record {
  entries = some (entry ∷ []);
  assistant_message = none;
  request_id = some "k-1";
  idempotency_key = none;
}

-- A client that counts the entries it is sent, and reports the success of the first.
abbrev acreate_many :
    OtlCredential → List (Dict Value) → Option String → ℕ → ℕ × Option (List (Dict Value))
acreate_many credential entries request_id count =
    (count + length entries, some ((("ok", bool true) ∷ []) ∷ []))

abbrev run_in : Environ → ℕ × Result Rejection Reply
run_in env =
    submit_timecard fenced loads repr decimal casefold env assignments_for acreate_many body none
      ctx 0

reply_of-counts_example :
    let reply = reply_of repr ((("ok", bool true) ∷ []) ∷ (("ok", bool false) ∷ []) ∷ []) in
    (reply.submitted ≡ 2)
    × (length reply.results ≡ 2)
    × (reply.succeeded ≡ 1)
    × (reply.succeeded + reply.failed ≡ 2)
    × Fits reply.results reply.status
unfolding run_sanitize
reply_of-counts_example =
    reply_of-counts repr ((("ok", bool true) ∷ []) ∷ (("ok", bool false) ∷ []) ∷ [])

-- One entry is sent; without the account none is.
sends_one : ((run_in account).0 ≡ 1) × (run_in unset ≡ (0, err submission_failed))
unfolding submit_timecard sent entries_of prepared request_id_of run_entries run_key resolve_entry
    with_task with_project with_owner service_credential is_demo_mode env_flag truthy
sends_one = (refl, refl)
