-- ===== src/Entries/Tests.antt =====
-- The theorems about timecard entries at concrete inputs, and runs of the checks.
use otl_voice.Prelude.{
  ◌≡◌, ◌⊎◌, refl, true, false, Option, none, some, List, [], ◌∷◌, String, ◌==◌, string_eq,
  if◌then◌else◌,
}
use otl_voice.Prelude.Dict.{Dict}
use otl_voice.Prelude.Result.{ok, err}
use otl_voice.Python.Value.{Value, Decimal, str, arr, obj, element, no_elements, member, no_members}
use otl_voice.Config.{Environ}
use otl_voice.Entries.Entry.{
  normalize_entry, hours_not_quarter, day_over_limit, not_matching, not_assigned, date_value,
}
use otl_voice.Entries.Hours.{exceeds, configured_limit}
use otl_voice.Entries.Assigned.{assigned_project}
use otl_voice.Entries.Validate.{validate_timecard_entry, validate_timecard_entries, run_entries}
use otl_voice.Entries.Accepted.{booked, Accepted, validate_timecard_entries-bound}
use otl_voice.Entries.Resolve.Owner.{Owned, Taskless, resolve_entry-owner}
use otl_voice.Entries.Resolve.{Context, resolve_entry, not_iterable, source_of, project_or_none}

abbrev repr : Value → String
repr v = "?"

abbrev decimal : String → Option Decimal
decimal s =
    if s == "8.5"
    then some (record { negative = false; digits = 85; scale = 1 })
    else if s == "8.1"
    then some (record { negative = false; digits = 81; scale = 1 })
    else if s == "24.0"
    then some (record { negative = false; digits = 240; scale = 1 })
    else none

abbrev unset : Environ
unset name = none

abbrev projects : Value
projects = arr (
    element (obj (member "projectNo" (str "P1") (member "projectName" (str "Dam") no_members)))
      no_elements)

abbrev assignments : List Value
assignments = obj (member "workOrder" (str "W1") (member "projects" projects no_members)) ∷ []

abbrev entry : Dict Value
entry =
    ("hours", str "8.5")
    ∷ ("date", str "2024-02-29")
    ∷ ("startTime", str "09:00")
    ∷ ("stopTime", str "17:30")
    ∷ ("project_number", str " P1 ")
    ∷ ("taskDetails", str "Design")
    ∷ ("employeeNumber", str "999")
    ∷ []

abbrev found : Dict Value
found = ("projectNo", str "P1") ∷ ("projectName", str "Dam") ∷ ("workOrder", str "W1") ∷ []

entry_runs :
    (validate_timecard_entry repr decimal unset true (some assignments) entry ≡ ok 34)
    × (validate_timecard_entry repr decimal unset true none (("hours", str "8.1") ∷ [])
        ≡ err hours_not_quarter)
    × (validate_timecard_entry repr decimal unset false none
          (("hours", str "8.5") ∷ ("date", str "2023-02-29") ∷ [])
        ≡ err date_value)
    × (validate_timecard_entry repr decimal unset false none
          (("hours", str "8.5") ∷ ("startTime", str "09:00") ∷ ("stopTime", str "17:00") ∷ [])
        ≡ err not_matching)
    × (validate_timecard_entry repr decimal unset true (some []) entry ≡ err not_assigned)
    × (validate_timecard_entries repr decimal unset none (entry ∷ entry ∷ []) ≡ ok tt)
    × (validate_timecard_entries repr decimal unset none (entry ∷ entry ∷ entry ∷ [])
        ≡ err (3, day_over_limit))
unfolding run_entries
entry_runs = (refl, refl, refl, refl, refl, refl, refl)

validate_timecard_entries-bound_example :
    (booked repr decimal unset "2024-02-29" (entry ∷ entry ∷ []) ≡ 0)
    ⊎ (exceeds
          (booked repr decimal unset "2024-02-29" (entry ∷ entry ∷ []))
          (configured_limit repr decimal unset "MAX_TIMECARD_HOURS_PER_DAY")
        ≡ false)
unfolding run_entries
validate_timecard_entries-bound_example =
    validate_timecard_entries-bound repr decimal unset none (entry ∷ entry ∷ []) "2024-02-29" refl

abbrev ann : Context
ann = record { employee_id = "7"; full_name = "Ann" }

abbrev same : String → String
same s = s

resolve_entry-owner_example :
    let norm = normalize_entry entry in
    let project = project_or_none (assigned_project repr norm (some assignments)) in
    ((resolved : Dict Value) × (resolve_entry repr same ann (some assignments) entry ≡ ok resolved)
      × Owned repr same ann (source_of project norm) resolved)
    ⊎ ((resolve_entry repr same ann (some assignments) entry ≡ err not_iterable)
        × Taskless repr same project)
resolve_entry-owner_example = resolve_entry-owner repr same ann (some assignments) entry
