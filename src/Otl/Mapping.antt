-- ===== src/Otl/Mapping.antt =====
-- `map_entry_to_otl` of backend/services/otl_client.py: the event that is sent to Oracle for an
-- entry. Times of the day are in minutes and hours in quarters: `float` is exact for the hours that
-- pass the validation. `general units` is what the format `g` makes of the hours. The zone, and the
-- texts that `isoformat` makes of a day and its minutes, are left out.
pub mod Bounds
use Prim.Native.String.{◌++◌ as ◌<>◌}
use otl_voice.Prelude.{
  ℕ, suc, ◌+◌, ◌-◌, ◌*◌, ◌≤◌, ◌<◌, ◌≡◌, Bool, true, false, not, ◌&&◌, ◌||◌, Option, none, some,
  List, [], ◌∷◌, ◌++◌, String, ltb, leb, ◌==◌, nat_eq, string_eq, any, if◌then◌else◌,
}
use otl_voice.Prelude.Dict.{Dict, lookup}
use otl_voice.Prelude.Int.{ℤ, pos, negsuc}
use otl_voice.Prelude.Result.{Result, ok, err, ◌>>=◌}
use otl_voice.Python.Text.{strip, is_empty, text_length, prefix}
use otl_voice.Python.Number.{parse_int}
use otl_voice.Python.Split.{join}
use otl_voice.Python.Value.{
  Value, Decimal, null, bool, int, real, str, arr, obj, to_text, truthy, get_or_none,
}
use otl_voice.Config.{Environ}
use otl_voice.Entries.Entry.{EntryError}
use otl_voice.Entries.Times.{parse_date, parse_minutes}
use otl_voice.Entries.Validate.{
  validate_timecard_entry, configured_allowlist, expenditure_types, expenditure_names, run_entries,
}

-- Why an entry is refused, each with status 400.
pub data MappingError : Type 0 where
  invalid_entry : EntryError → MappingError
  employee_missing bad_default_hour bad_times not_earlier not_matching past_midnight : MappingError
  expenditure_not_allowed : MappingError

-- The event. `day` is `none` for the current day.
pub record Event : Type 0 where
  pub measure : ℕ
  pub reporter_id : String
  pub day : Option (ℕ × ℕ × ℕ)
  pub start_time : ℕ
  pub stop_time : ℕ
  pub attributes : List (String × String)

abbrev pub str_max : ℕ
str_max = 80

-- `f"{label}{value}"` for a value that counts as true.
unfoldable pub labelled : (Value → String) → String → Value → List String
labelled repr label value = if truthy value then (label <> to_text repr value) ∷ [] else []

-- `"Project: {project_name}"`, with the number where there is one.
unfoldable pub project_part : (Value → String) → Value → Value → List String
project_part repr name number =
    if truthy name
    then ("Project: "
        <> (to_text repr name
            <> (if truthy number then " (" <> (to_text repr number <> ")") else "")))
      ∷ []
    else []

-- `parts` but for the last one, and that one: joined, and cut to `_STR_MAX` with the last one whole.
unfoldable pub comment_of : List String → String → String
comment_of front total =
    let comment = join " | " (front ++ (total ∷ [])) in
    let allowed = str_max - text_length total - 3 in
    if leb (text_length comment) str_max
    then comment
    else if ltb 0 allowed
    then prefix allowed (join " | " front) <> (" | " <> total)
    else prefix str_max total

-- `int(os.getenv("DEFAULT_START_HOUR", "9"))` between 0 and 23.
unfoldable pub default_start_hour : Environ → Result MappingError ℕ
default_start_hour env =
    elim (parse_int (elim (env "DEFAULT_START_HOUR") [ none ↦ "9" | some raw ↦ raw ])) [
      | none ↦ err bad_default_hour
      | some (pos hour) ↦ if leb hour 23 then ok hour else err bad_default_hour
      | some (negsuc n) ↦ err bad_default_hour
    ]

-- The hour and the minute of a text that the validation has let pass.
validated : {A : Type 0} → Result EntryError A → Result MappingError A
validated (ok a) = ok a
validated (err e) = err bad_times

-- Where the entry stops, in minutes of its day.
unfoldable pub stop_of : ℕ → ℕ → Option ℕ → Result MappingError ℕ
stop_of units start none =
    if ltb (start + units * 15) 1440 then ok (start + units * 15) else err past_midnight
stop_of units start (some stop) =
    if leb stop start
    then err not_earlier
    else if stop - start == units * 15
    then ok stop
    else err not_matching

unfoldable pub attribute : (Value → String) → String → Value → List (String × String)
attribute repr name value = if truthy value then (name, to_text repr value) ∷ [] else []

-- The employee number, a text or an integer that is not blank.
employee_number : (Value → String) → Value → Result MappingError String
employee_number repr (str s) = if is_empty (strip s) then err employee_missing else ok (strip s)
employee_number repr (int n) = ok (strip (to_text repr (int n)))
employee_number repr (bool b) = ok (strip (to_text repr (bool b)))
employee_number repr null = err employee_missing
employee_number repr (real d) = err employee_missing
employee_number repr (arr vs) = err employee_missing
employee_number repr (obj fs) = err employee_missing

comment_parts : (Value → String) → Dict Value → List String
comment_parts repr entry =
    project_part repr (get_or_none "projectName" entry) (get_or_none "projectNo" entry)
    ++ labelled repr "Task: " (get_or_none "taskDetails" entry)
    ++ labelled repr "WO: " (get_or_none "workOrder" entry)

checked_units : Result EntryError ℕ → Result MappingError ℕ
checked_units (ok units) = ok units
checked_units (err e) = err (invalid_entry e)

-- `start_hour, start_minute`
start_of : ℕ → Option ℕ → ℕ
start_of hour none = hour * 60
start_of hour (some minutes) = minutes

module _ (repr : Value → String) (decimal : String → Option Decimal) (general : ℕ → String)
    (env : Environ) where
  -- `entry.get("expenditureType", default)`
  expenditure_type : Dict Value → Value
  expenditure_type entry = elim (lookup "expenditureType" entry) [
    | none ↦ str (elim (env "DEFAULT_EXPENDITURE_TYPE") [
      | none ↦ "Professional Services"
      | some name ↦ name
    ])
    | some value ↦ value
  ]

  -- The expenditure type goes with a project, and must be on the allowlist.
  expenditure_attribute : Dict Value → Result MappingError (List (String × String))
  unfolding expenditure_type
  expenditure_attribute entry =
      let type_name = to_text repr (expenditure_type entry) in
      if truthy (get_or_none "projectId" entry) && truthy (expenditure_type entry)
      then (if any (λ name. name == strip type_name)
            (configured_allowlist env expenditure_names expenditure_types)
          then ok (("PJC_EXPENDITURE_TYPE_NAME", type_name) ∷ [])
          else err expenditure_not_allowed)
      else ok []

  unfoldable pub map_entry_to_otl : Dict Value → Result MappingError Event
  unfolding employee_number comment_parts expenditure_attribute checked_units start_of validated
  map_entry_to_otl entry = do
    units ← checked_units (validate_timecard_entry repr decimal env false none entry)
    reporter ← employee_number repr (get_or_none "employeeNumber" entry)
    day ← validated (parse_date (get_or_none "date" entry))
    hour ← default_start_hour env
    start ← validated (parse_minutes "startTime" (get_or_none "startTime" entry))
    stop ← validated (parse_minutes "stopTime" (get_or_none "stopTime" entry))
    stop_time ← stop_of units (start_of hour start) stop
    expenditure ← expenditure_attribute entry
    ok (record {
      measure = units;
      reporter_id = reporter;
      day = day;
      start_time = start_of hour start;
      stop_time = stop_time;
      attributes =
          (("Comment", comment_of (comment_parts repr entry) ("Total Hours: " <> general units))
            ∷ [])
          ++ attribute repr "PayrollTimeType" (get_or_none "payrollTimeType" entry)
          ++ attribute repr "PJC_PROJECT_ID" (get_or_none "projectId" entry)
          ++ attribute repr "PJC_TASK_ID" (get_or_none "taskId" entry)
          ++ expenditure;
    })

-- Everything that a run computes with, for the tests.
unfoldable pub run_mapping : Unit {0}
unfolding map_entry_to_otl default_start_hour stop_of attribute comment_of project_part labelled
    prefix join parse_int parse_date parse_minutes run_entries truthy to_text get_or_none strip
    lookup
run_mapping = tt
