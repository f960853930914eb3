-- ===== src/Entries/Validate.antt =====
-- `_validate_timecard_entry` and `_validate_timecard_entries` of
-- backend/services/timecard_entries.py, with the allowlists of the environment. Hours are counted in
-- quarters; `_strict_assignment` is true whatever the environment says.
use otl_voice.Prelude.{
  ℕ, ◌+◌, Bool, true, not, ◌&&◌, ◌||◌, Option, none, some, List, [], ◌∷◌, String, any, map, keep_if,
  ◌==◌, string_eq, if◌then◌else◌,
}
use otl_voice.Prelude.Dict.{Dict, lookup, insert}
use otl_voice.Prelude.Result.{Result, ok, err, ◌>>=◌}
use otl_voice.Python.Text.{strip, is_empty}
use otl_voice.Python.Split.{split}
use otl_voice.Python.Value.{
  Value, Decimal, null, bool, int, real, str, arr, obj, get_or_none, to_text, dict_of, list_of,
}
use otl_voice.Config.{Environ}
use otl_voice.Idempotency.Key.{idempotency_key_for_entry, run_key}
use otl_voice.Entries.Entry.{
  EntryError, key_refused, not_a_name, not_allowed, project_missing, task_missing, not_assigned,
  task_not_assigned, day_over_limit, normalize_entry, apply_aliases, apply_alias,
}
use otl_voice.Entries.Hours.{
  entry_hours, exceeds, configured_limit, check_hours, positive_number, limit_or_default,
}
use otl_voice.Entries.Times.{parse_date, validate_times, parse_minutes}
use otl_voice.Entries.Assigned.{
  dicts_in, text_at, assigned_project, dicts, select, accept_match, same_identity, matches_of,
  matches_in, is_named, text_value,
}

abbrev first_set : Environ → List String → Option String
first_set env [] = none
first_set env (name ∷ names) = elim (env name) [
  | none ↦ first_set env names
  | some value ↦ some value
]

unfoldable pub configured_allowlist : Environ → List String → List String → List String
configured_allowlist env names defaults =
    let values : List String = elim (first_set env names) [
      | none ↦ defaults
      | some raw ↦ split b',' raw
    ] in
    keep_if (λ value. not (is_empty value)) (map strip values)

check_allowed : String → List String → Value → Result EntryError Unit
check_allowed field allowed (str s) =
    if is_empty (strip s)
    then err (not_a_name field)
    else if any (λ value. value == strip s) allowed
    then ok tt
    else err (not_allowed field)
check_allowed field allowed null = err (not_a_name field)
check_allowed field allowed (bool b) = err (not_a_name field)
check_allowed field allowed (int n) = err (not_a_name field)
check_allowed field allowed (real d) = err (not_a_name field)
check_allowed field allowed (arr vs) = err (not_a_name field)
check_allowed field allowed (obj fs) = err (not_a_name field)

unfoldable pub validate_allowlisted_value :
    Environ → Dict Value → String → List String → List String → Result EntryError Unit
unfolding check_allowed
validate_allowlisted_value env entry field names defaults = elim (lookup field entry) [
  | none ↦ ok tt
  | some value ↦ check_allowed field (configured_allowlist env names defaults) value
]

abbrev payroll_time_types : List String
payroll_time_types =
    "Regular" ∷ "Overtime" ∷ "Extended Day Overtime" ∷ "Shift Differential" ∷ "Holiday" ∷ "Sick"
    ∷ "Vacation" ∷ "Unpaid Leave" ∷ []

abbrev pub expenditure_types : List String
expenditure_types = "Professional Services" ∷ "Regular Time" ∷ "Dev" ∷ []

-- The variables that may hold the allowlist of expenditure types.
abbrev pub expenditure_names : List String
expenditure_names =
    "OTL_ALLOWED_EXPENDITURE_TYPES" ∷ "ALLOWED_EXPENDITURE_TYPES" ∷ "EXPENDITURE_TYPE_ALLOWLIST"
    ∷ []

unfoldable pub validate_payroll_values : Environ → Dict Value → Result EntryError Unit
validate_payroll_values env entry =
    validate_allowlisted_value env entry "payrollTimeType"
      ("OTL_ALLOWED_PAYROLL_TIME_TYPES" ∷ "ALLOWED_PAYROLL_TIME_TYPES"
        ∷ "PAYROLL_TIME_TYPE_ALLOWLIST" ∷ [])
      payroll_time_types
    >>= (λ checked.
        validate_allowlisted_value env entry "expenditureType" expenditure_names expenditure_types)

unfoldable pub entry_idempotency_error : Dict Value → Result EntryError Unit
entry_idempotency_error entry = elim (idempotency_key_for_entry entry none) [
  | ok key ↦ ok tt
  | err e ↦ err (key_refused e)
]

abbrev pub total_of : Option ℕ → ℕ
total_of none = 0
total_of (some total) = total

module _ (repr : Value → String) where
  -- A project and a task must be named.
  unfoldable pub check_named : Dict Value → Result EntryError Unit
  check_named entry =
      if is_empty (text_at repr "projectNo" entry)
        && is_empty (text_at repr "projectName" entry)
        && is_empty (text_at repr "projectId" entry)
      then err project_missing
      else if is_empty (text_at repr "taskDetails" entry)
      then err task_missing
      else ok tt

  -- A task that is named by its id is one of the project's.
  unfoldable pub check_task : Dict Value → Dict Value → Result EntryError Unit
  check_task entry project =
      let id = text_at repr "taskId" entry in
      if is_empty id
        || any (λ task. text_at repr "taskId" task == id) (dicts_in (get_or_none "tasks" project))
      then ok tt
      else err task_not_assigned

  unfoldable pub check_assignment : Dict Value → Option (List Value) → Result EntryError Unit
  unfolding check_task
  check_assignment entry none = ok tt
  check_assignment entry (some assignments) =
      assigned_project repr entry (some assignments) >>= (λ selected. elim selected [
        | none ↦ err not_assigned
        | some project ↦ check_task entry project
      ])

  -- The day that the hours of a normalised entry count for.
  abbrev pub day_of : Dict Value → String
  day_of entry = let day = text_at repr "date" entry in if is_empty day then "__undated__" else day

module _ (repr : Value → String) (decimal : String → Option Decimal) (env : Environ) where
  -- The checks on a normalised entry. It passes with its hours, which the caller of the code computes
  -- once more.
  unfoldable pub check_entry : Bool → Option (List Value) → Dict Value → Result EntryError ℕ
  check_entry require_assignment assignments entry =
      entry_hours repr decimal env entry >>= (λ units.
        entry_idempotency_error entry >>= (λ key_checked.
          parse_date (get_or_none "date" entry) >>= (λ date_checked.
            validate_times entry units >>= (λ times_checked.
              validate_payroll_values env entry >>= (λ values_checked.
                (if require_assignment then check_named repr entry else ok tt) >>= (λ named.
                  check_assignment repr entry assignments >>= (λ assigned. ok units)))))))

  unfoldable pub validate_timecard_entry :
      Bool → Option (List Value) → Dict Value → Result EntryError ℕ
  validate_timecard_entry require_assignment assignments entry =
      check_entry require_assignment assignments (normalize_entry entry)

  -- The loop from an entry on, with the quarters counted for each day so far; an error comes with the
  -- number of its entry.
  unfoldable pub validate_from :
      Option (List Value) → Decimal → ℕ → Dict ℕ → List (Dict Value) → Result (ℕ × EntryError) Unit
  validate_from assignments limit index totals [] = ok tt
  validate_from assignments limit index totals (entry ∷ entries) =
      elim (validate_timecard_entry true assignments entry) [
        | err e ↦ err (index + 1, e)
        | ok units ↦
            let day = day_of repr (normalize_entry entry) in
            let total = total_of (lookup day totals) + units in
            let rest =
              validate_from assignments limit (index + 1) (insert day total totals) entries in
            if exceeds total limit then err (index + 1, day_over_limit) else rest
      ]

  unfoldable pub validate_timecard_entries :
      Option (List Value) → List (Dict Value) → Result (ℕ × EntryError) Unit
  validate_timecard_entries assignments entries =
      validate_from assignments (configured_limit repr decimal env "MAX_TIMECARD_HOURS_PER_DAY") 0
        [] entries

-- Everything that a run computes with, for the tests.
unfoldable pub run_entries : Unit {0}
unfolding validate_timecard_entries validate_from validate_timecard_entry check_entry check_named
    check_assignment check_task entry_idempotency_error validate_payroll_values
    validate_allowlisted_value configured_allowlist check_hours entry_hours configured_limit
    positive_number limit_or_default exceeds parse_date validate_times parse_minutes
    assigned_project select accept_match same_identity matches_of matches_in is_named text_value
    dicts dicts_in normalize_entry apply_aliases apply_alias to_text get_or_none insert split strip
    run_key dict_of list_of
run_entries = tt
