-- ===== src/Entries/Entry.antt =====
-- An entry as it arrives, and why it is refused: `_normalize_entry` and the messages of
-- backend/services/timecard_entries.py.
use otl_voice.Prelude.{
  ◌≡◌, none, some, List, [], ◌∷◌, String, arith, eq_iff, string_eq, Option-cases, inl, inr,
}
use otl_voice.Prelude.Dict.{Dict, lookup, insert, lookup-insert}
use otl_voice.Python.Value.{Value}
use otl_voice.Idempotency.Key.{KeyError}

-- One constructor for each message; the texts with a field or a limit in them name the field.
pub data EntryError : Type 0 where
  hours_missing hours_not_positive hours_not_quarter hours_over_limit : EntryError
  key_refused : KeyError → EntryError
  date_not_text date_empty date_format date_value : EntryError
  time_not_text time_empty time_format time_value : String → EntryError
  stop_without_start not_earlier not_matching : EntryError
  not_a_name not_allowed : String → EntryError
  project_missing task_missing : EntryError
  not_assigned ambiguous name_differs work_order_differs task_not_assigned : EntryError
  day_over_limit : EntryError

abbrev pub aliases : List (String × String)
aliases =
    ("project_number", "projectNo")
    ∷ ("project_name", "projectName")
    ∷ ("task_name", "taskDetails")
    ∷ ("work_order_number", "workOrder")
    ∷ ("person_number", "employeeNumber")
    ∷ ("employee_name", "employeeName")
    ∷ ("request_id", "requestId")
    ∷ ("idempotency_key", "idempotencyKey")
    ∷ []

-- One round of the loop over `aliases`.
unfoldable pub apply_alias : String → String → Dict Value → Dict Value
apply_alias source target norm = elim (lookup source norm) [
  | none ↦ norm
  | some value ↦ elim (lookup target norm) [ none ↦ insert target value norm | some _ ↦ norm ]
]

unfoldable pub apply_aliases : List (String × String) → Dict Value → Dict Value
apply_aliases [] norm = norm
apply_aliases ((source, target) ∷ rest) norm = apply_aliases rest (apply_alias source target norm)

unfoldable pub normalize_entry : Dict Value → Dict Value
normalize_entry entry = apply_aliases aliases entry

apply_alias-keeps :
    (source target key : String) (norm : Dict Value) (value : Value)
    → lookup key norm ≡ some value
    → lookup key (apply_alias source target norm) ≡ some value
unfolding apply_alias
apply_alias-keeps source target key norm value h = elim (Option-cases (lookup source norm)) [
  | inl absent ↦ ground (arith, h, absent)
  | inr (v, e) ↦ ground (arith, h, e, eq_iff target key, lookup-insert target key v norm)
]

apply_aliases-keeps :
    (names : List (String × String)) (key : String) (norm : Dict Value) (value : Value)
    → lookup key norm ≡ some value
    → lookup key (apply_aliases names norm) ≡ some value
unfolding apply_aliases
apply_aliases-keeps [] key norm value h = h
apply_aliases-keeps ((source, target) ∷ rest) key norm value h =
    apply_aliases-keeps rest key (apply_alias source target norm) value
      (apply_alias-keeps source target key norm value h)

-- An alias never replaces a field that the entry has.
pub normalize_entry-keeps :
    (key : String) (entry : Dict Value) (value : Value)
    → lookup key entry ≡ some value
    → lookup key (normalize_entry entry) ≡ some value
unfolding normalize_entry
normalize_entry-keeps key entry value h = apply_aliases-keeps aliases key entry value h
