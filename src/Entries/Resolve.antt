-- ===== src/Entries/Resolve.antt =====
-- `_resolve_entry` of backend/services/timecard_entries.py: what is submitted for an entry, in whose
-- name and to which project. `casefold` is the method of `str`.
pub mod Owner
use otl_voice.Prelude.{
  ◌≡◌, ◌⊎◌, inl, inr, Bool-cases, ap, refl, true, false, not, ◌&&◌, Option, none, some, List, [],
  ◌∷◌, String, arith, eq_refl, ◌∙◌, ◌==◌, string_eq, if◌then◌else◌,
}
use otl_voice.Prelude.Dict.{Dict, lookup, insert, lookup-insert}
use otl_voice.Prelude.Result.{Result, ok, err}
use otl_voice.Python.Value.{
  list_of, null, bool, int, real, arr, obj, Value, str, to_text, truthy, get_or_none,
}
use otl_voice.Entries.Entry.{EntryError, normalize_entry}
use otl_voice.Entries.Assigned.{dicts, assigned_project}

-- Of the session, what an entry is resolved with.
pub record Context : Type 0 where
  pub employee_id : String
  pub full_name : String

-- The project of `_assigned_project`, without its error.
abbrev pub project_or_none : Result EntryError (Option (Dict Value)) → Option (Dict Value)
project_or_none (ok project) = project
project_or_none (err e) = none

-- `project if project else norm`, where the fields of the project are taken from; an empty project
-- does not count.
abbrev pub source_of : Option (Dict Value) → Dict Value → Dict Value
source_of none norm = norm
source_of (some []) norm = norm
source_of (some (field ∷ fields)) norm = field ∷ fields

-- The name of a task, or `""` if it has none.
abbrev name_of : Option Value → Value
name_of none = str ""
name_of (some v) = v

-- The `TypeError` of a loop over a value that cannot be iterated over.
pub data NotIterable : Type 0 where
  not_iterable : NotIterable

-- The dictionaries that the loop over `project.get("tasks", [])` meets; `none` is its `TypeError`. The
-- elements of a text and of a dictionary are texts.
unfoldable pub tasks_in : Option Value → Option (List (Dict Value))
tasks_in none = some []
tasks_in (some (arr tasks)) = some (dicts (list_of tasks))
tasks_in (some (str s)) = some []
tasks_in (some (obj fields)) = some []
tasks_in (some null) = none
tasks_in (some (bool b)) = none
tasks_in (some (int n)) = none
tasks_in (some (real d)) = none

module _ (repr : Value → String) (casefold : String → String) where
  -- The `taskId` of the first task with the name.
  find_task : String → List (Dict Value) → Option Value
  find_task target [] = none
  find_task target (task ∷ tasks) =
      if casefold (to_text repr (name_of (lookup "taskDetails" task))) == target
      then some (get_or_none "taskId" task)
      else find_task target tasks

  unfoldable pub with_owner : Context → Dict Value → Dict Value
  with_owner ctx norm =
      insert "employeeName" (str ctx.full_name) (insert "employeeNumber" (str ctx.employee_id) norm)

  unfoldable pub with_project : Dict Value → Dict Value → Dict Value
  with_project source resolved = insert "projectName" (get_or_none "projectName" source) (
      insert "workOrder" (get_or_none "workOrder" source) (
        insert "projectNo" (get_or_none "projectNo" source)
          (insert "projectId" (get_or_none "projectId" source) resolved)))

  set_task : Option Value → Dict Value → Dict Value
  set_task none resolved = resolved
  set_task (some id) resolved = insert "taskId" id resolved

  -- The `taskId` of a task with the name, if a task has it.
  named_task : Dict Value → Option (List (Dict Value)) → Result NotIterable (Dict Value)
  unfolding find_task set_task
  named_task resolved none = err not_iterable
  named_task resolved (some tasks) = ok (
      set_task (find_task (casefold (to_text repr (get_or_none "taskDetails" resolved))) tasks)
        resolved)

  unfoldable pub with_task : Option (Dict Value) → Dict Value → Result NotIterable (Dict Value)
  unfolding named_task tasks_in
  with_task none resolved = ok resolved
  with_task (some []) resolved = ok resolved
  with_task (some (field ∷ fields)) resolved =
      if not (truthy (get_or_none "taskId" resolved)) && truthy (get_or_none "taskDetails" resolved)
      then named_task resolved (tasks_in (lookup "tasks" (field ∷ fields)))
      else ok resolved

  unfoldable pub resolve_entry :
      Context → Option (List Value) → Dict Value → Result NotIterable (Dict Value)
  resolve_entry ctx assignments entry =
      let norm = normalize_entry entry in
      let project = project_or_none (assigned_project repr norm assignments) in
      with_task project (with_project (source_of project norm) (with_owner ctx norm))
