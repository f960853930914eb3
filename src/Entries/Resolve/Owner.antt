-- ===== src/Entries/Resolve/Owner.antt =====
-- In whose name a resolved entry is, and to which project.
use otl_voice.Prelude.{
  ◌≡◌, ◌⊎◌, inl, inr, Bool-cases, Option-cases, ap, refl, false, not, ◌&&◌, Option, none, some,
  List, [], ◌∷◌, String, arith, eq_refl, ◌∙◌, ◌==◌, string_eq,
}
use otl_voice.Prelude.Dict.{Dict, lookup, insert, lookup-insert}
use otl_voice.Prelude.Result.{ok, err}
use otl_voice.Python.Value.{Value, str, to_text, truthy, get_or_none}
use otl_voice.Entries.Entry.{normalize_entry}
use otl_voice.Entries.Assigned.{assigned_project}
use otl_voice.Entries.Resolve.{
  Context, project_or_none, source_of, not_iterable, tasks_in, find_task, set_task, with_owner,
  with_project, named_task, with_task, resolve_entry,
}

insert_same : (k : String) (v : Value) (d : Dict Value) → lookup k (insert k v d) ≡ some v
insert_same k v d = ground (arith, lookup-insert k k v d, eq_refl k)

insert_other :
    (k j : String) (v : Value) (d : Dict Value)
    → (k == j) ≡ false
    → lookup j (insert k v d) ≡ lookup j d
insert_other k j v d apart = ground (arith, lookup-insert k j v d)

module _ (repr : Value → String) (casefold : String → String) where
  set_task-keeps :
      (id : Option Value) (key : String) (resolved : Dict Value)
      → ("taskId" == key) ≡ false
      → lookup key (set_task repr casefold id resolved) ≡ lookup key resolved
  unfolding set_task
  set_task-keeps none key resolved apart = refl
  set_task-keeps (some id) key resolved apart = insert_other "taskId" key id resolved apart

  with_project-keeps :
      (source resolved : Dict Value) (key : String)
      → ("projectName" == key) ≡ false
      → ("workOrder" == key) ≡ false
      → ("projectNo" == key) ≡ false
      → ("projectId" == key) ≡ false
      → lookup key (with_project repr casefold source resolved) ≡ lookup key resolved
  unfolding with_project
  with_project-keeps source resolved key a b c d =
      insert_other "projectName" key (get_or_none "projectName" source)
        (insert "workOrder" (get_or_none "workOrder" source) (
          insert "projectNo" (get_or_none "projectNo" source)
            (insert "projectId" (get_or_none "projectId" source) resolved)))
        a
      ∙ insert_other "workOrder" key (get_or_none "workOrder" source)
          (insert "projectNo" (get_or_none "projectNo" source)
            (insert "projectId" (get_or_none "projectId" source) resolved))
          b
      ∙ insert_other "projectNo" key (get_or_none "projectNo" source)
          (insert "projectId" (get_or_none "projectId" source) resolved) c
      ∙ insert_other "projectId" key (get_or_none "projectId" source) resolved d

  with_project_fields :
      (source resolved : Dict Value)
      → let r = with_project repr casefold source resolved in
        (lookup "projectId" r ≡ some (get_or_none "projectId" source))
        × (lookup "projectNo" r ≡ some (get_or_none "projectNo" source))
        × (lookup "workOrder" r ≡ some (get_or_none "workOrder" source))
        × (lookup "projectName" r ≡ some (get_or_none "projectName" source))
  unfolding with_project
  with_project_fields source resolved =
      let r1 = insert "projectId" (get_or_none "projectId" source) resolved in
      let r2 = insert "projectNo" (get_or_none "projectNo" source) r1 in
      let r3 = insert "workOrder" (get_or_none "workOrder" source) r2 in
      let name = get_or_none "projectName" source in
      let order = get_or_none "workOrder" source in
      let number = get_or_none "projectNo" source in
      (
        insert_other "projectName" "projectId" name r3 refl
            ∙ insert_other "workOrder" "projectId" order r2 refl
            ∙ insert_other "projectNo" "projectId" number r1 refl
            ∙ insert_same "projectId" (get_or_none "projectId" source) resolved,
        insert_other "projectName" "projectNo" name r3 refl
            ∙ insert_other "workOrder" "projectNo" order r2 refl
            ∙ insert_same "projectNo" number r1,
        insert_other "projectName" "workOrder" name r3 refl ∙ insert_same "workOrder" order r2,
        insert_same "projectName" name r3,
      )

  with_owner_fields :
      (ctx : Context) (norm : Dict Value)
      → (lookup "employeeNumber" (with_owner repr casefold ctx norm) ≡ some (str ctx.employee_id))
        × (lookup "employeeName" (with_owner repr casefold ctx norm) ≡ some (str ctx.full_name))
  unfolding with_owner
  with_owner_fields ctx norm =
      let numbered = insert "employeeNumber" (str ctx.employee_id) norm in
      (
        insert_other "employeeName" "employeeNumber" (str ctx.full_name) numbered refl
            ∙ insert_same "employeeNumber" (str ctx.employee_id) norm,
        insert_same "employeeName" (str ctx.full_name) numbered,
      )

  named_task-keeps :
      (tasks : Option (List (Dict Value))) (key : String) (resolved final : Dict Value)
      → ("taskId" == key) ≡ false
      → named_task repr casefold resolved tasks ≡ ok final
      → lookup key final ≡ lookup key resolved
  unfolding named_task
  named_task-keeps none key resolved final apart h = cc
  named_task-keeps (some tasks) key resolved final apart h =
      let id =
        find_task repr casefold (casefold (to_text repr (get_or_none "taskDetails" resolved)))
          tasks in
      let same : set_task repr casefold id resolved ≡ final = ground (arith, h) in
      rw (← same) (set_task-keeps id key resolved apart)

  with_task-keeps :
      (project : Option (Dict Value)) (key : String) (resolved final : Dict Value)
      → ("taskId" == key) ≡ false
      → with_task repr casefold project resolved ≡ ok final
      → lookup key final ≡ lookup key resolved
  unfolding with_task
  with_task-keeps none key resolved final apart h = ap (lookup key) (ground (arith, h))
  with_task-keeps (some []) key resolved final apart h = ap (lookup key) (ground (arith, h))
  with_task-keeps (some (field ∷ fields)) key resolved final apart h = ground (
    arith,
    h,
    named_task-keeps (tasks_in (lookup "tasks" (field ∷ fields))) key resolved final apart,
  )

  -- The project's tasks cannot be iterated over.
  abbrev pub Taskless : Option (Dict Value) → Type 0
  Taskless none = ⊥
  Taskless (some project) = tasks_in (lookup "tasks" project) ≡ none

  with_task-cases :
      (project : Option (Dict Value)) (resolved : Dict Value)
      → ((final : Dict Value) × (with_task repr casefold project resolved ≡ ok final))
        ⊎ ((with_task repr casefold project resolved ≡ err not_iterable) × Taskless project)
  unfolding with_task named_task
  with_task-cases none resolved = inl (resolved, refl)
  with_task-cases (some []) resolved = inl (resolved, refl)
  with_task-cases (some (field ∷ fields)) resolved =
      let tasks = lookup "tasks" (field ∷ fields) in
      elim (Bool-cases (
        not (truthy (get_or_none "taskId" resolved))
        && truthy (get_or_none "taskDetails" resolved))) [
          | inr settled ↦ inl (resolved, rw settled refl)
          | inl wanted ↦ elim (Option-cases (tasks_in tasks)) [
            | inl broken ↦ inr (rw (wanted, broken) refl, broken)
            | inr (found, e) ↦ inl (
              set_task repr casefold
                  (find_task repr casefold
                    (casefold (to_text repr (get_or_none "taskDetails" resolved))) found)
                  resolved,
              rw (wanted, e) refl,
            )
          ]
        ]

  -- What a resolved entry has: the name of the employee, and the project and work order of `source`.
  pub record Owned (ctx : Context) (source resolved : Dict Value) : Type 0 where
    pub number : lookup "employeeNumber" resolved ≡ some (str ctx.employee_id)
    pub name : lookup "employeeName" resolved ≡ some (str ctx.full_name)
    pub id : lookup "projectId" resolved ≡ some (get_or_none "projectId" source)
    pub code : lookup "projectNo" resolved ≡ some (get_or_none "projectNo" source)
    pub order : lookup "workOrder" resolved ≡ some (get_or_none "workOrder" source)
    pub title : lookup "projectName" resolved ≡ some (get_or_none "projectName" source)

  -- An entry is resolved, unless the tasks of the project that was found are a value that cannot be
  -- iterated over. A resolved entry is in the name of the session's employee, whatever the entry says,
  -- and its project and work order are those of the project that was found among the assignments, or
  -- the entry's own if none was.
  pub resolve_entry-owner :
      (ctx : Context) (assignments : Option (List Value)) (entry : Dict Value)
      → let norm = normalize_entry entry in
        let project = project_or_none (assigned_project repr norm assignments) in
        ((resolved : Dict Value) × (resolve_entry repr casefold ctx assignments entry ≡ ok resolved)
          × Owned ctx (source_of project norm) resolved)
        ⊎ ((resolve_entry repr casefold ctx assignments entry ≡ err not_iterable)
            × Taskless project)
  unfolding resolve_entry
  resolve_entry-owner ctx assignments entry =
      let norm = normalize_entry entry in
      let project = project_or_none (assigned_project repr norm assignments) in
      let source = source_of project norm in
      let owned = with_owner repr casefold ctx norm in
      let placed = with_project repr casefold source owned in
      let (number, name) = with_owner_fields ctx norm in
      let (id, code, order, title) = with_project_fields source owned in
      elim (with_task-cases project placed) [
        | inr raised ↦ inr raised
        | inl (final, e) ↦ inl (
          final,
          e,
          record {
            number =
                with_task-keeps project "employeeNumber" placed final refl e
                ∙ with_project-keeps source owned "employeeNumber" refl refl refl refl
                ∙ number;
            name =
                with_task-keeps project "employeeName" placed final refl e
                ∙ with_project-keeps source owned "employeeName" refl refl refl refl
                ∙ name;
            id = with_task-keeps project "projectId" placed final refl e ∙ id;
            code = with_task-keeps project "projectNo" placed final refl e ∙ code;
            order = with_task-keeps project "workOrder" placed final refl e ∙ order;
            title = with_task-keeps project "projectName" placed final refl e ∙ title;
          },
        )
      ]
