-- ===== src/Entries/Assigned.antt =====
-- `_text_value` and `_assigned_project` of backend/services/timecard_entries.py: the assigned project
-- that an entry names. A project that is not a dictionary, an order without a list of projects and a
-- list of tasks that is none count as nothing.
use otl_voice.Prelude.{
  ◌≡◌, ◌⊎◌, Bool, true, false, not, ◌&&◌, Option, none, some, List, [], ◌∷◌, ◌++◌, String, arith,
  any, map, keep_if, eq_iff, ◌==◌, string_eq, ap, sym, if◌then◌else◌,
}
use otl_voice.Prelude.Dict.{Dict, insert}
use otl_voice.Prelude.Result.{Result, ok, err}
use otl_voice.Python.Text.{strip, is_empty}
use otl_voice.Python.Value.{
  Value, null, bool, int, real, str, arr, obj, list_of, dict_of, to_text, get_or_none,
}
use otl_voice.Entries.Entry.{EntryError, not_assigned, ambiguous, name_differs, work_order_differs}

-- The dictionaries of a list, and nothing of another value.
unfoldable pub dicts : List Value → List (Dict Value)
dicts [] = []
dicts (obj fields ∷ vs) = dict_of fields ∷ dicts vs
dicts (null ∷ vs) = dicts vs
dicts (bool b ∷ vs) = dicts vs
dicts (int n ∷ vs) = dicts vs
dicts (real d ∷ vs) = dicts vs
dicts (str s ∷ vs) = dicts vs
dicts (arr ws ∷ vs) = dicts vs

unfoldable pub dicts_in : Value → List (Dict Value)
dicts_in (arr vs) = dicts (list_of vs)
dicts_in null = []
dicts_in (bool b) = []
dicts_in (int n) = []
dicts_in (real d) = []
dicts_in (str s) = []
dicts_in (obj fields) = []

module _ (repr : Value → String) where
  -- `_text_value`; `""` for `None`
  unfoldable pub text_value : Value → String
  text_value null = ""
  text_value (bool b) = strip (to_text repr (bool b))
  text_value (int n) = strip (to_text repr (int n))
  text_value (real d) = strip (to_text repr (real d))
  text_value (str s) = strip s
  text_value (arr vs) = strip (to_text repr (arr vs))
  text_value (obj fields) = strip (to_text repr (obj fields))

  abbrev pub text_at : String → Dict Value → String
  text_at key d = text_value (get_or_none key d)

  -- An entry names a project by its number if it has one, and by its name otherwise.
  unfoldable pub is_named : Dict Value → Dict Value → Bool
  is_named entry project =
      if not (is_empty (text_at "projectNo" entry))
      then text_at "projectNo" project == text_at "projectNo" entry
      else not (is_empty (text_at "projectName" entry))
        && text_at "projectName" project == text_at "projectName" entry

  -- `{**project, "workOrder": order.get("workOrder")}` for the projects of an order that are named.
  unfoldable pub matches_in : Dict Value → Dict Value → List (Dict Value)
  matches_in entry order =
      map (insert "workOrder" (get_or_none "workOrder" order))
        (keep_if (is_named entry) (dicts_in (get_or_none "projects" order)))

  unfoldable pub matches_of : Dict Value → List (Dict Value) → List (Dict Value)
  matches_of entry [] = []
  matches_of entry (order ∷ orders) = matches_in entry order ++ matches_of entry orders

  unfoldable pub same_identity : Dict Value → Dict Value → Bool
  same_identity a b =
      text_at "projectId" a == text_at "projectId" b
      && text_at "projectNo" a == text_at "projectNo" b
      && text_at "projectName" a == text_at "projectName" b
      && text_at "workOrder" a == text_at "workOrder" b

  -- The checks on the first match, when all the matches have one identity.
  unfoldable pub accept_match : Dict Value → Dict Value → Result EntryError (Option (Dict Value))
  accept_match entry selected =
      if not (is_empty (text_at "projectName" entry))
        && not (text_at "projectName" selected == text_at "projectName" entry)
      then err name_differs
      else if not (is_empty (text_at "workOrder" entry))
          && not (text_at "workOrder" selected == text_at "workOrder" entry)
      then err work_order_differs
      else ok (some selected)

  unfoldable pub select : Dict Value → List (Dict Value) → Result EntryError (Option (Dict Value))
  unfolding same_identity accept_match
  select entry [] = err not_assigned
  select entry (selected ∷ others) =
      if any (λ other. not (same_identity selected other)) others
      then err ambiguous
      else accept_match entry selected

  unfoldable pub assigned_project :
      Dict Value → Option (List Value) → Result EntryError (Option (Dict Value))
  assigned_project entry none = ok none
  assigned_project entry (some assignments) = select entry (matches_of entry (dicts assignments))

  -- The name and the work order of an entry, where it has them, are those of the project.
  abbrev pub Agrees : String → Dict Value → Dict Value → Type 0
  Agrees key entry project =
      (is_empty (text_at key entry) ≡ true) ⊎ (text_at key project ≡ text_at key entry)

  accept_match-Agrees :
      (entry selected project : Dict Value)
      → accept_match entry selected ≡ ok (some project)
      → (selected ≡ project) × Agrees "projectName" entry project × Agrees "workOrder" entry project
  unfolding accept_match
  accept_match-Agrees entry selected project h =
      let name = eq_iff (text_at "projectName" selected) (text_at "projectName" entry) in
      let order = eq_iff (text_at "workOrder" selected) (text_at "workOrder" entry) in
      (ground arith, ground (arith, name), ground (arith, order))

  select-Agrees :
      (entry project : Dict Value) (found : List (Dict Value))
      → select entry found ≡ ok (some project)
      → (others : List (Dict Value)) × (found ≡ project ∷ others)
        × (any (λ other. not (same_identity project other)) others ≡ false)
        × Agrees "projectName" entry project
        × Agrees "workOrder" entry project
  unfolding select
  select-Agrees entry project [] h = cc
  select-Agrees entry project (selected ∷ others) h =
      let alone : any (λ other. not (same_identity selected other)) others ≡ false = ground arith in
      let accepted : accept_match entry selected ≡ ok (some project) = ground (arith, alone) in
      let (same, name, order) = accept_match-Agrees entry selected project accepted in
      (others, ap (λ p. p ∷ others) same, rw (sym same) alone, name, order)

  -- A project that is found for an entry is the first match among the assignments; every match has
  -- its identity, and its name and work order are those of the entry, where that has them.
  pub assigned_project-Agrees :
      (entry project : Dict Value) (assignments : List Value)
      → assigned_project entry (some assignments) ≡ ok (some project)
      → (others : List (Dict Value)) × (matches_of entry (dicts assignments) ≡ project ∷ others)
        × (any (λ other. not (same_identity project other)) others ≡ false)
        × Agrees "projectName" entry project
        × Agrees "workOrder" entry project
  unfolding assigned_project
  assigned_project-Agrees entry project assignments h =
      select-Agrees entry project (matches_of entry (dicts assignments)) h
