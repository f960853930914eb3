-- ===== src/Entries/Extract.antt =====
-- `_extract_entries` and `_options_hint` of backend/services/timecard_entries.py. The search for a
-- fenced block and `json.loads` are parameters.
use Prim.Native.String.{◌++◌ as ◌<>◌}
use otl_voice.Prelude.{
  ◌-◌, ◌≤◌, Option, none, some, List, [], ◌∷◌, ◌++◌, String, arith, ◌==◌, nat_eq, map, take, length,
  ltb, if◌then◌else◌, Bool-cases, inl, inr,
}
use otl_voice.Prelude.Dict.{Dict}
use otl_voice.Prelude.Result.{Result, ok, err}
use otl_voice.Python.Append.{text_length-append}
use otl_voice.Python.Number.{nat_text}
use otl_voice.Python.Split.{join}
use otl_voice.Python.Text.{strip, is_empty, text_length, prefix, text_length-prefix}
use otl_voice.Python.Value.{
  Value, null, bool, int, real, str, arr, obj, dict_of, list_of, get_or_none, to_text,
}
use otl_voice.Entries.Entry.{normalize_entry}
use otl_voice.Entries.Assigned.{dicts, dicts_in}

-- `raise ValueError`
pub data MalformedJson : Type 0 where
  malformed_json : MalformedJson

normalized : List Value → List (Dict Value)
normalized values = map normalize_entry (dicts values)

listed : Value → Option (List (Dict Value))
unfolding normalized
listed (arr values) = some (normalized (list_of values))
listed null = none
listed (bool b) = none
listed (int n) = none
listed (real d) = none
listed (str s) = none
listed (obj fields) = none

-- The entries of a document: the document is a list of them, or a dictionary that has one.
unfoldable pub entries_in : Value → Option (List (Dict Value))
unfolding listed
entries_in (arr values) = listed (arr values)
entries_in (obj fields) = listed (get_or_none "entries" (dict_of fields))
entries_in null = none
entries_in (bool b) = none
entries_in (int n) = none
entries_in (real d) = none
entries_in (str s) = none

module _ (fenced : String → Option String) (loads : String → Option Value) where
  -- The whole message, if it is JSON.
  unfenced : String → List (Dict Value)
  unfenced message = elim (loads (strip message)) [
    | none ↦ []
    | some data_ ↦ elim (entries_in data_) [ none ↦ [] | some entries ↦ entries ]
  ]

  in_fence : String → Option Value → Result MalformedJson (List (Dict Value))
  unfolding unfenced
  in_fence message none = err malformed_json
  in_fence message (some data_) = elim (entries_in data_) [
    | none ↦ ok (unfenced message)
    | some entries ↦ ok entries
  ]

  -- `_extract_entries`
  unfoldable pub extract_entries : String → Result MalformedJson (List (Dict Value))
  unfolding in_fence unfenced
  extract_entries message = if is_empty message then ok [] else elim (fenced message) [
    | none ↦ ok (unfenced message)
    | some inner ↦ in_fence message (loads inner)
  ]

module _ (repr : Value → String) where
  -- `f"{p.get('projectNo')} ({p.get('projectName')}, WO {order.get('workOrder')})"`
  project_text : Dict Value → Dict Value → String
  project_text order project =
      to_text repr (get_or_none "projectNo" project)
      <> (" ("
          <> (to_text repr (get_or_none "projectName" project)
              <> (", WO " <> (to_text repr (get_or_none "workOrder" order) <> ")"))))

  -- The projects of the work orders, in order; `projects` that are no list count as none.
  project_texts : List (Dict Value) → List String
  unfolding project_text
  project_texts [] = []
  project_texts (order ∷ orders) =
      map (project_text order) (dicts_in (get_or_none "projects" order)) ++ project_texts orders

  shortened : String → String
  shortened hint = if ltb 500 (text_length hint) then prefix 497 hint <> "..." else hint

  -- The first ten projects, and how many there are beside them.
  counted : List String → String
  counted projects =
      let hint = "Assigned projects: " <> (join "; " (take 10 projects) <> ".") in
      if ltb 10 (length projects)
      then hint <> (" ... and " <> (nat_text (length projects - 10) <> " more."))
      else hint

  -- `_options_hint`
  unfoldable pub options_hint : List (Dict Value) → String
  unfolding project_texts counted shortened
  options_hint assignments =
      let projects = project_texts assignments in
      if length projects == 0
      then "You have no project assignments."
      else shortened (counted projects)

  shortened-le : (hint : String) → text_length (shortened hint) ≤ 500
  unfolding shortened
  shortened-le hint = elim (Bool-cases (ltb 500 (text_length hint))) [
    | inl long ↦
        rw long
          (omega (arith, text_length-append (prefix 497 hint) "...", text_length-prefix 497 hint))
    | inr short ↦ rw short (ground (arith, short))
  ]

  -- The hint has at most 500 characters, however many projects there are and however long their names.
  pub options_hint-le :
      (assignments : List (Dict Value)) → text_length (options_hint assignments) ≤ 500
  unfolding options_hint
  options_hint-le assignments = elim (Bool-cases (length (project_texts assignments) == 0)) [
    | inl lost ↦ rw lost (omega arith)
    | inr found ↦ rw found (shortened-le (counted (project_texts assignments)))
  ]
