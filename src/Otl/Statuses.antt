-- ===== src/Otl/Statuses.antt =====
-- `_time_status_value` and `propagate_timecard_statuses` of backend/services/otl_client.py: the status
-- that an entry and its events show. The dictionaries that the code changes in place are returned.
pub mod Shown
use otl_voice.Prelude.{
  ◌≡◌, refl, sym, ◌∙◌, Bool, true, false, not, ◌&&◌, ◌||◌, Option, none, some, List, [], ◌∷◌,
  String, arith, All, ap, ◌==◌, string_eq, if◌then◌else◌, Bool-cases, inl, inr, eq_iff,
}
use otl_voice.Prelude.Dict.{Dict, lookup, insert, lookup-insert}
use otl_voice.Python.Text.{is_empty}
use otl_voice.Python.Value.{
  Value, Elements, Members, null, bool, int, real, str, arr, obj, no_elements, element, no_members,
  member, list_of, dict_of, truthy, to_text, get_or_none,
}

unfoldable pub elements_of : List Value → Elements
elements_of [] = no_elements
elements_of (v ∷ vs) = element v (elements_of vs)

unfoldable pub members_of : Dict Value → Members
members_of [] = no_members
members_of ((k, v) ∷ rest) = member k v (members_of rest)

-- `bool(status)` of an optional text
abbrev pub has_text : Option String → Bool
has_text none = false
has_text (some text) = not (is_empty text)

-- `value not in (None, "")`
is_set : Value → Bool
is_set null = false
is_set (str s) = not (is_empty s)
is_set (bool b) = true
is_set (int n) = true
is_set (real d) = true
is_set (arr vs) = true
is_set (obj fs) = true

non_empty : String → Option String
non_empty s = if is_empty s then none else some s

module _ (repr : Value → String) where
  first_set : List String → Dict Value → Option String
  unfolding is_set
  first_set [] status = none
  first_set (key ∷ keys) status =
      let value = get_or_none key status in
      if is_set value then some (to_text repr value) else first_set keys status

  -- The status that an element of the list gives, if it gives one.
  status_of : Value → Option String
  unfolding first_set non_empty
  status_of (str s) = non_empty s
  status_of (obj fields) =
      first_set ("displayValue" ∷ "statusName" ∷ "statusCode" ∷ "name" ∷ []) (dict_of fields)
  status_of null = none
  status_of (bool b) = none
  status_of (int n) = none
  status_of (real d) = none
  status_of (arr vs) = none

  first_status : List Value → Option String
  unfolding status_of
  first_status [] = none
  first_status (status ∷ statuses) = elim (status_of status) [
    | none ↦ first_status statuses
    | some text ↦ some text
  ]

  -- The function behind its test for a dictionary.
  listed_status : Value → Option String
  unfolding first_status non_empty
  listed_status (str s) = non_empty s
  listed_status (arr statuses) = first_status (list_of statuses)
  listed_status null = none
  listed_status (bool b) = none
  listed_status (int n) = none
  listed_status (real d) = none
  listed_status (obj fields) = none

  items_or_self : Members → Option Value → Value
  items_or_self fields none = arr (element (obj fields) no_elements)
  items_or_self fields (some items) = items

  unfoldable pub time_status_value : Value → Option String
  unfolding listed_status items_or_self
  time_status_value (obj fields) =
      listed_status (items_or_self fields (lookup "items" (dict_of fields)))
  time_status_value (str s) = listed_status (str s)
  time_status_value (arr statuses) = listed_status (arr statuses)
  time_status_value null = none
  time_status_value (bool b) = none
  time_status_value (int n) = none
  time_status_value (real d) = none

  -- The status of an item or an event by itself.
  unfoldable pub own_status : Dict Value → Option String
  unfolding time_status_value
  own_status fields =
      let status = time_status_value (get_or_none "timeStatuses" fields) in
      let event_status = get_or_none "eventStatus" fields in
      if not (has_text status) && truthy event_status
      then some (to_text repr event_status)
      else status

-- `status or other`
abbrev pub status_or : Option String → Option String → Option String
status_or status other =
    if has_text status then status else if has_text other then other else status

-- `eventStatus` is set where there is a status and it shows none.
abbrev pub set_status : Option String → Dict Value → Dict Value
set_status none fields = fields
set_status (some status) fields =
    if not (is_empty status) && not (truthy (get_or_none "eventStatus" fields))
    then insert "eventStatus" (str status) fields
    else fields

-- `item[key] = value`, where there is a value
replaced : String → Option Value → Dict Value → Dict Value
replaced key none fields = fields
replaced key (some value) fields = insert key value fields

module _ (repr : Value → String) where
  -- One round of the loop over the events: the event, and the status of the item.
  event_step : Option String → Value → Value × Option String
  unfolding own_status
  event_step item_status (obj fields) =
      let event = dict_of fields in
      let status = status_or (own_status repr event) item_status in
      (obj (members_of (set_status status event)), status_or item_status status)
  event_step item_status null = (null, item_status)
  event_step item_status (bool b) = (bool b, item_status)
  event_step item_status (int n) = (int n, item_status)
  event_step item_status (real d) = (real d, item_status)
  event_step item_status (str s) = (str s, item_status)
  event_step item_status (arr vs) = (arr vs, item_status)

  events_from : Option String → List Value → List Value × Option String
  unfolding event_step
  events_from item_status [] = ([], item_status)
  events_from item_status (event ∷ events) =
      let (event_now, status) = event_step item_status event in
      let (events_now, final) = events_from status events in (event_now ∷ events_now, final)

  events_in : Option String → Option Value → Option Value × Option String
  unfolding events_from
  events_in item_status none = (none, item_status)
  events_in item_status (some (arr events)) =
      let (events_now, status) = events_from item_status (list_of events) in
      (some (arr (elements_of events_now)), status)
  events_in item_status (some null) = (some null, item_status)
  events_in item_status (some (bool b)) = (some (bool b), item_status)
  events_in item_status (some (int n)) = (some (int n), item_status)
  events_in item_status (some (real d)) = (some (real d), item_status)
  events_in item_status (some (str s)) = (some (str s), item_status)
  events_in item_status (some (obj fields)) = (some (obj fields), item_status)

  -- The events of an item, a list or a dictionary that has one under `items`.
  item_events : Option String → Option Value → Option Value × Option String
  unfolding events_in replaced
  item_events item_status (some (obj fields)) =
      let holder = dict_of fields in
      let (events, status) = events_in item_status (lookup "items" holder) in
      (some (obj (members_of (replaced "items" events holder))), status)
  item_events item_status none = (none, item_status)
  item_events item_status (some (arr events)) = events_in item_status (some (arr events))
  item_events item_status (some null) = (some null, item_status)
  item_events item_status (some (bool b)) = (some (bool b), item_status)
  item_events item_status (some (int n)) = (some (int n), item_status)
  item_events item_status (some (real d)) = (some (real d), item_status)
  item_events item_status (some (str s)) = (some (str s), item_status)

  unfoldable pub propagate_item : Dict Value → Dict Value
  unfolding item_events replaced
  propagate_item item =
      let (events, status) = item_events (own_status repr item) (lookup "timeRecordEvent" item) in
      set_status status (replaced "timeRecordEvent" events item)

  propagate_value : Value → Value
  unfolding propagate_item
  propagate_value (obj fields) = obj (members_of (propagate_item (dict_of fields)))
  propagate_value null = null
  propagate_value (bool b) = bool b
  propagate_value (int n) = int n
  propagate_value (real d) = real d
  propagate_value (str s) = str s
  propagate_value (arr vs) = arr vs

  propagate_items : List Value → List Value
  unfolding propagate_value
  propagate_items [] = []
  propagate_items (item ∷ items) = propagate_value item ∷ propagate_items items

  with_items : Dict Value → Value → Dict Value
  unfolding propagate_items
  with_items data_ (arr items) =
      insert "items" (arr (elements_of (propagate_items (list_of items)))) data_
  with_items data_ null = data_
  with_items data_ (bool b) = data_
  with_items data_ (int n) = data_
  with_items data_ (real d) = data_
  with_items data_ (str s) = data_
  with_items data_ (obj fields) = data_

  unfoldable pub propagate_timecard_statuses : Value → Value
  unfolding with_items
  propagate_timecard_statuses (obj fields) =
      let data_ = dict_of fields in obj (members_of (with_items data_ (get_or_none "items" data_)))
  propagate_timecard_statuses null = null
  propagate_timecard_statuses (bool b) = bool b
  propagate_timecard_statuses (int n) = int n
  propagate_timecard_statuses (real d) = real d
  propagate_timecard_statuses (str s) = str s
  propagate_timecard_statuses (arr vs) = arr vs
