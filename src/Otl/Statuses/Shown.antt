-- ===== src/Otl/Statuses/Shown.antt =====
-- What `propagate_timecard_statuses` shows, and what it leaves as it is.
use otl_voice.Prelude.{
  ◌≡◌, ◌⊎◌, refl, ◌∙◌, Bool, true, false, not, ◌&&◌, Option, none, some, List, [], ◌∷◌, String,
  arith, All, ap, ◌==◌, string_eq, Bool-cases, inl, inr, eq_refl,
}
use otl_voice.Prelude.Dict.{Dict, lookup, lookup-insert}
use otl_voice.Python.Text.{is_empty}
use otl_voice.Python.Value.{
  Value, null, bool, int, real, str, arr, obj, list_of, dict_of, truthy, get_or_none,
}
use otl_voice.Otl.Statuses.{
  elements_of, members_of, own_status, status_or, set_status, event_step, events_from, events_in,
  replaced, item_events, propagate_item,
}

list_of-elements_of : (values : List Value) → list_of (elements_of values) ≡ values
unfolding list_of elements_of
list_of-elements_of [] = refl
list_of-elements_of (v ∷ vs) = ap (◌∷◌ v) (list_of-elements_of vs)

dict_of-members_of : (fields : Dict Value) → dict_of (members_of fields) ≡ fields
unfolding dict_of members_of
dict_of-members_of [] = refl
dict_of-members_of ((k, v) ∷ rest) = ap (◌∷◌ (k, v)) (dict_of-members_of rest)

-- A dictionary shows a status.
unfoldable pub shows_status : Dict Value → Bool
shows_status fields = truthy (get_or_none "eventStatus" fields)

abbrev pub Shows : Value → Type 0
Shows (obj fields) = shows_status (dict_of fields) ≡ true
Shows null = Unit
Shows (bool b) = Unit
Shows (int n) = Unit
Shows (real d) = Unit
Shows (str s) = Unit
Shows (arr vs) = Unit

-- The events of an item.
listed : Option Value → List Value
listed none = []
listed (some (arr events)) = list_of events
listed (some null) = []
listed (some (bool b)) = []
listed (some (int n)) = []
listed (some (real d)) = []
listed (some (str s)) = []
listed (some (obj fields)) = []

events_at : Option Value → List Value
unfolding listed
events_at (some (obj fields)) = listed (lookup "items" (dict_of fields))
events_at (some (arr events)) = list_of events
events_at none = []
events_at (some null) = []
events_at (some (bool b)) = []
events_at (some (int n)) = []
events_at (some (real d)) = []
events_at (some (str s)) = []

unfoldable pub events_of : Dict Value → List Value
unfolding events_at
events_of item = events_at (lookup "timeRecordEvent" item)

set_status-shows :
    (status : String) (fields : Dict Value)
    → is_empty status ≡ false
    → shows_status (set_status (some status) fields) ≡ true
unfolding shows_status get_or_none truthy
set_status-shows status fields some_text =
    elim (Bool-cases (truthy (get_or_none "eventStatus" fields))) [
      | inl shown ↦ rw (some_text, shown) shown
      | inr hidden ↦
          rw (some_text, hidden)
            (rw (get_or_none, lookup-insert "eventStatus" "eventStatus" (str status) fields)
              (rw some_text refl))
    ]

set_status-keeps :
    (status : Option String) (fields : Dict Value) (key : String)
    → ("eventStatus" == key) ≡ false
    → lookup key (set_status status fields) ≡ lookup key fields
set_status-keeps none fields key apart = refl
set_status-keeps (some status) fields key apart =
    elim (Bool-cases (not (is_empty status) && not (truthy (get_or_none "eventStatus" fields)))) [
      | inl written ↦
          rw written (ground (arith, lookup-insert "eventStatus" key (str status) fields, apart))
      | inr left ↦ rw left refl
    ]

status_or-text :
    (own : Option String) (status : String)
    → is_empty status ≡ false
    → (text : String) × (status_or own (some status) ≡ some text) × (is_empty text ≡ false)
status_or-text none status some_text = (status, rw some_text refl, some_text)
status_or-text (some own) status some_text = elim (Bool-cases (is_empty own)) [
  | inl bare ↦ (status, rw (bare, some_text) refl, some_text)
  | inr given ↦ (own, rw given refl, given)
]

module _ (repr : Value → String) (status : String) (some_text : is_empty status ≡ false) where
  event_step-Shows :
      (event : Value)
      → Shows (event_step repr (some status) event).0
        × ((event_step repr (some status) event).1 ≡ some status)
  unfolding event_step
  event_step-Shows (obj fields) =
      let event = dict_of fields in
      let (text, given, filled) = status_or-text (own_status repr event) status some_text in
      (rw dict_of-members_of (rw given (set_status-shows text event filled)), rw some_text refl)
  event_step-Shows null = (tt, refl)
  event_step-Shows (bool b) = (tt, refl)
  event_step-Shows (int n) = (tt, refl)
  event_step-Shows (real d) = (tt, refl)
  event_step-Shows (str s) = (tt, refl)
  event_step-Shows (arr vs) = (tt, refl)

  events_from-Shows :
      (events : List Value)
      → All Shows (events_from repr (some status) events).0
        × ((events_from repr (some status) events).1 ≡ some status)
  unfolding events_from
  events_from-Shows [] = (tt, refl)
  events_from-Shows (event ∷ events) =
      let (shown, same) = event_step-Shows event in
      let (others, final) = events_from-Shows events in (rw same (shown, others), rw same final)

  events_in-Shows :
      (events : Option Value)
      → All Shows (listed (events_in repr (some status) events).0)
        × ((events_in repr (some status) events).1 ≡ some status)
  unfolding events_in listed
  events_in-Shows (some (arr events)) =
      let (shown, same) = events_from-Shows (list_of events) in (rw list_of-elements_of shown, same)
  events_in-Shows none = (tt, refl)
  events_in-Shows (some null) = (tt, refl)
  events_in-Shows (some (bool b)) = (tt, refl)
  events_in-Shows (some (int n)) = (tt, refl)
  events_in-Shows (some (real d)) = (tt, refl)
  events_in-Shows (some (str s)) = (tt, refl)
  events_in-Shows (some (obj fields)) = (tt, refl)

lookup-replaced :
    (key : String) (value : Option Value) (fields : Dict Value)
    → (value ≡ none → lookup key fields ≡ none)
    → lookup key (replaced key value fields) ≡ value
unfolding replaced
lookup-replaced key none fields missing = missing refl
lookup-replaced key (some v) fields missing =
    ground (arith, lookup-insert key key v fields, eq_refl key)

replaced-keeps :
    (key : String) (value : Option Value) (fields : Dict Value) (other : String)
    → (key == other) ≡ false
    → lookup other (replaced key value fields) ≡ lookup other fields
unfolding replaced
replaced-keeps key none fields other apart = refl
replaced-keeps key (some v) fields other apart =
    ground (arith, lookup-insert key other v fields, apart)

set_status-shown :
    (status : Option String) (fields : Dict Value)
    → shows_status fields ≡ true
    → set_status status fields ≡ fields
unfolding shows_status
set_status-shown none fields shown = refl
set_status-shown (some status) fields shown = elim (Bool-cases (is_empty status)) [
  | inl bare ↦ rw bare refl
  | inr filled ↦ rw (filled, shown) refl
]

module _ (repr : Value → String) (status : Option String) where
  events_in-missing :
      (events : Option Value) → (events_in repr status events).0 ≡ none → events ≡ none
  unfolding events_in
  events_in-missing none h = refl
  events_in-missing (some (arr events)) h = cc
  events_in-missing (some null) h = cc
  events_in-missing (some (bool b)) h = cc
  events_in-missing (some (int n)) h = cc
  events_in-missing (some (real d)) h = cc
  events_in-missing (some (str s)) h = cc
  events_in-missing (some (obj fields)) h = cc

  item_events-missing :
      (events : Option Value) → (item_events repr status events).0 ≡ none → events ≡ none
  unfolding item_events
  item_events-missing none h = refl
  item_events-missing (some (arr events)) h = events_in-missing (some (arr events)) h
  item_events-missing (some null) h = cc
  item_events-missing (some (bool b)) h = cc
  item_events-missing (some (int n)) h = cc
  item_events-missing (some (real d)) h = cc
  item_events-missing (some (str s)) h = cc
  item_events-missing (some (obj fields)) h = cc

module _ (repr : Value → String) where
  item_events-Shows :
      (status : String) (some_text : is_empty status ≡ false) (events : Option Value)
      → All Shows (events_at (item_events repr (some status) events).0)
        × ((item_events repr (some status) events).1 ≡ some status)
  unfolding item_events events_at events_in
  item_events-Shows status some_text (some (obj fields)) =
      let holder = dict_of fields in
      let events = lookup "items" holder in
      let (shown, same) = events_in-Shows repr status some_text events in
      (
        rw
            (
              dict_of-members_of,
              lookup-replaced "items" (events_in repr (some status) events).0 holder
                  (events_in-missing repr (some status) events),
            )
            shown,
        same,
      )
  item_events-Shows status some_text (some (arr events)) =
      let (shown, same) = events_from-Shows repr status some_text (list_of events) in
      (rw list_of-elements_of shown, same)
  item_events-Shows status some_text none = (tt, refl)
  item_events-Shows status some_text (some null) = (tt, refl)
  item_events-Shows status some_text (some (bool b)) = (tt, refl)
  item_events-Shows status some_text (some (int n)) = (tt, refl)
  item_events-Shows status some_text (some (real d)) = (tt, refl)
  item_events-Shows status some_text (some (str s)) = (tt, refl)

  -- An item that has a status of its own shows one afterwards, and so does each of its events.
  pub propagate_item-Shows :
      (item : Dict Value) (status : String)
      → own_status repr item ≡ some status
      → is_empty status ≡ false
      → (shows_status (propagate_item repr item) ≡ true)
        × All Shows (events_of (propagate_item repr item))
  unfolding propagate_item events_of
  propagate_item-Shows item status own some_text =
      let events = lookup "timeRecordEvent" item in
      let found = item_events repr (some status) events in
      let (shown, same) = item_events-Shows status some_text events in
      let written = replaced "timeRecordEvent" found.0 item in
      (
        rw (own, same) (set_status-shows status written some_text),
        rw
            (
              own,
              same,
              set_status-keeps (some status) written "timeRecordEvent" refl,
              lookup-replaced "timeRecordEvent" found.0 item
                  (item_events-missing repr (some status) events),
            )
            shown,
      )

  -- A status that an item shows already stays, and so does all else but the events.
  pub propagate_item-keeps :
      (item : Dict Value) (key : String)
      → ("timeRecordEvent" == key) ≡ false
      → (("eventStatus" == key) ≡ false) ⊎ (shows_status item ≡ true)
      → lookup key (propagate_item repr item) ≡ lookup key item
  unfolding propagate_item shows_status get_or_none
  propagate_item-keeps item key apart kept =
      let found = item_events repr (own_status repr item) (lookup "timeRecordEvent" item) in
      let written = replaced "timeRecordEvent" found.0 item in
      let same = replaced-keeps "timeRecordEvent" found.0 item key apart in
      elim kept [
        | inl other ↦ set_status-keeps found.1 written key other ∙ same
        | inr shown ↦
            let still : shows_status written ≡ true =
              rw
                (
                  shows_status,
                  get_or_none,
                  replaced-keeps "timeRecordEvent" found.0 item "eventStatus" refl,
                )
                shown in
            ap (lookup key) (set_status-shown found.1 written still) ∙ same
      ]
