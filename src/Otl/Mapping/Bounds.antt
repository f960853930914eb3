-- ===== src/Otl/Mapping/Bounds.antt =====
-- What the event of an entry keeps to: one day, and the length of Oracle's texts.
use Prim.Native.String.{◌++◌ as ◌<>◌}
use otl_voice.Prelude.{
  ℕ, ◌+◌, ◌-◌, ◌*◌, ◌≤◌, ◌<◌, ◌≡◌, refl, sym, false, Option, none, some, List, ◌∷◌, String, arith,
}
use otl_voice.Prelude.Dict.{Dict}
use otl_voice.Prelude.Result.{Result, ok, err, >>=-eq-ok}
use otl_voice.Python.Text.{text_length, prefix, text_length-prefix}
use otl_voice.Python.Append.{text_length-append}
use otl_voice.Python.Split.{join}
use otl_voice.Python.Value.{Value, Decimal, get_or_none}
use otl_voice.Config.{Environ}
use otl_voice.Entries.Entry.{EntryError, normalize_entry}
use otl_voice.Entries.Hours.{entry_hours, positive_number, configured_limit, check_hours_lem}
use otl_voice.Entries.Times.{parse_date, parse_minutes, parse_minutes-bound}
use otl_voice.Entries.Validate.{validate_timecard_entry}
use otl_voice.Entries.Accepted.{check_entry-parts}
use otl_voice.Otl.Mapping.{
  comment_parts, checked_units, validated, start_of, employee_number, default_start_hour,
  expenditure_attribute, str_max, comment_of, stop_of, map_entry_to_otl, Event,
}

-- The comment of an event has at most 80 characters.
pub comment_of-bound :
    (front : List String) (total : String) → text_length (comment_of front total) ≤ 80
unfolding comment_of
comment_of-bound front total =
    let allowed = str_max - text_length total - 3 in
    ground (
      arith,
      text_length-append (prefix allowed (join " | " front)) (" | " <> total),
      text_length-append " | " total,
      text_length-prefix allowed (join " | " front),
      text_length-prefix str_max total,
    )

stop_of-bound :
    {read : Result EntryError (Option ℕ)} (units start : ℕ) (stop : Option ℕ) (time : ℕ)
    → ((minutes : ℕ) → read ≡ ok (some minutes) → minutes < 1440)
    → read ≡ ok stop
    → stop_of units start stop ≡ ok time
    → (time ≡ start + units * 15) × (time < 1440)
unfolding stop_of
stop_of-bound units start none time bound e h = ground arith
stop_of-bound units start (some stop) time bound e h = ground (arith, bound stop e)

ok_injective : {E A : Type 0} {a b : A} → ◌≡◌ {A = Result E A} (ok a) (ok b) → a ≡ b
ok_injective h = cc

checked_units-same :
    (r : Result EntryError ℕ) (units : ℕ) → checked_units r ≡ ok units → r ≡ ok units
unfolding checked_units
checked_units-same (ok n) units h = ground (arith, h)
checked_units-same (err e) units h = cc

validated-same : {A : Type 0} (r : Result EntryError A) (a : A) → validated r ≡ ok a → r ≡ ok a
unfolding validated
validated-same (ok n) a h = ground (arith, h)
validated-same (err e) a h = cc

-- What holds of the event of an entry: positive hours, from the start to the stop on one day, and a
-- comment of at most 80 characters in front of the other attributes.
pub record Fits (event : Event) : Type 0 where
  pub positive : 0 < event.measure
  pub spans : event.stop_time ≡ event.start_time + event.measure * 15
  pub one_day : event.stop_time < 1440
  pub comment : String
  pub others : List (String × String)
  pub commented : event.attributes ≡ ("Comment", comment) ∷ others
  pub short : text_length comment ≤ 80

module _ (repr : Value → String) (decimal : String → Option Decimal) (general : ℕ → String)
    (env : Environ) where
  units_positive :
      (entry : Dict Value) (units : ℕ)
      → validate_timecard_entry repr decimal env false none entry ≡ ok units
      → 0 < units
  unfolding validate_timecard_entry entry_hours
  units_positive entry units h =
      let norm = normalize_entry entry in
      let hours = (check_entry-parts repr decimal env false none norm units h).0 in
      let (number, read, positive, exact, some_hours, within) =
        check_hours_lem repr decimal (positive_number repr decimal (get_or_none "hours" norm))
          (configured_limit repr decimal env "MAX_TIMECARD_HOURS_PER_ENTRY") units hours in
      some_hours

  -- An entry that is sent to Oracle fits one day and Oracle's texts.
  pub map_entry_to_otl-Fits :
      (entry : Dict Value) (event : Event)
      → map_entry_to_otl repr decimal general env entry ≡ ok event
      → Fits event
  unfolding map_entry_to_otl
  map_entry_to_otl-Fits entry event h =
      let (u, valid, h1) =
        >>=-eq-ok (checked_units (validate_timecard_entry repr decimal env false none entry)) _ h in
      let (r, named, h2) =
        >>=-eq-ok (employee_number repr (get_or_none "employeeNumber" entry)) _ h1 in
      let (d, date, h3) = >>=-eq-ok (validated (parse_date (get_or_none "date" entry))) _ h2 in
      let (hour, set, h4) = >>=-eq-ok (default_start_hour env) _ h3 in
      let (start, starts, h5) =
        >>=-eq-ok (validated (parse_minutes "startTime" (get_or_none "startTime" entry))) _ h4 in
      let (stop, stops, h6) =
        >>=-eq-ok (validated (parse_minutes "stopTime" (get_or_none "stopTime" entry))) _ h5 in
      let (time, ends, h7) = >>=-eq-ok (stop_of u (start_of hour start) stop) _ h6 in
      let (extra, listed, made) =
        >>=-eq-ok (expenditure_attribute repr decimal general env entry) _ h7 in
      let read =
        validated-same (parse_minutes "stopTime" (get_or_none "stopTime" entry)) stop stops in
      let (spans, early) =
        stop_of-bound u (start_of hour start) stop time
          (parse_minutes-bound "stopTime" (get_or_none "stopTime" entry)) read ends in
      rw (sym (ok_injective made)) (record {
        positive = units_positive entry u (checked_units-same _ u valid);
        spans = spans;
        one_day = early;
        comment = comment_of (comment_parts repr entry) ("Total Hours: " <> general u);
        others = _;
        commented = refl;
        short = comment_of-bound (comment_parts repr entry) ("Total Hours: " <> general u);
      })
