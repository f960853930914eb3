-- ===== src/Entries/Accepted.antt =====
-- What the entries that pass have in common.
use otl_voice.Prelude.{
  ℕ, ◌+◌, ◌<◌, ◌≡◌, refl, sym, ap, ◌⊎◌, inl, inr, Bool, true, false, Option, some, List, [], ◌∷◌,
  String, arith, eq_iff, ◌==◌, string_eq, if◌then◌else◌, Bool-cases,
}
use native.Mathlib.Nat.{zero-add}
use otl_voice.Prelude.Dict.{Dict, lookup, insert, lookup-insert}
use otl_voice.Prelude.Result.{Result, ok, err, >>=-eq-ok}
use otl_voice.Python.Value.{Value, Decimal, get_or_none}
use otl_voice.Config.{Environ}
use otl_voice.Entries.Entry.{EntryError, normalize_entry}
use otl_voice.Entries.Hours.{entry_hours, exceeds, configured_limit}
use otl_voice.Entries.Times.{parse_minutes, parse_date, validate_times, TimesMatch}
use otl_voice.Entries.Assigned.{assigned_project}
use otl_voice.Entries.Validate.{
  entry_idempotency_error, validate_payroll_values, check_named, check_task, check_assignment,
  check_entry, validate_timecard_entry, day_of, total_of, validate_from, validate_timecard_entries,
}

module _ (repr : Value → String) (decimal : String → Option Decimal) (env : Environ) where
  -- The parts of the check of an entry, when it passes.
  pub check_entry-parts :
      (required : Bool) (assignments : Option (List Value)) (entry : Dict Value) (units : ℕ)
      → check_entry repr decimal env required assignments entry ≡ ok units
      → (entry_hours repr decimal env entry ≡ ok units)
        × (validate_times entry units ≡ ok tt)
        × (validate_payroll_values env entry ≡ ok tt)
        × (check_assignment repr entry assignments ≡ ok tt)
  unfolding check_entry
  check_entry-parts required assignments entry units h =
      let (u, hours, h1) = >>=-eq-ok (entry_hours repr decimal env entry) _ h in
      let (k, key, h2) = >>=-eq-ok (entry_idempotency_error entry) _ h1 in
      let (d, date, h3) = >>=-eq-ok (parse_date (get_or_none "date" entry)) _ h2 in
      let (t, times, h4) = >>=-eq-ok (validate_times entry u) _ h3 in
      let (p, payroll, h5) = >>=-eq-ok (validate_payroll_values env entry) _ h4 in
      let (n, named, h6) = >>=-eq-ok (if required then check_named repr entry else ok tt) _ h5 in
      let (a, assigned, same) = >>=-eq-ok (check_assignment repr entry assignments) _ h6 in
      let units_same : u ≡ units = ground (arith, same) in
      (rw (sym units_same) hours, rw (sym units_same) times, payroll, assigned)

  -- The quarters of an hour that a list of entries books on a day.
  abbrev pub units_of : Result EntryError ℕ → ℕ
  units_of (ok units) = units
  units_of (err e) = 0

  abbrev pub booked : String → List (Dict Value) → ℕ
  booked day [] = 0
  booked day (entry ∷ entries) =
      let norm = normalize_entry entry in
      (if day_of repr norm == day then units_of (entry_hours repr decimal env norm) else 0)
      + booked day entries

  entry_units :
      (assignments : Option (List Value)) (entry : Dict Value) (units : ℕ)
      → validate_timecard_entry repr decimal env true assignments entry ≡ ok units
      → units_of (entry_hours repr decimal env (normalize_entry entry)) ≡ units
  unfolding validate_timecard_entry
  entry_units assignments entry units h =
      rw (check_entry-parts true assignments (normalize_entry entry) units h).0 refl

  add_units :
      (n before units after : ℕ) (limit : Decimal)
      → n ≡ before + units
      → exceeds (before + units) limit ≡ false
      → (after ≡ 0) ⊎ (exceeds (n + after) limit ≡ false)
      → (units + after ≡ 0) ⊎ (exceeds (before + (units + after)) limit ≡ false)
  add_units n before units after limit e within (inl none_left) =
      let same : before + units ≡ before + (units + after) = omega (arith, none_left) in
      inr (rw (sym same) within)
  add_units n before units after limit e within (inr below) =
      let same : n + after ≡ before + (units + after) = omega (arith, e) in
      inr (rw (sym same) below)

  Result-cases : {E A : Type 0} (r : Result E A) → ((a : A) × (r ≡ ok a)) ⊎ ((e : E) × (r ≡ err e))
  Result-cases (ok a) = inl (a, refl)
  Result-cases (err e) = inr (e, refl)

  from-bound :
      (assignments : Option (List Value)) (limit : Decimal) (index : ℕ) (totals : Dict ℕ)
      (entries : List (Dict Value)) (day : String)
      → validate_from repr decimal env assignments limit index totals entries ≡ ok tt
      → (booked day entries ≡ 0)
        ⊎ (exceeds (total_of (lookup day totals) + booked day entries) limit ≡ false)
  unfolding validate_from
  from-bound assignments limit index totals [] day h = inl refl
  from-bound assignments limit index totals (entry ∷ entries) day h =
      elim (Result-cases (validate_timecard_entry repr decimal env true assignments entry)) [
        | inr (e, refused) ↦ absurd (ground (arith, h, refused))
        | inl (units, passed) ↦
            let today = day_of repr (normalize_entry entry) in
            let total = total_of (lookup today totals) + units in
            let rest =
              from-bound assignments limit (index + 1) (insert today total totals) entries day in
            let same_units = entry_units assignments entry units passed in
            let within : exceeds total limit ≡ false = ground (arith, h, passed) in
            let later = rest (ground (arith, h, passed, within)) in
            let lookup_day = lookup-insert today day total totals in
            elim (Bool-cases (today == day)) [
              | inl here ↦
                  let same_day = (eq_iff today day).0 here in
                  let before = total_of (lookup day totals) in
                  let within' : exceeds (before + units) limit ≡ false = rw (sym same_day) within in
                  let now : total_of (lookup day (insert today total totals)) ≡ before + units =
                    ground
                      (arith, lookup_day, here, ap (λ d. total_of (lookup d totals)) same_day) in
                  rw (here, same_units)
                    (add_units (total_of (lookup day (insert today total totals))) before units
                      (booked day entries) limit now within' later)
              | inr elsewhere ↦
                  let unchanged : total_of (lookup day (insert today total totals))
                      ≡ total_of (lookup day totals) =
                    ground (arith, lookup_day, elsewhere) in
                  rw (elsewhere, zero-add (booked day entries), sym unchanged) later
            ]
      ]

  -- When a list of entries passes, no day has more hours booked than the daily limit.
  pub validate_timecard_entries-bound :
      (assignments : Option (List Value)) (entries : List (Dict Value)) (day : String)
      → validate_timecard_entries repr decimal env assignments entries ≡ ok tt
      → (booked day entries ≡ 0)
        ⊎ (exceeds
              (booked day entries)
              (configured_limit repr decimal env "MAX_TIMECARD_HOURS_PER_DAY")
            ≡ false)
  unfolding validate_timecard_entries lookup
  validate_timecard_entries-bound assignments entries day h =
      let limit = configured_limit repr decimal env "MAX_TIMECARD_HOURS_PER_DAY" in
      elim (from-bound assignments limit 0 [] entries day h) [
        | inl unbooked ↦ inl unbooked
        | inr below ↦ inr (rw (sym (zero-add (booked day entries))) below)
      ]

  -- What holds of an entry that is accepted with `units` quarters of an hour.
  pub record Accepted (assignments : List Value) (norm : Dict Value) (units : ℕ) : Type 0 where
    pub positive : 0 < units
    pub within :
        exceeds units (configured_limit repr decimal env "MAX_TIMECARD_HOURS_PER_ENTRY") ≡ false
    pub start : Option ℕ
    pub stop : Option ℕ
    pub starts : parse_minutes "startTime" (get_or_none "startTime" norm) ≡ ok start
    pub stops : parse_minutes "stopTime" (get_or_none "stopTime" norm) ≡ ok stop
    pub times : TimesMatch units start stop
    pub project : Dict Value
    pub assigned : assigned_project repr norm (some assignments) ≡ ok (some project)
    pub task : check_task repr norm project ≡ ok tt
