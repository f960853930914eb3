-- ===== src/Entries/Hours.antt =====
-- `_positive_number` and `_entry_hours` of backend/services/timecard_entries.py. Hours that pass are
-- whole quarters of an hour, and are counted in them; `Decimal`'s rounding to 28 digits is left out.
-- `decimal s` is the finite value of `Decimal(s)`, if it has one.
use otl_voice.Prelude.{
  ℕ, zero, suc, ◌+◌, ◌*◌, ◌/◌, ◌%◌, ◌^◌, ◌<◌, ◌≡◌, refl, sym, Bool, true, false, not, ◌&&◌, ◌||◌,
  Option, none, some, String, arith, ltb, ◌==◌, nat_eq, if◌then◌else◌,
}
use native.Mathlib.Nat.{div-add-mod'}
use otl_voice.Prelude.Dict.{Dict}
use otl_voice.Prelude.Result.{Result, ok, err}
use otl_voice.Python.Text.{strip, is_empty}
use otl_voice.Python.Value.{
  Value, Decimal, null, bool, int, real, str, arr, obj, to_text, get_or_none,
}
use otl_voice.Config.{Environ}
use otl_voice.Entries.Entry.{
  EntryError, hours_missing, hours_not_positive, hours_not_quarter, hours_over_limit,
}

-- A field that `_positive_number` refuses before it looks at the text.
no_number : Value → Bool
no_number null = true
no_number (bool b) = true
no_number (str s) = is_empty s
no_number (int n) = false
no_number (real d) = false
no_number (arr vs) = false
no_number (obj fs) = false

is_positive : Decimal → Bool
is_positive d = not d.negative && ltb 0 d.digits

-- `quarter_units`, and whether it is integral.
abbrev pub quarter_units : Decimal → ℕ
quarter_units d = d.digits * 4 / 10 ^ d.scale

is_quarter : Decimal → Bool
is_quarter d = d.digits * 4 % 10 ^ d.scale == 0

-- `units / 4 > limit`, for positive units.
unfoldable pub exceeds : ℕ → Decimal → Bool
exceeds units limit = (limit.negative || ltb (limit.digits * 4) (units * 10 ^ limit.scale))

abbrev pub default_max : Decimal
default_max = record { negative = false; digits = 240; scale = 1 }

-- `configured or Decimal(str(24.0))`: a limit of zero counts as none.
unfoldable pub limit_or_default : Option Decimal → Decimal
limit_or_default none = default_max
limit_or_default (some d) = if ltb 0 d.digits then d else default_max

exact_product : {q r x : ℕ} (units p : ℕ) → r ≡ 0 → q ≡ units → q * p + r ≡ x → units * p ≡ x
exact_product {q = q} {r = r} {x = x} units p none_left same whole =
    rw (sym same) (omega (arith, none_left, whole))

positive_factor : {x : ℕ} (units p : ℕ) → units * p ≡ x → 0 < x → 0 < units
positive_factor zero p product positive = absurd (omega (arith, product, positive))
positive_factor (suc units) p product positive = omega arith

module _ (repr : Value → String) (decimal : String → Option Decimal) where
  unfoldable pub positive_number : Value → Option Decimal
  unfolding no_number
  positive_number value = if no_number value then none else decimal (strip (to_text repr value))

  -- `_positive_number(os.getenv(name, str(24.0)))`, or the default
  unfoldable pub configured_limit : Environ → String → Decimal
  configured_limit env name =
      limit_or_default (positive_number (str (elim (env name) [ none ↦ "24.0" | some raw ↦ raw ])))

  unfoldable pub check_hours : Option Decimal → Decimal → Result EntryError ℕ
  unfolding is_positive is_quarter
  check_hours none limit = err hours_missing
  check_hours (some number) limit =
      if not (is_positive number)
      then err hours_not_positive
      else if not (is_quarter number)
      then err hours_not_quarter
      else if exceeds (quarter_units number) limit
      then err hours_over_limit
      else ok (quarter_units number)

  -- The hours in quarters, or why they are refused.
  unfoldable pub entry_hours : Environ → Dict Value → Result EntryError ℕ
  unfolding check_hours
  entry_hours env entry =
      check_hours (positive_number (get_or_none "hours" entry))
        (configured_limit env "MAX_TIMECARD_HOURS_PER_ENTRY")

  whole :
      (d : Decimal) (units : ℕ) (limit : Decimal)
      → check_hours (some d) limit ≡ ok units
      → (d.digits * 4 % 10 ^ d.scale ≡ 0) × (0 < d.digits) × (quarter_units d ≡ units)
  unfolding check_hours
  whole d units limit h = (ground arith, ground arith, ground arith)

  pub check_hours_lem :
      (number : Option Decimal) (limit : Decimal) (units : ℕ)
      → check_hours number limit ≡ ok units
      → (d : Decimal) × (number ≡ some d)
        × (d.negative ≡ false)
        × (units * 10 ^ d.scale ≡ d.digits * 4)
        × (0 < units)
        × (exceeds units limit ≡ false)
  unfolding check_hours
  check_hours_lem none limit units h = cc
  check_hours_lem (some d) limit units h =
      let exact = div-add-mod' (d.digits * 4) (10 ^ d.scale) in
      let even = whole d units limit h in
      let product = exact_product units (10 ^ d.scale) even.0 even.2 exact in
      (
        d,
        refl,
        ground arith,
        product,
        positive_factor units (10 ^ d.scale) product (omega (arith, even.1)),
        ground arith,
      )
