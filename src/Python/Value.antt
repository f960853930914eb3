-- ===== src/Python/Value.antt =====
-- The values that `json.loads` returns, and how Python tests, prints and converts them. A float is
-- a finite decimal, `digits / 10 ^ scale` with a sign; `NaN` and `Infinity` are left out. `str` of a
-- float, a list or a dictionary is the parameter `repr`.
use otl_voice.Prelude.{
  ℕ, ◌/◌, ◌^◌, Bool, true, false, not, Option, none, some, List, [], ◌∷◌, String, ltb, nat_eq,
  if◌then◌else◌,
}
use otl_voice.Prelude.Dict.{Dict, lookup}
use otl_voice.Prelude.Int.{ℤ, pos, negsuc, neg_ℕ}
use otl_voice.Python.Text.{is_empty}
use otl_voice.Python.Number.{parse_int, int_text}

pub record Decimal : Type 0 where
  pub negative : Bool
  pub digits : ℕ
  pub scale : ℕ

mutual
  pub data Value : Type 0 where
    null : Value
    bool : Bool → Value
    int : ℤ → Value
    real : Decimal → Value
    str : String → Value
    arr : Elements → Value
    obj : Members → Value

  pub data Elements : Type 0 where
    no_elements : Elements
    element : Value → Elements → Elements

  pub data Members : Type 0 where
    no_members : Members
    member : String → Value → Members → Members

unfoldable pub list_of : Elements → List Value
list_of no_elements = []
list_of (element v vs) = v ∷ list_of vs

unfoldable pub dict_of : Members → Dict Value
dict_of no_members = []
dict_of (member k v rest) = (k, v) ∷ dict_of rest

-- `bool(v)`
unfoldable pub truthy : Value → Bool
truthy null = false
truthy (bool b) = b
truthy (int (pos n)) = ltb 0 n
truthy (int (negsuc n)) = true
truthy (real d) = ltb 0 d.digits
truthy (str s) = not (is_empty s)
truthy (arr no_elements) = false
truthy (arr (element v vs)) = true
truthy (obj no_members) = false
truthy (obj (member k v rest)) = true

truncate : Decimal → ℤ
truncate d = let n = d.digits / 10 ^ d.scale in if d.negative then neg_ℕ n else pos n

-- `int(v)`; `none` is a `TypeError` or a `ValueError`.
unfoldable pub to_int : Value → Option ℤ
unfolding truncate parse_int
to_int (bool b) = some (pos (if b then 1 else 0))
to_int (int n) = some n
to_int (real d) = some (truncate d)
to_int (str s) = parse_int s
to_int null = none
to_int (arr vs) = none
to_int (obj fs) = none

module _ (repr : Value → String) where
  -- `str(v)`
  unfoldable pub to_text : Value → String
  unfolding int_text
  to_text null = "None"
  to_text (bool b) = if b then "True" else "False"
  to_text (int n) = int_text n
  to_text (str s) = s
  to_text (real d) = repr (real d)
  to_text (arr vs) = repr (arr vs)
  to_text (obj fs) = repr (obj fs)

-- `d.get(k)`, which gives `None` for a missing key
unfoldable pub get_or_none : String → Dict Value → Value
unfolding lookup
get_or_none k d = elim (lookup k d) [ none ↦ null | some v ↦ v ]

-- `isinstance(v, str)`, with the text
unfoldable pub as_text : Value → Option String
as_text (str s) = some s
as_text null = none
as_text _ = none
