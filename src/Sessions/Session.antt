-- ===== src/Sessions/Session.antt =====
-- `StoredSession` of backend/core/token_blocklist.py. The expiry is the number itself, in seconds,
-- without the rounding of `float`; clock readings are in microseconds.
use otl_voice.Prelude.{
  ℕ, ◌+◌, ◌*◌, ◌^◌, ◌≡◌, refl, Bool, true, false, ◌||◌, Option, none, some, [], ◌∷◌, String, arith,
  leb, nat_eq, string_eq, if◌then◌else◌,
}
use otl_voice.Prelude.Dict.{Dict, lookup}
use otl_voice.Prelude.Int.{pos, negsuc}
use otl_voice.Python.Text.{is_empty}
use otl_voice.Python.Value.{
  Value, Decimal, null, int, real, str, arr, obj, bool, get_or_none, dict_of,
}

pub record StoredSession : Type 0 where
  pub employee_id : String
  pub username : String
  pub full_name : String
  pub expires_at : Decimal

-- `expires_at <= now`
unfoldable pub is_past : ℕ → Decimal → Bool
is_past now d = d.negative || leb (d.digits * 1000000) (now * 10 ^ d.scale)

unfoldable pub expired : ℕ → StoredSession → Bool
unfolding is_past
expired now session = is_past now session.expires_at

-- A text that is not empty.
named : Value → Option String
named (str s) = if is_empty s then none else some s
named null = none
named (bool b) = none
named (int n) = none
named (real d) = none
named (arr vs) = none
named (obj fs) = none

text : Value → Option String
text (str s) = some s
text null = none
text (bool b) = none
text (int n) = none
text (real d) = none
text (arr vs) = none
text (obj fs) = none

number : Value → Option Decimal
number (int (pos n)) = some (record { negative = false; digits = n; scale = 0 })
number (int (negsuc n)) = some (record { negative = true; digits = n + 1; scale = 0 })
number (real d) = some d
number (str s) = none
number null = none
number (bool b) = none
number (arr vs) = none
number (obj fs) = none

module _ {A B : Type 0} where
  abbrev given : Option A → (A → Option B) → Option B
  given none f = none
  given (some a) f = f a

given-eq-some :
    {A B : Type 0} {b : B} (o : Option A) (f : A → Option B)
    → given o f ≡ some b
    → (a : A) × (o ≡ some a) × (f a ≡ some b)
given-eq-some none f h = cc
given-eq-some (some a) f h = (a, refl, h)

named-full : (v : Value) (s : String) → named v ≡ some s → is_empty s ≡ false
unfolding named
named-full (str t) s h = ground arith
named-full null s h = cc
named-full (bool b) s h = cc
named-full (int n) s h = cc
named-full (real d) s h = cc
named-full (arr vs) s h = cc
named-full (obj fs) s h = cc

-- `from_dict`; `none` is its `ValueError` or `TypeError`.
unfoldable pub from_dict : Dict Value → Option StoredSession
unfolding named text number
from_dict value = given (named (get_or_none "employee_id" value)) (λ employee_id.
    given (named (get_or_none "username" value)) (λ username.
      given (text (get_or_none "full_name" value)) (λ full_name.
        given (number (get_or_none "expires_at" value)) (λ expires_at. some (record {
          employee_id = employee_id;
          username = username;
          full_name = full_name;
          expires_at = expires_at;
        })))))

-- `StoredSession.from_dict(value)` of what `json.loads` gives: anything but a dictionary has no `get`.
unfoldable pub from_json : Value → Option StoredSession
from_json (obj fields) = from_dict (dict_of fields)
from_json null = none
from_json (bool b) = none
from_json (int n) = none
from_json (real d) = none
from_json (str s) = none
from_json (arr vs) = none

-- `asdict(session)`
unfoldable pub to_dict : StoredSession → Dict Value
to_dict session =
    ("employee_id", str session.employee_id)
    ∷ ("username", str session.username)
    ∷ ("full_name", str session.full_name)
    ∷ ("expires_at", real session.expires_at)
    ∷ []

-- A session with an employee number and a user name is read back as it was written.
pub from_dict-to_dict :
    (session : StoredSession)
    → is_empty session.employee_id ≡ false
    → is_empty session.username ≡ false
    → from_dict (to_dict session) ≡ some session
unfolding from_dict to_dict named text number get_or_none lookup
from_dict-to_dict session id name = ground arith

-- What is read has an employee number and a user name.
pub from_dict-named :
    (value : Dict Value) (session : StoredSession)
    → from_dict value ≡ some session
    → (is_empty session.employee_id ≡ false) × (is_empty session.username ≡ false)
unfolding from_dict
from_dict-named value session h =
    let (id, first, h1) = given-eq-some (named (get_or_none "employee_id" value)) _ h in
    let (name, second, h2) = given-eq-some (named (get_or_none "username" value)) _ h1 in
    let (full, third, h3) = given-eq-some (text (get_or_none "full_name" value)) _ h2 in
    let (expiry, fourth, h4) = given-eq-some (number (get_or_none "expires_at" value)) _ h3 in
    ground (
      arith,
      named-full (get_or_none "employee_id" value) id first,
      named-full (get_or_none "username" value) name second,
      h4,
    )
