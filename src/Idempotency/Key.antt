-- ===== src/Idempotency/Key.antt =====
-- Request keys of backend/services/idempotency.py: `validate_idempotency_key`,
-- `idempotency_key_for_entry`, `scoped_idempotency_key` and the key test of `IdempotencyStore.claim`.
-- SHA-256 is a parameter.
pub mod Accepts
pub mod Scoped
use Prim.Native.String.{◌++◌}
use otl_voice.Prelude.{
  ℕ, zero, suc, ◌≡◌, refl, Bool, true, false, not, ◌&&◌, ◌||◌, Option, none, some, List, [], ◌∷◌,
  code, String, leb, ltb, any, ◌==◌, nat_eq, string_eq, if◌then◌else◌,
}
use otl_voice.Prelude.Dict.{Dict, lookup}
use otl_voice.Prelude.Result.{Result, ok, err, ◌>>=◌}
use otl_voice.Python.Text.{text_length, is_empty, strip, all_chars}
use otl_voice.Python.Value.{Value, null, bool, int, real, str, arr, obj}

-- What an `IdempotencyKeyError` says.
pub data KeyError : Type 0 where
  not_text padded malformed conflicting : KeyError

unfoldable pub is_alnum : ℕ → Bool
is_alnum c = (leb b'A' c && leb c b'Z') || (leb b'a' c && leb c b'z') || (leb b'0' c && leb c b'9')

unfoldable pub is_key_char : ℕ → Bool
unfolding is_alnum
is_key_char c = is_alnum c || c == b'.' || c == b'_' || c == b':' || c == b'-'

-- `[A-Za-z0-9][A-Za-z0-9._:-]{0,most}`, matched against the whole text.
unfoldable pub full_match : ℕ → String → Bool
full_match most String.[] = false
full_match most (String.◌∷◌ c s) =
    is_alnum (code c) && all_chars is_key_char s && leb (text_length s) most

abbrev pub max_key_length : ℕ
max_key_length = 128

validate_text : String → Result KeyError String
validate_text value =
    if is_empty value || not (value == strip value)
    then err padded
    else if ltb max_key_length (text_length value) || not (full_match 127 value)
    then err malformed
    else ok value

unfoldable pub validate_idempotency_key : Value → Result KeyError String
unfolding validate_text
validate_idempotency_key (str value) = validate_text value
validate_idempotency_key null = err not_text
validate_idempotency_key (bool b) = err not_text
validate_idempotency_key (int n) = err not_text
validate_idempotency_key (real d) = err not_text
validate_idempotency_key (arr vs) = err not_text
validate_idempotency_key (obj fs) = err not_text

-- `[entry[field] for field in fields if field in entry]`
unfoldable pub supplied : Dict Value → List String → List Value
unfolding lookup
supplied entry [] = []
supplied entry (field ∷ fields) =
    let rest = supplied entry fields in
    elim (lookup field entry) [ none ↦ rest | some value ↦ value ∷ rest ]

abbrev pub key_fields : List String
key_fields = "requestId" ∷ "idempotencyKey" ∷ "Idempotency-Key" ∷ []

unfoldable pub with_fallback : List Value → Option String → List Value
with_fallback [] none = []
with_fallback [] (some fallback) = str fallback ∷ []
with_fallback (v ∷ vs) fallback = v ∷ with_fallback vs fallback

unfoldable pub validate_all : List Value → Result KeyError (List String)
unfolding validate_idempotency_key
validate_all [] = ok []
validate_all (value ∷ values) = do
  key ← validate_idempotency_key value
  keys ← validate_all values
  ok (key ∷ keys)

unfoldable pub agreed : List String → Result KeyError (Option String)
agreed [] = ok none
agreed (key ∷ keys) = if any (λ k. not (k == key)) keys then err conflicting else ok (some key)

unfoldable pub idempotency_key_for_entry :
    Dict Value → Option String → Result KeyError (Option String)
unfolding supplied with_fallback validate_all agreed
idempotency_key_for_entry entry fallback = do
  keys ← validate_all (with_fallback (supplied entry key_fields) fallback)
  agreed keys

module _ (employee_hash : String → String) where
  -- `timecard:{hash}:{key}`; `employee_hash` is the first 24 hexadecimal digits of SHA-256.
  unfoldable pub scoped_idempotency_key : String → String → Result KeyError String
  unfolding validate_idempotency_key
  scoped_idempotency_key employee_number request_id = do
    key ← validate_idempotency_key (str request_id)
    ok ("timecard:" ++ employee_hash employee_number ++ ":" ++ key)

-- `IdempotencyStore.claim` raises a `ValueError` on any other key.
unfoldable pub claim_accepts : String → Bool
unfolding full_match
claim_accepts key = not (is_empty key) && leb (text_length key) 512 && full_match 511 key

-- Everything that a run computes with, for the tests.
unfoldable pub run_key : Unit {0}
unfolding validate_idempotency_key full_match is_key_char strip supplied with_fallback validate_all
    agreed lookup idempotency_key_for_entry
run_key = tt
