-- ===== src/Idempotency/Key/Accepts.antt =====
-- Which request keys are accepted, and that an accepted key always reaches the store.
use otl_voice.Prelude.{
  ℕ, ◌≤◌, ◌<◌, ◌≡◌, ◌⊎◌, ◌∙◌, ap, refl, ◌↔◌, true, false, not, code, String, arith, eq_iff, All,
  Option, some, List, [], ◌∷◌, any, ◌==◌, string_eq,
}
use otl_voice.Prelude.Dict.{Dict}
use otl_voice.Prelude.Result.{ok, >>=-eq-ok}
use otl_voice.Python.Text.{text_length, is_space, strip, all_chars, strip_of_no_space}
use otl_voice.Python.Value.{Value, null, str}
use otl_voice.Idempotency.Key.{
  is_alnum, is_key_char, full_match, validate_idempotency_key, supplied, with_fallback,
  validate_all, agreed, key_fields, idempotency_key_for_entry,
}

key_char_no_space : (c : ℕ) → is_key_char c ≡ true → is_space c ≡ false
unfolding is_key_char is_space
key_char_no_space c h = ground arith

pub alnum_key_char : (c : ℕ) → is_alnum c ≡ true → is_key_char c ≡ true
unfolding is_key_char
alnum_key_char c h = ground arith

all_key_chars_no_space :
    (s : String) → all_chars is_key_char s ≡ true → all_chars (λ c. not (is_space c)) s ≡ true
all_key_chars_no_space String.[] h = refl
all_key_chars_no_space (String.◌∷◌ c s) h =
    ground (arith, key_char_no_space (code c), all_key_chars_no_space s)

strip-full_match : (s : String) → full_match 127 s ≡ true → strip s ≡ s
unfolding full_match
strip-full_match String.[] h = absurd (ground arith)
strip-full_match (String.◌∷◌ c s) h =
    strip_of_no_space (String.◌∷◌ c s) (
      ground (arith, alnum_key_char (code c), key_char_no_space (code c), all_key_chars_no_space s))

accepted_matches : (s : String) → validate_idempotency_key (str s) ≡ ok s → full_match 127 s ≡ true
unfolding validate_idempotency_key
accepted_matches s h = ground arith

full_match_bounds :
    (s : String) → full_match 127 s ≡ true → (0 < text_length s) × (text_length s ≤ 128)
unfolding full_match
full_match_bounds String.[] h = absurd (ground arith)
full_match_bounds (String.◌∷◌ c s) h = ground arith

pub matching_accepted :
    (s : String) → full_match 127 s ≡ true → validate_idempotency_key (str s) ≡ ok s
unfolding validate_idempotency_key
matching_accepted String.[] h = absurd (omega (arith, full_match_bounds "" h))
matching_accepted (String.◌∷◌ c s) h =
    let text = String.◌∷◌ c s in
    ground (arith, full_match_bounds text, strip-full_match text, eq_iff text (strip text))

pub accepted_key :
    (value : Value) (key : String)
    → validate_idempotency_key value ≡ ok key
    → (value ≡ str key) × (full_match 127 key ≡ true)
unfolding validate_idempotency_key
accepted_key (str s) key h = ground (arith, accepted_matches s)
accepted_key null key h = cc
accepted_key _ key h = cc

All-validated :
    (values : List Value) (keys : List String) (key : String)
    → validate_all values ≡ ok keys
    → any (λ k. not (k == key)) keys ≡ false
    → All (λ value. value ≡ str key) values
unfolding validate_all
All-validated [] keys key h same = tt
All-validated (value ∷ values) keys key h same =
    let (k, first, more) = >>=-eq-ok (validate_idempotency_key value) _ h in
    let (ks, rest, done) = >>=-eq-ok (validate_all values) _ more in
    ground (arith, accepted_key value k first, eq_iff k key, All-validated values ks key rest)

agreed-All :
    (values : List Value) (keys : List String) (key : String)
    → validate_all values ≡ ok keys
    → agreed keys ≡ ok (some key)
    → (full_match 127 key ≡ true) × All (λ value. value ≡ str key) values
unfolding agreed validate_all
agreed-All values [] key h picked = cc
agreed-All [] (k ∷ ks) key h picked = cc
agreed-All (value ∷ values) (k ∷ ks) key h picked =
    let (first, accepted, more) = >>=-eq-ok (validate_idempotency_key value) _ h in
    let (rest, others, done) = >>=-eq-ok (validate_all values) _ more in
    ground
      (arith, accepted_key value first accepted, eq_iff k key, All-validated values rest k others)

-- Every key that `idempotency_key_for_entry` finds, in an entry or as the fallback, is a text that
-- matches the pattern, and all the keys supplied are that same text.
pub for_entry-agrees :
    (entry : Dict Value) (fallback : Option String) (key : String)
    → idempotency_key_for_entry entry fallback ≡ ok (some key)
    → (full_match 127 key ≡ true)
      × All (λ value. value ≡ str key) (with_fallback (supplied entry key_fields) fallback)
unfolding idempotency_key_for_entry agreed
for_entry-agrees entry fallback key h =
    let values = with_fallback (supplied entry key_fields) fallback in
    let (keys, all, picked) = >>=-eq-ok (validate_all values) agreed h in
    agreed-All values keys key all picked

-- The codes of the letters A to Z and a to z and of the digits 0 to 9.
abbrev pub IsAlnum : ℕ → Type 0
IsAlnum c = ((65 ≤ c) × (c ≤ 90)) ⊎ ((97 ≤ c) × (c ≤ 122)) ⊎ ((48 ≤ c) × (c ≤ 57))

-- One of these, or the dot, the underscore, the colon or the hyphen.
abbrev pub IsKeyChar : ℕ → Type 0
IsKeyChar c = IsAlnum c ⊎ (c ≡ 46) ⊎ (c ≡ 95) ⊎ (c ≡ 58) ⊎ (c ≡ 45)

abbrev pub EachKeyChar : String → Type 0
EachKeyChar String.[] = Unit
EachKeyChar (String.◌∷◌ c s) = IsKeyChar (code c) × EachKeyChar s

-- A request key: a letter or digit, and at most 127 such characters after it.
abbrev pub IsKey : String → Type 0
IsKey String.[] = ⊥
IsKey (String.◌∷◌ c s) = IsAlnum (code c) × EachKeyChar s × (text_length s ≤ 127)

is_alnum_iff : (c : ℕ) → (is_alnum c ≡ true) ↔ IsAlnum c
unfolding is_alnum
is_alnum_iff c = (λ h. ground (arith, h), λ h. ground (arith, h))

is_key_char_iff : (c : ℕ) → (is_key_char c ≡ true) ↔ IsKeyChar c
unfolding is_key_char
is_key_char_iff c = (λ h. ground (arith, h, is_alnum_iff c), λ h. ground (arith, h, is_alnum_iff c))

EachKeyChar-iff : (s : String) → (all_chars is_key_char s ≡ true) ↔ EachKeyChar s
EachKeyChar-iff String.[] = (λ h. tt, λ h. refl)
EachKeyChar-iff (String.◌∷◌ c s) =
    let (first, first') = is_key_char_iff (code c) in
    let (rest, rest') = EachKeyChar-iff s in
    (
      λ h. (first (ground (arith, h)), rest (ground (arith, h))),
      λ (h, hs). ground (arith, first' h, rest' hs),
    )

full_match_iff : (s : String) → (full_match 127 s ≡ true) ↔ IsKey s
unfolding full_match
full_match_iff String.[] = (λ h. cc, λ h. absurd h)
full_match_iff (String.◌∷◌ c s) =
    let (first, first') = is_alnum_iff (code c) in
    let (rest, rest') = EachKeyChar-iff s in
    (
      λ h. (first (ground (arith, h)), rest (ground (arith, h)), ground (arith, h)),
      λ (h, hs, short). ground (arith, first' h, rest' hs, short),
    )

-- A value is accepted as a request key exactly if it is a text of 1 to 128 letters A to Z or a to z,
-- digits, dots, underscores, colons and hyphens that begins with a letter or digit, and the key is
-- that text, unchanged.
pub validate_idempotency_key_iff :
    (value : Value) (key : String)
    → (validate_idempotency_key value ≡ ok key) ↔ ((value ≡ str key) × IsKey key)
validate_idempotency_key_iff value key = (
  λ h. let (same, matched) = accepted_key value key h in (same, (full_match_iff key).0 matched),
  λ (same, h). ap validate_idempotency_key same ∙ matching_accepted key ((full_match_iff key).1 h),
)
