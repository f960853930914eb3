-- ===== src/Otl/Submit/Keys.antt =====
-- That the keys of a submission that passes its checks are in the form of request keys, and that the
-- store accepts such a key in the scope of an employee.
use Prim.Native.String.{◌++◌}
use otl_voice.Prelude.{
  ℕ, ◌+◌, ◌≡◌, refl, true, false, Option, none, some, List, [], ◌∷◌, String, arith, All,
}
use otl_voice.Prelude.Dict.{Dict}
use otl_voice.Prelude.Result.{Result, ok, err, >>=-eq-ok}
use otl_voice.Python.Value.{Value, Decimal}
use otl_voice.Config.{Environ}
use otl_voice.Idempotency.Key.{
  KeyError, full_match, scoped_idempotency_key, idempotency_key_for_entry,
}
use otl_voice.Idempotency.Key.Accepts.{matching_accepted, for_entry-agrees}
use otl_voice.Entries.Validate.{validate_timecard_entry}
use otl_voice.Otl.Preflight.{
  preflight_entries, preflight_entries-keys_of, keys_of, checked_key, checked_entry,
}

-- A key, if there is one, is in the form of a request key.
abbrev pub Matched : Option String → Type 0
Matched none = Unit
Matched (some key) = full_match 127 key ≡ true

pub Matched-accepted :
    (employee_hash : String → String) (employee key : String)
    → full_match 127 key ≡ true
    → (scoped : String) × (scoped_idempotency_key employee_hash employee key ≡ ok scoped)
unfolding scoped_idempotency_key
Matched-accepted employee_hash employee key matched =
    ("timecard:" ++ employee_hash employee ++ ":" ++ key, rw (matching_accepted key matched) refl)

for_entry-Matched :
    (entry : Dict Value) (fallback key : Option String)
    → idempotency_key_for_entry entry fallback ≡ ok key
    → Matched key
for_entry-Matched entry fallback none h = tt
for_entry-Matched entry fallback (some key) h = (for_entry-agrees entry fallback key h).0

checked_key-same :
    (number : ℕ) (answer : Result KeyError (Option String)) (key : Option String)
    → checked_key number answer ≡ ok key
    → answer ≡ ok key
unfolding checked_key
checked_key-same number (ok key') key h = ground (arith, h)
checked_key-same number (err e) key h = cc

module _ (repr : Value → String) (decimal : String → Option Decimal) (env : Environ) where
  keys_of-Matched :
      (index : ℕ) (fallback : Option String) (entries : List (Dict Value))
      (keys : List (Option String))
      → keys_of repr decimal env index fallback entries ≡ ok keys
      → All Matched keys
  unfolding keys_of
  keys_of-Matched index fallback [] keys h =
      let same : [] ≡ keys = ground (arith, h) in rw (← same) tt
  keys_of-Matched index fallback (entry ∷ entries) keys h =
      let (key, e, h1) =
        >>=-eq-ok (checked_key (index + 1) (idempotency_key_for_entry entry fallback)) _ h in
      let (valid, e', h2) =
        >>=-eq-ok
          (checked_entry (index + 1) (validate_timecard_entry repr decimal env false none entry)) _
          h1 in
      let (rest, more, h3) =
        >>=-eq-ok (keys_of repr decimal env (index + 1) fallback entries) _ h2 in
      let same : key ∷ rest ≡ keys = ground (arith, h3) in
      rw (← same) (
        for_entry-Matched entry fallback key (checked_key-same (index + 1) _ key e),
        keys_of-Matched (index + 1) fallback entries rest more,
      )

  pub preflight_entries-Matched :
      (entries : List (Dict Value)) (request_id : Option String) (keys : List (Option String))
      → preflight_entries repr decimal env entries request_id ≡ ok keys
      → All Matched keys
  preflight_entries-Matched entries request_id keys h =
      let (few, read, unique) =
        preflight_entries-keys_of repr decimal env entries request_id keys h in
      keys_of-Matched 0 request_id entries keys read
