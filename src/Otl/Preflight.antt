-- ===== src/Otl/Preflight.antt =====
-- `_preflight_entries` of backend/services/otl_client.py: the request keys of a submission, if it may
-- be sent at all.
use otl_voice.Prelude.{
  ℕ, ◌+◌, ◌≤◌, ◌≡◌, sym, Bool, true, false, not, ◌&&◌, ◌||◌, Option, none, some, List, [], ◌∷◌,
  String, arith, ltb, length, ◌==◌, nat_eq, string_eq, if◌then◌else◌, Bool-cases, inl, inr,
}
use otl_voice.Prelude.Dict.{Dict}
use otl_voice.Prelude.Result.{Result, ok, err, ◌>>=◌, >>=-eq-ok}
use otl_voice.Python.Value.{Value, Decimal}
use otl_voice.Config.{Environ}
use otl_voice.Idempotency.Key.{KeyError, idempotency_key_for_entry}
use otl_voice.Entries.Entry.{EntryError}
use otl_voice.Entries.Validate.{validate_timecard_entry}

-- Why a submission is refused, with the number of the entry.
pub data Refusal : Type 0 where
  too_many_entries one_key_for_many repeated_key : Refusal
  bad_key : ℕ → KeyError → Refusal
  bad_entry : ℕ → EntryError → Refusal

unfoldable pub checked_key : ℕ → Result KeyError (Option String) → Result Refusal (Option String)
checked_key number (ok key) = ok key
checked_key number (err e) = err (bad_key number e)

pub checked_entry : ℕ → Result EntryError ℕ → Result Refusal Unit
checked_entry number (ok units) = ok tt
checked_entry number (err e) = err (bad_entry number e)

abbrev pub has_key : String → List (Option String) → Bool
has_key key [] = false
has_key key (none ∷ keys) = has_key key keys
has_key key (some other ∷ keys) = other == key || has_key key keys

-- The loop over `seen_keys`: a key stands once.
abbrev pub all_unique : List (Option String) → Bool
all_unique [] = true
all_unique (none ∷ keys) = all_unique keys
all_unique (some key ∷ keys) = not (has_key key keys) && all_unique keys

module _ (repr : Value → String) (decimal : String → Option Decimal) (env : Environ) where
  unfoldable pub keys_of :
      ℕ → Option String → List (Dict Value) → Result Refusal (List (Option String))
  unfolding checked_key checked_entry
  keys_of index fallback [] = ok []
  keys_of index fallback (entry ∷ entries) =
      checked_key (index + 1) (idempotency_key_for_entry entry fallback) >>= (λ key.
        checked_entry (index + 1) (validate_timecard_entry repr decimal env false none entry)
        >>= (λ valid. keys_of (index + 1) fallback entries >>= (λ keys. ok (key ∷ keys))))

  unique_keys : List (Option String) → Result Refusal (List (Option String))
  unique_keys keys = if all_unique keys then ok keys else err repeated_key

  unfoldable pub preflight_entries :
      List (Dict Value) → Option String → Result Refusal (List (Option String))
  unfolding unique_keys
  preflight_entries entries request_id =
      let alone = length entries == 1 in
      if ltb 100 (length entries) then err too_many_entries else elim request_id [
        | none ↦ keys_of 0 none entries >>= unique_keys
        | some key ↦
            if alone then keys_of 0 (some key) entries >>= unique_keys else err one_key_for_many
      ]

  keys_of-length :
      (index : ℕ) (fallback : Option String) (entries : List (Dict Value))
      (keys : List (Option String))
      → keys_of index fallback entries ≡ ok keys
      → length keys ≡ length entries
  unfolding keys_of
  keys_of-length index fallback [] keys h = ground (arith, h)
  keys_of-length index fallback (entry ∷ entries) keys h =
      let (key, e, h1) =
        >>=-eq-ok (checked_key (index + 1) (idempotency_key_for_entry entry fallback)) _ h in
      let (valid, e', h2) =
        >>=-eq-ok
          (checked_entry (index + 1) (validate_timecard_entry repr decimal env false none entry)) _
          h1 in
      let (rest, more, same) = >>=-eq-ok (keys_of (index + 1) fallback entries) _ h2 in
      ground (arith, same, keys_of-length (index + 1) fallback entries rest more)

  unique_keys-same :
      (found keys : List (Option String))
      → unique_keys found ≡ ok keys
      → (found ≡ keys) × (all_unique keys ≡ true)
  unfolding unique_keys
  unique_keys-same found keys h = elim (Bool-cases (all_unique found)) [
    | inl unique ↦
        let same : found ≡ keys = ground (arith, h, unique) in (same, rw (sym same) unique)
    | inr repeated ↦ absurd (ground (arith, h, repeated))
  ]

  keys_checked :
      (fallback : Option String) (entries : List (Dict Value)) (keys : List (Option String))
      → (keys_of 0 fallback entries >>= unique_keys) ≡ ok keys
      → (keys_of 0 fallback entries ≡ ok keys) × (all_unique keys ≡ true)
  keys_checked fallback entries keys h =
      let (found, read, checked) = >>=-eq-ok (keys_of 0 fallback entries) unique_keys h in
      let (same, unique) = unique_keys-same found keys checked in (rw (sym same) read, unique)

  -- What a submission passes for.
  pub preflight_entries-keys_of :
      (entries : List (Dict Value)) (request_id : Option String) (keys : List (Option String))
      → preflight_entries entries request_id ≡ ok keys
      → (length entries ≤ 100) × (keys_of 0 request_id entries ≡ ok keys) × (all_unique keys ≡ true)
  unfolding preflight_entries
  preflight_entries-keys_of entries none keys h = ground (arith, keys_checked none entries keys)
  preflight_entries-keys_of entries (some key) keys h =
      ground (arith, keys_checked (some key) entries keys)

  -- A submission that passes has at most 100 entries, a place for the key of each, and no key twice.
  pub preflight_entries_lem :
      (entries : List (Dict Value)) (request_id : Option String) (keys : List (Option String))
      → preflight_entries entries request_id ≡ ok keys
      → (length entries ≤ 100) × (length keys ≡ length entries) × (all_unique keys ≡ true)
  preflight_entries_lem entries request_id keys h =
      let (few, read, unique) = preflight_entries-keys_of entries request_id keys h in
      (few, keys_of-length 0 request_id entries keys read, unique)
