-- ===== src/Api/Submit/Early.antt =====
-- With which status `submit_timecard` turns a request down before it sends anything.
use otl_voice.Prelude.{
  ℕ, ◌≡◌, refl, ◌⊎◌, Option, none, some, List, [], ◌∷◌, String, length, ltb, ◌==◌, nat_eq,
  Bool-cases, inl, inr,
}
use otl_voice.Prelude.Dict.{Dict}
use otl_voice.Prelude.Result.{Result, ok, err, ◌>>=◌}
use otl_voice.Python.Value.{Value, Decimal}
use otl_voice.Config.{Environ}
use otl_voice.Entries.Entry.{EntryError}
use otl_voice.Entries.Validate.{validate_timecard_entries}
use otl_voice.Entries.Resolve.{Context, resolve_entry}
use otl_voice.Entries.Extract.{MalformedJson, extract_entries}
use otl_voice.Api.RequestIds.{IdError, request_id_of}
use otl_voice.Api.Submit.{
  Catalogue, lookup_failed, not_loaded, loaded, Rejection, status_of, request_id_of, with_id_error,
  check_count, loaded_list, entries_of, valid_entries, prepared, resolve_all, collected, extracted,
  text_or_empty, with_entry_error,
}

pub Result-cases :
    {E A : Type 0} (r : Result E A) → ((value : A) × (r ≡ ok value)) ⊎ ((e : E) × (r ≡ err e))
Result-cases (ok value) = inl (value, refl)
Result-cases (err e) = inr (e, refl)

-- A rejection before anything is sent
abbrev pub IsEarly : {A : Type 0} → Result Rejection A → Type 0
IsEarly (ok value) = Unit
IsEarly (err e) =
    (status_of e ≡ 400) ⊎ (status_of e ≡ 422) ⊎ (status_of e ≡ 503) ⊎ (status_of e ≡ 500)

pub >>=-IsEarly :
    {A B : Type 0} (call : Result Rejection A) (rest : A → Result Rejection B)
    → IsEarly call
    → ((value : A) → IsEarly (rest value))
    → IsEarly (call >>= rest)
>>=-IsEarly (ok value) rest first later = later value
>>=-IsEarly (err e) rest first later = first

check_count-IsEarly : (entries : List (Dict Value)) → IsEarly (check_count entries)
unfolding check_count status_of
check_count-IsEarly entries = elim (Bool-cases (ltb 100 (length entries))) [
  | inl long ↦ rw long (inr (inl refl))
  | inr few ↦ rw few (elim (Bool-cases (length entries == 0)) [
    | inl empty ↦ rw empty (inl refl)
    | inr filled ↦ rw filled tt
  ])
]

with_id_error-IsEarly : (ids : Result IdError (Option String)) → IsEarly (with_id_error ids)
unfolding with_id_error status_of
with_id_error-IsEarly (ok given) = tt
with_id_error-IsEarly (err e) = inl refl

with_entry_error-IsEarly : (found : Result (ℕ × EntryError) Unit) → IsEarly (with_entry_error found)
unfolding with_entry_error status_of
with_entry_error-IsEarly (ok passed) = tt
with_entry_error-IsEarly (err (number, e)) = inl refl

loaded_list-IsEarly : (catalogue : Catalogue) → IsEarly (loaded_list catalogue)
unfolding loaded_list status_of
loaded_list-IsEarly lookup_failed = inr (inr (inl refl))
loaded_list-IsEarly not_loaded = inr (inr (inl refl))
loaded_list-IsEarly (loaded assignments) = tt

collected-IsEarly : (found : Result MalformedJson (List (Dict Value))) → IsEarly (collected found)
unfolding collected status_of
collected-IsEarly (ok entries) = tt
collected-IsEarly (err e) = inr (inl refl)

pub entries_of-IsEarly :
    (fenced : String → Option String) (loads : String → Option Value)
    (given : Option (List (Dict Value))) (message : Option String)
    → IsEarly (entries_of fenced loads given message)
unfolding entries_of extracted
entries_of-IsEarly fenced loads none message =
    collected-IsEarly (extract_entries fenced loads (text_or_empty message))
entries_of-IsEarly fenced loads (some []) message =
    collected-IsEarly (extract_entries fenced loads (text_or_empty message))
entries_of-IsEarly fenced loads (some (entry ∷ entries)) message = tt

module _ (repr : Value → String) (decimal : String → Option Decimal) (casefold : String → String)
    (env : Environ) where
  valid_entries-IsEarly :
      (assignments : Option (List Value)) (entries : List (Dict Value))
      → IsEarly (valid_entries repr decimal casefold env assignments entries)
  unfolding valid_entries
  valid_entries-IsEarly assignments entries =
      with_entry_error-IsEarly (validate_timecard_entries repr decimal env assignments entries)

  resolve_all-IsEarly :
      (ctx : Context) (assignments : List Value) (entries : List (Dict Value))
      → IsEarly (resolve_all repr decimal casefold env ctx assignments entries)
  unfolding resolve_all status_of
  resolve_all-IsEarly ctx assignments [] = tt
  resolve_all-IsEarly ctx assignments (entry ∷ entries) =
      elim (Result-cases (resolve_entry repr casefold ctx (some assignments) entry)) [
        | inr (e, raised) ↦ rw (resolve_all, raised) (inr (inr (inr refl)))
        | inl (resolved, found) ↦
            rw (resolve_all, found)
              (>>=-IsEarly (resolve_all repr decimal casefold env ctx assignments entries) _
                (resolve_all-IsEarly ctx assignments entries) (λ others. tt))
      ]

  pub prepared-IsEarly :
      (ctx : Context) (catalogue : Catalogue) (header own : Option String)
      (entries : List (Dict Value))
      → IsEarly (prepared repr decimal casefold env ctx catalogue header own entries)
  unfolding prepared
  prepared-IsEarly ctx catalogue header own entries =
      >>=-IsEarly (check_count entries) _ (check_count-IsEarly entries) (λ few.
        >>=-IsEarly (with_id_error (request_id_of header own entries)) _
          (with_id_error-IsEarly (request_id_of header own entries))
          (λ request_id.
            >>=-IsEarly (valid_entries repr decimal casefold env none entries) _
              (valid_entries-IsEarly none entries)
              (λ valid.
                >>=-IsEarly (loaded_list catalogue) _ (loaded_list-IsEarly catalogue)
                  (λ assignments.
                    >>=-IsEarly (valid_entries repr decimal casefold env (some assignments) entries)
                      _ (valid_entries-IsEarly (some assignments) entries)
                      (λ assigned.
                        >>=-IsEarly (resolve_all repr decimal casefold env ctx assignments entries)
                          _ (resolve_all-IsEarly ctx assignments entries) (λ resolved. tt))))))
