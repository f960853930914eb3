-- ===== src/Api/Submit.antt =====
-- `submit_timecard` of backend/api/v1/timecards.py, up to its call of `acreate_many` and with what it
-- makes of the results. `alist_assignments_for_worker` and `acreate_many` are parameters: the first
-- answers for an employee number, the second changes a state and returns results or raises. The
-- message of an `HTTPException` is a constructor.
pub mod Early
pub mod Sent
pub mod Counts
use otl_voice.Prelude.{
  ℕ, ◌+◌, ◌-◌, Bool, true, false, not, ◌&&◌, ◌||◌, Option, none, some, List, [], ◌∷◌, String, map,
  any, length, keep_if, ltb, ◌==◌, nat_eq, string_eq, if◌then◌else◌,
}
use otl_voice.Prelude.Dict.{Dict, lookup, insert}
use otl_voice.Prelude.Int.{pos}
use otl_voice.Prelude.Result.{Result, ok, err, ◌>>=◌}
use otl_voice.Python.Text.{is_empty}
use otl_voice.Python.Value.{Value, Decimal, int}
use otl_voice.Config.{Environ}
use otl_voice.Idempotency.Sanitize.{sanitize_idempotency_result, is_ok, is_retryable_result}
use otl_voice.Entries.Entry.{EntryError}
use otl_voice.Entries.Validate.{validate_timecard_entries}
use otl_voice.Otl.Credential.{OtlCredential, service_credential}
use otl_voice.Entries.Resolve.{NotIterable, Context, resolve_entry}
use otl_voice.Api.RequestIds.{IdError, or_else, request_id_of}
use otl_voice.Entries.Extract.{MalformedJson, extract_entries}

-- `TimecardBody`
pub record Body : Type 0 where
  pub entries : Option (List (Dict Value))
  pub assistant_message : Option String
  pub request_id : Option String
  pub idempotency_key : Option String

-- What the lookup of an employee's assignments comes to: it raises, returns `None`, or a list.
pub data Catalogue : Type 0 where
  lookup_failed not_loaded : Catalogue
  loaded : List Value → Catalogue

-- An `HTTPException` of the handler, or an exception that it does not catch.
pub data Rejection : Type 0 where
  malformed_message too_many no_entries : Rejection
  bad_request_id : IdError → Rejection
  invalid_entry : ℕ → EntryError → Rejection
  assignments_unavailable assignments_not_loaded submission_failed : Rejection
  uncaught : NotIterable → Rejection

unfoldable pub status_of : Rejection → ℕ
status_of malformed_message = 422
status_of too_many = 422
status_of no_entries = 400
status_of (bad_request_id e) = 400
status_of (invalid_entry number e) = 400
status_of assignments_unavailable = 503
status_of assignments_not_loaded = 503
status_of submission_failed = 502
status_of (uncaught e) = 500

text_or_empty : Option String → String
text_or_empty none = ""
text_or_empty (some text) = text

pub with_id_error : Result IdError (Option String) → Result Rejection (Option String)
with_id_error (ok request_id) = ok request_id
with_id_error (err e) = err (bad_request_id e)

with_entry_error : Result (ℕ × EntryError) Unit → Result Rejection Unit
with_entry_error (ok valid) = ok tt
with_entry_error (err (number, e)) = err (invalid_entry number e)

collected : Result MalformedJson (List (Dict Value)) → Result Rejection (List (Dict Value))
collected (ok entries) = ok entries
collected (err e) = err malformed_message

pub check_count : List (Dict Value) → Result Rejection Unit
check_count entries =
    if ltb 100 (length entries)
    then err too_many
    else if length entries == 0
    then err no_entries
    else ok tt

pub loaded_list : Catalogue → Result Rejection (List Value)
loaded_list lookup_failed = err assignments_unavailable
loaded_list not_loaded = err assignments_not_loaded
loaded_list (loaded assignments) = ok assignments

module _ (fenced : String → Option String) (loads : String → Option Value) where
  extracted : Option String → Result Rejection (List (Dict Value))
  unfolding text_or_empty collected
  extracted message = collected (extract_entries fenced loads (text_or_empty message))

  -- `body.entries or _extract_entries(body.assistantMessage or "")`
  unfoldable pub entries_of :
      Option (List (Dict Value)) → Option String → Result Rejection (List (Dict Value))
  unfolding extracted
  entries_of none message = extracted message
  entries_of (some []) message = extracted message
  entries_of (some (entry ∷ entries)) message = ok (entry ∷ entries)

module _ (repr : Value → String) (decimal : String → Option Decimal) (casefold : String → String)
    (env : Environ) where
  pub valid_entries : Option (List Value) → List (Dict Value) → Result Rejection Unit
  unfolding with_entry_error
  valid_entries assignments entries =
      with_entry_error (validate_timecard_entries repr decimal env assignments entries)

  -- `[_resolve_entry(entry, ctx, assignments) for entry in entries]`
  pub resolve_all : Context → List Value → List (Dict Value) → Result Rejection (List (Dict Value))
  resolve_all ctx assignments [] = ok []
  resolve_all ctx assignments (entry ∷ entries) =
      elim (resolve_entry repr casefold ctx (some assignments) entry) [
        | err e ↦ err (uncaught e)
        | ok resolved ↦ resolve_all ctx assignments entries >>= (λ others. ok (resolved ∷ others))
      ]

  -- What is sent for the entries, with the id of the submission, if they pass.
  unfoldable pub prepared :
      Context
      → Catalogue
      → Option String
      → Option String
      → List (Dict Value)
      → Result Rejection (List (Dict Value) × Option String)
  unfolding check_count with_id_error valid_entries loaded_list resolve_all
  prepared ctx catalogue header own entries = check_count entries >>= (λ few.
      with_id_error (request_id_of header own entries) >>= (λ request_id.
        valid_entries none entries >>= (λ valid. loaded_list catalogue >>= (λ assignments.
          valid_entries (some assignments) entries >>= (λ assigned.
            resolve_all ctx assignments entries >>= (λ resolved. ok (resolved, request_id)))))))

-- The response
pub record Reply : Type 0 where
  pub status : ℕ
  pub submitted : ℕ
  pub succeeded : ℕ
  pub failed : ℕ
  pub results : List (Dict Value)

-- `safe_result.setdefault("index", index)`
abbrev pub with_index : ℕ → Option Value → Dict Value → Dict Value
with_index index none result = insert "index" (int (pos index)) result
with_index index (some given) result = result

module _ (repr : Value → String) where
  unfoldable pub safe_results : ℕ → List (Dict Value) → List (Dict Value)
  safe_results index [] = []
  safe_results index (result ∷ results) =
      let safe = sanitize_idempotency_result repr (some result) in
      with_index index (lookup "index" safe) safe ∷ safe_results (index + 1) results

  unfoldable pub reply_of : List (Dict Value) → Reply
  unfolding safe_results
  reply_of found =
      let safe = safe_results 0 found in
      let succeeded = length (keep_if is_ok safe) in
      let failed = length safe - succeeded in
      record {
        status =
            if succeeded == 0 && not (failed == 0)
            then (if any is_retryable_result safe then 502 else 422)
            else 200;
        submitted = length safe;
        succeeded = succeeded;
        failed = failed;
        results = safe;
      }

module _ {S : Type 0} (fenced : String → Option String) (loads : String → Option Value)
    (repr : Value → String) (decimal : String → Option Decimal) (casefold : String → String)
    (env : Environ) (assignments_for : String → Catalogue)
    (acreate_many : OtlCredential
      → List (Dict Value)
      → Option String
      → S
      → S × Option (List (Dict Value))) where
  pub answered : S × Option (List (Dict Value)) → S × Result Rejection Reply
  answered (state, none) = (state, err submission_failed)
  answered (state, some results) = (state, ok (reply_of repr results))

  -- `await otl_client.acreate_many(otl_client.service_credential(), …)` and what follows: without a
  -- credential the call is not made.
  pub sent_with :
      Option OtlCredential → List (Dict Value) → Option String → S → S × Result Rejection Reply
  unfolding answered
  sent_with none resolved request_id state = (state, err submission_failed)
  sent_with (some credential) resolved request_id state =
      answered (acreate_many credential resolved request_id state)

  unfoldable pub sent :
      Result Rejection (List (Dict Value) × Option String) → S → S × Result Rejection Reply
  unfolding sent_with
  sent (err e) state = (state, err e)
  sent (ok (resolved, request_id)) state =
      sent_with (service_credential env) resolved request_id state

  unfoldable pub submit_timecard : Body → Option String → Context → S → S × Result Rejection Reply
  submit_timecard body header ctx state =
      let own = or_else body.request_id body.idempotency_key in
      sent
        (entries_of fenced loads body.entries body.assistant_message
          >>= prepared repr decimal casefold env ctx (assignments_for ctx.employee_id) header own)
        state
