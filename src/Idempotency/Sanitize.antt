-- ===== src/Idempotency/Sanitize.antt =====
-- Results as backend/services/idempotency.py stores and returns them: the result codes, the public
-- messages, `_is_ambiguous_result`, `is_retryable_result` and `sanitize_idempotency_result`.
pub mod Lookup
pub mod Public
pub mod Fixed
use otl_voice.Prelude.{
  ℕ, zero, suc, ◌≡◌, Bool, true, false, not, ◌&&◌, ◌||◌, Option, none, some, List, [], ◌∷◌, code,
  String, leb, ltb, any, ◌==◌, nat_eq, string_eq, if◌then◌else◌,
}
use otl_voice.Prelude.Dict.{Dict, lookup, insert}
use otl_voice.Prelude.Int.{ℤ, pos, negsuc}
use otl_voice.Python.Text.{prefix, text_length, all_chars}
use otl_voice.Python.Value.{
  Value, null, bool, int, real, str, arr, obj, truthy, to_int, to_text, as_text,
}
use otl_voice.Idempotency.Key.{is_key_char}

abbrev pub submission_in_progress : String
submission_in_progress = "submission_in_progress"

abbrev pub request_id_conflict : String
request_id_conflict = "request_id_conflict"

abbrev pub claim_lost : String
claim_lost = "idempotency_claim_lost"

abbrev pub store_unavailable : String
store_unavailable = "idempotency_unavailable"

abbrev pub oracle_unavailable : String
oracle_unavailable = "oracle_unavailable"

unfoldable pub is_result_code : String → Bool
is_result_code c =
    c == submission_in_progress
    || c == request_id_conflict
    || c == claim_lost
    || c == store_unavailable
    || c == oracle_unavailable

unfoldable pub is_ambiguous_code : String → Bool
is_ambiguous_code c = c == store_unavailable || c == oracle_unavailable

unfoldable pub is_retryable_code : String → Bool
is_retryable_code c =
    c == submission_in_progress
    || c == claim_lost
    || c == store_unavailable
    || c == oracle_unavailable

-- `_ERROR_MESSAGES` with the two messages behind it
unfoldable pub status_message : ℤ → String
status_message (negsuc n) = "Timecard submission failed."
status_message (pos n) =
    if n == 400 || n == 422
    then "Oracle rejected this timecard entry."
    else if n == 401
    then "Oracle authentication failed."
    else if n == 403
    then "Oracle authorization failed."
    else if n == 404
    then "The timecard request was not found."
    else if n == 409
    then "The timecard request conflicts with an existing request."
    else if n == 429
    then "Oracle is temporarily busy. Please retry later."
    else if leb 500 n && leb n 599
    then "Oracle Cloud is temporarily unavailable."
    else "Timecard submission failed."

-- `_CODE_MESSAGES`
unfoldable pub code_message : String → Option String
code_message c =
    if c == submission_in_progress
    then some "A matching submission is still processing. Retry with the same requestId."
    else if c == request_id_conflict
    then some "This requestId was already used for different timecard data."
    else if c == claim_lost
    then some "The submission could not be recorded as complete. Retry with the same requestId."
    else if c == store_unavailable
    then some "The idempotency store is unavailable. Retry with the same requestId."
    else if c == oracle_unavailable
    then some "Oracle Cloud is temporarily unavailable. Retry with the same requestId."
    else none

unfoldable pub int_or_500 : Value → ℤ
unfolding to_int
int_or_500 v = elim (to_int v) [ none ↦ pos 500 | some n ↦ n ]

unfoldable pub by_code : Option String → Value → String
by_code none status = status_message (int_or_500 status)
by_code (some message) status = message

-- `_safe_error`
unfoldable pub safe_error : Value → Option String → String
unfolding by_code
safe_error status none = by_code none status
safe_error status (some c) = by_code (code_message c) status

-- `d.get(k, default)`
unfoldable pub get_default : String → Value → Dict Value → Value
unfolding lookup
get_default k default d = elim (lookup k d) [ none ↦ default | some v ↦ v ]

-- `code if isinstance(code, str) else None`
unfoldable pub code_of : Dict Value → Option String
unfolding get_default as_text
code_of result = as_text (get_default "code" null result)

unfoldable pub is_ok : Dict Value → Bool
unfolding get_default truthy
is_ok result = truthy (get_default "ok" null result)

unfoldable pub result_status : Dict Value → ℤ
unfolding get_default int_or_500
result_status result = int_or_500 (get_default "status" (int (pos 500)) result)

abbrev ℤ_le : ℕ → ℤ → Bool
ℤ_le k (pos n) = leb k n
ℤ_le k (negsuc n) = false

abbrev has_code : (String → Bool) → Option String → Bool
has_code test none = false
has_code test (some c) = test c

unfoldable pub is_ambiguous_result : Dict Value → Bool
unfolding is_ok code_of is_ambiguous_code result_status
is_ambiguous_result result =
    if is_ok result
    then false
    else if has_code is_ambiguous_code (code_of result)
    then true
    else ℤ_le 500 (result_status result)

abbrev is_status : ℕ → ℤ → Bool
is_status k (pos n) = n == k
is_status k (negsuc n) = false

unfoldable pub is_retryable_result : Dict Value → Bool
unfolding is_ok code_of is_retryable_code result_status
is_retryable_result result =
    if is_ok result
    then false
    else if has_code is_retryable_code (code_of result)
    then true
    else if has_code (λ c. c == request_id_conflict) (code_of result)
    then false
    else ℤ_le 500 (result_status result)
      || is_status 409 (result_status result)
      || is_status 429 (result_status result)

abbrev clamp_index : ℤ → ℤ
clamp_index (pos n) = pos n
clamp_index (negsuc n) = pos 0

abbrev clamp_status : ℤ → ℤ
clamp_status (negsuc n) = pos 500
clamp_status (pos n) = if leb 400 n && leb n 599 then pos n else pos 500

abbrev pub result_fields : List String
result_fields =
    "index" ∷ "ok" ∷ "id" ∷ "recordNumber" ∷ "recordName" ∷ "status" ∷ "error" ∷ "code"
    ∷ "correlationId" ∷ "requestId" ∷ "replayed" ∷ []

unfoldable pub clean_index : Option ℤ → Option Value
clean_index none = none
clean_index (some n) = some (int (clamp_index n))

unfoldable pub clean_code : Option String → Option Value
clean_code none = none
clean_code (some c) = if is_result_code c then some (str c) else none

unfoldable pub accept_correlation : String → Option Value
accept_correlation candidate =
    if all_chars is_key_char candidate
      && leb 1 (text_length candidate)
      && leb (text_length candidate) 128
    then some (str candidate)
    else none

-- `safe[name] = value`, where there is one
abbrev pub write : String → Option Value → Dict Value → Dict Value
write name none safe = safe
write name (some value) safe = insert name value safe

-- `safe.setdefault("ok", False)`
unfoldable pub with_ok : Dict Value → Dict Value
with_ok safe = elim (lookup "ok" safe) [ none ↦ insert "ok" (bool false) safe | some v ↦ safe ]

-- The `error` of a result that is not `ok`.
unfoldable pub with_error : Dict Value → Dict Value
with_error safe =
    if is_ok safe
    then safe
    else insert "error"
        (str (safe_error (get_default "status" (int (pos 500)) safe) (code_of safe))) safe

module _ (repr : Value → String) where
  unfoldable pub clean_correlation : Value → Option Value
  clean_correlation value = accept_correlation (prefix 256 (to_text repr value))

  -- One round of the loop over `_RESULT_FIELDS`: what is written for the field, if anything.
  unfoldable pub clean_field : Dict Value → String → Value → Option Value
  clean_field result name value =
      if name == "ok" || name == "replayed"
      then some (bool (truthy value))
      else if name == "index"
      then clean_index (to_int value)
      else if name == "status"
      then some (int (clamp_status (int_or_500 value)))
      else if name == "code"
      then clean_code (as_text value)
      else if name == "error"
      then some (str (safe_error (get_default "status" (int (pos 500)) result) (code_of result)))
      else if name == "correlationId"
      then clean_correlation value
      else some (str (prefix 256 (to_text repr value)))

  abbrev clean_entry : Dict Value → String → Option Value → Option Value
  clean_entry result name none = none
  clean_entry result name (some value) = clean_field result name value

  -- The loop. The set `_RESULT_FIELDS` has no order, and the list fixes one.
  unfoldable pub collect : Dict Value → List String → Dict Value → Dict Value
  collect result [] safe = safe
  collect result (name ∷ names) safe =
      collect result names (write name (clean_entry result name (lookup name result)) safe)

  -- `sanitize_idempotency_result` of a dictionary
  unfoldable pub sanitize : Dict Value → Dict Value
  sanitize result = with_error (with_ok (collect result result_fields []))

  -- `sanitize_idempotency_result` of any value
  unfoldable pub sanitize_idempotency_result : Option (Dict Value) → Dict Value
  unfolding sanitize
  sanitize_idempotency_result none =
      ("ok", bool false)
      ∷ ("status", int (pos 500))
      ∷ ("error", str (safe_error (int (pos 500)) none))
      ∷ []
  sanitize_idempotency_result (some result) = sanitize result

-- Everything that a run of `sanitize` computes with, for the tests.
unfoldable pub run_sanitize : Unit {0}
unfolding sanitize collect with_ok with_error clean_field clean_index clean_code accept_correlation
    clean_correlation safe_error by_code int_or_500 status_message code_message is_result_code
    get_default code_of is_ok lookup insert truthy to_text as_text prefix is_key_char
    is_ambiguous_result is_ambiguous_code result_status to_int
run_sanitize = tt
