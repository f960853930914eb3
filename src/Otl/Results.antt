-- ===== src/Otl/Results.antt =====
-- `public_otl_error` and the results for entries that fail, of backend/services/otl_client.py.
use otl_voice.Prelude.{
  ℕ, ◌≡◌, false, ◌&&◌, ◌||◌, Option, none, some, [], ◌∷◌, String, arith, leb, ◌==◌, nat_eq,
  if◌then◌else◌,
}
use otl_voice.Prelude.Dict.{Dict, insert}
use otl_voice.Prelude.Int.{pos}
use otl_voice.Python.Text.{is_empty}
use otl_voice.Python.Value.{Value, bool, int, str}
use otl_voice.Idempotency.Sanitize.{
  oracle_unavailable, store_unavailable, claim_lost, is_ambiguous_result, run_sanitize,
}

unfoldable pub public_otl_error : ℕ → String
public_otl_error status =
    if status == 400 || status == 422
    then "Oracle rejected this timecard entry."
    else if status == 401 || status == 403
    then "Oracle authentication or authorization failed."
    else if status == 404
    then "The timecard request was not found."
    else if status == 409
    then "The timecard request conflicts with an existing request."
    else if status == 429
    then "Oracle is temporarily busy. Please retry later."
    else if leb 500 status && leb status 599
    then "Oracle Cloud is temporarily unavailable."
    else "Timecard submission failed."

-- `if text: result[key] = text`
abbrev pub insert_text : String → Option String → Dict Value → Dict Value
insert_text key none result = result
insert_text key (some text) result = if is_empty text then result else insert key (str text) result

-- `_failure_result`, without the flag `replayed`, which no caller sets.
unfoldable pub failure_result : ℕ → ℕ → String → Option String → Option String → Dict Value
failure_result index status correlation_id request_id code = insert_text "code" code (
    insert_text "requestId" request_id (
      ("index", int (pos index))
      ∷ ("ok", bool false)
      ∷ ("status", int (pos status))
      ∷ ("error", str (public_otl_error status))
      ∷ ("correlationId", str correlation_id)
      ∷ []))

unfoldable pub oracle_failure_result : ℕ → ℕ → String → Option String → Dict Value
oracle_failure_result index status correlation_id request_id =
    failure_result index status correlation_id request_id
      (if leb 500 status then some oracle_unavailable else none)

unfoldable pub store_unavailable_result : ℕ → String → Option String → Dict Value
store_unavailable_result index correlation_id request_id =
    failure_result index 503 correlation_id request_id (some store_unavailable)

unfoldable pub claim_lost_result : ℕ → String → Option String → Dict Value
claim_lost_result index correlation_id request_id =
    failure_result index 409 correlation_id request_id (some claim_lost)

-- An answer of Oracle with a status from 500 on leaves the outcome unknown, so that the claim of the
-- entry is released, and no other refusal does.
pub oracle_failure_result-ambiguous :
    (index status : ℕ) (correlation_id : String) (request_id : Option String)
    → is_ambiguous_result (oracle_failure_result index status correlation_id request_id)
      ≡ leb 500 status
unfolding oracle_failure_result failure_result run_sanitize
oracle_failure_result-ambiguous index status correlation_id none = ground arith
oracle_failure_result-ambiguous index status correlation_id (some id) = ground arith
