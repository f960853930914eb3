-- ===== src/Api/RequestIds.antt =====
-- The ids of a submission in `submit_timecard` of backend/api/v1/timecards.py: those of the header, of
-- the body and of the entries.
use otl_voice.Prelude.{
  ℕ, ◌≡◌, ◌⊎◌, refl, sym, inl, inr, Bool, false, not, Option, none, some, List, [], ◌∷◌, String,
  arith, any, length, ◌==◌, nat_eq, string_eq, if◌then◌else◌,
}
use otl_voice.Prelude.Dict.{Dict}
use otl_voice.Prelude.Result.{Result, ok, err, ◌>>=◌, >>=-eq-ok}
use otl_voice.Python.Text.{is_empty}
use otl_voice.Python.Value.{Value}
use otl_voice.Idempotency.Key.{KeyError, idempotency_key_for_entry}

-- An `IdempotencyKeyError` within the handler
pub data IdError : Type 0 where
  key_error : KeyError → IdError
  conflicting_ids own_id_each repeated_id : IdError

-- `a or b` of texts
abbrev pub or_else : Option String → Option String → Option String
or_else none other = other
or_else (some text) other = if is_empty text then other else some text

checked : Result KeyError (Option String) → Result IdError (Option String)
checked (ok key) = ok key
checked (err e) = err (key_error e)

-- The id of the header and the one of the body, where there are both.
same_ids : Option String → Option String → Result IdError Unit
unfolding checked
same_ids none own = ok tt
same_ids (some header) none = ok tt
same_ids (some header) (some own) =
    checked (idempotency_key_for_entry [] (some header)) >>= (λ first.
      checked (idempotency_key_for_entry [] (some own))
      >>= (λ second. if header == own then ok tt else err conflicting_ids))

-- An id of the submission is well-formed, and stands for a single entry.
pub single_if_given : Option String → ℕ → Result IdError Unit
unfolding checked
single_if_given none count = ok tt
single_if_given (some id) count =
    checked (idempotency_key_for_entry [] (some id))
    >>= (λ key. if count == 1 then ok tt else err own_id_each)

abbrev differs : Option String → String → Bool
differs none own = false
differs (some id) own = not (own == id)

-- One round of the loop over the entries, from the ids that were seen to those that are.
seen_with : Option String → List String → Option String → Result IdError (List String)
seen_with request_id seen none = ok seen
seen_with request_id seen (some own) =
    if differs request_id own
    then err conflicting_ids
    else if any (λ id. id == own) seen
    then err repeated_id
    else ok (own ∷ seen)

check_ids : Option String → List String → List (Dict Value) → Result IdError Unit
unfolding checked seen_with
check_ids request_id seen [] = ok tt
check_ids request_id seen (entry ∷ entries) =
    checked (idempotency_key_for_entry entry none) >>= (λ own.
      seen_with request_id seen own >>= (λ seen_now. check_ids request_id seen_now entries))

-- The id of the submission, if the ids pass.
unfoldable pub request_id_of :
    Option String → Option String → List (Dict Value) → Result IdError (Option String)
unfolding same_ids single_if_given check_ids
request_id_of header own entries =
    let request_id = or_else own header in
    same_ids header own >>= (λ agreed.
      single_if_given request_id (length entries)
      >>= (λ single. check_ids request_id [] entries >>= (λ unique. ok request_id)))

single_if_given_lem :
    (request_id : Option String) (count : ℕ) (single : Unit)
    → single_if_given request_id count ≡ ok single
    → (request_id ≡ none) ⊎ (count ≡ 1)
unfolding single_if_given
single_if_given_lem none count single h = inl refl
single_if_given_lem (some id) count single h = inr (ground (arith, h))

pub request_id_of-single :
    (header own request_id : Option String) (entries : List (Dict Value))
    → request_id_of header own entries ≡ ok request_id
    → (request_id ≡ none) ⊎ (length entries ≡ 1)
unfolding request_id_of
request_id_of-single header own request_id entries h =
    let given = or_else own header in
    let (agreed, e1, h1) = >>=-eq-ok (same_ids header own) _ h in
    let (single, e2, h2) = >>=-eq-ok (single_if_given given (length entries)) _ h1 in
    let (unique, e3, h3) = >>=-eq-ok (check_ids given [] entries) _ h2 in
    let same : given ≡ request_id = cc in
    rw (sym same) (single_if_given_lem given (length entries) single e2)
