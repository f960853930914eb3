-- ===== src/Otl/Submit.antt =====
-- `create_many` and `acreate_many` of backend/services/otl_client.py over the idempotency store. A
-- row is one entry of a submission: it begins with its claim, sends its request, and ends with the
-- completion of the claim. Between these steps other rows and processes may use the store. The
-- rows of `create_many` run one after the other; those of `acreate_many` overlap, so for them only the
-- steps are modelled.
pub mod Once
pub mod Keys
pub mod Ready
pub mod Rows
use Prim.Native.String.{◌++◌ as ◌<>◌}
use otl_voice.Prelude.{
  ℕ, ◌+◌, ◌≡◌, Bool, true, false, not, ◌&&◌, ◌||◌, Option, none, some, List, [], ◌∷◌, String, any,
  length, if◌then◌else◌,
}
use otl_voice.Prelude.Dict.{Dict, insert}
use otl_voice.Prelude.Int.{pos}
use otl_voice.Prelude.Result.{Result, ok, err, ◌>>=◌}
use otl_voice.Python.Text.{strip, is_empty}
use otl_voice.Python.Number.{nat_text}
use otl_voice.Python.Value.{Value, Decimal, int, str, to_text, truthy, get_or_none}
use otl_voice.Config.{Environ}
use otl_voice.Idempotency.Key.{KeyError, scoped_idempotency_key}
use otl_voice.Idempotency.Record.{Claim}
use otl_voice.Idempotency.Sqlite.{Unavailable, Fault}
use otl_voice.Idempotency.Store.{
  Backend, Settings, StoreError, invalid_key, store_unavailable, store_claim,
}
use otl_voice.Otl.Results.{
  failure_result, oracle_failure_result, store_unavailable_result, claim_lost_result,
}
use otl_voice.Otl.Create.{
  Posted, Created, created, rejected, crashed, create_timecard_entry, default_record_name,
  success_result,
}
use otl_voice.Otl.Preflight.{Refusal, preflight_entries}

abbrev pub is_given : Option String → Bool
is_given none = false
is_given (some key) = true

-- What a row meets: the id of the submission or a fresh one, the id of an `OtlError`, the claim's
-- fault, time and token, what `wait_for_result` comes to while others use the store, the answer of
-- Oracle, the completion's fault and time, and the clock in milliseconds.
pub record Around : Type 0 where
  pub correlation : String
  pub error_id : String
  pub claim_fault : Fault
  pub claim_at : ℕ
  pub token : String
  pub waited : Result Unavailable (Dict Value)
  pub outcome : Posted
  pub complete_fault : Fault
  pub complete_at : ℕ
  pub millis : ℕ

-- A row behind its claim: it has its result, or it sends its request, under the claim it holds, or
-- the store has raised a `ValueError`.
pub data Phase : Type 0 where
  settled : Dict Value → Phase
  sending : Option (String × String) → Phase
  refused : Phase

-- `f"{correlation_id or new_correlation_id()}-{index}"`
unfoldable pub row_id : String → ℕ → String
row_id correlation index = correlation <> ("-" <> nat_text index)

-- `{**result, "index": index}`, and with the ids of the row.
abbrev pub indexed : ℕ → Dict Value → Dict Value
indexed index result = insert "index" (int (pos index)) result

abbrev pub readdressed : ℕ → String → String → Dict Value → Dict Value
readdressed index key row result =
    insert "correlationId" (str row) (insert "requestId" (str key) (indexed index result))

-- The employee number of the entry, `str(entry.get("employeeNumber") or "").strip()`.
unfoldable pub employee_of : (Value → String) → Dict Value → String
employee_of repr entry =
    let number = get_or_none "employeeNumber" entry in
    strip (if truthy number then to_text repr number else "")

-- The result of a row whose claim is pending, behind its wait.
pub waited_result : ℕ → String → String → Result Unavailable (Dict Value) → Dict Value
waited_result index key row (ok result) = readdressed index key row result
waited_result index key row (err e) = store_unavailable_result index row (some key)

-- What a row does with the answer to its claim.
unfoldable pub claimed_phase :
    ℕ → String → String → String → Result Unavailable (Dict Value) → Result StoreError Claim → Phase
unfolding waited_result
claimed_phase index key scoped row waited (ok (Claim.claimed token)) =
    sending (some (scoped, token))
claimed_phase index key scoped row waited (ok Claim.pending) =
    settled (waited_result index key row waited)
claimed_phase index key scoped row waited (ok (Claim.replay result)) =
    settled (indexed index result)
claimed_phase index key scoped row waited (ok (Claim.conflict result)) =
    settled (readdressed index key row result)
claimed_phase index key scoped row waited (err store_unavailable) =
    settled (store_unavailable_result index row (some key))
claimed_phase index key scoped row waited (err invalid_key) = refused

module _ (repr : Value → String) (decimal : String → Option Decimal) (general : ℕ → String)
    (env : Environ) (employee_hash : String → String) (fingerprint : Dict Value → String)
    (b : Backend) (s : Settings) where
  open b use {Table, complete}

  -- The claim under a key, once the employee is known.
  pub claim_scoped :
      ℕ → Dict Value → String → Result KeyError String → Around → Table → Table × Phase
  claim_scoped index entry key (err e) a t = (t, refused)
  claim_scoped index entry key (ok scoped) a t =
      let (t', answer) =
        store_claim b s a.claim_fault scoped (fingerprint entry) a.token a.claim_at t in
      (t', claimed_phase index key scoped (row_id a.correlation index) a.waited answer)

  unfoldable pub claim_row : ℕ → Dict Value → String → Around → Table → Table × Phase
  unfolding claim_scoped
  claim_row index entry key a t =
      let employee = employee_of repr entry in
      if is_empty employee
      then (t, settled (failure_result index 400 (row_id a.correlation index) (some key) none))
      else claim_scoped index entry key (scoped_idempotency_key employee_hash employee key) a t

  -- The begin of a row of `create_many`; `opened` is whether there is a store.
  unfoldable pub begin_row : Bool → ℕ → Dict Value → Option String → Around → Table → Table × Phase
  begin_row opened index entry none a t = (t, sending none)
  begin_row opened index entry (some key) a t =
      if is_empty key
      then (t, sending none)
      else if opened
      then claim_row index entry key a t
      else (t, settled (store_unavailable_result index (row_id a.correlation index) (some key)))

  -- The begin of `_submit_single` of `acreate_many`.
  unfoldable pub begin_single :
      Bool → ℕ → Dict Value → Option String → Around → Table → Table × Phase
  begin_single opened index entry none a t = (t, sending none)
  begin_single opened index entry (some key) a t =
      if is_empty key || not opened then (t, sending none) else claim_row index entry key a t

  -- The result of the request.
  unfoldable pub sent_result : ℕ → Dict Value → Option String → Around → Created → Dict Value
  sent_result index entry key a (created body) =
      success_result repr index body (default_record_name repr entry a.millis)
        (row_id a.correlation index) key
  sent_result index entry key a (rejected status correlation) =
      oracle_failure_result index status correlation key
  sent_result index entry key a crashed =
      oracle_failure_result index 500 (row_id a.correlation index) key

  -- What the row answers, by what the completion of its claim came to.
  pub completed_result :
      ℕ → Option String → Around → Dict Value → Result Unavailable Bool → Dict Value
  completed_result index key a result (ok true) = result
  completed_result index key a result (ok false) =
      claim_lost_result index (row_id a.correlation index) key
  completed_result index key a result (err e) =
      store_unavailable_result index (row_id a.correlation index) key

  -- The end of a row, with its result; `none` for the `ValueError`.
  unfoldable pub finish_row :
      ℕ → Dict Value → Option String → Around → Phase → Table → Table × Option (Dict Value)
  unfolding sent_result completed_result
  finish_row index entry key a (settled result) t = (t, some result)
  finish_row index entry key a refused t = (t, none)
  finish_row index entry key a (sending claim) t =
      let result =
        sent_result index entry key a
          (create_timecard_entry repr decimal general env entry a.error_id a.outcome) in
      elim claim [
        | none ↦ (t, some result)
        | some (scoped, token) ↦
            let (t', stored) = complete a.complete_fault scoped token result a.complete_at t in
            (t', some (completed_result index key a result stored))
      ]

  -- The list of the results; an exception of a row leaves the loop behind it.
  pub joined :
      Table × Option (Dict Value)
      → Table × Option (List (Dict Value))
      → Table × Option (List (Dict Value))
  joined (t, none) rest = (t, none)
  joined (t, some result) (t', none) = (t', none)
  joined (t, some result) (t', some results) = (t', some (result ∷ results))

  -- The rows of `create_many` from an index on.
  unfoldable pub submit_rows :
      Bool
      → ℕ
      → List (Dict Value)
      → List (Option String)
      → (ℕ → Around)
      → Table
      → Table × Option (List (Dict Value))
  unfolding joined
  submit_rows opened index [] keys around t = (t, some [])
  submit_rows opened index (entry ∷ entries) [] around t = (t, none)
  submit_rows opened index (entry ∷ entries) (key ∷ keys) around t =
      let (t1, phase) = begin_row opened index entry key (around index) t in
      let row = finish_row index entry key (around index) phase t1 in
      joined row (submit_rows opened (index + 1) entries keys around row.0)

  -- `{**entries[0], "requestId": keys[0]}` for a single entry with a key of the submission.
  unfoldable pub with_request_id :
      Option String → List (Dict Value) → List (Option String) → List (Dict Value)
  with_request_id (some id) (entry ∷ []) (some key ∷ keys) = insert "requestId" (str key) entry ∷ []
  with_request_id request_id entries keys = entries

  pub unavailable_rows : String → ℕ → List (Option String) → List (Dict Value)
  unavailable_rows correlation index [] = []
  unavailable_rows correlation index (key ∷ keys) =
      store_unavailable_result index (row_id correlation index) key
      ∷ unavailable_rows correlation (index + 1) keys

  -- The rows, if the store opens; without it no row with a key is sent.
  pub keyed_rows :
      List (Dict Value)
      → Option String
      → Bool
      → String
      → (ℕ → Around)
      → Table
      → List (Option String)
      → Table × Option (List (Dict Value))
  unfolding unavailable_rows
  keyed_rows entries request_id opens correlation around t keys =
      let wanted = any is_given keys in
      if wanted && not opens
      then (t, some (unavailable_rows correlation 0 keys))
      else submit_rows wanted 0 (with_request_id request_id entries keys) keys around t

  -- `create_many` with the store of the process; `opens` is whether `get_idempotency_store` returns.
  unfoldable pub create_many :
      List (Dict Value)
      → Option String
      → Bool
      → String
      → (ℕ → Around)
      → Table
      → Result Refusal (Table × Option (List (Dict Value)))
  unfolding keyed_rows
  create_many entries request_id opens correlation around t = do
    keys ← preflight_entries repr decimal env entries request_id
    ok (keyed_rows entries request_id opens correlation around t keys)
