-- ===== src/Idempotency/Sqlite.antt =====
-- `_SQLiteBackend` of backend/services/idempotency.py. Each transaction is one step on the table;
-- SQLite itself is not modelled: a `Fault` says where the environment makes it fail, and a failed
-- transaction is rolled back. The clock and `uuid.uuid4` are arguments.
use otl_voice.Prelude.{
  ℕ, ◌+◌, Bool, true, false, not, ◌&&◌, Option, none, some, String, leb, ltb, ◌==◌, string_eq,
  if◌then◌else◌,
}
use otl_voice.Prelude.Dict.{Dict}
use otl_voice.Prelude.Map.{Map, put, remove, restrict}
use otl_voice.Prelude.Result.{Result, ok, err}
use otl_voice.Python.Value.{Value}
use otl_voice.Idempotency.Sanitize.{sanitize, is_ambiguous_result}
use otl_voice.Idempotency.Record.{
  Row, Claim, is_pending, conflict_result, finished, owned_by, is_live, replayed,
}
use otl_voice.Idempotency.Memory.{fresh, completed}

pub data Unavailable : Type 0 where
  unavailable : Unavailable

-- `between`: behind the first statement of a method that does not open a transaction.
pub data Fault : Type 0 where
  healthy before between : Fault

-- `DELETE FROM idempotency_records WHERE expires_at <= ?`
abbrev pub delete_expired : ℕ → Map Row → Map Row
delete_expired now = restrict (λ row. is_live now row.base)

-- `UPDATE … SET owner_token = ?, lease_until = ? WHERE key = ? AND state = 'pending'`
update_owner : String → String → ℕ → Row → Map Row → Map Row × Claim
update_owner key token until row t =
    if is_pending row.state
    then (
      put key
          (record row { base = record row.base { owner_token = some token; lease_until = until } })
          t,
      Claim.claimed token,
    )
    else (t, Claim.pending)

module _ (repr : Value → String) where
  answer : String → String → ℕ → ℕ → Row → Option (Dict Value) → Map Row → Map Row × Claim
  unfolding update_owner
  answer key token lease now row (some result) t =
      (t, Claim.replay (sanitize repr (replayed result)))
  answer key token lease now row none t =
      if leb row.lease_until now
      then update_owner key token (now + lease) row t
      else (t, Claim.pending)

  claim_found : String → String → String → ℕ → ℕ → ℕ → Option Row → Map Row → Map Row × Claim
  unfolding answer
  claim_found key request_hash token ttl lease now none t = (
    put key (record { base = fresh request_hash token ttl lease now; created_at = now }) t,
    Claim.claimed token,
  )
  claim_found key request_hash token ttl lease now (some row) t =
      if not (row.request_hash == request_hash)
      then (t, Claim.conflict conflict_result)
      else answer key token lease now row (finished row.base) t

  -- The transaction of `claim`.
  unfoldable pub claim_step : String → String → String → ℕ → ℕ → ℕ → Map Row → Map Row × Claim
  unfolding claim_found
  claim_step key request_hash token ttl lease now t =
      let t' = delete_expired now t in claim_found key request_hash token ttl lease now (t' key) t'

  unfoldable pub claim :
      Fault → String → String → String → ℕ → ℕ → ℕ → Map Row → Map Row × Result Unavailable Claim
  unfolding claim_step
  claim Fault.healthy key request_hash token ttl lease now t =
      let (t', c) = claim_step key request_hash token ttl lease now t in (t', ok c)
  claim Fault.before key request_hash token ttl lease now t = (t, err unavailable)
  claim Fault.between key request_hash token ttl lease now t = (t, err unavailable)

  -- `DELETE … WHERE key = ? AND state = 'pending' AND owner_token = ?`
  release : String → String → Option Row → Map Row → Map Row × Bool
  release key token none t = (t, false)
  release key token (some row) t =
      if is_pending row.state && owned_by token row.owner_token
      then (remove key t, true)
      else (t, false)

  -- `UPDATE … SET state = 'complete' … AND owner_token = ? AND lease_until > ? AND expires_at > ?`
  record_result : String → String → Dict Value → ℕ → Option Row → Map Row → Map Row × Bool
  record_result key token safe now none t = (t, false)
  record_result key token safe now (some row) t =
      if is_pending row.state
        && owned_by token row.owner_token
        && ltb now row.lease_until
        && ltb now row.expires_at
      then (put key (record row { base = completed row.base safe }) t, true)
      else (t, false)

  unfoldable pub complete_step : String → String → Dict Value → ℕ → Map Row → Map Row × Bool
  unfolding release record_result
  complete_step key token result now t =
      let safe = sanitize repr result in
      if is_ambiguous_result safe
      then release key token (t key) t
      else record_result key token safe now (t key) t

  unfoldable pub complete :
      Fault → String → String → Dict Value → ℕ → Map Row → Map Row × Result Unavailable Bool
  unfolding complete_step
  complete Fault.healthy key token result now t =
      let (t', done) = complete_step key token result now t in (t', ok done)
  complete Fault.before key token result now t = (t, err unavailable)
  complete Fault.between key token result now t = (t, err unavailable)

  abbrev pub shown : Option (Dict Value) → Option (Dict Value)
  shown none = none
  shown (some result) = some (sanitize repr (replayed result))

  abbrev pub stored : Option Row → Option (Dict Value)
  stored none = none
  stored (some row) = finished row.base

  unfoldable pub read :
      Fault → String → ℕ → Map Row → Map Row × Result Unavailable (Option (Dict Value))
  read Fault.healthy key now t = let t' = delete_expired now t in (t', ok (shown (stored (t' key))))
  read Fault.before key now t = (t, err unavailable)
  read Fault.between key now t = (delete_expired now t, err unavailable)
