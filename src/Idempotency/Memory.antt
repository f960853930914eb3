-- ===== src/Idempotency/Memory.antt =====
-- `_MemoryBackend` of backend/services/idempotency.py. The lock makes each method one step. The
-- clock's reading `now` and the fresh token of `uuid.uuid4` are arguments.
use otl_voice.Prelude.{
  ℕ, ◌+◌, Bool, true, false, not, ◌||◌, Option, none, some, String, leb, ◌==◌, string_eq,
  if◌then◌else◌,
}
use otl_voice.Prelude.Dict.{Dict, erase}
use otl_voice.Prelude.Map.{Map, put, remove, restrict}
use otl_voice.Python.Value.{Value}
use otl_voice.Idempotency.Sanitize.{sanitize, is_ambiguous_result}
use otl_voice.Idempotency.Record.{
  State, Record, Claim, is_pending, conflict_result, finished, owned_by, is_live, replayed,
}

-- `_cleanup`
abbrev pub cleanup : ℕ → Map Record → Map Record
cleanup now = restrict (is_live now)

abbrev pub fresh : String → String → ℕ → ℕ → ℕ → Record
fresh request_hash token ttl lease now = record {
  state = State.pending;
  request_hash = request_hash;
  result_json = none;
  owner_token = some token;
  lease_until = now + lease;
  expires_at = now + ttl;
}

abbrev reclaim : Record → String → ℕ → Record
reclaim r token until = record r {
  state = State.pending;
  owner_token = some token;
  lease_until = until;
}

unfinished : String → String → ℕ → ℕ → Record → Map Record → Map Record × Claim
unfinished key token lease now r s =
    if leb r.lease_until now
    then (put key (reclaim r token (now + lease)) s, Claim.claimed token)
    else (s, Claim.pending)

answer : String → String → ℕ → ℕ → Record → Option (Dict Value) → Map Record → Map Record × Claim
answer key token lease now r (some result) s = (s, Claim.replay (replayed result))
answer key token lease now r none s = unfinished key token lease now r s

claim_found : String → String → String → ℕ → ℕ → ℕ → Option Record → Map Record → Map Record × Claim
claim_found key request_hash token ttl lease now none s =
    (put key (fresh request_hash token ttl lease now) s, Claim.claimed token)
claim_found key request_hash token ttl lease now (some r) s =
    if not (r.request_hash == request_hash)
    then (s, Claim.conflict conflict_result)
    else answer key token lease now r (finished r) s

unfoldable pub claim : String → String → String → ℕ → ℕ → ℕ → Map Record → Map Record × Claim
unfolding claim_found answer unfinished
claim key request_hash token ttl lease now s =
    let s' = cleanup now s in claim_found key request_hash token ttl lease now (s' key) s'

refuses : String → ℕ → Record → Bool
refuses token now r =
    not (is_pending r.state)
    || not (owned_by token r.owner_token)
    || leb r.lease_until now
    || leb r.expires_at now

abbrev pub completed : Record → Dict Value → Record
completed r safe = record r {
  state = State.complete;
  result_json = some safe;
  owner_token = none;
  lease_until = 0;
}

complete_found : String → String → Dict Value → ℕ → Option Record → Map Record → Map Record × Bool
unfolding refuses
complete_found key token safe now none s = (s, false)
complete_found key token safe now (some r) s =
    if refuses token now r
    then (s, false)
    else if is_ambiguous_result safe
    then (remove key s, true)
    else (put key (completed r safe) s, true)

abbrev pub shown : (Value → String) → Option (Dict Value) → Option (Dict Value)
shown repr none = none
shown repr (some result) = some (sanitize repr (replayed (erase "_owner_token" result)))

abbrev pub stored : Option Record → Option (Dict Value)
stored none = none
stored (some r) = finished r

module _ (repr : Value → String) where
  unfoldable pub complete : String → String → Dict Value → ℕ → Map Record → Map Record × Bool
  unfolding complete_found
  complete key token result now s = complete_found key token (sanitize repr result) now (s key) s

  unfoldable pub read : String → ℕ → Map Record → Map Record × Option (Dict Value)
  read key now s = let s' = cleanup now s in (s', shown repr (stored (s' key)))
