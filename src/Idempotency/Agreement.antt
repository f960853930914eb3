-- ===== src/Idempotency/Agreement.antt =====
-- `_MemoryBackend` and `_SQLiteBackend` side by side: the same calls, on stores that hold the same
-- records, keep them the same and answer alike.
use otl_voice.Prelude.{
  ℕ, ◌≤◌, ◌<◌, ◌≡◌, ◌⊎◌, inl, inr, refl, true, false, Option, none, some, String, arith, eq_iff,
  eq_refl, string_eq, Option-cases,
}
use otl_voice.Prelude.Dict.{Dict, lookup, erase_absent}
use otl_voice.Prelude.Result.{ok}
use otl_voice.Prelude.Map.{Map, remove}
use otl_voice.Python.Value.{Value}
use otl_voice.Idempotency.Sanitize.{sanitize, is_ambiguous_result}
use otl_voice.Idempotency.Record.{State, Record, Row, Claim}
use otl_voice.Idempotency.Sanitize.Lookup.{known}
use otl_voice.Idempotency.Sanitize.Public.{sanitize-IsPublic}
use otl_voice.Idempotency.Memory
use otl_voice.Idempotency.Sqlite.{healthy, claim_step, complete_step, read, shown}

abbrev pub forget : Option Row → Option Record
forget none = none
forget (some row) = some row.base

abbrev pub Agree : Map Record → Map Row → Type 0
Agree m t = (k : String) → m k ≡ forget (t k)

-- A record that is complete has a result, and no result names an owner.
abbrev HasResult : Option (Dict Value) → Type 0
HasResult none = ⊥
HasResult (some result) = lookup "_owner_token" result ≡ none

abbrev StateSound : State → Option (Dict Value) → Type 0
StateSound State.pending result = Unit
StateSound State.complete result = HasResult result

abbrev RecordSound : Option Record → Type 0
RecordSound none = Unit
RecordSound (some r) = StateSound r.state r.result_json

abbrev pub Sound : Map Record → Type 0
Sound m = (k : String) → RecordSound (m k)

abbrev Unowned : Option (Dict Value) → Type 0
Unowned none = Unit
Unowned (some result) = lookup "_owner_token" result ≡ none

finished-Unowned :
    (s : State) (o : Option (Dict Value))
    → StateSound s o
    → Unowned (elim s [ State.pending ↦ none | State.complete ↦ o ])
finished-Unowned State.pending o h = tt
finished-Unowned State.complete none h = tt
finished-Unowned State.complete (some result) h = h

module _ (repr : Value → String) where
  abbrev pub sanitized_replay : Claim → Claim
  sanitized_replay (Claim.replay result) = Claim.replay (sanitize repr result)
  sanitized_replay (Claim.claimed token) = Claim.claimed token
  sanitized_replay Claim.pending = Claim.pending
  sanitized_replay (Claim.conflict result) = Claim.conflict result

  claim_answers :
      (ttl lease : ℕ) (key hash token : String) (now : ℕ) (m : Map Record) (t : Map Row)
      → Agree m t
      → Sound m
      → (claim_step repr key hash token ttl lease now t).1
        ≡ sanitized_replay (Memory.claim key hash token ttl lease now m).1
  unfolding claim_step Memory.claim
  claim_answers ttl lease key hash token now m t same sound = ground (arith, same key, sound key)

  claim_tables :
      (ttl lease : ℕ) (key hash token : String) (now : ℕ) (m : Map Record) (t : Map Row)
      → Agree m t
      → Sound m
      → Agree
          (Memory.claim key hash token ttl lease now m).0
          (claim_step repr key hash token ttl lease now t).0
  unfolding claim_step Memory.claim
  claim_tables ttl lease key hash token now m t same sound j =
      ground (arith, same key, same j, sound key, eq_iff key j)

  claim-Sound :
      (ttl lease : ℕ) (key hash token : String) (now : ℕ) (m : Map Record)
      → Sound m
      → Sound (Memory.claim key hash token ttl lease now m).0
  unfolding Memory.claim
  claim-Sound ttl lease key hash token now m sound j =
      ground (arith, sound key, sound j, eq_iff key j)

  -- `claim`: the stores stay the same, and the answers are the same but that SQLite sanitises a
  -- replayed result once more. The state must have a result for each complete record, and keeps it.
  pub claim_agrees :
      (ttl lease : ℕ) (key hash token : String) (now : ℕ) (m : Map Record) (t : Map Row)
      → Agree m t
      → Sound m
      → let (m', answer) = Memory.claim key hash token ttl lease now m in
        let (t', answer') = claim_step repr key hash token ttl lease now t in
        Agree m' t' × (answer' ≡ sanitized_replay answer) × Sound m'
  claim_agrees ttl lease key hash token now m t same sound = (
    claim_tables ttl lease key hash token now m t same sound,
    claim_answers ttl lease key hash token now m t same sound,
    claim-Sound ttl lease key hash token now m sound,
  )

  no_owner_token : (result : Dict Value) → lookup "_owner_token" (sanitize repr result) ≡ none
  unfolding known
  no_owner_token result = elim (Option-cases (lookup "_owner_token" (sanitize repr result))) [
    | inl absent ↦ absent
    | inr (v, e) ↦ cc ((sanitize-IsPublic repr result).fields "_owner_token" v e)
  ]

  -- The row of a key, if there is one, has not run out of its lease or its lifetime.
  abbrev pub Timely : ℕ → Option Row → Type 0
  Timely now none = Unit
  Timely now (some row) = (now < row.lease_until) × (now < row.expires_at)

  complete_tables :
      (key token : String) (result : Dict Value) (now : ℕ) (m : Map Record) (t : Map Row)
      → Agree m t
      → (is_ambiguous_result (sanitize repr result) ≡ false) ⊎ Timely now (t key)
      → ((complete_step repr key token result now t).1
          ≡ (Memory.complete repr key token result now m).1)
        × Agree
            (Memory.complete repr key token result now m).0
            (complete_step repr key token result now t).0
  unfolding complete_step Memory.complete
  complete_tables key token result now m t same timely =
      (ground (arith, same key), λ j. ground (arith, same key, same j, eq_iff key j))

  complete-Sound :
      (key token : String) (result : Dict Value) (now : ℕ) (m : Map Record)
      → Sound m
      → Sound (Memory.complete repr key token result now m).0
  unfolding Memory.complete
  complete-Sound key token result now m sound j =
      ground (arith, sound key, sound j, eq_iff key j, no_owner_token result)

  -- `complete`: the same answer and the same stores, unless the result is ambiguous and comes after
  -- the end of the lease or of the record.
  pub complete_agrees :
      (key token : String) (result : Dict Value) (now : ℕ) (m : Map Record) (t : Map Row)
      → Agree m t
      → Sound m
      → (is_ambiguous_result (sanitize repr result) ≡ false) ⊎ Timely now (t key)
      → let (m', done) = Memory.complete repr key token result now m in
        let (t', done') = complete_step repr key token result now t in
        Agree m' t' × (done' ≡ done) × Sound m'
  complete_agrees key token result now m t same sound timely =
      let (answers, tables) = complete_tables key token result now m t same timely in
      (tables, answers, complete-Sound key token result now m sound)

  -- An ambiguous result that comes late is refused by the memory backend, and frees the key in
  -- SQLite.
  pub late_release_differs :
      (key token : String) (result : Dict Value) (now : ℕ) (m : Map Record) (t : Map Row)
      (row : Row)
      → Agree m t
      → t key ≡ some row
      → row.state ≡ State.pending
      → row.owner_token ≡ some token
      → is_ambiguous_result (sanitize repr result) ≡ true
      → row.lease_until ≤ now
      → (Memory.complete repr key token result now m ≡ (m, false))
        × (complete_step repr key token result now t ≡ (remove key t, true))
  unfolding complete_step Memory.complete
  late_release_differs key token result now m t row same e p o unknown late =
      (ground (arith, same key, eq_refl token), ground (arith, eq_refl token))

  cleanup-Sound :
      (now : ℕ) (m : Map Record) (key : String)
      → RecordSound (m key)
      → RecordSound (Memory.cleanup now m key)
  cleanup-Sound now m key h = ground arith

  stored-Unowned : (o : Option Record) → RecordSound o → Unowned (Memory.stored o)
  stored-Unowned none h = tt
  stored-Unowned (some r) h = finished-Unowned r.state r.result_json h

  shown_agree : (o : Option (Dict Value)) → Unowned o → Memory.shown repr o ≡ shown repr o
  shown_agree none h = refl
  shown_agree (some result) h = rw (erase_absent "_owner_token" result h)

  read_answers :
      (key : String) (now : ℕ) (m : Map Record) (t : Map Row)
      → Agree m t
      → Sound m
      → (read repr healthy key now t).1 ≡ ok (Memory.read repr key now m).1
  unfolding read Memory.read
  read_answers key now m t same sound = ground (
    arith,
    same key,
    shown_agree (Memory.stored (Memory.cleanup now m key))
        (stored-Unowned (Memory.cleanup now m key) (cleanup-Sound now m key (sound key))),
  )

  -- `read`: the same answer and the same stores.
  pub read_agrees :
      (key : String) (now : ℕ) (m : Map Record) (t : Map Row)
      → Agree m t
      → Sound m
      → let (m', result) = Memory.read repr key now m in
        let (t', result') = read repr healthy key now t in
        Agree m' t' × (result' ≡ ok result) × Sound m'
  unfolding read Memory.read
  read_agrees key now m t same sound = (
    λ j. ground (arith, same j),
    read_answers key now m t same sound,
    λ j. ground (arith, sound j),
  )
