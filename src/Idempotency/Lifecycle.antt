-- ===== src/Idempotency/Lifecycle.antt =====
-- From a claim to its stored result: replays, conflicts, releases, stale owners, and what a
-- reclaimed lease is worth near the end of the record's lifetime.
use otl_voice.Prelude.{
  ℕ, ◌+◌, ◌≤◌, ◌<◌, ◌≡◌, ◌≢◌, refl, true, false, some, List, [], ◌∷◌, String, arith, eq_iff,
  eq_refl, ◌==◌, string_eq, All, ap, Bool-cases, inl, inr, if◌then◌else◌,
}
use otl_voice.Prelude.Dict.{Dict}
use otl_voice.Prelude.Map.{Map, remove}
use otl_voice.Prelude.Result.{ok}
use otl_voice.Python.Value.{Value}
use otl_voice.Idempotency.Sanitize.{sanitize, is_ambiguous_result}
use otl_voice.Idempotency.Record.{State, Row, Claim, conflict_result, replayed}
use otl_voice.Idempotency.Memory.{completed}
use otl_voice.Idempotency.Sqlite.{
  healthy, before, between, claim_step, complete_step, claim, complete, read, delete_expired,
}
use otl_voice.Idempotency.Exclusive.{
  Held, Call, claims, completes, reads, step, run, claim_step-free,
}

-- The row of `key` is complete: the hash of its request, its result, and a bound below its expiry.
pub record Settled (key hash : String) (safe : Dict Value) (bound : ℕ) (t : Map Row) : Type 0 where
  pub row : Row
  pub stored : t key ≡ some row
  pub complete : row.state ≡ State.complete
  pub hashed : row.request_hash ≡ hash
  pub result : row.result_json ≡ some safe
  pub alive : bound ≤ row.expires_at

abbrev pub at_time : ℕ × Call → ℕ
at_time c = c.0

module _ (repr : Value → String) (ttl lease : ℕ) where
  module _ (key hash : String) (safe : Dict Value) (bound : ℕ) where
    delete_expired-Settled :
        (now : ℕ) (t : Map Row)
        → now < bound
        → Settled key hash safe bound t
        → Settled key hash safe bound (delete_expired now t)
    delete_expired-Settled now t early h = record {
      row = h.row;
      stored = ground (arith, h.stored);
      complete = h.complete;
      hashed = h.hashed;
      result = h.result;
      alive = h.alive;
    }

    claim_step-Settled :
        (now : ℕ) (k hash' token : String) (t : Map Row)
        → now < bound
        → Settled key hash safe bound t
        → Settled key hash safe bound (claim_step repr k hash' token ttl lease now t).0
    unfolding claim_step
    claim_step-Settled now k hash' token t early h = record {
      row = h.row;
      stored = ground (arith, h.stored, eq_iff k key);
      complete = h.complete;
      hashed = h.hashed;
      result = h.result;
      alive = h.alive;
    }

    complete_step-Settled :
        (now : ℕ) (k token : String) (result : Dict Value) (t : Map Row)
        → Settled key hash safe bound t
        → Settled key hash safe bound (complete_step repr k token result now t).0
    unfolding complete_step
    complete_step-Settled now k token result t h = record {
      row = h.row;
      stored = ground (arith, h.stored, eq_iff k key);
      complete = h.complete;
      hashed = h.hashed;
      result = h.result;
      alive = h.alive;
    }

    step-Settled :
        (c : ℕ × Call) (t : Map Row)
        → at_time c < bound
        → Settled key hash safe bound t
        → Settled key hash safe bound (step repr ttl lease c t)
    unfolding step claim complete read
    step-Settled (now, claims healthy k hash' token) t early h =
        claim_step-Settled now k hash' token t early h
    step-Settled (now, claims before k hash' token) t early h = h
    step-Settled (now, claims between k hash' token) t early h = h
    step-Settled (now, completes healthy k token result) t early h =
        complete_step-Settled now k token result t h
    step-Settled (now, completes before k token result) t early h = h
    step-Settled (now, completes between k token result) t early h = h
    step-Settled (now, reads healthy k) t early h = delete_expired-Settled now t early h
    step-Settled (now, reads before k) t early h = h
    step-Settled (now, reads between k) t early h = delete_expired-Settled now t early h

    run-Settled :
        (calls : List (ℕ × Call)) (t : Map Row)
        → All (λ c. at_time c < bound) calls
        → Settled key hash safe bound t
        → Settled key hash safe bound (run repr ttl lease calls t)
    unfolding run
    run-Settled [] t early h = h
    run-Settled (c ∷ calls) t (early, later) h =
        run-Settled calls (step repr ttl lease c t) later (step-Settled c t early h)

    Settled-replays :
        (now : ℕ) (token : String) (t : Map Row)
        → now < bound
        → Settled key hash safe bound t
        → (claim_step repr key hash token ttl lease now t).1
          ≡ Claim.replay (sanitize repr (replayed safe))
    unfolding claim_step
    Settled-replays now token t early h = ground (arith, h.stored, eq_refl hash)

    Settled-conflicts :
        (now : ℕ) (hash' token : String) (t : Map Row)
        → now < bound
        → hash ≢ hash'
        → Settled key hash safe bound t
        → (claim_step repr key hash' token ttl lease now t).1 ≡ Claim.conflict conflict_result
    unfolding claim_step
    Settled-conflicts now hash' token t early other h = ground (arith, h.stored, eq_iff hash hash')

  complete-Settled :
      (key token : String) (result : Dict Value) (now bound : ℕ) (t : Map Row)
      → (h : Held key token bound t) → now < bound
      → is_ambiguous_result (sanitize repr result) ≡ false
      → ((complete_step repr key token result now t).1 ≡ true)
        × Settled key h.row.request_hash
            (sanitize repr result)
            h.row.expires_at
            (complete_step repr key token result now t).0
  unfolding complete_step
  complete-Settled key token result now bound t h early clear = (
    ground (arith, h.stored, eq_refl token),
    record {
      row = record h.row { base = completed h.row.base (sanitize repr result) };
      stored = ground (arith, h.stored, eq_refl token, eq_refl key);
      complete = refl;
      hashed = refl;
      result = refl;
      alive = omega arith;
    },
  )

  -- Once the owner has completed a claim with a definite result, every claim of the key before the
  -- record expires is answered with that result if its request hash is the same, and with a
  -- conflict if not, whatever calls were made in between.
  pub result_is_replayed :
      (key token token' hash' : String) (result : Dict Value) (now later bound : ℕ)
      (calls : List (ℕ × Call)) (t : Map Row) (h : Held key token bound t)
      → now < bound
      → is_ambiguous_result (sanitize repr result) ≡ false
      → All (λ c. at_time c < h.row.expires_at) calls
      → later < h.row.expires_at
      → let (t', done) = complete repr healthy key token result now t in
        (done ≡ ok true)
        × ((claim repr healthy key hash' token' ttl lease later (run repr ttl lease calls t')).1 ≡ (
            if h.row.request_hash == hash'
            then ok (Claim.replay (sanitize repr (replayed (sanitize repr result))))
            else ok (Claim.conflict conflict_result)))
  unfolding claim complete
  result_is_replayed key token token' hash' result now later bound calls t h early clear between_
        last =
      let safe = sanitize repr result in
      let hash = h.row.request_hash in
      let (done, settled) = complete-Settled key token result now bound t h early clear in
      let still = run-Settled key hash safe h.row.expires_at calls _ between_ settled in
      let t' = run repr ttl lease calls (complete_step repr key token result now t).0 in
      (
        ap ok done,
        elim (Bool-cases (hash == hash')) [
          | inl same ↦
              rw (same, ← (eq_iff hash hash').0 same)
                (ap ok (Settled-replays key hash safe h.row.expires_at later token' t' last still))
          | inr other ↦ rw other (
              ap ok (
                Settled-conflicts key hash safe h.row.expires_at later hash' token' t' last
                  (λ e. ground (arith, eq_iff hash hash')) still))
        ],
      )

  complete_step-ambiguous :
      (key token : String) (result : Dict Value) (now bound : ℕ) (t : Map Row)
      → Held key token bound t
      → is_ambiguous_result (sanitize repr result) ≡ true
      → complete_step repr key token result now t ≡ (remove key t, true)
  unfolding complete_step
  complete_step-ambiguous key token result now bound t h unknown =
      ground (arith, h.stored, eq_refl token)

  -- A result that leaves the outcome unknown is not stored: the owner's `complete` frees the key,
  -- and the next claim of it is granted, whatever its request.
  pub ambiguous_is_released :
      (key token hash' token' : String) (result : Dict Value) (now later bound : ℕ) (t : Map Row)
      → Held key token bound t
      → is_ambiguous_result (sanitize repr result) ≡ true
      → let (t', done) = complete repr healthy key token result now t in
        (done ≡ ok true)
        × ((claim repr healthy key hash' token' ttl lease later t').1 ≡ ok (Claim.claimed token'))
  unfolding claim complete
  ambiguous_is_released key token hash' token' result now later bound t h unknown =
      rw (complete_step-ambiguous key token result now bound t h unknown) (
        refl,
        rw (
            claim_step-free repr ttl lease key hash' token' later (remove key t)
              (rw (eq_refl key))),
      )

  -- An owner whose claim has been taken over cannot write: its `complete` answers false and
  -- changes nothing.
  pub stale_owner_refused :
      (key token stale : String) (result : Dict Value) (now bound : ℕ) (t : Map Row)
      → Held key token bound t
      → stale ≢ token
      → complete repr healthy key stale result now t ≡ (t, ok false)
  unfolding complete complete_step
  stale_owner_refused key token stale result now bound t h other =
      ground (arith, h.stored, eq_iff token stale)

  -- `claim` renews a stale lease and leaves `expires_at` alone. A claim so near the expiry that the
  -- new lease passes it is granted, and from the expiry on a second claim is granted while that
  -- lease still runs.
  pub reclaim_outlives_record :
      (key hash token other : String) (now later : ℕ) (row : Row) (t : Map Row)
      → t key ≡ some row
      → row.state ≡ State.pending
      → row.request_hash ≡ hash
      → row.lease_until ≤ now
      → now < row.expires_at
      → row.expires_at ≤ later
      → later < now + lease
      → let (t', first) = claim repr healthy key hash token ttl lease now t in
        let (t'', second) = claim repr healthy key hash other ttl lease later t' in
        (first ≡ ok (Claim.claimed token)) × (second ≡ ok (Claim.claimed other))
  unfolding claim claim_step
  reclaim_outlives_record key hash token other now later row t e p q stale alive gone leased =
      ground (arith, eq_refl key, eq_refl hash)
