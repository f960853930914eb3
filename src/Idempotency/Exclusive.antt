-- ===== src/Idempotency/Exclusive.antt =====
-- Who may write: while a claim is held, the table of `_SQLiteBackend` gives the key to nobody else.
use otl_voice.Prelude.{
  ℕ, ◌+◌, ◌≤◌, ◌<◌, ◌≡◌, ◌≢◌, refl, none, some, List, [], ◌∷◌, String, arith, eq_iff, eq_refl,
  string_eq, All, ◌⊎◌,
}
use otl_voice.Prelude.Dict.{Dict}
use otl_voice.Prelude.Map.{Map, put}
use otl_voice.Prelude.Result.{ok}
use otl_voice.Python.Value.{Value}
use otl_voice.Idempotency.Record.{State, Row, Claim}
use otl_voice.Idempotency.Memory.{fresh}
use otl_voice.Idempotency.Sqlite.{
  Fault, healthy, before, between, claim_step, complete_step, claim, complete, read, delete_expired,
}

-- The row of `key` is claimed by `token`, and neither its lease nor its lifetime ends before
-- `bound`.
pub record Held (key token : String) (bound : ℕ) (t : Map Row) : Type 0 where
  pub row : Row
  pub stored : t key ≡ some row
  pub unfinished : row.state ≡ State.pending
  pub owner : row.owner_token ≡ some token
  pub leased : bound ≤ row.lease_until
  pub alive : bound ≤ row.expires_at

-- A call of the store; `key`, then the arguments of the method.
pub data Call : Type 0 where
  claims : Fault → String → String → String → Call
  completes : Fault → String → String → Dict Value → Call
  reads : Fault → String → Call

module _ (repr : Value → String) (ttl lease : ℕ) where
  unfoldable pub step : ℕ × Call → Map Row → Map Row
  step (now, claims fault key hash token) t = (claim repr fault key hash token ttl lease now t).0
  step (now, completes fault key token result) t = (complete repr fault key token result now t).0
  step (now, reads fault key) t = (read repr fault key now t).0

  unfoldable pub run : List (ℕ × Call) → Map Row → Map Row
  run [] t = t
  run (c ∷ calls) t = run calls (step c t)

  module _ (key token : String) (bound : ℕ) where
    -- A call made before `bound` that is not the owner's own `complete`.
    abbrev pub Intrudes : ℕ × Call → Type 0
    Intrudes (now, claims fault k hash other) = now < bound
    Intrudes (now, completes fault k other result) = (now < bound) × ((k ≢ key) ⊎ (other ≢ token))
    Intrudes (now, reads fault k) = now < bound

    delete_expired-Held :
        (now : ℕ) (t : Map Row)
        → now < bound
        → Held key token bound t
        → Held key token bound (delete_expired now t)
    delete_expired-Held now t early h = record {
      row = h.row;
      stored = ground (arith, h.stored);
      unfinished = h.unfinished;
      owner = h.owner;
      leased = h.leased;
      alive = h.alive;
    }

    claim_step-Held :
        (now : ℕ) (k hash other : String) (t : Map Row)
        → now < bound
        → Held key token bound t
        → Held key token bound (claim_step repr k hash other ttl lease now t).0
    unfolding claim_step
    claim_step-Held now k hash other t early h = record {
      row = h.row;
      stored = ground (arith, h.stored, eq_iff k key);
      unfinished = h.unfinished;
      owner = h.owner;
      leased = h.leased;
      alive = h.alive;
    }

    complete_step-Held :
        (now : ℕ) (k other : String) (result : Dict Value) (t : Map Row)
        → (k ≢ key) ⊎ (other ≢ token)
        → Held key token bound t
        → Held key token bound (complete_step repr k other result now t).0
    unfolding complete_step
    complete_step-Held now k other result t foreign h = record {
      row = h.row;
      stored = ground (arith, h.stored, eq_iff k key, eq_iff token other);
      unfinished = h.unfinished;
      owner = h.owner;
      leased = h.leased;
      alive = h.alive;
    }

    step-Held :
        (c : ℕ × Call) (t : Map Row)
        → Intrudes c
        → Held key token bound t
        → Held key token bound (step c t)
    unfolding step claim complete read
    step-Held (now, claims healthy k hash other) t early h =
        claim_step-Held now k hash other t early h
    step-Held (now, claims before k hash other) t early h = h
    step-Held (now, claims between k hash other) t early h = h
    step-Held (now, completes healthy k other result) t early h =
        complete_step-Held now k other result t early.1 h
    step-Held (now, completes before k other result) t early h = h
    step-Held (now, completes between k other result) t early h = h
    step-Held (now, reads healthy k) t early h = delete_expired-Held now t early h
    step-Held (now, reads before k) t early h = h
    step-Held (now, reads between k) t early h = delete_expired-Held now t early h

    pub run-Held :
        (calls : List (ℕ × Call)) (t : Map Row)
        → All Intrudes calls
        → Held key token bound t
        → Held key token bound (run calls t)
    unfolding run
    run-Held [] t early h = h
    run-Held (c ∷ calls) t (early, later) h =
        run-Held calls (step c t) later (step-Held c t early h)

    -- A claim that comes before the bound is refused.
    pub Held-refused :
        (now : ℕ) (hash other winner : String) (t : Map Row)
        → now < bound
        → Held key token bound t
        → (claim_step repr key hash other ttl lease now t).1 ≢ Claim.claimed winner
    unfolding claim_step
    Held-refused now hash other winner t early h = ground (arith, h.stored)

  abbrev fresh_row : String → String → ℕ → Row
  fresh_row hash token now = record { base = fresh hash token ttl lease now; created_at = now }

  pub claim_step-free :
      (key hash token : String) (now : ℕ) (t : Map Row)
      → delete_expired now t key ≡ none
      → claim_step repr key hash token ttl lease now t
        ≡ (put key (fresh_row hash token now) (delete_expired now t), Claim.claimed token)
  unfolding claim_step
  claim_step-free key hash token now t free = rw (free, claim_step)

  fresh-Held :
      (key hash token : String) (now : ℕ) (t : Map Row)
      → lease ≤ ttl
      → delete_expired now t key ≡ none
      → Held key token (now + lease) (claim_step repr key hash token ttl lease now t).0
  fresh-Held key hash token now t fits free =
      rw (claim_step-free key hash token now t free) (record {
        row = fresh_row hash token now;
        stored = rw eq_refl;
        unfinished = refl;
        owner = refl;
        leased = omega arith;
        alive = omega arith;
      })

  -- A claim of a free key is granted, and until its lease ends no other claim of the key is,
  -- whatever other calls are made meanwhile, failing or not, except the owner's own `complete`.
  pub claim_is_exclusive :
      (key hash token : String) (start now : ℕ) (calls : List (ℕ × Call))
      (hash' other winner : String) (t : Map Row)
      → lease ≤ ttl
      → delete_expired start t key ≡ none
      → All (Intrudes key token (start + lease)) calls
      → now < start + lease
      → let (t', answer) = claim repr healthy key hash token ttl lease start t in
        (answer ≡ ok (Claim.claimed token))
        × ((claim repr healthy key hash' other ttl lease now (run calls t')).1
            ≢ ok (Claim.claimed winner))
  unfolding claim
  claim_is_exclusive key hash token start now calls hash' other winner t fits free early late =
      let held = fresh-Held key hash token start t fits free in
      let still = run-Held key token (start + lease) calls _ early held in
      (
        rw (claim_step-free key hash token start t free),
        λ granted. Held-refused key token (start + lease) now hash' other winner _ late still cc,
      )
