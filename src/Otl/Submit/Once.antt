-- ===== src/Otl/Submit/Once.antt =====
-- That Oracle gets a request of a key once: what a second row with the key does while the first is on
-- its way, and when the first has a definite result. The store is SQLite's.
use otl_voice.Prelude.{
  ℕ, ◌+◌, ◌≤◌, ◌<◌, ◌≡◌, ◌≢◌, refl, true, false, Option, none, some, List, String, arith, All,
  eq_iff, string_eq, ap, sym, ◌∙◌,
}
use otl_voice.Prelude.Dict.{Dict}
use otl_voice.Prelude.Map.{Map}
use otl_voice.Prelude.Result.{Result, ok, err}
use otl_voice.Python.Text.{is_empty}
use otl_voice.Python.Value.{Value, Decimal}
use otl_voice.Config.{Environ}
use otl_voice.Idempotency.Key.{claim_accepts, scoped_idempotency_key}
use otl_voice.Idempotency.Key.Scoped.{IsDigest, scoped-accepted}
use otl_voice.Idempotency.Sanitize.{sanitize, is_ambiguous_result}
use otl_voice.Idempotency.Record.{Row, Claim, replayed}
use otl_voice.Idempotency.Sqlite
use otl_voice.Idempotency.Sqlite.{Unavailable, unavailable, Fault, healthy, delete_expired}
use otl_voice.Idempotency.Store.{
  Settings, StoreError, store_claim, sqlite_backend, store_unavailable,
}
use otl_voice.Idempotency.Exclusive.{Held, Call, Intrudes, run, claim_is_exclusive}
use otl_voice.Idempotency.Lifecycle.{result_is_replayed, at_time}
use otl_voice.Otl.Create.{create_timecard_entry}
use otl_voice.Otl.Submit.{
  row_id, claim_scoped, Around, Phase, settled, sending, employee_of, claimed_phase, claim_row,
  begin_row, sent_result, finish_row, completed_result, indexed,
}

module _ (repr : Value → String) (decimal : String → Option Decimal) (general : ℕ → String)
    (env : Environ) (employee_hash : String → String) (fingerprint : Dict Value → String)
    (s : Settings) (digest : (e : String) → IsDigest (employee_hash e)) where
  -- The begin of a row under its scoped key, in a process that has a store.
  pub begins : ℕ → Dict Value → String → Around → Map Row → Map Row × Phase
  begins index entry key a t =
      begin_row repr decimal general env employee_hash fingerprint (sqlite_backend repr) s true
        index entry (some key) a t

  claims : String → Dict Value → Around → Map Row → Map Row × Result Unavailable Claim
  claims scoped entry a t =
      Sqlite.claim repr a.claim_fault scoped (fingerprint entry) a.token s.ttl s.lease a.claim_at t

  claims-answered :
      (scoped winner : String) (entry : Dict Value) (a : Around) (t : Map Row)
      → (claims scoped entry a t).1 ≡ ok (Claim.claimed winner)
      → (Sqlite.claim repr healthy scoped (fingerprint entry) a.token s.ttl s.lease a.claim_at t).1
        ≡ ok (Claim.claimed winner)
  unfolding claims Sqlite.claim
  claims-answered scoped winner entry a t h = at_fault a.claim_fault h
    where
      at_fault :
          (f : Fault)
          → (Sqlite.claim repr f scoped (fingerprint entry) a.token s.ttl s.lease a.claim_at t).1
            ≡ ok (Claim.claimed winner)
          → (Sqlite.claim repr healthy scoped
              (fingerprint entry)
              a.token
              s.ttl
              s.lease
              a.claim_at
              t).1
            ≡ ok (Claim.claimed winner)
      at_fault healthy h = h
      at_fault Fault.before h = cc
      at_fault Fault.between h = cc

  claims-exclusive :
      (entry entry' : Dict Value) (scoped : String) (a a' : Around) (t : Map Row)
      (calls : List (ℕ × Call))
      → s.lease ≤ s.ttl
      → a.claim_fault ≡ healthy
      → delete_expired a.claim_at t scoped ≡ none
      → All (Intrudes repr s.ttl s.lease scoped a.token (a.claim_at + s.lease)) calls
      → a'.claim_at < a.claim_at + s.lease
      → (winner : String)
      → ((claims scoped entry a t).1 ≡ ok (Claim.claimed a.token))
        × ((claims scoped entry' a' (run repr s.ttl s.lease calls (claims scoped entry a t).0)).1
            ≢ ok (Claim.claimed winner))
  unfolding claims
  claims-exclusive entry entry' scoped a a' t calls fits well free early late winner =
      let (first, second) =
        claim_is_exclusive repr s.ttl s.lease scoped (fingerprint entry) a.token a.claim_at
          a'.claim_at calls (fingerprint entry') a'.token winner t fits free early late in
      (
        rw well first,
        λ granted. second (claims-answered scoped winner entry' a' _ (rw (← well) granted)),
      )

  store_answer : Result Unavailable Claim → Result StoreError Claim
  store_answer (ok claim) = ok claim
  store_answer (err e) = err store_unavailable

  store_claim-accepted :
      (scoped : String) (entry : Dict Value) (a : Around) (t : Map Row)
      → claim_accepts scoped ≡ true
      → store_claim
          (sqlite_backend repr)
          s
          a.claim_fault
          scoped
          (fingerprint entry)
          a.token
          a.claim_at
          t
        ≡ ((claims scoped entry a t).0, store_answer (claims scoped entry a t).1)
  unfolding store_claim claims store_answer
  store_claim-accepted scoped entry a t accepted = rw accepted (ground arith)

  answered_phase :
      ℕ → String → String → Around → Map Row × Result StoreError Claim → Map Row × Phase
  answered_phase index key scoped a (t, answer) =
      (t, claimed_phase index key scoped (row_id a.correlation index) a.waited answer)

  module _ (index : ℕ) (entry : Dict Value) (key scoped : String) (a : Around)
      (named : is_empty (employee_of repr entry) ≡ false) (keyed : is_empty key ≡ false)
      (scope : scoped_idempotency_key employee_hash (employee_of repr entry) key ≡ ok scoped) where
    begins-claims :
        (t : Map Row)
        → begins index entry key a t ≡ (
          (claims scoped entry a t).0,
          claimed_phase index key scoped
              (row_id a.correlation index)
              a.waited
              (store_answer (claims scoped entry a t).1),
        )
    unfolding begins claims begin_row claim_row claim_scoped answered_phase
    begins-claims t =
        let accepted =
          scoped-accepted employee_hash digest (employee_of repr entry) key scoped scope in
        rw (keyed, claim_row, named, scope, claim_scoped)
          (ap (answered_phase index key scoped a) (store_claim-accepted scoped entry a t accepted))

    -- The row sends a request only if its claim is granted.
    begins-sending :
        (t : Map Row) (claim : Option (String × String))
        → (begins index entry key a t).1 ≡ sending claim
        → (winner : String) × ((claims scoped entry a t).1 ≡ ok (Claim.claimed winner))
    unfolding claimed_phase store_answer
    begins-sending t claim h =
        answered_sending (claims scoped entry a t).1 (sym (ap (λ p. p.1) (begins-claims t)) ∙ h)
      where
        answered_sending :
            (answer : Result Unavailable Claim)
            → claimed_phase index key scoped
                (row_id a.correlation index)
                a.waited
                (store_answer answer)
              ≡ sending claim
            → (winner : String) × (answer ≡ ok (Claim.claimed winner))
        answered_sending (ok (Claim.claimed token)) h = (token, refl)
        answered_sending (ok Claim.pending) h = cc
        answered_sending (ok (Claim.replay result)) h = cc
        answered_sending (ok (Claim.conflict result)) h = cc
        answered_sending (err unavailable) h = cc

    begins-granted :
        (t : Map Row) (token : String)
        → (claims scoped entry a t).1 ≡ ok (Claim.claimed token)
        → (begins index entry key a t).1 ≡ sending (some (scoped, token))
    unfolding claimed_phase store_answer
    begins-granted t token h = ap (λ p. p.1) (begins-claims t) ∙ rw h refl

  -- Two rows with one scoped key: the first finds the key free and sends its request, and until its
  -- lease ends the other sends none, whatever calls of the store come between them but the first
  -- row's own completion.
  pub begin_row-exclusive :
      (index index' : ℕ) (entry entry' : Dict Value) (key scoped : String) (a a' : Around)
      (t : Map Row) (calls : List (ℕ × Call)) (claim : Option (String × String))
      → is_empty (employee_of repr entry) ≡ false
      → employee_of repr entry' ≡ employee_of repr entry
      → is_empty key ≡ false
      → scoped_idempotency_key employee_hash (employee_of repr entry) key ≡ ok scoped
      → s.lease ≤ s.ttl
      → a.claim_fault ≡ healthy
      → delete_expired a.claim_at t scoped ≡ none
      → All (Intrudes repr s.ttl s.lease scoped a.token (a.claim_at + s.lease)) calls
      → a'.claim_at < a.claim_at + s.lease
      → let (t', phase) = begins index entry key a t in
        (phase ≡ sending (some (scoped, a.token)))
        × ((begins index' entry' key a' (run repr s.ttl s.lease calls t')).1 ≢ sending claim)
  begin_row-exclusive index index' entry entry' key scoped a a' t calls claim named same keyed scope
        fits well free early late =
      let alone = claims-exclusive entry entry' scoped a a' t calls fits well free early late in
      let first = ap (λ p. p.0) (begins-claims index entry key scoped a named keyed scope t) in
      (
        begins-granted index entry key scoped a named keyed scope t a.token (alone "").0,
        λ sends.
            let (winner, granted) =
              begins-sending index' entry' key scoped a' (rw same named) keyed (rw same scope) _
                claim (rw (← first) sends) in
            (alone winner).1 granted,
      )

  -- What the row that holds the claim answers when its request is behind it.
  unfoldable pub its_result : ℕ → Dict Value → String → Around → Dict Value
  its_result index entry key a =
      sent_result repr decimal general env employee_hash fingerprint (sqlite_backend repr) s index
        entry (some key) a
        (create_timecard_entry repr decimal general env entry a.error_id a.outcome)

  finish_row-completed :
      (index : ℕ) (entry : Dict Value) (key scoped : String) (a : Around) (t : Map Row)
      → a.complete_fault ≡ healthy
      → let result = its_result index entry key a in
        let completion = Sqlite.complete repr healthy scoped a.token result a.complete_at t in
        (completion.1 ≡ ok true)
        → finish_row repr decimal general env employee_hash fingerprint
            (sqlite_backend repr)
            s
            index
            entry
            (some key)
            a
            (sending (some (scoped, a.token)))
            t
          ≡ (completion.0, some result)
  unfolding finish_row its_result completed_result
  finish_row-completed index entry key scoped a t finishes done = rw finishes (rw done refl)

  begins-replayed :
      (index : ℕ) (entry : Dict Value) (key scoped : String) (a : Around) (t : Map Row)
      (result : Dict Value)
      → is_empty (employee_of repr entry) ≡ false
      → is_empty key ≡ false
      → scoped_idempotency_key employee_hash (employee_of repr entry) key ≡ ok scoped
      → a.claim_fault ≡ healthy
      → (Sqlite.claim repr healthy scoped (fingerprint entry) a.token s.ttl s.lease a.claim_at t).1
        ≡ ok (Claim.replay result)
      → (begins index entry key a t).1 ≡ settled (indexed index result)
  unfolding claims claimed_phase store_answer
  begins-replayed index entry key scoped a t result named keyed scope well h =
      ap (λ p. p.1) (begins-claims index entry key scoped a named keyed scope t)
      ∙ rw well (rw h refl)

  -- A row that holds its claim and completes it in time with a definite result answers with that
  -- result, and until the record expires a row with the same key and fingerprint sends no request:
  -- it answers with the first row's result, marked as replayed.
  pub begin_row-replays :
      (index index' : ℕ) (entry entry' : Dict Value) (key scoped : String) (a a' : Around)
      (bound : ℕ) (t : Map Row) (calls : List (ℕ × Call)) (h : Held scoped a.token bound t)
      → is_empty (employee_of repr entry') ≡ false
      → is_empty key ≡ false
      → scoped_idempotency_key employee_hash (employee_of repr entry') key ≡ ok scoped
      → h.row.request_hash ≡ fingerprint entry'
      → a.complete_fault ≡ healthy
      → a'.claim_fault ≡ healthy
      → a.complete_at < bound
      → is_ambiguous_result (sanitize repr (its_result index entry key a)) ≡ false
      → All (λ c. at_time c < h.row.expires_at) calls
      → a'.claim_at < h.row.expires_at
      → let result = its_result index entry key a in
        let (t', first) =
          finish_row repr decimal general env employee_hash fingerprint
            (sqlite_backend repr)
            s
            index
            entry
            (some key)
            a
            (sending (some (scoped, a.token)))
            t in
        (first ≡ some result)
        × ((begins index' entry' key a' (run repr s.ttl s.lease calls t')).1
            ≡ settled (indexed index' (sanitize repr (replayed (sanitize repr result)))))
  begin_row-replays index index' entry entry' key scoped a a' bound t calls h named keyed scope same
        finishes well early definite later last =
      let result = its_result index entry key a in
      let (done, again) =
        result_is_replayed repr s.ttl s.lease scoped a.token a'.token (fingerprint entry') result
          a.complete_at a'.claim_at bound calls t h early definite later last in
      let finished = finish_row-completed index entry key scoped a t finishes done in
      let t' = (Sqlite.complete repr healthy scoped a.token result a.complete_at t).0 in
      let hashed = (eq_iff h.row.request_hash (fingerprint entry')).1 same in
      (
        ap (λ p. p.1) finished,
        rw finished (
            begins-replayed index' entry' key scoped a' (run repr s.ttl s.lease calls t') _ named
              keyed scope well (again ∙ rw hashed refl)),
      )
