-- ===== src/Otl/Submit/Ready.antt =====
-- That a row with a key in the form of a request key raises nothing, and that its result names it.
use otl_voice.Prelude.{
  ℕ, ◌≡◌, ◌≢◌, refl, Bool, true, false, Option, none, some, String, arith, ◌∙◌, eq_iff, Bool-cases,
  inl, inr, if◌then◌else◌,
}
use otl_voice.Prelude.Dict.{Dict, lookup, lookup-insert}
use otl_voice.Prelude.Int.{pos}
use otl_voice.Prelude.Result.{Result, ok, err}
use otl_voice.Python.Text.{is_empty}
use otl_voice.Python.Value.{Value, Decimal, int}
use otl_voice.Config.{Environ}
use otl_voice.Idempotency.Key.{full_match}
use otl_voice.Idempotency.Key.Scoped.{IsDigest, scoped-accepted}
use otl_voice.Idempotency.Record.{Claim}
use otl_voice.Idempotency.Sqlite.{Unavailable}
use otl_voice.Idempotency.Store.{
  Backend, Settings, StoreError, invalid_key, store_unavailable, store_claim-valid,
}
use otl_voice.Otl.Results.{
  failure_result, oracle_failure_result, store_unavailable_result, claim_lost_result, insert_text,
}
use otl_voice.Otl.Create.{Created, created, rejected, crashed, success_result}
use otl_voice.Otl.Submit.{
  row_id, indexed, readdressed, claim_scoped, Around, Phase, settled, sending, refused, employee_of,
  claimed_phase, waited_result, claim_row, begin_row, sent_result, finish_row, completed_result,
}
use otl_voice.Otl.Submit.Keys.{Matched, Matched-accepted}

-- The result names its row.
abbrev pub Indexed : ℕ → Dict Value → Type 0
Indexed index result = lookup "index" result ≡ some (int (pos index))

-- A phase with no `ValueError`, whose result names the row.
abbrev pub Ready : ℕ → Phase → Type 0
Ready index (settled result) = Indexed index result
Ready index (sending claim) = Unit
Ready index refused = ⊥

pub lookup-insert_text :
    (key field : String) (text : Option String) (d : Dict Value)
    → key ≢ field
    → lookup field (insert_text key text d) ≡ lookup field d
lookup-insert_text key field none d other = refl
lookup-insert_text key field (some text) d other =
    ground (arith, eq_iff key field, lookup-insert key field (Value.str text) d)

pub failure_result-Indexed :
    (index status : ℕ) (correlation_id : String) (request_id found : Option String)
    → Indexed index (failure_result index status correlation_id request_id found)
unfolding failure_result lookup
failure_result-Indexed index status correlation_id request_id found =
    lookup-insert_text "code" "index" found _ (λ same. ground (arith, eq_iff "code" "index"))
    ∙ lookup-insert_text "requestId" "index" request_id _
        (λ same. ground (arith, eq_iff "requestId" "index"))
    ∙ refl

indexed-Indexed : (index : ℕ) (result : Dict Value) → Indexed index (indexed index result)
indexed-Indexed index result = lookup-insert "index" "index" (int (pos index)) result

readdressed-Indexed :
    (index : ℕ) (key row : String) (result : Dict Value)
    → Indexed index (readdressed index key row result)
readdressed-Indexed index key row result =
    lookup-insert "correlationId" "index" (Value.str row) _
    ∙ lookup-insert "requestId" "index" (Value.str key) _
    ∙ indexed-Indexed index result

claimed_phase-Ready :
    (index : ℕ) (key scoped row : String) (waited : Result Unavailable (Dict Value))
    (answer : Result StoreError Claim)
    → answer ≢ err invalid_key
    → Ready index (claimed_phase index key scoped row waited answer)
unfolding claimed_phase waited_result store_unavailable_result
claimed_phase-Ready index key scoped row waited (ok (Claim.claimed token)) valid = tt
claimed_phase-Ready index key scoped row (ok result) (ok Claim.pending) valid =
    readdressed-Indexed index key row result
claimed_phase-Ready index key scoped row (err e) (ok Claim.pending) valid =
    failure_result-Indexed index 503 row (some key) _
claimed_phase-Ready index key scoped row waited (ok (Claim.replay result)) valid =
    indexed-Indexed index result
claimed_phase-Ready index key scoped row waited (ok (Claim.conflict result)) valid =
    readdressed-Indexed index key row result
claimed_phase-Ready index key scoped row waited (err store_unavailable) valid =
    failure_result-Indexed index 503 row (some key) _
claimed_phase-Ready index key scoped row waited (err invalid_key) valid = absurd (valid refl)

module _ (repr : Value → String) (decimal : String → Option Decimal) (general : ℕ → String)
    (env : Environ) (employee_hash : String → String) (fingerprint : Dict Value → String)
    (b : Backend) (s : Settings) (digest : (e : String) → IsDigest (employee_hash e)) where
  open b use {Table}

  pub claim_row-Ready :
      (index : ℕ) (entry : Dict Value) (key : String) (a : Around) (t : Table)
      → full_match 127 key ≡ true
      → Ready index
          (claim_row repr decimal general env employee_hash fingerprint b s index entry key a t).1
  unfolding claim_row claim_scoped
  claim_row-Ready index entry key a t matched =
      let employee = employee_of repr entry in
      let (scoped, scope) = Matched-accepted employee_hash employee key matched in
      let accepted = scoped-accepted employee_hash digest employee key scoped scope in
      elim (Bool-cases (is_empty employee)) [
        | inl unnamed ↦
            rw unnamed
              (failure_result-Indexed index 400 (row_id a.correlation index) (some key) none)
        | inr named ↦
            rw (named, scope)
              (claimed_phase-Ready index key scoped (row_id a.correlation index) a.waited _ (
                store_claim-valid b s a.claim_fault scoped (fingerprint entry) a.token a.claim_at t
                  accepted))
      ]

  pub begin_row-Ready :
      (opened : Bool) (index : ℕ) (entry : Dict Value) (key : Option String) (a : Around)
      (t : Table)
      → Matched key
      → Ready index
          (begin_row repr decimal general env employee_hash fingerprint b s opened index entry key a
            t).1
  unfolding begin_row store_unavailable_result
  begin_row-Ready opened index entry none a t matched = tt
  begin_row-Ready opened index entry (some key) a t matched = elim (Bool-cases (is_empty key)) [
    | inl unkeyed ↦ rw unkeyed tt
    | inr keyed ↦ rw keyed (behind_key opened)
  ]
    where
      behind_key :
          (opened : Bool)
          → Ready index
              (if opened
                then claim_row repr decimal general env employee_hash fingerprint b s index entry
                    key a t
                else (
                  t,
                  settled (store_unavailable_result index (row_id a.correlation index) (some key)),
                )).1
      behind_key true = claim_row-Ready index entry key a t matched
      behind_key false = failure_result-Indexed index 503 (row_id a.correlation index) (some key) _

  sent_result-Indexed :
      (index : ℕ) (entry : Dict Value) (key : Option String) (a : Around) (outcome : Created)
      → Indexed index (
          sent_result repr decimal general env employee_hash fingerprint b s index entry key a
            outcome)
  unfolding sent_result success_result oracle_failure_result lookup
  sent_result-Indexed index entry key a (created body) =
      lookup-insert_text "requestId" "index" key _
        (λ same. ground (arith, eq_iff "requestId" "index"))
  sent_result-Indexed index entry key a (rejected status correlation) =
      failure_result-Indexed index status correlation key _
  sent_result-Indexed index entry key a crashed =
      failure_result-Indexed index 500 (row_id a.correlation index) key _

  completed_result-Indexed :
      (index : ℕ) (key : Option String) (a : Around) (result : Dict Value)
      (stored : Result Unavailable Bool)
      → Indexed index result
      → Indexed index (
          completed_result repr decimal general env employee_hash fingerprint b s index key a result
            stored)
  unfolding completed_result claim_lost_result store_unavailable_result
  completed_result-Indexed index key a result (ok true) h = h
  completed_result-Indexed index key a result (ok false) h =
      failure_result-Indexed index 409 (row_id a.correlation index) key _
  completed_result-Indexed index key a result (err e) h =
      failure_result-Indexed index 503 (row_id a.correlation index) key _

  pub finish_row-Ready :
      (index : ℕ) (entry : Dict Value) (key : Option String) (a : Around) (phase : Phase)
      (t : Table)
      → Ready index phase
      → (result : Dict Value) × (t' : Table) × (finish_row repr decimal general env employee_hash
            fingerprint b s index entry key a phase t
          ≡ (t', some result))
        × Indexed index result
  unfolding finish_row
  finish_row-Ready index entry key a (settled result) t h = (result, t, refl, h)
  finish_row-Ready index entry key a refused t h = absurd h
  finish_row-Ready index entry key a (sending none) t h =
      (_, t, refl, sent_result-Indexed index entry key a _)
  finish_row-Ready index entry key a (sending (some (scoped, token))) t h = (
    _,
    _,
    refl,
    completed_result-Indexed index key a _ _ (sent_result-Indexed index entry key a _),
  )
