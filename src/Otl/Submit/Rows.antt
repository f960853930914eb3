-- ===== src/Otl/Submit/Rows.antt =====
-- That every submission that passes its checks is answered, entry by entry, whatever the store and
-- Oracle do: no row of `create_many` raises.
use otl_voice.Prelude.{
  ℕ, ◌+◌, ◌≡◌, refl, Bool, not, ◌&&◌, Option, none, some, List, [], ◌∷◌, String, arith, All, any,
  length, ap, sym, ◌∙◌, Bool-cases, inl, inr,
}
use otl_voice.Prelude.Dict.{Dict}
use otl_voice.Prelude.Result.{ok}
use otl_voice.Python.Value.{Value, Decimal}
use otl_voice.Config.{Environ}
use otl_voice.Idempotency.Key.Scoped.{IsDigest}
use otl_voice.Idempotency.Store.{Backend, Settings}
use otl_voice.Otl.Results.{store_unavailable_result}
use otl_voice.Otl.Preflight.{preflight_entries, preflight_entries_lem}
use otl_voice.Otl.Submit.{
  row_id, Around, is_given, begin_row, joined, submit_rows, with_request_id, unavailable_rows,
  keyed_rows, create_many,
}
use otl_voice.Otl.Submit.Keys.{Matched, preflight_entries-Matched}
use otl_voice.Otl.Submit.Ready.{Indexed, failure_result-Indexed, begin_row-Ready, finish_row-Ready}

-- The results name the rows from `index` on, in order.
abbrev pub InOrder : ℕ → List (Dict Value) → Type 0
InOrder index [] = Unit
InOrder index (result ∷ results) = Indexed index result × InOrder (index + 1) results

module _ (repr : Value → String) (decimal : String → Option Decimal) (general : ℕ → String)
    (env : Environ) (employee_hash : String → String) (fingerprint : Dict Value → String)
    (b : Backend) (s : Settings) (digest : (e : String) → IsDigest (employee_hash e)) where
  open b use {Table}

  submit_rows-answers :
      (opened : Bool) (index : ℕ) (entries : List (Dict Value)) (keys : List (Option String))
      (around : ℕ → Around) (t : Table)
      → All Matched keys
      → length keys ≡ length entries
      → (t' : Table) × (results : List (Dict Value)) × (submit_rows repr decimal general env
            employee_hash fingerprint b s opened index entries keys around t
          ≡ (t', some results))
        × (length results ≡ length entries)
        × InOrder index results
  unfolding submit_rows joined
  submit_rows-answers opened index [] keys around t matched same = (t, [], refl, refl, tt)
  submit_rows-answers opened index (entry ∷ entries) [] around t matched same =
      absurd (omega (arith, same))
  submit_rows-answers opened index (entry ∷ entries) (key ∷ keys) around t (first, others) same =
      let a = around index in
      let begun =
        begin_row repr decimal general env employee_hash fingerprint b s opened index entry key a
          t in
      let (result, t2, finished, named) =
        finish_row-Ready repr decimal general env employee_hash fingerprint b s digest index entry
          key a begun.1 begun.0
          (begin_row-Ready repr decimal general env employee_hash fingerprint b s digest opened
            index entry key a t first) in
      let (t3, results, rest, size, ordered) =
        submit_rows-answers opened (index + 1) entries keys around t2 others
          (omega (arith, same)) in
      (t3, result ∷ results, rw (finished, rest) refl, omega (arith, size), (named, ordered))

  length-with_request_id :
      (request_id : Option String) (entries : List (Dict Value)) (keys : List (Option String))
      → length (
          with_request_id repr decimal general env employee_hash fingerprint b s request_id entries
            keys)
        ≡ length entries
  unfolding with_request_id
  length-with_request_id (some id) (entry ∷ []) (some key ∷ keys) = refl
  length-with_request_id (some id) (entry ∷ []) (none ∷ keys) = refl
  length-with_request_id (some id) (entry ∷ []) [] = refl
  length-with_request_id (some id) (entry ∷ e ∷ es) keys = refl
  length-with_request_id (some id) [] keys = refl
  length-with_request_id none entries keys = refl

  unavailable_rows-InOrder :
      (correlation : String) (index : ℕ) (keys : List (Option String))
      → let results =
          unavailable_rows repr decimal general env employee_hash fingerprint b s correlation index
            keys in
        (length results ≡ length keys) × InOrder index results
  unfolding unavailable_rows store_unavailable_result
  unavailable_rows-InOrder correlation index [] = (refl, tt)
  unavailable_rows-InOrder correlation index (key ∷ keys) =
      let (size, ordered) = unavailable_rows-InOrder correlation (index + 1) keys in
      (
        omega (arith, size),
        (failure_result-Indexed index 503 (row_id correlation index) key _, ordered),
      )

  keyed_rows-answers :
      (entries : List (Dict Value)) (request_id : Option String) (opens : Bool)
      (correlation : String) (around : ℕ → Around) (t : Table) (keys : List (Option String))
      → All Matched keys
      → length keys ≡ length entries
      → (t' : Table) × (results : List (Dict Value)) × (keyed_rows repr decimal general env
            employee_hash fingerprint b s entries request_id opens correlation around t keys
          ≡ (t', some results))
        × (length results ≡ length entries)
        × InOrder 0 results
  unfolding keyed_rows
  keyed_rows-answers entries request_id opens correlation around t keys matched same =
      let wanted = any is_given keys in
      let rows =
        with_request_id repr decimal general env employee_hash fingerprint b s request_id entries
          keys in
      let size = length-with_request_id request_id entries keys in
      let (t', results, answers, count, ordered) =
        submit_rows-answers wanted 0 rows keys around t matched (same ∙ sym size) in
      let (count', ordered') = unavailable_rows-InOrder correlation 0 keys in
      elim (Bool-cases (wanted && not opens)) [
        | inl closed ↦ (t, _, rw closed refl, count' ∙ same, ordered')
        | inr open_ ↦ (t', results, rw open_ answers, count ∙ size, ordered)
      ]

  -- A submission whose entries pass their checks is always answered: `create_many` returns, without
  -- an exception, one result for each entry, in their order, each with the number of its entry,
  -- whatever the store, its faults, the other rows and Oracle do. The hash of an employee is 24
  -- hexadecimal digits.
  pub create_many-answers :
      (entries : List (Dict Value)) (request_id : Option String) (opens : Bool)
      (correlation : String) (around : ℕ → Around) (t : Table) (keys : List (Option String))
      → preflight_entries repr decimal env entries request_id ≡ ok keys
      → (t' : Table) × (results : List (Dict Value)) × (create_many repr decimal general env
            employee_hash fingerprint b s entries request_id opens correlation around t
          ≡ ok (t', some results))
        × (length results ≡ length entries)
        × InOrder 0 results
  unfolding create_many
  create_many-answers entries request_id opens correlation around t keys passes =
      let (few, same, unique) =
        preflight_entries_lem repr decimal env entries request_id keys passes in
      let matched = preflight_entries-Matched repr decimal env entries request_id keys passes in
      let (t', results, answers, count, ordered) =
        keyed_rows-answers entries request_id opens correlation around t keys matched same in
      (t', results, rw passes (ap ok answers), count, ordered)
