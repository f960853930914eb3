-- ===== src/Api/Submit/Counts.antt =====
-- What the response of `submit_timecard` says of the results.
use otl_voice.Prelude.{
  ◌∙◌, ℕ, ◌+◌, ◌-◌, ◌≤◌, ◌≡◌, refl, Bool, true, false, not, ◌&&◌, Option, none, some, List, [], ◌∷◌,
  String, arith, All, any, keep_if, length, length-keep_if-le, ◌==◌, nat_eq, if◌then◌else◌,
  Bool-cases, inl, inr,
}
use otl_voice.Prelude.Dict.{Dict, lookup, lookup-insert}
use otl_voice.Prelude.Int.{pos}
use otl_voice.Python.Value.{Value, int}
use otl_voice.Idempotency.Sanitize.Lookup.{is_ok-sanitize}
use otl_voice.Idempotency.Sanitize.{
  sanitize, get_default, sanitize_idempotency_result, is_ok, is_retryable_result,
}
use otl_voice.Api.Submit.{reply_of, safe_results, with_index}

none_kept :
    {A : Type 0} (p : A → Bool) (xs : List A)
    → length (keep_if p xs) ≡ 0
    → All (λ x. p x ≡ false) xs
none_kept p [] h = tt
none_kept p (x ∷ xs) h = elim (Bool-cases (p x)) [
  | inl kept ↦ absurd (ground (arith, h, kept))
  | inr left ↦ (left, none_kept p xs (ground (arith, h, left)))
]

not_any : {A : Type 0} (p : A → Bool) (xs : List A) → any p xs ≡ false → All (λ x. p x ≡ false) xs
not_any p [] h = tt
not_any p (x ∷ xs) h = elim (Bool-cases (p x)) [
  | inl found ↦ absurd (ground (arith, h, found))
  | inr left ↦ (left, not_any p xs (ground (arith, h, left)))
]

-- The status and the results of a response.
pub data Fits (results : List (Dict Value)) : ℕ → Type 0 where
  empty_reply : length results ≡ 0 → Fits results 200
  some_ok : 1 ≤ length (keep_if is_ok results) → Fits results 200
  final :
      All (λ r. is_ok r ≡ false) results
      → All (λ r. is_retryable_result r ≡ false) results
      → Fits results 422
  retryable :
      All (λ r. is_ok r ≡ false) results → any is_retryable_result results ≡ true → Fits results 502

status-Fits :
    (safe : List (Dict Value))
    → let succeeded = length (keep_if is_ok safe) in
      let failed = length safe - succeeded in
      Fits safe (
        if succeeded == 0 && not (failed == 0)
        then (if any is_retryable_result safe then 502 else 422)
        else 200)
status-Fits safe =
    let succeeded = length (keep_if is_ok safe) in
    let failed = length safe - succeeded in
    elim (Bool-cases (succeeded == 0)) [
      | inr good ↦ rw good (some_ok (ground (arith, good)))
      | inl bad ↦ rw bad (elim (Bool-cases (failed == 0)) [
        | inl none_left ↦ rw none_left (empty_reply (ground (arith, bad, none_left)))
        | inr left ↦ rw left (elim (Bool-cases (any is_retryable_result safe)) [
          | inl again ↦ rw again (retryable (none_kept is_ok safe (ground (arith, bad))) again)
          | inr never ↦ rw never (
              final (none_kept is_ok safe (ground (arith, bad)))
                (not_any is_retryable_result safe never))
        ])
      ])
    ]

with_index-is_ok :
    (index : ℕ) (given : Option Value) (result : Dict Value)
    → is_ok (with_index index given result) ≡ is_ok result
unfolding is_ok get_default
with_index-is_ok index none result =
    rw (lookup-insert "index" "ok" (int (pos index)) result, is_ok, get_default)
with_index-is_ok index (some v) result = refl

module _ (repr : Value → String) where
  length-safe_results :
      (index : ℕ) (found : List (Dict Value))
      → length (safe_results repr index found) ≡ length found
  unfolding safe_results
  length-safe_results index [] = refl
  length-safe_results index (result ∷ results) =
      omega (arith, length-safe_results (index + 1) results)

  safe_results-is_ok :
      (index : ℕ) (found : List (Dict Value))
      → length (keep_if is_ok (safe_results repr index found)) ≡ length (keep_if is_ok found)
  unfolding safe_results sanitize_idempotency_result
  safe_results-is_ok index [] = refl
  safe_results-is_ok index (result ∷ results) =
      let safe = sanitize repr result in
      let same : is_ok (with_index index (lookup "index" safe) safe) ≡ is_ok result =
        with_index-is_ok index (lookup "index" safe) safe ∙ is_ok-sanitize repr result in
      rw same (elim (Bool-cases (is_ok result)) [
        | inl good ↦ rw good (omega (arith, safe_results-is_ok (index + 1) results))
        | inr bad ↦ rw bad (safe_results-is_ok (index + 1) results)
      ])

  -- A response counts each result once, as succeeded, if it was a success, or as failed. Its status is 200 if it has no
  -- result or one that succeeded, else 502 if one is to be tried again, and 422 only if none is.
  pub reply_of-counts :
      (found : List (Dict Value))
      → let reply = reply_of repr found in
        (reply.submitted ≡ length found)
        × (length reply.results ≡ length found)
        × (reply.succeeded ≡ length (keep_if is_ok found))
        × (reply.succeeded + reply.failed ≡ length found)
        × Fits reply.results reply.status
  unfolding reply_of
  reply_of-counts found =
      let safe = safe_results repr 0 found in
      let same = length-safe_results 0 found in
      (
        same,
        same,
        safe_results-is_ok 0 found,
        omega (arith, length-keep_if-le is_ok safe, same),
        status-Fits safe,
      )
