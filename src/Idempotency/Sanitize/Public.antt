-- ===== src/Idempotency/Sanitize/Public.antt =====
-- What a sanitised result can disclose.
use otl_voice.Prelude.{
  ℕ, ◌≤◌, ◌≡◌, refl, Bool, true, false, ◌&&◌, Option, none, some, List, [], ◌∷◌, String, arith,
  eq_iff, All, any, leb, ◌==◌, string_eq, nat_eq, Bool-cases, Option-cases, inl, inr,
}
use otl_voice.Prelude.Dict.{Dict, lookup}
use otl_voice.Prelude.Int.{ℤ, pos, negsuc}
use otl_voice.Python.Value.{Value, int, str}
use otl_voice.Idempotency.Sanitize.{
  sanitize, safe_error, status_message, code_message, int_or_500, clean_field, clamp_status,
  get_default, code_of, is_ok, by_code,
}
use otl_voice.Idempotency.Sanitize.Lookup.{
  known, cleaned, collected, lookup-collected, lookup-sanitize, is_ok-collected,
}

-- All the texts that may stand under `error`.
public_messages : List String
public_messages =
    "Oracle rejected this timecard entry." ∷ "Oracle authentication failed."
    ∷ "Oracle authorization failed." ∷ "The timecard request was not found."
    ∷ "The timecard request conflicts with an existing request."
    ∷ "Oracle is temporarily busy. Please retry later." ∷ "Oracle Cloud is temporarily unavailable."
    ∷ "Timecard submission failed."
    ∷ "A matching submission is still processing. Retry with the same requestId."
    ∷ "This requestId was already used for different timecard data."
    ∷ "The submission could not be recorded as complete. Retry with the same requestId."
    ∷ "The idempotency store is unavailable. Retry with the same requestId."
    ∷ "Oracle Cloud is temporarily unavailable. Retry with the same requestId." ∷ []

unfoldable pub is_public : String → Bool
unfolding public_messages
is_public m = any (λ p. p == m) public_messages

literals : All (λ m. is_public m ≡ true) public_messages
unfolding is_public
literals = (
  refl,
  (
    refl,
    (refl, (refl, (refl, (refl, (refl, (refl, (refl, (refl, (refl, (refl, (refl, tt))))))))))),
  ),
)

status_message-public : (n : ℤ) → is_public (status_message n) ≡ true
unfolding status_message public_messages
status_message-public n = ground (arith, literals)

code_message-public : (c m : String) → code_message c ≡ some m → is_public m ≡ true
unfolding code_message public_messages
code_message-public c m h = ground (arith, literals)

safe_error-public :
    (status : Value) (code : Option String) → is_public (safe_error status code) ≡ true
unfolding safe_error by_code
safe_error-public status none = status_message-public (int_or_500 status)
safe_error-public status (some c) = elim (Option-cases (code_message c)) [
  | inl unknown ↦ rw unknown (status_message-public (int_or_500 status))
  | inr (m, e) ↦ rw e (code_message-public c m e)
]

-- What a sanitised result shows of the result behind it: no field outside `_RESULT_FIELDS`, a
-- status between 400 and 599, and under `error` one of the fixed public texts, which stands there
-- whenever the result is not `ok`.
pub record IsPublic (safe : Dict Value) : Type 0 where
  pub fields : (j : String) (v : Value) → lookup j safe ≡ some v → known j ≡ true
  pub error :
      (v : Value) → lookup "error" safe ≡ some v → (m : String) × (v ≡ str m) × (is_public m ≡ true)
  pub status :
      (v : Value)
      → lookup "status" safe ≡ some v
      → (n : ℕ) × (v ≡ int (pos n)) × (400 ≤ n) × (n ≤ 599)
  pub explained : is_ok safe ≡ false → (v : Value) × (lookup "error" safe ≡ some v)

clamp_bounds : (z : ℤ) → (n : ℕ) × (clamp_status z ≡ pos n) × (400 ≤ n) × (n ≤ 599)
clamp_bounds (negsuc n) = (500, refl, omega arith, omega arith)
clamp_bounds (pos n) = elim (Bool-cases (leb 400 n && leb n 599)) [
  | inl inside ↦ (n, ground arith, ground arith, ground arith)
  | inr outside ↦ (500, ground arith, omega arith, omega arith)
]

known_names :
    (known "error" ≡ true) × (known "status" ≡ true) × (known "code" ≡ true) × (known "ok" ≡ true)
unfolding known
known_names = (refl, refl, refl, refl)

module _ (repr : Value → String) (result : Dict Value) where
  cleaned-error :
      (v : Value)
      → cleaned repr result "error" ≡ some v
      → v ≡ str (safe_error (get_default "status" (int (pos 500)) result) (code_of result))
  unfolding clean_field
  cleaned-error v h = ground arith

  cleaned-status :
      (v : Value) → cleaned repr result "status" ≡ some v → (z : ℤ) × (v ≡ int (clamp_status z))
  unfolding clean_field
  cleaned-status v h = elim (Option-cases (lookup "status" result)) [
    | inl missing ↦ cc (rw missing at h)
    | inr (w, e) ↦ (int_or_500 w, ground arith)
  ]

  sanitized_fields :
      (j : String) (v : Value) → lookup j (sanitize repr result) ≡ some v → known j ≡ true
  sanitized_fields j v h = ground (
    arith,
    lookup-sanitize repr result j,
    lookup-collected repr result j,
    eq_iff "error" j,
    eq_iff "ok" j,
    known_names,
  )

  sanitized_error :
      (v : Value)
      → lookup "error" (sanitize repr result) ≡ some v
      → (m : String) × (v ≡ str m) × (is_public m ≡ true)
  sanitized_error v h =
      let final = collected repr result in
      elim (Bool-cases (is_ok final)) [
        | inl fine ↦ (
          _,
          cleaned-error v (
              ground (
                arith,
                lookup-sanitize repr result "error",
                lookup-collected repr result "error",
                known_names,
              )),
          safe_error-public _ _,
        )
        | inr failed ↦ (
          safe_error (get_default "status" (int (pos 500)) final) (code_of final),
          ground (arith, lookup-sanitize repr result "error"),
          safe_error-public _ _,
        )
      ]

  sanitized_status :
      (v : Value)
      → lookup "status" (sanitize repr result) ≡ some v
      → (n : ℕ) × (v ≡ int (pos n)) × (400 ≤ n) × (n ≤ 599)
  sanitized_status v h =
      let (z, e) = cleaned-status v (
        ground (
          arith,
          lookup-sanitize repr result "status",
          lookup-collected repr result "status",
          known_names,
        )) in
      let (n, same, low, high) = clamp_bounds z in (n, cc, low, high)

  sanitized_explained :
      is_ok (sanitize repr result) ≡ false
      → (v : Value) × (lookup "error" (sanitize repr result) ≡ some v)
  sanitized_explained h =
      let final = collected repr result in
      (
        str (safe_error (get_default "status" (int (pos 500)) final) (code_of final)),
        ground (arith, lookup-sanitize repr result "error", is_ok-collected repr result),
      )

  -- Whatever a result holds, its sanitised form is public.
  pub sanitize-IsPublic : IsPublic (sanitize repr result)
  sanitize-IsPublic = record {
    fields = sanitized_fields;
    error = sanitized_error;
    status = sanitized_status;
    explained = sanitized_explained;
  }
