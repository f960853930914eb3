-- ===== src/Idempotency/Sanitize/Lookup.antt =====
-- What each field of a sanitised result holds.
use otl_voice.Prelude.{
  ◌≡◌, refl, ◌∙◌, Bool, true, false, not, ◌&&◌, Option, none, some, List, [], ◌∷◌, String, arith,
  eq_iff, eq_refl, any, ◌==◌, string_eq, if◌then◌else◌, Bool-cases, Option-cases, inl, inr,
}
use otl_voice.Prelude.Dict.{Dict, lookup, lookup-insert}
use otl_voice.Prelude.Int.{pos}
use otl_voice.Python.Value.{Value, bool, int, str, truthy}
use otl_voice.Idempotency.Sanitize.{
  result_fields, clean_field, clean_entry, write, collect, with_ok, with_error, sanitize,
  safe_error, get_default, code_of, is_ok,
}

abbrev or_else : Option Value → Option Value → Option Value
or_else none d = d
or_else (some v) d = some v

unfoldable pub known : String → Bool
known j = any (λ n. n == j) result_fields

or_else-none :
    (b : Bool) (o : Option Value) → (if b then or_else o none else none) ≡ (if b then o else none)
or_else-none b o = ground arith

known-ok : known "ok" ≡ true
unfolding known
known-ok = refl

lookup-write :
    (n j : String) (o : Option Value) (safe : Dict Value)
    → lookup j (write n o safe) ≡ (if n == j then or_else o (lookup j safe) else lookup j safe)
lookup-write n j none safe = ground arith
lookup-write n j (some v) safe = ground (arith, lookup-insert n j v safe)

is_ok_of_lookup : (d : Dict Value) (b : Bool) → lookup "ok" d ≡ some (bool b) → is_ok d ≡ b
unfolding is_ok get_default truthy
is_ok_of_lookup d b h = ground arith

module _ (repr : Value → String) where
  -- What the loop writes for a field of `result`.
  abbrev pub cleaned : Dict Value → String → Option Value
  cleaned result j = clean_entry repr result j (lookup j result)

  lookup-collect :
      (result : Dict Value) (names : List String) (safe : Dict Value) (j : String)
      → lookup j (collect repr result names safe) ≡ (
          if any (λ n. n == j) names
          then or_else (cleaned result j) (lookup j safe)
          else lookup j safe)
  unfolding collect
  lookup-collect result [] safe j = refl
  lookup-collect result (n ∷ names) safe j =
      let safe' = write n (cleaned result n) safe in
      rw (lookup-collect result names safe' j, lookup-write n j (cleaned result n) safe)
        (elim (Bool-cases (n == j)) [
          | inl same ↦ rw ((eq_iff n j).0 same, eq_refl j) (ground arith)
          | inr other ↦ rw other refl
        ])

  lookup-loop :
      (result : Dict Value) (j : String)
      → lookup j (collect repr result result_fields [])
        ≡ (if known j then cleaned result j else none)
  unfolding known lookup
  lookup-loop result j =
      lookup-collect result result_fields [] j ∙ or_else-none (known j) (cleaned result j)

  -- The result before `error` is written.
  abbrev pub collected : Dict Value → Dict Value
  collected result = with_ok (collect repr result result_fields [])

  lookup-with_ok :
      (safe : Dict Value) (j : String)
      → lookup j (with_ok safe)
        ≡ (if "ok" == j then or_else (lookup "ok" safe) (some (bool false)) else lookup j safe)
  unfolding with_ok
  lookup-with_ok safe j = ground (arith, lookup-insert "ok" j (bool false) safe, eq_iff "ok" j)

  -- Every field that `sanitize` leaves alone at the end: the loop's value, and `ok` at any rate.
  pub lookup-collected :
      (result : Dict Value) (j : String)
      → lookup j (collected result) ≡ (
          if "ok" == j
          then or_else (cleaned result "ok") (some (bool false))
          else if known j
          then cleaned result j
          else none)
  lookup-collected result j =
      rw
        (
          lookup-with_ok (collect repr result result_fields []) j,
          lookup-loop result j,
          lookup-loop result "ok",
          known-ok,
        )
        refl

  pub lookup-sanitize :
      (result : Dict Value) (j : String)
      → lookup j (sanitize repr result) ≡ (
          if not (is_ok (collected result)) && "error" == j
          then some (
              str (
                safe_error
                  (get_default "status" (int (pos 500)) (collected result))
                  (code_of (collected result))))
          else lookup j (collected result))
  unfolding sanitize with_error
  lookup-sanitize result j =
      let safe = collected result in
      let message = safe_error (get_default "status" (int (pos 500)) safe) (code_of safe) in
      ground (arith, lookup-insert "error" j (str message) safe)

  lookup-ok :
      (result : Dict Value) → lookup "ok" (sanitize repr result) ≡ lookup "ok" (collected result)
  lookup-ok result = ground (arith, lookup-sanitize result "ok")

  pub is_ok-collected :
      (result : Dict Value) → is_ok (sanitize repr result) ≡ is_ok (collected result)
  unfolding is_ok get_default
  is_ok-collected result = rw (lookup-ok result, is_ok, get_default)

  cleaned-ok :
      (result : Dict Value)
      → or_else (cleaned result "ok") (some (bool false)) ≡ some (bool (is_ok result))
  unfolding is_ok get_default clean_field truthy
  cleaned-ok result = elim (Option-cases (lookup "ok" result)) [
    | inl missing ↦ rw (missing, is_ok, get_default)
    | inr (v, e) ↦ rw (e, is_ok, get_default)
  ]

  -- The `ok` of a sanitised result is the truth of the `ok` that it had.
  pub lookup-sanitize_ok :
      (result : Dict Value) → lookup "ok" (sanitize repr result) ≡ some (bool (is_ok result))
  lookup-sanitize_ok result = lookup-ok result ∙ lookup-collected result "ok" ∙ cleaned-ok result

  pub is_ok-sanitize : (result : Dict Value) → is_ok (sanitize repr result) ≡ is_ok result
  is_ok-sanitize result =
      is_ok_of_lookup (sanitize repr result) (is_ok result) (lookup-sanitize_ok result)
