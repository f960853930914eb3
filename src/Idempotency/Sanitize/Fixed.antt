-- ===== src/Idempotency/Sanitize/Fixed.antt =====
-- Sanitising a second time: `complete` stores a sanitised result, and `claim`, `read` and the
-- submission endpoint sanitise what they take from the store.
use otl_voice.Prelude.{
  ◌≡◌, ◌⊎◌, refl, ◌∙◌, sym, ap, Bool, true, false, ◌||◌, Option, none, some, String, arith, eq_iff,
  ◌==◌, string_eq, if◌then◌else◌, Bool-cases, Option-cases, inl, inr,
}
use mathlib.Core.Path.{subst}
use otl_voice.Prelude.Dict.{Dict, lookup}
use otl_voice.Prelude.Int.{ℤ, pos, negsuc}
use otl_voice.Python.Text.{prefix, prefix_idem}
use otl_voice.Python.Value.{Value, null, bool, int, str, truthy, to_int, to_text, as_text}
use otl_voice.Idempotency.Sanitize.{
  sanitize, safe_error, int_or_500, clean_field, clamp_status, clean_index, clean_code,
  clean_correlation, accept_correlation, get_default, code_of, is_ok,
}
use otl_voice.Idempotency.Sanitize.Lookup.{
  known, cleaned, collected, lookup-collected, lookup-sanitize, is_ok-collected, is_ok-sanitize,
  lookup-sanitize_ok,
}

clamp_status_idem : (z : ℤ) → clamp_status (clamp_status z) ≡ clamp_status z
clamp_status_idem (negsuc n) = refl
clamp_status_idem (pos n) = ground arith

clean_index_idem :
    (o : Option ℤ) (w : Value) → clean_index o ≡ some w → clean_index (to_int w) ≡ some w
unfolding clean_index to_int
clean_index_idem none w h = cc
clean_index_idem (some (pos n)) w h = ground arith
clean_index_idem (some (negsuc n)) w h = ground arith

clean_code_idem :
    (o : Option String) (w : Value) → clean_code o ≡ some w → clean_code (as_text w) ≡ some w
unfolding clean_code as_text
clean_code_idem none w h = cc
clean_code_idem (some c) w h = ground arith

accepted_text : (s : String) (w : Value) → accept_correlation s ≡ some w → w ≡ str s
unfolding accept_correlation
accepted_text s w h = ground arith

then_else :
    (b : Bool) {x y x' y' : Option Value} {w : Value}
    → (x ≡ some w → x' ≡ some w)
    → (y ≡ some w → y' ≡ some w)
    → (if b then x else y) ≡ some w
    → (if b then x' else y') ≡ some w
then_else true f g h = f h
then_else false f g h = g h

else_only :
    {b : Bool} (x x' : Option Value) {y y' : Option Value} {w : Value}
    → b ≡ false
    → (y ≡ some w → y' ≡ some w)
    → (if b then x else y) ≡ some w
    → (if b then x' else y') ≡ some w
else_only {b} x x' e g h = rw e (g (rw e at h))

clean_bool_idem : (v w : Value) → some (bool (truthy v)) ≡ some w → some (bool (truthy w)) ≡ some w
unfolding truthy
clean_bool_idem v w h = ground arith

clean_status_idem :
    (v w : Value)
    → some (int (clamp_status (int_or_500 v))) ≡ some w
    → some (int (clamp_status (int_or_500 w))) ≡ some w
unfolding int_or_500 to_int
clean_status_idem v w h =
    let e : int (clamp_status (int_or_500 v)) ≡ w = cc in
    subst (λ u. some (int (clamp_status (int_or_500 u))) ≡ some u) e
      (rw (clamp_status_idem (int_or_500 v)))

-- What stands under `error` of a result that is not `ok`.
abbrev message : Dict Value → Value
message d = str (safe_error (get_default "status" (int (pos 500)) d) (code_of d))

get_default_of_lookup :
    (k : String) (v : Value) (a b : Dict Value)
    → lookup k a ≡ lookup k b
    → get_default k v a ≡ get_default k v b
unfolding get_default
get_default_of_lookup k v a b h = rw (h, get_default)

message_of_lookups :
    (a b : Dict Value)
    → lookup "status" a ≡ lookup "status" b
    → lookup "code" a ≡ lookup "code" b
    → message a ≡ message b
unfolding code_of
message_of_lookups a b status code = rw (
  get_default_of_lookup "status" (int (pos 500)) a b status,
  get_default_of_lookup "code" null a b code,
)

symmetric : (j : String) → ("error" == j) ≡ false → (j == "error") ≡ false
symmetric j h = ground (arith, eq_iff j "error", eq_iff "error" j)

module _ (repr : Value → String) where
  clean_correlation_idem :
      (v w : Value) → clean_correlation repr v ≡ some w → clean_correlation repr w ≡ some w
  unfolding clean_correlation to_text
  clean_correlation_idem v w h =
      let text = prefix 256 (to_text repr v) in
      rw (accepted_text text w h, prefix_idem 256 (to_text repr v))
        (rw (← accepted_text text w h) h)

  clean_text_idem :
      (v w : Value)
      → some (str (prefix 256 (to_text repr v))) ≡ some w
      → some (str (prefix 256 (to_text repr w))) ≡ some w
  unfolding to_text
  clean_text_idem v w h =
      let e : str (prefix 256 (to_text repr v)) ≡ w = cc in
      subst (λ u. some (str (prefix 256 (to_text repr u))) ≡ some u) e
        (rw (prefix_idem 256 (to_text repr v)))

  -- What the loop writes for a field other than `error` it writes again.
  clean_field_idem :
      (r s : Dict Value) (name : String) (v w : Value)
      → (name == "error") ≡ false
      → clean_field repr r name v ≡ some w
      → clean_field repr s name w ≡ some w
  unfolding clean_field
  clean_field_idem r s name v w other h =
      then_else (name == "ok" || name == "replayed") (clean_bool_idem v w)
        (then_else (name == "index") (clean_index_idem (to_int v) w) (
          then_else (name == "status") (clean_status_idem v w) (
            then_else (name == "code") (clean_code_idem (as_text v) w) (
              else_only _ _ other (
                then_else (name == "correlationId") (clean_correlation_idem v w)
                  (clean_text_idem v w))))))
        h

  cleaned_idem :
      (r s : Dict Value) (name : String)
      → (name == "error") ≡ false
      → lookup name s ≡ cleaned repr r name
      → cleaned repr s name ≡ cleaned repr r name
  cleaned_idem r s name other h = elim (Option-cases (lookup name r)) [
    | inl missing ↦ ground arith
    | inr (v, e) ↦ elim (Option-cases (clean_field repr r name v)) [
      | inl skipped ↦ ground arith
      | inr (w, e') ↦ ground (arith, clean_field_idem r s name v w other e')
    ]
  ]

  -- A field that the end of `sanitize` leaves alone.
  lookup-plain :
      (r : Dict Value) (j : String)
      → ("error" == j) ≡ false
      → ("ok" == j) ≡ false
      → lookup j (sanitize repr r) ≡ (if known j then cleaned repr r j else none)
  lookup-plain r j e o = ground (arith, lookup-sanitize repr r j, lookup-collected repr r j)

  plain_idem :
      (r : Dict Value) (j : String)
      → ("error" == j) ≡ false
      → ("ok" == j) ≡ false
      → lookup j (sanitize repr (sanitize repr r)) ≡ lookup j (sanitize repr r)
  plain_idem r j e o = elim (Bool-cases (known j)) [
    | inl shown ↦
        let here : lookup j (sanitize repr r) ≡ cleaned repr r j =
          rw (lookup-plain r j e o) (rw shown) in
        let same = cleaned_idem r (sanitize repr r) j (symmetric j e) here in
        rw (lookup-plain (sanitize repr r) j e o) (rw shown (same ∙ sym here))
    | inr hidden ↦ rw (lookup-plain r j e o, lookup-plain (sanitize repr r) j e o) (rw hidden)
  ]

  ok_idem :
      (r : Dict Value)
      → lookup "ok" (sanitize repr (sanitize repr r)) ≡ lookup "ok" (sanitize repr r)
  ok_idem r =
      rw (
        lookup-sanitize_ok repr (sanitize repr r),
        lookup-sanitize_ok repr r,
        is_ok-sanitize repr r,
      )

  collected_idem :
      (r : Dict Value) (j : String)
      → ("error" == j) ≡ false
      → ("ok" == j) ≡ false
      → lookup j (collected repr (sanitize repr r)) ≡ lookup j (collected repr r)
  collected_idem r j e o = ground (
    arith,
    plain_idem r j e o,
    lookup-sanitize repr r j,
    lookup-sanitize repr (sanitize repr r) j,
  )

  error_text :
      (r : Dict Value)
      → is_ok r ≡ false
      → lookup "error" (sanitize repr r) ≡ some (message (collected repr r))
  error_text r failed =
      ground (arith, lookup-sanitize repr r "error", is_ok-collected repr r, is_ok-sanitize repr r)

  error_idem :
      (r : Dict Value)
      → is_ok r ≡ false
      → lookup "error" (sanitize repr (sanitize repr r)) ≡ lookup "error" (sanitize repr r)
  error_idem r failed =
      let s = sanitize repr r in
      error_text s (is_ok-sanitize repr r ∙ failed)
      ∙ ap some (
          message_of_lookups (collected repr s) (collected repr r)
            (collected_idem r "status" refl refl) (collected_idem r "code" refl refl))
      ∙ sym (error_text r failed)

  -- Sanitising twice is sanitising once, field by field; the text under `error` of a result that
  -- is `ok` is left out.
  pub sanitize-sanitize :
      (r : Dict Value) (j : String)
      → ((j == "error") ≡ false) ⊎ (is_ok r ≡ false)
      → lookup j (sanitize repr (sanitize repr r)) ≡ lookup j (sanitize repr r)
  sanitize-sanitize r j h = elim (Bool-cases ("error" == j)) [
    | inl here ↦
        rw (← (eq_iff "error" j).0 here)
          (error_idem r (ground (arith, eq_iff "error" j, eq_iff j "error")))
    | inr e ↦ elim (Bool-cases ("ok" == j)) [
      | inl here ↦ rw (← (eq_iff "ok" j).0 here) (ok_idem r)
      | inr o ↦ plain_idem r j e o
    ]
  ]
