-- ===== src/Idempotency/Key/Scoped.antt =====
-- The keys under which the store files a submission.
use Prim.Native.String.{◌++◌}
use text.Mathlib.TextLemmas.{append_cancel_left, cons-append}
use otl_voice.Prelude.{
  ℕ, ◌≤◌, ◌≡◌, refl, Bool, true, ◌&&◌, ◌||◌, Char, code, String, arith, leb, sym, ◌∙◌,
}
use otl_voice.Prelude.Result.{ok, >>=-eq-ok}
use otl_voice.Python.Text.{text_length, all_chars}
use otl_voice.Python.Append.{text_length-append, all_chars-append, append_injective}
use otl_voice.Python.Value.{str}
use otl_voice.Idempotency.Key.{
  is_alnum, is_key_char, full_match, validate_idempotency_key, scoped_idempotency_key,
  claim_accepts,
}
use otl_voice.Idempotency.Key.Accepts.{accepted_key, alnum_key_char}

abbrev pub is_hex : ℕ → Bool
is_hex c = (leb b'0' c && leb c b'9') || (leb b'a' c && leb c b'f')

-- What the code relies on in `hashlib.sha256(...).hexdigest()[:24]`.
abbrev pub IsDigest : String → Type 0
IsDigest s = (text_length s ≡ 24) × (all_chars is_hex s ≡ true)

scoped_form :
    (employee_hash : String → String) (employee request key : String)
    → scoped_idempotency_key employee_hash employee request ≡ ok key
    → (full_match 127 request ≡ true)
      × (key ≡ "timecard:" ++ employee_hash employee ++ ":" ++ request)
unfolding scoped_idempotency_key
scoped_form employee_hash employee request key h =
    let (k, valid, built) = >>=-eq-ok (validate_idempotency_key (str request)) _ h in
    let (same, matched) = accepted_key (str request) k valid in ground (arith, same, matched, built)

hex_key_chars : (s : String) → all_chars is_hex s ≡ true → all_chars is_key_char s ≡ true
unfolding is_key_char
hex_key_chars String.[] h = refl
hex_key_chars (String.◌∷◌ c s) h = ground (arith, hex_key_chars s)

claim_accepts-cons :
    (c : Char) (s : String)
    → is_alnum (code c) ≡ true
    → all_chars is_key_char s ≡ true
    → text_length s ≤ 511
    → claim_accepts (String.◌∷◌ c s) ≡ true
unfolding claim_accepts
claim_accepts-cons c s first rest short = ground arith

matched_chars :
    (s : String)
    → full_match 127 s ≡ true
    → (all_chars is_key_char s ≡ true) × (text_length s ≤ 128)
unfolding full_match
matched_chars String.[] h = absurd (ground arith)
matched_chars (String.◌∷◌ c s) h = ground (arith, alnum_key_char (code c))

module _ (employee_hash : String → String)
    (digest : (e : String) → IsDigest (employee_hash e)) where
  -- Every scoped key passes the test in front of the store, so that `claim` raises no `ValueError`
  -- on it.
  pub scoped-accepted :
      (employee request key : String)
      → scoped_idempotency_key employee_hash employee request ≡ ok key
      → claim_accepts key ≡ true
  unfolding is_key_char
  scoped-accepted employee request key h =
      let (matched, e) = scoped_form employee_hash employee request key h in
      let (size, hex) = digest employee in
      let (chars, short) = matched_chars request matched in
      let hash = employee_hash employee in
      rw (e, cons-append "t" "imecard:" (hash ++ ":" ++ request))
        (claim_accepts-cons "t" ("imecard:" ++ hash ++ ":" ++ request) refl
          (ground (
            arith,
            hex_key_chars hash hex,
            all_chars-append is_key_char "imecard:" (hash ++ ":" ++ request),
            all_chars-append is_key_char hash (":" ++ request),
            all_chars-append is_key_char ":" request,
          ))
          (omega (
            arith,
            text_length-append "imecard:" (hash ++ ":" ++ request),
            text_length-append hash (":" ++ request),
            text_length-append ":" request,
          )))

  -- Two submissions share a scoped key only if their request keys and the digests of their
  -- employees are the same.
  pub scoped-injective :
      (employee employee' request request' key : String)
      → scoped_idempotency_key employee_hash employee request ≡ ok key
      → scoped_idempotency_key employee_hash employee' request' ≡ ok key
      → (employee_hash employee ≡ employee_hash employee') × (request ≡ request')
  scoped-injective employee employee' request request' key h h' =
      let (matched, e) = scoped_form employee_hash employee request key h in
      let (matched', e') = scoped_form employee_hash employee' request' key h' in
      let rests = append_cancel_left "timecard:" _ _ (sym e ∙ e') in
      let (hashes, tails) =
        append_injective (employee_hash employee) (employee_hash employee') _ _
          ((digest employee).0 ∙ sym (digest employee').0) rests in
      (hashes, append_cancel_left ":" _ _ tails)
