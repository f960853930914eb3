-- ===== src/Idempotency/Fingerprint.antt =====
-- `request_fingerprint` of backend/services/idempotency.py. `casefold` is the method of `str`; `dumps`,
-- `json.dumps` with sorted keys in UTF-8, and `sha256`, with its hexadecimal digest, are parameters.
use otl_voice.Prelude.{
  ℕ, ◌≡◌, refl, ap, Bool, true, false, not, ◌&&◌, ◌||◌, none, [], ◌∷◌, String, code, arith, keep_if,
  any, ◌==◌, nat_eq, string_eq, if◌then◌else◌, Bool-cases, inl, inr, eq_iff,
}
use otl_voice.Prelude.Dict.{Dict, lookup}
use otl_voice.Python.Text.{all_chars}
use otl_voice.Python.Value.{Value}

-- `s.startswith(word)`
starts : String → String → Bool
starts String.[] s = true
starts (String.◌∷◌ w word) String.[] = false
starts (String.◌∷◌ w word) (String.◌∷◌ c s) = let rest = starts word s in code c == code w && rest

-- `word in s`
contains : String → String → Bool
unfolding starts
contains word String.[] = starts word ""
contains word (String.◌∷◌ c s) = starts word (String.◌∷◌ c s) || contains word s

-- The keys that stand for the request and not for what it asks.
unfoldable pub is_request_key : String → Bool
is_request_key key =
    any (λ name. name == key) ("requestId" ∷ "idempotencyKey" ∷ "Idempotency-Key" ∷ [])

module _ (casefold : String → String) where
  is_kept : String × Value → Bool
  unfolding contains is_request_key
  is_kept (key, value) = not (is_request_key key) && not (contains "employeeName" (casefold key))

  unfoldable pub payload_of : Dict Value → Dict Value
  unfolding is_kept
  payload_of entry = keep_if is_kept entry

  unfoldable pub request_fingerprint :
      (Dict Value → String) → (String → String) → Dict Value → String
  unfolding payload_of
  request_fingerprint dumps sha256 entry = sha256 (dumps (payload_of entry))

starts-all_chars :
    (p : ℕ → Bool) (word s : String)
    → starts word s ≡ true
    → all_chars p s ≡ true
    → all_chars p word ≡ true
unfolding starts
starts-all_chars p String.[] s h each = refl
starts-all_chars p (String.◌∷◌ w word) String.[] h each = cc
starts-all_chars p (String.◌∷◌ w word) (String.◌∷◌ c s) h each =
    let same : code c ≡ code w = ground (arith, h) in
    let rest : all_chars p word ≡ true =
      starts-all_chars p word s (ground (arith, h)) (ground (arith, each)) in
    rw (← same) (ground (arith, each, rest))

-- No capital N
abbrev pub is_folded : ℕ → Bool
is_folded c = not (c == 78)

starts-folded : (s : String) → all_chars is_folded s ≡ true → starts "employeeName" s ≡ false
starts-folded s each = elim (Bool-cases (starts "employeeName" s)) [
  | inr never ↦ never
  | inl found ↦ absurd (cc (starts-all_chars is_folded "employeeName" s found each))
]

contains-folded : (s : String) → all_chars is_folded s ≡ true → contains "employeeName" s ≡ false
unfolding contains
contains-folded String.[] each = starts-folded "" each
contains-folded (String.◌∷◌ c s) each =
    ground (arith, starts-folded (String.◌∷◌ c s) each, contains-folded s, each)

module _ (casefold : String → String)
    (folds : (key : String) → all_chars is_folded (casefold key) ≡ true) where
  is_kept_lem : (key : String) (v : Value) → is_kept casefold (key, v) ≡ not (is_request_key key)
  unfolding is_kept
  is_kept_lem key v = ground (arith, contains-folded (casefold key) (folds key))

  -- If a folded text has no capital N, the payload of an entry leaves out the keys of the request
  -- and nothing else, the name of the employee included.
  pub lookup-payload_of :
      (key : String) (entry : Dict Value)
      → lookup key (payload_of casefold entry)
        ≡ (if is_request_key key then none else lookup key entry)
  unfolding lookup payload_of
  lookup-payload_of key [] = ground arith
  lookup-payload_of key ((k, v) ∷ entry) =
      let rest = lookup-payload_of key entry in
      elim (Bool-cases (k == key)) [
        | inl same ↦
            let there : is_request_key k ≡ is_request_key key =
              ap is_request_key ((eq_iff k key).0 same) in
            ground (arith, is_kept_lem k v, same, there, rest)
        | inr other ↦ ground (arith, is_kept_lem k v, other, rest)
      ]
