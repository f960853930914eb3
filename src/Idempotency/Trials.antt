-- ===== src/Idempotency/Trials.antt =====
-- The theorem about fingerprints at a concrete input.
use otl_voice.Prelude.{
  ◌≡◌, refl, true, none, [], ◌∷◌, String, code, ◌==◌, nat_eq, if◌then◌else◌, Bool-cases, inl, inr,
}
use otl_voice.Prelude.Dict.{Dict, lookup}
use otl_voice.Python.Text.{all_chars}
use otl_voice.Python.Value.{Value, str}
use otl_voice.Idempotency.Fingerprint.{payload_of, is_request_key, is_folded, lookup-payload_of}

-- The folding of the letter N alone.
fold : String → String
fold String.[] = ""
fold (String.◌∷◌ c s) = let rest = fold s in String.◌∷◌ (if code c == 78 then "n" else c) rest

folds : (key : String) → all_chars is_folded (fold key) ≡ true
unfolding fold
folds String.[] = refl
folds (String.◌∷◌ c s) = elim (Bool-cases (code c == 78)) [
  | inl capital ↦ rw capital (folds s)
  | inr other ↦ rw (other, other) (folds s)
]

abbrev entry : Dict Value
entry = ("requestId", str "k") ∷ ("employeeName", str "Ada") ∷ []

lookup-payload_of_example :
    lookup "employeeName" (payload_of fold entry)
    ≡ (if is_request_key "employeeName" then none else lookup "employeeName" entry)
lookup-payload_of_example = lookup-payload_of fold folds "employeeName" entry
