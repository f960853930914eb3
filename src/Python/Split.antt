-- ===== src/Python/Split.antt =====
-- `split`, `join`, `in`, `index` and the comparison of `lower()` with a word, for ASCII separators.
use Prim.Native.String.{◌++◌ as ◌<>◌}
use text.Mathlib.TextLemmas.{nil-append, cons-append}
use otl_voice.Prelude.{
  ℕ, ◌+◌, ◌≡◌, refl, Bool, true, false, ◌&&◌, Option, none, some, List, [], ◌∷◌, ◌++◌, Char, code,
  String, arith, leb, ◌==◌, nat_eq, if◌then◌else◌, Bool-cases, not, ap, ◌∙◌, inl, inr,
}
use otl_voice.Python.Text.{is_empty, all_chars}

onto_first : Char → List String → List String
onto_first c [] = String.◌∷◌ c "" ∷ []
onto_first c (first ∷ others) = String.◌∷◌ c first ∷ others

-- `s.split(sep)`, which has one part more than `s` has separators.
unfoldable pub split : ℕ → String → List String
unfolding onto_first
split sep String.[] = "" ∷ []
split sep (String.◌∷◌ c s) =
    let rest = split sep s in if code c == sep then "" ∷ rest else onto_first c rest

split-cons : (sep : ℕ) (s : String) → (p : String) × (ps : List String) × (split sep s ≡ p ∷ ps)
unfolding split
split-cons sep String.[] = ("", [], refl)
split-cons sep (String.◌∷◌ c s) = elim (Bool-cases (code c == sep)) [
  | inl same ↦ rw same ("", split sep s, refl)
  | inr other ↦ let (p, ps, e) = split-cons sep s in rw (other, e) (String.◌∷◌ c p, ps, refl)
]

onto_first-append :
    (c : Char) (p : String) (ps more : List String) (xs : List String)
    → xs ≡ p ∷ ps
    → onto_first c (xs ++ more) ≡ onto_first c xs ++ more
unfolding onto_first
onto_first-append c p ps more xs e = rw e refl

-- The parts of two texts with a separator between them.
pub split-append :
    (sep : Char) (a b : String)
    → split (code sep) (a <> String.◌∷◌ sep b) ≡ split (code sep) a ++ split (code sep) b
unfolding split onto_first
split-append sep String.[] b = rw (nil-append (String.◌∷◌ sep b)) (ground arith)
split-append sep (String.◌∷◌ c a) b =
    let (p, ps, e) = split-cons (code sep) a in
    rw (cons-append c a (String.◌∷◌ sep b)) (
      ground (
        arith,
        split-append sep a b,
        onto_first-append c p ps (split (code sep) b) (split (code sep) a) e,
      ))

pub split_whole :
    (sep : ℕ) (s : String) → all_chars (λ c. not (c == sep)) s ≡ true → split sep s ≡ s ∷ []
unfolding split onto_first
split_whole sep String.[] h = refl
split_whole sep (String.◌∷◌ c s) h = ground (arith, split_whole sep s)

-- The first part of a text, up to a separator.
pub split_first :
    (sep : Char) (a b : String)
    → all_chars (λ c. not (c == code sep)) a ≡ true
    → split (code sep) (a <> String.◌∷◌ sep b) ≡ a ∷ split (code sep) b
split_first sep a b h =
    split-append sep a b ∙ ap (λ parts. parts ++ split (code sep) b) (split_whole (code sep) a h)

-- `sep.join(parts)`
unfoldable pub join : String → List String → String
join sep [] = ""
join sep (part ∷ []) = part
join sep (part ∷ next ∷ parts) = part <> (sep <> join sep (next ∷ parts))

before_first : Char → Option (String × String) → Option (String × String)
before_first c none = none
before_first c (some (a, b)) = some (String.◌∷◌ c a, b)

-- The text in front of the first separator and the text behind it, if there is one.
unfoldable pub cut : ℕ → String → Option (String × String)
unfolding before_first
cut sep String.[] = none
cut sep (String.◌∷◌ c s) =
    let rest = cut sep s in if code c == sep then some ("", s) else before_first c rest

-- `s.count(c)` of one character
unfoldable pub count : ℕ → String → ℕ
count sep String.[] = 0
count sep (String.◌∷◌ c s) = (if code c == sep then 1 else 0) + count sep s

unfoldable pub lower_code : ℕ → ℕ
lower_code c = if leb b'A' c && leb c b'Z' then c + 32 else c

-- `s.lower() == word`, for an ASCII word in lower case without a `k`: the only
-- other characters with a letter in their lower case are the Kelvin sign and `İ`, whose lower case is an
-- `i` with a mark behind it.
unfoldable pub lower_is : String → String → Bool
unfolding lower_code
lower_is String.[] s = is_empty s
lower_is (String.◌∷◌ w word) String.[] = false
lower_is (String.◌∷◌ w word) (String.◌∷◌ c s) =
    let rest = lower_is word s in lower_code (code c) == code w && rest

samples :
    (split b',' "a,,b" ≡ "a" ∷ "" ∷ "b" ∷ [])
    × (split b',' "" ≡ "" ∷ [])
    × (join "," ("a" ∷ "b" ∷ []) ≡ "a,b")
    × (cut b':' "10.0.0.1:80:9" ≡ some ("10.0.0.1", "80:9"))
    × (count b':' "a:b:" ≡ 2)
    × (lower_is "yes" "YeS" ≡ true)
unfolding split join cut count lower_is
samples = (refl, refl, refl, refl, refl, refl)
