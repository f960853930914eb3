-- ===== src/Python/Text.antt =====
-- Python's `str` as the code uses it: slices, `strip`, `lower`, `in`, and `int` of a text.
use otl_voice.Prelude.{
  ℕ, zero, suc, ◌≤◌, ◌<◌, min, ◌≡◌, refl, Bool, true, false, not, ◌&&◌, ◌||◌, arith, code, String,
  leb, ◌==◌, nat_eq, if◌then◌else◌, ap,
}

-- `len(s)`
abbrev pub text_length : String → ℕ
text_length String.[] = 0
text_length (String.◌∷◌ c s) = suc (text_length s)

-- `s[:n]`
unfoldable pub prefix : ℕ → String → String
prefix zero s = ""
prefix (suc n) String.[] = ""
prefix (suc n) (String.◌∷◌ c s) = String.◌∷◌ c (prefix n s)

pub text_length-prefix : (n : ℕ) (s : String) → text_length (prefix n s) ≡ min n (text_length s)
unfolding prefix
text_length-prefix zero s = omega arith
text_length-prefix (suc n) String.[] = omega arith
text_length-prefix (suc n) (String.◌∷◌ c s) = omega (arith, text_length-prefix n s)

pub prefix_of_short : (n : ℕ) (s : String) → text_length s ≤ n → prefix n s ≡ s
unfolding prefix
prefix_of_short zero String.[] h = refl
prefix_of_short zero (String.◌∷◌ c s) h = absurd (omega arith)
prefix_of_short (suc n) String.[] h = refl
prefix_of_short (suc n) (String.◌∷◌ c s) h = ap (String.◌∷◌ c) (prefix_of_short n s (omega arith))

pub prefix_idem : (n : ℕ) (s : String) → prefix n (prefix n s) ≡ prefix n s
prefix_idem n s = prefix_of_short n (prefix n s) (omega (arith, text_length-prefix n s))

-- The characters that `str.strip` takes off.
unfoldable pub is_space : ℕ → Bool
is_space c =
    (leb 9 c && leb c 13)
    || (leb 28 c && leb c 32)
    || c == 133
    || c == 160
    || c == 5760
    || (leb 8192 c && leb c 8202)
    || c == 8232
    || c == 8233
    || c == 8239
    || c == 8287
    || c == 12288

abbrev pub is_empty : String → Bool
is_empty String.[] = true
is_empty (String.◌∷◌ c s) = false

pub is_empty-long : (s : String) → 0 < text_length s → is_empty s ≡ false
is_empty-long String.[] h = absurd (omega arith)
is_empty-long (String.◌∷◌ c s) h = refl

unfoldable pub lstrip : String → String
lstrip String.[] = ""
lstrip (String.◌∷◌ c s) = if is_space (code c) then lstrip s else String.◌∷◌ c s

unfoldable pub rstrip : String → String
rstrip String.[] = ""
rstrip (String.◌∷◌ c s) =
    let rest = rstrip s in if is_empty rest && is_space (code c) then "" else String.◌∷◌ c rest

unfoldable pub strip : String → String
unfolding lstrip rstrip is_space
strip s = rstrip (lstrip s)

abbrev pub all_chars : (ℕ → Bool) → String → Bool
all_chars p String.[] = true
all_chars p (String.◌∷◌ c s) = p (code c) && all_chars p s

pub all_chars-imp :
    (p q : ℕ → Bool) (s : String)
    → ((c : ℕ) → p c ≡ true → q c ≡ true)
    → all_chars p s ≡ true
    → all_chars q s ≡ true
all_chars-imp p q String.[] imp h = refl
all_chars-imp p q (String.◌∷◌ c s) imp h = ground (arith, imp (code c), all_chars-imp p q s imp)

-- A text with no white space in it is its own `strip`.
pub rstrip_of_no_space : (s : String) → all_chars (λ c. not (is_space c)) s ≡ true → rstrip s ≡ s
unfolding rstrip
rstrip_of_no_space String.[] h = refl
rstrip_of_no_space (String.◌∷◌ c s) h = ground (arith, rstrip_of_no_space s)

pub strip_of_no_space : (s : String) → all_chars (λ c. not (is_space c)) s ≡ true → strip s ≡ s
unfolding strip
strip_of_no_space String.[] h = refl
strip_of_no_space (String.◌∷◌ c s) h = ground (arith, rstrip_of_no_space (String.◌∷◌ c s))
