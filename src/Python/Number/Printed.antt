-- ===== src/Python/Number/Printed.antt =====
-- That `int` reads what `str` writes of a natural number, and that it is written in digits.
use Prim.Native.String.{◌++◌}
use text.Mathlib.TextLemmas.{nil-append, cons-append}
use otl_voice.Prelude.{
  ℕ, zero, suc, ◌+◌, ◌-◌, ◌*◌, ◌/◌, ◌%◌, ◌<◌, ◌≡◌, ◌≢◌, refl, Bool, true, false, not, some, Char,
  code, String, arith, ltb, ltb→lt, ◌==◌, nat_eq, Bool-cases, inl, inr, ap, ◌∙◌,
}
use otl_voice.Prelude.Int.{pos}
use otl_voice.Python.Text.{all_chars, is_space, strip_of_no_space}
use otl_voice.Python.Number.{
  is_digit, digits_from, digit_text, print_from, nat_text, parse_int, signed,
}

digit_char : (k : ℕ) → k < 10 → (c : Char) × (digit_text k ≡ String.◌∷◌ c "") × (code c ≡ b'0' + k)
unfolding digit_text
digit_char zero h = (_, refl, refl)
digit_char (suc zero) h = (_, refl, refl)
digit_char (suc (suc zero)) h = (_, refl, refl)
digit_char (suc (suc (suc zero))) h = (_, refl, refl)
digit_char (suc (suc (suc (suc zero)))) h = (_, refl, refl)
digit_char (suc (suc (suc (suc (suc zero))))) h = (_, refl, refl)
digit_char (suc (suc (suc (suc (suc (suc zero)))))) h = (_, refl, refl)
digit_char (suc (suc (suc (suc (suc (suc (suc zero))))))) h = (_, refl, refl)
digit_char (suc (suc (suc (suc (suc (suc (suc (suc zero)))))))) h = (_, refl, refl)
digit_char (suc (suc (suc (suc (suc (suc (suc (suc (suc zero))))))))) h = (_, refl, refl)
digit_char (suc (suc (suc (suc (suc (suc (suc (suc (suc (suc k)))))))))) h = absurd (omega arith)

-- A digit in front of a text.
digit_front :
    (k : ℕ) (acc : String)
    → k < 10
    → (c : Char) × (digit_text k ++ acc ≡ String.◌∷◌ c acc) × (code c ≡ b'0' + k)
digit_front k acc h =
    let (c, e, coded) = digit_char k h in
    (c, rw e (cons-append c "" acc ∙ ap (String.◌∷◌ c) (nil-append acc)), coded)

digits_from-digit :
    (m k : ℕ) (seen : Bool) (acc : String)
    → k < 10
    → digits_from m seen (digit_text k ++ acc) ≡ digits_from (m * 10 + k) true acc
unfolding digits_from
digits_from-digit m k seen acc h =
    let (c, e, coded) = digit_front k acc h in
    let in_range : is_digit (b'0' + k) ≡ true = ground arith in
    let value : b'0' + k - b'0' ≡ k = omega arith in rw e (rw (coded, in_range, value) refl)

print_from-read :
    (fuel n : ℕ) (seen : Bool) (acc : String)
    → n < fuel
    → digits_from 0 seen (print_from fuel n acc) ≡ digits_from n true acc
unfolding print_from
print_from-read zero n seen acc h = absurd (omega arith)
print_from-read (suc fuel) n seen acc h = elim (Bool-cases (ltb n 10)) [
  | inl short ↦
      let one : 0 * 10 + n % 10 ≡ n = omega (arith, ltb→lt n 10 short) in
      rw short
        (digits_from-digit 0 (n % 10) seen acc (omega arith) ∙ ap (λ v. digits_from v true acc) one)
  | inr long ↦
      let whole : n / 10 * 10 + n % 10 ≡ n = omega arith in
      let smaller : n / 10 < fuel = ground (arith, long) in
      rw long (
        print_from-read fuel (n / 10) seen (digit_text (n % 10) ++ acc) smaller
        ∙ digits_from-digit (n / 10) (n % 10) true acc (omega arith)
        ∙ ap (λ v. digits_from v true acc) whole)
]

digit_text-digit :
    (k : ℕ) (acc : String)
    → k < 10
    → all_chars is_digit acc ≡ true
    → all_chars is_digit (digit_text k ++ acc) ≡ true
digit_text-digit k acc h rest =
    let (c, e, coded) = digit_front k acc h in
    let in_range : is_digit (b'0' + k) ≡ true = ground arith in rw (e, coded, in_range) rest

print_from-digits :
    (fuel n : ℕ) (acc : String)
    → all_chars is_digit acc ≡ true
    → all_chars is_digit (print_from fuel n acc) ≡ true
unfolding print_from
print_from-digits zero n acc h = h
print_from-digits (suc fuel) n acc h =
    let here = digit_text-digit (n % 10) acc (omega arith) h in
    ground (arith, here, print_from-digits fuel (n / 10) (digit_text (n % 10) ++ acc) here)

pub nat_text-digits : (n : ℕ) → all_chars is_digit (nat_text n) ≡ true
unfolding nat_text
nat_text-digits n = print_from-digits (suc n) n "" refl

digits_no_space :
    (s : String) → all_chars is_digit s ≡ true → all_chars (λ c. not (is_space c)) s ≡ true
unfolding is_space
digits_no_space String.[] h = refl
digits_no_space (String.◌∷◌ c s) h = ground (arith, digits_no_space s)

nat_text-read : (n : ℕ) → digits_from 0 false (nat_text n) ≡ some n
unfolding nat_text digits_from
nat_text-read n = print_from-read (suc n) n false "" (omega arith)

no_digits : (n : ℕ) → digits_from 0 false "" ≢ some n
unfolding digits_from
no_digits n h = cc

signed-digits :
    (s : String) (n : ℕ)
    → all_chars is_digit s ≡ true
    → digits_from 0 false s ≡ some n
    → signed s ≡ some (pos n)
unfolding signed
signed-digits String.[] n h read = absurd (no_digits n read)
signed-digits (String.◌∷◌ c s) n h read =
    let plus : (code c == b'+') ≡ false = ground (arith, h) in
    let minus : (code c == b'-') ≡ false = ground (arith, h) in rw (minus, plus, read) refl

-- `int(str(n)) == n`
pub parse_int-nat_text : (n : ℕ) → parse_int (nat_text n) ≡ some (pos n)
unfolding parse_int
parse_int-nat_text n =
    let digits = nat_text-digits n in
    rw (strip_of_no_space (nat_text n) (digits_no_space (nat_text n) digits))
      (signed-digits (nat_text n) n digits (nat_text-read n))
