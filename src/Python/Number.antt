-- ===== src/Python/Number.antt =====
-- `int` of a text and `str` of an integer. Digits are the ASCII digits.
pub mod Printed
use otl_voice.Prelude.{
  ℕ, zero, suc, ◌+◌, ◌-◌, ◌*◌, ◌/◌, ◌%◌, ◌≡◌, refl, Bool, false, ◌&&◌, ◌||◌, Option, none, some,
  code, String, ltb, leb, ◌==◌, nat_eq, if◌then◌else◌,
}
use Prim.Native.String.{◌++◌}
use mathlib.Core.Option
use otl_voice.Prelude.Int.{ℤ, pos, negsuc, neg_ℕ}
use otl_voice.Python.Text.{strip}

abbrev pub is_digit : ℕ → Bool
is_digit c = leb b'0' c && leb c b'9'

-- Decimal digits, where one `_` may stand between two of them.
digits_from : ℕ → Bool → String → Option ℕ
digits_from n seen String.[] = if seen then some n else none
digits_from n seen (String.◌∷◌ c s) =
    let d = is_digit (code c) in
    let next = digits_from (if d then n * 10 + (code c - b'0') else n) d s in
    if d || (code c == b'_' && seen) then next else none

signed : String → Option ℤ
unfolding digits_from
signed String.[] = none
signed (String.◌∷◌ c s) =
    if code c == b'-'
    then Option.map neg_ℕ (digits_from 0 false s)
    else if code c == b'+'
    then Option.map pos (digits_from 0 false s)
    else Option.map pos (digits_from 0 false (String.◌∷◌ c s))

-- `int(s)`; `none` is the `ValueError`.
unfoldable pub parse_int : String → Option ℤ
unfolding signed strip
parse_int s = signed (strip s)

digit_text : ℕ → String
digit_text zero = "0"
digit_text (suc zero) = "1"
digit_text (suc (suc zero)) = "2"
digit_text (suc (suc (suc zero))) = "3"
digit_text (suc (suc (suc (suc zero)))) = "4"
digit_text (suc (suc (suc (suc (suc zero))))) = "5"
digit_text (suc (suc (suc (suc (suc (suc zero)))))) = "6"
digit_text (suc (suc (suc (suc (suc (suc (suc zero))))))) = "7"
digit_text (suc (suc (suc (suc (suc (suc (suc (suc zero)))))))) = "8"
digit_text _ = "9"

-- The last digits of `n` before `acc`; a number has fewer digits than `n + 1`.
print_from : ℕ → ℕ → String → String
unfolding digit_text
print_from zero n acc = acc
print_from (suc fuel) n acc =
    let here = digit_text (n % 10) ++ acc in
    let more = print_from fuel (n / 10) here in if ltb n 10 then here else more

unfoldable pub nat_text : ℕ → String
unfolding print_from
nat_text n = print_from (suc n) n ""

-- `str(n)`
unfoldable pub int_text : ℤ → String
unfolding nat_text
int_text (pos n) = nat_text n
int_text (negsuc n) = "-" ++ nat_text (suc n)

samples :
    (parse_int " -1_024 " ≡ some (negsuc 1023))
    × (parse_int "1__0" ≡ none)
    × (parse_int "" ≡ none)
    × (int_text (negsuc 1023) ≡ "-1024")
    × (nat_text 0 ≡ "0")
unfolding parse_int int_text
samples = (refl, refl, refl, refl, refl)
