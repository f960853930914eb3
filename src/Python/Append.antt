-- ===== src/Python/Append.antt =====
-- Joined texts: their length, their characters, and when two of them are equal.
use Prim.Native.String.{◌++◌}
use text.Mathlib.TextLemmas.{nil-append, cons-append, cons-eq-cons, append_cancel_left}
use otl_voice.Prelude.{ℕ, ◌+◌, ◌≡◌, refl, sym, ◌∙◌, Bool, ◌&&◌, String, arith}
use otl_voice.Python.Text.{text_length, all_chars}

pub text_length-append : (s t : String) → text_length (s ++ t) ≡ text_length s + text_length t
text_length-append String.[] t = rw nil-append (omega arith)
text_length-append (String.◌∷◌ c s) t = rw cons-append (omega (arith, text_length-append s t))

pub all_chars-append :
    (p : ℕ → Bool) (s t : String) → all_chars p (s ++ t) ≡ (all_chars p s && all_chars p t)
all_chars-append p String.[] t = rw nil-append (ground arith)
all_chars-append p (String.◌∷◌ c s) t = rw cons-append (ground (arith, all_chars-append p s t))

-- Texts whose first parts have one length are equal only part by part.
pub append_injective :
    (a b x y : String) → text_length a ≡ text_length b → a ++ x ≡ b ++ y → (a ≡ b) × (x ≡ y)
append_injective String.[] String.[] x y l h = (refl, append_cancel_left "" x y h)
append_injective String.[] (String.◌∷◌ d b) x y l h = absurd (omega arith)
append_injective (String.◌∷◌ c a) String.[] x y l h = absurd (omega arith)
append_injective (String.◌∷◌ c a) (String.◌∷◌ d b) x y l h =
    let (heads, tails) = cons-eq-cons.0 (sym (cons-append c a x) ∙ h ∙ cons-append d b y) in
    let (same, rest) = append_injective a b x y (omega arith) tails in (cc (heads, same), rest)
