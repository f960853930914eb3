-- ===== src/Python/Search.antt =====
-- `word in s.lower()` and `s.startswith`, for ASCII words in lower case.
use otl_voice.Prelude.{◌≡◌, refl, Bool, true, false, ◌&&◌, ◌||◌, code, String, ◌==◌, nat_eq}
use otl_voice.Python.Split.{lower_code}

-- `s.lower().startswith(word)`, for a word without a `k` that does not end in `i`.
unfoldable pub lower_starts : String → String → Bool
unfolding lower_code
lower_starts String.[] s = true
lower_starts (String.◌∷◌ w word) String.[] = false
lower_starts (String.◌∷◌ w word) (String.◌∷◌ c s) =
    let rest = lower_starts word s in lower_code (code c) == code w && rest

-- `word in s.lower()`
unfoldable pub lower_contains : String → String → Bool
unfolding lower_starts
lower_contains word String.[] = lower_starts word ""
lower_contains word (String.◌∷◌ c s) = lower_starts word (String.◌∷◌ c s) || lower_contains word s

samples :
    (lower_contains "your-" "My YOUR-key" ≡ true)
    × (lower_contains "changeme" "change me" ≡ false)
    × (lower_contains "" "" ≡ true)
unfolding lower_contains
samples = (refl, refl, refl)
