-- ===== src/Entries/Times.antt =====
-- `_parse_date`, `_parse_time`, `_minutes` and `_validate_times` of
-- backend/services/timecard_entries.py. Digits are the ASCII digits: other digits pass the pattern of
-- the code and then fail as values.
use otl_voice.Prelude.{
  ℕ, ◌+◌, ◌-◌, ◌*◌, ◌%◌, ◌<◌, ◌≡◌, Bool, not, ◌&&◌, ◌||◌, Option, none, some, List, [], ◌∷◌, String,
  code, arith, ltb, leb, ◌==◌, nat_eq, all, if◌then◌else◌,
}
use otl_voice.Prelude.Dict.{Dict}
use otl_voice.Prelude.Result.{Result, ok, err, ◌>>=◌, >>=-eq-ok}
use otl_voice.Python.Text.{is_empty}
use otl_voice.Python.Number.{is_digit}
use otl_voice.Python.Value.{Value, null, bool, int, real, str, arr, obj, get_or_none}
use otl_voice.Entries.Entry.{
  EntryError, date_not_text, date_empty, date_format, date_value, time_not_text, time_empty,
  time_format, time_value, stop_without_start, not_earlier, not_matching,
}

codes : String → List ℕ
codes String.[] = []
codes (String.◌∷◌ c s) = code c ∷ codes s

two : ℕ → ℕ → ℕ
two a b = (a - b'0') * 10 + (b - b'0')

is_leap : ℕ → Bool
is_leap year = year % 4 == 0 && (not (year % 100 == 0) || year % 400 == 0)

-- The days of a month; `date.fromisoformat` refuses every other day, month and the year 0.
days_in_month : ℕ → ℕ → ℕ
unfolding is_leap
days_in_month year month =
    if month == 2
    then (if is_leap year then 29 else 28)
    else if month == 4 || month == 6 || month == 9 || month == 11
    then 30
    else 31

is_date : ℕ → ℕ → ℕ → Bool
unfolding days_in_month
is_date year month day =
    ltb 0 year && ltb 0 month && leb month 12 && ltb 0 day && leb day (days_in_month year month)

-- A text of the form YYYY-MM-DD.
date_of_codes : List ℕ → Result EntryError (ℕ × ℕ × ℕ)
unfolding is_date two
date_of_codes (a ∷ b ∷ c ∷ d ∷ h ∷ e ∷ f ∷ g ∷ i ∷ j ∷ []) =
    if all is_digit (a ∷ b ∷ c ∷ d ∷ e ∷ f ∷ i ∷ j ∷ []) && h == b'-' && g == b'-'
    then (if is_date (two a b * 100 + two c d) (two e f) (two i j)
        then ok (two a b * 100 + two c d, two e f, two i j)
        else err date_value)
    else err date_format
date_of_codes _ = err date_format

unfoldable pub parse_date : Value → Result EntryError (Option (ℕ × ℕ × ℕ))
unfolding date_of_codes codes
parse_date null = ok none
parse_date (str s) =
    if is_empty s then err date_empty else date_of_codes (codes s) >>= (λ d. ok (some d))
parse_date (bool b) = err date_not_text
parse_date (int n) = err date_not_text
parse_date (real d) = err date_not_text
parse_date (arr vs) = err date_not_text
parse_date (obj fs) = err date_not_text

-- A text of the form HH:MM, in minutes of the day.
time_of_codes : String → List ℕ → Result EntryError ℕ
unfolding two
time_of_codes field (a ∷ b ∷ c ∷ d ∷ e ∷ []) =
    if all is_digit (a ∷ b ∷ d ∷ e ∷ []) && c == b':'
    then (if ltb (two a b) 24 && ltb (two d e) 60
        then ok (two a b * 60 + two d e)
        else err (time_value field))
    else err (time_format field)
time_of_codes field _ = err (time_format field)

-- `_parse_time` and `_minutes` of what it gives.
unfoldable pub parse_minutes : String → Value → Result EntryError (Option ℕ)
unfolding time_of_codes codes
parse_minutes field null = ok none
parse_minutes field (str s) =
    if is_empty s
    then err (time_empty field)
    else time_of_codes field (codes s) >>= (λ minutes. ok (some minutes))
parse_minutes field (bool b) = err (time_not_text field)
parse_minutes field (int n) = err (time_not_text field)
parse_minutes field (real d) = err (time_not_text field)
parse_minutes field (arr vs) = err (time_not_text field)
parse_minutes field (obj fs) = err (time_not_text field)

-- `units` quarters of an hour are `int(hours * 60)` minutes.
compare_times : ℕ → Option ℕ → Option ℕ → Result EntryError Unit
compare_times units none none = ok tt
compare_times units none (some stop) = err stop_without_start
compare_times units (some start) none = ok tt
compare_times units (some start) (some stop) =
    if leb stop start
    then err not_earlier
    else if stop - start == units * 15
    then ok tt
    else err not_matching

unfoldable pub validate_times : Dict Value → ℕ → Result EntryError Unit
unfolding compare_times
validate_times entry units = parse_minutes "startTime" (get_or_none "startTime" entry) >>= (λ start.
    parse_minutes "stopTime" (get_or_none "stopTime" entry)
    >>= (λ stop. compare_times units start stop))

time_of_codes-bound :
    (field : String) (cs : List ℕ) (minutes : ℕ)
    → time_of_codes field cs ≡ ok minutes
    → minutes < 1440
unfolding time_of_codes
time_of_codes-bound field (a ∷ b ∷ c ∷ d ∷ e ∷ []) minutes h = ground arith
time_of_codes-bound field [] minutes h = cc
time_of_codes-bound field (a ∷ []) minutes h = cc
time_of_codes-bound field (a ∷ b ∷ []) minutes h = cc
time_of_codes-bound field (a ∷ b ∷ c ∷ []) minutes h = cc
time_of_codes-bound field (a ∷ b ∷ c ∷ d ∷ []) minutes h = cc
time_of_codes-bound field (a ∷ b ∷ c ∷ d ∷ e ∷ f ∷ cs) minutes h = cc

-- A time that is read lies in one day.
pub parse_minutes-bound :
    (field : String) (v : Value) (minutes : ℕ)
    → parse_minutes field v ≡ ok (some minutes)
    → minutes < 1440
unfolding parse_minutes
parse_minutes-bound field (str s) minutes h = ground (arith, time_of_codes-bound field (codes s))
parse_minutes-bound field null minutes h = cc
parse_minutes-bound field (bool b) minutes h = cc
parse_minutes-bound field (int n) minutes h = cc
parse_minutes-bound field (real d) minutes h = cc
parse_minutes-bound field (arr vs) minutes h = cc
parse_minutes-bound field (obj fs) minutes h = cc

-- Times that pass: both are read, a stop has a start in front of it on the same day, and between
-- them lie exactly the hours of the entry.
abbrev pub TimesMatch : ℕ → Option ℕ → Option ℕ → Type 0
TimesMatch units none none = Unit
TimesMatch units (some start) none = Unit
TimesMatch units none (some stop) = ⊥
TimesMatch units (some start) (some stop) =
    (start < stop) × (stop < 1440) × (start + units * 15 ≡ stop)

compare_times-match :
    {read : Result EntryError (Option ℕ)} (units : ℕ) (start stop : Option ℕ)
    → ((minutes : ℕ) → read ≡ ok (some minutes) → minutes < 1440)
    → read ≡ ok stop
    → compare_times units start stop ≡ ok tt
    → TimesMatch units start stop
unfolding compare_times
compare_times-match units none none bound e c = tt
compare_times-match units (some start) none bound e c = tt
compare_times-match units none (some stop) bound e c = cc
compare_times-match units (some start) (some stop) bound e c = ground (arith, bound stop e)

pub validate_times-match :
    (entry : Dict Value) (units : ℕ)
    → validate_times entry units ≡ ok tt
    → (start : Option ℕ) × (stop : Option ℕ) × (parse_minutes "startTime"
          (get_or_none "startTime" entry)
        ≡ ok start)
      × (parse_minutes "stopTime" (get_or_none "stopTime" entry) ≡ ok stop)
      × TimesMatch units start stop
unfolding validate_times
validate_times-match entry units h =
    let (start, e, h1) =
      >>=-eq-ok (parse_minutes "startTime" (get_or_none "startTime" entry)) _ h in
    let (stop, e', h2) = >>=-eq-ok (parse_minutes "stopTime" (get_or_none "stopTime" entry)) _ h1 in
    (
      start,
      stop,
      e,
      e',
      compare_times-match units start stop
          (parse_minutes-bound "stopTime" (get_or_none "stopTime" entry)) e' h2,
    )
