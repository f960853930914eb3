-- ===== src/Otl/Tests.antt =====
-- The theorem about requests at a concrete input, and runs of the retry loop.
use Prim.Native.String.{◌++◌ as ◌<>◌}
use otl_voice.Prelude.{Bool, Char, code, ◌==◌, nat_eq, if◌then◌else◌}
use otl_voice.Prelude.{ℕ, zero, suc, ◌+◌, ◌≡◌, ◌⊎◌, refl, true, false, arith, All}
use otl_voice.Prelude.{Option, none, some, String, List, [], ◌∷◌}
use otl_voice.Prelude.Dict.{Dict, lookup}
use otl_voice.Prelude.Result.{ok, err}
use otl_voice.Python.Value.{
  Value, Decimal, str, arr, obj, element, no_elements, member, no_members, truthy, get_or_none,
}
use otl_voice.Config.{Environ}
use otl_voice.Entries.Validate.{run_entries}
use otl_voice.Otl.Preflight.{preflight_entries, keys_of, repeated_key, one_key_for_many}
use otl_voice.Otl.Query.{QuoteReader, listing_filter, worker_filter, listing_filter-read}
use otl_voice.Otl.Statuses.{own_status, propagate_item, time_status_value}
use otl_voice.Otl.Statuses.Shown.{shows_status, Shows, events_of, propagate_item-Shows}
use otl_voice.Otl.Retry.{
  Outcome, responds, network_error, returned, raised, request_with_retry, request_with_retry-Ends,
  Ends, attempt_from, delay,
}

abbrev repr : Value → String
repr v = "?"

abbrev decimal : String → Option Decimal
decimal s = some (record { negative = false; digits = 8; scale = 0 })

abbrev unset : Environ
unset name = none

abbrev entry : String → Dict Value
entry key = ("hours", str "8") ∷ ("requestId", str key) ∷ []

preflight_runs :
    (preflight_entries repr decimal unset (entry "a" ∷ entry "b" ∷ []) none
      ≡ ok (some "a" ∷ some "b" ∷ []))
    × (preflight_entries repr decimal unset (entry "a" ∷ entry "a" ∷ []) none ≡ err repeated_key)
    × (preflight_entries repr decimal unset (entry "a" ∷ entry "b" ∷ []) (some "a")
        ≡ err one_key_for_many)
unfolding preflight_entries keys_of run_entries
preflight_runs = (refl, refl, refl)

abbrev two_keys : List (Option String)
two_keys = some "a" ∷ some "b" ∷ []

-- Busy, then away, then answered.
abbrev outcomes : ℕ → Outcome
outcomes zero = responds 503
outcomes (suc zero) = network_error
outcomes (suc (suc n)) = responds 201

abbrev jitter : ℕ → ℕ
jitter n = 400

retry_runs :
    (request_with_retry 500 8000 jitter outcomes true 3
      ≡ record { ending = returned 201; requests = 3; slept = 600 + 1200 })
    × (request_with_retry 500 8000 jitter outcomes true 1
        ≡ record { ending = raised network_error; requests = 2; slept = 600 })
    × (request_with_retry 500 8000 jitter outcomes false 3
        ≡ record { ending = returned 503; requests = 1; slept = 0 })
unfolding request_with_retry attempt_from delay
retry_runs = (refl, refl, refl)

request_with_retry-Ends_example :
    Ends 500 8000 jitter outcomes 3 0 (request_with_retry 500 8000 jitter outcomes true 3)
request_with_retry-Ends_example =
    request_with_retry-Ends 500 8000 jitter outcomes true 3 (λ n. omega arith)

-- A person number that would be a condition of its own.
abbrev forged : String
forged = "7' or '1'='1"

before : Char → Option (String × String) → Option (String × String)
before c none = none
before c (some (text, rest)) = some (String.◌∷◌ c text, rest)

-- The flag says whether the character in front was a quote that may close the text.
read_quoted : Bool → String → Option (String × String)
unfolding before
read_quoted false String.[] = none
read_quoted true String.[] = some ("", "")
read_quoted false (String.◌∷◌ c s) =
    let later = before c (read_quoted false s) in if code c == 39 then read_quoted true s else later
read_quoted true (String.◌∷◌ c s) =
    let later = before c (read_quoted false s) in
    if code c == 39 then later else some ("", String.◌∷◌ c s)

abbrev reader : QuoteReader
unfolding read_quoted before
reader = record {
  read = read_quoted false;
  doubled = λ c s text rest quote found. rw (quote, found) refl;
  plain = λ c s text rest other found. rw (other, found) refl;
  closed = refl;
}

listing_filter-read_example :
    (text : String) × (reader.read text ≡ some (forged, ""))
    × (worker_filter forged ≡ "PersonNumber" <> ("=" <> ("'" <> text)))
    × (((forged ≡ "") × (listing_filter (some forged) ≡ none))
        ⊎ (listing_filter (some forged) ≡ some ("personNumber" <> ("=" <> ("'" <> text)))))
listing_filter-read_example = listing_filter-read reader forged

-- An item with a status and an event without one.
abbrev item : Dict Value
item =
    ("timeStatuses", str "Approved")
    ∷ ("timeRecordEvent", arr (element (obj (member "hours" (str "8") no_members)) no_elements))
    ∷ []

propagate_item-Shows_example :
    (shows_status (propagate_item repr item) ≡ true)
    × All Shows (events_of (propagate_item repr item))
unfolding own_status lookup get_or_none time_status_value truthy
propagate_item-Shows_example = propagate_item-Shows repr item "Approved" refl refl
