-- ===== src/Otl/Query.antt =====
-- The filters that backend/services/otl_client.py puts into its requests: `escape_q_literal`, the `q`
-- of `list_timecard_entries` and of `get_worker`.
use text.Mathlib.TextLemmas.{cons-append}
use Prim.Native.String.{◌++◌ as ◌<>◌}
use otl_voice.Prelude.{
  ◌≡◌, ◌⊎◌, refl, true, false, Option, none, some, String, Char, code, ◌==◌, nat_eq, if◌then◌else◌,
  Bool-cases, inl, inr,
}
use otl_voice.Python.Text.{is_empty}

-- `str(value).replace("'", "''")`
unfoldable pub escape_q_literal : String → String
escape_q_literal String.[] = ""
escape_q_literal (String.◌∷◌ c s) =
    let rest = escape_q_literal s in
    if code c == 39 then String.◌∷◌ c (String.◌∷◌ c rest) else String.◌∷◌ c rest

-- `params["q"]` of `list_timecard_entries`, where it is set
unfoldable pub listing_filter : Option String → Option String
unfolding escape_q_literal
listing_filter none = none
listing_filter (some person_number) =
    if is_empty person_number
    then none
    else some ("personNumber" <> ("=" <> ("'" <> (escape_q_literal person_number <> "'"))))

-- `params["q"]` of `get_worker`
unfoldable pub worker_filter : String → String
unfolding escape_q_literal
worker_filter person_number =
    "PersonNumber" <> ("=" <> ("'" <> (escape_q_literal person_number <> "'")))

-- A reader of a text in quotes from behind its opening quote, which gives the text and what is behind
-- its closing quote. The laws are those that a doubled quote is written for, as in OData and SQL: two
-- quotes stand for one, another character for itself, and a quote with nothing behind it closes.
pub record QuoteReader : Type 0 where
  pub read : String → Option (String × String)
  pub doubled :
      (c : Char) (s text rest : String)
      → (code c == 39) ≡ true
      → read s ≡ some (text, rest)
      → read (String.◌∷◌ c (String.◌∷◌ c s)) ≡ some (String.◌∷◌ c text, rest)
  pub plain :
      (c : Char) (s text rest : String)
      → (code c == 39) ≡ false
      → read s ≡ some (text, rest)
      → read (String.◌∷◌ c s) ≡ some (String.◌∷◌ c text, rest)
  pub closed : read "'" ≡ some ("", "")

module _ (reader : QuoteReader) where
  read-escape_q_literal :
      (value : String) → reader.read (escape_q_literal value <> "'") ≡ some (value, "")
  unfolding escape_q_literal
  read-escape_q_literal String.[] = reader.closed
  read-escape_q_literal (String.◌∷◌ c s) = elim (Bool-cases (code c == 39)) [
    | inl quote ↦
        rw (quote, cons-append, cons-append)
          (reader.doubled c (escape_q_literal s <> "'") s "" quote (read-escape_q_literal s))
    | inr other ↦
        rw (other, cons-append)
          (reader.plain c (escape_q_literal s <> "'") s "" other (read-escape_q_literal s))
  ]

  -- Whatever text a person number is, a reader that takes two quotes for one reads exactly that text
  -- behind the opening quote in the filter of a worker, to the filter's end, and so it does in the
  -- filter of a listing, which an empty person number has none of.
  pub listing_filter-read :
      (person_number : String)
      → (text : String) × (reader.read text ≡ some (person_number, ""))
        × (worker_filter person_number ≡ "PersonNumber" <> ("=" <> ("'" <> text)))
        × (((person_number ≡ "") × (listing_filter (some person_number) ≡ none))
            ⊎ (listing_filter (some person_number)
                ≡ some ("personNumber" <> ("=" <> ("'" <> text)))))
  unfolding listing_filter worker_filter
  listing_filter-read String.[] =
      (escape_q_literal "" <> "'", read-escape_q_literal "", refl, inl (refl, refl))
  listing_filter-read (String.◌∷◌ c s) =
      let value = String.◌∷◌ c s in
      (escape_q_literal value <> "'", read-escape_q_literal value, refl, inr refl)
