-- ===== src/Idempotency/Record.antt =====
-- The records of both backends of backend/services/idempotency.py, and what `claim` answers.
-- Times are natural numbers of one unit. `result_json` is the dictionary that the JSON text encodes:
-- `json.loads` gives back what `json.dumps` was given, and the text is never empty.
use otl_voice.Prelude.{
  ℕ, Bool, true, false, Option, none, some, [], ◌∷◌, String, ltb, ◌==◌, string_eq,
}
use otl_voice.Prelude.Dict.{Dict, insert}
use otl_voice.Prelude.Int.{pos}
use otl_voice.Python.Value.{Value, bool, int, str}
use otl_voice.Idempotency.Sanitize.{submission_in_progress, request_id_conflict}

pub data State : Type 0 where
  pending complete : State

abbrev pub is_pending : State → Bool
is_pending State.pending = true
is_pending State.complete = false

-- `_MemoryRecord`
pub record Record : Type 0 where
  pub state : State
  pub request_hash : String
  pub result_json : Option (Dict Value)
  pub owner_token : Option String
  pub lease_until : ℕ
  pub expires_at : ℕ

-- A row of `idempotency_records`
pub record Row : Type 0 where
  pub base : Record
  pub open base use *
  pub created_at : ℕ

-- `IdempotencyClaim`: each state with the fields that the code fills for it.
pub data Claim : Type 0 where
  claimed : String → Claim
  pending : Claim
  replay : Dict Value → Claim
  conflict : Dict Value → Claim

-- `_pending_result`
abbrev pub pending_result : Dict Value
pending_result =
    ("ok", bool false)
    ∷ ("status", int (pos 409))
    ∷ ("code", str submission_in_progress)
    ∷ ("error", str "A matching submission is still processing. Retry with the same requestId.")
    ∷ []

-- `_conflict_result`
abbrev pub conflict_result : Dict Value
conflict_result =
    ("ok", bool false)
    ∷ ("status", int (pos 409))
    ∷ ("code", str request_id_conflict)
    ∷ ("error", str "This requestId was already used for different timecard data.")
    ∷ []

-- The stored result of a finished record, `state == "complete" and result_json`.
abbrev pub finished : Record → Option (Dict Value)
finished r = elim r.state [ State.pending ↦ none | State.complete ↦ r.result_json ]

abbrev pub owned_by : String → Option String → Bool
owned_by token none = false
owned_by token (some owner) = owner == token

abbrev pub is_live : ℕ → Record → Bool
is_live now r = ltb now r.expires_at

abbrev pub replayed : Dict Value → Dict Value
replayed result = insert "replayed" (bool true) result
