-- ===== src/Api/Submit/Sent.antt =====
-- What `submit_timecard` sends, and when it sends nothing.
use otl_voice.Prelude.{◌≤◌, ◌≡◌, ◌⊎◌, Option, none, some, List, String, All, length, nat_eq}
use otl_voice.Prelude.Dict.{Dict, lookup}
use otl_voice.Prelude.Result.{Result, ok, err}
use otl_voice.Python.Value.{Value, Decimal, str}
use otl_voice.Config.{Environ}
use otl_voice.Entries.Validate.{validate_timecard_entries}
use otl_voice.Entries.Resolve.{Context}
use otl_voice.Api.Submit.Early.{IsEarly}
use otl_voice.Otl.Credential.{OtlCredential, service_credential}
use otl_voice.Api.Submit.{
  resolve_all, Body, Catalogue, loaded, Rejection, Reply, submission_failed, entries_of, answered,
  submit_timecard,
}

-- An entry is in the name of the session's employee.
abbrev pub IsOwn : Context → Dict Value → Type 0
IsOwn ctx entry =
    (lookup "employeeNumber" entry ≡ some (str ctx.employee_id))
    × (lookup "employeeName" entry ≡ some (str ctx.full_name))

module _ (repr : Value → String) (decimal : String → Option Decimal) (casefold : String → String)
    (env : Environ) where
  -- What passes the checks.
  pub record Passed (ctx : Context) (catalogue : Catalogue) (entries to_send : List (Dict Value))
      (request_id : Option String) : Type 0 where
    pub assignments : List Value
    pub found : catalogue ≡ loaded assignments
    pub valid : validate_timecard_entries repr decimal env (some assignments) entries ≡ ok tt
    pub some_entry : 1 ≤ length entries
    pub few : length entries ≤ 100
    pub single : (request_id ≡ none) ⊎ (length entries ≡ 1)
    pub resolved : resolve_all repr decimal casefold env ctx assignments entries ≡ ok to_send
    pub each : length to_send ≡ length entries
    pub own : All (IsOwn ctx) to_send

module _ {S : Type 0} (fenced : String → Option String) (loads : String → Option Value)
    (repr : Value → String) (decimal : String → Option Decimal) (casefold : String → String)
    (env : Environ) (assignments_for : String → Catalogue)
    (acreate_many : OtlCredential
      → List (Dict Value)
      → Option String
      → S
      → S × Option (List (Dict Value))) where
  abbrev submitted : Body → Option String → Context → S → S × Result Rejection Reply
  submitted = submit_timecard fenced loads repr decimal casefold env assignments_for acreate_many

  -- The request is turned down, and nothing is sent.
  abbrev pub TurnedDown : Context → S → S × Result Rejection Reply → Type 0
  TurnedDown ctx state answer =
      (e : Rejection) × (answer ≡ (state, err e)) × IsEarly {A = Reply} (err e)

  -- What passes the checks, of the entries of the request.
  abbrev pub Checked : Body → Context → List (Dict Value) → Option String → Type 0
  Checked body ctx to_send request_id =
      (entries : List (Dict Value)) × (entries_of fenced loads body.entries body.assistant_message
        ≡ ok entries)
      × Passed repr decimal casefold env ctx (assignments_for ctx.employee_id) entries to_send
          request_id

  -- The request passes, but there is no service account: nothing is sent.
  abbrev pub NoCredential : Body → Context → S → S × Result Rejection Reply → Type 0
  NoCredential body ctx state answer =
      (to_send : List (Dict Value)) × (request_id : Option String) × Checked body ctx to_send
        request_id
      × (service_credential env ≡ none)
      × (answer ≡ (state, err submission_failed))

  -- One call of `acreate_many` with what passes the checks.
  abbrev pub Sends : Body → Context → S → S × Result Rejection Reply → Type 0
  Sends body ctx state answer =
      (to_send : List (Dict Value)) × (request_id : Option String) × (credential : OtlCredential)
      × Checked body ctx to_send request_id
      × (service_credential env ≡ some credential)
      × (answer
          ≡ answered fenced loads repr decimal casefold env assignments_for acreate_many
              (acreate_many credential to_send request_id state))
