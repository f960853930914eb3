-- ===== src/Otl/Create.antt =====
-- `create_timecard_entry`, `acreate_timecard_entry`, `_write_headers`, `_default_record_name` and
-- `_success_result` of backend/services/otl_client.py: one request to Oracle, and the result it
-- gives. What Oracle answers, the ids of `uuid4` and the clock are data of the call.
use Prim.Native.String.{◌++◌ as ◌<>◌}
use otl_voice.Prelude.{
  ℕ, ◌%◌, true, Option, none, some, [], ◌∷◌, code, String, leb, ◌==◌, nat_eq, if◌then◌else◌,
}
use otl_voice.Prelude.Dict.{Dict, insert}
use otl_voice.Prelude.Int.{pos}
use otl_voice.Prelude.Result.{Result, ok, err}
use otl_voice.Python.Text.{strip, prefix}
use otl_voice.Python.Number.{nat_text}
use otl_voice.Python.Value.{
  Value, Decimal, null, bool, int, real, str, arr, obj, member, no_members, dict_of, to_text,
  truthy, get_or_none,
}
use otl_voice.Config.{Environ, is_demo_mode}
use otl_voice.Idempotency.Key.{idempotency_key_for_entry}
use otl_voice.Otl.Results.{insert_text}
use otl_voice.Otl.Mapping.{MappingError, Event, map_entry_to_otl}

-- What the POST comes to: a status, the body if it is JSON, and the correlation id of the request;
-- or an exception of the client.
pub data Posted : Type 0 where
  responds : ℕ → Option Value → String → Posted
  raises : Posted

-- What `create_timecard_entry` comes to: a body, an `OtlError` or another exception.
pub data Created : Type 0 where
  created : Value → Created
  rejected : ℕ → String → Created
  crashed : Created

-- The key of the header `Idempotency-Key`, if there is one.
unfoldable pub header_key : Dict Value → Option String
header_key entry = elim (idempotency_key_for_entry entry none) [ ok key ↦ key | err e ↦ none ]

-- `_write_headers`
unfoldable pub write_headers : Dict Value → String → Dict String
write_headers entry correlation_id =
    let headers : Dict String =
      ("Content-Type", "application/json") ∷ ("X-Correlation-ID", correlation_id) ∷ [] in
    elim (header_key entry) [ none ↦ headers | some key ↦ insert "Idempotency-Key" key headers ]

-- `_raise_for_status`, and `resp.json()`.
answered : Posted → Created
answered (responds status body correlation) =
    if leb 400 status
    then rejected status correlation
    else elim body [ none ↦ crashed | some value ↦ created value ]
answered raises = crashed

module _ (repr : Value → String) (decimal : String → Option Decimal) (general : ℕ → String)
    (env : Environ) where
  create_mapped : Result MappingError Event → String → Posted → Created
  unfolding answered
  create_mapped (err e) error_id outcome = rejected 400 error_id
  create_mapped (ok event) error_id outcome = answered outcome

  -- `create_timecard_entry`; an `OtlError` of the mapping gets an id of its own.
  unfoldable pub create_timecard_entry : Dict Value → String → Posted → Created
  unfolding create_mapped
  create_timecard_entry entry error_id outcome =
      create_mapped (map_entry_to_otl repr decimal general env entry) error_id outcome

  -- `acreate_timecard_entry`, which makes the answer up in the demonstration; `demo_id` is that of
  -- `uuid4`.
  unfoldable pub acreate_timecard_entry : Dict Value → String → String → Posted → Created
  acreate_timecard_entry entry error_id demo_id outcome =
      if is_demo_mode env
      then created (obj (member "timeRecordEventRequestId" (str ("DEMO-" <> demo_id)) no_members))
      else create_timecard_entry entry error_id outcome

-- `value or default`, and `str` of it without the space around it.
or_text : (Value → String) → Value → String → String
or_text repr value default = strip (if truthy value then to_text repr value else default)

unfoldable pub dashes : String → String
dashes String.[] = ""
dashes (String.◌∷◌ c s) =
    if code c == b':' then String.◌∷◌ "-" (dashes s) else String.◌∷◌ c (dashes s)

-- `_default_record_name`; `millis` is `int(time.time() * 1000)`.
unfoldable pub default_record_name : (Value → String) → Dict Value → ℕ → String
unfolding or_text
default_record_name repr entry millis =
    let suffix : String = elim (header_key entry) [
      | none ↦ nat_text (millis % 1_000_000)
      | some key ↦ prefix 48 (dashes key)
    ] in
    or_text repr (get_or_none "employeeNumber" entry) "EMP"
    <> ("-" <> (or_text repr (get_or_none "workOrder" entry) "WO" <> ("-" <> suffix)))

-- `timeRecordEventRequestId` of the body, if it is a dictionary that has one.
record_id_of : Value → Value
record_id_of (obj fields) = get_or_none "timeRecordEventRequestId" (dict_of fields)
record_id_of null = null
record_id_of (bool b) = null
record_id_of (int n) = null
record_id_of (real d) = null
record_id_of (str s) = null
record_id_of (arr vs) = null

-- `_success_result`, without the flag `replayed`, which no caller sets.
unfoldable pub success_result :
    (Value → String) → ℕ → Value → String → String → Option String → Dict Value
unfolding record_id_of
success_result repr index body record_name correlation_id request_id =
    let found = record_id_of body in
    let record_id = prefix 256 (if truthy found then to_text repr found else "UNKNOWN") in
    insert_text "requestId" request_id (
      ("index", int (pos index))
      ∷ ("ok", bool true)
      ∷ ("id", str record_id)
      ∷ ("recordNumber", str record_id)
      ∷ ("recordName", str record_name)
      ∷ ("correlationId", str correlation_id)
      ∷ [])
