-- ===== src/Edge/Uploader/Client.antt =====
-- client.go: what the client makes of an HTTP exchange. The exchange itself is outside: an answer
-- is what `httpClient.Do` and `io.ReadAll` return, and `decode` is `json.Unmarshal` into
-- `BatchResponse`, with its error text.
use ambagrid.Common.{
  ℕ, Bool, Option, List, ◌++◌, Text, codes, length, leb, ◌==◌, if◌then◌else◌, Result, ok, err,
  decimal, take, Float,
}
use ambagrid.Edge.Domain.{AssetType, Priority, Record}

pub record WireRecord : Type 0 where
  pub sequence : ℕ
  pub site_id : Text
  pub gateway_id : Text
  pub device_id : Text
  pub asset_type : AssetType
  pub mqtt_topic : Text
  pub payload : Text
  pub priority : Priority
  pub event_timestamp : ℕ
  pub edge_received_at : ℕ
  pub uploaded_at : ℕ
  pub replay : Bool
  pub critical_code : Text
  pub critical_value : Option Float

unfoldable pub to_wire : ℕ → Record → WireRecord
to_wire at r = record {
  sequence = r.sequence;
  site_id = r.site_id;
  gateway_id = r.gateway_id;
  device_id = r.device_id;
  asset_type = r.asset_type;
  mqtt_topic = r.mqtt_topic;
  payload = r.payload;
  priority = r.priority;
  event_timestamp = r.event_timestamp;
  edge_received_at = r.edge_received_at;
  uploaded_at = at;
  replay = r.replay_required;
  critical_code = r.critical_code;
  critical_value = r.critical_value;
}

-- `HealthReport` and the records: the body of a request.
pub record BatchRequest : Type 0 where
  pub gateway_id : Text
  pub queue_depth : ℕ
  pub oldest_pending_at : Option ℕ
  pub last_event_timestamp : Option ℕ
  pub last_successful_sync_at : Option ℕ
  pub last_failed_sync_reason : Text
  pub records : List WireRecord

pub record RecordError : Type 0 where
  pub index : ℕ
  pub sequence : ℕ
  pub code : Text
  pub message : Text

pub record BatchResponse : Type 0 where
  pub accepted : List ℕ
  pub rejected : List RecordError
  pub request_id : Text

-- A failed exchange, a body that could not be read, or a status and the body.
pub data HttpAnswer : Type 0 where
  unreachable : Text → HttpAnswer
  unreadable : ℕ → Text → HttpAnswer
  replied : ℕ → Text → HttpAnswer

unfoldable pub truncate : Text → ℕ → Text
truncate s n = if leb (length s) n then s else take n s ++ codes "..."

abbrev pub decode_error : Result Text BatchResponse → Result Text BatchResponse
decode_error (ok r) = ok r
decode_error (err e) = err (codes "decode upload response: " ++ e)

-- The part of `Upload` behind the request: its response, or the text of its error.
unfoldable pub read_answer :
    (Text → Result Text BatchResponse) → HttpAnswer → Result Text BatchResponse
unfolding truncate
read_answer decode (unreachable e) = err (codes "send upload request: " ++ e)
read_answer decode (unreadable status e) = err (codes "read upload response: " ++ e)
read_answer decode (replied status body) =
    if status == 401
    then err (codes "authentication failed (HTTP " ++ (decimal status ++ codes ")"))
    else if leb 500 status
    then err (codes "server error (HTTP " ++ (decimal status ++ (codes "): " ++ truncate body 256)))
    else decode_error (decode body)
