-- ===== src/Ingest/Wire.antt =====
-- The two ends of an upload: `client.go` of the edge agent and `types.go` of the service name the
-- same JSON fields, so a request and its answer cross the wire field by field.
use ambagrid.Common.{ℤ, pos, map}
use ambagrid.Edge.Domain.{Priority, normal, critical, other_priority}
use ambagrid.Edge.Uploader.Client.{WireRecord, BatchRequest, BatchResponse, RecordError}
use ambagrid.Ingest.Types.{IngestRecord, IngestBatch, RecordRejection, IngestResponse}

-- `Priority: int(r.Priority)`; a priority beside the two constants is never stored.
abbrev pub wire_priority : Priority → ℤ
wire_priority normal = pos 0
wire_priority critical = pos 1
wire_priority (other_priority n) = pos n

unfoldable pub received_record : WireRecord → IngestRecord
received_record r = record {
  sequence = r.sequence;
  site_id = r.site_id;
  gateway_id = r.gateway_id;
  device_id = r.device_id;
  asset_type = r.asset_type;
  mqtt_topic = r.mqtt_topic;
  payload = r.payload;
  priority = wire_priority r.priority;
  event_timestamp = r.event_timestamp;
  edge_received_at = r.edge_received_at;
  uploaded_at = r.uploaded_at;
  replay = r.replay;
  critical_code = r.critical_code;
  critical_value = r.critical_value;
}

unfoldable pub received : BatchRequest → IngestBatch
unfolding received_record
received q = record {
  gateway_id = q.gateway_id;
  queue_depth = pos q.queue_depth;
  oldest_pending_at = q.oldest_pending_at;
  last_event_timestamp = q.last_event_timestamp;
  last_successful_sync_at = q.last_successful_sync_at;
  last_failed_sync_reason = q.last_failed_sync_reason;
  records = map received_record q.records;
}

unfoldable pub rejection : RecordRejection → RecordError
rejection e = record { index = e.index; sequence = e.sequence; code = e.code; message = e.message }

unfoldable pub response : IngestResponse → BatchResponse
unfolding rejection
response a = record {
  accepted = a.accepted;
  rejected = map rejection a.rejected;
  request_id = a.request_id;
}
