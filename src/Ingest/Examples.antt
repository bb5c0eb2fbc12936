-- ===== src/Ingest/Examples.antt =====
-- The ingestion service's theorems at concrete inputs.
use ambagrid.Common.{
  inl, inr, is_empty, text_eq, contains_byte, zero, suc, ℕ, pos, ◌+◌, ◌≡◌, refl, none, some, true,
  false, List, [], ◌∷◌, ◌++◌, map, codes, ok, All, length, Text, is_blank, trim_space,
}
use ambagrid.Edge.Collector.Conditions.{Config}
use ambagrid.Edge.Collector.Collect.{telemetry_topic}
use ambagrid.Ingest.Topic.{Topic, TopicConstraints, parse_topic}
use ambagrid.Ingest.TopicShape.{telemetry_topic-parses}
use ambagrid.Edge.Domain.{
  Reading, asset_valid, topic_segment, smart_meter, Record, QueueStats, healthy,
}
use ambagrid.Edge.Store.Queries.{stats, ready_rows, records_of}
use ambagrid.Edge.Uploader.Batch.{Uploader, request_of}
use ambagrid.Ingest.Types.{IngestResponse, IngestRecord, IngestBatch}
use ambagrid.Ingest.Validate.{validate_health}
use ambagrid.Ingest.Handler.{
  Published, Broker, decoded, answered, judge_records, published_records, handle_ingest, status_of,
}
use ambagrid.Ingest.Accounts.{Accounted, Entitled, handle_ingest-accounts, handle_ingest-refused}
use ambagrid.Ingest.Wire.{received, response}
use ambagrid.Ingest.EdgeUpload.{answer_of, Settled, service-settles}
use ambagrid.Ingest.Auth
use ambagrid.Ingest.Keys
use ambagrid.Edge.Samples.{sample_store, sample_files, sample_time, sample_db}
use ambagrid.Edge.Errors.{no_faults}
use ambagrid.Edge.Uploader.Client.{read_answer, replied}

abbrev site : Text
site = codes "site-1"

-- A broker that loses the second record of a batch.
abbrev broker : Broker
broker = record {
  quote = λ s. b'"' ∷ (s ++ b'"' ∷ []);
  contact = true;
  publishes = λ i. elim i [ zero ↦ true | suc n ↦ false ];
}

abbrev nothing_published : Published
nothing_published = record { contacts = []; records = [] }

abbrev meter_record : ℕ → IngestRecord
meter_record n = record {
  sequence = n;
  site_id = codes "site-1";
  gateway_id = codes "gw-1";
  device_id = codes "m1";
  asset_type = codes "smart_meter";
  mqtt_topic = codes "lagos/site-1/smartmeter/m1/telemetry";
  payload = codes "{}";
  priority = pos 0;
  event_timestamp = sample_time;
  edge_received_at = sample_time;
  uploaded_at = sample_time;
  replay = false;
  critical_code = [];
  critical_value = none;
}

-- A good record, one that the broker loses, and one without a sequence.
abbrev batch : IngestBatch
batch = record {
  gateway_id = codes "gw-1";
  queue_depth = pos 0;
  oldest_pending_at = none;
  last_event_timestamp = none;
  last_successful_sync_at = none;
  last_failed_sync_reason = [];
  records = meter_record 1 ∷ meter_record 2 ∷ meter_record 0 ∷ [];
}

handle_ingest-accounts_example :
    let v = judge_records site broker 0 batch.records in
    let sent = published_records site broker 0 batch.records in
    let outcome =
      handle_ingest
        (some site)
        broker
        sample_time
        (codes "r-1")
        (decoded batch)
        nothing_published in
    (outcome.1
      ≡ answered
          (status_of v)
          (record { accepted = v.accepted; rejected = v.rejected; request_id = codes "r-1" }))
    × (outcome.0.records ≡ sent)
    × All (Accounted v) batch.records
    × (length v.accepted + length v.rejected ≡ 3)
    × (map (λ q. q.1.sequence) sent ≡ v.accepted)
    × All (Entitled site) sent
unfolding validate_health is_blank
handle_ingest-accounts_example =
    handle_ingest-accounts site broker sample_time (codes "r-1") batch nothing_published refl refl

handle_ingest-refused_example :
    (handle_ingest none broker sample_time (codes "r-1") (decoded batch) nothing_published).0
    ≡ nothing_published
unfolding handle_ingest
handle_ingest-refused_example =
    handle_ingest-refused none broker sample_time (codes "r-1") (decoded batch) nothing_published
      401 (codes "unauthenticated") refl

abbrev uploader : Uploader
uploader = record {
  cfg = record {
    gateway_id = codes "gw-1";
    batch_size = 50;
    batch_max_bytes = 1_048_576;
    poll_interval = 1;
    base_delay = 1;
    max_delay = 8;
    max_retries = 20;
  };
  tracked = true;
}

abbrev sample_stats : QueueStats
sample_stats = record {
  depth = 3;
  payload_bytes = 6;
  capacity_bytes = 681_574;
  normal_admission_bytes = 613_416;
  disk_bytes = 8_192;
  filesystem_free_bytes = 4_096_000_000;
  oldest_age = 0;
  oldest_pending_at = some sample_time;
  last_event_timestamp = some sample_time;
  last_successful_sync_at = none;
  last_failed_sync_reason = [];
  abandoned_total = 0;
  state = healthy;
}

abbrev sample_records : List Record
sample_records = records_of (ready_rows sample_time 50 1_048_576 sample_db)

sample_reported : stats sample_store sample_files no_faults sample_time sample_db ≡ ok sample_stats
unfolding stats sample_db
sample_reported = refl

abbrev sample_answer : IngestResponse
sample_answer =
    answer_of site broker (codes "r-1")
      (received (request_of uploader sample_time sample_records sample_stats)).records

service-settles_example :
    ((status : ℕ) × ((handle_ingest
          (some site)
          broker
          sample_time
          (codes "r-1")
          (decoded (received (request_of uploader sample_time sample_records sample_stats)))
          nothing_published).1
        ≡ answered status sample_answer)
      × (read_answer (λ t. ok (response sample_answer)) (replied status (codes "{}"))
          ≡ ok (response sample_answer)))
    × All (Settled (response sample_answer)) sample_records
unfolding is_blank
service-settles_example =
    service-settles sample_store sample_files no_faults sample_time sample_db sample_stats uploader
      sample_time sample_records site broker sample_time (codes "r-1") nothing_published
      (codes "{}") (λ t. ok (response sample_answer)) sample_reported refl refl refl

abbrev any_site : TopicConstraints
any_site = record {
  region = codes "lagos";
  site_id = [];
  device_type = codes "smartmeter";
  device_id = [];
}

abbrev meter_topic : Topic
meter_topic = record {
  region = codes "lagos";
  site_id = codes "site-1";
  device_type = codes "smartmeter";
  device_id = codes "m1";
}

abbrev collector : Config
collector = record {
  site_id = codes "site-1";
  region = codes "lagos";
  interval = 60;
  battery_overheat_c = 0x404E000000000000;
  fallback_debounce = 300;
}

abbrev reading : Reading
reading = record {
  device_id = codes "m1";
  asset_type = smart_meter;
  taken_at = sample_time;
  payload = codes "{}";
  metrics = none;
  internal_temperature = 0;
  relay_closed = true;
  battery_soc_pct = 0;
  solar_irradiance = 0;
  inverter_failed = false;
  inverter_hard_fault = false;
  tamper_detected = false;
  site_outage = none;
}

telemetry_topic-parses_example :
    parse_topic (telemetry_topic collector reading) any_site
    ≡ ok (record {
      region = codes "lagos";
      site_id = codes "site-1";
      device_type = topic_segment smart_meter;
      device_id = codes "m1";
    })
unfolding topic_segment asset_valid text_eq is_empty contains_byte
telemetry_topic-parses_example =
    telemetry_topic-parses collector reading any_site (refl, refl) (refl, refl) (refl, refl) refl
      (inr refl) (inl refl) (inr refl) (inl refl)

-- A second entry with the same key takes its place.
abbrev key_entries : List Auth.ApiKeyEntry
key_entries =
    record { key = codes "k1"; site_id = codes "site-0" }
    ∷ record { key = codes "k1"; site_id = codes "site-1" }
    ∷ record { key = codes "k2"; site_id = codes "site-2" }
    ∷ []

lower_case_scheme :
    Auth.authenticate (Auth.new_api_key_auth key_entries) (codes "bearer  k2 ")
    ≡ some (codes "site-2")
unfolding Auth.authenticate is_empty trim_space Auth.put_keys text_eq
lower_case_scheme = refl

other_scheme : Auth.authenticate (Auth.new_api_key_auth key_entries) (codes "Basic k2") ≡ none
unfolding Auth.authenticate is_empty
other_scheme = refl

trimmed_key : trim_space (codes "k1") ≡ codes "k1"
unfolding trim_space
trimmed_key = refl

authenticate-new_api_key_auth_example :
    Auth.authenticate (Auth.new_api_key_auth key_entries) (codes "Bearer k1")
    ≡ some (codes "site-1")
unfolding is_empty text_eq
authenticate-new_api_key_auth_example =
    Keys.authenticate-new_api_key_auth (codes "k1") (codes "site-1")
      (record { key = codes "k1"; site_id = codes "site-0" } ∷ [])
      (record { key = codes "k2"; site_id = codes "site-2" } ∷ []) trimmed_key refl (refl, tt)
