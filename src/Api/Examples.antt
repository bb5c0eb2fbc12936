-- ===== src/Api/Examples.antt =====
-- The API service's theorems at concrete inputs.
use ambagrid.Api.Fallback.Queries.{insert_fallback_event, find_fallback_event}
use ambagrid.Common.{
  Option, Text, parse_int, find_where, exists_where, parse_uint, join_with, cut, split, text_eq,
  decimal, is_empty, ◌≡◌, ◌≤◌, ◌*◌, refl, inr, ok, none, some, true, false, Text, codes, [], arith,
  second, ◌⊎◌,
}
use ambagrid.Edge.Fallback.Message
use ambagrid.Edge.Fallback.Heartbeat
use ambagrid.Edge.Store.Schema
use ambagrid.Api.Sms.Fields.{split_sms_message}
use ambagrid.Api.Sms.Parse.{
  critical_code_valid, valid_sms_token, read_interval, read_timestamp, read_sequence, parse_sms,
  parse_heartbeat, heartbeat, critical,
}
use ambagrid.Api.Sms.RoundTrip.{Delivered, receipt_of, parse_sms-format, parse_sms-format_heartbeat}
use ambagrid.Api.Database.{Db, no_faults}
use ambagrid.Api.Fallback.Details.{
  heartbeat_key, contact_at, expires_at, matches_asset, event_key, alert_details,
}
use ambagrid.Api.Fallback.Receive.{
  record_receipt, fallback_row, ensure_alert, check_asset, receive_sms, receive_body, receive_new,
}
use ambagrid.Api.Fallback.Outcomes.{Received, receive_sms-Received}
use ambagrid.Api.Fallback.Repeats.{Unmoved, Stored, receive_sms-repeats}
use ambagrid.Api.Fallback.Integrity.{Linked, receive_sms-Linked}
use ambagrid.Api.Fallback.Accepts.{Ready, is_new, receive_sms_accepts}
use ambagrid.Api.Heartbeats.Receive.{
  heartbeat_row, record_heartbeat_receipt, insert_heartbeat, heartbeat_new, find_heartbeat,
  heartbeat_body, receive_heartbeat,
}
use ambagrid.Api.Heartbeats.Recorded.{
  Recorded, receive_heartbeat-Recorded, receive_heartbeat-repeats,
}
use ambagrid.Api.Webhook.Handle.{verify_signature, handle_sms, taken_answer, status}
use ambagrid.Api.Webhook.Delivery.{Carries, handle_sms_delivers}
use ambagrid.Api.Webhook.Refusals.{Genuine, handle_sms-spares}
use ambagrid.Api.Samples.{
  tamper_event, tamper_text, sample_heartbeat, heartbeat_sms, envelope, senders, no_float,
  sample_service, sample_webhook, sample_tables, tamper_read, tamper_receipt, heartbeat_read,
  sample_pricing,
}

heartbeat_formatted : Heartbeat.format_heartbeat sample_heartbeat ≡ ok heartbeat_sms
unfolding Heartbeat.format_heartbeat Message.invalid_token is_empty Message.gsm_septets Message.join
    decimal Message.unix_text
heartbeat_formatted = refl

tamper_formatted : Message.format tamper_event ≡ ok tamper_text
unfolding Message.format text_eq is_empty decimal
tamper_formatted = refl

heartbeat-Delivered : Delivered (envelope (codes "msg-2") heartbeat_sms)
unfolding is_empty
heartbeat-Delivered = record {
  has_id = refl;
  has_sender = refl;
  has_recipient = refl;
  has_time = refl;
}

parse_sms-format_heartbeat_example :
    parse_sms no_float senders (some (envelope (codes "msg-2") heartbeat_sms))
    ≡ ok (
        heartbeat heartbeat_read
          (receipt_of (envelope (codes "msg-2") heartbeat_sms) (codes "gw-1")))
unfolding text_eq
parse_sms-format_heartbeat_example =
    parse_sms-format_heartbeat no_float senders sample_heartbeat
      (envelope (codes "msg-2") heartbeat_sms) heartbeat_formatted heartbeat-Delivered refl
      (omega arith) (omega arith)

tamper-Delivered : Delivered (envelope (codes "msg-1") tamper_text)
unfolding is_empty
tamper-Delivered = record {
  has_id = refl;
  has_sender = refl;
  has_recipient = refl;
  has_time = refl;
}

parse_sms-format_example :
    parse_sms no_float senders (some (envelope (codes "msg-1") tamper_text))
    ≡ ok (critical tamper_read tamper_receipt)
unfolding text_eq is_empty
parse_sms-format_example =
    parse_sms-format no_float senders tamper_event (envelope (codes "msg-1") tamper_text)
      (codes "gw-1") none tamper_formatted tamper-Delivered refl refl (omega arith) (omega arith)
      refl

-- An interval that wraps around 64 bits: 2^55 + 60 seconds pass for a minute.
wrapped_interval :
    parse_sms no_float senders (
      some (
        envelope (codes "msg-3") (
          codes
            "AMBAGRID|v=1|kind=HB|site=site-1|gw=gw-1|seq=3|int=36028797018964028|ts=1700000000")))
    ≡ ok (
        heartbeat
          (record heartbeat_read { interval = 60 * second })
          (receipt_of (envelope (codes "msg-3") []) (codes "gw-1")))
unfolding parse_sms is_empty split_sms_message Message.gsm_septets split cut parse_heartbeat
    join_with read_sequence parse_uint read_timestamp parse_int read_interval valid_sms_token
    Message.token_byte
wrapped_interval = refl

tables_Linked : Linked sample_tables
tables_Linked = record { numbered = tt; alerted = tt; noted = tt; distinct = tt; keyed = tt }

tamper_Ready : Ready tamper_read sample_tables
unfolding critical_code_valid text_eq exists_where find_where matches_asset is_empty
tamper_Ready = record {
  parsed = record { known_code = refl; heated = refl; outage = refl };
  numbered = refl;
  fits = refl;
  site_known = refl;
  asset_fits = inr (_, refl, refl);
  unknown = refl;
}

receive_sms_accepts_example :
    (kind : Text) × (reason : Text) × (alert_details tamper_read ≡ ok (kind, reason))
    × ((receive_sms sample_service no_faults tamper_read tamper_receipt sample_tables).1
        ≡ ok (is_new tamper_read kind sample_tables))
unfolding exists_where
receive_sms_accepts_example =
    receive_sms_accepts sample_service tamper_read tamper_receipt sample_tables tamper_Ready
      tables_Linked refl

first_created :
    (receive_sms sample_service no_faults tamper_read tamper_receipt sample_tables).1 ≡ ok true
unfolding receive_sms receive_body find_fallback_event find_where receive_new check_asset text_eq
    matches_asset is_empty alert_details ensure_alert exists_where insert_fallback_event
    fallback_row critical_code_valid record_receipt
first_created = refl

abbrev tables_after : Db
tables_after = (receive_sms sample_service no_faults tamper_read tamper_receipt sample_tables).0

receive_sms-Received_example :
    Received sample_service no_faults tamper_read tamper_receipt sample_tables true tables_after
receive_sms-Received_example =
    receive_sms-Received sample_service no_faults tamper_read tamper_receipt sample_tables true
      first_created

receive_sms-Linked_example : Linked tables_after
receive_sms-Linked_example =
    receive_sms-Linked sample_service no_faults tamper_read tamper_receipt sample_tables
      tables_Linked

receive_sms-repeats_example :
    ((receive_sms sample_service no_faults tamper_read tamper_receipt tables_after).1 ≡ ok false)
    × Unmoved tables_after
        (receive_sms sample_service no_faults tamper_read tamper_receipt tables_after).0
unfolding critical_code_valid text_eq find_where is_empty exists_where receive_sms receive_body
    ambagrid.Api.Fallback.Queries.find_fallback_event receive_new
    ambagrid.Api.Fallback.Receive.check_asset ambagrid.Api.Fallback.Details.matches_asset
    alert_details ambagrid.Api.Fallback.Receive.ensure_alert
    ambagrid.Api.Fallback.Queries.insert_fallback_event ambagrid.Api.Fallback.Receive.fallback_row
    ambagrid.Api.Fallback.Receive.record_receipt event_key ambagrid.Api.Fallback.Details.row_matches
    decimal
receive_sms-repeats_example =
    receive_sms-repeats sample_service no_faults tamper_read tamper_receipt tamper_receipt
      sample_tables true refl first_created (inr refl)

heartbeat_created :
    (receive_heartbeat sample_pricing no_faults heartbeat_read tamper_receipt sample_tables).1
    ≡ ok true
unfolding receive_heartbeat heartbeat_body find_heartbeat find_where heartbeat_new insert_heartbeat
    exists_where text_eq heartbeat_row expires_at contact_at record_heartbeat_receipt
heartbeat_created = refl

abbrev heartbeat_after : Db
heartbeat_after =
    (receive_heartbeat sample_pricing no_faults heartbeat_read tamper_receipt sample_tables).0

receive_heartbeat-Recorded_example :
    Recorded heartbeat_read tamper_receipt sample_tables true heartbeat_after
receive_heartbeat-Recorded_example =
    receive_heartbeat-Recorded sample_pricing no_faults heartbeat_read tamper_receipt sample_tables
      true heartbeat_created

receive_heartbeat-repeats_example :
    ((receive_heartbeat sample_pricing no_faults heartbeat_read tamper_receipt heartbeat_after).1
      ≡ ok false)
    × ((receive_heartbeat sample_pricing no_faults heartbeat_read tamper_receipt
          heartbeat_after).0.heartbeats
        ≡ heartbeat_after.heartbeats)
unfolding find_where receive_heartbeat heartbeat_body find_heartbeat heartbeat_new insert_heartbeat
    exists_where text_eq heartbeat_row expires_at contact_at record_heartbeat_receipt heartbeat_key
    decimal
receive_heartbeat-repeats_example =
    receive_heartbeat-repeats sample_pricing no_faults heartbeat_read tamper_receipt tamper_receipt
      sample_tables true (omega arith) heartbeat_created (inr refl)

tamper_carried :
    Carries sample_webhook tamper_event none
      (codes "gw-1")
      (envelope (codes "msg-1") tamper_text)
      (codes "41")
      tamper_text
unfolding is_empty verify_signature text_eq
tamper_carried = record {
  signed = refl;
  verified = refl;
  decoded = refl;
  formatted = tamper_formatted;
  delivered = tamper-Delivered;
  registered = refl;
  gateway_given = refl;
  fits = omega arith;
  timed = omega arith;
  read_back = refl;
}

handle_sms_delivers_example :
    let (db', answer) =
      handle_sms sample_webhook no_faults (codes "41") (some tamper_text) sample_tables in
    ((kind : Text) × (reason : Text) × (alert_details tamper_read ≡ ok (kind, reason))
      × (answer
          ≡ taken_answer
              (Schema.event_key (codes "site-1") 7)
              (is_new tamper_read kind sample_tables)))
    × Stored tamper_read db'
unfolding exists_where
handle_sms_delivers_example =
    handle_sms_delivers sample_webhook tamper_event none (codes "gw-1")
      (envelope (codes "msg-1") tamper_text) (codes "41") tamper_text sample_tables tamper_carried
      tamper_Ready tables_Linked refl

handle_sms-spares_example :
    let (db', answer) =
      handle_sms sample_webhook no_faults (codes "41") (some tamper_text) sample_tables in
    (((status answer ≡ 200) ⊎ (status answer ≡ 201))
      × ((b : Text) × (◌≡◌ {A = Option Text} (some tamper_text) (some b))
          × Genuine sample_webhook (codes "41") b))
    ⊎ ((400 ≤ status answer) × (db' ≡ sample_tables))
handle_sms-spares_example =
    handle_sms-spares sample_webhook no_faults (codes "41") (some tamper_text) sample_tables
