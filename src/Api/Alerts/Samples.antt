-- ===== src/Api/Alerts/Samples.antt =====
-- Three alerts of one site, two of them opened at the same time, and texts of cursors that are read back.
use ambagrid.Common.{ℕ, none, some, List, [], ◌∷◌, Text, codes, Option}
use ambagrid.Api.Pages.Cursor.{Codecs}
use ambagrid.Api.Alerts.Listing
use ambagrid.Api.Alerts.Resolve

abbrev read_one : Text → Option ℕ
read_one (n ∷ []) = some n
read_one _ = none

-- A number is its own text; the separator and the backslash are numbers too.
abbrev pub plain_codecs : Codecs
plain_codecs = record {
  encode_base64 = λ s. s;
  decode_base64 = λ s. some s;
  format_time = λ n. n ∷ [];
  parse_time = read_one;
  format_id = λ n. n ∷ [];
  parse_id = read_one;
}

abbrev pub alert_at : ℕ → ℕ → Listing.AlertStatus → Listing.Alert
alert_at time id status = record {
  alert_id = id;
  asset_id = codes "inverter-1";
  site_id = codes "s1";
  kind = codes "edge.power_loss";
  severity = Listing.critical;
  status = status;
  reason = codes "power lost";
  opened_at = time;
  source_event_id = none;
  resolved_at = none;
  resolution_note = none;
  resolved_by = none;
}

abbrev pub sample_alerts : List Listing.Alert
sample_alerts =
    alert_at 92 31 Listing.alert_open
    ∷ alert_at 92 7 Listing.alert_resolved
    ∷ alert_at 60 8 Listing.alert_open
    ∷ alert_at 31 2 Listing.alert_open
    ∷ []

abbrev pub no_filter : Listing.AlertFilter
no_filter = record { site_id = none; asset_id = none; status = none; severity = none; kind = none }

abbrev pub open_alerts : Listing.AlertFilter
open_alerts = record no_filter { status = some Listing.alert_open }

abbrev pub usual_limits : Listing.PageLimits
usual_limits = record { default_size = 50; max_size = 200 }

abbrev pub history_limits : Listing.PageLimits
history_limits = record { default_size = 20; max_size = 50 }

abbrev pub sample_db : Resolve.AlertDb
sample_db = record { alerts = sample_alerts; history = []; next_resolution = 1; outbox = [] }

abbrev pub repaired : Resolve.ResolveAlertRequest
repaired = record { resolution_note = codes " fuse replaced "; resolved_by = codes "operator-1" }

abbrev pub repaired_again : Resolve.ResolveAlertRequest
repaired_again = record { resolution_note = codes "done"; resolved_by = codes "operator-2" }
