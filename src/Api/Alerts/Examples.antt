-- ===== src/Api/Alerts/Examples.antt =====
-- Tests of the alert listing and its properties at concrete inputs.
use ambagrid.Common.{
  find_where, text_eq, trim_space, ◌≡◌, refl, some, [], ◌∷◌, ◌++◌, codes, is_empty, length, All,
  List, ok, err, arith, pos, select_where, join_with, split,
}
use ambagrid.Api.Pages.Cursor
use ambagrid.Api.Pages.RoundTrip
use ambagrid.Api.Alerts.Listing
use ambagrid.Api.Alerts.Coverage
use ambagrid.Api.Database.{no_faults, invalid_id, conflict}
use ambagrid.Api.Alerts.Resolve
use ambagrid.Api.Alerts.Once
use ambagrid.Api.Alerts.Samples

-- The first page of two of the open alerts, and its cursor.
first_page :
    Listing.list_alerts Samples.plain_codecs Samples.open_alerts 2 [] Samples.sample_alerts
    ≡ ok (record {
      items =
          Samples.alert_at 92 31 Listing.alert_open ∷ Samples.alert_at 60 8 Listing.alert_open ∷ [];
      limit = 2;
      next_cursor = codes "v1" ++ 31 ∷ 60 ∷ 31 ∷ 8 ∷ [];
    })
unfolding Listing.list_alerts is_empty select_where join_with
first_page = refl

-- Without a site, an asset and a status, the service lists the open alerts; a limit above the maximum of
-- the listing is refused.
listing_open :
    Listing.list Samples.plain_codecs Samples.usual_limits Samples.history_limits Samples.no_filter
      (pos 2)
      []
      Samples.sample_alerts
    ≡ Listing.list Samples.plain_codecs Samples.usual_limits Samples.history_limits
        Samples.open_alerts
        (pos 2)
        []
        Samples.sample_alerts
unfolding Listing.list
listing_open = refl

resolved_limit :
    Listing.list Samples.plain_codecs Samples.usual_limits Samples.history_limits
      (record Samples.no_filter { status = some Listing.alert_resolved })
      (pos 51)
      []
      []
    ≡ err Listing.bad_limit
unfolding Listing.list
resolved_limit = refl

short_cursor : Cursor.decode_time_id Samples.plain_codecs (codes "v1") ≡ err Cursor.field_count
unfolding Cursor.decode_time_id is_empty split
short_cursor = refl

plain-Readable : RoundTrip.Readable Samples.plain_codecs
plain-Readable = record { base64 = λ s. refl; cursor_full = λ s h. h }

plain-KeyIsReadable :
    (xs : List Listing.Alert) → All (Coverage.KeyIsReadable Samples.plain_codecs) xs
unfolding is_empty
plain-KeyIsReadable [] = tt
plain-KeyIsReadable (x ∷ xs) = (
  record { time_read = refl; id_read = refl; time_full = refl; id_full = refl },
  plain-KeyIsReadable xs,
)

three_open : length (select_where (Listing.matches Samples.open_alerts) Samples.sample_alerts) ≡ 3
unfolding select_where Listing.matches
three_open = refl

follow-select_where_example :
    Listing.follow Samples.plain_codecs Samples.open_alerts 1 Samples.sample_alerts 4 []
    ≡ ok (select_where (Listing.matches Samples.open_alerts) Samples.sample_alerts)
follow-select_where_example =
    Coverage.follow-select_where Samples.plain_codecs Samples.open_alerts 1 Samples.sample_alerts 4
      plain-Readable (ground arith)
      ((refl, (refl, (refl, tt))), ((refl, (refl, tt)), ((refl, tt), (tt, tt))))
      (plain-KeyIsReadable Samples.sample_alerts) (rw three_open (ground arith))

decode-encode_example :
    Cursor.decode Samples.plain_codecs
      (Cursor.encode Samples.plain_codecs ((31 ∷ 92 ∷ []) ∷ codes "u" ∷ []))
      2
    ≡ ok ((31 ∷ 92 ∷ []) ∷ codes "u" ∷ [])
unfolding is_empty
decode-encode_example =
    RoundTrip.decode-encode Samples.plain_codecs ((31 ∷ 92 ∷ []) ∷ codes "u" ∷ []) (λ s. refl)
      (refl, (refl, tt))

system_refused :
    Resolve.resolve
      (codes "alert.resolved")
      no_faults
      99
      (some 8)
      (record Samples.repaired { resolved_by = codes " system" })
      Samples.sample_db
    ≡ (Samples.sample_db, err invalid_id)
unfolding Resolve.resolve is_empty trim_space text_eq
system_refused = refl

abbrev repaired_command : Resolve.ResolveAlertCommand
repaired_command = record {
  alert_id = 8;
  resolution_note = codes "fuse replaced";
  resolved_by = codes "operator-1";
}

alert_repaired :
    (Resolve.resolve
      (codes "alert.resolved")
      no_faults
      99
      (some 8)
      Samples.repaired
      Samples.sample_db).1
    ≡ ok (Resolve.resolved_row 99 repaired_command (Samples.alert_at 60 8 Listing.alert_open))
unfolding Resolve.resolve is_empty trim_space text_eq find_where
alert_repaired = refl

again_accepted :
    Resolve.resolve_command (some 8) Samples.repaired_again
    ≡ ok (record { alert_id = 8; resolution_note = codes "done"; resolved_by = codes "operator-2" })
unfolding Resolve.resolve_command is_empty trim_space text_eq
again_accepted = refl

resolve-once_example :
    ((c : Resolve.ResolveAlertCommand) × (Resolve.resolve_command (some 8) Samples.repaired ≡ ok c)
      × Once.Resolved
          (codes "alert.resolved")
          99
          8
          c
          Samples.sample_db
          (Resolve.resolved_row 99 repaired_command (Samples.alert_at 60 8 Listing.alert_open))
          (Resolve.resolve
            (codes "alert.resolved")
            no_faults
            99
            (some 8)
            Samples.repaired
            Samples.sample_db).0)
    × (Resolve.resolve
          (codes "alert.resolved")
          no_faults
          100
          (some 8)
          Samples.repaired_again
          (Resolve.resolve
            (codes "alert.resolved")
            no_faults
            99
            (some 8)
            Samples.repaired
            Samples.sample_db).0
        ≡ (
          (Resolve.resolve
              (codes "alert.resolved")
              no_faults
              99
              (some 8)
              Samples.repaired
              Samples.sample_db).0,
          err conflict,
        ))
resolve-once_example =
    Once.resolve-once (codes "alert.resolved") no_faults 99 8 Samples.repaired Samples.sample_db 100
      Samples.repaired_again alert_repaired again_accepted
