-- ===== src/Api/Alerts/Listing.antt =====
-- services/alerts.go, services/limits.go, `ListAlerts` of repository/postgres/alerts.go, and `Build` of
-- page/page.go.
use ambagrid.Common.{
  ℕ, zero, suc, Bool, true, false, ◌&&◌, ◌||◌, Option, none, some, List, [], ◌∷◌, ◌++◌, Text, ltb,
  leb, ◌==◌, if◌then◌else◌, text_eq, length, take, Result, ok, err, ◌>>=◌, select_where, ℤ, pos,
  negsuc,
}
use ambagrid.Api.Pages.Cursor.{Codecs, CursorError, decode_time_id, encode_time_id}

pub data Severity : Type 0 where
  info warning critical : Severity

pub data AlertStatus : Type 0 where
  alert_open alert_resolved : AlertStatus

-- `alert_id` is the number of a UUID.
pub record Alert : Type 0 where
  pub alert_id : ℕ
  pub asset_id : Text
  pub site_id : Text
  pub kind : Text
  pub severity : Severity
  pub status : AlertStatus
  pub reason : Text
  pub opened_at : ℕ
  pub source_event_id : Option Text
  pub resolved_at : Option ℕ
  pub resolution_note : Option Text
  pub resolved_by : Option Text

-- `none` is no filter.
pub record AlertFilter : Type 0 where
  pub site_id : Option Text
  pub asset_id : Option Text
  pub status : Option AlertStatus
  pub severity : Option Severity
  pub kind : Option Text

abbrev same_status : AlertStatus → AlertStatus → Bool
same_status alert_open alert_open = true
same_status alert_resolved alert_resolved = true
same_status _ _ = false

abbrev same_severity : Severity → Severity → Bool
same_severity info info = true
same_severity warning warning = true
same_severity critical critical = true
same_severity _ _ = false

abbrev allows {ℓ} : {A : Type ℓ} → (A → A → Bool) → Option A → A → Bool
allows eq none x = true
allows eq (some y) x = eq x y

-- The conditions of `buildListAlertsQuery` on a row.
unfoldable pub matches : AlertFilter → Alert → Bool
matches f a =
    allows same_status f.status a.status
    && (allows text_eq f.site_id a.site_id
        && (allows text_eq f.asset_id a.asset_id
            && (allows same_severity f.severity a.severity && allows text_eq f.kind a.kind)))

-- `(opened_at, alert_id) < (time, id)`.
abbrev pub is_after : ℕ → ℕ → Alert → Bool
is_after time id a = ltb a.opened_at time || (a.opened_at == time && ltb a.alert_id id)

abbrev pub after_cursor : Option (ℕ × ℕ) → Alert → Bool
after_cursor none a = true
after_cursor (some (time, id)) a = is_after time id a

pub record Page : Type 0 where
  pub items : List Alert
  pub limit : ℕ
  pub next_cursor : Text

abbrev pub last_key : (Alert → Text) → List Alert → Text
last_key key [] = []
last_key key (x ∷ []) = key x
last_key key (x ∷ y ∷ xs) = last_key key (y ∷ xs)

-- `Build`, of a query result that asks for one row more than the limit; the limit is not 0.
unfoldable pub build : (Alert → Text) → ℕ → List Alert → Page
build key limit rows =
    if leb (length rows) limit
    then record { items = rows; limit = limit; next_cursor = [] }
    else record {
      items = take limit rows;
      limit = limit;
      next_cursor = last_key key (take limit rows);
    }

abbrev pub key_of : Codecs → Alert → Text
key_of k a = encode_time_id k a.opened_at a.alert_id

-- `ListAlerts`. The rows stand in the order of the query, newest first.
unfoldable pub list_alerts : Codecs → AlertFilter → ℕ → Text → List Alert → Result CursorError Page
unfolding decode_time_id encode_time_id matches build
list_alerts k f limit cursor rows = do
  c ← decode_time_id k cursor
  ok (
      build (key_of k) limit
        (take (suc limit) (select_where (λ a. matches f a && after_cursor c a) rows)))

pub record PageLimits : Type 0 where
  pub default_size : ℕ
  pub max_size : ℕ

pub data ListError : Type 0 where
  bad_limit : ListError
  bad_cursor : CursorError → ListError

-- `PageLimits.Resolve`.
unfoldable pub resolve_limit : PageLimits → ℤ → Result ListError ℕ
resolve_limit l (negsuc n) = err bad_limit
resolve_limit l (pos n) =
    if n == 0 then ok l.default_size else if ltb l.max_size n then err bad_limit else ok n

abbrev pub is_open : AlertStatus → Bool
is_open alert_open = true
is_open alert_resolved = false

-- Without a site and an asset, only open alerts are listed unless the filter names another status; that
-- listing has its own limits.
abbrev scoped :
    PageLimits → PageLimits → AlertFilter → Option AlertStatus → AlertFilter × PageLimits
scoped limits history f none = (record f { status = some alert_open }, limits)
scoped limits history f (some s) = (f, if is_open s then limits else history)

abbrev unscoped : Option Text → Option Text → Bool
unscoped none none = true
unscoped _ _ = false

unfoldable pub listing_scope : PageLimits → PageLimits → AlertFilter → AlertFilter × PageLimits
listing_scope limits history f =
    if unscoped f.site_id f.asset_id then scoped limits history f f.status else (f, limits)

abbrev listed : Result CursorError Page → Result ListError Page
listed (err e) = err (bad_cursor e)
listed (ok p) = ok p

-- `AlertService.List`.
unfoldable pub list :
    Codecs → PageLimits → PageLimits → AlertFilter → ℤ → Text → List Alert → Result ListError Page
unfolding listing_scope resolve_limit list_alerts
list k limits history f requested cursor rows =
    let (f', l) = listing_scope limits history f in
    resolve_limit l requested >>= λ limit. listed (list_alerts k f' limit cursor rows)

-- A client that follows the cursors, for at most so many pages.
unfoldable pub follow :
    Codecs → AlertFilter → ℕ → List Alert → ℕ → Text → Result CursorError (List Alert)
unfolding list_alerts
follow k f limit rows zero cursor = ok []
follow k f limit rows (suc n) cursor = list_alerts k f limit cursor rows >>= λ p.
    elim p.next_cursor [
      | [] ↦ ok p.items
      | b ∷ next ↦ follow k f limit rows n (b ∷ next) >>= λ rest. ok (p.items ++ rest)
    ]
