-- ===== src/Ingest/Handler.antt =====
-- ingest/handler.go: `handleIngest`. Kafka, the clock, the HTTP body and JSON are outside: the
-- handler is given their answers. `accepted` and `rejected` are in the order of the batch.
use ambagrid.Common.{
  ℕ, ◌+◌, Bool, Option, none, some, List, [], ◌∷◌, ◌++◌, Text, codes, text_eq, if◌then◌else◌,
  Result, ok, err,
}
use ambagrid.Ingest.Types.{
  IngestRecord, IngestBatch, RecordRejection, IngestResponse, SiteHealthReport,
}
use ambagrid.Ingest.Validate.{validate_health, validate_record}

-- What the service has published: contacts, and records under the site that sent them.
pub record Published : Type 0 where
  pub contacts : List SiteHealthReport
  pub records : List (Text × IngestRecord)

-- The body of a request, as `io.ReadAll` and `json.Unmarshal` give it.
pub data Body : Type 0 where
  too_large unreadable malformed : Body
  decoded : IngestBatch → Body

-- What the handler meets: `contact` says whether `RecordContact` succeeds, `publishes i` whether
-- `Produce` does for the i-th record; `quote` is `strconv.Quote`, which `%q` applies.
pub record Broker : Type 0 where
  pub quote : Text → Text
  pub contact : Bool
  pub publishes : ℕ → Bool

pub data Reply : Type 0 where
  refused : ℕ → Text → Reply
  answered : ℕ → IngestResponse → Reply

-- The two lists of the answer.
pub record Verdicts : Type 0 where
  pub accepted : List ℕ
  pub rejected : List RecordRejection

unfoldable pub reject : ℕ → IngestRecord → Text → Text → Verdicts → Verdicts
reject i r code message v = record v {
  rejected =
      record { index = i; sequence = r.sequence; code = code; message = message } ∷ v.rejected;
}

abbrev pub site_mismatch_text : Broker → Text → Text → Text
site_mismatch_text k record_site site =
    codes "record site_id "
    ++ (k.quote record_site ++ (codes " does not match authenticated site " ++ k.quote site))

-- What becomes of one record: published, or refused with a code and a message.
pub data Verdict : Type 0 where
  publish : Verdict
  refuse : Text → Text → Verdict

abbrev pub verdict_of : Text → Broker → ℕ → IngestRecord → Option Text → Verdict
verdict_of site k i r (some problems) = refuse (codes "validation_failed") problems
verdict_of site k i r none =
    if text_eq r.site_id site
    then if k.publishes i
      then publish
      else refuse (codes "internal") (codes "failed to enqueue record")
    else refuse (codes "site_mismatch") (site_mismatch_text k r.site_id site)

unfoldable pub judge : Text → Broker → ℕ → IngestRecord → Verdict
unfolding validate_record
judge site k i r = verdict_of site k i r (validate_record r)

abbrev pub add_verdict : ℕ → IngestRecord → Verdict → Verdicts → Verdicts
add_verdict i r publish v = record v { accepted = r.sequence ∷ v.accepted }
add_verdict i r (refuse code message) v = reject i r code message v

abbrev pub add_published :
    Text → IngestRecord → Verdict → List (Text × IngestRecord) → List (Text × IngestRecord)
add_published site r publish rest = (site, r) ∷ rest
add_published site r (refuse code message) rest = rest

-- The loop over the records, from index `i`: the lists of the answer, and what is published.
unfoldable pub judge_records : Text → Broker → ℕ → List IngestRecord → Verdicts
unfolding judge reject
judge_records site k i [] = record { accepted = []; rejected = [] }
judge_records site k i (r ∷ rs) =
    add_verdict i r (judge site k i r) (judge_records site k (i + 1) rs)

unfoldable pub published_records :
    Text → Broker → ℕ → List IngestRecord → List (Text × IngestRecord)
unfolding judge
published_records site k i [] = []
published_records site k i (r ∷ rs) =
    add_published site r (judge site k i r) (published_records site k (i + 1) rs)

abbrev pub status_of : Verdicts → ℕ
status_of v = elim v.rejected [ [] ↦ 200 | e ∷ es ↦ elim v.accepted [ [] ↦ 422 | a ∷ as' ↦ 207 ] ]

unfoldable pub contact_report : Text → ℕ → IngestBatch → SiteHealthReport
contact_report site now b = record {
  site_id = site;
  gateway_id = b.gateway_id;
  contact_at = now;
  last_event_timestamp = b.last_event_timestamp;
  queue_depth = b.queue_depth;
  oldest_pending_at = b.oldest_pending_at;
  last_successful_sync_at = b.last_successful_sync_at;
  last_failed_sync_reason = b.last_failed_sync_reason;
}

-- After `validateHealth`: the contact first, then the records.
unfoldable pub handle_batch : Text → Broker → ℕ → Text → IngestBatch → Published → Published × Reply
unfolding judge_records published_records contact_report
handle_batch site k now id b p =
    let v = judge_records site k 0 b.records in
    if k.contact
    then (
      record p {
        contacts = p.contacts ++ contact_report site now b ∷ [];
        records = p.records ++ published_records site k 0 b.records;
      },
      answered (status_of v)
          (record { accepted = v.accepted; rejected = v.rejected; request_id = id }),
    )
    else (p, refused 500 (codes "internal"))

abbrev pub handle_decoded :
    Text → Broker → ℕ → Text → IngestBatch → Result Text (Unit {0}) → Published → Published × Reply
handle_decoded site k now id b (err problem) p = (p, refused 400 (codes "invalid_argument"))
handle_decoded site k now id b (ok _) p = handle_batch site k now id b p

abbrev pub handle_body : Text → Broker → ℕ → Text → Body → Published → Published × Reply
handle_body site k now id too_large p = (p, refused 413 (codes "payload_too_large"))
handle_body site k now id unreadable p = (p, refused 400 (codes "invalid_argument"))
handle_body site k now id malformed p = (p, refused 400 (codes "invalid_argument"))
handle_body site k now id (decoded b) p = handle_decoded site k now id b (validate_health b) p

-- `site` is what `Authenticate` returns, if it succeeds.
unfoldable pub handle_ingest :
    Option Text → Broker → ℕ → Text → Body → Published → Published × Reply
unfolding handle_batch validate_health
handle_ingest none k now id body p = (p, refused 401 (codes "unauthenticated"))
handle_ingest (some site) k now id body p = handle_body site k now id body p
