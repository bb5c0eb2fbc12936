-- ===== src/Ingest/Accounts.antt =====
-- What the answer of the ingestion service says of the records of a batch.
use ambagrid.Common.{
  All-map, ◌++◌, ℕ, ◌+◌, ◌≡◌, refl, ◌⊎◌, inl, inr, true, Option, none, some, List, [], ◌∷◌, map,
  Text, text_eq_iff, arith, All, AnyOf, length, ok, ap,
}
use ambagrid.Ingest.Types.{IngestRecord, IngestBatch}
use ambagrid.Ingest.Validate.{validate_health, validate_record}
use ambagrid.Ingest.Handler.{
  add_verdict, add_published, Published, Body, decoded, Broker, refused, answered, Verdicts,
  Verdict, publish, refuse, reject, judge, judge_records, published_records, handle_batch,
  handle_ingest, status_of, verdict_of,
}

-- The answer tells what became of a record.
abbrev pub Accounted : Verdicts → IngestRecord → Type 0
Accounted v r =
    AnyOf (λ n. n ≡ r.sequence) v.accepted ⊎ AnyOf (λ e. e.sequence ≡ r.sequence) v.rejected

-- A published record is valid and belongs to the site that sent it.
abbrev pub Entitled : Text → Text × IngestRecord → Type 0
Entitled site q = (q.0 ≡ site) × (q.1.site_id ≡ site) × (validate_record q.1 ≡ none)

-- What the loop guarantees for the records from index `i`.
record Judged (site : Text) (k : Broker) (i : ℕ) (rs : List IngestRecord) : Type 0 where
  accounted : All (Accounted (judge_records site k i rs)) rs
  each_once :
      length (judge_records site k i rs).accepted + length (judge_records site k i rs).rejected
      ≡ length rs
  published :
      map (λ q. q.1.sequence) (published_records site k i rs) ≡ (judge_records site k i rs).accepted
  entitled : All (Entitled site) (published_records site k i rs)

verdict_of-Entitled :
    (site : Text) (k : Broker) (i : ℕ) (r : IngestRecord) (problems : Option Text)
    → verdict_of site k i r problems ≡ publish
    → (r.site_id ≡ site) × (problems ≡ none)
verdict_of-Entitled site k i r none h = ground (arith, text_eq_iff r.site_id site)
verdict_of-Entitled site k i r (some problems) h = ground arith

judge-Entitled :
    (site : Text) (k : Broker) (i : ℕ) (r : IngestRecord)
    → judge site k i r ≡ publish
    → Entitled site (site, r)
unfolding judge
judge-Entitled site k i r h =
    let (same, valid) = verdict_of-Entitled site k i r (validate_record r) h in (refl, same, valid)

-- One more verdict before the others.
module _ (i : ℕ) (r : IngestRecord) (vs : Verdicts) where
  added-Accounted : (v : Verdict) → Accounted (add_verdict i r v vs) r
  unfolding reject
  added-Accounted publish = inl (inl refl)
  added-Accounted (refuse c m) = inr (inl refl)

  kept-Accounted :
      (v : Verdict) (q : IngestRecord) → Accounted vs q → Accounted (add_verdict i r v vs) q
  unfolding reject
  kept-Accounted publish q (inl h) = inl (inr h)
  kept-Accounted publish q (inr h) = inr h
  kept-Accounted (refuse c m) q (inl h) = inl h
  kept-Accounted (refuse c m) q (inr h) = inr (inr h)

  added-length :
      (v : Verdict)
      → let w = add_verdict i r v vs in
        length w.accepted + length w.rejected ≡ length vs.accepted + length vs.rejected + 1
  unfolding reject
  added-length publish = omega arith
  added-length (refuse c m) = omega arith

  added-published :
      (site : Text) (v : Verdict) (qs : List (Text × IngestRecord))
      → map (λ q. q.1.sequence) qs ≡ vs.accepted
      → map (λ q. q.1.sequence) (add_published site r v qs) ≡ (add_verdict i r v vs).accepted
  unfolding reject
  added-published site publish qs h = ap (λ ns. r.sequence ∷ ns) h
  added-published site (refuse c m) qs h = h

added-Entitled :
    (site : Text) (r : IngestRecord) (v : Verdict) (qs : List (Text × IngestRecord))
    → (v ≡ publish → Entitled site (site, r))
    → All (Entitled site) qs
    → All (Entitled site) (add_published site r v qs)
added-Entitled site r publish qs h hs = (h refl, hs)
added-Entitled site r (refuse c m) qs h hs = hs

judge_records-Judged :
    (site : Text) (k : Broker) (i : ℕ) (rs : List IngestRecord) → Judged site k i rs
unfolding judge_records published_records
judge_records-Judged site k i [] = record {
  accounted = tt;
  each_once = refl;
  published = refl;
  entitled = tt;
}
judge_records-Judged site k i (r ∷ rs) =
    let rest = judge_records-Judged site k (i + 1) rs in
    let vs = judge_records site k (i + 1) rs in
    let v = judge site k i r in
    record {
      accounted = (
        added-Accounted i r vs v,
        All-map (Accounted vs) _ rs (kept-Accounted i r vs v) rest.accounted,
      );
      each_once = omega (arith, added-length i r vs v, rest.each_once);
      published = added-published i r vs site v _ rest.published;
      entitled = added-Entitled site r v _ (judge-Entitled site k i r) rest.entitled;
    }

pub judge_records-Accounted :
    (site : Text) (k : Broker) (i : ℕ) (rs : List IngestRecord)
    → All (Accounted (judge_records site k i rs)) rs
judge_records-Accounted site k i rs = (judge_records-Judged site k i rs).accounted

-- A batch of an authenticated site that is well-formed and whose contact is recorded is answered.
-- The answer accounts for every record, each once: the accepted sequences are those of the records
-- that were published, in order, and a published record is valid and belongs to the site.
pub handle_ingest-accounts :
    (site : Text) (k : Broker) (now : ℕ) (id : Text) (b : IngestBatch) (p : Published)
    → k.contact ≡ true
    → validate_health b ≡ ok tt
    → let v = judge_records site k 0 b.records in
      let sent = published_records site k 0 b.records in
      let outcome = handle_ingest (some site) k now id (decoded b) p in
      (outcome.1
        ≡ answered
            (status_of v)
            (record { accepted = v.accepted; rejected = v.rejected; request_id = id }))
      × (outcome.0.records ≡ p.records ++ sent)
      × All (Accounted v) b.records
      × (length v.accepted + length v.rejected ≡ length b.records)
      × (map (λ q. q.1.sequence) sent ≡ v.accepted)
      × All (Entitled site) sent
unfolding handle_ingest handle_batch
handle_ingest-accounts site k now id b p contact valid =
    let j = judge_records-Judged site k 0 b.records in
    rw (valid, contact) (refl, refl, j.accounted, j.each_once, j.published, j.entitled)

-- A request that is refused (without a key of a site, with a body that is too large, unreadable or
-- malformed, with health that makes no sense, or whose contact cannot be recorded) publishes
-- nothing.
pub handle_ingest-refused :
    (site : Option Text) (k : Broker) (now : ℕ) (id : Text) (body : Body) (p : Published)
    (status : ℕ) (code : Text)
    → (handle_ingest site k now id body p).1 ≡ refused status code
    → (handle_ingest site k now id body p).0 ≡ p
unfolding handle_ingest handle_batch
handle_ingest-refused site k now id body p status code h = ground arith
