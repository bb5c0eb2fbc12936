-- ===== src/Ingest/TopicShape.antt =====
-- Topics that parse are those of one shape, and the collector's have it.
use ambagrid.Common.{
  ◌>>=◌, ◌≡◌, refl, sym, ◌∙◌, ap, ◌⊎◌, inl, inr, true, false, Option, none, some, List, [], ◌∷◌,
  ◌++◌, Text, codes, arith, text_eq, text_eq_iff, is_empty, ok, split, join_with, contains_byte,
  join_with-split, split-free, split-append,
}
use ambagrid.Edge.Domain.{Reading, topic_segment, asset_valid}
use ambagrid.Edge.Collector.Conditions.{Config}
use ambagrid.Edge.Collector.Collect.{telemetry_topic}
use ambagrid.Ingest.Topic.{
  Topic, TopicConstraints, TopicSegments, five_parts, split_topic_segments, check_segments,
  segments_or_error, violates, violation, topic_of, check_topic, parse_topic,
}

-- region/site/type/device/telemetry.
unfoldable pub topic_text : Topic → Text
topic_text t =
    t.region
    ++ (b'/' ∷ t.site_id
        ++ (b'/' ∷ t.device_type ++ (b'/' ∷ t.device_id ++ (b'/' ∷ codes "telemetry"))))

-- A constraint accepts a segment.
abbrev pub Accepts : Text → Text → Type 0
Accepts want got = (want ≡ []) ⊎ (got ≡ want)

five_parts-join :
    (ps : List Text) (g : TopicSegments)
    → five_parts ps ≡ some g
    → join_with b'/' ps
      ≡ g.region
        ++ (b'/' ∷ g.site_id ++ (b'/' ∷ g.device_type ++ (b'/' ∷ g.device_id ++ (b'/' ∷ g.suffix))))
unfolding join_with
five_parts-join ps g h = ground arith

check_topic-ok :
    (c : TopicConstraints) (g : TopicSegments) (t : Topic)
    → check_topic c g ≡ ok t
    → (t ≡ topic_of g)
      × (g.suffix ≡ codes "telemetry")
      × Accepts c.region t.region
      × Accepts c.site_id t.site_id
      × Accepts c.device_type t.device_type
      × Accepts c.device_id t.device_id
unfolding check_topic check_segments violation is_empty
check_topic-ok c g t h = ground (
  arith,
  text_eq_iff g.suffix (codes "telemetry"),
  text_eq_iff g.region c.region,
  text_eq_iff g.site_id c.site_id,
  text_eq_iff g.device_type c.device_type,
  text_eq_iff g.device_id c.device_id,
)

checked_segments :
    (c : TopicConstraints) (o : Option TopicSegments) (t : Topic)
    → (segments_or_error o >>= check_topic c) ≡ ok t
    → (g : TopicSegments) × (o ≡ some g) × (check_topic c g ≡ ok t)
checked_segments c none t h = absurd (ground arith)
checked_segments c (some g) t h = (g, refl, h)

-- A topic that parses is the text of its four segments and the suffix, and every segment that the
-- filter constrains has the constrained value.
pub parse_topic-shape :
    (topic : Text) (c : TopicConstraints) (t : Topic)
    → parse_topic topic c ≡ ok t
    → (topic ≡ topic_text t)
      × Accepts c.region t.region
      × Accepts c.site_id t.site_id
      × Accepts c.device_type t.device_type
      × Accepts c.device_id t.device_id
unfolding parse_topic split_topic_segments topic_text
parse_topic-shape topic c t h =
    let (g, parts, checked) = checked_segments c (split_topic_segments topic) t h in
    let (same, suffix, region, site, kind, device) = check_topic-ok c g t checked in
    let joined : topic ≡ topic_text (topic_of g) =
      sym (join_with-split b'/' topic)
      ∙ (five_parts-join (split b'/' topic) g parts
          ∙ ap
              (λ s.
                g.region
                ++ (b'/' ∷ g.site_id
                    ++ (b'/' ∷ g.device_type ++ (b'/' ∷ g.device_id ++ (b'/' ∷ s)))))
              suffix) in
    (joined ∙ ap topic_text (sym same), region, site, kind, device)

-- A segment that may stand in a topic: not empty, and without a slash.
abbrev pub Segment : Text → Type 0
Segment s = (is_empty s ≡ false) × (contains_byte b'/' s ≡ false)

split_topic-text :
    (t : Topic)
    → Segment t.region
    → Segment t.site_id
    → Segment t.device_type
    → Segment t.device_id
    → split b'/' (topic_text t)
      ≡ t.region ∷ t.site_id ∷ t.device_type ∷ t.device_id ∷ codes "telemetry" ∷ []
unfolding topic_text contains_byte
split_topic-text t region site kind device =
    split-append b'/' t.region _ region.1
    ∙ ap (λ ps. t.region ∷ ps)
        (split-append b'/' t.site_id _ site.1
          ∙ ap (λ ps. t.site_id ∷ ps)
              (split-append b'/' t.device_type _ kind.1
                ∙ ap (λ ps. t.device_type ∷ ps)
                    (split-append b'/' t.device_id _ device.1
                      ∙ ap (λ ps. t.device_id ∷ ps) (split-free b'/' (codes "telemetry") refl))))

accepted-violates : (want got : Text) → Accepts want got → violates want got ≡ false
unfolding is_empty
accepted-violates want got (inl e) = rw e refl
accepted-violates want got (inr e) = ground (arith, text_eq_iff got want)

topic_segment-Segment : (a : Text) → asset_valid a ≡ true → Segment (topic_segment a)
unfolding asset_valid topic_segment is_empty contains_byte
topic_segment-Segment a h = ground arith

-- The topic that the collector gives a reading parses at the service, under any filter that accepts
-- its segments, to the site and the device of the reading, if region, site and device are segments:
-- not empty, and without a slash.
pub telemetry_topic-parses :
    (cfg : Config) (r : Reading) (c : TopicConstraints)
    → Segment cfg.region
    → Segment cfg.site_id
    → Segment r.device_id
    → asset_valid r.asset_type ≡ true
    → Accepts c.region cfg.region
    → Accepts c.site_id cfg.site_id
    → Accepts c.device_type (topic_segment r.asset_type)
    → Accepts c.device_id r.device_id
    → parse_topic (telemetry_topic cfg r) c
      ≡ ok (record {
        region = cfg.region;
        site_id = cfg.site_id;
        device_type = topic_segment r.asset_type;
        device_id = r.device_id;
      })
unfolding parse_topic split_topic_segments telemetry_topic check_topic check_segments violation
    is_empty text_eq topic_text
telemetry_topic-parses cfg r c region site device valid in_region in_site in_kind in_device =
    let t : Topic = record {
      region = cfg.region;
      site_id = cfg.site_id;
      device_type = topic_segment r.asset_type;
      device_id = r.device_id;
    } in
    let kind = topic_segment-Segment r.asset_type valid in
    rw
      (
        split_topic-text t region site kind device,
        region.0,
        site.0,
        kind.0,
        device.0,
        accepted-violates c.region t.region in_region,
        accepted-violates c.site_id t.site_id in_site,
        accepted-violates c.device_type t.device_type in_kind,
        accepted-violates c.device_id t.device_id in_device,
      )
      refl
