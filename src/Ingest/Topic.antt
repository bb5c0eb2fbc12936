-- ===== src/Ingest/Topic.antt =====
-- telemetry/telemetry.go: the MQTT topics of telemetry, and the filter that they are held against.
use ambagrid.Common.{
  Bool, not, ◌&&◌, ◌||◌, List, [], ◌∷◌, Text, codes, if◌then◌else◌, text_eq, is_empty, Result, ok,
  err, ◌>>=◌, ◌>>◌, refuse_if, split, Option, none, some,
}

pub record Topic : Type 0 where
  pub region : Text
  pub site_id : Text
  pub device_type : Text
  pub device_id : Text

-- An empty segment accepts any value.
pub record TopicConstraints : Type 0 where
  pub region : Text
  pub site_id : Text
  pub device_type : Text
  pub device_id : Text

pub record TopicSegments : Type 0 where
  pub region : Text
  pub site_id : Text
  pub device_type : Text
  pub device_id : Text
  pub suffix : Text

pub data TopicError : Type 0 where
  not_five_segments empty_segment not_telemetry constrained : TopicError

-- Exactly five parts.
abbrev pub five_parts : List Text → Option TopicSegments
five_parts (region ∷ site ∷ kind ∷ device ∷ suffix ∷ []) = some (record {
  region = region;
  site_id = site;
  device_type = kind;
  device_id = device;
  suffix = suffix;
})
five_parts _ = none

unfoldable pub split_topic_segments : Text → Option TopicSegments
unfolding split
split_topic_segments s = five_parts (split b'/' s)

-- `validateFilterSegments`, and the same tests in `ParseTopic`.
unfoldable pub check_segments : TopicSegments → Result TopicError (Unit {0})
check_segments g = do
  refuse_if
      (is_empty g.region
        || (is_empty g.site_id
            || (is_empty g.device_type || (is_empty g.device_id || is_empty g.suffix))))
      empty_segment
  refuse_if (not (text_eq g.suffix (codes "telemetry"))) not_telemetry

abbrev pub non_wildcard : Text → Text
non_wildcard s = if text_eq s (codes "+") || text_eq s (codes "#") then [] else s

abbrev pub segments_or_error : Option TopicSegments → Result TopicError TopicSegments
segments_or_error none = err not_five_segments
segments_or_error (some g) = ok g

unfoldable pub derive_constraints : Text → Result TopicError TopicConstraints
unfolding split_topic_segments check_segments
derive_constraints filter = do
  g ← segments_or_error (split_topic_segments filter)
  check_segments g
  ok (record {
    region = non_wildcard g.region;
    site_id = non_wildcard g.site_id;
    device_type = non_wildcard g.device_type;
    device_id = non_wildcard g.device_id;
  })

abbrev pub violates : Text → Text → Bool
violates want got = not (is_empty want) && not (text_eq got want)

-- `violation`; the error names the first segment that does not match.
unfoldable pub violation : TopicConstraints → TopicSegments → Bool
violation c g =
    violates c.region g.region
    || (violates c.site_id g.site_id
        || (violates c.device_type g.device_type || violates c.device_id g.device_id))

abbrev pub topic_of : TopicSegments → Topic
topic_of g = record {
  region = g.region;
  site_id = g.site_id;
  device_type = g.device_type;
  device_id = g.device_id;
}

unfoldable pub check_topic : TopicConstraints → TopicSegments → Result TopicError Topic
unfolding check_segments violation
check_topic c g = do check_segments g; refuse_if (violation c g) constrained; ok (topic_of g)

unfoldable pub parse_topic : Text → TopicConstraints → Result TopicError Topic
unfolding split_topic_segments check_topic
parse_topic topic c = segments_or_error (split_topic_segments topic) >>= check_topic c
