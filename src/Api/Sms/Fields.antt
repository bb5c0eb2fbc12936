-- ===== src/Api/Sms/Fields.antt =====
-- sms.go: the fields of an SMS text.
use ambagrid.Common.{
  ◌+◌, Bool, ◌||◌, not, none, some, List, [], ◌∷◌, map, Text, codes, ltb, text_eq, is_empty, length,
  Result, ok, err, ◌>>=◌, ◌>>◌, refuse_if, if◌then◌else◌, split, cut, exists_where,
}
use ambagrid.Edge.Fallback.Message.{gsm_septets}

-- The errors of sms.go, one for each text.
pub data SmsError : Type 0 where
  one_segment bad_envelope bad_field bad_version unknown_kind out_of_order : SmsError
  duplicate_field : Text → SmsError
  bad_sequence bad_timestamp bad_interval bad_identity bad_identity_or_code : SmsError
  unknown_field bad_temperature temperature_required temperature_stray : SmsError
  outage_asset bad_payload site_mismatch gateway_mismatch : SmsError

-- `values` and `keys` of the source in one list: `keys` holds each key of `values` once, in the
-- order of the text.
abbrev pub Fields : Type 0
Fields = List (Text × Text)

unfoldable pub has_key : Text → Fields → Bool
unfolding exists_where text_eq
has_key k fields = exists_where (λ f. text_eq f.0 k) fields

-- `values[k]`: the empty string where the key is missing.
unfoldable pub value_of : Text → Fields → Text
unfolding text_eq
value_of k [] = []
value_of k ((j, v) ∷ fields) = if text_eq j k then v else value_of k fields

unfoldable pub keys : Fields → List Text
keys = map (λ f. f.0)

-- One round of the loop over the parts: the field of a part, if its key is new.
unfoldable pub read_field : Fields → Text → Result SmsError (Text × Text)
unfolding has_key
read_field seen part = elim (cut b'=' part) [
  | none ↦ err bad_field
  | some (k, v) ↦ do
    refuse_if (is_empty k || is_empty v) bad_field
    refuse_if (has_key k seen) (duplicate_field k)
    ok (k, v)
]

-- The fields of the parts, behind those of the parts before.
unfoldable pub read_fields : Fields → List Text → Result SmsError Fields
unfolding read_field
read_fields seen [] = ok []
read_fields seen (part ∷ parts) = do
  f ← read_field seen part
  rest ← read_fields (f ∷ seen) parts
  ok (f ∷ rest)

unfoldable pub read_parts : List Text → Result SmsError Fields
unfolding read_fields value_of
read_parts [] = err bad_envelope
read_parts (head ∷ parts) = do
  refuse_if (ltb (1 + length parts) 7 || not (text_eq head (codes "AMBAGRID"))) bad_envelope
  fields ← read_fields [] parts
  refuse_if (not (text_eq (value_of (codes "v") fields) (codes "1"))) bad_version
  ok fields

-- `gsmSeptets` of sms.go is the function of the edge agent. The text comes from a decoded JSON
-- string, which is valid UTF-8.
unfoldable pub split_sms_message : Text → Result SmsError Fields
unfolding read_parts
split_sms_message message = do
  refuse_if (is_empty message || ltb 160 (gsm_septets message)) one_segment
  read_parts (split b'|' message)
