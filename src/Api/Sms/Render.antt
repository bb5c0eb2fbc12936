-- ===== src/Api/Sms/Render.antt =====
-- A text of fields is read back: sms.go against the texts that the gateways join.
use ambagrid.Common.{
  ℕ, ◌≤◌, ◌≡◌, refl, true, false, [], ◌∷◌, ◌++◌, map, arith, Text, codes, ltb, is_empty, length,
  All, ok, join_with, contains_byte, split-join_with, cut-append, text_eq_refl, IsDigit,
}
use ambagrid.Edge.Fallback.Message.{gsm_septets, all_token_bytes, token_byte, invalid_token}
use ambagrid.Api.Sms.Fields.{
  Fields, has_key, value_of, read_field, read_fields, read_parts, split_sms_message,
}

abbrev pub render : Text × Text → Text
render (k, v) = k ++ (b'=' ∷ v)

abbrev pub rendered : Fields → Text
rendered fields = join_with b'|' (codes "AMBAGRID" ∷ map render fields)

-- What a field needs to come back: neither part is empty, nothing holds a bar, no key a "=".
pub record Printable (f : Text × Text) : Type 0 where
  pub key_given : is_empty f.0 ≡ false
  pub value_given : is_empty f.1 ≡ false
  pub key_plain : contains_byte b'=' f.0 ≡ false
  pub key_free : contains_byte b'|' f.0 ≡ false
  pub value_free : contains_byte b'|' f.1 ≡ false

-- No key comes twice, nor is one of `seen`.
abbrev pub Fresh : Fields → Fields → Type 0
Fresh seen [] = Unit
Fresh seen (f ∷ fs) = (has_key f.0 seen ≡ false) × Fresh (f ∷ seen) fs

pub contains_byte-append :
    (c : ℕ) (s t : Text)
    → contains_byte c s ≡ false
    → contains_byte c t ≡ false
    → contains_byte c (s ++ t) ≡ false
unfolding contains_byte
contains_byte-append c [] t h k = k
contains_byte-append c (x ∷ s) t h k = ground (arith, contains_byte-append c s t)

render-free : (f : Text × Text) → Printable f → contains_byte b'|' (render f) ≡ false
unfolding contains_byte
render-free (k, v) p =
    contains_byte-append b'|' k (b'=' ∷ v) p.key_free (ground (arith, p.value_free))

map-render-free :
    (fs : Fields) → All Printable fs → All (λ q. contains_byte b'|' q ≡ false) (map render fs)
map-render-free [] h = tt
map-render-free (f ∷ fs) h = (render-free f h.0, map-render-free fs h.1)

length-map-render : (fs : Fields) → length (map render fs) ≡ length fs
length-map-render [] = refl
length-map-render (f ∷ fs) = omega (arith, length-map-render fs)

read_field-render :
    (seen : Fields) (f : Text × Text)
    → Printable f
    → has_key f.0 seen ≡ false
    → read_field seen (render f) ≡ ok f
unfolding read_field
read_field-render seen (k, v) p h =
    ground (arith, cut-append b'=' k v p.key_plain, p.key_given, p.value_given)

read_fields-render :
    (seen fs : Fields) → All Printable fs → Fresh seen fs → read_fields seen (map render fs) ≡ ok fs
unfolding read_fields
read_fields-render seen [] p h = refl
read_fields-render seen (f ∷ fs) p h =
    ground (arith, read_field-render seen f p.0 h.0, read_fields-render (f ∷ seen) fs p.1 h.1)

read_parts-render :
    (fs : Fields)
    → All Printable fs
    → Fresh [] fs
    → 6 ≤ length fs
    → value_of (codes "v") fs ≡ codes "1"
    → read_parts (codes "AMBAGRID" ∷ map render fs) ≡ ok fs
unfolding read_parts
read_parts-render fs p fresh six version = ground (
  arith,
  length-map-render fs,
  read_fields-render [] fs p fresh,
  text_eq_refl (codes "AMBAGRID"),
  text_eq_refl (codes "1"),
)

-- A text of at least six such fields, "v=1" among them, in one segment, is read back as they are.
pub split_sms_message-rendered :
    (fs : Fields)
    → All Printable fs
    → Fresh [] fs
    → 6 ≤ length fs
    → value_of (codes "v") fs ≡ codes "1"
    → is_empty (rendered fs) ≡ false
    → ltb 160 (gsm_septets (rendered fs)) ≡ false
    → split_sms_message (rendered fs) ≡ ok fs
unfolding split_sms_message
split_sms_message-rendered fs p fresh six version some_text fits =
    let parts =
      split-join_with b'|' (codes "AMBAGRID") (map render fs)
        (unfold contains_byte in refl, map-render-free fs p) in
    rw (some_text, fits, parts) (read_parts-render fs p fresh six version)

all_token_bytes-free :
    (c : ℕ) (s : Text) → token_byte c ≡ false → all_token_bytes s ≡ true → contains_byte c s ≡ false
unfolding all_token_bytes contains_byte
all_token_bytes-free c [] h k = refl
all_token_bytes-free c (x ∷ s) h k = ground (arith, all_token_bytes-free c s h)

-- An identifier is printable.
pub invalid_token-free : (s : Text) → invalid_token s ≡ false → contains_byte b'|' s ≡ false
unfolding invalid_token token_byte
invalid_token-free s h = ground (arith, all_token_bytes-free b'|' s (refl))

pub digits-free : (s : Text) → All IsDigit s → contains_byte b'|' s ≡ false
unfolding contains_byte
digits-free [] h = refl
digits-free (c ∷ s) h = ground (arith, digits-free s h.1)
