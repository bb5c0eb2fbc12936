-- ===== src/Api/Pages/RoundTrip.antt =====
-- A cursor that the service hands out comes back as it was.
use ambagrid.Common.{
  ℕ, suc, contains_byte, ◌≡◌, refl, ◌∙◌, ap, inl, inr, true, false, some, List, [], ◌∷◌, map, arith,
  Text, codes, ◌==◌, text_eq_refl, is_empty, length, All, ok, join_with, split-join_with,
  Bool-cases,
}
use ambagrid.Api.Pages.Cursor

-- A byte that is no backslash stands for itself.
unescape-plain :
    (c : ℕ) (s : Text)
    → (c == Cursor.escape) ≡ false
    → Cursor.unescape_field (c ∷ s) ≡ c ∷ Cursor.unescape_field s
unfolding Cursor.unescape_field
unescape-plain c [] h = refl
unescape-plain c (d ∷ s) h = rw h refl

-- What the loop does after one byte of the field and its escape.
unescape-escape : (s : Text) → Cursor.unescape_field (Cursor.escape_field s) ≡ s
unfolding Cursor.escape_field Cursor.replace_byte Cursor.unescape_field
unescape-escape [] = refl
unescape-escape (c ∷ s) = elim (Bool-cases (c == 92)) [
  | inl backslash ↦
      let e : c ≡ 92 = ground arith in rw (backslash, e) (ap (λ t. 92 ∷ t) (unescape-escape s))
  | inr other ↦ elim (Bool-cases (c == 31)) [
    | inl sep ↦
        let e : c ≡ 31 = ground arith in rw (other, sep, e) (ap (λ t. 31 ∷ t) (unescape-escape s))
    | inr plain ↦
        rw (other, plain)
          (unescape-plain c (Cursor.escape_field s) other ∙ ap (λ t. c ∷ t) (unescape-escape s))
  ]
]

escape-free : (s : Text) → contains_byte Cursor.separator (Cursor.escape_field s) ≡ false
unfolding Cursor.escape_field Cursor.replace_byte contains_byte
escape-free [] = refl
escape-free (c ∷ s) = elim (Bool-cases (c == 92)) [
  | inl backslash ↦ rw backslash (escape-free s)
  | inr other ↦ elim (Bool-cases (c == 31)) [
    | inl sep ↦ rw (other, sep) (escape-free s)
    | inr plain ↦ rw (other, plain) (rw plain (escape-free s))
  ]
]

version-free : contains_byte Cursor.separator (codes "v1") ≡ false
unfolding contains_byte
version-free = refl

escape-full : (s : Text) → is_empty s ≡ false → is_empty (Cursor.escape_field s) ≡ false
unfolding Cursor.escape_field Cursor.replace_byte is_empty
escape-full [] h = h
escape-full (c ∷ s) h = elim (Bool-cases (c == 92)) [
  | inl backslash ↦ rw backslash refl
  | inr other ↦ elim (Bool-cases (c == 31)) [
    | inl sep ↦ rw (other, sep) refl
    | inr plain ↦ rw (other, plain) refl
  ]
]

escaped-free :
    (fields : List Text)
    → All (λ q. contains_byte Cursor.separator q ≡ false) (map Cursor.escape_field fields)
escaped-free [] = tt
escaped-free (f ∷ fields) = (escape-free f, escaped-free fields)

length-map : (fields : List Text) → length (map Cursor.escape_field fields) ≡ length fields
length-map [] = refl
length-map (f ∷ fields) = ap (λ n. suc n) (length-map fields)

-- What the cursors rely on: base64 decodes what it encoded, and encodes no byte as nothing.
pub record Readable (k : Cursor.Codecs) : Type 0 where
  pub base64 : (s : Text) → k.decode_base64 (k.encode_base64 s) ≡ some s
  pub cursor_full : (s : Text) → is_empty s ≡ false → is_empty (k.encode_base64 s) ≡ false

-- A time and an ID whose texts are not empty and are read back.
pub record ReadableKey (k : Cursor.Codecs) (time id : ℕ) : Type 0 where
  pub time_read : k.parse_time (k.format_time time) ≡ some time
  pub id_read : k.parse_id (k.format_id id) ≡ some id
  pub time_full : is_empty (k.format_time time) ≡ false
  pub id_full : is_empty (k.format_id id) ≡ false

equal_self : (n : ℕ) → (n == n) ≡ true
equal_self n = ground arith

cursor_text-full :
    (fields : List Text)
    → is_empty (join_with Cursor.separator (codes "v1" ∷ map Cursor.escape_field fields)) ≡ false
unfolding join_with is_empty
cursor_text-full [] = refl
cursor_text-full (f ∷ fields) = refl

module _ (k : Cursor.Codecs) where
  read_cursor_fields-escape :
      (fields : List Text)
      → All (λ f. is_empty f ≡ false) fields
      → Cursor.read_cursor_fields k (map Cursor.escape_field fields) ≡ ok fields
  unfolding Cursor.read_cursor_fields
  read_cursor_fields-escape [] h = refl
  read_cursor_fields-escape (f ∷ fields) h =
      rw (escape-full f h.0, read_cursor_fields-escape fields h.1, unescape-escape f) refl

  -- The fields of a cursor come back from its text, whatever bytes they hold, if none is empty and
  -- base64 decodes what it encoded.
  pub decode-encode :
      (fields : List Text)
      → ((s : Text) → k.decode_base64 (k.encode_base64 s) ≡ some s)
      → All (λ f. is_empty f ≡ false) fields
      → Cursor.decode k (Cursor.encode k fields) (length fields) ≡ ok fields
  unfolding Cursor.decode Cursor.encode Cursor.read_raw Cursor.read_cursor_parts
  decode-encode fields base64 h =
      rw
        (
          base64 (join_with Cursor.separator (codes "v1" ∷ map Cursor.escape_field fields)),
          split-join_with Cursor.separator (codes "v1") (map Cursor.escape_field fields)
              (version-free, escaped-free fields),
          length-map fields,
          read_cursor_fields-escape fields h,
          equal_self (length fields),
          text_eq_refl (codes "v1"),
        )
        refl

  -- The position of a listing comes back from its cursor.
  pub decode_time_id-encode_time_id :
      (time id : ℕ)
      → Readable k
      → ReadableKey k time id
      → Cursor.decode_time_id k (Cursor.encode_time_id k time id) ≡ ok (some (time, id))
  unfolding Cursor.decode_time_id Cursor.encode_time_id
  decode_time_id-encode_time_id time id r key =
      let fields = k.format_time time ∷ k.format_id id ∷ [] in
      rw
        (
          r.cursor_full _ (cursor_text-full fields),
          decode-encode fields r.base64 (key.time_full, (key.id_full, tt)),
          key.time_read,
          key.id_read,
        )
        refl

  -- No cursor of a position is the empty text, which stands for the start.
  pub encode_time_id-full :
      (time id : ℕ) → Readable k → is_empty (Cursor.encode_time_id k time id) ≡ false
  unfolding Cursor.encode_time_id Cursor.encode
  encode_time_id-full time id r =
      r.cursor_full _ (cursor_text-full (k.format_time time ∷ k.format_id id ∷ []))
