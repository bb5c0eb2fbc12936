-- ===== src/Api/Pages/Cursor.antt =====
-- page/page.go: opaque cursors.
use ambagrid.Common.{
  ℕ, not, Option, none, some, List, [], ◌∷◌, ◌++◌, map, Text, codes, ◌==◌, if◌then◌else◌, text_eq,
  is_empty, length, Result, ok, err, ◌>>=◌, ◌>>◌, refuse_if, split, join_with,
}

-- `ErrInvalidCursor` with the text that follows it.
pub data CursorError : Type 0 where
  not_base64 field_count bad_version empty_field bad_time bad_id : CursorError

-- The separator is the byte 0x1f, the escape character a backslash.
abbrev pub separator : ℕ
separator = 31

abbrev pub escape : ℕ
escape = 92

-- `strings.ReplaceAll` of one byte.
unfoldable pub replace_byte : ℕ → Text → Text → Text
replace_byte b by [] = []
replace_byte b by (c ∷ s) = if c == b then by ++ replace_byte b by s else c ∷ replace_byte b by s

unfoldable pub escape_field : Text → Text
unfolding replace_byte
escape_field field =
    replace_byte separator (escape ∷ b'u' ∷ []) (replace_byte escape (escape ∷ escape ∷ []) field)

unfoldable pub unescape_field : Text → Text
unescape_field [] = []
unescape_field (c ∷ []) = c ∷ []
unescape_field (c ∷ d ∷ s) =
    let next = unescape_field (d ∷ s) in
    let rest = unescape_field s in
    if not (c == escape)
    then c ∷ next
    else if d == b'u'
    then separator ∷ rest
    else if d == escape
    then escape ∷ rest
    else c ∷ next

-- The texts of a cursor: `encoding/base64` without padding, a time in RFC 3339 with nanoseconds, and an
-- ID in the form of a UUID that `ValidateAlertID` checks.
pub record Codecs : Type 0 where
  pub encode_base64 : Text → Text
  pub decode_base64 : Text → Option Text
  pub format_time : ℕ → Text
  pub parse_time : Text → Option ℕ
  pub format_id : ℕ → Text
  pub parse_id : Text → Option ℕ

module _ (k : Codecs) where
  unfoldable pub encode : List Text → Text
  unfolding escape_field
  encode fields = k.encode_base64 (join_with separator (codes "v1" ∷ map escape_field fields))

  unfoldable pub read_cursor_fields : List Text → Result CursorError (List Text)
  unfolding unescape_field
  read_cursor_fields [] = ok []
  read_cursor_fields (field ∷ fields) = do
    refuse_if (is_empty field) empty_field
    rest ← read_cursor_fields fields
    ok (unescape_field field ∷ rest)

  unfoldable pub read_cursor_parts : ℕ → List Text → Result CursorError (List Text)
  unfolding read_cursor_fields
  read_cursor_parts wanted [] = err field_count
  read_cursor_parts wanted (version ∷ fields) = do
    refuse_if (not (length fields == wanted)) field_count
    refuse_if (not (text_eq version (codes "v1"))) bad_version
    read_cursor_fields fields

  unfoldable pub read_raw : ℕ → Option Text → Result CursorError (List Text)
  unfolding read_cursor_parts
  read_raw wanted none = err not_base64
  read_raw wanted (some raw) = read_cursor_parts wanted (split separator raw)

  unfoldable pub decode : Text → ℕ → Result CursorError (List Text)
  unfolding read_raw
  decode token wanted = read_raw wanted (k.decode_base64 token)

  unfoldable pub encode_time_id : ℕ → ℕ → Text
  unfolding encode
  encode_time_id time id = encode (k.format_time time ∷ k.format_id id ∷ [])

  abbrev checked : CursorError → Option ℕ → Result CursorError ℕ
  checked e none = err e
  checked e (some n) = ok n

  abbrev time_and_id : List Text → Result CursorError (Option (ℕ × ℕ))
  time_and_id (time ∷ id ∷ []) = do
    t ← checked bad_time (k.parse_time time)
    n ← checked bad_id (k.parse_id id)
    ok (some (t, n))
  time_and_id _ = err field_count

  -- The empty cursor is the start.
  unfoldable pub decode_time_id : Text → Result CursorError (Option (ℕ × ℕ))
  unfolding decode
  decode_time_id cursor = if is_empty cursor then ok none else (decode cursor 2 >>= time_and_id)
