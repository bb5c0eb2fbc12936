-- ===== src/Common/Space.antt =====
-- `strings.TrimSpace(s) == ""`: the bytes of a text run through the UTF-8 forms of the characters
-- with the Unicode property White_Space.
use Prim.Native.Nat.{ℕ}
use mathlib.Core.Bool.{Bool, true, false, ◌&&◌, ◌||◌}
use mathlib.Core.List.{[], ◌∷◌}
use ambagrid.Common.Tests.{◌==◌, leb, if◌then◌else◌}
use ambagrid.Common.Bytes.{Text}

-- Between two characters, inside a white one, or past a byte that is part of no white character.
pub data Scan : Type 0 where
  between c2 e1 e1_9a e2 e2_80 e2_81 e3 e3_80 inked : Scan

abbrev scan_first : ℕ → Scan
scan_first b =
    if (leb 9 b && leb b 13) || b == 32
    then between
    else if b == 0xc2
    then c2
    else if b == 0xe1
    then e1
    else if b == 0xe2
    then e2
    else if b == 0xe3
    then e3
    else inked

abbrev scan_byte : Scan → ℕ → Scan
scan_byte between b = scan_first b
scan_byte c2 b = if b == 0x85 || b == 0xa0 then between else inked
scan_byte e1 b = if b == 0x9a then e1_9a else inked
scan_byte e1_9a b = if b == 0x80 then between else inked
scan_byte e2 b = if b == 0x80 then e2_80 else if b == 0x81 then e2_81 else inked
scan_byte e2_80 b =
    if (leb 0x80 b && leb b 0x8a) || (b == 0xa8 || (b == 0xa9 || b == 0xaf)) then between else inked
scan_byte e2_81 b = if b == 0x9f then between else inked
scan_byte e3 b = if b == 0x80 then e3_80 else inked
scan_byte e3_80 b = if b == 0x80 then between else inked
scan_byte inked b = inked

abbrev at_boundary : Scan → Bool
at_boundary between = true
at_boundary _ = false

blank_from : Scan → Text → Bool
blank_from s [] = at_boundary s
blank_from s (b ∷ t) = blank_from (scan_byte s b) t

unfoldable pub is_blank : Text → Bool
unfolding blank_from
is_blank t = blank_from between t

abbrev is_inked : Scan → Bool
is_inked inked = true
is_inked _ = false

-- A text behind its white characters: `start` is where the character read now begins.
trim_left_from : Scan → Text → Text → Text
trim_left_from s start [] = if at_boundary s then [] else start
trim_left_from s start (b ∷ t) =
    let s' = scan_byte s b in
    let skipped = trim_left_from s' t t in
    let inside = trim_left_from s' start t in
    if is_inked s' then start else if at_boundary s' then skipped else inside

-- A text before the white characters at its end.
unfoldable pub trim_right : Text → Text
unfolding is_blank
trim_right [] = []
trim_right (b ∷ t) = if is_blank (b ∷ t) then [] else b ∷ trim_right t

-- `strings.TrimSpace`.
unfoldable pub trim_space : Text → Text
unfolding trim_left_from trim_right
trim_space t = trim_right (trim_left_from between t t)
