-- ===== src/Lexer/Source.antt =====
-- The source text as the lexer reads it: crates/lexer/src/lexer.rs (the `classify_*` functions and
-- `current_width_at`) and crates/lexer/src/intern.rs. A text is the list of its UTF-8 bytes.
-- `source[offset..].chars().next()` is read off the lead byte at `offset`; it panics where `offset`
-- is no character boundary, which `is_char_boundary` tests as `str` does.
pub mod Boundary
pub mod Ascii
use thagore.Base.{
  ℕ, ◌+◌, ◌-◌, ◌*◌, ◌%◌, Bool, false, ◌&&◌, ◌||◌, List, Option, none, some, ltb, leb, ◌==◌,
  if◌then◌else◌, get_elem?, take, drop, length,
}
use thagore.Lexer.Table.{ByteClass, ClassifiedByte, is_digit, is_ident_start}
use thagore.Lexer.Token.{SliceRef, slice_end}

abbrev pub Bytes : Type 0
Bytes = List ℕ

-- The standard library's tables on code points: `char::is_alphabetic` and `char::is_numeric`.
pub record Unicode : Type 0 where
  pub is_alphabetic : ℕ → Bool
  pub is_numeric : ℕ → Bool

abbrev pub is_alphanumeric : Unicode → ℕ → Bool
is_alphanumeric u c = u.is_alphabetic c || u.is_numeric c

-- `char::len_utf8` of the character whose lead byte is given.
unfoldable pub lead_width : ℕ → ℕ
lead_width b = if ltb b 0x80 then 1 else if ltb b 0xe0 then 2 else if ltb b 0xf0 then 3 else 4

-- The byte at an offset, or 0 behind the end.
abbrev pub byte_or : Bytes → ℕ → ℕ
byte_or bytes i = elim (get_elem? bytes i) [ none ↦ 0 | some b ↦ b ]

abbrev tail_bits : Bytes → ℕ → ℕ
tail_bits bytes i = byte_or bytes i % 64

-- The code point whose encoding starts at `i` with the byte `b`.
unfoldable pub code_point : Bytes → ℕ → ℕ → ℕ
code_point bytes i b =
    if ltb b 0x80
    then b
    else if ltb b 0xe0
    then b % 32 * 64 + tail_bits bytes (i + 1)
    else if ltb b 0xf0
    then b % 16 * 4096 + tail_bits bytes (i + 1) * 64 + tail_bits bytes (i + 2)
    else b % 8 * 262144
      + tail_bits bytes (i + 1) * 4096
      + tail_bits bytes (i + 2) * 64
      + tail_bits bytes (i + 3)

unfoldable pub current_width_at : Bytes → ℕ → ℕ
current_width_at bytes i = elim (get_elem? bytes i) [ none ↦ 0 | some b ↦ lead_width b ]

-- `str::is_char_boundary`
unfoldable pub is_char_boundary : Bytes → ℕ → Bool
is_char_boundary bytes i = elim (get_elem? bytes i) [
  | none ↦ i == length bytes
  | some b ↦ ltb b 0x80 || leb 0xc0 b
]

-- `Interner::resolve`, by `str::get`
unfoldable pub resolve : Bytes → SliceRef → Option Bytes
resolve bytes r =
    let start = r.offset in
    let end = slice_end r in
    if leb start end && is_char_boundary bytes start && is_char_boundary bytes end
    then some (take (end - start) (drop start bytes))
    else none

abbrev classified : ByteClass → ℕ → ClassifiedByte
classified c w = record { class = c; width = w }

abbrev at_end : ClassifiedByte
at_end = classified ByteClass.eof 0

module _ (u : Unicode) where
  unfoldable pub classify_unicode_identifier : Bytes → ℕ → ℕ → ClassifiedByte
  classify_unicode_identifier bytes i b =
      let ch = code_point bytes i b in
      let class =
        if ch == b'_' || u.is_alphabetic ch
        then ByteClass.unicode_start
        else if is_alphanumeric u ch
        then ByteClass.unicode_continue
        else ByteClass.other in
      classified class (lead_width b)

  unfoldable pub classify_identifier_at : Bytes → ℕ → ClassifiedByte
  classify_identifier_at bytes i = elim (get_elem? bytes i) [
    | none ↦ at_end
    | some b ↦
        if is_ident_start b
        then classified ByteClass.ident_start 1
        else if is_digit b
        then classified ByteClass.digit 1
        else if leb 0x80 b && leb b 0xff
        then classify_unicode_identifier bytes i b
        else classified ByteClass.other 1
  ]

-- `matches!(self.bytes.get(offset + 1), Some(b'0'..=b'9'))`
abbrev pub digit_at : Bytes → ℕ → Bool
digit_at bytes i = elim (get_elem? bytes i) [ none ↦ false | some b ↦ is_digit b ]

unfoldable pub classify_number_at : Bytes → ℕ → ClassifiedByte
classify_number_at bytes i = elim (get_elem? bytes i) [
  | none ↦ at_end
  | some b ↦
      if is_digit b
      then classified ByteClass.digit 1
      else if b == b'.' && digit_at bytes (i + 1)
      then classified ByteClass.dot 1
      else classified ByteClass.other 1
]

unfoldable pub classify_string_at : Bytes → ℕ → ClassifiedByte
classify_string_at bytes i = elim (get_elem? bytes i) [
  | none ↦ at_end
  | some b ↦
      if b == b'"'
      then classified ByteClass.quote 1
      else if b == b'\n' || b == b'\r'
      then classified ByteClass.newline 1
      else if leb 0x80 b && leb b 0xff
      then classified ByteClass.other (lead_width b)
      else classified ByteClass.other 1
]
