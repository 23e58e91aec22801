-- ===== src/Encoding/Scanner.antt =====
-- `encoding_group` (include/pqxx/encoding_group.hxx) and the specialisations of `glyph_scanner`
-- (include/pqxx/internal/encodings.hxx). The call `call(buffer, start, loc)` is
-- `glyph_scanner enc buffer start`; both `throw_for_…` functions throw an `argument_error`.
use libpqxx.Prelude.{
  ℕ, ◌+◌, ◌≤◌, ◌<◌, ◌≡◌, ◌⊎◌, Bool, ◌&&◌, not, Bytes, byte_at, length, ltb, leb, ◌==◌,
  if◌then◌else◌, arith, Result, ok, err, Error, argument_error, internal_error,
}

pub data EncodingGroup : Type 0 where
  unknown ascii_safe two_tier gb18030 sjis : EncodingGroup

unfoldable pub get_byte : Bytes → ℕ → ℕ
get_byte buffer offset = byte_at buffer offset

unfoldable pub between_inc : ℕ → ℕ → ℕ → Bool
between_inc value bottom top = leb bottom value && leb value top

unfoldable pub throw_for_encoding_error : Result ℕ
throw_for_encoding_error = err argument_error

unfoldable pub throw_for_truncated_character : Result ℕ
throw_for_truncated_character = err argument_error

unfoldable pub scan_ascii_safe : Bytes → ℕ → Result ℕ
scan_ascii_safe buffer start = ok (start + 1)

unfoldable pub scan_two_tier : Bytes → ℕ → Result ℕ
unfolding get_byte throw_for_truncated_character
scan_two_tier buffer start =
    let byte1 = get_byte buffer start in
    if ltb byte1 0x80
    then ok (start + 1)
    else if leb (start + 2) (length buffer)
    then ok (start + 2)
    else throw_for_truncated_character

unfoldable pub scan_gb18030 : Bytes → ℕ → Result ℕ
unfolding get_byte between_inc throw_for_encoding_error throw_for_truncated_character
scan_gb18030 buffer start =
    let byte1 = get_byte buffer start in
    let sz = length buffer in
    let byte2 = get_byte buffer (start + 1) in
    if ltb byte1 0x80
    then ok (start + 1)
    else if byte1 == 0x80
    then throw_for_encoding_error
    else if ltb sz (start + 2)
    then throw_for_truncated_character
    else if between_inc byte2 0x40 0xfe
    then (if byte2 == 0x7f then throw_for_encoding_error else ok (start + 2))
    else if ltb sz (start + 4)
    then throw_for_truncated_character
    else if between_inc byte2 0x30 0x39
        && between_inc (get_byte buffer (start + 2)) 0x81 0xfe
        && between_inc (get_byte buffer (start + 3)) 0x30 0x39
    then ok (start + 4)
    else throw_for_encoding_error

unfoldable pub scan_sjis : Bytes → ℕ → Result ℕ
unfolding get_byte between_inc throw_for_encoding_error throw_for_truncated_character
scan_sjis buffer start =
    let byte1 = get_byte buffer start in
    if ltb byte1 0x80
    then ok (start + 1)
    else if between_inc byte1 0xa1 0xdf
    then ok (start + 1)
    else if not (between_inc byte1 0x81 0x9f) && not (between_inc byte1 0xe0 0xfc)
    then throw_for_encoding_error
    else if ltb (length buffer) (start + 2)
    then throw_for_truncated_character
    else ok (start + 2)

-- The primary template is declared and has no body: `get_char_finder` throws for `unknown`.
unfoldable pub glyph_scanner : EncodingGroup → Bytes → ℕ → Result ℕ
unfolding scan_ascii_safe scan_two_tier scan_gb18030 scan_sjis
glyph_scanner unknown buffer start = err internal_error
glyph_scanner ascii_safe buffer start = scan_ascii_safe buffer start
glyph_scanner two_tier buffer start = scan_two_tier buffer start
glyph_scanner gb18030 buffer start = scan_gb18030 buffer start
glyph_scanner sjis buffer start = scan_sjis buffer start

-- A character that the scanner finds is not empty and ends inside the buffer.
pub glyph_scanner_bounds :
    (enc : EncodingGroup) (buffer : Bytes) (start : ℕ) {next : ℕ}
    → start < length buffer
    → glyph_scanner enc buffer start ≡ ok next
    → (start < next) × (next ≤ length buffer)
unfolding glyph_scanner
glyph_scanner_bounds unknown buffer start p h = ground arith
glyph_scanner_bounds ascii_safe buffer start p h = ground arith
glyph_scanner_bounds two_tier buffer start p h = ground arith
glyph_scanner_bounds gb18030 buffer start p h = ground arith
glyph_scanner_bounds sjis buffer start p h = ground arith

-- A scanner throws an `argument_error` only; `unknown` has none.
pub glyph_scanner_error :
    (enc : EncodingGroup) (buffer : Bytes) (start : ℕ) {e : Error}
    → glyph_scanner enc buffer start ≡ err e
    → (e ≡ argument_error) ⊎ ((enc ≡ unknown) × (e ≡ internal_error))
unfolding glyph_scanner
glyph_scanner_error unknown buffer start h = ground arith
glyph_scanner_error ascii_safe buffer start h = ground arith
glyph_scanner_error two_tier buffer start h = ground arith
glyph_scanner_error gb18030 buffer start h = ground arith
glyph_scanner_error sjis buffer start h = ground arith
