-- ===== src/Encoding/Tests.antt =====
-- The properties of this component, at concrete inputs.
use libpqxx.Prelude.{◌≡◌, ◌≢◌, ◌<◌, ◌≤◌, inl, refl, arith, Bytes, [], ◌∷◌, ok, length}
use libpqxx.Encoding.Scanner.{sjis, gb18030, unknown, glyph_scanner, glyph_scanner_bounds}
use libpqxx.Encoding.Finder.{is_needle, find_ascii_char, Found, find_ascii_char-Found}
use libpqxx.Encoding.Accepting.{StandsAt, glyph_scanner-StandsAt}
use libpqxx.Encoding.Text.{Glyph, jis_pair, jis_ascii, glyph_scanner-Glyph}
use libpqxx.Encoding.Search.{find_ascii_char-bytes}

-- A character of Shift-JIS whose second byte is the code of a backslash, and a letter.
abbrev so : Glyph sjis
so = jis_pair 0x83 0x5c (inl (omega arith))

abbrev letter_a : Glyph sjis
letter_a = jis_ascii b'a' (omega arith)

abbrev so_bytes : Bytes
so_bytes = 0x83 ∷ 0x5c ∷ []

sjis_known : sjis ≢ unknown
sjis_known e = cc

glyph_scanner-Glyph_example : glyph_scanner sjis (0x83 ∷ 0x5c ∷ b'a' ∷ []) 0 ≡ ok 2
glyph_scanner-Glyph_example = glyph_scanner-Glyph so [] (b'a' ∷ [])

find_ascii_char-bytes_example :
    find_ascii_char sjis (0x5c ∷ []) (0x83 ∷ 0x5c ∷ b'a' ∷ 0x5c ∷ []) 0 ≡ ok 3
unfolding is_needle
find_ascii_char-bytes_example =
    find_ascii_char-bytes (0x5c ∷ []) (so ∷ letter_a ∷ []) [] (0x5c ∷ []) sjis_known
      (omega arith, tt) (refl, (refl, tt)) refl

find_ascii_char-Found_example :
    Found
      (0x5c ∷ [])
      (0x83 ∷ 0x5c ∷ b'a' ∷ 0x5c ∷ [])
      0
      (find_ascii_char sjis (0x5c ∷ []) (0x83 ∷ 0x5c ∷ b'a' ∷ 0x5c ∷ []) 0)
find_ascii_char-Found_example =
    find_ascii_char-Found sjis (0x5c ∷ []) (0x83 ∷ 0x5c ∷ b'a' ∷ 0x5c ∷ []) 0 sjis_known

glyph_scanner_bounds_example : (0 < 2) × (2 ≤ length so_bytes)
unfolding glyph_scanner
glyph_scanner_bounds_example = glyph_scanner_bounds sjis so_bytes 0 {next = 2} (omega arith) refl

-- Behind an ASCII byte, a character of two bytes.
glyph_scanner-StandsAt_example : (g : Glyph gb18030) × StandsAt (b'a' ∷ 0x81 ∷ 0x40 ∷ []) 1 3 g
unfolding glyph_scanner
glyph_scanner-StandsAt_example =
    glyph_scanner-StandsAt gb18030 (b'a' ∷ 0x81 ∷ 0x40 ∷ []) 1 3 (omega arith) refl
