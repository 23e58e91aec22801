-- ===== src/Stream/Reader.antt =====
-- `stream_from::parse_line` (src/stream_from.cxx) and `unescape_char` (include/pqxx/util.hxx).
-- `m_row` is the list of the bytes written so far: `write` is its end, and a field is the part of it
-- from `field_begin` on, which is null (`none`) for a null field.
use libpqxx.Prelude.{
  ℕ, zero, suc, ◌+◌, ◌-◌, ◌≡◌, refl, Bool, false, Bytes, codes, byte_at, drop, substr, List, [],
  ◌∷◌, ◌++◌, length, ltb, leb, ◌==◌, if◌then◌else◌, Option, none, some, Result, ok, err, failure,
  fuel_out, ◌>>=◌,
}
use libpqxx.Encoding.Scanner.{EncodingGroup, ascii_safe, glyph_scanner}
use libpqxx.Encoding.Finder.{CharFinder, get_char_finder, find_ascii_char, is_needle}
use libpqxx.Array.Quoted.{backslash}
use libpqxx.Stream.Writer.{tab}

-- The needles of `m_char_finder`.
abbrev pub line_stops : List ℕ
line_stops = tab ∷ backslash ∷ []

unfoldable pub unescape_char : ℕ → ℕ
unescape_char escaped =
    if escaped == b'b'
    then 8
    else if escaped == b'f'
    then 12
    else if escaped == b'n'
    then 10
    else if escaped == b'r'
    then 13
    else if escaped == b't'
    then tab
    else if escaped == b'v'
    then 11
    else escaped

-- `m_fields.emplace_back(...)`: null, or the bytes from `field_begin` to `write`.
unfoldable pub end_field : List (Option Bytes) → Bytes → Option ℕ → List (Option Bytes)
end_field fields row none = fields ++ none ∷ []
end_field fields row (some field_begin) = fields ++ some (drop field_begin row) ∷ []

-- `write != field_begin`.
unfoldable pub at_begin : Bytes → Option ℕ → Bool
at_begin row none = false
at_begin row (some field_begin) = length row == field_begin

-- The loop of `parse_line`, and the end of the last field.
unfoldable pub parse_line_loop :
    ℕ
    → CharFinder
    → Bytes
    → ℕ
    → Bytes
    → Option ℕ
    → List (Option Bytes)
    → Result (List (Option Bytes))
unfolding unescape_char end_field at_begin
parse_line_loop zero finder line offset row field_begin fields = err fuel_out
parse_line_loop (suc fuel) finder line offset row field_begin fields =
    let line_size = length line in
    if ltb offset line_size
    then (finder line offset >>= λ stop_char.
        let copied = row ++ substr line offset (stop_char - offset) in
        let escaped = byte_at line (stop_char + 1) in
        let written = copied ++ unescape_char escaped ∷ [] in
        let separated =
          parse_line_loop fuel finder line (stop_char + 1) copied (some (length copied))
            (end_field fields copied field_begin) in
        let nulled = parse_line_loop fuel finder line (stop_char + 2) written none fields in
        let unescaped =
          parse_line_loop fuel finder line (stop_char + 2) written field_begin fields in
        if leb line_size stop_char
        then ok (end_field fields copied field_begin)
        else if byte_at line stop_char == tab
        then separated
        else if leb line_size (stop_char + 1)
        then err failure
        else if escaped == b'N'
        then (if at_begin copied field_begin then nulled else err failure)
        else unescaped)
    else ok (end_field fields row field_begin)

-- What `parse_line` makes of a line that `get_raw_line` returns.
unfoldable pub parse_line : EncodingGroup → Bytes → Result (List (Option Bytes))
unfolding parse_line_loop
parse_line enc line = do
  finder ← get_char_finder line_stops enc
  parse_line_loop (suc (length line)) finder line 0 [] (some 0) []

null_and_text :
    parse_line ascii_safe (codes "\\N\ta\\nb") ≡ ok (none ∷ some (97 ∷ 10 ∷ 98 ∷ []) ∷ [])
unfolding parse_line get_char_finder find_ascii_char is_needle glyph_scanner
null_and_text = refl
