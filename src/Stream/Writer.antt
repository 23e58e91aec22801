-- ===== src/Stream/Writer.antt =====
-- `stream_to` (src/stream_to.cxx and include/pqxx/stream_to.hxx). The state that a row changes is
-- `m_buffer`. `write_raw_line` hands a line to the connection: here the lines written are a list.
use libpqxx.Prelude.{
  ℕ, zero, suc, ◌+◌, ◌-◌, ◌≡◌, refl, Bytes, codes, byte_at, take, substr, List, [], ◌∷◌, ◌++◌,
  length, ltb, ◌==◌, if◌then◌else◌, Option, none, some, Result, ok, err, internal_error,
  conversion_overrun, assertion_failed, fuel_out, ◌>>=◌,
}
use libpqxx.Encoding.Scanner.{EncodingGroup, ascii_safe, glyph_scanner}
use libpqxx.Encoding.Finder.{CharFinder, get_char_finder, find_ascii_char, is_needle}
use libpqxx.Array.Quoted.{backslash}

-- Backspace, form feed, line feed, carriage return, tab and vertical tab.
abbrev pub tab : ℕ
tab = 9

-- The needles of the finder that the constructor looks up.
abbrev pub stops : List ℕ
stops = 8 ∷ 12 ∷ 10 ∷ 13 ∷ tab ∷ 11 ∷ backslash ∷ []

unfoldable pub escape_char : ℕ → Result ℕ
escape_char special =
    if special == 8
    then ok b'b'
    else if special == 12
    then ok b'f'
    else if special == 10
    then ok b'n'
    else if special == 13
    then ok b'r'
    else if special == tab
    then ok b't'
    else if special == 11
    then ok b'v'
    else if special == backslash
    then ok backslash
    else err internal_error

-- The loop of `escape_field_to_buffer`.
unfoldable pub escape_field_loop : ℕ → CharFinder → Bytes → ℕ → Bytes → Result Bytes
unfolding escape_char
escape_field_loop zero finder text here buffer = err fuel_out
escape_field_loop (suc fuel) finder text here buffer =
    let end = length text in
    if ltb here end
    then (finder text here >>= λ stop_char.
        let copied = buffer ++ substr text here (stop_char - here) in
        let last = escape_field_loop fuel finder text (stop_char + 1) copied in
        let escaping =
          (escape_char (byte_at text stop_char) >>= λ c.
          escape_field_loop fuel finder text (stop_char + 1) (copied ++ backslash ∷ c ∷ [])) in
        if ltb stop_char end then escaping else last)
    else ok buffer

unfoldable pub escape_field_to_buffer : CharFinder → Bytes → Bytes → Result Bytes
unfolding escape_field_loop
escape_field_to_buffer finder text buffer =
    escape_field_loop (suc (length text)) finder text 0 buffer >>= λ written.
    ok (written ++ tab ∷ [])

abbrev pub null_field : Bytes
null_field = backslash ∷ b'N' ∷ tab ∷ []

-- A field by the branch that its type takes: an arithmetic type, with its text and its `size_buffer`,
-- or text that may need escaping.
pub data Value : Type 0 where
  arithmetic : Bytes → ℕ → Value
  text : Bytes → Value

-- "Convert straight into m_buffer": the buffer grows by the budget and one byte, `into_buf` tests
-- the text's size, and the code asserts that behind the tab there is a byte left.
unfoldable pub append_number : Bytes → ℕ → Bytes → Result Bytes
append_number number budget buffer =
    if ltb (budget + 1) (length number)
    then err conversion_overrun
    else if ltb (length buffer + length number + 1) (length buffer + budget + 1)
    then ok ((buffer ++ number) ++ tab ∷ [])
    else err assertion_failed

unfoldable pub append_to_buffer : CharFinder → Option Value → Bytes → Result Bytes
unfolding append_number
append_to_buffer finder none buffer = ok (buffer ++ null_field)
append_to_buffer finder (some (arithmetic number budget)) buffer =
    append_number number budget buffer
append_to_buffer finder (some (text string)) buffer = escape_field_to_buffer finder string buffer

unfoldable pub fill_buffer : CharFinder → List (Option Value) → Bytes → Result Bytes
fill_buffer finder [] buffer = ok buffer
fill_buffer finder (f ∷ fields) buffer =
    append_to_buffer finder f buffer >>= fill_buffer finder fields

-- The line that `write_buffer` hands to `write_raw_line`; the buffer is empty afterwards.
unfoldable pub write_buffer : Bytes → Bytes × Bytes
write_buffer buffer =
    if length buffer == 0 then (buffer, []) else (take (length buffer - 1) buffer, [])

-- `write_row` on an empty buffer, as every row leaves it.
unfoldable pub write_row : EncodingGroup → List (Option Value) → Result (Bytes × Bytes)
unfolding fill_buffer append_to_buffer escape_field_to_buffer write_buffer
write_row enc fields = do
  finder ← get_char_finder stops enc
  buffer ← fill_buffer finder fields []
  ok (write_buffer buffer)

two_columns :
    write_row ascii_safe (some (text (codes "a\tb")) ∷ none ∷ []) ≡ ok (codes "a\\tb\t\\N", [])
unfolding write_row get_char_finder find_ascii_char is_needle glyph_scanner
two_columns = refl

-- The lowest `int`: its text fills its `size_buffer`.
lowest_int :
    write_row ascii_safe (some (arithmetic (codes "-2147483648") 11) ∷ []) ≡ err assertion_failed
unfolding write_row get_char_finder
lowest_int = refl
