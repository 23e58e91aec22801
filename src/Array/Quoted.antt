-- ===== src/Array/Quoted.antt =====
-- Strings inside arrays and composite values (include/pqxx/internal/array-composite.hxx).
-- Each `while` loop is a function of its variables, on fuel: a round moves at least one byte on.
use libpqxx.Prelude.{
  ℕ, zero, suc, ◌+◌, ◌-◌, ◌≡◌, refl, ◌||◌, Bytes, codes, byte_at, drop, substr, List, [], ◌∷◌, ◌++◌,
  length, ltb, leb, ◌==◌, if◌then◌else◌, Result, ok, err, argument_error, fuel_out, ◌>>=◌,
}
use libpqxx.Encoding.Scanner.{EncodingGroup, ascii_safe, glyph_scanner}
use libpqxx.Encoding.Finder.{find_ascii_char, is_needle}

abbrev pub one_ascii_char : ℕ
one_ascii_char = 1

abbrev pub quote : ℕ
quote = b'"'

abbrev pub backslash : ℕ
backslash = b'\\'

-- The needles of `find_ascii_char<ENC, '"', '\\'>`.
abbrev pub specials : List ℕ
specials = quote ∷ backslash ∷ []

-- What the body of the loop does at `input[pos]`: return a position, or go on from one.
pub data Scan : Type 0 where
  done more : ℕ → Scan

-- The `switch` in the loop. A byte other than the two cannot stand here; the switch ignores it.
unfoldable pub scan_special : Bytes → ℕ → Result Scan
scan_special input pos =
    let sz = length input in
    let next = pos + one_ascii_char in
    if byte_at input pos == quote
    then (if leb sz next
        then ok (done next)
        else if byte_at input next == quote
        then (if leb sz (next + one_ascii_char)
            then err argument_error
            else ok (more (next + one_ascii_char)))
        else ok (done next))
    else if byte_at input pos == backslash
    then (if leb sz next
        then err argument_error
        else if byte_at input next == backslash || byte_at input next == quote
        then (if leb sz (next + one_ascii_char)
            then err argument_error
            else ok (more (next + one_ascii_char)))
        else ok (more next))
    else ok (more pos)

unfoldable pub scan_loop : ℕ → EncodingGroup → Bytes → ℕ → Result ℕ
unfolding scan_special
scan_loop zero enc input pos = err fuel_out
scan_loop (suc fuel) enc input pos =
    if ltb pos (length input)
    then (scan_special input pos >>= λ s. elim s [
      | done stop ↦ ok stop
      | more next ↦ find_ascii_char enc specials input next >>= scan_loop fuel enc input
    ])
    else err argument_error

unfoldable pub scan_double_quoted_string : EncodingGroup → Bytes → ℕ → Result ℕ
unfolding scan_loop
scan_double_quoted_string enc input pos =
    find_ascii_char enc specials input (pos + one_ascii_char)
    >>= scan_loop (suc (length input)) enc input

-- The loop of `parse_double_quoted_string`, with the text unescaped so far.
unfoldable pub parse_loop : ℕ → EncodingGroup → Bytes → ℕ → Bytes → Result Bytes
parse_loop zero enc input pos output = err fuel_out
parse_loop (suc fuel) enc input pos output =
    let closing_quote = length input - 1 in
    if ltb pos closing_quote
    then (find_ascii_char enc specials input pos >>= λ next.
        let copied = output ++ substr input pos (next - pos) in
        let escaped = byte_at input (next + one_ascii_char) in
        let kept = parse_loop fuel enc input (next + 2) (copied ++ escaped ∷ []) in
        let skipped = parse_loop fuel enc input (next + one_ascii_char) copied in
        if leb closing_quote next
        then ok copied
        else if escaped == quote || escaped == backslash
        then kept
        else skipped)
    else ok output

unfoldable pub parse_double_quoted_string : EncodingGroup → Bytes → ℕ → Result Bytes
unfolding parse_loop
parse_double_quoted_string enc input pos =
    parse_loop (length input) enc input (pos + one_ascii_char) []

unfoldable pub scan_unquoted_string : EncodingGroup → List ℕ → Bytes → ℕ → Result ℕ
scan_unquoted_string enc stop input pos = find_ascii_char enc stop input pos

unfoldable pub parse_unquoted_string : Bytes → ℕ → Bytes
parse_unquoted_string input pos = drop pos input

two_quotes : scan_double_quoted_string ascii_safe (codes "\"a\"\"b\",") 0 ≡ ok 6
unfolding scan_double_quoted_string find_ascii_char glyph_scanner is_needle
two_quotes = refl

unescapes : parse_double_quoted_string ascii_safe (codes "\"a\\\"\\\\b\"") 0 ≡ ok (codes "a\"\\b")
unfolding parse_double_quoted_string find_ascii_char glyph_scanner is_needle
unescapes = refl
