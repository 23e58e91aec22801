-- ===== src/Array/Parser.antt =====
-- `array_parser` (include/pqxx/array.hxx and src/array.cxx). The state that a call changes is
-- `m_pos`: a step takes it and returns it with what was found.
use libpqxx.Prelude.{
  ℕ, ◌+◌, ◌≡◌, refl, ◌&&◌, Bytes, codes, byte_at, take, bytes_eq, List, [], ◌∷◌, ◌++◌, length, ltb,
  leb, ◌==◌, if◌then◌else◌, Result, ok, err, failure, usage_error, ◌>>=◌,
}
use libpqxx.Encoding.Scanner.{
  EncodingGroup, unknown, ascii_safe, two_tier, gb18030, sjis, glyph_scanner,
}
use libpqxx.Encoding.Finder.{find_ascii_char, is_needle}
use libpqxx.Array.Quoted.{
  quote, scan_double_quoted_string, parse_double_quoted_string, scan_unquoted_string,
  parse_unquoted_string,
}
use libpqxx.Array.Writer.{open_brace, close_brace, separator, s_null}

pub data Juncture : Type 0 where
  row_start row_end null_value string_value done : Juncture

-- What `get_next` returns.
abbrev pub Event : Type 0
Event = Juncture × Bytes

-- The needles of `scan_unquoted_string<ENC, ',', '}'>`.
abbrev pub unquoted_stops : List ℕ
unquoted_stops = separator ∷ close_brace ∷ []

-- The double-quoted case of the switch.
unfoldable pub quoted_event : EncodingGroup → Bytes → ℕ → Result (Event × ℕ)
quoted_event enc input pos = do
  endpoint ← scan_double_quoted_string enc input pos
  value ← parse_double_quoted_string enc (take endpoint input) pos
  ok ((string_value, value), endpoint)

-- The default case of the switch.
unfoldable pub unquoted_event : EncodingGroup → Bytes → ℕ → Result (Event × ℕ)
unfolding scan_unquoted_string parse_unquoted_string
unquoted_event enc input pos = do
  endpoint ← scan_unquoted_string enc unquoted_stops input pos
  let value = parse_unquoted_string (take endpoint input) pos
  (if bytes_eq value s_null
      then ok ((null_value, []), endpoint)
      else ok ((string_value, value), endpoint))

-- The switch on `m_input[m_pos]`.
unfoldable pub find_event : EncodingGroup → Bytes → ℕ → Result (Event × ℕ)
unfolding quoted_event unquoted_event
find_event enc input pos =
    let c = byte_at input pos in
    if c == 0
    then err failure
    else if c == open_brace
    then ok ((row_start, []), pos + 1)
    else if c == close_brace
    then ok ((row_end, []), pos + 1)
    else if c == quote
    then quoted_event enc input pos
    else unquoted_event enc input pos

-- "Skip a trailing field separator, if present."
unfoldable pub skip_separator : Bytes → ℕ → ℕ
skip_separator input end =
    if ltb end (length input) && byte_at input end == separator then end + 1 else end

unfoldable pub parse_array_step : EncodingGroup → Bytes → ℕ → Result (Event × ℕ)
unfolding find_event skip_separator
parse_array_step enc input pos =
    if leb (length input) pos
    then ok ((done, []), pos)
    else (find_event enc input pos >>= λ (found, end). ok (found, skip_separator input end))

unfoldable pub specialize_for_encoding : EncodingGroup → Result (Bytes → ℕ → Result (Event × ℕ))
specialize_for_encoding unknown = err usage_error
specialize_for_encoding ascii_safe = ok (parse_array_step ascii_safe)
specialize_for_encoding two_tier = ok (parse_array_step two_tier)
specialize_for_encoding gb18030 = ok (parse_array_step gb18030)
specialize_for_encoding sjis = ok (parse_array_step sjis)

-- Successive calls of `get_next`, from one position of the parser to another.
pub data Parses (enc : EncodingGroup) (input : Bytes) : ℕ → List Event → ℕ → Type 0 where
  stop : {pos : ℕ} → Parses enc input pos [] pos
  step :
      {pos next end : ℕ} {e : Event} {es : List Event}
      → parse_array_step enc input pos ≡ ok (e, next)
      → Parses enc input next es end
      → Parses enc input pos (e ∷ es) end

pub Parses-append :
    {enc : EncodingGroup} {input : Bytes} {p q r : ℕ} {ds es : List Event}
    → Parses enc input p ds q
    → Parses enc input q es r
    → Parses enc input p (ds ++ es) r
Parses-append stop later = later
Parses-append (step s more) later = step s (Parses-append more later)

nested_sample :
    Parses ascii_safe
      (codes "{{\"a\"},NULL}")
      0
      ((row_start, [])
        ∷ (row_start, [])
        ∷ (string_value, codes "a")
        ∷ (row_end, [])
        ∷ (null_value, [])
        ∷ (row_end, [])
        ∷ [])
      12
unfolding parse_array_step scan_double_quoted_string parse_double_quoted_string find_ascii_char
    is_needle glyph_scanner bytes_eq
nested_sample = step refl (step refl (step refl (step refl (step refl (step refl stop)))))
