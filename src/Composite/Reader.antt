-- ===== src/Composite/Reader.antt =====
-- `parse_composite_field` (include/pqxx/internal/array-composite.hxx) and `parse_composite`
-- (include/pqxx/composite.hxx). The fields' C++ types become one type `A` of values, and each field
-- has a reader: its `from_string`, and its null if the type has one.
use libpqxx.Prelude.{
  ℕ, ◌+◌, ◌-◌, ◌||◌, ◌&&◌, not, Bytes, byte_at, take, substr, List, [], ◌∷◌, length, ltb, ◌==◌,
  if◌then◌else◌, Option, none, some, Result, ok, err, conversion_error, usage_error, ◌>>=◌,
}
use libpqxx.Encoding.Scanner.{EncodingGroup, unknown, ascii_safe, two_tier, gb18030, sjis}
use libpqxx.Array.Quoted.{
  quote, one_ascii_char, scan_double_quoted_string, parse_double_quoted_string,
  scan_unquoted_string,
}

abbrev pub comma : ℕ
comma = b','

abbrev pub open_parenthesis : ℕ
open_parenthesis = b'('

abbrev pub close_parenthesis : ℕ
close_parenthesis = b')'

abbrev pub close_bracket : ℕ
close_bracket = b']'

-- The needles of `scan_unquoted_string<ENC, ',', ')', ']'>`.
abbrev pub field_stops : List ℕ
field_stops = comma ∷ close_parenthesis ∷ close_bracket ∷ []

pub record FieldReader {ℓ} (A : Type ℓ) : Type ℓ where
  pub from_string : Bytes → Result A
  pub null : Option A

module _ {ℓ} {A : Type ℓ} where
  -- `if constexpr (has_null<T>()) field = make_null<T>(); else throw conversion_error`.
  unfoldable pub null_field : Option A → ℕ → Result (A × ℕ)
  null_field none pos = err conversion_error
  null_field (some value) pos = ok (value, pos)

  -- The double-quoted case of the switch.
  unfoldable pub quoted_field : EncodingGroup → FieldReader A → Bytes → ℕ → Result (A × ℕ)
  quoted_field enc reader input pos = do
    stop ← scan_double_quoted_string enc input pos
    text ← parse_double_quoted_string enc (take stop input) pos
    field ← reader.from_string text
    ok (field, stop)

  -- The default case of the switch.
  unfoldable pub unquoted_field : EncodingGroup → FieldReader A → Bytes → ℕ → Result (A × ℕ)
  unfolding scan_unquoted_string
  unquoted_field enc reader input pos = do
    stop ← scan_unquoted_string enc field_stops input pos
    field ← reader.from_string (substr input pos (stop - pos))
    ok (field, stop)

  -- The switch on `input[pos]`.
  unfoldable pub read_field : EncodingGroup → FieldReader A → Bytes → ℕ → Result (A × ℕ)
  unfolding null_field quoted_field unquoted_field
  read_field enc reader input pos =
      let c = byte_at input pos in
      if c == comma || (c == close_parenthesis || c == close_bracket)
      then null_field reader.null pos
      else if c == quote
      then quoted_field enc reader input pos
      else unquoted_field enc reader input pos

-- "End of field.  Expect a comma or a closing parenthesis." Returns the new position. A read at
-- the end of the input gives 0 here, as the zero that ends the text does in the source.
unfoldable pub end_field : ℕ → Bytes → ℕ → ℕ → Result ℕ
end_field index input pos last_field =
    let c = byte_at input pos in
    if ltb index last_field
    then (if c == comma then ok (pos + one_ascii_char) else err conversion_error)
    else if c == comma
    then err conversion_error
    else if not (c == close_parenthesis) && not (c == close_bracket)
    then err conversion_error
    else if pos + one_ascii_char == length input
    then ok (pos + one_ascii_char)
    else err conversion_error

module _ {ℓ} {A : Type ℓ} where
  -- Returns the field, `index` and `pos`.
  unfoldable pub parse_composite_field :
      EncodingGroup → FieldReader A → ℕ → Bytes → ℕ → ℕ → Result (A × ℕ × ℕ)
  unfolding read_field end_field
  parse_composite_field enc reader index input pos last_field =
      read_field enc reader input pos >>= λ (field, stop).
      end_field index input stop last_field >>= λ next. ok (field, index + 1, next)

  unfoldable pub specialize_parse_composite_field :
      EncodingGroup → Result (FieldReader A → ℕ → Bytes → ℕ → ℕ → Result (A × ℕ × ℕ))
  specialize_parse_composite_field unknown = err usage_error
  specialize_parse_composite_field ascii_safe = ok (parse_composite_field ascii_safe)
  specialize_parse_composite_field two_tier = ok (parse_composite_field two_tier)
  specialize_parse_composite_field gb18030 = ok (parse_composite_field gb18030)
  specialize_parse_composite_field sjis = ok (parse_composite_field sjis)

  -- The fold over the fields.
  unfoldable pub parse_fields :
      EncodingGroup → List (FieldReader A) → ℕ → Bytes → ℕ → ℕ → Result (List A × ℕ)
  parse_fields enc [] index text here last_field = ok ([], here)
  parse_fields enc (reader ∷ readers) index text here last_field =
      specialize_parse_composite_field enc >>= λ parse.
      parse reader index text here last_field >>= λ (field, index', here').
      parse_fields enc readers index' text here' last_field >>= λ (fields, end).
      ok (field ∷ fields, end)

  unfoldable pub parse_composite : EncodingGroup → Bytes → List (FieldReader A) → Result (List A)
  unfolding parse_fields
  parse_composite enc text readers =
      if length text == 0
      then err conversion_error
      else if byte_at text 0 == open_parenthesis
      then (parse_fields enc readers 0 text 1 (length readers - 1) >>= λ (fields, here).
          if here == length text
          then (if byte_at text (here - 1) == close_parenthesis
              then ok fields
              else err conversion_error)
          else err conversion_error)
      else err conversion_error
