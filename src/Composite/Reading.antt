-- ===== src/Composite/Reading.antt =====
-- `read_field` on a field as it stands in the text of a composite value.
use libpqxx.Prelude.{
  ℕ, ◌+◌, ◌-◌, ◌≡◌, ◌≢◌, ◌⊎◌, false, ◌||◌, Bytes, byte_at, take, substr-append, take-append,
  byte_at-length, List, [], ◌∷◌, ◌++◌, append_assoc, length, length-append, ◌==◌, arith, ok,
}
use libpqxx.Encoding.Scanner.{EncodingGroup, unknown}
use libpqxx.Encoding.Finder.{is_needle}
use libpqxx.Encoding.Text.{Glyph, lead, trail, bytes}
use libpqxx.Encoding.Search.{StopsAt, find_ascii_char-skip}
use libpqxx.Array.Quoted.{quote, scan_double_quoted_string}
use libpqxx.Array.Escaped.{escaped, scan_double_quoted_string-escaped}
use libpqxx.Array.Unescaping.{parse_double_quoted_string-escaped}
use libpqxx.Composite.Reader.{
  FieldReader, comma, close_parenthesis, close_bracket, field_stops, read_field,
}
use libpqxx.Composite.Fields.{
  FieldText, safe, quoted, field_bytes, IsFieldText, IsUnquotedField, render_field,
}

-- What may stand behind a field.
abbrev pub IsStop : ℕ → Type 0
IsStop c = (c ≡ comma) ⊎ ((c ≡ close_parenthesis) ⊎ (c ≡ close_bracket))

module _ {A : Type 0} where
  read_field-quoted :
      {enc : EncodingGroup} (gs : List (Glyph enc)) (reader : FieldReader A) (v : A) (pre : Bytes)
      (c : ℕ) (tail : Bytes)
      → enc ≢ unknown
      → IsStop c
      → reader.from_string (bytes gs) ≡ ok v
      → read_field enc reader
          (pre ++ ((quote ∷ (escaped gs ++ quote ∷ [])) ++ c ∷ tail))
          (length pre)
        ≡ ok (v, length (pre ++ (quote ∷ (escaped gs ++ quote ∷ []))))
  unfolding read_field
  read_field-quoted {enc} gs reader v pre c tail known h r =
      let body = quote ∷ (escaped gs ++ quote ∷ []) in
      let input = pre ++ (body ++ c ∷ tail) in
      let here : byte_at input (length pre) ≡ quote =
        byte_at-length pre quote ((escaped gs ++ quote ∷ []) ++ c ∷ tail) in
      let shape : (escaped gs ++ quote ∷ []) ++ c ∷ tail ≡ escaped gs ++ quote ∷ c ∷ tail =
        append_assoc (escaped gs) (quote ∷ []) (c ∷ tail) in
      let size : length (pre ++ body) ≡ length pre + (length (escaped gs) + 2) =
        omega (arith, length-append {0} pre body, length-append {0} (escaped gs) (quote ∷ [])) in
      let scanned : scan_double_quoted_string enc input (length pre) ≡ ok (length (pre ++ body)) =
        rw (shape, size)
          (scan_double_quoted_string-escaped gs pre (c ∷ tail) known (ground arith)) in
      let cut : take (length (pre ++ body)) input ≡ pre ++ body =
        rw (← append_assoc pre body (c ∷ tail)) (take-append (pre ++ body) (c ∷ tail)) in
      rw (here, scanned, cut, parse_double_quoted_string-escaped gs pre known, r)

  read_field-unquoted :
      {enc : EncodingGroup} (gs : List (Glyph enc)) (reader : FieldReader A) (v : A) (pre : Bytes)
      (c : ℕ) (tail : Bytes)
      → enc ≢ unknown
      → IsUnquotedField gs
      → IsStop c
      → reader.from_string (bytes gs) ≡ ok v
      → read_field enc reader (pre ++ (bytes gs ++ c ∷ tail)) (length pre)
        ≡ ok (v, length (pre ++ bytes gs))
  unfolding read_field is_needle
  read_field-unquoted [] reader v pre c tail known u h r = absurd u
  read_field-unquoted {enc} (g ∷ gs) reader v pre c tail known (clean, no_quote) h r =
      let text = bytes (g ∷ gs) in
      let here : byte_at (pre ++ (text ++ c ∷ tail)) (length pre) ≡ lead g =
        byte_at-length pre (lead g) ((trail g ++ bytes gs) ++ c ∷ tail) in
      let stop : StopsAt field_stops (c ∷ tail) = ground arith in
      let found =
        find_ascii_char-skip field_stops (g ∷ gs) pre (c ∷ tail) known (omega arith) clean stop in
      let starts : (lead g == comma || (lead g == close_parenthesis || lead g == close_bracket))
          ≡ false =
        ground (arith, clean.0) in
      let other : (lead g == quote) ≡ false = ground arith in
      let span : length (pre ++ text) - length pre ≡ length text =
        omega (arith, length-append {0} pre text) in
      rw (
        here,
        starts,
        other,
        ← append_assoc pre text (c ∷ tail),
        found,
        span,
        substr-append pre text (c ∷ tail),
        r,
      )

  pub read_field-render :
      {enc : EncodingGroup} (x : FieldText enc) (reader : FieldReader A) (v : A) (pre : Bytes)
      (c : ℕ) (tail : Bytes)
      → enc ≢ unknown
      → IsFieldText x
      → IsStop c
      → reader.from_string (field_bytes x) ≡ ok v
      → read_field enc reader (pre ++ (render_field x ++ c ∷ tail)) (length pre)
        ≡ ok (v, length (pre ++ render_field x))
  unfolding render_field
  read_field-render (safe gs budget) reader v pre c tail known f h r =
      read_field-unquoted gs reader v pre c tail known f h r
  read_field-render (quoted place gs budget) reader v pre c tail known f h r =
      read_field-quoted gs reader v pre c tail known h r
