-- ===== src/Composite/Tests.antt =====
-- The properties of this component, at concrete inputs.
use libpqxx.Prelude.{
  ◌≡◌, ◌≢◌, ◌++◌, inl, inr, refl, arith, Bytes, [], ◌∷◌, ok, err, none, conversion_error,
  argument_error, out_of_bounds, replicate, codes, drop, List, ◌>>=◌,
}
use libpqxx.Encoding.Scanner.{sjis, ascii_safe, unknown}
use libpqxx.Encoding.Text.{Glyph, byte, jis_pair, jis_ascii, bytes}
use libpqxx.Encoding.Finder.{is_needle}
use libpqxx.Array.Quoted.{quote, backslash, scan_double_quoted_string}
use libpqxx.Composite.Reader.{FieldReader, parse_composite}
use libpqxx.Composite.Buffer.{write_all}
use libpqxx.Composite.Writer.{
  Field, in_value, in_buffer, quoted_field, composite_into_buf, composite_size_buffer, escape_bytes,
}
use libpqxx.Composite.Fields.{safe, quoted, to_field}
use libpqxx.Composite.Cells.{Cell, IsReadable, readers, values, fields}
use libpqxx.Composite.RoundTrip.{composite_round_trip}
use libpqxx.Composite.Defects.{
  two_strings, composite_size_buffer_too_small, single_field_fails, split_character_fails,
}

ascii_known : ascii_safe ≢ unknown
ascii_known e = cc

sjis_known : sjis ≢ unknown
sjis_known e = cc

-- The reader of a `std::string`.
abbrev string_reader : FieldReader Bytes
string_reader = record { from_string = λ text. ok text; null = none }

abbrev quote_cell : Cell ascii_safe Bytes
quote_cell = record {
  text = quoted in_value (byte quote ∷ []) 1;
  reader = string_reader;
  value = quote ∷ [];
}

abbrev digit_cell : Cell ascii_safe Bytes
digit_cell = record { text = safe (byte b'7' ∷ []) 1; reader = string_reader; value = b'7' ∷ [] }

quote_cell-IsReadable : IsReadable quote_cell
quote_cell-IsReadable = record { is_text = (tt, tt); reads = refl }

digit_cell-IsReadable : IsReadable digit_cell
unfolding is_needle
digit_cell-IsReadable = record { is_text = ((refl, tt), (λ e. absurd (omega arith))); reads = refl }

-- A type whose `to_buf` writes to its buffer: the text and a zero fill the two bytes.
abbrev converted_cell : Cell ascii_safe Bytes
converted_cell = record {
  text = quoted (in_buffer (0 ∷ [])) (byte backslash ∷ []) 2;
  reader = string_reader;
  value = backslash ∷ [];
}

converted_cell-IsReadable : IsReadable converted_cell
converted_cell-IsReadable = record { is_text = (tt, tt); reads = refl }

composite_round_trip_example :
    (written : Bytes) × (composite_into_buf
        (replicate 30 0)
        (fields (digit_cell ∷ quote_cell ∷ converted_cell ∷ []))
      ≡ ok written)
    × (parse_composite ascii_safe written (readers (digit_cell ∷ quote_cell ∷ converted_cell ∷ []))
        ≡ ok (values (digit_cell ∷ quote_cell ∷ converted_cell ∷ [])))
unfolding composite_size_buffer to_field
composite_round_trip_example =
    composite_round_trip digit_cell quote_cell (converted_cell ∷ []) 2 (replicate 30 0) ascii_known
      (digit_cell-IsReadable, (quote_cell-IsReadable, (converted_cell-IsReadable, tt)))
      (omega arith, ((omega arith, tt), ((omega arith, (omega arith, omega arith)), tt)))
      (omega arith) (omega arith)

-- Ten strings, and a text that is converted into the end of a buffer whose size is 61 bytes: it comes
-- over the last of the strings, its comma and the quote behind it.
abbrev eleven_fields : List Field
eleven_fields =
    replicate 10 (quoted_field in_value (quote ∷ []) 1)
    ++ quoted_field (in_buffer (replicate 11 0)) (codes "{1}") 14 ∷ []

size_by_estimate : composite_size_buffer eleven_fields ≡ 61
unfolding composite_size_buffer
size_by_estimate = refl

overwritten :
    (composite_into_buf (replicate 61 0) eleven_fields >>= λ (t : Bytes). ok (drop 46 t))
    ≡ ok (quote ∷ (codes "{1}" ++ 0 ∷ 0 ∷ (codes "{1}" ++ quote ∷ b')' ∷ [])))
unfolding composite_into_buf write_all
overwritten = refl

composite_size_buffer_too_small_example :
    composite_into_buf (replicate 8 0) (two_strings (quote ∷ []) (backslash ∷ []))
    ≡ err out_of_bounds
unfolding composite_size_buffer
composite_size_buffer_too_small_example =
    composite_size_buffer_too_small (quote ∷ []) (backslash ∷ []) (replicate 8 0) (inl refl, tt)
      (inr refl, tt) (omega arith) (omega arith) (omega arith) refl

single_field_fails_example :
    (written : Bytes) × (composite_into_buf (replicate 20 0) (fields (digit_cell ∷ []))
      ≡ ok written)
    × (parse_composite ascii_safe written (readers (digit_cell ∷ [])) ≡ err conversion_error)
unfolding composite_size_buffer to_field
single_field_fails_example =
    single_field_fails digit_cell 0 (replicate 20 0) ascii_known digit_cell-IsReadable (omega arith)
      (omega arith) (omega arith)

-- The second byte of this character of Shift-JIS is the code of a backslash.
abbrev so : Glyph sjis
so = jis_pair 0x83 backslash (inl (omega arith))

split_character_fails_example :
    scan_double_quoted_string sjis
      (quote ∷ (escape_bytes (bytes ([] ++ so ∷ [])) ++ quote ∷ b')' ∷ []))
      0
    ≡ err argument_error
unfolding is_needle
split_character_fails_example =
    split_character_fails [] (jis_ascii b')' (omega arith) ∷ []) so [] sjis_known tt tt refl refl
      (refl, tt) (omega arith)
