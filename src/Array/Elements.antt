-- ===== src/Array/Elements.antt =====
-- An element that `pqxx::array` reads, by what `array_parser` finds at the same place.
use libpqxx.Prelude.{
  ℕ, ◌-◌, ◌≡◌, ◌≢◌, inl, inr, Bool-cases, Result-cases, Bytes, byte_at, take, substr, drop-take,
  bytes_eq, ◌==◌, arith, false, Result, ok, err, ◌>>=◌, failure,
}
use libpqxx.Encoding.Scanner.{EncodingGroup}
use libpqxx.Array.Quoted.{
  quote, scan_double_quoted_string, parse_double_quoted_string, scan_unquoted_string,
  parse_unquoted_string,
}
use libpqxx.Array.Writer.{open_brace, close_brace, separator, s_null}
use libpqxx.Array.Parser.{
  Event, row_start, row_end, null_value, string_value, done, unquoted_stops, quoted_event,
  unquoted_event, find_event,
}
use libpqxx.Array.Container.{null_or_throw, read_quoted, read_unquoted, read_element}
use libpqxx.Composite.Reader.{FieldReader}

module _ {ℓ} {A : Type ℓ} where
  -- The value of what `array_parser` found.
  abbrev pub event_value : FieldReader A → Event → Result A
  event_value reader (null_value, text) = null_or_throw reader.null
  event_value reader (string_value, text) = reader.from_string text
  event_value reader (row_start, text) = err failure
  event_value reader (row_end, text) = err failure
  event_value reader (done, text) = err failure

  abbrev pub valued : FieldReader A → Event × ℕ → Result (A × ℕ)
  valued reader (e, stop) = event_value reader e >>= λ v. ok (v, stop)

  quoted_element :
      (enc : EncodingGroup) (reader : FieldReader A) (input : Bytes) (here : ℕ)
      → read_quoted enc reader input here ≡ (quoted_event enc input here >>= valued reader)
  unfolding quoted_event read_quoted
  quoted_element enc reader input here =
      elim (Result-cases (scan_double_quoted_string enc input here)) [
        | inr (e, fails) ↦ rw fails
        | inl (end, ends) ↦
            elim (Result-cases (parse_double_quoted_string enc (take end input) here)) [
              | inr (e, fails) ↦ rw (ends, fails)
              | inl (buf, text) ↦ rw (ends, text)
            ]
      ]

  unquoted_element :
      (enc : EncodingGroup) (reader : FieldReader A) (input : Bytes) (here : ℕ)
      → read_unquoted separator enc reader input here
        ≡ (unquoted_event enc input here >>= valued reader)
  unfolding unquoted_event parse_unquoted_string read_unquoted
  unquoted_element enc reader input here =
      elim (Result-cases (scan_unquoted_string enc unquoted_stops input here)) [
        | inr (e, fails) ↦ rw fails
        | inl (end, ends) ↦ elim (Bool-cases (bytes_eq (substr input here (end - here)) s_null)) [
          | inl null ↦ rw (ends, drop-take here end input, null)
          | inr word ↦ rw (ends, drop-take here end input, word)
        ]
      ]

  -- Where an element starts, the container reads the value of what `array_parser` finds.
  pub read_element-event :
      (enc : EncodingGroup) (reader : FieldReader A) (input : Bytes) (here : ℕ)
      → byte_at input here ≢ 0
      → byte_at input here ≢ separator
      → byte_at input here ≢ open_brace
      → byte_at input here ≢ close_brace
      → read_element separator enc reader input here ≡ (find_event enc input here >>= valued reader)
  unfolding read_element find_event
  read_element-event enc reader input here zero' sep' open' close' =
      let c = byte_at input here in
      let not_zero : (c == 0) ≡ false = ground arith in
      let not_comma : (c == b',') ≡ false = ground arith in
      let not_open : (c == open_brace) ≡ false = ground arith in
      let not_close : (c == close_brace) ≡ false = ground arith in
      elim (Bool-cases (c == quote)) [
        | inl e ↦
            rw (not_zero, not_comma, not_open, not_close, e) (quoted_element enc reader input here)
        | inr e ↦
            rw (not_zero, not_comma, not_open, not_close, e)
              (unquoted_element enc reader input here)
      ]
