-- ===== src/Range/Text.antt =====
-- `string_traits<range<TYPE>>` (include/pqxx/range.hxx): `to_buf`, `from_string` and `size_buffer`, and
-- the `into_buf` (include/pqxx/strconv.hxx) that `to_buf` calls for each bound.
use libpqxx.Prelude.{
  ℕ, ◌+◌, ◌-◌, Bool, not, ◌&&◌, ◌||◌, Bytes, codes, byte_at, [], ◌∷◌, ◌++◌, length, ltb, leb, ◌==◌,
  if◌then◌else◌, Option, none, some, Result, ok, err, conversion_error, conversion_overrun,
  out_of_bounds, ◌>>=◌,
}
use libpqxx.Encoding.Scanner.{ascii_safe}
use libpqxx.Composite.Reader.{
  FieldReader, comma, open_parenthesis, close_parenthesis, close_bracket,
  specialize_parse_composite_field,
}
use libpqxx.Range.Bounds.{
  Element, Bound, no_bound, is_inclusive, value, inclusive_bound, exclusive_bound,
}
use libpqxx.Range.Ranges.{Range, make_range, empty_range, empty}

abbrev pub open_bracket : ℕ
open_bracket = b'['

abbrev pub s_empty : Bytes
s_empty = codes "empty"

-- `string_traits<TYPE>`; `to_buf` has the size of its buffer and returns the text.
pub record ElementText {ℓ} (A : Type ℓ) : Type ℓ where
  pub to_buf : ℕ → A → Result Bytes
  pub from_string : Bytes → Result A
  pub size_buffer : A → ℕ

module _ {ℓ} {A : Type ℓ} (s : ElementText A) where
  unfoldable pub into_buf : ℕ → A → Result Bytes
  into_buf space v =
      s.to_buf space v >>= λ out. if ltb space (length out) then err conversion_overrun else ok out

  -- The text of a bound at the start of the rest of the buffer, nothing without a limit.
  unfoldable pub bound_into_buf : ℕ → Option A → Result Bytes
  unfolding into_buf
  bound_into_buf space none = ok []
  bound_into_buf space (some v) = into_buf space v

  -- The branch for a range that is not empty. `tmp[0] = ','` does not look whether there is room.
  unfoldable pub limits_to_buf : ℕ → Range A → Result Bytes
  unfolding bound_into_buf value is_inclusive
  limits_to_buf space r = bound_into_buf (space - 1) (value r.lower) >>= λ lower.
      let behind_lower = space - 1 - length lower in
      if behind_lower == 0
      then err out_of_bounds
      else (bound_into_buf (behind_lower - 1) (value r.upper) >>= λ upper.
          if ltb (behind_lower - 1 - length upper) 2
          then err conversion_overrun
          else ok (
              (if is_inclusive r.lower then open_bracket else open_parenthesis)
              ∷ (lower
                  ++ comma
                    ∷ (upper
                        ++ (if is_inclusive r.upper then close_bracket else close_parenthesis)
                          ∷ []))))

  -- What optional values of the type are read with.
  unfoldable pub optional_reader : FieldReader (Option A)
  optional_reader = record {
    from_string = λ text. s.from_string text >>= λ v. ok (some v);
    null = some none;
  }

  unfoldable pub limit_size : Option A → ℕ
  limit_size none = 0
  limit_size (some v) = s.size_buffer v - 1

-- `text` is "empty", in upper or lower case.
unfoldable pub says_empty : Bytes → Bool
says_empty text =
    length text == length s_empty
    && ((byte_at text 1 == b'm' || byte_at text 1 == b'M')
        && ((byte_at text 2 == b'p' || byte_at text 2 == b'P')
            && ((byte_at text 3 == b't' || byte_at text 3 == b'T')
                && (byte_at text 4 == b'y' || byte_at text 4 == b'Y'))))

module _ {ℓ} {A : Type ℓ} ⦃t : Element A⦄ where
  -- A bound that was read, with whether its bracket is square.
  unfoldable pub read_bound : Bool → Option A → Result (Bound A)
  unfolding inclusive_bound exclusive_bound
  read_bound square none = ok no_bound
  read_bound square (some v) = if square then inclusive_bound v else exclusive_bound v

module _ {ℓ} {A : Type ℓ} ⦃t : Element A⦄ (s : ElementText A) where
  unfoldable pub range_to_buf : ℕ → Range A → Result Bytes
  unfolding empty limits_to_buf
  range_to_buf space r =
      if empty r
      then (if leb space (length s_empty) then err conversion_overrun else ok s_empty)
      else if ltb space 4
      then err conversion_overrun
      else limits_to_buf s space r

  unfoldable pub range_size_buffer : Range A → ℕ
  unfolding empty limit_size value
  range_size_buffer r =
      let lsz = limit_size s (value r.lower) in
      let usz = limit_size s (value r.upper) in
      if empty r then length s_empty + 1 else 1 + lsz + 1 + usz + 2

  -- Behind the opening bracket.
  unfoldable pub read_limits : Bytes → Result (Range A)
  unfolding optional_reader read_bound make_range
  read_limits text = specialize_parse_composite_field ascii_safe >>= λ field_parser.
      field_parser (optional_reader s) 0 text 1 1 >>= λ (lower, index, pos).
      field_parser (optional_reader s) index text pos 1 >>= λ (upper, index', end).
      if not (end == length text)
      then err conversion_error
      else (let closing = byte_at text (end - 1) in
          if not (closing == close_parenthesis) && not (closing == close_bracket)
          then err conversion_error
          else (read_bound (byte_at text 0 == open_bracket) lower >>= λ lower_bound.
              read_bound (closing == close_bracket) upper >>= λ upper_bound.
              make_range lower_bound upper_bound))

  unfoldable pub range_from_string : Bytes → Result (Range A)
  unfolding says_empty empty_range read_limits
  range_from_string text =
      let c = byte_at text 0 in
      if ltb (length text) 3
      then err conversion_error
      else if c == open_bracket || c == open_parenthesis
      then read_limits text
      else if c == b'e' || c == b'E'
      then (if says_empty text then empty_range else err conversion_error)
      else err conversion_error
