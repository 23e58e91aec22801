-- ===== src/Array/Tests.antt =====
-- The properties of this component, at concrete inputs.
use libpqxx.Prelude.{
  ℕ, ◌<◌, Option, some, get_elem?, ◌≡◌, ◌≢◌, ◌≤◌, ◌+◌, ◌++◌, inl, refl, arith, Bytes, List, [], ◌∷◌,
  ok, length,
}
use libpqxx.Encoding.Scanner.{sjis, unknown}
use libpqxx.Encoding.Text.{Glyph, jis_pair, jis_ascii, bytes}
use libpqxx.Encoding.Finder.{is_needle}
use libpqxx.Array.Quoted.{quote, scan_double_quoted_string, parse_double_quoted_string}
use libpqxx.Array.Escaped.{escaped, scan_double_quoted_string-escaped}
use libpqxx.Array.Unescaping.{parse_double_quoted_string-escaped}
use libpqxx.Array.Writer.{array_to_buf, size_buffers, separator}
use libpqxx.Prelude.Int.{pos}
use libpqxx.Array.Extents.{Array, init_factors, at}
use libpqxx.Array.RowMajor.{InBounds, row_major}
use libpqxx.Array.Indexing.{IsConsistent, at-row_major}
use libpqxx.Array.Container.{make_array}
use libpqxx.Array.OneDimension.{array_container_round_trip}
use libpqxx.Composite.Reader.{FieldReader}
use libpqxx.Array.Parser.{Parses, parse_array_step, done}
use libpqxx.Array.Items.{
  Items, null, row, safe, text, none, more, to_elements, render, events, AreBudgeted,
}
use libpqxx.Array.WritingAll.{array_to_buf-render}
use libpqxx.Array.RoundTrip.{array_round_trip}

-- A character of Shift-JIS whose second byte is the code of a backslash, and a quote.
abbrev two : List (Glyph sjis)
two = jis_pair 0x83 0x5c (inl (omega arith)) ∷ jis_ascii quote (omega arith) ∷ []

sjis_known : sjis ≢ unknown
sjis_known e = cc

-- A null, a text, and a row with a word.
abbrev nested : Items sjis
nested =
    more null
      (more (text two 3) (more (row (more (safe (jis_ascii b'a' (omega arith) ∷ []) 1) none)) none))

nested-AreBudgeted : AreBudgeted nested
unfolding is_needle
nested-AreBudgeted = (
  tt,
  (
    omega arith,
    (
      (
        ((
          omega arith,
          (
            (refl, tt),
            (λ e. absurd (omega arith)),
            (λ e. absurd (omega arith)),
            (λ e. absurd (omega arith)),
            (λ e. absurd (omega arith)),
            (λ e. cc),
          ),
        )),
        tt,
      ),
      tt,
    ),
  ),
)

scan_double_quoted_string-escaped_example :
    scan_double_quoted_string sjis ([] ++ quote ∷ (escaped two ++ quote ∷ [])) 0
    ≡ ok (0 + (length (escaped two) + 2))
scan_double_quoted_string-escaped_example =
    scan_double_quoted_string-escaped two [] [] sjis_known tt

parse_double_quoted_string-escaped_example :
    parse_double_quoted_string sjis (quote ∷ (escaped two ++ quote ∷ [])) 0 ≡ ok (bytes two)
parse_double_quoted_string-escaped_example = parse_double_quoted_string-escaped two [] sjis_known

array_to_buf-render_example :
    (array_to_buf sjis 100 (to_elements nested) ≡ ok (render (row nested)))
    × (length (render (row nested)) ≤ 100)
unfolding to_elements size_buffers
array_to_buf-render_example =
    array_to_buf-render nested 100 sjis_known nested-AreBudgeted (omega arith)

array_round_trip_example :
    (written : Bytes) × (array_to_buf sjis 100 (to_elements nested) ≡ ok written)
    × Parses sjis written 0 (events (row nested)) (length written)
    × (parse_array_step sjis written (length written) ≡ ok ((done, []), length written))
unfolding to_elements size_buffers
array_round_trip_example = array_round_trip nested 100 sjis_known nested-AreBudgeted (omega arith)

-- An array of two rows with three numbers each.
abbrev two_by_three : Array ℕ
two_by_three = record {
  elts = 10 ∷ 11 ∷ 12 ∷ 20 ∷ 21 ∷ 22 ∷ [];
  extents = 2 ∷ 3 ∷ [];
  factors = 3 ∷ [];
}

two_by_three-IsConsistent : IsConsistent two_by_three
unfolding init_factors
two_by_three-IsConsistent = record {
  before = 0 ∷ [];
  dimensions = refl;
  computed = refl;
  filled = refl;
}

at-row_major_example :
    (x : ℕ) × (at two_by_three (pos 1 ∷ pos 2 ∷ []) ≡ ok x)
    × (get_elem? two_by_three.elts 5 ≡ some x)
    × ((other : List ℕ)
        → InBounds (2 ∷ 3 ∷ []) other
        → row_major (2 ∷ 3 ∷ []) other ≡ 5
        → other ≡ 1 ∷ 2 ∷ [])
at-row_major_example =
    at-row_major two_by_three (1 ∷ 2 ∷ []) two_by_three-IsConsistent
      (omega arith, (omega arith, tt))

-- Texts of Shift-JIS as they are, a null as no text.
abbrev optional_text : FieldReader (Option Bytes)
optional_text = record { from_string = λ t. ok (some t); null = some Option.none }

abbrev row_of_two : Items sjis
row_of_two = more null (more (text two 3) none)

array_container_round_trip_example :
    (written : Bytes) × (a : Array (Option Bytes)) × (array_to_buf sjis 50 (to_elements row_of_two)
      ≡ ok written)
    × (make_array separator sjis optional_text 1 (0 ∷ []) [] written ≡ ok a)
    × (a.elts ≡ Option.none ∷ some (bytes two) ∷ [])
    × (a.extents ≡ 2 ∷ [])
    × ((i : ℕ)
        → i < 2
        → (v : Option Bytes) × (at a (pos i ∷ []) ≡ ok v)
          × (get_elem? (Option.none ∷ some (bytes two) ∷ []) i ≡ some v))
unfolding to_elements size_buffers
array_container_round_trip_example =
    array_container_round_trip optional_text row_of_two (Option.none ∷ some (bytes two) ∷ []) 50 0
      sjis_known (tt, (omega arith, tt)) (refl, (refl, tt)) (omega arith)
