-- ===== src/Stream/Parsing.antt =====
-- What a round of the loop of `parse_line` does at the end of a line, a tab, an escape and a null.
use libpqxx.Prelude.{
  ℕ, suc, ◌+◌, ◌-◌, ◌≡◌, ◌≢◌, subst, true, false, Bytes, byte_at, byte_at-length, byte_at-append,
  substr, substr-append, drop-append, List, [], ◌∷◌, ◌++◌, append-nil, append_assoc, length,
  length-append, ltb, leb, ◌==◌, arith, Option, none, some, ok, lt→ltb,
}
use libpqxx.Encoding.Scanner.{EncodingGroup, unknown}
use libpqxx.Encoding.Finder.{find_ascii_char}
use libpqxx.Encoding.Text.{Glyph, bytes}
use libpqxx.Encoding.Search.{IsClean, find_ascii_char-skip}
use libpqxx.Array.Quoted.{backslash}
use libpqxx.Stream.Writer.{tab}
use libpqxx.Stream.Reader.{line_stops, unescape_char, end_field, at_begin, parse_line_loop}
use libpqxx.Stream.Lines.{line_stops-IsAscii, StopsAt-tab, StopsAt-escape}

-- The end of the line ends the last field.
pub parse_line_loop-end :
    {enc : EncodingGroup} (fuel : ℕ) (cs : List (Glyph enc)) (pre row : Bytes) (at : Option ℕ)
    (fields : List (Option Bytes))
    → enc ≢ unknown
    → IsClean line_stops cs
    → parse_line_loop
        (suc fuel)
        (find_ascii_char enc line_stops)
        (pre ++ bytes cs)
        (length pre)
        row
        at
        fields
      ≡ ok (end_field fields (row ++ bytes cs) at)
unfolding parse_line_loop
parse_line_loop-end fuel [] pre row at fields known clean =
    let past : ltb (length pre) (length pre) ≡ false = ground arith in
    rw (append-nil pre, append-nil row, past)
parse_line_loop-end {enc} fuel (c ∷ cs) pre row at fields known clean =
    let text = bytes (c ∷ cs) in
    let q = pre ++ text in
    let size : length q ≡ length pre + length text = length-append pre text in
    let inside : ltb (length pre) (length q) ≡ true = lt→ltb _ _ (omega arith) in
    let last : leb (length q) (length q) ≡ true = ground arith in
    let span : length q - length pre ≡ length text = omega arith in
    let found : find_ascii_char enc line_stops q (length pre) ≡ ok (length q) =
      subst (λ (t : Bytes). find_ascii_char enc line_stops t (length pre) ≡ ok (length q))
        (append-nil q)
        (find_ascii_char-skip line_stops (c ∷ cs) pre [] known line_stops-IsAscii clean tt) in
    let piece : substr q (length pre) (length text) ≡ text =
      subst (λ (t : Bytes). substr t (length pre) (length text) ≡ text) (append-nil q)
        (substr-append pre text []) in
    rw (inside, found, last, span, piece)

-- A tab ends a field, and the next one begins.
pub parse_line_loop-tab :
    {enc : EncodingGroup} (fuel : ℕ) (cs : List (Glyph enc)) (pre rest row : Bytes) (at : Option ℕ)
    (fields : List (Option Bytes))
    → enc ≢ unknown
    → IsClean line_stops cs
    → parse_line_loop
        (suc fuel)
        (find_ascii_char enc line_stops)
        ((pre ++ bytes cs) ++ tab ∷ rest)
        (length pre)
        row
        at
        fields
      ≡ parse_line_loop fuel
          (find_ascii_char enc line_stops)
          ((pre ++ bytes cs) ++ tab ∷ rest)
          (length (pre ++ bytes cs) + 1)
          (row ++ bytes cs)
          (some (length (row ++ bytes cs)))
          (end_field fields (row ++ bytes cs) at)
unfolding parse_line_loop
parse_line_loop-tab {enc} fuel cs pre rest row at fields known clean =
    let q = pre ++ bytes cs in
    let input = q ++ tab ∷ rest in
    let size : length input ≡ length q + suc (length rest) = length-append q (tab ∷ rest) in
    let size' : length q ≡ length pre + length (bytes cs) = length-append pre (bytes cs) in
    let inside : ltb (length pre) (length input) ≡ true = lt→ltb _ _ (omega arith) in
    let more : leb (length input) (length q) ≡ false = ground arith in
    let span : length q - length pre ≡ length (bytes cs) = omega arith in
    let found =
      find_ascii_char-skip line_stops cs pre (tab ∷ rest) known line_stops-IsAscii clean
        (StopsAt-tab rest) in
    rw (
      inside,
      found,
      more,
      span,
      substr-append pre (bytes cs) (tab ∷ rest),
      byte_at-length q tab rest,
    )

-- An escaped character is written to the row.
pub parse_line_loop-escape :
    {enc : EncodingGroup} (fuel : ℕ) (cs : List (Glyph enc)) (c : ℕ) (pre rest row : Bytes)
    (at : Option ℕ) (fields : List (Option Bytes))
    → enc ≢ unknown
    → IsClean line_stops cs
    → (c == b'N') ≡ false
    → parse_line_loop
        (suc fuel)
        (find_ascii_char enc line_stops)
        ((pre ++ bytes cs) ++ backslash ∷ c ∷ rest)
        (length pre)
        row
        at
        fields
      ≡ parse_line_loop fuel
          (find_ascii_char enc line_stops)
          ((pre ++ bytes cs) ++ backslash ∷ c ∷ rest)
          (length (pre ++ bytes cs) + 2)
          ((row ++ bytes cs) ++ unescape_char c ∷ [])
          at
          fields
unfolding parse_line_loop
parse_line_loop-escape {enc} fuel cs c pre rest row at fields known clean not_null =
    let q = pre ++ bytes cs in
    let tail = backslash ∷ c ∷ rest in
    let input = q ++ tail in
    let size : length input ≡ length q + suc (suc (length rest)) = length-append q tail in
    let size' : length q ≡ length pre + length (bytes cs) = length-append pre (bytes cs) in
    let inside : ltb (length pre) (length input) ≡ true = lt→ltb _ _ (omega arith) in
    let more : leb (length input) (length q) ≡ false = ground arith in
    let more' : leb (length input) (length q + 1) ≡ false = ground arith in
    let span : length q - length pre ≡ length (bytes cs) = omega arith in
    let found =
      find_ascii_char-skip line_stops cs pre tail known line_stops-IsAscii clean
        (StopsAt-escape (c ∷ rest)) in
    let next : byte_at input (length q + 1) ≡ c = byte_at-append q tail 1 in
    rw (
      inside,
      found,
      more,
      more',
      span,
      substr-append pre (bytes cs) tail,
      byte_at-length q backslash (c ∷ rest),
      next,
      not_null,
    )

-- A null, at the beginning of a field.
pub parse_line_loop-null :
    (enc : EncodingGroup) (fuel : ℕ) (pre rest row : Bytes) (fields : List (Option Bytes))
    → enc ≢ unknown
    → parse_line_loop
        (suc fuel)
        (find_ascii_char enc line_stops)
        (pre ++ backslash ∷ b'N' ∷ rest)
        (length pre)
        row
        (some (length row))
        fields
      ≡ parse_line_loop fuel
          (find_ascii_char enc line_stops)
          (pre ++ backslash ∷ b'N' ∷ rest)
          (length pre + 2)
          (row ++ b'N' ∷ [])
          none
          fields
unfolding parse_line_loop at_begin unescape_char
parse_line_loop-null enc fuel pre rest row fields known =
    let tail = backslash ∷ b'N' ∷ rest in
    let input = pre ++ tail in
    let size : length input ≡ length pre + suc (suc (length rest)) = length-append pre tail in
    let inside : ltb (length pre) (length input) ≡ true = lt→ltb _ _ (omega arith) in
    let more : leb (length input) (length pre) ≡ false = ground arith in
    let more' : leb (length input) (length pre + 1) ≡ false = ground arith in
    let span : length pre - length pre ≡ 0 = omega arith in
    let found : find_ascii_char enc line_stops input (length pre) ≡ ok (length pre) =
      subst (λ (q : Bytes). find_ascii_char enc line_stops (q ++ tail) (length pre) ≡ ok (length q))
        (append-nil pre)
        (find_ascii_char-skip {enc = enc} line_stops [] pre tail known line_stops-IsAscii tt
          (StopsAt-escape (b'N' ∷ rest))) in
    let next : byte_at input (length pre + 1) ≡ b'N' = byte_at-append pre tail 1 in
    let fresh : (length row == length row) ≡ true = ground arith in
    rw (
      inside,
      found,
      more,
      more',
      span,
      byte_at-length pre backslash (b'N' ∷ rest),
      next,
      append-nil row,
      fresh,
    )

pub end_field-begin :
    (fields : List (Option Bytes)) (row text : Bytes)
    → end_field fields (row ++ text) (some (length row)) ≡ fields ++ some text ∷ []
unfolding end_field
end_field-begin fields row text = rw (drop-append row text)

pub end_field-null :
    (fields : List (Option Bytes)) (row : Bytes) (others : List (Option Bytes))
    → end_field fields row none ++ others ≡ fields ++ none ∷ others
unfolding end_field
end_field-null fields row others = append_assoc fields (none ∷ []) others
