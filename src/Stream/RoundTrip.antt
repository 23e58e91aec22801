-- ===== src/Stream/RoundTrip.antt =====
-- `parse_line` reads the line that `write_row` wrote.
use libpqxx.Prelude.{
  ℕ, zero, suc, ◌+◌, ◌<◌, ◌≡◌, ◌≢◌, inl, inr, ap, ◌∙◌, Bytes, regroup_one, regroup_first, List, [],
  ◌∷◌, ◌++◌, append-nil, append_assoc, length, length-append, arith, Option, none, some, ok,
  Bool-cases,
}
use libpqxx.Encoding.Scanner.{EncodingGroup, unknown}
use libpqxx.Encoding.Finder.{is_needle, find_ascii_char}
use libpqxx.Encoding.Text.{Glyph, lead, trail, bytes}
use libpqxx.Encoding.Search.{IsClean, get_char_finder-known}
use libpqxx.Array.Quoted.{backslash}
use libpqxx.Array.Escaped.{IsClean-append, bytes-snoc}
use libpqxx.Stream.Writer.{Value, tab, stops, write_row}
use libpqxx.Stream.Reader.{line_stops, unescape_char, end_field, parse_line_loop, parse_line}
use libpqxx.Stream.Lines.{
  AreValues, letter, copied, Row, column, columns, texts_of, unescape_char-letter, letter-not_null,
  line_stops-stops, trail_of_stop,
}
use libpqxx.Stream.Writing.{write_row-columns}
use libpqxx.Stream.Parsing.{
  parse_line_loop-end, parse_line_loop-tab, parse_line_loop-escape, parse_line_loop-null,
  end_field-begin, end_field-null,
}

parse_line_loop-columns :
    {enc : EncodingGroup} (fuel : ℕ) (cs gs : List (Glyph enc)) (fs : Row enc) (pre row : Bytes)
    (at : Option ℕ) (fields : List (Option Bytes))
    → enc ≢ unknown
    → IsClean line_stops cs
    → length (copied gs ++ columns fs) < fuel
    → parse_line_loop fuel
        (find_ascii_char enc line_stops)
        ((pre ++ bytes cs) ++ (copied gs ++ columns fs))
        (length pre)
        row
        at
        fields
      ≡ ok (end_field fields (row ++ (bytes cs ++ bytes gs)) at ++ texts_of fs)
parse_line_loop-columns zero cs gs fs pre row at fields known clean fits = absurd (omega arith)
parse_line_loop-columns (suc fuel) cs [] [] pre row at fields known clean fits =
    rw
      (
        append-nil (pre ++ bytes cs),
        append-nil (bytes cs),
        append-nil (end_field fields (row ++ bytes cs) at),
      )
      (parse_line_loop-end fuel cs pre row at fields known clean)
parse_line_loop-columns {enc} (suc fuel) cs [] (some gs ∷ fs) pre row at fields known clean fits =
    let q = pre ++ bytes cs in
    let pre' = q ++ tab ∷ [] in
    let size : length pre' ≡ length q + 1 = length-append q (tab ∷ []) in
    let row' = row ++ bytes cs in
    let fields' = end_field fields row' at in
    rw (append-nil (bytes cs)) (
      parse_line_loop-tab fuel cs pre (copied gs ++ columns fs) row at fields known clean
      ∙ rw (regroup_one q tab (copied gs ++ columns fs), ← size)
          (parse_line_loop-columns fuel [] gs fs pre' row' (some (length row')) fields' known tt
              (omega arith)
            ∙ rw (end_field-begin fields' row' (bytes gs))
                (ap ok (append_assoc fields' (some (bytes gs) ∷ []) (texts_of fs)))))
parse_line_loop-columns {enc} (suc zero) cs [] (none ∷ fs) pre row at fields known clean fits =
    absurd (omega arith)
parse_line_loop-columns {enc} (suc (suc fuel)) cs [] (none ∷ fs) pre row at fields known clean
      fits =
    let q = pre ++ bytes cs in
    let pre' = q ++ tab ∷ [] in
    let size : length pre' ≡ length q + 1 = length-append q (tab ∷ []) in
    let pre'' = pre' ++ backslash ∷ b'N' ∷ [] in
    let size' : length pre'' ≡ length pre' + 2 = length-append pre' (backslash ∷ b'N' ∷ []) in
    let row' = row ++ bytes cs in
    let fields' = end_field fields row' at in
    let shift : q ++ tab ∷ backslash ∷ b'N' ∷ columns fs ≡ pre' ++ backslash ∷ b'N' ∷ columns fs =
      simp append_assoc in
    let shift' : pre' ++ backslash ∷ b'N' ∷ columns fs ≡ (pre'' ++ []) ++ ([] ++ columns fs) =
      simp (append_assoc, append-nil) in
    rw (append-nil (bytes cs)) (
      parse_line_loop-tab (suc fuel) cs pre (backslash ∷ b'N' ∷ columns fs) row at fields known
        clean
      ∙ rw (shift, ← size)
          (parse_line_loop-null enc fuel pre' (columns fs) row' fields' known
            ∙ rw (shift', ← size')
                (parse_line_loop-columns fuel [] [] fs pre'' (row' ++ b'N' ∷ []) none fields' known
                    tt (omega arith)
                  ∙ ap ok (end_field-null fields' ((row' ++ b'N' ∷ []) ++ []) (texts_of fs)))))
parse_line_loop-columns {enc} (suc fuel) cs (g ∷ gs) fs pre row at fields known clean fits =
    elim (Bool-cases (is_needle stops (lead g))) [
      | inl special ↦
          let q = pre ++ bytes cs in
          let c = letter (lead g) in
          let pre' = q ++ backslash ∷ c ∷ [] in
          let size : length pre' ≡ length q + 2 = length-append q (backslash ∷ c ∷ []) in
          let tail = copied gs ++ columns fs in
          let row' = (row ++ bytes cs) ++ lead g ∷ [] in
          let joined : row' ++ bytes gs ≡ row ++ (bytes cs ++ bytes (g ∷ gs)) =
            rw (trail_of_stop g special) (simp append_assoc) in
          let fits' : suc (suc (length tail)) < suc fuel = rw special at fits in
          rw special (
            parse_line_loop-escape fuel cs c pre tail row at fields known clean
              (letter-not_null (lead g) special)
            ∙ rw
                (
                  regroup_first q (backslash ∷ c ∷ []) (copied gs) (columns fs),
                  ← size,
                  unescape_char-letter (lead g) special,
                )
                (parse_line_loop-columns fuel [] gs fs pre' row' at fields known tt (omega arith)
                  ∙ ap (λ (t : Bytes). ok (end_field fields t at ++ texts_of fs)) joined))
      | inr plain ↦
          let shift : (pre ++ bytes cs) ++ (((lead g ∷ trail g) ++ copied gs) ++ columns fs)
              ≡ (pre ++ (bytes cs ++ (lead g ∷ trail g))) ++ (copied gs ++ columns fs) =
            simp append_assoc in
          let joined : row ++ ((bytes cs ++ (lead g ∷ trail g)) ++ bytes gs)
              ≡ row ++ (bytes cs ++ ((lead g ∷ trail g) ++ bytes gs)) =
            simp append_assoc in
          let fits' : length (((lead g ∷ trail g) ++ copied gs) ++ columns fs) < suc fuel =
            rw plain at fits in
          let count : length (((lead g ∷ trail g) ++ copied gs) ++ columns fs)
              ≡ suc (length (trail g)) + length (copied gs ++ columns fs) =
            omega (
              arith,
              length-append {0} ((lead g ∷ trail g) ++ copied gs) (columns fs),
              length-append {0} (trail g) (copied gs),
              length-append {0} (copied gs) (columns fs),
            ) in
          rw (plain, shift, ← joined, ← bytes-snoc cs g)
            (parse_line_loop-columns (suc fuel) (cs ++ g ∷ []) gs fs pre row at fields known
              (IsClean-append line_stops cs g clean (line_stops-stops (lead g) plain))
              (omega arith))
    ]

parse_line-columns :
    {enc : EncodingGroup} (f : Option (List (Glyph enc))) (fs : Row enc)
    → enc ≢ unknown
    → parse_line enc (column f ++ columns fs) ≡ ok (texts_of (f ∷ fs))
unfolding parse_line end_field unescape_char
parse_line-columns {enc} (some gs) fs known = rw (get_char_finder-known enc line_stops known) (
    parse_line_loop-columns (suc (length (copied gs ++ columns fs))) [] gs fs [] [] (some 0) []
      known tt (omega arith))
parse_line-columns {enc} none fs known =
    let line = backslash ∷ b'N' ∷ columns fs in
    rw (get_char_finder-known enc line_stops known) (
      parse_line_loop-null enc (length line) [] (columns fs) [] [] known
      ∙ parse_line_loop-columns (length line) [] [] fs (backslash ∷ b'N' ∷ []) (b'N' ∷ []) none []
          known tt (omega arith))

-- A row of at least one column that `stream_to` writes in any known encoding comes back from
-- `stream_from` as it was, and nothing of it stays in the writer's buffer. A column is a null, a text, or
-- an arithmetic value, whose text has no character that is escaped and is shorter than its
-- `size_buffer`.
pub stream_round_trip :
    {enc : EncodingGroup} (v : Option Value) (vs : List (Option Value))
    (f : Option (List (Glyph enc))) (fs : Row enc)
    → enc ≢ unknown
    → AreValues (v ∷ vs) (f ∷ fs)
    → (line : Bytes) × (write_row enc (v ∷ vs) ≡ ok (line, []))
      × (parse_line enc line ≡ ok (texts_of (f ∷ fs)))
stream_round_trip v vs f fs known same =
    (column f ++ columns fs, write_row-columns v vs f fs known same, parse_line-columns f fs known)
