-- ===== src/Composite/RoundTrip.antt =====
-- `parse_composite` reads back what `composite_into_buf` writes, for two or more fields.
use libpqxx.Prelude.{
  ℕ, ◌+◌, ◌-◌, ◌≤◌, ◌≡◌, ◌≢◌, true, false, Bytes, byte_at, byte_at-length, List, [], ◌∷◌, ◌++◌,
  length, length-append, ◌==◌, arith, ok,
}
use libpqxx.Encoding.Scanner.{EncodingGroup, unknown}
use libpqxx.Composite.Reader.{open_parenthesis, close_parenthesis, parse_composite}
use libpqxx.Composite.Writer.{composite_into_buf, composite_size_buffer}
use libpqxx.Composite.Writing.{composite_into_buf-fields}
use libpqxx.Composite.Cells.{
  Cell, AreReadable, readers, values, fields, cells_text, parse_fields-text, listed_init, AreSized,
  room, length-readers,
}

-- Two or more fields, written to a buffer with room for them and parsed with their readers in the
-- same known encoding group, give the fields' values. Each unquoted field is a text without field
-- ends, no byte inside a multibyte character of a quoted field looks like a quote or a backslash, and
-- each reader reads its field's text. The room is that of `composite_size_buffer`, and two bytes more
-- than the fields' own: for an unquoted field its `size_buffer`, which is not less than its text, for a
-- quoted one every byte escaped and the quotes, and a comma each. The `size_buffer` of a quoted field is
-- less than the buffer; where its text is converted into the end of the buffer, the buffer has room for
-- the longest of these conversions, `scratch`, behind the room for the fields.
pub composite_round_trip :
    {enc : EncodingGroup} {A : Type 0} (c d : Cell enc A) (cs : List (Cell enc A)) (scratch : ℕ)
    (buffer : Bytes)
    → enc ≢ unknown
    → AreReadable (c ∷ d ∷ cs)
    → AreSized (c ∷ d ∷ cs) (length buffer) scratch
    → room (c ∷ d ∷ cs) + scratch + 2 ≤ length buffer
    → composite_size_buffer (fields (c ∷ d ∷ cs)) ≤ length buffer
    → (written : Bytes) × (composite_into_buf buffer (fields (c ∷ d ∷ cs)) ≡ ok written)
      × (parse_composite enc written (readers (c ∷ d ∷ cs)) ≡ ok (values (c ∷ d ∷ cs)))
unfolding parse_composite
composite_round_trip {enc} c d cs scratch buffer known r s roomy enough =
    let written = open_parenthesis ∷ cells_text c (d ∷ cs) in
    let (init, whole, closed) = listed_init c (d ∷ cs) in
    let parsed = parse_fields-text c (d ∷ cs) (open_parenthesis ∷ []) 0 known r in
    let last : length (readers (c ∷ d ∷ cs)) - 1 ≡ 0 + length (d ∷ cs) =
      omega (arith, length-readers cs) in
    let whole_size : (length written == length written) ≡ true = ground arith in
    let last_byte : byte_at written (length written - 1) ≡ close_parenthesis =
      let at : length (open_parenthesis ∷ (init ++ close_parenthesis ∷ [])) - 1
          ≡ length (open_parenthesis ∷ init) =
        omega (arith, length-append {0} init (close_parenthesis ∷ [])) in
      rw closed (rw at (byte_at-length (open_parenthesis ∷ init) close_parenthesis [])) in
    let some_text : (length written == 0) ≡ false = ground arith in
    (
      written,
      composite_into_buf-fields c d cs scratch buffer r s roomy enough,
      rw (last, parsed, some_text, whole_size, last_byte),
    )
