-- ===== src/Array/RoundTrip.antt =====
-- `array_parser` reads back what `array_into_buf` writes.
use libpqxx.Prelude.{
  ℕ, ◌+◌, ◌≤◌, ◌≡◌, ◌≢◌, inl, inr, refl, ap, ◌∙◌, true, Bytes, List, [], ◌∷◌, ◌++◌, append-nil,
  add-zero, append_assoc, length, length-append, leb, arith, ok,
}
use libpqxx.Encoding.Scanner.{EncodingGroup, unknown}
use libpqxx.Encoding.Finder.{is_needle}
use libpqxx.Encoding.Text.{Glyph, bytes}
use libpqxx.Array.Writer.{open_brace, close_brace, separator, s_null, size_buffers, array_to_buf}
use libpqxx.Array.Parser.{
  row_start, row_end, null_value, string_value, done, parse_array_step, Parses, stop, step,
  Parses-append,
}
use libpqxx.Array.Items.{
  Item, Items, null, row, safe, text, none, more, IsUnquotedSafe, to_elements, IsBudgeted,
  AreBudgeted, render, render_first, render_rest, events, events_row,
}
use libpqxx.Array.Reading.{
  IsTail, separator_length, step_of_event, find_event-open, find_event-close, find_event-quoted,
  find_event-safe, find_event-null,
}
use libpqxx.Array.WritingAll.{array_to_buf-render}

-- The rest of a row starts with a separator or a closing brace.
render_rest-IsTail :
    {enc : EncodingGroup} (xs : Items enc) (tail : Bytes) → IsTail (render_rest xs ++ tail)
unfolding render
render_rest-IsTail none tail = inr refl
render_rest-IsTail (more x xs) tail = inl refl

-- Nothing is skipped behind an opening brace.
safe_no_separator :
    {enc : EncodingGroup} (gs : List (Glyph enc)) (tail : Bytes)
    → IsUnquotedSafe gs
    → separator_length (bytes gs ++ tail) ≡ 0
unfolding is_needle
safe_no_separator [] tail h = absurd h
safe_no_separator (g ∷ gs) tail h = ground (arith, h.0.0)

Item-no_separator :
    {enc : EncodingGroup} (x : Item enc) (tail : Bytes)
    → IsBudgeted x
    → separator_length (render x ++ tail) ≡ 0
unfolding render
Item-no_separator null tail b = refl
Item-no_separator (row xs) tail b = refl
Item-no_separator (safe gs budget) tail b = safe_no_separator gs tail b.1
Item-no_separator (text gs budget) tail b = refl

first_no_separator :
    {enc : EncodingGroup} (xs : Items enc) (tail : Bytes)
    → AreBudgeted xs
    → separator_length (render_first xs ++ tail) ≡ 0
unfolding render
first_no_separator none tail b = refl
first_no_separator (more x xs) tail b =
    rw (append_assoc (render x) (render_rest xs) tail)
      (Item-no_separator x (render_rest xs ++ tail) b.0)

-- The closing brace of a row.
close-Parses :
    (enc : EncodingGroup) (pre tail : Bytes)
    → Parses enc
        (pre ++ close_brace ∷ tail)
        (length pre)
        ((row_end, []) ∷ [])
        (length (pre ++ close_brace ∷ []) + separator_length tail)
close-Parses enc pre tail =
    step
      (step_of_event enc (row_end, []) pre (close_brace ∷ []) tail (omega arith)
        (find_event-close enc pre tail))
      stop

safe-Parses :
    {enc : EncodingGroup} (gs : List (Glyph enc)) (pre tail : Bytes)
    → enc ≢ unknown
    → IsUnquotedSafe gs
    → IsTail tail
    → Parses enc
        (pre ++ (bytes gs ++ tail))
        (length pre)
        ((string_value, bytes gs) ∷ [])
        (length (pre ++ bytes gs) + separator_length tail)
safe-Parses [] pre tail known safe' h = absurd safe'
safe-Parses {enc} (g ∷ gs) pre tail known (clean, z, o, c, q, n) h =
    step
      (step_of_event enc (string_value, bytes (g ∷ gs)) pre (bytes (g ∷ gs)) tail (omega arith)
        (find_event-safe g gs pre tail known clean z o c q n h))
      stop

-- Behind a prefix `pre`, the calls of `get_next` find the events of an element, of a row behind
-- its opening brace, and of the rest of a row.
mutual
  unfolding render events

  Item-Parses :
      {enc : EncodingGroup} (x : Item enc) (pre tail : Bytes)
      → enc ≢ unknown
      → IsBudgeted x
      → IsTail tail
      → Parses enc
          (pre ++ (render x ++ tail))
          (length pre)
          (events x)
          (length (pre ++ render x) + separator_length tail)
  Item-Parses {enc} null pre tail known b h =
      step
        (step_of_event enc (null_value, []) pre s_null tail (omega arith)
          (find_event-null enc pre tail known h))
        stop
  Item-Parses {enc} (row xs) pre tail known b h =
      let pre' = pre ++ open_brace ∷ [] in
      let opened =
        step_of_event enc (row_start, []) pre (open_brace ∷ []) (render_first xs ++ tail)
          (omega arith) (find_event-open enc pre (render_first xs ++ tail)) in
      let at_first : length pre' + separator_length (render_first xs ++ tail) ≡ length pre' =
        rw (first_no_separator xs tail b) (omega arith) in
      let inside = first-Parses xs pre' tail known b h in
      step (opened ∙ ap (λ t. ok ((row_start, []), t)) at_first) (
        rw
          (
            ← append_assoc pre (open_brace ∷ []) (render_first xs ++ tail),
            ← append_assoc pre (open_brace ∷ []) (render_first xs),
          )
          inside)
  Item-Parses (safe gs budget) pre tail known b h = safe-Parses gs pre tail known b.1 h
  Item-Parses {enc} (text gs budget) pre tail known b h =
      step
        (step_of_event enc (string_value, bytes gs) pre (render (text gs budget)) tail (omega arith)
          (find_event-quoted gs pre tail known h))
        stop

  first-Parses :
      {enc : EncodingGroup} (xs : Items enc) (pre tail : Bytes)
      → enc ≢ unknown
      → AreBudgeted xs
      → IsTail tail
      → Parses enc
          (pre ++ (render_first xs ++ tail))
          (length pre)
          (events_row xs ++ (row_end, []) ∷ [])
          (length (pre ++ render_first xs) + separator_length tail)
  first-Parses {enc} none pre tail known b h = close-Parses enc pre tail
  first-Parses {enc} (more x xs) pre tail known b h =
      let found =
        Item-Parses x pre (render_rest xs ++ tail) known b.0 (render_rest-IsTail xs tail) in
      let others = rest-Parses xs (pre ++ render x) tail known b.1 h in
      let others' = rw (append_assoc pre (render x) (render_rest xs ++ tail)) at others in
      rw
        (
          append_assoc (render x) (render_rest xs) tail,
          append_assoc (events x) (events_row xs) ((row_end, []) ∷ []),
          ← append_assoc pre (render x) (render_rest xs),
        )
        (Parses-append found others')

  rest-Parses :
      {enc : EncodingGroup} (xs : Items enc) (pre tail : Bytes)
      → enc ≢ unknown
      → AreBudgeted xs
      → IsTail tail
      → Parses enc
          (pre ++ (render_rest xs ++ tail))
          (length pre + separator_length (render_rest xs ++ tail))
          (events_row xs ++ (row_end, []) ∷ [])
          (length (pre ++ render_rest xs) + separator_length tail)
  rest-Parses {enc} none pre tail known b h = rw (add-zero (length pre)) (close-Parses enc pre tail)
  rest-Parses {enc} (more x xs) pre tail known b h =
      let pre' = pre ++ separator ∷ [] in
      let size : length pre' ≡ length pre + 1 = length-append pre (separator ∷ []) in
      let found =
        Item-Parses x pre' (render_rest xs ++ tail) known b.0 (render_rest-IsTail xs tail) in
      let others = rest-Parses xs (pre' ++ render x) tail known b.1 h in
      let others' = rw (append_assoc pre' (render x) (render_rest xs ++ tail)) at others in
      let both = Parses-append found others' in
      let both' =
        rw
          (
            append_assoc pre' (render x) (render_rest xs),
            size,
            append_assoc pre (separator ∷ []) (render x ++ (render_rest xs ++ tail)),
            append_assoc pre (separator ∷ []) (render x ++ render_rest xs),
          )
          at both in
      rw
        (
          append_assoc (render x) (render_rest xs) tail,
          append_assoc (events x) (events_row xs) ((row_end, []) ∷ []),
        )
        both'

-- Written to a buffer of the size that `size_buffer` asks for and read with successive calls of
-- `get_next` in the same encoding group, an array gives its events, one for each null, text and
-- brace in order, up to the end of what was written; from there on `get_next` returns `done`.
pub array_round_trip :
    {enc : EncodingGroup} (xs : Items enc) (size : ℕ)
    → enc ≢ unknown
    → AreBudgeted xs
    → size_buffers (to_elements xs) + 2 ≤ size
    → (written : Bytes) × (array_to_buf enc size (to_elements xs) ≡ ok written)
      × Parses enc written 0 (events (row xs)) (length written)
      × (parse_array_step enc written (length written) ≡ ok ((done, []), length written))
unfolding parse_array_step
array_round_trip {enc} xs size known b fits =
    let text' = render (row xs) in
    let read = Item-Parses (row xs) [] [] known b tt in
    let read' = rw (append-nil text', add-zero (length text')) at read in
    let over : leb (length text') (length text') ≡ true = ground arith in
    (text', (array_to_buf-render xs size known b fits).0, read', rw over)
