-- ===== src/Stream/Writing.antt =====
-- `write_row` writes a line of the text format of COPY.
use libpqxx.Prelude.{
  ℕ, zero, suc, ◌+◌, ◌-◌, ◌<◌, ◌≡◌, ◌≢◌, inl, inr, refl, sym, ap, ◌∙◌, true, false, Bytes,
  byte_at-length, substr, substr-append, take_init, List, [], ◌∷◌, ◌++◌, append-nil, append_assoc,
  length, length-append, ltb, ◌==◌, subst, arith, Option, none, some, ok, Bool-cases, lt→ltb,
}
use libpqxx.Encoding.Scanner.{EncodingGroup, unknown}
use libpqxx.Encoding.Finder.{is_needle, find_ascii_char}
use libpqxx.Encoding.Text.{Glyph, lead, trail, bytes}
use libpqxx.Encoding.Search.{IsClean, find_ascii_char-skip, get_char_finder-known, length-le-bytes}
use libpqxx.Array.Quoted.{backslash}
use libpqxx.Array.Escaped.{IsClean-append, bytes-snoc}
use libpqxx.Stream.Writer.{
  Value, arithmetic, text, tab, stops, escape_field_loop, escape_field_to_buffer, append_number,
  append_to_buffer, fill_buffer, write_buffer, write_row,
}
use libpqxx.Stream.Lines.{
  IsValue, AreValues, letter, copied, Row, column, columns, stops-IsAscii, escape_char-letter,
  trail_of_stop,
}

-- The end of a field: the clean piece before it is copied.
escape_field_loop-end :
    {enc : EncodingGroup} (fuel : ℕ) (cs : List (Glyph enc)) (pre buffer : Bytes)
    → enc ≢ unknown
    → IsClean stops cs
    → length cs < fuel
    → escape_field_loop fuel (find_ascii_char enc stops) (pre ++ bytes cs) (length pre) buffer
      ≡ ok (buffer ++ bytes cs)
unfolding escape_field_loop
escape_field_loop-end zero cs pre buffer known clean fits = absurd (omega arith)
escape_field_loop-end (suc fuel) [] pre buffer known clean fits =
    let past : ltb (length pre) (length pre) ≡ false = ground arith in
    rw (append-nil pre, append-nil buffer, past)
escape_field_loop-end (suc zero) (c ∷ cs) pre buffer known clean fits = absurd (omega arith)
escape_field_loop-end {enc} (suc (suc fuel)) (c ∷ cs) pre buffer known clean fits =
    let text = bytes (c ∷ cs) in
    let q = pre ++ text in
    let size : length q ≡ length pre + length text = length-append pre text in
    let inside : ltb (length pre) (length q) ≡ true = lt→ltb _ _ (omega arith) in
    let last : ltb (length q) (length q) ≡ false = ground arith in
    let past : ltb (length q + 1) (length q) ≡ false = ground arith in
    let span : length q - length pre ≡ length text = omega arith in
    let found : find_ascii_char enc stops q (length pre) ≡ ok (length q) =
      subst (λ (t : Bytes). find_ascii_char enc stops t (length pre) ≡ ok (length q)) (append-nil q)
        (find_ascii_char-skip stops (c ∷ cs) pre [] known stops-IsAscii clean tt) in
    let piece : substr q (length pre) (length text) ≡ text =
      subst (λ (t : Bytes). substr t (length pre) (length text) ≡ text) (append-nil q)
        (substr-append pre text []) in
    rw (inside, found, last, past, span, piece)

-- A character that is escaped.
escape_field_loop-stop :
    {enc : EncodingGroup} (fuel : ℕ) (cs : List (Glyph enc)) (c : ℕ) (pre rest buffer : Bytes)
    → enc ≢ unknown
    → IsClean stops cs
    → is_needle stops c ≡ true
    → escape_field_loop
        (suc fuel)
        (find_ascii_char enc stops)
        ((pre ++ bytes cs) ++ c ∷ rest)
        (length pre)
        buffer
      ≡ escape_field_loop fuel
          (find_ascii_char enc stops)
          ((pre ++ bytes cs) ++ c ∷ rest)
          (length (pre ++ bytes cs) + 1)
          ((buffer ++ bytes cs) ++ backslash ∷ letter c ∷ [])
unfolding escape_field_loop
escape_field_loop-stop {enc} fuel cs c pre rest buffer known clean special =
    let q = pre ++ bytes cs in
    let input = q ++ c ∷ rest in
    let size : length input ≡ length q + suc (length rest) = length-append q (c ∷ rest) in
    let size' : length q ≡ length pre + length (bytes cs) = length-append pre (bytes cs) in
    let inside : ltb (length pre) (length input) ≡ true = lt→ltb _ _ (omega arith) in
    let more : ltb (length q) (length input) ≡ true = lt→ltb _ _ (omega arith) in
    let span : length q - length pre ≡ length (bytes cs) = omega arith in
    let found = find_ascii_char-skip stops cs pre (c ∷ rest) known stops-IsAscii clean special in
    rw (
      inside,
      found,
      more,
      span,
      substr-append pre (bytes cs) (c ∷ rest),
      byte_at-length q c rest,
      escape_char-letter c special,
    )

escape_field_loop-copied :
    {enc : EncodingGroup} (fuel : ℕ) (cs gs : List (Glyph enc)) (pre buffer : Bytes)
    → enc ≢ unknown
    → IsClean stops cs
    → length cs + length gs < fuel
    → escape_field_loop fuel
        (find_ascii_char enc stops)
        ((pre ++ bytes cs) ++ bytes gs)
        (length pre)
        buffer
      ≡ ok (buffer ++ (bytes cs ++ copied gs))
escape_field_loop-copied zero cs gs pre buffer known clean fits = absurd (omega arith)
escape_field_loop-copied (suc fuel) cs [] pre buffer known clean fits =
    rw (append-nil (pre ++ bytes cs), append-nil (bytes cs))
      (escape_field_loop-end (suc fuel) cs pre buffer known clean (omega arith))
escape_field_loop-copied {enc} (suc fuel) cs (g ∷ gs) pre buffer known clean fits =
    elim (Bool-cases (is_needle stops (lead g))) [
      | inl special ↦
          let q = pre ++ bytes cs in
          let pre' = q ++ lead g ∷ [] in
          let size : length pre' ≡ length q + 1 = length-append q (lead g ∷ []) in
          let buffer' = (buffer ++ bytes cs) ++ backslash ∷ letter (lead g) ∷ [] in
          let shift : q ++ lead g ∷ bytes gs ≡ (pre' ++ []) ++ bytes gs =
            simp (append_assoc, append-nil) in
          let joined : buffer' ++ copied gs
              ≡ buffer ++ (bytes cs ++ (backslash ∷ letter (lead g) ∷ copied gs)) =
            simp append_assoc in
          rw (special, trail_of_stop g special)
            (escape_field_loop-stop fuel cs (lead g) pre (bytes gs) buffer known clean special
              ∙ rw (shift, ← size)
                  (escape_field_loop-copied fuel [] gs pre' buffer' known tt (omega arith)
                    ∙ ap ok joined))
      | inr plain ↦
          let shift : (pre ++ bytes cs) ++ ((lead g ∷ trail g) ++ bytes gs)
              ≡ (pre ++ (bytes cs ++ (lead g ∷ trail g))) ++ bytes gs =
            simp append_assoc in
          let joined : buffer ++ ((bytes cs ++ (lead g ∷ trail g)) ++ copied gs)
              ≡ buffer ++ (bytes cs ++ ((lead g ∷ trail g) ++ copied gs)) =
            simp append_assoc in
          rw (plain, shift, ← joined, ← bytes-snoc cs g)
            (escape_field_loop-copied (suc fuel) (cs ++ g ∷ []) gs pre buffer known
              (IsClean-append stops cs g clean plain)
              (omega (arith, length-append {0} cs (g ∷ []))))
    ]

-- Text that needs no escaping is written as it is.
copied-clean :
    {enc : EncodingGroup} (gs : List (Glyph enc)) → IsClean stops gs → copied gs ≡ bytes gs
copied-clean [] clean = refl
copied-clean (g ∷ gs) clean = rw (clean.0, copied-clean gs clean.1) refl

append_number-fits :
    (number : Bytes) (budget : ℕ) (buffer : Bytes)
    → length number < budget
    → append_number number budget buffer ≡ ok ((buffer ++ number) ++ tab ∷ [])
unfolding append_number
append_number-fits number budget buffer h =
    let fits : ltb (budget + 1) (length number) ≡ false = ground arith in
    let left : ltb (length buffer + length number + 1) (length buffer + budget + 1) ≡ true =
      ground arith in
    rw (fits, left) refl

append_to_buffer-column :
    {enc : EncodingGroup} (v : Option Value) (f : Option (List (Glyph enc))) (buffer : Bytes)
    → enc ≢ unknown
    → IsValue v f
    → append_to_buffer (find_ascii_char enc stops) v buffer ≡ ok (buffer ++ (column f ++ tab ∷ []))
unfolding append_to_buffer escape_field_to_buffer
append_to_buffer-column none none buffer known same = refl
append_to_buffer-column none (some gs) buffer known same = absurd same
append_to_buffer-column (some (text b)) none buffer known same = absurd same
append_to_buffer-column (some (arithmetic b budget)) none buffer known same = absurd same
append_to_buffer-column (some (arithmetic b budget)) (some gs) buffer known (same, clean, short) =
    rw (append_number-fits b budget buffer short, same, copied-clean gs clean)
      (ap ok (append_assoc buffer (bytes gs) (tab ∷ [])))
append_to_buffer-column {enc} (some (text b)) (some gs) buffer known same =
    rw
      (
        same,
        escape_field_loop-copied (suc (length (bytes gs))) [] gs [] buffer known tt
            (omega (arith, length-le-bytes gs)),
      )
      (ap ok (append_assoc buffer (copied gs) (tab ∷ [])))

-- Every column is followed by a tab in the buffer, the last one too.
fill_buffer-columns :
    {enc : EncodingGroup} (v : Option Value) (vs : List (Option Value))
    (f : Option (List (Glyph enc))) (fs : Row enc) (buffer : Bytes)
    → enc ≢ unknown
    → AreValues (v ∷ vs) (f ∷ fs)
    → fill_buffer (find_ascii_char enc stops) (v ∷ vs) buffer
      ≡ ok ((buffer ++ (column f ++ columns fs)) ++ tab ∷ [])
unfolding fill_buffer
fill_buffer-columns v [] f [] buffer known same =
    rw (append_to_buffer-column v f buffer known same.0, append-nil (column f))
      (ap ok (sym (append_assoc buffer (column f) (tab ∷ []))))
fill_buffer-columns v [] f (f' ∷ fs) buffer known same = absurd same.1
fill_buffer-columns v (v' ∷ vs) f [] buffer known same = absurd same.1
fill_buffer-columns {enc} v (v' ∷ vs) f (f' ∷ fs) buffer known same =
    let joined : ((buffer ++ (column f ++ tab ∷ [])) ++ (column f' ++ columns fs)) ++ tab ∷ []
        ≡ (buffer ++ (column f ++ columns (f' ∷ fs))) ++ tab ∷ [] =
      simp append_assoc in
    rw (append_to_buffer-column v f buffer known same.0) (
      fill_buffer-columns v' vs f' fs (buffer ++ (column f ++ tab ∷ [])) known same.1
      ∙ ap ok joined)

-- A row of at least one column, nulls among them, is written as a line of the text format, with one
-- tab between two columns, and leaves the buffer empty.
pub write_row-columns :
    {enc : EncodingGroup} (v : Option Value) (vs : List (Option Value))
    (f : Option (List (Glyph enc))) (fs : Row enc)
    → enc ≢ unknown
    → AreValues (v ∷ vs) (f ∷ fs)
    → write_row enc (v ∷ vs) ≡ ok (column f ++ columns fs, [])
unfolding write_row write_buffer
write_row-columns {enc} v vs f fs known same =
    let line = column f ++ columns fs in
    let some_left : (length (line ++ tab ∷ []) == 0) ≡ false =
      let size : length (line ++ tab ∷ []) ≡ length line + 1 = length-append line (tab ∷ []) in
      ground arith in
    rw (
      get_char_finder-known enc stops known,
      fill_buffer-columns v vs f fs [] known same,
      some_left,
      take_init line tab,
    )
