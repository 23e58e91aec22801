-- ===== src/Array/WritingAll.antt =====
-- `array_into_buf` writes the SQL text of a whole array, nested arrays included, within its budget.
use libpqxx.Prelude.{
  ℕ, ◌+◌, ◌-◌, ◌≤◌, ◌<◌, ◌≡◌, ◌≢◌, refl, sym, ap, ◌∙◌, false, Bytes, take_init, [], ◌∷◌, ◌++◌,
  append-nil, append_assoc, length, length-append, ltb, arith, ok,
}
use libpqxx.Encoding.Text.{bytes}
use libpqxx.Encoding.Scanner.{EncodingGroup, unknown}
use libpqxx.Array.Quoted.{quote}
use libpqxx.Array.Escaped.{escaped, length-escaped-le}
use libpqxx.Array.Writer.{
  Element, Elements, null_element, array_element, safe_element, text_element, size_buffers,
  copy_chars, write_safe, close_array, write_elements, write_element, array_to_buf, open_brace,
  close_brace, separator, s_null, nil, cons,
}
use libpqxx.Array.Items.{
  Item, Items, null, row, safe, text, none, more, to_element, to_elements, IsBudgeted, AreBudgeted,
  render, render_rest,
}
use libpqxx.Array.Writing.{write_text-escaped}

-- What the loop has written, a separator behind each element.
listed : {enc : EncodingGroup} → Items enc → Bytes
listed none = []
listed (more x xs) = render x ++ separator ∷ listed xs

-- Without its last separator, what the loop has written is the row with a closing brace.
listed_init :
    {enc : EncodingGroup} (x : Item enc) (xs : Items enc)
    → (init : Bytes) × (listed (more x xs) ≡ init ++ separator ∷ [])
      × (render x ++ render_rest xs ≡ init ++ close_brace ∷ [])
unfolding listed render
listed_init x none = (render x, refl, refl)
listed_init x (more y ys) =
    let (init, whole, closed) = listed_init y ys in
    (
      render x ++ separator ∷ init,
      rw whole (sym (append_assoc (render x) (separator ∷ init) (separator ∷ []))),
      rw closed (sym (append_assoc (render x) (separator ∷ init) (close_brace ∷ []))),
    )

close_array-listed :
    {enc : EncodingGroup} (xs : Items enc)
    → close_array (to_elements xs) (open_brace ∷ listed xs) ≡ render (row xs)
unfolding close_array to_elements render
close_array-listed none = unfold listed in refl
close_array-listed (more x xs) =
    let (init, whole, closed) = listed_init x xs in
    rw (whole, closed, take_init (open_brace ∷ init) separator)

length-render_row :
    {enc : EncodingGroup} (xs : Items enc) → length (render (row xs)) ≤ length (listed xs) + 2
unfolding render
length-render_row none = omega arith
length-render_row (more x xs) =
    let (init, whole, closed) = listed_init x xs in
    rw (whole, closed)
      (omega
        (arith, length-append {0} init (separator ∷ []), length-append {0} init (close_brace ∷ [])))

size_buffers-cons :
    (e : Element) (es : Elements)
    → size_buffers (cons e es) ≡ size_buffers (cons e nil) + size_buffers es
unfolding size_buffers
size_buffers-cons null_element es = omega arith
size_buffers-cons (array_element inner) es = omega arith
size_buffers-cons (safe_element t budget) es = omega arith
size_buffers-cons (text_element t budget) es = omega arith

-- The text of an element, and what it takes in the loop, is within its part of the budget.
mutual
  unfolding size_buffers to_elements render listed

  length-render :
      {enc : EncodingGroup} (x : Item enc)
      → IsBudgeted x
      → length (render x) < size_buffers (cons (to_element x) nil)
  length-render null b = omega arith
  length-render (row xs) b = omega (arith, length-render_row xs, length-listed xs b)
  length-render (safe gs budget) b = omega arith
  length-render (text gs budget) b =
      omega (arith, length-escaped-le gs, length-append {0} (escaped gs) (quote ∷ []))

  length-listed :
      {enc : EncodingGroup} (xs : Items enc)
      → AreBudgeted xs
      → length (listed xs) ≤ size_buffers (to_elements xs)
  length-listed none b = omega arith
  length-listed (more x xs) b = omega (
    arith,
    length-render x b.0,
    length-listed xs b.1,
    size_buffers-cons (to_element x) (to_elements xs),
    length-append {0} (render x) (separator ∷ listed xs),
  )

-- Each element is written as its text, and the loop writes the list of them: no write passes the
-- end of the buffer as long as the budget of what is left fits.
mutual
  unfolding size_buffers to_elements write_elements render listed copy_chars write_safe

  write_element-render :
      {enc : EncodingGroup} (x : Item enc) (size : ℕ) (out : Bytes)
      → enc ≢ unknown
      → IsBudgeted x
      → length out + size_buffers (cons (to_element x) nil) ≤ size + 1
      → write_element enc size (to_element x) out ≡ ok (out ++ render x)
  write_element-render null size out known b fits =
      let room : ltb size (length out + length s_null) ≡ false = ground arith in rw room
  write_element-render {enc} (row xs) size out known b fits =
      let room : ltb (size - length out) (size_buffers (to_elements xs) + 2) ≡ false =
        ground arith in
      rw (
        room,
        write_elements-listed xs (size - length out) (open_brace ∷ []) known b (omega arith),
        close_array-listed xs,
      )
  write_element-render (safe gs budget) size out known b fits =
      let room : ltb (size - length out) budget ≡ false = ground arith in
      let fits_too : ltb (size - length out) (length (bytes gs)) ≡ false = ground arith in
      rw (room, fits_too) refl
  write_element-render (text gs budget) size out known b fits =
      write_text-escaped size gs out known (omega (arith, length-escaped-le gs))

  write_elements-listed :
      {enc : EncodingGroup} (xs : Items enc) (size : ℕ) (out : Bytes)
      → enc ≢ unknown
      → AreBudgeted xs
      → length out + size_buffers (to_elements xs) ≤ size
      → write_elements enc size (to_elements xs) out ≡ ok (out ++ listed xs)
  write_elements-listed none size out known b fits = rw append-nil
  write_elements-listed {enc} (more x xs) size out known b fits =
      let out' = (out ++ render x) ++ separator ∷ [] in
      let joined : out' ++ listed xs ≡ out ++ (render x ++ separator ∷ listed xs) =
        simp append_assoc in
      let split = size_buffers-cons (to_element x) (to_elements xs) in
      let count : length out' ≡ length out + length (render x) + 1 = omega (
        arith,
        length-append {0} (out ++ render x) (separator ∷ []),
        length-append {0} out (render x),
      ) in
      let small = length-render x b.0 in
      rw (write_element-render x size out known b.0 (omega arith))
        (write_elements-listed xs size out' known b.1 (omega arith) ∙ ap ok joined)

-- An array of well encoded texts, nested to any depth, is written as its SQL text in every known
-- encoding group, if the buffer has the size that `size_buffer` asks for; the text fits in it.
pub array_to_buf-render :
    {enc : EncodingGroup} (xs : Items enc) (size : ℕ)
    → enc ≢ unknown
    → AreBudgeted xs
    → size_buffers (to_elements xs) + 2 ≤ size
    → (array_to_buf enc size (to_elements xs) ≡ ok (render (row xs)))
      × (length (render (row xs)) ≤ size)
unfolding array_to_buf
array_to_buf-render {enc} xs size known b fits =
    let room : ltb size (size_buffers (to_elements xs) + 2) ≡ false = ground arith in
    let written = write_elements-listed xs size (open_brace ∷ []) known b (omega arith) in
    let close = close_array-listed xs in
    (rw (room, written) (ap ok close), omega (arith, length-render_row xs, length-listed xs b))
