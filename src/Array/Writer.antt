-- ===== src/Array/Writer.antt =====
-- `array_into_buf` (include/pqxx/internal/array-composite.hxx) with `copy_chars`
-- (include/pqxx/util.hxx) and the size estimate of `nonbinary_range_traits`
-- (include/pqxx/internal/conversions.hxx).
-- The buffer is the list of the bytes written so far, `here` is its length, and `size` is
-- `std::size(buf)`. The text of an element is converted into the tail of the buffer in the source;
-- here it is a value of its own, `from`.
use libpqxx.Prelude.{
  ℕ, zero, suc, ◌+◌, ◌-◌, ◌*◌, ◌≡◌, refl, Bytes, codes, byte_at, take, substr, List, [], ◌∷◌, ◌++◌,
  length, ltb, if◌then◌else◌, Result, ok, err, conversion_overrun, fuel_out, ◌>>=◌, ◌||◌,
}
use libpqxx.Encoding.Scanner.{EncodingGroup, ascii_safe, glyph_scanner}
use libpqxx.Encoding.Finder.{CharFinder, get_char_finder, find_ascii_char, is_needle}
use libpqxx.Array.Quoted.{quote, backslash}

-- An element by the branch that its type takes: a null, a nested array, a type that is safe
-- without quotes (its text and its `size_buffer`), or any other type (likewise).
mutual
  pub data Element : Type 0 where
    null_element : Element
    array_element : Elements → Element
    safe_element : Bytes → ℕ → Element
    text_element : Bytes → ℕ → Element

  pub data Elements : Type 0 where
    nil : Elements
    cons : Element → Elements → Elements

abbrev pub open_brace : ℕ
open_brace = b'{'

abbrev pub close_brace : ℕ
close_brace = b'}'

-- `array_separator`.
abbrev pub separator : ℕ
separator = b','

abbrev pub s_null : Bytes
s_null = codes "NULL"

unfoldable mutual
  -- `string_traits<...>::size_buffer` of an element.
  pub size_buffer : Element → ℕ
  size_buffer null_element = 0
  size_buffer (array_element es) = size_buffers es + 2
  size_buffer (safe_element text budget) = budget
  size_buffer (text_element text budget) = budget

  -- The combined budget of all elements, each with quotes, escapes and a separator.
  pub size_buffers : Elements → ℕ
  size_buffers nil = 0
  size_buffers (cons null_element es) = length s_null + 1 + size_buffers es
  size_buffers (cons (array_element inner) es) =
      2 * (size_buffers inner + 2) + 2 + 1 + size_buffers es
  size_buffers (cons (safe_element text budget) es) = budget + 1 + size_buffers es
  size_buffers (cons (text_element text budget) es) = 2 * budget + 2 + 1 + size_buffers es

-- `copy_chars<false>(src, dst, dst_offset)`.
unfoldable pub copy_chars : ℕ → Bytes → Bytes → Result Bytes
copy_chars size src out =
    if ltb size (length out + length src) then err conversion_overrun else ok (out ++ src)

-- The needles of `get_char_finder<'\\', '"'>`.
abbrev pub escapes : List ℕ
escapes = backslash ∷ quote ∷ []

-- The `while (i < end)` loop, and the copy of what is left.
unfoldable pub escape_loop : ℕ → CharFinder → ℕ → Bytes → ℕ → Bytes → Result Bytes
unfolding copy_chars
escape_loop zero find size from i out = err fuel_out
escape_loop (suc fuel) find size from i out =
    let end = length from in
    if ltb i end
    then (find from i >>= λ next.
        let copied = out ++ substr from i (next - i) in
        let escaping =
          escape_loop fuel find size from (next + 1)
            (copied ++ backslash ∷ byte_at from next ∷ []) in
        let ending = escape_loop fuel find size from next copied in
        if ltb size (length out + next - i)
        then err conversion_overrun
        else if ltb next end
        then escaping
        else ending)
    else copy_chars size (substr from i (end - i)) out

-- "Quote & escape."
unfoldable pub write_text : EncodingGroup → ℕ → Bytes → Bytes → Result Bytes
unfolding escape_loop
write_text enc size from out = do
  find ← get_char_finder escapes enc
  written ← escape_loop (suc (suc (length from))) find size from 0 (out ++ quote ∷ [])
  ok (written ++ quote ∷ [])

-- `into_buf` of a type that is safe without quotes, into the rest of the buffer: the type's own test of
-- the room, that of the text's size, and the copy.
unfoldable pub write_safe : ℕ → Bytes → ℕ → Bytes → Result Bytes
write_safe size text budget out =
    if ltb (size - length out) budget || ltb (size - length out) (length text)
    then err conversion_overrun
    else ok (out ++ text)

-- Erases the last separator, if present, and writes the closing brace.
unfoldable pub close_array : Elements → Bytes → Bytes
close_array nil out = out ++ close_brace ∷ []
close_array (cons e es) out = take (length out - 1) out ++ close_brace ∷ []

unfoldable mutual
  -- The loop over the elements, each with its separator.
  pub write_elements : EncodingGroup → ℕ → Elements → Bytes → Result Bytes
  write_elements enc size nil out = ok out
  write_elements enc size (cons e es) out = write_element enc size e out >>= λ written.
      write_elements enc size es (written ++ separator ∷ [])

  -- The nested array starts in what is left of the buffer, `buf.subspan(here)`.
  pub write_element : EncodingGroup → ℕ → Element → Bytes → Result Bytes
  write_element enc size null_element out = copy_chars size s_null out
  write_element enc size (array_element es) out =
      (if ltb (size - length out) (size_buffers es + 2)
        then err conversion_overrun
        else write_elements enc (size - length out) es (open_brace ∷ []))
      >>= λ inner. ok (out ++ close_array es inner)
  write_element enc size (safe_element text budget) out = write_safe size text budget out
  write_element enc size (text_element text budget) out = write_text enc size text out

unfoldable pub array_into_buf : EncodingGroup → ℕ → Elements → ℕ → Result Bytes
unfolding write_elements close_array
array_into_buf enc size value budget =
    if ltb size budget
    then err conversion_overrun
    else (write_elements enc size value (open_brace ∷ []) >>= λ out. ok (close_array value out))

-- `nonbinary_range_traits::to_buf`.
unfoldable pub array_to_buf : EncodingGroup → ℕ → Elements → Result Bytes
unfolding array_into_buf size_buffers
array_to_buf enc size value = array_into_buf enc size value (size_buffers value + 2)

sample :
    array_to_buf ascii_safe 100 (
      cons
        (safe_element (codes "7") 2)
        (cons null_element (cons (text_element (codes "a\"b") 4) (cons (array_element nil) nil))))
    ≡ ok (codes "{7,NULL,\"a\\\"b\",{}}")
unfolding array_to_buf write_text write_safe get_char_finder find_ascii_char is_needle glyph_scanner
    copy_chars
sample = refl
