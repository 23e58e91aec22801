-- ===== src/Composite/Writer.antt =====
-- `write_composite_field` (include/pqxx/internal/array-composite.hxx) and `composite_into_buf`
-- (include/pqxx/composite.hxx), on the buffer's bytes. The encoding of the text takes no part in the
-- writing.
use libpqxx.Prelude.{
  ℕ, zero, suc, ◌+◌, ◌-◌, ◌*◌, ◌%◌, ◌^◌, ◌≡◌, refl, ◌||◌, Bytes, byte_at, codes, take, List, [],
  ◌∷◌, ◌++◌, length, ltb, ◌==◌, if◌then◌else◌, Result, ok, err, conversion_error,
  conversion_overrun, assertion_failed, replicate, ◌>>=◌,
}
use libpqxx.Array.Quoted.{quote, backslash}
use libpqxx.Composite.Reader.{comma, open_parenthesis, close_parenthesis}
use libpqxx.Composite.Buffer.{Written, write_all}

-- Where a type's `to_buf` has the text that it returns: in the value itself, as for strings, or at the
-- beginning of its buffer, where the text and `left` behind it fill the buffer.
pub data Place : Type 0 where
  in_value : Place
  in_buffer : Bytes → Place

-- A field by the branch that its type takes, with its text and its `size_buffer`.
pub data Field : Type 0 where
  safe_field : Bytes → ℕ → Field
  quoted_field : Place → Bytes → ℕ → Field

-- `std::size_t` has 64 bits.
abbrev pub size_mod : ℕ
size_mod = 2 ^ 64

-- The subtraction wraps around for a `size_buffer` of 0.
unfoldable pub size_composite_field_buffer : Field → ℕ
size_composite_field_buffer (safe_field text budget) = (budget + size_mod - 1) % size_mod
size_composite_field_buffer (quoted_field place text budget) =
    (1 + 2 * ((budget + size_mod - 1) % size_mod) + 1) % size_mod

unfoldable pub size_fields : List Field → ℕ
unfolding size_composite_field_buffer
size_fields [] = 0
size_fields (f ∷ fs) = size_composite_field_buffer f + size_fields fs

abbrev pub empty_composite_str : Bytes
empty_composite_str = codes "()"

-- For no fields, the size of `empty_composite_str` as an array, with its zero.
unfoldable pub composite_size_buffer : List Field → ℕ
unfolding size_fields
composite_size_buffer [] = length empty_composite_str + 1
composite_size_buffer (f ∷ fs) = (1 + size_fields (f ∷ fs) + length (f ∷ fs) + 1) % size_mod

-- `to_buf(buf.last(budget), field, c)`: what it leaves in the buffer, and how the text is read.
abbrev pub convert : Place → Bytes → ℕ → Bytes → Bytes
convert in_value text budget buf = buf
convert (in_buffer left) text budget buf = take (length buf - budget) buf ++ (text ++ left)

abbrev pub text_byte : Place → Bytes → ℕ → Bytes → ℕ → ℕ
text_byte in_value text start buf i = byte_at text i
text_byte (in_buffer left) text start buf i = byte_at buf (start + i)

-- What the loop writes for a byte.
abbrev pub escaped_byte : ℕ → Bytes
escaped_byte x = if x == quote || x == backslash then backslash ∷ x ∷ [] else x ∷ []

-- "Now escape buf into its final position", byte by byte. Each byte is read when its turn comes:
-- where the text is in the buffer, a write may have changed it before.
unfoldable pub escape_into : ℕ → (Bytes → ℕ → ℕ) → ℕ → Written → Result Written
escape_into zero read i (buf, pos) = ok (buf, pos)
escape_into (suc count) read i (buf, pos) =
    write_all (escaped_byte (read buf i)) buf pos >>= escape_into count read (suc i)

-- The bytes that the loop writes for a text that does not change.
unfoldable pub escape_bytes : Bytes → Bytes
escape_bytes [] = []
escape_bytes (x ∷ text) = escaped_byte x ++ escape_bytes text

-- `into_buf(buf.subspan(pos), field, c)`: the type's own test of the room, that of the text's size,
-- and the copy.
unfoldable pub into_buf : Bytes → ℕ → Written → Result Written
into_buf text budget (buf, pos) =
    if ltb (length buf - pos) budget || ltb (length buf - pos) (length text)
    then err conversion_overrun
    else write_all text buf pos

-- The text between its quotes.
unfoldable pub quote_text : Place → Bytes → ℕ → Written → Result Written
unfolding escape_into
quote_text place text budget (buf, pos) =
    if ltb budget (length buf)
    then (write_all (quote ∷ []) buf pos >>= λ (w : Written).
        escape_into (length text) (text_byte place text (length buf - budget)) 0
          (convert place text budget w.0, w.1)
        >>= λ (w : Written). write_all (quote ∷ []) w.0 w.1)
    else err assertion_failed

unfoldable pub write_field : Field → Written → Result Written
unfolding into_buf quote_text
write_field (safe_field text budget) w = into_buf text budget w
write_field (quoted_field place text budget) w = quote_text place text budget w

unfoldable pub write_composite_field : Field → Written → Result Written
unfolding write_field
write_composite_field f w = write_field f w >>= λ (w : Written). write_all (comma ∷ []) w.0 w.1

unfoldable pub write_fields : List Field → Written → Result Written
unfolding write_composite_field
write_fields [] w = ok w
write_fields (f ∷ fs) w = write_composite_field f w >>= write_fields fs

-- "If we've got multiple fields, 'backspace' that last comma."
unfoldable pub drop_last_comma : ℕ → ℕ → ℕ
drop_last_comma num_fields pos = if ltb 1 num_fields then pos - 1 else pos

-- The closing parenthesis and the terminating zero, which `pos` does not count.
unfoldable pub finish : ℕ → Written → Result Bytes
unfolding drop_last_comma
finish num_fields (buf, pos) =
    write_all (close_parenthesis ∷ 0 ∷ []) buf (drop_last_comma num_fields pos) >>= λ (w : Written).
    ok (take (w.1 - 1) w.0)

-- The text that the returned `zview` has.
unfoldable pub composite_into_buf : Bytes → List Field → Result Bytes
unfolding composite_size_buffer write_fields finish
composite_into_buf buf fields =
    if ltb (length buf) (composite_size_buffer fields)
    then err conversion_error
    else if length fields == 0
    then (if ltb (length buf) (length empty_composite_str + 1)
        then err conversion_overrun
        else ok empty_composite_str)
    else (write_all (open_parenthesis ∷ []) buf 0 >>= λ (w : Written).
        write_fields fields w >>= finish (length fields))

two_fields :
    composite_into_buf (replicate 40 0) (
      safe_field (codes "355") 12
      ∷ quoted_field in_value (codes "a\\r") 3
      ∷ quoted_field (in_buffer (0 ∷ 0 ∷ [])) (codes "{7}") 5
      ∷ [])
    ≡ ok (codes "(355,\"a\\\\r\",\"{7}\")")
unfolding composite_into_buf write_all
two_fields = refl
