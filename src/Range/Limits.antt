-- ===== src/Range/Limits.antt =====
-- The text of a range's bounds, and how it is written and read.
use libpqxx.Prelude.{
  ℕ, ◌+◌, ◌≤◌, ◌≡◌, ◌≢◌, ◌⊎◌, refl, inl, inr, true, ◌||◌, Bytes, byte_at-length, [], ◌∷◌, ◌++◌,
  List, append-nil, append_assoc, length, length-append, ◌==◌, if◌then◌else◌, none, some, ok, arith,
}
use libpqxx.Encoding.Scanner.{ascii_safe, unknown}
use libpqxx.Encoding.Text.{Glyph, bytes}
use libpqxx.Composite.Reader.{
  comma, open_parenthesis, close_parenthesis, close_bracket, read_field, null_field,
  parse_composite_field, end_field,
}
use libpqxx.Composite.Fields.{safe, render_field, IsUnquotedField}
use libpqxx.Composite.Reading.{IsStop, read_field-render}
use libpqxx.Composite.Cells.{end_field-comma, end_field-close}
use libpqxx.Range.Bounds.{Bound, no_bound, inclusive, exclusive, is_inclusive, value}
use libpqxx.Range.Text.{ElementText, open_bracket, optional_reader}

-- What the round trip asks of a type's conversions: a text that needs no quotes, that is written to
-- any buffer of the size that `size_buffer` gives, and that is read as the value.
pub record IsConversion {ℓ} {A : Type ℓ} (s : ElementText A) : Type ℓ where
  pub glyphs : A → List (Glyph ascii_safe)
  pub plain : (v : A) → IsUnquotedField (glyphs v)
  pub writes :
      (space : ℕ) (v : A) → s.size_buffer v ≤ space → s.to_buf space v ≡ ok (bytes (glyphs v))
  pub fits : (v : A) → length (bytes (glyphs v)) ≤ s.size_buffer v
  pub reads : (v : A) → s.from_string (bytes (glyphs v)) ≡ ok v

pub known : ascii_safe ≢ unknown
known = λ h. cc h

module _ {A : Type 0} where
  abbrev pub opening : Bound A → ℕ
  opening b = if is_inclusive b then open_bracket else open_parenthesis

  abbrev pub closing : Bound A → ℕ
  closing b = if is_inclusive b then close_bracket else close_parenthesis

  pub closing-bracket :
      (b : Bound A) → (closing b ≡ close_parenthesis) ⊎ (closing b ≡ close_bracket)
  unfolding is_inclusive
  closing-bracket no_bound = inl refl
  closing-bracket (inclusive x) = inr refl
  closing-bracket (exclusive x) = inl refl

module _ {A : Type 0} (s : ElementText A) (law : IsConversion s) where
  abbrev pub limit_text : Bound A → Bytes
  limit_text no_bound = []
  limit_text (inclusive x) = bytes (law.glyphs x)
  limit_text (exclusive x) = bytes (law.glyphs x)

  read_field-stop :
      (pre : Bytes) (c : ℕ) (tail : Bytes)
      → IsStop c
      → read_field ascii_safe (optional_reader s) (pre ++ c ∷ tail) (length pre)
        ≡ ok (none, length pre)
  unfolding read_field null_field optional_reader
  read_field-stop pre c tail h =
      let stops : (c == comma || (c == close_parenthesis || c == close_bracket)) ≡ true =
        ground arith in
      rw (byte_at-length pre c tail, stops)

  read_field-limit :
      (b : Bound A) (pre : Bytes) (c : ℕ) (tail : Bytes)
      → IsStop c
      → read_field ascii_safe (optional_reader s) (pre ++ (limit_text b ++ c ∷ tail)) (length pre)
        ≡ ok (value b, length (pre ++ limit_text b))
  unfolding value render_field
  read_field-limit no_bound pre c tail h = rw (append-nil pre) (read_field-stop pre c tail h)
  read_field-limit (inclusive x) pre c tail h =
      read_field-render (safe (law.glyphs x) 0) (optional_reader s) (some x) pre c tail known
        (law.plain x) h (unfold optional_reader in rw (law.reads x))
  read_field-limit (exclusive x) pre c tail h =
      read_field-render (safe (law.glyphs x) 0) (optional_reader s) (some x) pre c tail known
        (law.plain x) h (unfold optional_reader in rw (law.reads x))

  -- One call of the field parser, with what stands behind the bound.
  parse_limit :
      (b : Bound A) (pre : Bytes) (c : ℕ) (tail : Bytes) (index next : ℕ)
      → IsStop c
      → end_field index ((pre ++ limit_text b) ++ c ∷ tail) (length (pre ++ limit_text b)) 1
        ≡ ok next
      → parse_composite_field ascii_safe
          (optional_reader s)
          index
          (pre ++ (limit_text b ++ c ∷ tail))
          (length pre)
          1
        ≡ ok (value b, index + 1, next)
  unfolding parse_composite_field
  parse_limit b pre c tail index next h ended =
      let ended' = rw (append_assoc pre (limit_text b) (c ∷ tail)) at ended in
      rw (read_field-limit b pre c tail h, ended')

  abbrev pub limits_text : Bound A → Bound A → Bytes
  limits_text l u = opening l ∷ (limit_text l ++ comma ∷ (limit_text u ++ closing u ∷ []))

  pub parse_lower :
      (l u : Bound A)
      → parse_composite_field ascii_safe (optional_reader s) 0 (limits_text l u) 1 1
        ≡ ok (value l, 1, length (opening l ∷ limit_text l) + 1)
  parse_lower l u =
      parse_limit l (opening l ∷ []) comma (limit_text u ++ closing u ∷ []) 0
        (length (opening l ∷ limit_text l) + 1) (inl refl)
        (end_field-comma 0 1 (opening l ∷ limit_text l) (limit_text u ++ closing u ∷ [])
          (omega arith))

  -- The second bound, behind whatever was read before the comma.
  pub parse_upper :
      (u : Bound A) (front : Bytes)
      → let text : Bytes = front ++ comma ∷ (limit_text u ++ closing u ∷ []) in
        parse_composite_field ascii_safe (optional_reader s) 1 text (length front + 1) 1
        ≡ ok (value u, 2, length text)
  parse_upper u front =
      let pre = front ++ comma ∷ [] in
      let rest = limit_text u ++ closing u ∷ [] in
      let size : length pre ≡ length front + 1 = length-append front (comma ∷ []) in
      let shape : pre ++ rest ≡ front ++ comma ∷ rest = append_assoc front (comma ∷ []) rest in
      let end : length (pre ++ rest) ≡ length (pre ++ limit_text u) + 1 =
        rw (← append_assoc pre (limit_text u) (closing u ∷ []))
          (length-append (pre ++ limit_text u) (closing u ∷ [])) in
      rw (← size, ← shape, end)
        (parse_limit u pre (closing u) [] 1 (length (pre ++ limit_text u) + 1)
          (inr (closing-bracket u))
          (end_field-close 1 (pre ++ limit_text u) (closing u) (closing-bracket u)))
