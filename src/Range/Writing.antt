-- ===== src/Range/Writing.antt =====
-- `to_buf` of a range: the text that it writes, the buffer that it needs and the one that
-- `size_buffer` asks for.
use libpqxx.Prelude.{
  ℕ, ◌+◌, ◌-◌, ◌≤◌, ◌<◌, ◌≡◌, refl, true, false, [], ◌∷◌, length, ltb, ◌==◌, if◌then◌else◌, ok, err,
  arith, conversion_overrun, out_of_bounds, List,
}
use libpqxx.Encoding.Scanner.{ascii_safe}
use libpqxx.Encoding.Text.{Glyph, bytes}
use libpqxx.Composite.Fields.{IsUnquotedField}
use libpqxx.Range.Bounds.{Element, Bound, no_bound, inclusive, exclusive, value, is_exclusive}
use libpqxx.Range.Ranges.{Range, empty}
use libpqxx.Range.Text.{
  ElementText, s_empty, into_buf, bound_into_buf, limits_to_buf, limit_size, range_to_buf,
  range_size_buffer,
}
use libpqxx.Range.Limits.{IsConversion, limit_text, limits_text}

nonempty : (gs : List (Glyph ascii_safe)) → IsUnquotedField gs → 0 < length (bytes gs)
nonempty [] h = absurd h
nonempty (g ∷ gs) h = omega arith

module _ {A : Type 0} (s : ElementText A) (law : IsConversion s) where
  -- Room for the text of a bound.
  abbrev pub limit_room : Bound A → ℕ
  limit_room no_bound = 0
  limit_room (inclusive x) = s.size_buffer x
  limit_room (exclusive x) = s.size_buffer x

  limit_fits : (b : Bound A) → length (limit_text s law b) ≤ limit_room b
  limit_fits no_bound = omega arith
  limit_fits (inclusive x) = law.fits x
  limit_fits (exclusive x) = law.fits x

  into_buf-text :
      (space : ℕ) (x : A) → s.size_buffer x ≤ space → into_buf s space x ≡ ok (bytes (law.glyphs x))
  unfolding into_buf
  into_buf-text space x h =
      let fits : ltb space (length (bytes (law.glyphs x))) ≡ false = ground (arith, law.fits x) in
      rw (law.writes space x h, fits)

  bound_into_buf-text :
      (space : ℕ) (b : Bound A)
      → limit_room b ≤ space
      → bound_into_buf s space (value b) ≡ ok (limit_text s law b)
  unfolding bound_into_buf value
  bound_into_buf-text space no_bound h = refl
  bound_into_buf-text space (inclusive x) h = into_buf-text space x h
  bound_into_buf-text space (exclusive x) h = into_buf-text space x h

  pub limits_to_buf-text :
      (space : ℕ) (r : Range A)
      → 4 + limit_room r.lower + limit_room r.upper ≤ space
      → limits_to_buf s space r ≡ ok (limits_text s law r.lower r.upper)
  unfolding limits_to_buf
  limits_to_buf-text space r h =
      let n = length (limit_text s law r.lower) in
      let low = limit_fits r.lower in
      let high = limit_fits r.upper in
      let left : (space - 1 - n == 0) ≡ false = ground arith in
      let enough : ltb (space - 1 - n - 1 - length (limit_text s law r.upper)) 2 ≡ false =
        ground arith in
      rw (
        bound_into_buf-text (space - 1) r.lower (omega arith),
        left,
        bound_into_buf-text (space - 1 - n - 1) r.upper (omega arith),
        enough,
      )

  text_nonempty : (x : A) → 0 < length (bytes (law.glyphs x))
  text_nonempty x = nonempty (law.glyphs x) (law.plain x)

  limits_to_buf-full :
      (space : ℕ) (x y : A)
      → length (bytes (law.glyphs x)) ≡ s.size_buffer x
      → length (bytes (law.glyphs y)) ≡ s.size_buffer y
      → space ≡ 2 + s.size_buffer x + s.size_buffer y
      → limits_to_buf s space (record { lower = inclusive x; upper = inclusive y })
        ≡ err conversion_overrun
  unfolding limits_to_buf
  limits_to_buf-full space x y full_x full_y h =
      let n = length (bytes (law.glyphs x)) in
      let some_y = text_nonempty y in
      let left : (space - 1 - n == 0) ≡ false = ground arith in
      let short : ltb (space - 1 - n - 1 - length (bytes (law.glyphs y))) 2 ≡ true = ground arith in
      rw (
        bound_into_buf-text (space - 1) (inclusive x) (omega arith),
        left,
        bound_into_buf-text (space - 1 - n - 1) (inclusive y) (omega arith),
        short,
      )

  limits_to_buf-behind :
      (space : ℕ) (x : A) (u : Bound A)
      → length (bytes (law.glyphs x)) ≡ s.size_buffer x
      → space ≡ 1 + s.size_buffer x
      → limits_to_buf s space (record { lower = inclusive x; upper = u }) ≡ err out_of_bounds
  unfolding limits_to_buf
  limits_to_buf-behind space x u full h =
      let left : (space - 1 - length (bytes (law.glyphs x)) == 0) ≡ true = ground arith in
      rw (bound_into_buf-text (space - 1) (inclusive x) (omega arith), left)

module _ {A : Type 0} ⦃t : Element A⦄ (s : ElementText A) (law : IsConversion s) where
  -- The buffer that a range needs.
  abbrev pub range_room : Range A → ℕ
  range_room r =
      if empty r
      then length s_empty + 1
      else 4 + limit_room s law r.lower + limit_room s law r.upper

  -- The `size_buffer` of a range with two inclusive bounds is too small when the texts of both bounds
  -- are as long as their type's `size_buffer` allows: `to_buf` throws conversion_overrun with a buffer
  -- of just that size.
  pub range_size_buffer_too_small :
      (x y : A)
      → t.less y x ≡ false
      → length (bytes (law.glyphs x)) ≡ s.size_buffer x
      → length (bytes (law.glyphs y)) ≡ s.size_buffer y
      → let r : Range A = record { lower = inclusive x; upper = inclusive y } in
        range_to_buf s (range_size_buffer s r) r ≡ err conversion_overrun
  unfolding range_to_buf range_size_buffer empty is_exclusive value limit_size
  range_size_buffer_too_small x y le full_x full_y =
      let some_x = text_nonempty s law x in
      let some_y = text_nonempty s law y in
      let size : 1 + (s.size_buffer x - 1) + 1 + (s.size_buffer y - 1) + 2
          ≡ 2 + s.size_buffer x + s.size_buffer y =
        omega arith in
      let four : ltb (2 + s.size_buffer x + s.size_buffer y) 4 ≡ false = ground arith in
      rw (size, four) (limits_to_buf-full s law _ x y full_x full_y refl)

  -- In a buffer of at least four bytes that ends just behind the lower bound, the comma of a range that
  -- is not empty is written behind the end of the buffer, and no exception is thrown first.
  pub range_to_buf_out_of_bounds :
      (x : A) (u : Bound A)
      → empty (record { lower = inclusive x; upper = u }) ≡ false
      → length (bytes (law.glyphs x)) ≡ s.size_buffer x
      → 3 ≤ s.size_buffer x
      → range_to_buf s (1 + s.size_buffer x) (record { lower = inclusive x; upper = u })
        ≡ err out_of_bounds
  unfolding range_to_buf
  range_to_buf_out_of_bounds x u some_there full h =
      let four : ltb (1 + s.size_buffer x) 4 ≡ false = ground arith in
      rw (some_there, four) (limits_to_buf-behind s law _ x u full refl)
