-- ===== src/Array/OneDimension.antt =====
-- The SQL text of a list of elements, as an array of one dimension.
use libpqxx.Prelude.{
  ℕ, ◌+◌, ◌-◌, ◌*◌, ◌≤◌, ◌<◌, ◌≡◌, ◌≢◌, refl, sym, ap, ◌∙◌, subst, Bytes, byte_at, byte_at-last,
  List, [], ◌∷◌, ◌++◌, append_assoc, length, length-append, ◌==◌, ltb, arith, true, false, ok, none,
  some, get_elem?,
}
use libpqxx.Prelude.Int.{pos}
use libpqxx.Encoding.Scanner.{EncodingGroup, unknown, ascii_safe, two_tier, gb18030, sjis}
use libpqxx.Array.Writer.{open_brace, close_brace, separator, size_buffers, array_to_buf}
use libpqxx.Array.Items.{
  Items, row, none, more, AreBudgeted, render, render_first, render_rest, to_elements,
}
use libpqxx.Array.WritingAll.{array_to_buf-render}
use libpqxx.Array.Extents.{Array, init_factors, factors_loop, at}
use libpqxx.Array.Indexing.{IsConsistent, at-row_major}
use libpqxx.Array.Container.{
  check_open, check_close, check_dims, outer, open_row, parse_round, parse, make_array,
}
use libpqxx.Array.Filling.{dim_up-outer, inside_row, parse_rounds-row, parse_rounds-step}
use libpqxx.Array.ItemReading.{ReadsAll, Item-start}
use libpqxx.Composite.Reader.{FieldReader}

-- A row ends in a closing brace.
mutual
  unfolding render

  rest_end :
      {enc : EncodingGroup} (xs : Items enc)
      → (init : Bytes) × (render_rest xs ≡ init ++ close_brace ∷ [])
  rest_end none = ([], refl)
  rest_end (more x xs) =
      let (init, ends) = rest_end xs in
      (
        separator ∷ (render x ++ init),
        ap (λ t. separator ∷ t)
            (ap (λ t. render x ++ t) ends ∙ sym (append_assoc (render x) init (close_brace ∷ []))),
      )

first_end :
    {enc : EncodingGroup} (xs : Items enc)
    → (init : Bytes) × (render_first xs ≡ init ++ close_brace ∷ [])
unfolding render
first_end none = ([], refl)
first_end (more x xs) =
    let (init, ends) = rest_end xs in
    (
      render x ++ init,
      ap (λ t. render x ++ t) ends ∙ sym (append_assoc (render x) init (close_brace ∷ [])),
    )

module _ {A : Type 0} (enc : EncodingGroup) (reader : FieldReader A) where
  first_byte :
      (xs : Items enc) (vs : List A)
      → AreBudgeted xs
      → ReadsAll reader xs vs
      → (byte_at (render_first xs) 0 == open_brace) ≡ false
  unfolding render
  first_byte none vs b r = refl
  first_byte (more x xs) [] b r = absurd r
  first_byte (more x xs) (v ∷ vs) b r =
      let (c, rest, starts, z, s, o, e) = Item-start reader x v b.0 r.0 in
      let no : (c == open_brace) ≡ false = ground arith in rw (starts, no)

  length-rest :
      (xs : Items enc) (vs : List A)
      → ReadsAll reader xs vs
      → length vs + 1 ≤ length (render_rest xs)
  unfolding render
  length-rest none [] r = omega arith
  length-rest none (v ∷ vs) r = absurd r
  length-rest (more x xs) [] r = absurd r
  length-rest (more x xs) (v ∷ vs) r =
      let rest = length-rest xs vs r.1 in
      omega (arith, length-append {0} (render x) (render_rest xs))

  -- There are at least as many rounds as elements.
  length-items :
      (xs : Items enc) (vs : List A)
      → AreBudgeted xs
      → ReadsAll reader xs vs
      → length vs + 1 ≤ length (render_first xs)
  unfolding render
  length-items none [] b r = omega arith
  length-items none (v ∷ vs) b r = absurd r
  length-items (more x xs) [] b r = absurd r
  length-items (more x xs) (v ∷ vs) b r =
      let (c, text, starts, z, s, o, e) = Item-start reader x v b.0 r.0 in
      let some_text : 0 < length (render x) = rw starts (omega arith) in
      let rest = length-rest xs vs r.1 in
      omega (arith, length-append {0} (render x) (render_rest xs))

  check_dims-row :
      (xs : Items enc) (vs : List A)
      → AreBudgeted xs
      → ReadsAll reader xs vs
      → check_dims 1 (open_brace ∷ render_first xs) ≡ ok tt
  unfolding check_dims check_open check_close
  check_dims-row xs vs b r =
      let input = open_brace ∷ render_first xs in
      let (init, ends) = first_end xs in
      let whole : input ≡ (open_brace ∷ init) ++ close_brace ∷ [] = ap (λ t. open_brace ∷ t) ends in
      let index : length input - 1 - 0 ≡ length input - 1 = omega arith in
      let last : byte_at input (length input - 1 - 0) ≡ close_brace =
        ap (byte_at input) index
        ∙ subst (λ (t : Bytes). byte_at t (length t - 1) ≡ close_brace) (sym whole)
            (byte_at-last (open_brace ∷ init) close_brace) in
      let size = length-items xs vs b r in
      let long : ltb (length input) (1 * 2) ≡ false = ground arith in
      rw (long, first_byte xs vs b r, last)

  -- The opening brace.
  open_round :
      (rest : Bytes) (e : ℕ)
      → parse_round separator enc reader 1 (open_brace ∷ rest) 0 (record {
        know_extents_from = 1;
        dim = outer;
        counts = 0 ∷ [];
        extents = e ∷ [];
        elts = [];
      })
        ≡ ok (1, inside_row 0 e [])
  unfolding parse_round open_row
  open_round rest e = let start : (outer == outer) ≡ true = ground arith in rw (start, dim_up-outer)

  parse_row :
      (xs : Items enc) (vs : List A) (e : ℕ)
      → enc ≢ unknown
      → AreBudgeted xs
      → ReadsAll reader xs vs
      → parse separator enc reader 1 (e ∷ []) [] (render (row xs))
        ≡ ok (record { elts = vs; extents = length vs ∷ []; factors = [] })
  unfolding parse init_factors factors_loop render
  parse_row xs vs e known b r =
      let input = open_brace ∷ render_first xs in
      let size = length-items xs vs b r in
      let begin =
        parse_rounds-step enc reader (length input) 0 1 input _ (inside_row 0 e []) (omega arith)
          (open_round (render_first xs) e) in
      let rounds =
        parse_rounds-row enc reader xs vs (open_brace ∷ []) (length input) 0 e [] known b r
          (omega arith) in
      let finish : (outer == outer) ≡ true = ground arith in
      let count : 0 + length vs ≡ length vs = omega arith in
      rw (check_dims-row xs vs b r, begin, rounds, finish, count)

make_array-known :
    {A : Type 0} (enc : EncodingGroup) (reader : FieldReader A) (extents factors : List ℕ)
    (input : Bytes)
    → enc ≢ unknown
    → make_array separator enc reader 1 extents factors input
      ≡ parse separator enc reader 1 extents factors input
unfolding make_array
make_array-known unknown reader extents factors input known = absurd (known refl)
make_array-known ascii_safe reader extents factors input known = refl
make_array-known two_tier reader extents factors input known = refl
make_array-known gb18030 reader extents factors input known = refl
make_array-known sjis reader extents factors input known = refl

row_IsConsistent :
    {A : Type 0} (vs : List A)
    → IsConsistent (record { elts = vs; extents = length vs ∷ []; factors = [] })
unfolding init_factors factors_loop
row_IsConsistent vs = record {
  before = [];
  dimensions = refl;
  computed = refl;
  filled = omega arith;
}

at-row :
    {A : Type 0} (vs : List A) (i : ℕ)
    → i < length vs
    → (v : A) × (at (record { elts = vs; extents = length vs ∷ []; factors = [] }) (pos i ∷ [])
        ≡ ok v)
      × (get_elem? vs i ≡ some v)
at-row vs i h =
    let a : Array _ = record { elts = vs; extents = length vs ∷ []; factors = [] } in
    let (v, found, there, own) = at-row_major a (i ∷ []) (row_IsConsistent vs) (h, tt) in
    let place : i * 1 + 0 ≡ i = omega arith in
    (v, found, ap (λ (k : ℕ). get_elem? vs k) (sym place) ∙ there)

-- An array that `array_into_buf` writes is read back by the one-dimensional `pqxx::array`
-- in the same encoding group: its elements are the values in order, its extent is their number, and
-- `at` with any number below it returns the value at that place. The elements are nulls and texts
-- which the element type's reader reads, and the buffer has the size that `size_buffer` asks for.
pub array_container_round_trip :
    {A : Type 0} {enc : EncodingGroup} (reader : FieldReader A) (xs : Items enc) (vs : List A)
    (size e : ℕ)
    → enc ≢ unknown
    → AreBudgeted xs
    → ReadsAll reader xs vs
    → size_buffers (to_elements xs) + 2 ≤ size
    → (written : Bytes) × (a : Array A) × (array_to_buf enc size (to_elements xs) ≡ ok written)
      × (make_array separator enc reader 1 (e ∷ []) [] written ≡ ok a)
      × (a.elts ≡ vs)
      × (a.extents ≡ length vs ∷ [])
      × ((i : ℕ) → i < length vs → (v : A) × (at a (pos i ∷ []) ≡ ok v) × (get_elem? vs i ≡ some v))
array_container_round_trip {enc = enc} reader xs vs size e known b r fits =
    let a : Array _ = record { elts = vs; extents = length vs ∷ []; factors = [] } in
    (
      render (row xs),
      a,
      (array_to_buf-render xs size known b fits).0,
      make_array-known enc reader (e ∷ []) [] (render (row xs)) known
          ∙ parse_row enc reader xs vs e known b r,
      refl,
      refl,
      at-row vs,
    )
