-- ===== src/Array/Filling.antt =====
-- `pqxx::array` of one dimension on the SQL text of a list of elements.
use libpqxx.Prelude.{
  ℕ, zero, suc, ◌+◌, ◌≤◌, ◌<◌, ◌≡◌, ◌≢◌, refl, ap, ◌∙◌, inl, inr, Bytes, byte_at, byte_at-length,
  byte_at-append, List, [], ◌∷◌, ◌++◌, append-nil, append_assoc, length, length-append, ◌==◌, ltb,
  leb, arith, true, false, ok, none, add-zero,
}
use libpqxx.Encoding.Scanner.{EncodingGroup, unknown}
use libpqxx.Array.Writer.{open_brace, close_brace, separator}
use libpqxx.Array.Items.{
  Item, Items, none, more, IsBudgeted, AreBudgeted, render, render_first, render_rest,
}
use libpqxx.Array.Reading.{IsTail}
use libpqxx.Array.Container.{
  parse_field_end, Parsing, outer, dim_up, dim_down, close_row, add_element, parse_round,
  parse_rounds,
}
use libpqxx.Composite.Reader.{FieldReader}
use libpqxx.Array.ItemReading.{Reads, ReadsAll, Item-start, read_element-Item}

-- What may follow an element or a row.
field_end-close :
    (q tail : Bytes)
    → parse_field_end separator (q ++ close_brace ∷ tail) (length q) ≡ ok (length q)
unfolding parse_field_end
field_end-close q tail =
    ground (arith, byte_at-length q close_brace tail, length-append q (close_brace ∷ tail))

field_end-separator :
    (q : Bytes) (c : ℕ) (tail : Bytes)
    → c ≢ separator
    → c ≢ close_brace
    → parse_field_end separator (q ++ separator ∷ c ∷ tail) (length q) ≡ ok (length q + 1)
unfolding parse_field_end
field_end-separator q c tail hs hc =
    let input = q ++ separator ∷ c ∷ tail in
    let first : byte_at input (length q) ≡ separator = byte_at-length q separator (c ∷ tail) in
    let second : byte_at input (length q + 1) ≡ c = byte_at-append q (separator ∷ c ∷ tail) 1 in
    let size : length input ≡ length q + suc (suc (length tail)) =
      length-append q (separator ∷ c ∷ tail) in
    let inside : ltb (length q) (length input) ≡ true = ground arith in
    let more_left : leb (length input) (length q + 1) ≡ false = ground arith in
    let no_sep : (c == separator) ≡ false = ground arith in
    let no_close : (c == close_brace) ≡ false = ground arith in
    rw (inside, first, more_left, second, no_sep, no_close)

field_end-end : (q : Bytes) → parse_field_end separator q (length q) ≡ ok (length q)
unfolding parse_field_end
field_end-end q = let past : ltb (length q) (length q) ≡ false = ground arith in rw past

-- The dimension behind the only one, in both directions.
pub dim_up-outer : dim_up outer ≡ 0
unfolding dim_up outer
dim_up-outer = refl

dim_down-zero : dim_down 0 ≡ outer
unfolding dim_down outer
dim_down-zero = refl

outer_is_not_zero : (0 == outer) ≡ false
unfolding outer
outer_is_not_zero = refl

module _ {A : Type 0} where
  -- In the only row, with `k` elements read.
  abbrev pub inside_row : ℕ → ℕ → List A → Parsing A
  inside_row k e acc = record {
    know_extents_from = 1;
    dim = 0;
    counts = k ∷ [];
    extents = e ∷ [];
    elts = acc;
  }

  -- Behind it.
  abbrev pub behind_row : ℕ → List A → Parsing A
  behind_row k acc = record {
    know_extents_from = 0;
    dim = outer;
    counts = k ∷ [];
    extents = k ∷ [];
    elts = acc;
  }

module _ {A : Type 0} (enc : EncodingGroup) (reader : FieldReader A) where
  close_round :
      (pre : Bytes) (k e : ℕ) (acc : List A)
      → parse_round separator enc reader 1
          (pre ++ close_brace ∷ [])
          (length pre)
          (inside_row k e acc)
        ≡ ok (length (pre ++ close_brace ∷ []), behind_row k acc)
  unfolding parse_round close_row
  close_round pre k e acc =
      let here : byte_at (pre ++ close_brace ∷ []) (length pre) ≡ close_brace =
        byte_at-length pre close_brace [] in
      let next : length pre + 1 ≡ length (pre ++ close_brace ∷ []) =
        omega (arith, length-append {0} pre (close_brace ∷ [])) in
      rw (here, outer_is_not_zero, next, field_end-end (pre ++ close_brace ∷ []), dim_down-zero)

  -- A round at an element, with where `parse_field_end` goes from its end.
  element_round :
      (x : Item enc) (v : A) (pre tail : Bytes) (k e next : ℕ) (acc : List A)
      → enc ≢ unknown
      → IsBudgeted x
      → Reads reader x v
      → IsTail tail
      → parse_field_end separator (pre ++ (render x ++ tail)) (length (pre ++ render x)) ≡ ok next
      → parse_round separator enc reader 1
          (pre ++ (render x ++ tail))
          (length pre)
          (inside_row k e acc)
        ≡ ok (next, inside_row (k + 1) e (acc ++ v ∷ []))
  unfolding parse_round add_element
  element_round x v pre tail k e next acc known b r h ended =
      let (c, rest, starts, z, s, o, cl) = Item-start reader x v b r in
      let here : byte_at (pre ++ (render x ++ tail)) (length pre) ≡ c =
        rw starts (byte_at-length pre c (rest ++ tail)) in
      let no_open : (c == open_brace) ≡ false = ground arith in
      let no_close : (c == close_brace) ≡ false = ground arith in
      rw (here, no_open, no_close, read_element-Item reader x v pre tail known b r h, ended)

  pub parse_rounds-step :
      (fuel here next : ℕ) (input : Bytes) (p q : Parsing A)
      → here < length input
      → parse_round separator enc reader 1 input here p ≡ ok (next, q)
      → parse_rounds (suc fuel) separator enc reader 1 input here p
        ≡ parse_rounds fuel separator enc reader 1 input next q
  unfolding parse_rounds
  parse_rounds-step fuel here next input p q h round =
      let inside : ltb here (length input) ≡ true = ground arith in rw (inside, round)

  parse_rounds-end :
      (fuel : ℕ) (input : Bytes) (p : Parsing A)
      → parse_rounds (suc fuel) separator enc reader 1 input (length input) p ≡ ok p
  unfolding parse_rounds
  parse_rounds-end fuel input p =
      let past : ltb (length input) (length input) ≡ false = ground arith in rw past

  row_step :
      (x : Item enc) (v : A) (pre tail : Bytes) (fuel k e next : ℕ) (acc : List A)
      → enc ≢ unknown
      → IsBudgeted x
      → Reads reader x v
      → IsTail tail
      → parse_field_end separator (pre ++ (render x ++ tail)) (length (pre ++ render x)) ≡ ok next
      → parse_rounds
          (suc fuel)
          separator
          enc
          reader
          1
          (pre ++ (render x ++ tail))
          (length pre)
          (inside_row k e acc)
        ≡ parse_rounds fuel separator enc reader 1
            (pre ++ (render x ++ tail))
            next
            (inside_row (k + 1) e (acc ++ v ∷ []))
  row_step x v pre tail fuel k e next acc known b r h ended =
      let (c, rest, starts, z, sp, o, cl) = Item-start reader x v b r in
      let some_text : 0 < length (render x) = rw starts (omega arith) in
      parse_rounds-step fuel (length pre) next (pre ++ (render x ++ tail)) (inside_row k e acc)
        (inside_row (k + 1) e (acc ++ v ∷ []))
        (omega (arith, length-append {0} pre (render x ++ tail), length-append {0} (render x) tail))
        (element_round x v pre tail k e next acc known b r h ended)

  row_end :
      (pre : Bytes) (fuel k e : ℕ) (acc : List A)
      → parse_rounds
          (suc (suc fuel))
          separator
          enc
          reader
          1
          (pre ++ close_brace ∷ [])
          (length pre)
          (inside_row k e acc)
        ≡ ok (behind_row k acc)
  row_end pre fuel k e acc =
      let input = pre ++ close_brace ∷ [] in
      parse_rounds-step (suc fuel) (length pre) (length input) input (inside_row k e acc)
        (behind_row k acc) (omega (arith, length-append {0} pre (close_brace ∷ [])))
        (close_round pre k e acc)
      ∙ parse_rounds-end fuel input (behind_row k acc)

  -- The rounds from an element or the closing brace on.
  pub parse_rounds-row :
      (xs : Items enc) (vs : List A) (pre : Bytes) (fuel k e : ℕ) (acc : List A)
      → enc ≢ unknown
      → AreBudgeted xs
      → ReadsAll reader xs vs
      → length vs + 2 ≤ fuel
      → parse_rounds fuel separator enc reader 1
          (pre ++ render_first xs)
          (length pre)
          (inside_row k e acc)
        ≡ ok (behind_row (k + length vs) (acc ++ vs))
  unfolding render
  parse_rounds-row xs vs pre zero k e acc known b r fits = absurd (omega arith)
  parse_rounds-row xs vs pre (suc zero) k e acc known b r fits = absurd (omega arith)
  parse_rounds-row none (v ∷ vs) pre (suc (suc fuel)) k e acc known b r fits = absurd r
  parse_rounds-row (more x xs) [] pre (suc (suc fuel)) k e acc known b r fits = absurd r
  parse_rounds-row none [] pre (suc (suc fuel)) k e acc known b r fits =
      rw (append-nil acc, add-zero k) (row_end pre fuel k e acc)
  parse_rounds-row (more x none) (v ∷ w ∷ vs) pre (suc (suc fuel)) k e acc known b r fits =
      absurd r.1
  parse_rounds-row (more x none) (v ∷ []) pre (suc (suc fuel)) k e acc known b r fits =
      let pre' = pre ++ render x in
      let shape : pre' ++ close_brace ∷ [] ≡ pre ++ (render x ++ close_brace ∷ []) =
        append_assoc pre (render x) (close_brace ∷ []) in
      let ended = rw shape at (field_end-close pre' []) in
      let behind =
        parse_rounds-row none [] pre' (suc fuel) (k + 1) e (acc ++ v ∷ []) known tt tt
          (omega arith) in
      row_step x v pre (close_brace ∷ []) (suc fuel) k e (length pre') acc known b.0 r.0 (inr refl)
        ended
      ∙ rw (shape, append-nil (acc ++ v ∷ []), add-zero (k + 1)) at behind
  parse_rounds-row (more x (more y ys)) (v ∷ []) pre (suc (suc fuel)) k e acc known b r fits =
      absurd r.1
  parse_rounds-row (more x (more y ys)) (v ∷ w ∷ ws) pre (suc (suc fuel)) k e acc known b r fits =
      let front = pre ++ render x in
      let pre' = front ++ separator ∷ [] in
      let others = render_first (more y ys) in
      let (c, rest, starts, z, sp, o, cl) = Item-start reader y w b.1.0 r.1.0 in
      let shape : front ++ separator ∷ others ≡ pre ++ (render x ++ separator ∷ others) =
        append_assoc pre (render x) (separator ∷ others) in
      let shape' : pre' ++ others ≡ pre ++ (render x ++ separator ∷ others) =
        append_assoc front (separator ∷ []) others ∙ shape in
      let begins : others ≡ c ∷ (rest ++ render_rest ys) =
        ap (λ (t : Bytes). t ++ render_rest ys) starts in
      let size : length pre' ≡ length front + 1 = length-append front (separator ∷ []) in
      let ended : parse_field_end separator (front ++ separator ∷ others) (length front)
          ≡ ok (length pre') =
        rw (begins, size) (field_end-separator front c (rest ++ render_rest ys) sp cl) in
      let behind =
        parse_rounds-row (more y ys) (w ∷ ws) pre' (suc fuel) (k + 1) e (acc ++ v ∷ []) known b.1
          r.1 (omega arith) in
      let count : k + 1 + length (w ∷ ws) ≡ k + length (v ∷ w ∷ ws) = omega arith in
      let values : (acc ++ v ∷ []) ++ w ∷ ws ≡ acc ++ v ∷ w ∷ ws =
        append_assoc acc (v ∷ []) (w ∷ ws) in
      row_step x v pre (separator ∷ others) (suc fuel) k e (length pre') acc known b.0 r.0
        (inl refl) (rw shape at ended)
      ∙ rw (shape', count, values) at behind
