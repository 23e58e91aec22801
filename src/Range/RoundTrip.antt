-- ===== src/Range/RoundTrip.antt =====
-- A range as text, and the text as a range.
use libpqxx.Prelude.{
  ℕ, suc, ◌+◌, ◌-◌, ◌≤◌, ◌≡◌, ◌⊎◌, refl, ap, ◌∙◌, subst, inl, inr, Bool, true, false, not, ◌&&◌,
  ◌||◌, Bytes, byte_at, byte_at-last, [], ◌∷◌, ◌++◌, append_assoc, length, length-append, ltb, leb,
  ◌==◌, Option, ok, arith, Bool-cases,
}
use libpqxx.Encoding.Scanner.{ascii_safe}
use libpqxx.Composite.Reader.{
  comma, open_parenthesis, close_parenthesis, close_bracket, parse_composite_field,
}
use libpqxx.Composite.Cells.{specialize-known}
use libpqxx.Range.Bounds.{
  Element, Bound, no_bound, inclusive, exclusive, is_inclusive, is_exclusive, is_limited, value,
  inclusive_bound, exclusive_bound, bound_eq,
}
use libpqxx.Range.Ranges.{Range, crossed, make_range, empty_range, empty, range_eq}
use libpqxx.Range.Text.{
  ElementText, open_bracket, s_empty, optional_reader, says_empty, read_bound, read_limits,
  range_to_buf, range_from_string,
}
use libpqxx.Range.Writing.{range_room, limits_to_buf-text}
use libpqxx.Range.Limits.{
  IsConversion, known, limit_text, opening, closing, closing-bracket, limits_text, parse_lower,
  parse_upper,
}

or_true : (a : Bool) → (a || true) ≡ true
or_true true = refl
or_true false = refl

module _ {A : Type 0} ⦃t : Element A⦄ where
  -- The value of a bound is not null.
  abbrev pub IsKnown : Bound A → Type 0
  IsKnown no_bound = Unit {0}
  IsKnown (inclusive x) = t.is_null x ≡ false
  IsKnown (exclusive x) = t.is_null x ≡ false

  read_bound-opening :
      (b : Bound A) → IsKnown b → read_bound (opening b == open_bracket) (value b) ≡ ok b
  unfolding read_bound value inclusive_bound exclusive_bound is_inclusive
  read_bound-opening no_bound h = refl
  read_bound-opening (inclusive x) h = rw h
  read_bound-opening (exclusive x) h = rw h

  read_bound-closing :
      (b : Bound A) → IsKnown b → read_bound (closing b == close_bracket) (value b) ≡ ok b
  unfolding read_bound value inclusive_bound exclusive_bound is_inclusive
  read_bound-closing no_bound h = refl
  read_bound-closing (inclusive x) h = rw h
  read_bound-closing (exclusive x) h = rw h

module _ {A : Type 0} ⦃t : Element A⦄ (s : ElementText A) (law : IsConversion s) where
  -- The steps behind the two calls of the field parser.
  read_limits-parsed :
      (text : Bytes) (lower upper : Option A) (l u : Bound A) (index index' pos : ℕ)
      → parse_composite_field ascii_safe (optional_reader s) 0 text 1 1 ≡ ok (lower, index, pos)
      → parse_composite_field ascii_safe (optional_reader s) index text pos 1
        ≡ ok (upper, index', length text)
      → (byte_at text (length text - 1) ≡ close_parenthesis)
        ⊎ (byte_at text (length text - 1) ≡ close_bracket)
      → read_bound (byte_at text 0 == open_bracket) lower ≡ ok l
      → read_bound (byte_at text (length text - 1) == close_bracket) upper ≡ ok u
      → read_limits s text ≡ make_range l u
  unfolding read_limits
  read_limits-parsed text lower upper l u index index' pos first second closed lows ups =
      let whole : (length text == length text) ≡ true = ground arith in
      let c = byte_at text (length text - 1) in
      let bracket : (not (c == close_parenthesis) && not (c == close_bracket)) ≡ false =
        ground arith in
      rw
        (specialize-known {A = Option A} ascii_safe known, first, second, whole, bracket, lows, ups)

  read_limits-text :
      (l u : Bound A)
      → IsKnown l
      → IsKnown u
      → read_limits s (limits_text s law l u) ≡ make_range l u
  read_limits-text l u hl hu =
      let front = opening l ∷ limit_text s law l in
      let text = limits_text s law l u in
      let shape : (front ++ comma ∷ limit_text s law u) ++ closing u ∷ [] ≡ text =
        append_assoc front (comma ∷ limit_text s law u) (closing u ∷ []) in
      let last : byte_at text (length text - 1) ≡ closing u =
        subst (λ (q : Bytes). byte_at q (length q - 1) ≡ closing u) shape
          (byte_at-last (front ++ comma ∷ limit_text s law u) (closing u)) in
      let upper : read_bound (byte_at text (length text - 1) == close_bracket) (value u) ≡ ok u =
        ap (λ (c : ℕ). read_bound (c == close_bracket) (value u)) last ∙ read_bound-closing u hu in
      let closed : (byte_at text (length text - 1) ≡ close_parenthesis)
          ⊎ (byte_at text (length text - 1) ≡ close_bracket) =
        elim (closing-bracket u) [ inl e ↦ inl (last ∙ e) | inr e ↦ inr (last ∙ e) ] in
      read_limits-parsed text (value l) (value u) l u 1 2 (length front + 1) (parse_lower s law l u)
        (parse_upper s law u front) closed (read_bound-opening l hl) upper

  range_from_string-limits :
      (l u : Bound A)
      → IsKnown l
      → IsKnown u
      → range_from_string s (limits_text s law l u) ≡ make_range l u
  unfolding range_from_string
  range_from_string-limits l u hl hu =
      let c = opening l in
      let rest = limit_text s law l ++ comma ∷ (limit_text s law u ++ closing u ∷ []) in
      let long : ltb (suc (length rest)) 3 ≡ false = ground (
        arith,
        length-append (limit_text s law l) (comma ∷ (limit_text s law u ++ closing u ∷ [])),
        length-append (limit_text s law u) (closing u ∷ []),
      ) in
      let starts : (c == open_bracket || c == open_parenthesis) ≡ true = ground arith in
      rw (long, starts) (read_limits-text l u hl hu)

  bound_eq_refl : (b : Bound A) → bound_eq b b ≡ true
  unfolding bound_eq is_limited is_inclusive value
  bound_eq_refl no_bound = refl
  bound_eq_refl (inclusive x) = t.equal_refl x
  bound_eq_refl (exclusive x) = t.equal_refl x

  from_string_empty :
      (r : Range A)
      → empty r ≡ true
      → (q : Range A) × (range_from_string s s_empty ≡ ok q) × (range_eq q r ≡ true)
  unfolding range_from_string says_empty empty_range exclusive_bound range_eq
  from_string_empty r h =
      let q : Range A = record { lower = exclusive t.initial; upper = exclusive t.initial } in
      let nothing : empty q ≡ true =
        unfold empty is_exclusive is_limited value in rw (t.irreflexive t.initial) in
      (
        q,
        rw t.initial_known,
        rw (nothing, h) (or_true (bound_eq q.lower r.lower && bound_eq q.upper r.upper)),
      )

  -- Every range that the constructor admits, whose bounds are not null and whose type's values need no
  -- quotes, is written to a buffer of enough room, and the text is read back as an equal range: the
  -- word for an empty range, and both brackets, the bounds and missing bounds for any other.
  pub range_round_trip :
      (r : Range A) (space : ℕ)
      → crossed r.lower r.upper ≡ false
      → IsKnown r.lower
      → IsKnown r.upper
      → range_room s law r ≤ space
      → (text : Bytes) × (range_to_buf s space r ≡ ok text)
        × (q : Range A) × (range_from_string s text ≡ ok q)
        × (range_eq q r ≡ true)
  unfolding range_to_buf make_range
  range_round_trip r space valid kl ku fits = elim (Bool-cases (empty r)) [
    | inl none_there ↦
        let fits' = rw none_there at fits in
        let room : leb space 5 ≡ false = ground arith in
        let (q, read, same) = from_string_empty r none_there in
        (s_empty, rw (none_there, room), q, read, same)
    | inr some_there ↦
        let fits' = rw some_there at fits in
        let room : ltb space 4 ≡ false = ground arith in
        let read : range_from_string s (limits_text s law r.lower r.upper) ≡ ok r =
          range_from_string-limits r.lower r.upper kl ku ∙ rw valid in
        (
          limits_text s law r.lower r.upper,
          rw (some_there, room) (limits_to_buf-text s law space r fits'),
          r,
          read,
          unfold range_eq in rw (bound_eq_refl r.lower, bound_eq_refl r.upper),
        )
  ]
