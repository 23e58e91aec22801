-- ===== src/Range/Tests.antt =====
-- The ranges' theorems at concrete inputs.
use libpqxx.Prelude.{
  ℕ, ◌+◌, ◌≡◌, refl, ◌⊎◌, ◌↔◌, inl, inr, Bool, true, false, not, ◌&&◌, Bytes, codes, bytes_eq, List,
  [], ◌∷◌, length, ◌≤◌, ltb, ◌==◌, if◌then◌else◌, Result, ok, err, conversion_error,
  conversion_overrun, out_of_bounds, arith,
}
use libpqxx.Encoding.Scanner.{ascii_safe}
use libpqxx.Encoding.Finder.{is_needle}
use libpqxx.Composite.Fields.{IsUnquotedField}
use libpqxx.Encoding.Text.{Glyph, byte, bytes}
use libpqxx.Range.Bounds.{Element, no_bound, inclusive, exclusive, is_inclusive}
use libpqxx.Range.Ranges.{
  Range, make_range, crossed, empty_range, empty, contains, range_eq, intersection, contains_range,
}
use libpqxx.Range.Intersection.{contains-intersection, contains_range-contains, empty_exact}
use libpqxx.Range.Conversion.{convert, contains-convert}
use libpqxx.Range.Text.{ElementText, range_to_buf, range_from_string, range_size_buffer, says_empty}
use libpqxx.Range.Limits.{IsConversion}
use libpqxx.Range.Writing.{range_size_buffer_too_small, range_to_buf_out_of_bounds}
use libpqxx.Range.RoundTrip.{range_round_trip}

ltb_trans : (x y z : ℕ) → ltb x y ≡ true → ltb y z ≡ true → ltb x z ≡ true
ltb_trans x y z h k = ground arith

ltb_splits : (x y z : ℕ) → ltb x z ≡ true → (ltb x y ≡ true) ⊎ (ltb y z ≡ true)
ltb_splits x y z h = ground arith

ltb_equal : (x y : ℕ) → (x == y) ≡ true → (ltb x y ≡ false) × (ltb y x ≡ false)
ltb_equal x y h = ground arith

ltb_irrefl : (x : ℕ) → ltb x x ≡ false
ltb_irrefl x = ground arith

==_refl : (x : ℕ) → (x == x) ≡ true
==_refl x = ground arith

-- The numbers in their order, none of them null.
instance abbrev number : Element ℕ
number = record {
  less = ltb;
  equal = λ x y. x == y;
  is_null = λ x. false;
  initial = 0;
  irreflexive = ltb_irrefl;
  transitive = ltb_trans;
  splits = ltb_splits;
  equal_refl = ==_refl;
  equal_not_less = ltb_equal;
  initial_known = refl;
}

abbrev three_to_nine : Range ℕ
three_to_nine = record { lower = inclusive 3; upper = exclusive 9 }

abbrev above_five : Range ℕ
above_five = record { lower = exclusive 5; upper = no_bound }

contains-intersection_example :
    (r : Range ℕ) × (intersection three_to_nine above_five ≡ ok r)
    × ((v : ℕ) → contains r v ≡ contains three_to_nine v && contains above_five v)
contains-intersection_example = contains-intersection three_to_nine above_five

six_to_nine_in :
    contains_range above_five (record { lower = inclusive 6; upper = exclusive 9 }) ≡ ok true
unfolding contains_range
six_to_nine_in = refl

contains_range-contains_example : contains above_five 7 ≡ true
contains_range-contains_example =
    contains_range-contains above_five (record { lower = inclusive 6; upper = exclusive 9 }) 7
      six_to_nine_in (unfold contains in refl)

empty_exact_example : (empty three_to_nine ≡ true) ↔ ((v : ℕ) → contains three_to_nine v ≡ false)
empty_exact_example =
    empty_exact (inclusive 3) (exclusive 9) three_to_nine (unfold make_range in refl)
      (inl (unfold is_inclusive in refl))

ten_more :
    (q : Range ℕ) × (convert (λ n. n + 10) three_to_nine ≡ ok q)
    × ((v : ℕ) → contains q (v + 10) ≡ contains three_to_nine v)
ten_more =
    contains-convert (λ n. n + 10) (λ x y. ground arith) (λ x. refl) three_to_nine
      (unfold crossed in refl)

below : Bool → Bool → Bool
below false true = true
below false false = false
below true y = false

alike : Bool → Bool → Bool
alike true y = y
alike false y = not y

below_irrefl : (x : Bool) → below x x ≡ false
unfolding below
below_irrefl true = refl
below_irrefl false = refl

below_trans : (x y z : Bool) → below x y ≡ true → below y z ≡ true → below x z ≡ true
unfolding below
below_trans true y z h k = h
below_trans false true z h k = cc
below_trans false false z h k = k

below_splits : (x y z : Bool) → below x z ≡ true → (below x y ≡ true) ⊎ (below y z ≡ true)
unfolding below
below_splits true y z h = inl h
below_splits false true z h = inl refl
below_splits false false z h = inr h

alike_refl : (x : Bool) → alike x x ≡ true
unfolding alike
alike_refl true = refl
alike_refl false = refl

alike_not_below : (x y : Bool) → alike x y ≡ true → (below x y ≡ false) × (below y x ≡ false)
unfolding alike below
alike_not_below true true h = (refl, refl)
alike_not_below true false h = cc
alike_not_below false true h = cc
alike_not_below false false h = (refl, refl)

-- Booleans, false before true, written as "true" and "false".
instance abbrev boolean : Element Bool
boolean = record {
  less = below;
  equal = alike;
  is_null = λ x. false;
  initial = false;
  irreflexive = below_irrefl;
  transitive = below_trans;
  splits = below_splits;
  equal_refl = alike_refl;
  equal_not_less = alike_not_below;
  initial_known = refl;
}

abbrev word : Bool → List (Glyph ascii_safe)
word true = byte b't' ∷ byte b'r' ∷ byte b'u' ∷ byte b'e' ∷ []
word false = byte b'f' ∷ byte b'a' ∷ byte b'l' ∷ byte b's' ∷ byte b'e' ∷ []

abbrev word_size : Bool → ℕ
word_size x = length (bytes (word x))

abbrev from_word : Bytes → Result Bool
from_word text =
    if bytes_eq text (codes "true")
    then ok true
    else if bytes_eq text (codes "false")
    then ok false
    else err conversion_error

abbrev words : ElementText Bool
words = record {
  to_buf =
      λ space x. if ltb space (word_size x) then err conversion_overrun else ok (bytes (word x));
  from_string = from_word;
  size_buffer = word_size;
}

word-plain : (x : Bool) → IsUnquotedField (word x)
unfolding is_needle
word-plain true = ((refl, (refl, (refl, (refl, tt)))), λ (h : b't' ≡ b'"'). omega arith)
word-plain false = ((refl, (refl, (refl, (refl, (refl, tt))))), λ (h : b'f' ≡ b'"'). omega arith)

word-reads : (x : Bool) → from_word (bytes (word x)) ≡ ok x
unfolding bytes_eq
word-reads true = refl
word-reads false = refl

word-writes :
    (space : ℕ) (x : Bool)
    → word_size x ≤ space
    → (if ltb space (word_size x) then err conversion_overrun else ok (bytes (word x)))
      ≡ ok (bytes (word x))
word-writes space x h = let room : ltb space (word_size x) ≡ false = ground arith in rw room

abbrev words_law : IsConversion words
words_law = record {
  glyphs = word;
  plain = word-plain;
  writes = word-writes;
  fits = λ x. omega arith;
  reads = word-reads;
}

abbrev up_to_true : Range Bool
up_to_true = record { lower = exclusive false; upper = inclusive true }

range_round_trip_example :
    (text : Bytes) × (range_to_buf words 13 up_to_true ≡ ok text)
    × (q : Range Bool) × (range_from_string words text ≡ ok q)
    × (range_eq q up_to_true ≡ true)
range_round_trip_example =
    range_round_trip words words_law up_to_true 13 (unfold crossed below in refl) refl refl
      (unfold empty below in omega arith)

up_to_true_text : range_to_buf words 13 up_to_true ≡ ok (codes "(false,true]")
unfolding range_to_buf empty below
up_to_true_text = refl

comma_behind_the_end :
    range_to_buf words 6 (record { lower = inclusive false; upper = no_bound }) ≡ err out_of_bounds
comma_behind_the_end =
    range_to_buf_out_of_bounds words words_law false no_bound (unfold empty in refl) refl
      (omega arith)

upper_case_empty : range_from_string words (codes "EMPTY") ≡ empty_range
unfolding range_from_string says_empty empty_range
upper_case_empty = refl

range_size_buffer_too_small_example :
    range_to_buf words
      (range_size_buffer words (record { lower = inclusive false; upper = inclusive true }))
      (record { lower = inclusive false; upper = inclusive true })
    ≡ err conversion_overrun
range_size_buffer_too_small_example =
    range_size_buffer_too_small words words_law false true (unfold below in refl) refl refl
