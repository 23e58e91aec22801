-- ===== src/Strconv/Booleans.antt =====
-- `string_traits<bool>` (src/strconv.cxx and include/pqxx/internal/conversions.hxx).
use libpqxx.Prelude.{
  ℕ, ◌≡◌, refl, sym, ◌∙◌, ◌≢◌, Bool, true, false, ◌||◌, ◌&&◌, Bytes, codes, byte_at, bytes_eq, List,
  [], ◌∷◌, length, ◌==◌, if◌then◌else◌, arith, Option, none, some, Result, ok, err,
  conversion_error,
}

-- `result` of the two inner tests.
abbrev pub digit_or_initial : ℕ → Option Bool
digit_or_initial c =
    if (c == b'f') || (c == b'F') || (c == b'0')
    then some false
    else if (c == b't') || (c == b'T') || (c == b'1')
    then some true
    else none

abbrev pub word : Bytes → Bytes → Bool → Bytes → Option Bool
word lower upper value text =
    if bytes_eq text lower || bytes_eq text upper then some value else none

-- The `switch` on the size.
abbrev pub bool_result : Bytes → Option Bool
bool_result text =
    if length text == 0
    then some false
    else if length text == 1
    then digit_or_initial (byte_at text 0)
    else if length text == 4
    then word (codes "true") (codes "TRUE") true text
    else if length text == 5
    then word (codes "false") (codes "FALSE") false text
    else none

abbrev pub value_or_error : Option Bool → Result Bool
value_or_error (some b) = ok b
value_or_error none = err conversion_error

unfoldable pub bool_from_string : Bytes → Result Bool
bool_from_string text = value_or_error (bool_result text)

unfoldable pub bool_to_buf : Bool → Bytes
bool_to_buf value = if value then codes "true" else codes "false"

-- The texts that stand for a Boolean value.
abbrev pub spellings : List (Bytes × Bool)
spellings =
    (codes "", false)
    ∷ (codes "f", false)
    ∷ (codes "F", false)
    ∷ (codes "0", false)
    ∷ (codes "false", false)
    ∷ (codes "FALSE", false)
    ∷ (codes "t", true)
    ∷ (codes "T", true)
    ∷ (codes "1", true)
    ∷ (codes "true", true)
    ∷ (codes "TRUE", true)
    ∷ []

abbrev pub spelled : List (Bytes × Bool) → Bytes → Result Bool
spelled [] text = err conversion_error
spelled ((s, b) ∷ rest) text = if bytes_eq text s then ok b else spelled rest text

and_false : (b : Bool) → b && false ≡ false
and_false false = refl
and_false true = refl

bytes_eq-length : (a b : Bytes) → length a ≢ length b → bytes_eq a b ≡ false
unfolding bytes_eq
bytes_eq-length [] [] h = absurd (h refl)
bytes_eq-length [] (y ∷ b) h = refl
bytes_eq-length (x ∷ a) [] h = refl
bytes_eq-length (x ∷ a) (y ∷ b) h =
    let rest = bytes_eq-length a b (omega arith) in rw rest (and_false (x == y))

abbrev either : Bool → Bool → Bool → Result Bool
either value lower upper =
    if lower then ok value else if upper then ok value else err conversion_error

two_words :
    (value lower upper : Bool)
    → value_or_error (if lower || upper then some value else none) ≡ either value lower upper
two_words value lower upper = ground arith

-- A text of four or five bytes is compared with two of the spellings.
four_bytes :
    (text : Bytes)
    → length text ≡ 4
    → spelled spellings text
      ≡ either true (bytes_eq text (codes "true")) (bytes_eq text (codes "TRUE"))
four_bytes text h =
    let other : (s : Bytes) → length s ≢ 4 → bytes_eq text s ≡ false =
      λ s k. bytes_eq-length text s (λ e. k (sym e ∙ h)) in
    rw
      (
        other (codes "") (omega arith),
        other (codes "f") (omega arith),
        other (codes "F") (omega arith),
        other (codes "0") (omega arith),
        other (codes "t") (omega arith),
        other (codes "T") (omega arith),
        other (codes "1") (omega arith),
        other (codes "false") (omega arith),
        other (codes "FALSE") (omega arith),
      )
      refl

four_bytes_result :
    (text : Bytes) → length text ≡ 4 → bool_from_string text ≡ spelled spellings text
unfolding bool_from_string
four_bytes_result text h =
    rw (h, four_bytes text h)
      (two_words true (bytes_eq text (codes "true")) (bytes_eq text (codes "TRUE")))

five_bytes :
    (text : Bytes)
    → length text ≡ 5
    → spelled spellings text
      ≡ either false (bytes_eq text (codes "false")) (bytes_eq text (codes "FALSE"))
five_bytes text h =
    let other : (s : Bytes) → length s ≢ 5 → bytes_eq text s ≡ false =
      λ s k. bytes_eq-length text s (λ e. k (sym e ∙ h)) in
    rw
      (
        other (codes "") (omega arith),
        other (codes "f") (omega arith),
        other (codes "F") (omega arith),
        other (codes "0") (omega arith),
        other (codes "t") (omega arith),
        other (codes "T") (omega arith),
        other (codes "1") (omega arith),
        other (codes "true") (omega arith),
        other (codes "TRUE") (omega arith),
      )
      refl

five_bytes_result :
    (text : Bytes) → length text ≡ 5 → bool_from_string text ≡ spelled spellings text
unfolding bool_from_string
five_bytes_result text h =
    rw (h, five_bytes text h)
      (two_words false (bytes_eq text (codes "false")) (bytes_eq text (codes "FALSE")))

-- Reading a Boolean value is looking the text up in the table of spellings, and a conversion error
-- where it is not there.
pub bool_from_string-spelled : (text : Bytes) → bool_from_string text ≡ spelled spellings text
unfolding bool_from_string bytes_eq
bool_from_string-spelled [] = ground arith
bool_from_string-spelled (a ∷ []) = ground arith
bool_from_string-spelled (a ∷ b ∷ []) = ground arith
bool_from_string-spelled (a ∷ b ∷ c ∷ []) = ground arith
bool_from_string-spelled (a ∷ b ∷ c ∷ d ∷ []) = four_bytes_result (a ∷ b ∷ c ∷ d ∷ []) refl
bool_from_string-spelled (a ∷ b ∷ c ∷ d ∷ e ∷ []) = five_bytes_result (a ∷ b ∷ c ∷ d ∷ e ∷ []) refl
bool_from_string-spelled (a ∷ b ∷ c ∷ d ∷ e ∷ f ∷ rest) = ground arith
