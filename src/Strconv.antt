-- ===== src/Strconv.antt =====
-- Integers as text: `nonneg_to_buf` to `integer_string_traits::to_buf` (src/strconv.cxx), and
-- `number_to_digit` and `size_buffer` (include/pqxx/internal/conversions.hxx). The digits are written
-- backwards from the end of the buffer: here each is put in front of those that stand there.
mod Tests
pub mod Booleans
use libpqxx.Prelude.{
  ℕ, zero, suc, ◌+◌, ◌-◌, ◌*◌, ◌/◌, ◌%◌, ◌^◌, ◌≤◌, ◌<◌, ◌≡◌, refl, sym, ap, ◌∙◌, subst, inl, inr,
  ◌⊎◌, ◌≢◌, Bool, true, false, Bytes, List, [], ◌∷◌, length, ltb, ◌==◌, if◌then◌else◌, arith,
  Result, ok, err, conversion_overrun, Bool-cases,
}
use libpqxx.Prelude.Int.{ℤ, pos, negsuc}

unfoldable pub number_to_digit : ℕ → ℕ
number_to_digit i = i + b'0'

-- The `do ... while` loop of `nonneg_to_buf`; out of fuel it leaves the digits as they are.
unfoldable pub digits_loop : ℕ → ℕ → Bytes → Bytes
unfolding number_to_digit
digits_loop zero value digits = digits
digits_loop (suc fuel) value digits =
    let written = number_to_digit (value % 10) ∷ digits in
    let rest = digits_loop fuel (value / 10) written in if ltb 0 (value / 10) then rest else written

unfoldable pub nonneg_to_buf : ℕ → Bytes
unfolding digits_loop
nonneg_to_buf value = digits_loop (suc value) value []

unfoldable pub neg_to_buf : ℕ → Bytes
unfolding nonneg_to_buf
neg_to_buf value = b'-' ∷ nonneg_to_buf value

-- An integer type: whether it is signed, its width, and its `std::numeric_limits<T>::digits10`.
pub record IntType : Type 0 where
  pub is_signed : Bool
  pub bits : ℕ
  pub digits10 : ℕ

-- The bottom of a signed type as a number of the unsigned one.
unfoldable pub bottom_to_buf : IntType → Bytes
unfolding neg_to_buf
bottom_to_buf ty = neg_to_buf (2 ^ (ty.bits - 1))

-- `std::is_signed_v<T>` as a number.
abbrev pub sign_size : Bool → ℕ
sign_size is_signed = if is_signed then 1 else 0

unfoldable pub size_buffer : IntType → ℕ
size_buffer ty = sign_size ty.is_signed + ty.digits10 + 1

-- The choice by the value; an unsigned type has no negative one.
unfoldable pub write_integer : IntType → ℤ → Bytes
unfolding neg_to_buf bottom_to_buf
write_integer ty (pos n) = nonneg_to_buf n
write_integer ty (negsuc n) =
    if ltb (suc n) (2 ^ (ty.bits - 1)) then neg_to_buf (suc n) else bottom_to_buf ty

unfoldable pub to_buf : IntType → ℕ → ℤ → Result Bytes
unfolding write_integer size_buffer
to_buf ty space value =
    if ltb space (size_buffer ty) then err conversion_overrun else ok (write_integer ty value)

-- The number that a text of digits stands for, behind what was read already.
abbrev pub decimal : ℕ → Bytes → ℕ
decimal n [] = n
decimal n (d ∷ digits) = decimal (n * 10 + (d - b'0')) digits

abbrev pub AreDigits : Bytes → Type 0
AreDigits [] = Unit {0}
AreDigits (d ∷ digits) = (b'0' ≤ d) × (d ≤ b'9') × AreDigits digits

-- Digits that are no more than the number needs: one at least, and no zero in front of another.
abbrev pub IsMinimal : Bytes → Type 0
IsMinimal [] = ⊥
IsMinimal (d ∷ []) = Unit {0}
IsMinimal (d ∷ e ∷ digits) = d ≢ b'0'

-- A text is the decimal notation of an integer, the only one.
abbrev pub IsDecimal : ℤ → Bytes → Type 0
IsDecimal (pos n) text = (decimal 0 text ≡ n) × AreDigits text × IsMinimal text
IsDecimal (negsuc n) text =
    (digits : Bytes) × (text ≡ b'-' ∷ digits)
    × (decimal 0 digits ≡ suc n)
    × AreDigits digits
    × IsMinimal digits

-- The values of a type.
abbrev pub InRange : IntType → ℤ → Type 0
InRange ty (pos n) = n < 2 ^ (if ty.is_signed then ty.bits - 1 else ty.bits)
InRange ty (negsuc n) = (ty.is_signed ≡ true) × (suc n ≤ 2 ^ (ty.bits - 1))

read_digit : (n i : ℕ) → n * 10 + (number_to_digit i - b'0') ≡ n * 10 + i
unfolding number_to_digit
read_digit n i = omega arith

digits_loop-decimal :
    (fuel value : ℕ) (digits : Bytes)
    → value < fuel
    → decimal 0 (digits_loop fuel value digits) ≡ decimal value digits
unfolding digits_loop
digits_loop-decimal zero value digits h = absurd (omega arith)
digits_loop-decimal (suc fuel) value digits h = elim (Bool-cases (ltb 0 (value / 10))) [
  | inl e ↦
      let smaller : value / 10 < fuel = ground arith in
      let joined : value / 10 * 10 + value % 10 ≡ value = omega arith in
      rw e (
        digits_loop-decimal fuel (value / 10) (number_to_digit (value % 10) ∷ digits) smaller
        ∙ ap (λ n. decimal n digits) (read_digit (value / 10) (value % 10) ∙ joined))
  | inr e ↦
      let single : 0 * 10 + value % 10 ≡ value = ground arith in
      rw e (ap (λ n. decimal n digits) (read_digit 0 (value % 10) ∙ single))
]

digits_loop-AreDigits :
    (fuel value : ℕ) (digits : Bytes) → AreDigits digits → AreDigits (digits_loop fuel value digits)
unfolding digits_loop number_to_digit
digits_loop-AreDigits zero value digits h = h
digits_loop-AreDigits (suc fuel) value digits h =
    let written : AreDigits (number_to_digit (value % 10) ∷ digits) =
      (omega arith, omega arith, h) in
    elim (Bool-cases (ltb 0 (value / 10))) [
      | inl e ↦
          rw e (
            digits_loop-AreDigits fuel (value / 10) (number_to_digit (value % 10) ∷ digits) written)
      | inr e ↦ rw e written
    ]

IsMinimal-cons : (d : ℕ) (digits : Bytes) → d ≢ b'0' → IsMinimal (d ∷ digits)
IsMinimal-cons d [] h = tt
IsMinimal-cons d (e ∷ digits) h = h

-- The loop goes on while there is something left to write.
digits_loop-IsMinimal :
    (fuel value : ℕ) (digits : Bytes)
    → value < fuel
    → (0 < value) ⊎ (digits ≡ [])
    → IsMinimal (digits_loop fuel value digits)
unfolding digits_loop number_to_digit
digits_loop-IsMinimal zero value digits h k = absurd (omega arith)
digits_loop-IsMinimal (suc fuel) value digits h k = elim (Bool-cases (ltb 0 (value / 10))) [
  | inl e ↦
      let more : 0 < value / 10 = ground arith in
      let smaller : value / 10 < fuel = omega arith in
      rw e (
        digits_loop-IsMinimal fuel (value / 10) (number_to_digit (value % 10) ∷ digits) smaller
          (inl more))
  | inr e ↦
      let last : value / 10 ≡ 0 = ground arith in
      rw e (elim k [
        | inl some ↦ IsMinimal-cons (value % 10 + b'0') digits (omega arith)
        | inr none ↦ rw none tt
      ])
]

length-digits_loop :
    (fuel value k : ℕ) (digits : Bytes)
    → value < 10 ^ suc k
    → length (digits_loop fuel value digits) ≤ suc k + length digits
unfolding digits_loop
length-digits_loop zero value k digits h = omega arith
length-digits_loop (suc fuel) value zero digits h =
    let none_left : ltb 0 (value / 10) ≡ false = ground arith in rw none_left (omega arith)
length-digits_loop (suc fuel) value (suc k) digits h = elim (Bool-cases (ltb 0 (value / 10))) [
  | inl e ↦
      let q = 10 ^ suc k in
      let small : value / 10 < q = omega arith in
      rw e (
        let later =
          length-digits_loop fuel (value / 10) k (number_to_digit (value % 10) ∷ digits) small in
        omega arith)
  | inr e ↦ rw e (omega arith)
]

pub nonneg_to_buf-decimal :
    (n k : ℕ)
    → n < 10 ^ suc k
    → (decimal 0 (nonneg_to_buf n) ≡ n)
      × AreDigits (nonneg_to_buf n)
      × (length (nonneg_to_buf n) ≤ suc k)
unfolding nonneg_to_buf
nonneg_to_buf-decimal n k h =
    let size = length-digits_loop (suc n) n k [] h in
    (
      digits_loop-decimal (suc n) n [] (omega arith),
      digits_loop-AreDigits (suc n) n [] tt,
      omega arith,
    )

nonneg_to_buf-IsMinimal : (n : ℕ) → IsMinimal (nonneg_to_buf n)
unfolding nonneg_to_buf
nonneg_to_buf-IsMinimal n = digits_loop-IsMinimal (suc n) n [] (omega arith) (inr refl)

-- A buffer of the size that `size_buffer` asks for holds the text of every value of the type, and the
-- text is the value's decimal notation without needless zeros, with a minus sign before a negative one and the bottom value
-- of a signed type included. The type's `digits10` counts the digits that the type represents for
-- certain: with one more, each of its values can be written.
pub to_buf-IsDecimal :
    (ty : IntType) (space : ℕ) (value : ℤ)
    → InRange ty value
    → 2 ^ (if ty.is_signed then ty.bits - 1 else ty.bits) < 10 ^ suc ty.digits10
    → size_buffer ty ≤ space
    → (text : Bytes) × (to_buf ty space value ≡ ok text)
      × IsDecimal value text
      × (length text ≤ size_buffer ty)
unfolding to_buf write_integer size_buffer neg_to_buf bottom_to_buf
to_buf-IsDecimal ty space (pos n) range wide room =
    let enough : ltb space (sign_size ty.is_signed + ty.digits10 + 1) ≡ false = ground arith in
    let written = nonneg_to_buf-decimal n ty.digits10 (omega arith) in
    (
      nonneg_to_buf n,
      rw enough refl,
      (written.0, written.1, nonneg_to_buf-IsMinimal n),
      omega arith,
    )
to_buf-IsDecimal ty space (negsuc n) range wide room =
    let enough : ltb space (sign_size ty.is_signed + ty.digits10 + 1) ≡ false = ground arith in
    let bottom = 2 ^ (ty.bits - 1) in
    let fits : bottom < 10 ^ suc ty.digits10 =
      subst (λ b. 2 ^ (if b then ty.bits - 1 else ty.bits) < 10 ^ suc ty.digits10) range.0 wide in
    let sign : sign_size ty.is_signed ≡ 1 = ap sign_size range.0 in
    elim (Bool-cases (ltb (suc n) bottom)) [
      | inl e ↦
          let inside : suc n < bottom = ground arith in
          let written = nonneg_to_buf-decimal (suc n) ty.digits10 (omega arith) in
          (
            b'-' ∷ nonneg_to_buf (suc n),
            rw (enough, e) refl,
            (nonneg_to_buf (suc n), refl, written.0, written.1, nonneg_to_buf-IsMinimal (suc n)),
            omega arith,
          )
      | inr e ↦
          let lowest : bottom ≡ suc n = ground arith in
          let written = nonneg_to_buf-decimal bottom ty.digits10 fits in
          (
            b'-' ∷ nonneg_to_buf bottom,
            rw (enough, e) refl,
            (
              nonneg_to_buf bottom,
              refl,
              written.0 ∙ lowest,
              written.1,
              nonneg_to_buf-IsMinimal bottom,
            ),
            omega arith,
          )
    ]
