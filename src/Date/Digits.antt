-- ===== src/Date/Digits.antt =====
-- The digits of a year, a month and a day.
use libpqxx.Prelude.{
  ℕ, zero, suc, ◌+◌, ◌≤◌, ◌≡◌, refl, ap, inl, inr, Bool-cases, false, Bytes, [], ◌∷◌, ◌++◌, length,
  ltb, ◌==◌, arith, ok,
}
use libpqxx.Prelude.Int.{ℤ, pos, negsuc, pos_part, neg_part}
use libpqxx.Strconv.{number_to_digit, nonneg_to_buf, decimal, AreDigits, nonneg_to_buf-decimal}
use libpqxx.Date.Text.{
  dash, year_zeros, year_into_buf, month_into_buf, day_into_buf, month_from_string, day_from_string,
  find_year_month_separator,
}

-- A number has as many digits as it needs.
enough_digits :
    (ds : Bytes)
    → AreDigits ds
    → (1 ≤ decimal 0 ds → 1 ≤ length ds)
      × (10 ≤ decimal 0 ds → 2 ≤ length ds)
      × (100 ≤ decimal 0 ds → 3 ≤ length ds)
      × (1000 ≤ decimal 0 ds → 4 ≤ length ds)
enough_digits [] h = (λ k. omega arith, λ k. omega arith, λ k. omega arith, λ k. omega arith)
enough_digits (a ∷ []) (h0, h1, _) =
    (λ k. omega arith, λ k. omega arith, λ k. omega arith, λ k. omega arith)
enough_digits (a ∷ b ∷ []) (h0, h1, (h2, h3, _)) =
    (λ k. omega arith, λ k. omega arith, λ k. omega arith, λ k. omega arith)
enough_digits (a ∷ b ∷ c ∷ []) (h0, h1, (h2, h3, (h4, h5, _))) =
    (λ k. omega arith, λ k. omega arith, λ k. omega arith, λ k. omega arith)
enough_digits (a ∷ b ∷ c ∷ d ∷ ds) h =
    (λ k. omega arith, λ k. omega arith, λ k. omega arith, λ k. omega arith)

-- The text of a year: its number in four or five digits.
pub record IsYearText (absy : ℕ) (text : Bytes) : Type 0 where
  pub digits : AreDigits text
  pub number : decimal 0 text ≡ absy
  pub at_least : 4 ≤ length text
  pub at_most : length text ≤ 5

year_text :
    (absy : ℕ) → 1 ≤ absy → absy ≤ 32767 → IsYearText absy (year_zeros absy ++ nonneg_to_buf absy)
year_text absy some few =
    let (number, digits, size) = nonneg_to_buf-decimal absy 4 (omega arith) in
    let (one, two, three, four) = enough_digits (nonneg_to_buf absy) digits in
    let zero_digit : (b'0' ≤ b'0') × (b'0' ≤ b'9') = (omega arith, omega arith) in
    elim (Bool-cases (ltb absy 1000)) [
      | inr long ↦
          let min_size = four (ground arith) in
          rw long (record { digits = digits; number = number; at_least = min_size; at_most = size })
      | inl short ↦ elim (Bool-cases (ltb absy 100)) [
        | inr long ↦
            let min_size = three (ground arith) in
            let max_size = (nonneg_to_buf-decimal absy 2 (ground arith)).2 in
            rw (short, long)
              (record {
                digits = (zero_digit.0, zero_digit.1, digits);
                number = number;
                at_least = omega arith;
                at_most = omega arith;
              })
        | inl shorter ↦ elim (Bool-cases (ltb absy 10)) [
          | inr long ↦
              let min_size = two (ground arith) in
              let max_size = (nonneg_to_buf-decimal absy 1 (ground arith)).2 in
              rw (short, shorter, long)
                (record {
                  digits = (zero_digit.0, zero_digit.1, (zero_digit.0, zero_digit.1, digits));
                  number = number;
                  at_least = omega arith;
                  at_most = omega arith;
                })
          | inl shortest ↦
              let min_size = one (omega arith) in
              let max_size = (nonneg_to_buf-decimal absy 0 (ground arith)).2 in
              rw (short, shorter, shortest)
                (record {
                  digits = (
                    zero_digit.0,
                    zero_digit.1,
                    (zero_digit.0, zero_digit.1, (zero_digit.0, zero_digit.1, digits)),
                  );
                  number = number;
                  at_least = omega arith;
                  at_most = omega arith;
                })
        ]
      ]
    ]

-- The year that stands in the text: without a year 0.
abbrev pub anno : ℤ → ℕ
anno (pos zero) = 1
anno (pos (suc n)) = suc n
anno (negsuc n) = suc n + 1

pub year_into_buf-IsYearText :
    (y : ℤ) → pos_part y ≤ 32767 → neg_part y ≤ 32767 → IsYearText (anno y) (year_into_buf y)
unfolding year_into_buf
year_into_buf-IsYearText (pos zero) h k = year_text 1 (omega arith) (omega arith)
year_into_buf-IsYearText (pos (suc n)) h k = year_text (suc n) (omega arith) (omega arith)
year_into_buf-IsYearText (negsuc n) h k = elim (Bool-cases (n == 32766)) [
  | inl bottom ↦
      let last : n ≡ 32766 = ground arith in
      rw (bottom, last)
        (record {
          digits = omega arith;
          number = refl;
          at_least = omega arith;
          at_most = omega arith;
        })
  | inr other ↦
      let less : suc n + 1 ≤ 32767 = ground arith in
      rw other (year_text (suc n + 1) (omega arith) less)
]

-- The dash behind digits is the first one.
pub find_separator-digits :
    (ds rest : Bytes) → AreDigits ds → find_year_month_separator (ds ++ dash ∷ rest) ≡ length ds
unfolding find_year_month_separator
find_separator-digits [] rest h = refl
find_separator-digits (d ∷ ds) rest (low, high, h) =
    let digit : (d == dash) ≡ false = ground arith in
    rw digit (ap suc (find_separator-digits ds rest h))

pub month_round_trip : (m : ℕ) → 1 ≤ m → m ≤ 12 → month_from_string (month_into_buf m) ≡ ok m
unfolding month_from_string month_into_buf number_to_digit
month_round_trip m low high = ground arith

pub day_round_trip : (d : ℕ) → 1 ≤ d → d ≤ 31 → day_from_string (day_into_buf d) ≡ ok d
unfolding day_from_string day_into_buf number_to_digit
day_round_trip d low high = ground arith
