-- ===== src/Date/Tests.antt =====
-- The dates' theorem at a concrete input.
use libpqxx.Prelude.{
  ℕ, ◌≤◌, ◌≡◌, refl, Bool, true, false, not, ◌&&◌, Bytes, codes, bytes_eq, [], ◌∷◌, length, leb,
  if◌then◌else◌, Result, ok, err, conversion_error, arith,
}
use libpqxx.Prelude.Int.{ℤ, pos, negsuc, ltb_ℤ}
use libpqxx.Strconv.{nonneg_to_buf, decimal, AreDigits}
use libpqxx.Date.Text.{Date, Calendar, is_digit, size_buffer, to_buf, from_string}
use libpqxx.Date.RoundTrip.{date_round_trip}

abbrev all_digits : Bytes → Bool
all_digits [] = true
all_digits (c ∷ rest) = is_digit c && all_digits rest

all_digits-AreDigits : (text : Bytes) → AreDigits text → all_digits text ≡ true
all_digits-AreDigits [] h = refl
all_digits-AreDigits (c ∷ rest) (low, high, h) =
    let tail = all_digits-AreDigits rest h in
    let digit : is_digit c ≡ true = ground arith in rw (digit, tail) refl

abbrev digits_to_int : Bytes → Result ℤ
digits_to_int text = if all_digits text then ok (pos (decimal 0 text)) else err conversion_error

abbrev known_date : ℤ → ℕ → ℕ → Bool
known_date y m d =
    not (ltb_ℤ (pos 32767) y)
    && (not (ltb_ℤ y (negsuc 32766)) && (leb 1 m && (leb m 12 && (leb 1 d && leb d 31))))

known_date_year :
    (y : ℤ) (m d : ℕ)
    → known_date y m d ≡ true
    → (ltb_ℤ (pos 32767) y ≡ false) × (ltb_ℤ y (negsuc 32766) ≡ false)
known_date_year y m d h = (ground arith, ground arith)

known_date_month : (y : ℤ) (m d : ℕ) → known_date y m d ≡ true → (1 ≤ m) × (m ≤ 12)
known_date_month y m d h = (ground arith, ground arith)

known_date_day : (y : ℤ) (m d : ℕ) → known_date y m d ≡ true → (1 ≤ d) × (d ≤ 31)
known_date_day y m d h = (ground arith, ground arith)

-- The years that a `std::chrono::year` has; every month with 31 days.
abbrev calendar : Calendar
calendar = record {
  make_year = λ y. y;
  date_ok = known_date;
  int_from_string = digits_to_int;
  make_year_keeps = λ y h k. refl;
  ok_year = known_date_year;
  ok_month = known_date_month;
  ok_day = known_date_day;
  reads_digits = λ text h k l. rw (all_digits-AreDigits text h) refl;
}

-- 44 BC, which C++ counts as the year -43.
abbrev ides : Date
ides = record { year = negsuc 42; month = 3; day = 15 }

ides_to_buf : to_buf 16 ides ≡ ok (codes "0044-03-15 BC")
unfolding to_buf nonneg_to_buf
ides_to_buf = refl

ides_from_string : from_string calendar (codes "0044-03-15 BC") ≡ ok ides
unfolding from_string bytes_eq
ides_from_string = refl

day_out_of_range : from_string calendar (codes "2024-01-32") ≡ err conversion_error
unfolding from_string bytes_eq
day_out_of_range = refl

date_round_trip_example :
    (text : Bytes) × (to_buf 16 ides ≡ ok text)
    × (length text ≤ size_buffer)
    × (from_string calendar text ≡ ok ides)
unfolding size_buffer
date_round_trip_example = date_round_trip calendar ides 16 refl (omega arith)
