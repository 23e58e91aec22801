-- ===== src/Date/Text.antt =====
-- `string_traits<std::chrono::year_month_day>` (src/time.cxx). A year is an integer, as C++ has it:
-- with a year 0.
use libpqxx.Prelude.{
  ℕ, zero, suc, ◌+◌, ◌-◌, ◌*◌, ◌/◌, ◌%◌, ◌≤◌, ◌<◌, ◌≡◌, Bool, true, false, not, ◌&&◌, ◌||◌, Bytes,
  codes, byte_at, take, drop, substr, bytes_eq, [], ◌∷◌, ◌++◌, length, ltb, leb, ◌==◌,
  if◌then◌else◌, Result, ok, err, conversion_error, conversion_overrun, ◌>>=◌,
}
use libpqxx.Prelude.Int.{ℤ, pos, negsuc, pos_part, neg_part, ◌+ℤ◌, ◌-ℤ◌, ltb_ℤ}
use libpqxx.Strconv.{number_to_digit, nonneg_to_buf, decimal, AreDigits}

pub record Date : Type 0 where
  pub year : ℤ
  pub month : ℕ
  pub day : ℕ

-- What the code uses of the standard library: the constructor of `std::chrono::year`, which keeps the
-- years that the type has and gives an unspecified one for any other; `ok()` of a date; and
-- `from_string<int>`, which rests on `std::from_chars`.
pub record Calendar : Type 0 where
  pub make_year : ℤ → ℤ
  pub date_ok : ℤ → ℕ → ℕ → Bool
  pub int_from_string : Bytes → Result ℤ
  pub make_year_keeps :
      (y : ℤ) → ltb_ℤ (pos 32767) y ≡ false → ltb_ℤ y (negsuc 32766) ≡ false → make_year y ≡ y
  pub ok_year :
      (y : ℤ) (m d : ℕ)
      → date_ok y m d ≡ true
      → (ltb_ℤ (pos 32767) y ≡ false) × (ltb_ℤ y (negsuc 32766) ≡ false)
  pub ok_month : (y : ℤ) (m d : ℕ) → date_ok y m d ≡ true → (1 ≤ m) × (m ≤ 12)
  pub ok_day : (y : ℤ) (m d : ℕ) → date_ok y m d ≡ true → (1 ≤ d) × (d ≤ 31)
  pub reads_digits :
      (text : Bytes)
      → AreDigits text
      → 0 < length text
      → decimal 0 text < 2147483648
      → int_from_string text ≡ ok (pos (decimal 0 text))

abbrev pub s_bc : Bytes
s_bc = codes " BC"

abbrev pub dash : ℕ
dash = b'-'

-- The zeros in front of a short year.
abbrev pub year_zeros : ℕ → Bytes
year_zeros absy =
    if ltb absy 1000
    then (b'0' ∷ (if ltb absy 100 then b'0' ∷ (if ltb absy 10 then b'0' ∷ [] else []) else []))
    else []

unfoldable pub year_into_buf : ℤ → Bytes
year_into_buf (pos zero) = year_zeros 1 ++ nonneg_to_buf 1
year_into_buf (pos (suc n)) = year_zeros (suc n) ++ nonneg_to_buf (suc n)
year_into_buf (negsuc n) =
    if n == 32766 then codes "32768" else year_zeros (suc n + 1) ++ nonneg_to_buf (suc n + 1)

unfoldable pub month_into_buf : ℕ → Bytes
unfolding number_to_digit
month_into_buf m = (if leb 10 m then b'1' else b'0') ∷ number_to_digit (m % 10) ∷ []

unfoldable pub day_into_buf : ℕ → Bytes
unfolding number_to_digit
day_into_buf d = number_to_digit (d / 10) ∷ number_to_digit (d % 10) ∷ []

unfoldable pub size_buffer : ℕ
size_buffer = 5 + 1 + 2 + 1 + 2 + length s_bc + 1

unfoldable pub to_buf : ℕ → Date → Result Bytes
unfolding year_into_buf month_into_buf day_into_buf size_buffer
to_buf space value =
    if ltb space size_buffer
    then err conversion_overrun
    else ok (
        year_into_buf value.year
        ++ dash
          ∷ (month_into_buf value.month
              ++ dash
                ∷ (day_into_buf value.day ++ (if ltb_ℤ (pos 0) value.year then [] else s_bc))))

abbrev pub is_digit : ℕ → Bool
is_digit c = leb b'0' c && leb c b'9'

abbrev pub digit_to_number : ℕ → ℕ
digit_to_number c = c - b'0'

-- The two digits of a month or a day; `text` has two bytes.
unfoldable pub month_from_string : Bytes → Result ℕ
month_from_string text =
    if not (is_digit (byte_at text 0)) || not (is_digit (byte_at text 1))
    then err conversion_error
    else ok (10 * digit_to_number (byte_at text 0) + digit_to_number (byte_at text 1))

unfoldable pub day_from_string : Bytes → Result ℕ
day_from_string text =
    let d = 10 * digit_to_number (byte_at text 0) + digit_to_number (byte_at text 1) in
    if not (is_digit (byte_at text 0)) || not (is_digit (byte_at text 1))
    then err conversion_error
    else if not (leb 1 d && leb d 31)
    then err conversion_error
    else ok d

-- The loop that looks for the first dash.
unfoldable pub find_year_month_separator : Bytes → ℕ
find_year_month_separator [] = 0
find_year_month_separator (c ∷ rest) = if c == dash then 0 else suc (find_year_month_separator rest)

abbrev pub ends_with : Bytes → Bytes → Bool
ends_with text suffix =
    leb (length suffix) (length text) && bytes_eq (drop (length text - length suffix) text) suffix

module _ (cal : Calendar) where
  unfoldable pub year_from_buf : Bytes → Result ℤ
  year_from_buf text =
      if ltb (length text) 4
      then err conversion_error
      else (cal.int_from_string text >>= λ year.
          if ltb_ℤ (pos 0) year then ok year else err conversion_error)

  -- Behind the suffix; `size - ymsep` does not wrap around, since the separator is inside the text.
  unfoldable pub from_text : Bool → Bytes → Result Date
  unfolding find_year_month_separator year_from_buf month_from_string day_from_string ◌+ℤ◌ ◌-ℤ◌
  from_text is_bc text =
      let ymsep = find_year_month_separator text in
      if not (length text - ymsep == 6)
      then err conversion_error
      else (year_from_buf (take ymsep text) >>= λ base_year.
          if pos_part base_year + neg_part base_year == 0
          then err conversion_error
          else let y = cal.make_year (if is_bc then pos 0 -ℤ base_year +ℤ pos 1 else base_year) in
            month_from_string (substr text (ymsep + 1) 2) >>= λ m.
            if not (byte_at text (ymsep + 3) == dash)
            then err conversion_error
            else (day_from_string (substr text (ymsep + 4) 2) >>= λ d.
                if not (cal.date_ok y m d)
                then err conversion_error
                else ok (record { year = y; month = m; day = d })))

  unfoldable pub from_string : Bytes → Result Date
  unfolding from_text
  from_string text =
      if ltb (length text) 9
      then err conversion_error
      else if ends_with text s_bc
      then from_text true (take (length text - length s_bc) text)
      else from_text false text
