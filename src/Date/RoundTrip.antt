-- ===== src/Date/RoundTrip.antt =====
-- A date as text, and the text as a date.
use libpqxx.Prelude.{
  ℕ, zero, suc, ◌+◌, ◌-◌, ◌≤◌, ◌≡◌, refl, sym, ap, ◌∙◌, subst, inl, inr, Bool-cases, Bool, true,
  false, Bytes, byte_at, byte_at-append, take, drop, substr, take-append, drop-append,
  drop-append_plus, bytes_eq, bytes_eq_refl, [], ◌∷◌, ◌++◌, append-nil, append_assoc, length,
  length-append, ltb, leb, ◌==◌, if◌then◌else◌, arith, ok,
}
use libpqxx.Prelude.Int.{ℤ, pos, negsuc, pos_part, neg_part, ◌+ℤ◌, ◌-ℤ◌, ltb_ℤ, int_laws}
use libpqxx.Date.Text.{
  Date, Calendar, s_bc, dash, year_into_buf, month_into_buf, day_into_buf, size_buffer, to_buf,
  ends_with, year_from_buf, from_text, from_string,
}
use libpqxx.Date.Digits.{
  IsYearText, anno, year_into_buf-IsYearText, find_separator-digits, month_round_trip,
  day_round_trip,
}

length-month_into_buf : (m : ℕ) → length (month_into_buf m) ≡ 2
unfolding month_into_buf
length-month_into_buf m = refl

length-day_into_buf : (d : ℕ) → length (day_into_buf d) ≡ 2
unfolding day_into_buf
length-day_into_buf d = refl

-- The text without a suffix.
abbrev main_text : Date → Bytes
main_text value =
    year_into_buf value.year ++ dash ∷ (month_into_buf value.month ++ dash ∷ day_into_buf value.day)

-- Two bytes behind a text.
substr-month :
    (t : Bytes) (m rest : Bytes)
    → length m ≡ 2
    → substr (t ++ dash ∷ (m ++ rest)) (length t + 1) 2 ≡ m
substr-month t m rest h =
    rw (drop-append_plus t (dash ∷ (m ++ rest)) 1)
      (subst (λ (n : ℕ). take n (m ++ rest) ≡ m) h (take-append m rest))

second_dash : (m : ℕ) (rest : Bytes) → byte_at (dash ∷ (month_into_buf m ++ dash ∷ rest)) 3 ≡ dash
unfolding month_into_buf
second_dash m rest = refl

substr-day :
    (m d : ℕ)
    → take 2 (drop 4 (dash ∷ (month_into_buf m ++ dash ∷ day_into_buf d))) ≡ day_into_buf d
unfolding month_into_buf day_into_buf
substr-day m d = refl

ends_with-suffix : (t : Bytes) → ends_with (t ++ s_bc) s_bc ≡ true
ends_with-suffix t =
    let size : length (t ++ s_bc) ≡ length t + 3 = length-append t s_bc in
    let long : leb 3 (length (t ++ s_bc)) ≡ true = ground arith in
    let start : length (t ++ s_bc) - 3 ≡ length t = omega arith in
    rw (long, start, drop-append t s_bc) (bytes_eq_refl s_bc)

take-suffix : (t : Bytes) → take (length (t ++ s_bc) - length s_bc) (t ++ s_bc) ≡ t
take-suffix t =
    let size : length (t ++ s_bc) ≡ length t + 3 = length-append t s_bc in
    let start : length (t ++ s_bc) - length s_bc ≡ length t = omega arith in
    rw start (take-append t s_bc)

-- A text whose last byte but two is a dash does not end in the suffix.
ends_with-day : (t : Bytes) (d : ℕ) → ends_with (t ++ dash ∷ day_into_buf d) s_bc ≡ false
unfolding bytes_eq
ends_with-day t d =
    let end = dash ∷ day_into_buf d in
    let size : length (t ++ end) ≡ length t + 3 =
      omega (arith, length-append {0} t end, length-day_into_buf d) in
    let long : leb 3 (length (t ++ end)) ≡ true = ground arith in
    let start : length (t ++ end) - 3 ≡ length t = omega arith in
    rw (long, start, drop-append t end)

-- The years that the type has.
year_bounds :
    (y : ℤ)
    → ltb_ℤ (pos 32767) y ≡ false
    → ltb_ℤ y (negsuc 32766) ≡ false
    → (pos_part y ≤ 32767) × (neg_part y ≤ 32767)
year_bounds (pos n) h k = (ground arith, omega arith)
year_bounds (negsuc n) h k = (omega arith, ground arith)

length-main_text :
    (value : Date) (end : Bytes)
    → length (main_text value ++ end) ≡ length (year_into_buf value.year) + 6 + length end
length-main_text value end =
    let rest = month_into_buf value.month ++ dash ∷ day_into_buf value.day in
    omega (
      arith,
      length-append {0} (main_text value) end,
      length-append {0} (year_into_buf value.year) (dash ∷ rest),
      length-append {0} (month_into_buf value.month) (dash ∷ day_into_buf value.day),
      length-month_into_buf value.month,
      length-day_into_buf value.day,
    )

main_text_long :
    (value : Date) (end : Bytes)
    → 4 ≤ length (year_into_buf value.year)
    → ltb (length (main_text value ++ end)) 9 ≡ false
main_text_long value end size = let total = length-main_text value end in ground arith

main_text-ends : (value : Date) → ends_with (main_text value) s_bc ≡ false
main_text-ends value =
    let year = year_into_buf value.year in
    let month = month_into_buf value.month in
    let end = dash ∷ day_into_buf value.day in
    subst (λ (t : Bytes). ends_with t s_bc ≡ false) (append_assoc year (dash ∷ month) end)
      (ends_with-day (year ++ dash ∷ month) value.day)

anno_bounds : (y : ℤ) → pos_part y ≤ 32767 → neg_part y ≤ 32767 → (1 ≤ anno y) × (anno y ≤ 32768)
anno_bounds (pos zero) h k = (omega arith, omega arith)
anno_bounds (pos (suc n)) h k = (omega arith, omega arith)
anno_bounds (negsuc n) h k = (omega arith, omega arith)

anno_bc : (y : ℤ) → ltb_ℤ (pos 0) y ≡ false → pos 0 -ℤ pos (anno y) +ℤ pos 1 ≡ y
anno_bc (pos zero) h = omega int_laws
anno_bc (pos (suc n)) h = ground arith
anno_bc (negsuc n) h = omega int_laws

anno_ad : (y : ℤ) → ltb_ℤ (pos 0) y ≡ true → pos (anno y) ≡ y
anno_ad (pos zero) h = ground arith
anno_ad (pos (suc n)) h = refl
anno_ad (negsuc n) h = ground arith

module _ (cal : Calendar) where
  year_from_buf-text :
      (absy : ℕ) (text : Bytes)
      → 1 ≤ absy
      → absy ≤ 32768
      → IsYearText absy text
      → year_from_buf cal text ≡ ok (pos absy)
  unfolding year_from_buf
  year_from_buf-text absy text some few h =
      let size = h.at_least in
      let number = h.number in
      let long : ltb (length text) 4 ≡ false = ground arith in
      let read = cal.reads_digits text h.digits (omega arith) (omega arith) in
      let positive : ltb_ℤ (pos 0) (pos absy) ≡ true = ground arith in
      rw (long, read, number, positive)

  -- Behind the suffix, with the year that the number and the suffix give.
  from_text-date :
      (is_bc : Bool) (absy m d : ℕ) (y : ℤ) (year : Bytes)
      → IsYearText absy year
      → 1 ≤ absy
      → absy ≤ 32768
      → cal.make_year (if is_bc then pos 0 -ℤ pos absy +ℤ pos 1 else pos absy) ≡ y
      → cal.date_ok y m d ≡ true
      → from_text cal is_bc (year ++ dash ∷ (month_into_buf m ++ dash ∷ day_into_buf d))
        ≡ ok (record { year = y; month = m; day = d })
  unfolding from_text
  from_text-date is_bc absy m d y year h some few years valid =
      let rest = month_into_buf m ++ dash ∷ day_into_buf d in
      let text = year ++ dash ∷ rest in
      let (m_low, m_high) = cal.ok_month y m d valid in
      let (d_low, d_high) = cal.ok_day y m d valid in
      let sep = find_separator-digits year rest h.digits in
      let size : length text ≡ length year + 6 = omega (
        arith,
        length-append {0} year (dash ∷ rest),
        length-append {0} (month_into_buf m) (dash ∷ day_into_buf d),
        length-month_into_buf m,
        length-day_into_buf d,
      ) in
      let six : (length text - length year == 6) ≡ true = ground arith in
      let nonzero : (pos_part (pos absy) + neg_part (pos absy) == 0) ≡ false = ground arith in
      let month =
        substr-month year (month_into_buf m) (dash ∷ day_into_buf d) (length-month_into_buf m) in
      let second : byte_at text (length year + 3) ≡ dash =
        byte_at-append year (dash ∷ rest) 3 ∙ second_dash m (day_into_buf d) in
      let day : substr text (length year + 4) 2 ≡ day_into_buf d =
        ap (take 2) (drop-append_plus year (dash ∷ rest) 4) ∙ substr-day m d in
      rw (
        sep,
        six,
        take-append year (dash ∷ rest),
        year_from_buf-text absy year some few h,
        nonzero,
        years,
        month,
        month_round_trip m m_low m_high,
        second,
        day,
        day_round_trip d d_low d_high,
        valid,
      )

  -- The suffix, for a year that is not positive.
  from_string-bc :
      (value : Date)
      → cal.date_ok value.year value.month value.day ≡ true
      → ltb_ℤ (pos 0) value.year ≡ false
      → from_string cal (main_text value ++ s_bc) ≡ ok value
  unfolding from_string
  from_string-bc value valid old =
      let (high, low) = cal.ok_year value.year value.month value.day valid in
      let (few, few') = year_bounds value.year high low in
      let text = year_into_buf-IsYearText value.year few few' in
      let (some, at_most) = anno_bounds value.year few few' in
      let long = main_text_long value s_bc text.at_least in
      let years = anno_bc value.year old in
      rw (long, ends_with-suffix (main_text value), take-suffix (main_text value))
        (from_text-date true (anno value.year) value.month value.day value.year
          (year_into_buf value.year) text some at_most
          (rw years (cal.make_year_keeps value.year high low)) valid)

  from_string-ad :
      (value : Date)
      → cal.date_ok value.year value.month value.day ≡ true
      → ltb_ℤ (pos 0) value.year ≡ true
      → from_string cal (main_text value) ≡ ok value
  unfolding from_string
  from_string-ad value valid new =
      let (high, low) = cal.ok_year value.year value.month value.day valid in
      let (few, few') = year_bounds value.year high low in
      let text = year_into_buf-IsYearText value.year few few' in
      let (some, at_most) = anno_bounds value.year few few' in
      let long : ltb (length (main_text value)) 9 ≡ false =
        subst (λ (t : Bytes). ltb (length t) 9 ≡ false) (append-nil (main_text value))
          (main_text_long value [] text.at_least) in
      let years = anno_ad value.year new in
      rw (long, main_text-ends value)
        (from_text-date false (anno value.year) value.month value.day value.year
          (year_into_buf value.year) text some at_most
          (rw years (cal.make_year_keeps value.year high low)) valid)

-- A date that is `ok()` is written in the space that `size_buffer` asks for, in no more bytes than
-- that, and its text reads back as the date.
pub date_round_trip :
    (cal : Calendar) (value : Date) (space : ℕ)
    → cal.date_ok value.year value.month value.day ≡ true
    → size_buffer ≤ space
    → (text : Bytes) × (to_buf space value ≡ ok text)
      × (length text ≤ size_buffer)
      × (from_string cal text ≡ ok value)
unfolding to_buf
date_round_trip cal value space valid room =
    let (high, low) = cal.ok_year value.year value.month value.day valid in
    let (few, few') = year_bounds value.year high low in
    let text = year_into_buf-IsYearText value.year few few' in
    let most = text.at_most in
    let enough : ltb space size_buffer ≡ false = ground arith in
    elim (Bool-cases (ltb_ℤ (pos 0) value.year)) [
      | inl new ↦ (
        main_text value,
        rw (enough, new, append-nil (day_into_buf value.day)) refl,
        (let total = length-main_text value [] in
            let alone = ap length (append-nil (main_text value)) in omega arith),
        from_string-ad cal value valid new,
      )
      | inr old ↦ (
        main_text value ++ s_bc,
        rw (enough, old)
            (ap ok (
              sym (
                append_assoc (year_into_buf value.year)
                  (dash ∷ (month_into_buf value.month ++ dash ∷ day_into_buf value.day)) s_bc))),
        (let total = length-main_text value s_bc in omega arith),
        from_string-bc cal value valid old,
      )
    ]
