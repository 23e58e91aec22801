-- ===== src/Binary.antt =====
-- Binary data as text: `esc_bin` and `unesc_bin` (src/util.cxx), with the sizes that
-- include/pqxx/util.hxx computes for their buffers.
mod Tests
use libpqxx.Prelude.{
  ℕ, zero, suc, ◌+◌, ◌-◌, ◌*◌, ◌/◌, ◌%◌, ◌≤◌, ◌<◌, ◌≡◌, ◌≢◌, ◌⊎◌, inl, inr, refl, sym, ap, ◌∙◌,
  Bool, true, false, not, ◌&&◌, ◌||◌, Bytes, codes, byte_at, List, [], ◌∷◌, ◌++◌, length,
  length-append, take_init, take, ltb, leb, ◌==◌, if◌then◌else◌, arith, Option, none, some, Result,
  ok, err, failure, ◌>>=◌, ◌>>◌, guard, Bool-cases, Result-cases,
}
use libpqxx.Array.Quoted.{backslash}

abbrev hex_digits : Bytes
hex_digits = codes "0123456789abcdef"

unfoldable pub hex_digit : ℕ → ℕ
hex_digit c = byte_at hex_digits c

-- The source's -1 is `none`.
unfoldable pub nibble : ℕ → Option ℕ
nibble c =
    if leb b'0' c && leb c b'9'
    then some (c - b'0')
    else if leb b'a' c && leb c b'f'
    then some (10 + (c - b'a'))
    else if leb b'A' c && leb c b'F'
    then some (10 + (c - b'A'))
    else none

unfoldable pub size_esc_bin : ℕ → ℕ
size_esc_bin binary_bytes = 2 + 2 * binary_bytes + 1

unfoldable pub size_unesc_bin : ℕ → ℕ
size_unesc_bin escaped_bytes = if ltb escaped_bytes 2 then 0 else (escaped_bytes - 2) / 2

-- The loop of `esc_bin`: two digits for each byte.
unfoldable pub esc_loop : Bytes → Bytes
unfolding hex_digit
esc_loop [] = []
esc_loop (uc ∷ binary_data) = hex_digit (uc / 16) ∷ hex_digit (uc % 16) ∷ esc_loop binary_data

-- What `esc_bin` writes into its buffer, the terminating zero included.
unfoldable pub esc_bin_buffer : Bytes → Bytes
unfolding esc_loop
esc_bin_buffer binary_data = (backslash ∷ b'x' ∷ esc_loop binary_data) ++ 0 ∷ []

-- The string is cut to its size less one.
unfoldable pub esc_bin : Bytes → Bytes
unfolding esc_bin_buffer size_esc_bin
esc_bin binary_data = take (size_esc_bin (length binary_data) - 1) (esc_bin_buffer binary_data)

-- `if (hi < 0) throw ...`
abbrev valid : Option ℕ → Result ℕ
valid none = err failure
valid (some n) = ok n

-- The loop of `unesc_bin`; behind the end of the text stands its zero, which is no digit.
unfoldable pub unesc_loop : Bytes → Result Bytes
unfolding nibble
unesc_loop [] = ok []
unesc_loop (c ∷ []) = err failure
unesc_loop (c ∷ d ∷ escaped_data) = do
  hi ← valid (nibble c)
  lo ← valid (nibble d)
  rest ← unesc_loop escaped_data
  ok ((hi * 16 + lo) ∷ rest)

unfoldable pub unesc_bin : Bytes → Result Bytes
unfolding unesc_loop
unesc_bin [] = err failure
unesc_bin (c ∷ []) = err failure
unesc_bin (c ∷ d ∷ escaped_data) =
    guard (length escaped_data % 2 == 0) failure
    >> (guard (c == backslash && d == b'x') failure >> unesc_loop escaped_data)

nibble-hex_digit : (n : ℕ) → n < 16 → nibble (hex_digit n) ≡ some n
unfolding nibble hex_digit
nibble-hex_digit zero h = refl
nibble-hex_digit (suc zero) h = refl
nibble-hex_digit (suc (suc zero)) h = refl
nibble-hex_digit (suc (suc (suc zero))) h = refl
nibble-hex_digit (suc (suc (suc (suc zero)))) h = refl
nibble-hex_digit (suc (suc (suc (suc (suc zero))))) h = refl
nibble-hex_digit (suc (suc (suc (suc (suc (suc zero)))))) h = refl
nibble-hex_digit (suc (suc (suc (suc (suc (suc (suc zero))))))) h = refl
nibble-hex_digit (suc (suc (suc (suc (suc (suc (suc (suc zero)))))))) h = refl
nibble-hex_digit (suc (suc (suc (suc (suc (suc (suc (suc (suc zero))))))))) h = refl
nibble-hex_digit (suc (suc (suc (suc (suc (suc (suc (suc (suc (suc zero)))))))))) h = refl
nibble-hex_digit (suc (suc (suc (suc (suc (suc (suc (suc (suc (suc (suc zero))))))))))) h = refl
nibble-hex_digit (suc (suc (suc (suc (suc (suc (suc (suc (suc (suc (suc (suc zero)))))))))))) h =
    refl
nibble-hex_digit (suc (suc (suc (suc (suc (suc (suc (suc (suc (suc (suc (suc (suc zero)))))))))))))
      h =
    refl
nibble-hex_digit
      (suc (suc (suc (suc (suc (suc (suc (suc (suc (suc (suc (suc (suc (suc zero)))))))))))))) h =
    refl
nibble-hex_digit
      (suc (suc (suc (suc (suc (suc (suc (suc (suc (suc (suc (suc (suc (suc (suc zero)))))))))))))))
      h =
    refl
nibble-hex_digit
      (suc
        (suc (suc (suc (suc (suc (suc (suc (suc (suc (suc (suc (suc (suc (suc (suc n))))))))))))))))
      h =
    absurd (omega arith)

-- Each element is a byte.
abbrev pub AreBytes : Bytes → Type 0
AreBytes [] = Unit {0}
AreBytes (b ∷ bs) = (b < 256) × AreBytes bs

unesc_loop-esc_loop : (bs : Bytes) → AreBytes bs → unesc_loop (esc_loop bs) ≡ ok bs
unfolding unesc_loop esc_loop
unesc_loop-esc_loop [] h = refl
unesc_loop-esc_loop (b ∷ bs) h =
    let high : b / 16 < 16 = omega arith in
    let low : b % 16 < 16 = omega arith in
    let joined : b / 16 * 16 + b % 16 ≡ b = omega arith in
    rw (
      nibble-hex_digit (b / 16) high,
      nibble-hex_digit (b % 16) low,
      unesc_loop-esc_loop bs h.1,
      joined,
    )

length-esc_loop : (bs : Bytes) → length (esc_loop bs) ≡ 2 * length bs
unfolding esc_loop
length-esc_loop [] = refl
length-esc_loop (b ∷ bs) = omega (arith, length-esc_loop bs)

esc_bin-loop : (bs : Bytes) → esc_bin bs ≡ backslash ∷ b'x' ∷ esc_loop bs
unfolding esc_bin esc_bin_buffer size_esc_bin
esc_bin-loop bs =
    let text = backslash ∷ b'x' ∷ esc_loop bs in
    let size : size_esc_bin (length bs) - 1 ≡ length (text ++ 0 ∷ []) - 1 =
      omega (arith, length-esc_loop bs, length-append {0} text (0 ∷ [])) in
    rw size (take_init text 0)

-- The escaped form of binary data and its terminating zero take exactly the buffer that `size_esc_bin`
-- computes, and the buffer that `size_unesc_bin` computes from that form has the size of the data.
pub esc_bin-sizes :
    (bs : Bytes)
    → (length (esc_bin_buffer bs) ≡ size_esc_bin (length bs))
      × (size_unesc_bin (length (esc_bin bs)) ≡ length bs)
unfolding esc_bin_buffer size_esc_bin size_unesc_bin
esc_bin-sizes bs =
    let text = backslash ∷ b'x' ∷ esc_loop bs in
    let size : length (text ++ 0 ∷ []) ≡ 2 + 2 * length bs + 1 =
      omega (arith, length-esc_loop bs, length-append {0} text (0 ∷ [])) in
    (size, rw (esc_bin-loop bs, length-esc_loop bs) (ground arith))

-- Binary data that is escaped comes back as it was.
pub unesc_bin-esc_bin : (bs : Bytes) → AreBytes bs → unesc_bin (esc_bin bs) ≡ ok bs
unfolding unesc_bin
unesc_bin-esc_bin bs h =
    let even : (length (esc_loop bs) % 2 == 0) ≡ true =
      let size : length (esc_loop bs) ≡ 2 * length bs = length-esc_loop bs in ground arith in
    rw (esc_bin-loop bs, even) (unesc_loop-esc_loop bs h)

bind_ok :
    {A B : Type 0} (r : Result A) (f : A → Result B) (b : B)
    → (r >>= f) ≡ ok b
    → (a : A) × ((r ≡ ok a) × (f a ≡ ok b))
bind_ok (ok a) f b h = (a, (refl, h))
bind_ok (err e) f b h = absurd (err_ok h)
  where
    err_ok : err e ≢ ok b
    err_ok q = cc

guard_ok : {B : Type 0} (b : Bool) (r : Result B) (x : B) → (guard b failure >> r) ≡ ok x → r ≡ ok x
guard_ok true r x h = h
guard_ok false r x h = absurd (err_ok h)
  where
    err_ok : err failure ≢ ok x
    err_ok q = cc

ok_inj : (a b : Bytes) → ok a ≡ ok b → length a ≡ length b
ok_inj a b h = let same : a ≡ b = cc in ap (λ (t : Bytes). length t) same

unesc_loop-length : (text bs : Bytes) → unesc_loop text ≡ ok bs → length text ≡ 2 * length bs
unfolding unesc_loop
unesc_loop-length [] bs h = let none_left : 0 ≡ length bs = ok_inj [] bs h in omega arith
unesc_loop-length (c ∷ []) bs h = cc
unesc_loop-length (c ∷ d ∷ text) bs h =
    let high = bind_ok (valid (nibble c)) _ bs h in
    let low = bind_ok (valid (nibble d)) _ bs high.1.1 in
    let tail = bind_ok (unesc_loop text) _ bs low.1.1 in
    let size : suc (length tail.0) ≡ length bs =
      ok_inj ((high.0 * 16 + low.0) ∷ tail.0) bs tail.1.1 in
    let size' : length text ≡ 2 * length tail.0 = unesc_loop-length text tail.0 tail.1.0 in
    omega arith

size_unesc_bin-even : (n m : ℕ) → n ≡ 2 * m → m ≡ size_unesc_bin (suc (suc n))
unfolding size_unesc_bin
size_unesc_bin-even n m h = ground arith

-- Whatever text `unesc_bin` accepts, it writes exactly as many bytes as the buffer has that
-- `size_unesc_bin` computes for that text.
pub unesc_bin-length :
    (text bs : Bytes) → unesc_bin text ≡ ok bs → length bs ≡ size_unesc_bin (length text)
unfolding unesc_bin
unesc_bin-length [] bs h = cc
unesc_bin-length (c ∷ []) bs h = cc
unesc_bin-length (c ∷ d ∷ text) bs h =
    let h' =
      guard_ok (length text % 2 == 0)
        (guard (c == backslash && d == b'x') failure >> unesc_loop text) bs h in
    let h'' = guard_ok (c == backslash && d == b'x') (unesc_loop text) bs h' in
    let size : length text ≡ 2 * length bs = unesc_loop-length text bs h'' in
    size_unesc_bin-even (length text) (length bs) size
