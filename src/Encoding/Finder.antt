-- ===== src/Encoding/Finder.antt =====
-- `find_ascii_char` and `get_char_finder` of include/pqxx/internal/encodings.hxx.
use libpqxx.Prelude.{
  ℕ, zero, suc, ◌-◌, ◌≤◌, ◌<◌, ◌≡◌, ◌≢◌, ◌⊎◌, inl, inr, Bool, true, false, ◌||◌, Bytes, List, [],
  ◌∷◌, byte_at, length, ltb, ◌==◌, if◌then◌else◌, arith, Result, ok, err, Error, argument_error,
  internal_error, fuel_out, ◌>>=◌, Bool-cases, Result-cases, ltb→lt,
}
use libpqxx.Encoding.Scanner.{
  EncodingGroup, unknown, ascii_safe, two_tier, gb18030, sjis, glyph_scanner, glyph_scanner_bounds,
  glyph_scanner_error,
}

-- `(... or (data[here] == NEEDLE))`.
unfoldable pub is_needle : List ℕ → ℕ → Bool
is_needle [] c = false
is_needle (n ∷ needle) c = (c == n) || is_needle needle c

-- The `while` loop. Each round moves on by at least one byte, so one more than the bytes that are
-- left is enough fuel.
unfoldable pub find_loop : ℕ → EncodingGroup → List ℕ → Bytes → ℕ → Result ℕ
find_loop zero enc needle haystack here = err fuel_out
find_loop (suc fuel) enc needle haystack here =
    if ltb here (length haystack)
    then (glyph_scanner enc haystack here >>= λ next.
        let rest = find_loop fuel enc needle haystack next in
        if is_needle needle (byte_at haystack here) then ok here else rest)
    else ok (length haystack)

unfoldable pub find_ascii_char : EncodingGroup → List ℕ → Bytes → ℕ → Result ℕ
unfolding find_loop
find_ascii_char enc needle haystack here =
    find_loop (suc (length haystack - here)) enc needle haystack here

-- A `char_finder_func`.
abbrev pub CharFinder : Type 0
CharFinder = Bytes → ℕ → Result ℕ

-- The `default` of the switch stands for values that the enumeration does not have.
unfoldable pub get_char_finder : List ℕ → EncodingGroup → Result CharFinder
get_char_finder needle unknown = err argument_error
get_char_finder needle ascii_safe = ok (find_ascii_char ascii_safe needle)
get_char_finder needle two_tier = ok (find_ascii_char two_tier needle)
get_char_finder needle gb18030 = ok (find_ascii_char gb18030 needle)
get_char_finder needle sjis = ok (find_ascii_char sjis needle)

-- What a search from `here` may return: the end of the text, or a needle at or behind `here`.
pub data Found (needle : List ℕ) (haystack : Bytes) (here : ℕ) : Result ℕ → Type 0 where
  at_needle :
      (p : ℕ)
      → here ≤ p
      → p < length haystack
      → is_needle needle (byte_at haystack p) ≡ true
      → Found needle haystack here (ok p)
  at_end : Found needle haystack here (ok (length haystack))
  badly_encoded : Found needle haystack here (err argument_error)

Found-scan_error :
    (enc : EncodingGroup) (needle : List ℕ) (haystack : Bytes) (start : ℕ) (e : Error)
    → enc ≢ unknown
    → (e ≡ argument_error) ⊎ ((enc ≡ unknown) × (e ≡ internal_error))
    → Found needle haystack start (err e)
Found-scan_error enc needle haystack start e known (inl p) = rw p badly_encoded
Found-scan_error enc needle haystack start e known (inr (u, p)) = absurd (known u)

Found-test :
    (needle : List ℕ) (haystack : Bytes) (start here : ℕ) (rest : Result ℕ)
    → start ≤ here
    → here < length haystack
    → Found needle haystack start rest
    → Found needle haystack start
        (if is_needle needle (byte_at haystack here) then ok here else rest)
Found-test needle haystack start here rest le inside found =
    elim (Bool-cases (is_needle needle (byte_at haystack here))) [
      | inl hit ↦ rw hit (at_needle here le inside hit)
      | inr miss ↦ rw miss found
    ]

find_loop-Found :
    (fuel : ℕ) (enc : EncodingGroup) (needle : List ℕ) (haystack : Bytes) (here start : ℕ)
    → enc ≢ unknown
    → start ≤ here
    → length haystack - here < fuel
    → Found needle haystack start (find_loop fuel enc needle haystack here)
unfolding find_loop
find_loop-Found zero enc needle haystack here start known le fits = elim fits [ ]
find_loop-Found (suc fuel) enc needle haystack here start known le fits =
    elim (Bool-cases (ltb here (length haystack))) [
      | inr past ↦ rw past at_end
      | inl inside ↦ elim (Result-cases (glyph_scanner enc haystack here)) [
        | inr (e, bad) ↦
            rw (inside, bad)
              (Found-scan_error enc needle haystack start e known
                (glyph_scanner_error enc haystack here bad))
        | inl (next, good) ↦
            let inside' : here < length haystack = ltb→lt _ _ inside in
            let step = glyph_scanner_bounds enc haystack here inside' good in
            rw (inside, good)
              (Found-test needle haystack start here _ le inside' (
                find_loop-Found fuel enc needle haystack next start known (omega arith)
                  (omega arith)))
      ]
    ]

-- From any position, in any text and in every known encoding group, a search returns the end of
-- the text or the position of one of the characters it looks for, at or behind where it started, or
-- it throws an argument_error: it never runs out of fuel.
pub find_ascii_char-Found :
    (enc : EncodingGroup) (needle : List ℕ) (haystack : Bytes) (here : ℕ)
    → enc ≢ unknown
    → Found needle haystack here (find_ascii_char enc needle haystack here)
unfolding find_ascii_char
find_ascii_char-Found enc needle haystack here known =
    find_loop-Found (suc (length haystack - here)) enc needle haystack here here known (omega arith)
      (omega arith)
