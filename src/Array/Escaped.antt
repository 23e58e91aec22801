-- ===== src/Array/Escaped.antt =====
-- Text with its quotes and backslashes escaped, as the backend writes it inside double quotes and
-- as `array_into_buf` writes it. `scan_double_quoted_string` finds where such a string ends.
use libpqxx.Prelude.{
  ℕ, zero, suc, ◌+◌, ◌*◌, ◌≤◌, ◌<◌, ◌≡◌, ◌≢◌, ◌⊎◌, inl, inr, refl, ap, ◌∙◌, true, false, Bytes,
  byte_at-append, byte_at-length, List, [], ◌∷◌, ◌++◌, append-nil, length, length-append, ltb,
  if◌then◌else◌, arith, ok, ◌>>=◌, Bool-cases, lt→ltb, regroup_first, regroup_second, regroup_one,
}
use libpqxx.Encoding.Scanner.{EncodingGroup, unknown}
use libpqxx.Encoding.Finder.{is_needle, find_ascii_char}
use libpqxx.Encoding.Text.{Glyph, lead, trail, bytes, trail_of_ascii}
use libpqxx.Encoding.Search.{
  IsAscii, IsClean, StopsAt, is_needle-lt, bytes-append, find_ascii_char-skip,
}
use libpqxx.Array.Quoted.{
  quote, backslash, specials, done, more, scan_special, scan_loop, scan_double_quoted_string,
}

-- A character as it stands inside quotes.
abbrev pub escaped_glyph : {enc : EncodingGroup} → Glyph enc → Bytes
escaped_glyph g = if is_needle specials (lead g) then backslash ∷ lead g ∷ [] else lead g ∷ trail g

abbrev pub escaped : {enc : EncodingGroup} → List (Glyph enc) → Bytes
escaped [] = []
escaped (g ∷ gs) = escaped_glyph g ++ escaped gs

-- What may follow a closing quote: the end of the text, or another byte than a quote.
abbrev pub IsAfterQuote : Bytes → Type 0
IsAfterQuote [] = Unit {0}
IsAfterQuote (c ∷ rest) = c ≢ quote

pub specials_cases : (c : ℕ) → is_needle specials c ≡ true → (c ≡ quote) ⊎ (c ≡ backslash)
unfolding is_needle
specials_cases c h = ground arith

pub specials-IsAscii : IsAscii specials
specials-IsAscii = omega arith

pub StopsAt-backslash : (rest : Bytes) → StopsAt specials (backslash ∷ rest)
unfolding is_needle
StopsAt-backslash rest = refl

pub StopsAt-quote : (rest : Bytes) → StopsAt specials (quote ∷ rest)
unfolding is_needle
StopsAt-quote rest = refl

-- Adding a character to a clean piece of text.
pub IsClean-append :
    {enc : EncodingGroup} (needle : List ℕ) (cs : List (Glyph enc)) (g : Glyph enc)
    → IsClean needle cs
    → is_needle needle (lead g) ≡ false
    → IsClean needle (cs ++ g ∷ [])
IsClean-append needle [] g clean h = (h, tt)
IsClean-append needle (c ∷ cs) g clean h = (clean.0, IsClean-append needle cs g clean.1 h)

pub bytes-snoc :
    {enc : EncodingGroup} (cs : List (Glyph enc)) (g : Glyph enc)
    → bytes (cs ++ g ∷ []) ≡ bytes cs ++ (lead g ∷ trail g)
bytes-snoc cs g = rw (bytes-append cs (g ∷ []), append-nil)

pub trail_of_special :
    {enc : EncodingGroup} (g : Glyph enc) → is_needle specials (lead g) ≡ true → trail g ≡ []
trail_of_special g h = trail_of_ascii g (is_needle-lt specials (lead g) specials-IsAscii h)

pub scan_special_escape :
    (pre : Bytes) (c : ℕ) (rest : Bytes)
    → (c ≡ quote) ⊎ (c ≡ backslash)
    → 0 < length rest
    → scan_special (pre ++ backslash ∷ c ∷ rest) (length pre) ≡ ok (more (length pre + 2))
unfolding scan_special
scan_special_escape pre c rest h r = ground (
  arith,
  byte_at-length pre backslash (c ∷ rest),
  length-append pre (backslash ∷ c ∷ rest),
  byte_at-append pre (backslash ∷ c ∷ rest) 1,
)

scan_special_close :
    (pre rest : Bytes)
    → IsAfterQuote rest
    → scan_special (pre ++ quote ∷ rest) (length pre) ≡ ok (done (length pre + 1))
unfolding scan_special
scan_special_close pre [] h =
    ground (arith, byte_at-length pre quote [], length-append pre (quote ∷ []))
scan_special_close pre (c ∷ rest) h = ground (
  arith,
  byte_at-length pre quote (c ∷ rest),
  length-append pre (quote ∷ c ∷ rest),
  byte_at-append pre (quote ∷ c ∷ rest) 1,
)

scan_loop-close :
    (fuel : ℕ) (enc : EncodingGroup) (pre rest : Bytes)
    → IsAfterQuote rest
    → scan_loop (suc fuel) enc (pre ++ quote ∷ rest) (length pre) ≡ ok (length pre + 1)
unfolding scan_loop
scan_loop-close fuel enc pre rest h =
    let inside : ltb (length pre) (length (pre ++ quote ∷ rest)) ≡ true =
      lt→ltb _ _ (omega (arith, length-append pre (quote ∷ rest))) in
    rw (inside, scan_special_close pre rest h)

pub scan_loop-escape :
    (fuel : ℕ) (enc : EncodingGroup) (pre : Bytes) (c : ℕ) (rest : Bytes)
    → (c ≡ quote) ⊎ (c ≡ backslash)
    → 0 < length rest
    → scan_loop (suc fuel) enc (pre ++ backslash ∷ c ∷ rest) (length pre) ≡ (
        find_ascii_char enc specials (pre ++ backslash ∷ c ∷ rest) (length pre + 2)
        >>= scan_loop fuel enc (pre ++ backslash ∷ c ∷ rest))
unfolding scan_loop
scan_loop-escape fuel enc pre c rest h r =
    let inside : ltb (length pre) (length (pre ++ backslash ∷ c ∷ rest)) ≡ true =
      lt→ltb _ _ (omega (arith, length-append pre (backslash ∷ c ∷ rest))) in
    rw (inside, scan_special_escape pre c rest h r)

-- What the scan does from `length pre`, where a clean piece `cs` has been read already.
scan_from-escaped :
    {enc : EncodingGroup} (fuel : ℕ) (cs gs : List (Glyph enc)) (pre rest : Bytes)
    → enc ≢ unknown
    → length gs < fuel
    → IsClean specials cs
    → IsAfterQuote rest
    → (find_ascii_char enc specials ((pre ++ bytes cs) ++ (escaped gs ++ quote ∷ rest)) (length pre)
        >>= scan_loop fuel enc ((pre ++ bytes cs) ++ (escaped gs ++ quote ∷ rest)))
      ≡ ok (length (pre ++ bytes cs) + (length (escaped gs) + 1))
scan_from-escaped zero cs gs pre rest known fits clean after = elim fits [ ]
scan_from-escaped {enc} (suc fuel) cs [] pre rest known fits clean after =
    rw
      (find_ascii_char-skip specials cs pre (quote ∷ rest) known specials-IsAscii clean
        (StopsAt-quote rest))
      (scan_loop-close fuel enc (pre ++ bytes cs) rest after ∙ ap ok (omega arith))
scan_from-escaped {enc} (suc fuel) cs (g ∷ gs) pre rest known fits clean after =
    elim (Bool-cases (is_needle specials (lead g))) [
      | inl special ↦
          let q = pre ++ bytes cs in
          let pre' = q ++ backslash ∷ lead g ∷ [] in
          let size : length pre' ≡ length q + 2 = length-append q (backslash ∷ lead g ∷ []) in
          let tail = escaped gs ++ quote ∷ rest in
          let found =
            find_ascii_char-skip specials cs pre (backslash ∷ lead g ∷ tail) known specials-IsAscii
              clean (StopsAt-backslash (lead g ∷ tail)) in
          let count : length (pre' ++ []) ≡ length pre' =
            ap (λ (t : Bytes). length t) (append-nil pre') in
          rw (special, found)
            (rw
              (scan_loop-escape fuel enc q (lead g) tail (specials_cases (lead g) special)
                (omega (arith, length-append {0} (escaped gs) (quote ∷ rest))))
              (rw (regroup_first q (backslash ∷ lead g ∷ []) (escaped gs) (quote ∷ rest), ← size)
                (scan_from-escaped fuel [] gs pre' rest known (omega arith) tt after
                  ∙ ap ok (omega arith))))
      | inr plain ↦
          let count : length (pre ++ (bytes cs ++ (lead g ∷ trail g))) + (length (escaped gs) + 1)
              ≡ length (pre ++ bytes cs) + (length ((lead g ∷ trail g) ++ escaped gs) + 1) =
            omega (
              arith,
              length-append {0} pre (bytes cs),
              length-append {0} (trail g) (escaped gs),
              length-append {0} pre (bytes cs ++ (lead g ∷ trail g)),
              length-append {0} (bytes cs) (lead g ∷ trail g),
            ) in
          rw
            (
              plain,
              regroup_second pre (bytes cs) (lead g ∷ trail g) (escaped gs) (quote ∷ rest),
              ← bytes-snoc cs g,
            )
            (scan_from-escaped (suc fuel) (cs ++ g ∷ []) gs pre rest known (omega arith)
                (IsClean-append specials cs g clean plain) after
              ∙ ap ok (rw (bytes-snoc cs g) count))
    ]

pub length-le-escaped :
    {enc : EncodingGroup} (gs : List (Glyph enc)) → length gs ≤ length (escaped gs)
length-le-escaped [] = omega arith
length-le-escaped (g ∷ gs) = elim (Bool-cases (is_needle specials (lead g))) [
  | inl special ↦ rw special (omega (arith, length-le-escaped gs))
  | inr plain ↦
      rw plain (omega (arith, length-le-escaped gs, length-append {0} (trail g) (escaped gs)))
]

pub length-escaped-le :
    {enc : EncodingGroup} (gs : List (Glyph enc)) → length (escaped gs) ≤ 2 * length (bytes gs)
length-escaped-le [] = omega arith
length-escaped-le (g ∷ gs) = elim (Bool-cases (is_needle specials (lead g))) [
  | inl special ↦
      rw special (omega (arith, length-escaped-le gs, length-append {0} (trail g) (bytes gs)))
  | inr plain ↦ rw plain (
      omega (
        arith,
        length-escaped-le gs,
        length-append {0} (trail g) (bytes gs),
        length-append {0} (trail g) (escaped gs),
      ))
]

-- A double-quoted string is scanned to the byte behind its closing quote, whatever well encoded
-- text it holds and whatever stands before it; behind it stands the end or another byte than a quote.
pub scan_double_quoted_string-escaped :
    {enc : EncodingGroup} (gs : List (Glyph enc)) (pre rest : Bytes)
    → enc ≢ unknown
    → IsAfterQuote rest
    → scan_double_quoted_string enc (pre ++ quote ∷ (escaped gs ++ quote ∷ rest)) (length pre)
      ≡ ok (length pre + (length (escaped gs) + 2))
unfolding scan_double_quoted_string
scan_double_quoted_string-escaped {enc} gs pre rest known after =
    let pre' = pre ++ quote ∷ [] in
    let size : length pre' ≡ length pre + 1 = length-append pre (quote ∷ []) in
    let body = escaped gs ++ quote ∷ rest in
    let count : length (pre' ++ []) ≡ length pre' =
      ap (λ (t : Bytes). length t) (append-nil pre') in
    rw (regroup_one pre quote body, ← size)
      (scan_from-escaped (suc (length ((pre' ++ []) ++ body))) [] gs pre' rest known
          (omega (
            arith,
            length-le-escaped gs,
            length-append {0} (pre' ++ []) body,
            length-append {0} (escaped gs) (quote ∷ rest),
          ))
          tt after
        ∙ ap ok (omega arith))
