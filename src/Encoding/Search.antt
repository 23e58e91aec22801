-- ===== src/Encoding/Search.antt =====
-- What `find_ascii_char` returns on well encoded text.
use libpqxx.Prelude.{
  ℕ, zero, suc, ◌+◌, ◌-◌, ◌≤◌, ◌<◌, ◌≡◌, ◌≢◌, refl, sym, ap, ◌∙◌, true, false, Bytes, List, [], ◌∷◌,
  ◌++◌, append_assoc, length, length-append, arith, ok, byte_at-length,
}
use libpqxx.Encoding.Scanner.{
  EncodingGroup, unknown, ascii_safe, two_tier, gb18030, sjis, glyph_scanner,
}
use libpqxx.Encoding.Finder.{is_needle, find_loop, find_ascii_char, get_char_finder}
use libpqxx.Encoding.Text.{Glyph, lead, trail, bytes, glyph_scanner-Glyph}

-- All characters that are looked for are ASCII (the `static_assert`).
abbrev pub IsAscii : List ℕ → Type 0
IsAscii [] = Unit {0}
IsAscii (n ∷ needle) = (n < 0x80) × IsAscii needle

-- No character of the text is looked for.
abbrev pub IsClean : {enc : EncodingGroup} → List ℕ → List (Glyph enc) → Type 0
IsClean needle [] = Unit {0}
IsClean needle (g ∷ gs) = (is_needle needle (lead g) ≡ false) × IsClean needle gs

-- The text ends here, or a character that is looked for stands here.
abbrev pub StopsAt : List ℕ → Bytes → Type 0
StopsAt needle [] = Unit {0}
StopsAt needle (c ∷ rest) = is_needle needle c ≡ true

pub is_needle-lt : (needle : List ℕ) (c : ℕ) → IsAscii needle → is_needle needle c ≡ true → c < 0x80
unfolding is_needle
is_needle-lt [] c a h = cc
is_needle-lt (n ∷ needle) c a h = ground (arith, is_needle-lt needle c)

pub glyph_scanner-ascii :
    (enc : EncodingGroup) (pre : Bytes) (c : ℕ) (rest : Bytes)
    → enc ≢ unknown
    → c < 0x80
    → glyph_scanner enc (pre ++ c ∷ rest) (length pre) ≡ ok (length pre + 1)
unfolding glyph_scanner
glyph_scanner-ascii unknown pre c rest known h = absurd (known refl)
glyph_scanner-ascii ascii_safe pre c rest known h = refl
glyph_scanner-ascii two_tier pre c rest known h = ground (arith, byte_at-length pre c rest)
glyph_scanner-ascii gb18030 pre c rest known h = ground (arith, byte_at-length pre c rest)
glyph_scanner-ascii sjis pre c rest known h = ground (arith, byte_at-length pre c rest)

pub bytes-append :
    {enc : EncodingGroup} (gs hs : List (Glyph enc)) → bytes (gs ++ hs) ≡ bytes gs ++ bytes hs
bytes-append [] hs = refl
bytes-append (g ∷ gs) hs =
    ap (λ t. lead g ∷ t)
      (rw (bytes-append gs hs) (sym (append_assoc (trail g) (bytes gs) (bytes hs))))

pub length-le-bytes : {enc : EncodingGroup} (gs : List (Glyph enc)) → length gs ≤ length (bytes gs)
length-le-bytes [] = omega arith
length-le-bytes (g ∷ gs) = omega (arith, length-le-bytes gs, length-append (trail g) (bytes gs))

find_loop-stop :
    (fuel : ℕ) (enc : EncodingGroup) (needle : List ℕ) (pre rest : Bytes)
    → enc ≢ unknown
    → IsAscii needle
    → StopsAt needle rest
    → find_loop (suc fuel) enc needle (pre ++ rest) (length pre) ≡ ok (length pre)
unfolding find_loop
find_loop-stop fuel enc needle pre [] known a h = ground (arith, length-append pre [])
find_loop-stop fuel enc needle pre (c ∷ rest) known a h = ground (
  arith,
  length-append pre (c ∷ rest),
  byte_at-length pre c rest,
  glyph_scanner-ascii enc pre c rest known (is_needle-lt needle c a h),
)

find_loop-step :
    {enc : EncodingGroup} (fuel : ℕ) (needle : List ℕ) (g : Glyph enc) (pre rest : Bytes)
    → is_needle needle (lead g) ≡ false
    → find_loop (suc fuel) enc needle (pre ++ lead g ∷ (trail g ++ rest)) (length pre)
      ≡ find_loop fuel enc needle
          (pre ++ lead g ∷ (trail g ++ rest))
          (length pre + suc (length (trail g)))
unfolding find_loop
find_loop-step fuel needle g pre rest h = ground (
  arith,
  length-append pre (lead g ∷ (trail g ++ rest)),
  byte_at-length pre (lead g) (trail g ++ rest),
  glyph_scanner-Glyph g pre rest,
)

find_loop-bytes :
    {enc : EncodingGroup} (fuel : ℕ) (needle : List ℕ) (gs : List (Glyph enc)) (pre rest : Bytes)
    → enc ≢ unknown
    → IsAscii needle
    → length gs < fuel
    → IsClean needle gs
    → StopsAt needle rest
    → find_loop fuel enc needle (pre ++ (bytes gs ++ rest)) (length pre)
      ≡ ok (length pre + length (bytes gs))
find_loop-bytes zero needle gs pre rest known a fits clean stop = elim fits [ ]
find_loop-bytes {enc} (suc fuel) needle [] pre rest known a fits clean stop =
    find_loop-stop fuel enc needle pre rest known a stop ∙ ap ok (omega arith)
find_loop-bytes {enc} (suc fuel) needle (g ∷ gs) pre rest known a fits clean stop =
    let pre' = pre ++ lead g ∷ trail g in
    let shift : pre' ++ (bytes gs ++ rest) ≡ pre ++ lead g ∷ (trail g ++ (bytes gs ++ rest)) =
      append_assoc pre (lead g ∷ trail g) (bytes gs ++ rest) in
    let size : length pre' ≡ length pre + suc (length (trail g)) =
      length-append pre (lead g ∷ trail g) in
    let sizes : length (trail g ++ bytes gs) ≡ length (trail g) + length (bytes gs) =
      length-append (trail g) (bytes gs) in
    let later : find_loop fuel enc needle (pre' ++ (bytes gs ++ rest)) (length pre')
        ≡ ok (length pre' + length (bytes gs)) =
      find_loop-bytes fuel needle gs pre' rest known a (omega arith) clean.1 stop in
    let count : length pre' + length (bytes gs) ≡ length pre + length (bytes (g ∷ gs)) =
      omega arith in
    rw
      (
        append_assoc (trail g) (bytes gs) rest,
        find_loop-step fuel needle g pre (bytes gs ++ rest) clean.0,
      )
      (rw (← shift, ← size) (later ∙ ap ok count))

-- On well encoded text without any of the characters looked for, a search that starts at the
-- beginning of a character skips the whole text, and stops where one of them follows or the input
-- ends. Bytes inside multibyte characters are never taken for the ASCII characters they look like.
pub find_ascii_char-bytes :
    {enc : EncodingGroup} (needle : List ℕ) (gs : List (Glyph enc)) (pre rest : Bytes)
    → enc ≢ unknown
    → IsAscii needle
    → IsClean needle gs
    → StopsAt needle rest
    → find_ascii_char enc needle (pre ++ (bytes gs ++ rest)) (length pre)
      ≡ ok (length pre + length (bytes gs))
unfolding find_ascii_char
find_ascii_char-bytes needle gs pre rest known a clean stop =
    find_loop-bytes (suc (length (pre ++ (bytes gs ++ rest)) - length pre)) needle gs pre rest known
      a
      (omega (
        arith,
        length-le-bytes gs,
        length-append {0} pre (bytes gs ++ rest),
        length-append {0} (bytes gs) rest,
      ))
      clean stop

-- The same, with the text that is skipped as part of the prefix.
pub find_ascii_char-skip :
    {enc : EncodingGroup} (needle : List ℕ) (cs : List (Glyph enc)) (pre rest : Bytes)
    → enc ≢ unknown
    → IsAscii needle
    → IsClean needle cs
    → StopsAt needle rest
    → find_ascii_char enc needle ((pre ++ bytes cs) ++ rest) (length pre)
      ≡ ok (length (pre ++ bytes cs))
find_ascii_char-skip needle cs pre rest known a clean stop =
    rw (append_assoc pre (bytes cs) rest, length-append pre (bytes cs))
      (find_ascii_char-bytes needle cs pre rest known a clean stop)

-- A finder is there for every encoding group but the unknown one.
pub get_char_finder-known :
    (enc : EncodingGroup) (needle : List ℕ)
    → enc ≢ unknown
    → get_char_finder needle enc ≡ ok (find_ascii_char enc needle)
unfolding get_char_finder
get_char_finder-known unknown needle known = absurd (known refl)
get_char_finder-known ascii_safe needle known = refl
get_char_finder-known two_tier needle known = refl
get_char_finder-known gb18030 needle known = refl
get_char_finder-known sjis needle known = refl
