-- ===== src/Array/Writing.antt =====
-- `array_into_buf` writes the SQL text of an array, and never past its budget.
use libpqxx.Prelude.{
  ℕ, zero, suc, ◌+◌, ◌-◌, ◌≤◌, ◌<◌, ◌≡◌, ◌≢◌, inl, inr, refl, sym, ap, ◌∙◌, true, false, Bytes,
  substr, substr-append, byte_at-length, subst, take, drop-append, List, [], ◌∷◌, ◌++◌, append-nil,
  append_assoc, length, length-append, ltb, arith, ok, Bool-cases, lt→ltb,
}
use libpqxx.Encoding.Scanner.{EncodingGroup, unknown}
use libpqxx.Encoding.Finder.{is_needle, find_ascii_char}
use libpqxx.Encoding.Text.{Glyph, lead, trail, bytes}
use libpqxx.Encoding.Search.{
  get_char_finder-known, IsClean, IsAscii, find_ascii_char-skip, length-le-bytes,
}
use libpqxx.Array.Quoted.{quote, backslash, specials}
use libpqxx.Array.Escaped.{escaped, IsClean-append, bytes-snoc, trail_of_special}
use libpqxx.Array.Writer.{copy_chars, escapes, escape_loop, write_text}

take_all : (xs : Bytes) → take (length xs) xs ≡ xs
take_all [] = refl
take_all (x ∷ xs) = ap (λ t. x ∷ t) (take_all xs)

-- The two finders of the module look for the same characters.
escapes-specials : (c : ℕ) → is_needle escapes c ≡ is_needle specials c
unfolding is_needle
escapes-specials c = ground arith

escapes-IsAscii : IsAscii escapes
escapes-IsAscii = omega arith

substr_rest : (a b : Bytes) → substr (a ++ b) (length a) (length (a ++ b) - length a) ≡ b
substr_rest a b =
    let size : length (a ++ b) - length a ≡ length b = omega (arith, length-append {0} a b) in
    rw (size, drop-append a b) (take_all b)

-- At the end of the text nothing is left to copy.
escape_loop-stop :
    (enc : EncodingGroup) (fuel size : ℕ) (from out : Bytes)
    → length out ≤ size
    → escape_loop (suc fuel) (find_ascii_char enc escapes) size from (length from) out ≡ ok out
unfolding escape_loop copy_chars
escape_loop-stop enc fuel size from out fits =
    let past : ltb (length from) (length from) ≡ false = ground arith in
    let empty : length from - length from ≡ 0 = omega arith in
    let room : ltb size (length out + 0) ≡ false = ground arith in
    rw (past, empty, room, append-nil out)

-- A round that finds no special character.
escape_loop-last :
    (enc : EncodingGroup) (fuel size : ℕ) (from : Bytes) (i : ℕ) (out : Bytes)
    → i < length from
    → find_ascii_char enc escapes from i ≡ ok (length from)
    → length out + length from - i ≤ size
    → escape_loop (suc fuel) (find_ascii_char enc escapes) size from i out
      ≡ escape_loop fuel
          (find_ascii_char enc escapes)
          size
          from
          (length from)
          (out ++ substr from i (length from - i))
unfolding escape_loop
escape_loop-last enc fuel size from i out inside found fits =
    let inside' : ltb i (length from) ≡ true = lt→ltb _ _ inside in
    let room : ltb size (length out + length from - i) ≡ false = ground arith in
    let last : ltb (length from) (length from) ≡ false = ground arith in
    rw (inside', found, room, last)

-- The end of the text: the clean piece before it is copied.
escape_loop-end :
    {enc : EncodingGroup} (fuel size : ℕ) (cs : List (Glyph enc)) (pre out : Bytes)
    → enc ≢ unknown
    → IsClean escapes cs
    → length out + length (bytes cs) ≤ size
    → escape_loop
        (suc (suc fuel))
        (find_ascii_char enc escapes)
        size
        (pre ++ bytes cs)
        (length pre)
        out
      ≡ ok (out ++ bytes cs)
escape_loop-end {enc} fuel size [] pre out known clean fits =
    rw (append-nil pre, append-nil out) (escape_loop-stop enc (suc fuel) size pre out (omega arith))
escape_loop-end {enc} fuel size (c ∷ cs) pre out known clean fits =
    let piece = bytes (c ∷ cs) in
    let from = pre ++ piece in
    let len : length from ≡ length pre + length piece = length-append pre piece in
    let found : find_ascii_char enc escapes from (length pre) ≡ ok (length from) =
      subst (λ t. find_ascii_char enc escapes t (length pre) ≡ ok (length from)) (append-nil from)
        (find_ascii_char-skip escapes (c ∷ cs) pre [] known escapes-IsAscii clean tt) in
    let copied : length (out ++ piece) ≡ length out + length piece = length-append out piece in
    escape_loop-last enc (suc fuel) size from (length pre) out (omega arith) found (omega arith)
    ∙ rw (substr_rest pre piece) (escape_loop-stop enc fuel size from (out ++ piece) (omega arith))

-- A special character: the clean piece before it is copied, and it is written behind a backslash.
escape_loop-special :
    {enc : EncodingGroup} (fuel size : ℕ) (cs : List (Glyph enc)) (c : ℕ) (pre rest out : Bytes)
    → enc ≢ unknown
    → IsClean escapes cs
    → is_needle escapes c ≡ true
    → length out + length (bytes cs) ≤ size
    → escape_loop
        (suc fuel)
        (find_ascii_char enc escapes)
        size
        ((pre ++ bytes cs) ++ c ∷ rest)
        (length pre)
        out
      ≡ escape_loop fuel
          (find_ascii_char enc escapes)
          size
          ((pre ++ bytes cs) ++ c ∷ rest)
          (length (pre ++ bytes cs) + 1)
          ((out ++ bytes cs) ++ backslash ∷ c ∷ [])
unfolding escape_loop
escape_loop-special {enc} fuel size cs c pre rest out known clean special fits =
    let q = pre ++ bytes cs in
    let from = q ++ c ∷ rest in
    let len : length from ≡ length q + suc (length rest) = length-append q (c ∷ rest) in
    let len' : length q ≡ length pre + length (bytes cs) = length-append pre (bytes cs) in
    let inside : ltb (length pre) (length from) ≡ true = lt→ltb _ _ (omega arith) in
    let found =
      find_ascii_char-skip escapes cs pre (c ∷ rest) known escapes-IsAscii clean special in
    let room : ltb size (length out + length q - length pre) ≡ false = ground arith in
    let more : ltb (length q) (length from) ≡ true = lt→ltb _ _ (omega arith) in
    let span : length q - length pre ≡ length (bytes cs) = omega arith in
    rw (
      inside,
      found,
      room,
      more,
      span,
      substr-append pre (bytes cs) (c ∷ rest),
      byte_at-length q c rest,
    )

escape_loop-bytes :
    {enc : EncodingGroup} (fuel size : ℕ) (cs gs : List (Glyph enc)) (pre out : Bytes)
    → enc ≢ unknown
    → length gs + 1 < fuel
    → IsClean escapes cs
    → length out + (length (bytes cs) + length (escaped gs)) ≤ size
    → escape_loop fuel
        (find_ascii_char enc escapes)
        size
        ((pre ++ bytes cs) ++ bytes gs)
        (length pre)
        out
      ≡ ok (out ++ (bytes cs ++ escaped gs))
escape_loop-bytes zero size cs gs pre out known fuel_fits clean fits = elim fuel_fits [ ]
escape_loop-bytes (suc zero) size cs gs pre out known fuel_fits clean fits = absurd (omega arith)
escape_loop-bytes {enc} (suc (suc fuel)) size cs [] pre out known fuel_fits clean fits =
    rw (append-nil (pre ++ bytes cs), append-nil (bytes cs))
      (escape_loop-end fuel size cs pre out known clean (omega arith))
escape_loop-bytes {enc} (suc (suc fuel)) size cs (g ∷ gs) pre out known fuel_fits clean fits =
    elim (Bool-cases (is_needle escapes (lead g))) [
      | inl special ↦
          let special' : is_needle specials (lead g) ≡ true =
            sym (escapes-specials (lead g)) ∙ special in
          let q = pre ++ bytes cs in
          let pre' = q ++ lead g ∷ [] in
          let size' : length pre' ≡ length q + 1 = length-append q (lead g ∷ []) in
          let out' = (out ++ bytes cs) ++ backslash ∷ lead g ∷ [] in
          let shift : q ++ lead g ∷ bytes gs ≡ (pre' ++ []) ++ bytes gs =
            simp (append_assoc, append-nil) in
          let joined : out' ++ escaped gs ≡ out ++ (bytes cs ++ (backslash ∷ lead g ∷ escaped gs)) =
            simp append_assoc in
          let fits' : length out + (length (bytes cs) + suc (suc (length (escaped gs)))) ≤ size =
            rw special' at fits in
          let count : length out' ≡ length out + length (bytes cs) + 2 = omega (
            arith,
            length-append {0} (out ++ bytes cs) (backslash ∷ lead g ∷ []),
            length-append {0} out (bytes cs),
          ) in
          rw (special', trail_of_special g special')
            (escape_loop-special (suc fuel) size cs (lead g) pre (bytes gs) out known clean special
                (omega arith)
              ∙ rw (shift, ← size')
                  (escape_loop-bytes (suc fuel) size [] gs pre' out' known (omega arith) tt
                      (omega arith)
                    ∙ ap ok joined))
      | inr plain ↦
          let plain' : is_needle specials (lead g) ≡ false =
            sym (escapes-specials (lead g)) ∙ plain in
          let fits' : length out + (length (bytes cs) + length ((lead g ∷ trail g) ++ escaped gs))
              ≤ size =
            rw plain' at fits in
          let shift : (pre ++ bytes cs) ++ ((lead g ∷ trail g) ++ bytes gs)
              ≡ (pre ++ (bytes cs ++ (lead g ∷ trail g))) ++ bytes gs =
            simp append_assoc in
          let joined : out ++ ((bytes cs ++ (lead g ∷ trail g)) ++ escaped gs)
              ≡ out ++ (bytes cs ++ ((lead g ∷ trail g) ++ escaped gs)) =
            simp append_assoc in
          let count : length (bytes cs ++ (lead g ∷ trail g)) + length (escaped gs)
              ≡ length (bytes cs) + length ((lead g ∷ trail g) ++ escaped gs) =
            omega (
              arith,
              length-append {0} (bytes cs) (lead g ∷ trail g),
              length-append {0} (trail g) (escaped gs),
            ) in
          rw (plain', shift, ← joined, ← bytes-snoc cs g)
            (escape_loop-bytes (suc (suc fuel)) size (cs ++ g ∷ []) gs pre out known (omega arith)
              (IsClean-append escapes cs g clean plain) (rw (bytes-snoc cs g) (omega arith)))
    ]

-- A text is written between quotes, with its quotes and backslashes escaped.
pub write_text-escaped :
    {enc : EncodingGroup} (size : ℕ) (gs : List (Glyph enc)) (out : Bytes)
    → enc ≢ unknown
    → length out + (length (escaped gs) + 2) ≤ size
    → write_text enc size (bytes gs) out ≡ ok (out ++ (quote ∷ (escaped gs ++ quote ∷ [])))
unfolding write_text
write_text-escaped {enc} size gs out known fits =
    let out' = out ++ quote ∷ [] in
    let joined : (out' ++ ([] ++ escaped gs)) ++ quote ∷ []
        ≡ out ++ (quote ∷ (escaped gs ++ quote ∷ [])) =
      simp append_assoc in
    let count : length out' ≡ length out + 1 = length-append out (quote ∷ []) in
    rw
      (
        get_char_finder-known enc escapes known,
        escape_loop-bytes (suc (suc (length (bytes gs)))) size [] gs [] out' known
            (omega (arith, length-le-bytes gs)) tt (omega arith),
      )
      (ap ok joined)
