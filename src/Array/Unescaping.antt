-- ===== src/Array/Unescaping.antt =====
-- `parse_double_quoted_string` gives back the text that was escaped.
use libpqxx.Prelude.{
  ℕ, zero, suc, ◌+◌, ◌-◌, ◌<◌, ◌≡◌, ◌≢◌, ◌⊎◌, inl, inr, ap, ◌∙◌, true, false, ◌||◌, Bytes, byte_at,
  substr-append, byte_at-append, List, [], ◌∷◌, ◌++◌, append-nil, append_assoc, length,
  length-append, ltb, leb, ◌==◌, arith, ok, Bool-cases, lt→ltb, regroup_first, regroup_second,
  regroup_one,
}
use libpqxx.Encoding.Scanner.{EncodingGroup, unknown}
use libpqxx.Encoding.Finder.{is_needle}
use libpqxx.Encoding.Text.{Glyph, lead, trail, bytes}
use libpqxx.Encoding.Search.{IsClean, find_ascii_char-skip}
use libpqxx.Array.Quoted.{quote, backslash, specials, parse_loop, parse_double_quoted_string}
use libpqxx.Array.Escaped.{
  escaped, specials_cases, specials-IsAscii, StopsAt-backslash, StopsAt-quote, IsClean-append,
  bytes-snoc, trail_of_special, length-le-escaped,
}

-- At the closing quote the clean piece before it is the last one.
parse_loop-close :
    {enc : EncodingGroup} (fuel : ℕ) (cs : List (Glyph enc)) (pre out : Bytes)
    → enc ≢ unknown
    → IsClean specials cs
    → parse_loop (suc fuel) enc ((pre ++ bytes cs) ++ quote ∷ []) (length pre) out
      ≡ ok (out ++ bytes cs)
unfolding parse_loop
parse_loop-close fuel [] pre out known clean =
    ground (arith, append-nil pre, append-nil out, length-append pre (quote ∷ []))
parse_loop-close {enc} fuel (c ∷ cs) pre out known clean =
    let text = bytes (c ∷ cs) in
    let q = pre ++ text in
    let input = q ++ quote ∷ [] in
    let size : length input ≡ length q + 1 = length-append q (quote ∷ []) in
    let size' : length q ≡ length pre + length text = length-append pre text in
    let inside : ltb (length pre) (length input - 1) ≡ true = lt→ltb _ _ (omega arith) in
    let at_close : leb (length input - 1) (length q) ≡ true = ground arith in
    let found =
      find_ascii_char-skip specials (c ∷ cs) pre (quote ∷ []) known specials-IsAscii clean
        (StopsAt-quote []) in
    let span : length q - length pre ≡ length text = omega arith in
    rw (inside, found, at_close, span, substr-append pre text (quote ∷ []))

-- At an escape the clean piece before it is copied, and so is the character behind the backslash.
parse_loop-escape :
    {enc : EncodingGroup} (fuel : ℕ) (cs : List (Glyph enc)) (c : ℕ) (pre rest out : Bytes)
    → enc ≢ unknown
    → IsClean specials cs
    → (c ≡ quote) ⊎ (c ≡ backslash)
    → 0 < length rest
    → parse_loop (suc fuel) enc ((pre ++ bytes cs) ++ backslash ∷ c ∷ rest) (length pre) out
      ≡ parse_loop fuel enc
          ((pre ++ bytes cs) ++ backslash ∷ c ∷ rest)
          (length (pre ++ bytes cs) + 2)
          ((out ++ bytes cs) ++ c ∷ [])
unfolding parse_loop
parse_loop-escape {enc} fuel cs c pre rest out known clean h r =
    let q = pre ++ bytes cs in
    let tail = backslash ∷ c ∷ rest in
    let size : length (q ++ tail) ≡ length q + length tail = length-append q tail in
    let size' : length q ≡ length pre + length (bytes cs) = length-append pre (bytes cs) in
    let inside : ltb (length pre) (length (q ++ tail) - 1) ≡ true = lt→ltb _ _ (omega arith) in
    let before : leb (length (q ++ tail) - 1) (length q) ≡ false = ground arith in
    let found =
      find_ascii_char-skip specials cs pre tail known specials-IsAscii clean
        (StopsAt-backslash (c ∷ rest)) in
    let span : length q - length pre ≡ length (bytes cs) = omega arith in
    let next : byte_at (q ++ tail) (length q + 1) ≡ c = byte_at-append q tail 1 in
    let kept : (c == quote || c == backslash) ≡ true = ground arith in
    rw (inside, found, before, next, kept, span, substr-append pre (bytes cs) tail)

parse_loop-escaped :
    {enc : EncodingGroup} (fuel : ℕ) (cs gs : List (Glyph enc)) (pre out : Bytes)
    → enc ≢ unknown
    → length gs < fuel
    → IsClean specials cs
    → parse_loop fuel enc ((pre ++ bytes cs) ++ (escaped gs ++ quote ∷ [])) (length pre) out
      ≡ ok (out ++ (bytes cs ++ bytes gs))
parse_loop-escaped zero cs gs pre out known fits clean = elim fits [ ]
parse_loop-escaped (suc fuel) cs [] pre out known fits clean =
    rw (append-nil (bytes cs)) (parse_loop-close fuel cs pre out known clean)
parse_loop-escaped {enc} (suc fuel) cs (g ∷ gs) pre out known fits clean =
    elim (Bool-cases (is_needle specials (lead g))) [
      | inl special ↦
          let q = pre ++ bytes cs in
          let pre' = q ++ backslash ∷ lead g ∷ [] in
          let size : length pre' ≡ length q + 2 = length-append q (backslash ∷ lead g ∷ []) in
          let tail = escaped gs ++ quote ∷ [] in
          let out' = (out ++ bytes cs) ++ lead g ∷ [] in
          let joined : out' ++ bytes gs ≡ out ++ (bytes cs ++ bytes (g ∷ gs)) =
            rw (trail_of_special g special) (simp append_assoc) in
          rw special (
            parse_loop-escape fuel cs (lead g) pre tail out known clean
              (specials_cases (lead g) special)
              (omega (arith, length-append {0} (escaped gs) (quote ∷ [])))
            ∙ rw (regroup_first q (backslash ∷ lead g ∷ []) (escaped gs) (quote ∷ []), ← size)
                (parse_loop-escaped fuel [] gs pre' out' known (omega arith) tt ∙ ap ok joined))
      | inr plain ↦
          let joined : out ++ (bytes (cs ++ g ∷ []) ++ bytes gs)
              ≡ out ++ (bytes cs ++ bytes (g ∷ gs)) =
            rw (bytes-snoc cs g, append_assoc (bytes cs) (lead g ∷ trail g) (bytes gs)) in
          rw
            (
              plain,
              regroup_second pre (bytes cs) (lead g ∷ trail g) (escaped gs) (quote ∷ []),
              ← bytes-snoc cs g,
            )
            (parse_loop-escaped (suc fuel) (cs ++ g ∷ []) gs pre out known (omega arith)
                (IsClean-append specials cs g clean plain)
              ∙ ap ok joined)
    ]

-- A double-quoted string that holds escaped text is parsed to that text, for well encoded text in
-- every known encoding group and at every position.
pub parse_double_quoted_string-escaped :
    {enc : EncodingGroup} (gs : List (Glyph enc)) (pre : Bytes)
    → enc ≢ unknown
    → parse_double_quoted_string enc (pre ++ quote ∷ (escaped gs ++ quote ∷ [])) (length pre)
      ≡ ok (bytes gs)
unfolding parse_double_quoted_string
parse_double_quoted_string-escaped {enc} gs pre known =
    let pre' = pre ++ quote ∷ [] in
    let size : length pre' ≡ length pre + 1 = length-append pre (quote ∷ []) in
    let body = escaped gs ++ quote ∷ [] in
    let count : length (pre' ++ []) ≡ length pre' =
      ap (λ (t : Bytes). length t) (append-nil pre') in
    rw (regroup_one pre quote body, ← size)
      (parse_loop-escaped (length ((pre' ++ []) ++ body)) [] gs pre' [] known
        (omega (
          arith,
          length-le-escaped gs,
          length-append {0} (pre' ++ []) body,
          length-append {0} (escaped gs) (quote ∷ []),
        ))
        tt)
