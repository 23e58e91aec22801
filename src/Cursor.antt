-- ===== src/Cursor.antt =====
-- The end of a cursor's query: `useless_trail` and `find_query_end` (src/sql_cursor.cxx).
mod Tests
pub mod Movement
pub mod Adjusting
pub mod Backend
pub mod Following
pub mod Running
pub mod Retrieving
pub mod Stateless
pub mod Adopting
use libpqxx.Prelude.{
  ℕ, zero, suc, ◌+◌, ◌-◌, ◌≤◌, ◌<◌, ◌≡◌, ◌≢◌, inl, inr, refl, sym, ap, ◌∙◌, subst, Bool, true,
  false, ◌||◌, Bytes, byte_at, byte_at-length, List, [], ◌∷◌, ◌++◌, append-nil, append_assoc,
  length, length-append, ltb, ◌==◌, if◌then◌else◌, arith, Result, ok, err, fuel_out, ◌>>=◌,
  Bool-cases, lt→ltb,
}
use libpqxx.Encoding.Scanner.{EncodingGroup, unknown, ascii_safe, two_tier, gb18030, sjis}
use libpqxx.Encoding.Finder.{is_needle, find_ascii_char, CharFinder, get_char_finder}
use libpqxx.Encoding.Text.{Glyph, byte, lead, trail, trail_of_ascii, bytes}
use libpqxx.Encoding.Search.{
  IsAscii, IsClean, is_needle-lt, bytes-append, find_ascii_char-skip, get_char_finder-known,
  length-le-bytes,
}
use libpqxx.Array.Escaped.{IsClean-append, bytes-snoc}

unfoldable pub useless_trail : ℕ → Bool
useless_trail c = c == b' ' || c == b'\t' || c == b'\n' || c == b'\r' || c == b';'

-- `for (end = size; end > 0 and useless_trail(query[end - 1]); --end);`
unfoldable pub scan_back : Bytes → ℕ → ℕ
unfolding useless_trail
scan_back query zero = zero
scan_back query (suc end) =
    if useless_trail (byte_at query end) then scan_back query end else suc end

abbrev pub trails : List ℕ
trails = b' ' ∷ b'\t' ∷ b'\n' ∷ b'\r' ∷ b';' ∷ []

-- The loop of the scan forwards.
unfoldable pub scan_forward : ℕ → CharFinder → Bytes → ℕ → ℕ → Result ℕ
scan_forward zero finder query here end = err fuel_out
scan_forward (suc fuel) finder query here end =
    if ltb here (length query)
    then (finder query here >>= λ next.
        scan_forward fuel finder query (next + 1) (if ltb 0 (next - here) then next else end))
    else ok end

unfoldable pub find_query_end : EncodingGroup → Bytes → Result ℕ
unfolding scan_back scan_forward
find_query_end ascii_safe query = ok (scan_back query (length query))
find_query_end enc query =
    get_char_finder trails enc >>= λ finder. scan_forward (suc (length query)) finder query 0 0

-- Behind the last character that is not useless; `pos` is where the text begins and `end` the result
-- for what stands before it.
abbrev pub last_useful : {enc : EncodingGroup} → ℕ → ℕ → List (Glyph enc) → ℕ
last_useful pos end [] = end
last_useful pos end (g ∷ gs) =
    let next = pos + suc (length (trail g)) in
    last_useful next (if is_needle trails (lead g) then end else next) gs

trails-IsAscii : IsAscii trails
trails-IsAscii = omega arith

useless_trail-is_needle : (c : ℕ) → useless_trail c ≡ is_needle trails c
unfolding useless_trail is_needle
useless_trail-is_needle c = ground arith

scan_back-last_useful :
    (pre : Bytes) (gs : List (Glyph ascii_safe))
    → scan_back (pre ++ bytes gs) (length pre + length (bytes gs))
      ≡ last_useful (length pre) (scan_back (pre ++ bytes gs) (length pre)) gs
unfolding scan_back
scan_back-last_useful pre [] = ap (λ (n : ℕ). scan_back (pre ++ []) n) (omega arith)
scan_back-last_useful pre (byte c ∷ gs) =
    let pre' = pre ++ c ∷ [] in
    let size : length pre' ≡ length pre + 1 = length-append pre (c ∷ []) in
    let shift : pre ++ c ∷ bytes gs ≡ pre' ++ bytes gs = simp append_assoc in
    let count : length pre + suc (length (bytes gs)) ≡ length pre' + length (bytes gs) =
      omega arith in
    let last : byte_at (pre' ++ bytes gs) (length pre) ≡ c =
      subst (λ (t : Bytes). byte_at t (length pre) ≡ c) shift (byte_at-length pre c (bytes gs)) in
    let one : scan_back (pre' ++ bytes gs) (suc (length pre)) ≡ (
        if is_needle trails c
        then scan_back (pre' ++ bytes gs) (length pre)
        else suc (length pre)) =
      rw (last, useless_trail-is_needle c) refl in
    let next : length pre' ≡ suc (length pre) = omega arith in
    let later = scan_back-last_useful pre' gs in
    let X = pre' ++ bytes gs in
    let same : suc (length pre) ≡ length pre + suc 0 = omega arith in
    rw (shift, count)
      (later
        ∙ (ap (λ (n : ℕ). last_useful n (scan_back X n) gs) next
            ∙ (ap (λ (e : ℕ). last_useful (suc (length pre)) e gs) one
                ∙ ap
                    (λ (n : ℕ).
                      last_useful n (if is_needle trails c then scan_back X (length pre) else n) gs)
                    same)))

-- The end when the clean piece behind `pre` has been passed.
abbrev marked : {enc : EncodingGroup} → Bytes → List (Glyph enc) → ℕ → ℕ
marked pre [] end = end
marked pre (c ∷ cs) end = length (pre ++ bytes (c ∷ cs))

marked-snoc :
    {enc : EncodingGroup} (pre : Bytes) (cs : List (Glyph enc)) (g : Glyph enc) (end : ℕ)
    → marked pre (cs ++ g ∷ []) end ≡ length (pre ++ bytes cs) + suc (length (trail g))
marked-snoc pre [] g end =
    rw (append-nil (trail g), append-nil pre) (length-append pre (lead g ∷ trail g))
marked-snoc pre (c ∷ cs) g end =
    rw (bytes-snoc (c ∷ cs) g, ← append_assoc pre (bytes (c ∷ cs)) (lead g ∷ trail g))
      (length-append (pre ++ bytes (c ∷ cs)) (lead g ∷ trail g))

marked-next :
    {enc : EncodingGroup} (pre : Bytes) (cs : List (Glyph enc)) (end : ℕ)
    → (if ltb 0 (length (pre ++ bytes cs) - length pre) then length (pre ++ bytes cs) else end)
      ≡ marked pre cs end
marked-next pre [] end =
    let empty : ltb 0 (length (pre ++ []) - length pre) ≡ false =
      ground (arith, length-append pre []) in
    rw empty
marked-next pre (c ∷ cs) end =
    let q = pre ++ bytes (c ∷ cs) in
    let full : ltb 0 (length q - length pre) ≡ true =
      lt→ltb _ _ (omega (arith, length-append {0} pre (bytes (c ∷ cs)))) in
    rw full

-- A round of the loop that stops at a useless character.
scan_forward-stop :
    {enc : EncodingGroup} (fuel : ℕ) (cs : List (Glyph enc)) (c : ℕ) (pre rest : Bytes) (end : ℕ)
    → enc ≢ unknown
    → IsClean trails cs
    → is_needle trails c ≡ true
    → scan_forward
        (suc fuel)
        (find_ascii_char enc trails)
        ((pre ++ bytes cs) ++ c ∷ rest)
        (length pre)
        end
      ≡ scan_forward fuel
          (find_ascii_char enc trails)
          ((pre ++ bytes cs) ++ c ∷ rest)
          (length (pre ++ bytes cs) + 1)
          (marked pre cs end)
unfolding scan_forward
scan_forward-stop {enc} fuel cs c pre rest end known clean special =
    let q = pre ++ bytes cs in
    let inside : ltb (length pre) (length (q ++ c ∷ rest)) ≡ true =
      lt→ltb _ _
        (omega (arith, length-append {0} q (c ∷ rest), length-append {0} pre (bytes cs))) in
    let found = find_ascii_char-skip trails cs pre (c ∷ rest) known trails-IsAscii clean special in
    rw (inside, found, marked-next pre cs end)

-- The end of the query.
scan_forward-end :
    {enc : EncodingGroup} (fuel : ℕ) (cs : List (Glyph enc)) (pre : Bytes) (end : ℕ)
    → enc ≢ unknown
    → IsClean trails cs
    → length cs < fuel
    → scan_forward fuel (find_ascii_char enc trails) (pre ++ bytes cs) (length pre) end
      ≡ ok (marked pre cs end)
unfolding scan_forward
scan_forward-end zero cs pre end known clean fits = absurd (omega arith)
scan_forward-end (suc fuel) [] pre end known clean fits =
    let past : ltb (length pre) (length pre) ≡ false = ground arith in rw (append-nil pre, past)
scan_forward-end (suc zero) (c ∷ cs) pre end known clean fits = absurd (omega arith)
scan_forward-end {enc} (suc (suc fuel)) (c ∷ cs) pre end known clean fits =
    let text = bytes (c ∷ cs) in
    let q = pre ++ text in
    let inside : ltb (length pre) (length q) ≡ true =
      lt→ltb _ _ (omega (arith, length-append {0} pre text)) in
    let past : ltb (length q + 1) (length q) ≡ false = ground arith in
    let found : find_ascii_char enc trails q (length pre) ≡ ok (length q) =
      subst (λ (t : Bytes). find_ascii_char enc trails t (length pre) ≡ ok (length q))
        (append-nil q)
        (find_ascii_char-skip trails (c ∷ cs) pre [] known trails-IsAscii clean tt) in
    rw (inside, found, past, marked-next pre (c ∷ cs) end)

scan_forward-last_useful :
    {enc : EncodingGroup} (fuel : ℕ) (cs gs : List (Glyph enc)) (pre : Bytes) (end : ℕ)
    → enc ≢ unknown
    → IsClean trails cs
    → length cs + length gs < fuel
    → scan_forward fuel
        (find_ascii_char enc trails)
        ((pre ++ bytes cs) ++ bytes gs)
        (length pre)
        end
      ≡ ok (last_useful (length (pre ++ bytes cs)) (marked pre cs end) gs)
scan_forward-last_useful zero cs gs pre end known clean fits = absurd (omega arith)
scan_forward-last_useful (suc fuel) cs [] pre end known clean fits =
    rw (append-nil (pre ++ bytes cs))
      (scan_forward-end (suc fuel) cs pre end known clean (omega arith))
scan_forward-last_useful {enc} (suc fuel) cs (g ∷ gs) pre end known clean fits =
    elim (Bool-cases (is_needle trails (lead g))) [
      | inl special ↦
          let q = pre ++ bytes cs in
          let pre' = q ++ lead g ∷ [] in
          let size : length pre' ≡ length q + 1 = length-append q (lead g ∷ []) in
          let size' : length (pre' ++ []) ≡ length q + 1 =
            ap (λ (t : Bytes). length t) (append-nil pre') ∙ size in
          let shift : q ++ lead g ∷ bytes gs ≡ (pre' ++ []) ++ bytes gs =
            simp (append_assoc, append-nil) in
          rw (special, trail_of_ascii g (is_needle-lt trails (lead g) trails-IsAscii special))
            (scan_forward-stop fuel cs (lead g) pre (bytes gs) end known clean special
              ∙ rw (shift, ← size)
                  (scan_forward-last_useful fuel [] gs pre' (marked pre cs end) known tt
                      (omega arith)
                    ∙ ap (λ (n : ℕ). ok (last_useful n (marked pre cs end) gs)) (size' ∙ sym size)))
      | inr plain ↦
          let q = pre ++ bytes cs in
          let shift : q ++ ((lead g ∷ trail g) ++ bytes gs)
              ≡ (pre ++ (bytes cs ++ (lead g ∷ trail g))) ++ bytes gs =
            simp append_assoc in
          let place : length (pre ++ bytes (cs ++ g ∷ [])) ≡ length q + suc (length (trail g)) =
            rw (bytes-snoc cs g, ← append_assoc pre (bytes cs) (lead g ∷ trail g))
              (length-append q (lead g ∷ trail g)) in
          rw (plain, shift, ← bytes-snoc cs g)
            (scan_forward-last_useful (suc fuel) (cs ++ g ∷ []) gs pre end known
                (IsClean-append trails cs g clean plain)
                (omega (arith, length-append {0} cs (g ∷ [])))
              ∙ rw (place, marked-snoc pre cs g end) refl)
    ]

scan_forward-query :
    {enc : EncodingGroup} (gs : List (Glyph enc))
    → enc ≢ unknown
    → scan_forward (suc (length (bytes gs))) (find_ascii_char enc trails) (bytes gs) 0 0
      ≡ ok (last_useful 0 0 gs)
scan_forward-query gs known =
    scan_forward-last_useful (suc (length (bytes gs))) [] gs [] 0 known tt
      (omega (arith, length-le-bytes gs))

find_query_end-group :
    (enc : EncodingGroup) (gs : List (Glyph enc))
    → enc ≢ unknown
    → find_query_end enc (bytes gs) ≡ ok (last_useful 0 0 gs)
unfolding find_query_end
find_query_end-group unknown gs known = absurd (known refl)
find_query_end-group ascii_safe gs known =
    let whole : 0 + length (bytes gs) ≡ length (bytes gs) = omega arith in
    ap ok (sym (ap (scan_back (bytes gs)) whole) ∙ scan_back-last_useful [] gs)
find_query_end-group two_tier gs known =
    rw (get_char_finder-known two_tier trails known) (scan_forward-query gs known)
find_query_end-group gb18030 gs known =
    rw (get_char_finder-known gb18030 trails known) (scan_forward-query gs known)
find_query_end-group sjis gs known =
    rw (get_char_finder-known sjis trails known) (scan_forward-query gs known)

-- The query of a cursor ends behind its last character that is neither white space nor a semicolon, in
-- every known encoding group: the scan backwards for ASCII-safe text and the scan forwards for all
-- other encodings find the same, and no byte inside a multibyte character is taken for white space.
pub find_query_end-last_useful :
    {enc : EncodingGroup} (gs : List (Glyph enc))
    → enc ≢ unknown
    → find_query_end enc (bytes gs) ≡ ok (last_useful 0 0 gs)
find_query_end-last_useful {enc} gs known = find_query_end-group enc gs known
