-- ===== src/Array/Reading.antt =====
-- What one call of `get_next` finds at the start of an element.
use libpqxx.Prelude.{
  ℕ, ◌+◌, ◌<◌, ◌≡◌, ◌≢◌, ◌⊎◌, inl, inr, refl, ◌∙◌, false, Bytes, byte_at, take, take-append,
  drop-append, byte_at-length, bytes_eq, bytes_eq-eq, bytes_eq_refl, List, [], ◌∷◌, ◌++◌,
  append_assoc, length, length-append, leb, ◌==◌, if◌then◌else◌, arith, ok, Bool-cases, subst,
}
use libpqxx.Encoding.Scanner.{EncodingGroup, unknown, ascii_safe, two_tier, gb18030, sjis}
use libpqxx.Encoding.Finder.{is_needle}
use libpqxx.Encoding.Text.{Glyph, byte, tier_ascii, gb_ascii, jis_ascii, lead, trail, bytes}
use libpqxx.Encoding.Search.{IsClean, StopsAt, find_ascii_char-skip}
use libpqxx.Array.Quoted.{quote, scan_double_quoted_string}
use libpqxx.Array.Escaped.{escaped, IsAfterQuote, scan_double_quoted_string-escaped}
use libpqxx.Array.Unescaping.{parse_double_quoted_string-escaped}
use libpqxx.Array.Writer.{open_brace, close_brace, separator, s_null}
use libpqxx.Array.Parser.{
  Event, row_start, row_end, null_value, string_value, unquoted_stops, unquoted_event, find_event,
  skip_separator, parse_array_step,
}

-- What may stand behind an element: the end, a separator or a closing brace.
abbrev pub IsTail : Bytes → Type 0
IsTail [] = Unit {0}
IsTail (c ∷ rest) = (c ≡ separator) ⊎ (c ≡ close_brace)

-- The separator that a step skips.
abbrev pub separator_length : Bytes → ℕ
separator_length [] = 0
separator_length (c ∷ rest) = if c == separator then 1 else 0

skip_separator-append :
    (pre tail : Bytes)
    → skip_separator (pre ++ tail) (length pre) ≡ length pre + separator_length tail
unfolding skip_separator
skip_separator-append pre [] = ground (arith, length-append pre [])
skip_separator-append pre (c ∷ tail) =
    ground (arith, length-append pre (c ∷ tail), byte_at-length pre c tail)

-- From what the switch finds to what the step returns.
pub step_of_event :
    (enc : EncodingGroup) (e : Event) (pre text tail : Bytes)
    → 0 < length text
    → find_event enc (pre ++ (text ++ tail)) (length pre) ≡ ok (e, length (pre ++ text))
    → parse_array_step enc (pre ++ (text ++ tail)) (length pre)
      ≡ ok (e, length (pre ++ text) + separator_length tail)
unfolding parse_array_step
step_of_event enc e pre text tail some found =
    let inside : leb (length (pre ++ (text ++ tail))) (length pre) ≡ false =
      ground (arith, length-append pre (text ++ tail), length-append text tail) in
    let skip : skip_separator (pre ++ (text ++ tail)) (length (pre ++ text))
        ≡ length (pre ++ text) + separator_length tail =
      rw (← append_assoc pre text tail) (skip_separator-append (pre ++ text) tail) in
    rw (inside, found, skip)

pub find_event-open :
    (enc : EncodingGroup) (pre tail : Bytes)
    → find_event enc (pre ++ open_brace ∷ tail) (length pre)
      ≡ ok ((row_start, []), length (pre ++ open_brace ∷ []))
unfolding find_event
find_event-open enc pre tail =
    ground (arith, byte_at-length pre open_brace tail, length-append pre (open_brace ∷ []))

pub find_event-close :
    (enc : EncodingGroup) (pre tail : Bytes)
    → find_event enc (pre ++ close_brace ∷ tail) (length pre)
      ≡ ok ((row_end, []), length (pre ++ close_brace ∷ []))
unfolding find_event
find_event-close enc pre tail =
    ground (arith, byte_at-length pre close_brace tail, length-append pre (close_brace ∷ []))

IsTail-IsAfterQuote : (tail : Bytes) → IsTail tail → IsAfterQuote tail
IsTail-IsAfterQuote [] h = tt
IsTail-IsAfterQuote (c ∷ tail) h = ground arith

IsTail-StopsAt : (tail : Bytes) → IsTail tail → StopsAt unquoted_stops tail
unfolding is_needle
IsTail-StopsAt [] h = tt
IsTail-StopsAt (c ∷ tail) h = ground arith

pub find_event-quoted :
    {enc : EncodingGroup} (gs : List (Glyph enc)) (pre tail : Bytes)
    → enc ≢ unknown
    → IsTail tail
    → find_event enc (pre ++ ((quote ∷ (escaped gs ++ quote ∷ [])) ++ tail)) (length pre)
      ≡ ok ((string_value, bytes gs), length (pre ++ (quote ∷ (escaped gs ++ quote ∷ []))))
unfolding find_event
find_event-quoted {enc} gs pre tail known h =
    let body = quote ∷ (escaped gs ++ quote ∷ []) in
    let input = pre ++ (body ++ tail) in
    let here : byte_at input (length pre) ≡ quote =
      byte_at-length pre quote ((escaped gs ++ quote ∷ []) ++ tail) in
    let shape : (escaped gs ++ quote ∷ []) ++ tail ≡ escaped gs ++ quote ∷ tail =
      append_assoc (escaped gs) (quote ∷ []) tail in
    let size : length (pre ++ body) ≡ length pre + (length (escaped gs) + 2) =
      omega (arith, length-append {0} pre body, length-append {0} (escaped gs) (quote ∷ [])) in
    let scanned : scan_double_quoted_string enc input (length pre) ≡ ok (length (pre ++ body)) =
      rw (shape, size)
        (scan_double_quoted_string-escaped gs pre tail known (IsTail-IsAfterQuote tail h)) in
    let cut : take (length (pre ++ body)) input ≡ pre ++ body =
      rw (← append_assoc pre body tail) (take-append (pre ++ body) tail) in
    rw (here, scanned, cut, parse_double_quoted_string-escaped gs pre known)

-- The value of an unquoted text: a null if it spells one.
abbrev unquoted_value : Bytes → Event
unquoted_value text = if bytes_eq text s_null then (null_value, []) else (string_value, text)

unquoted_event-bytes :
    {enc : EncodingGroup} (gs : List (Glyph enc)) (pre tail : Bytes)
    → enc ≢ unknown
    → IsClean unquoted_stops gs
    → IsTail tail
    → unquoted_event enc (pre ++ (bytes gs ++ tail)) (length pre)
      ≡ ok (unquoted_value (bytes gs), length (pre ++ bytes gs))
unfolding unquoted_event
unquoted_event-bytes {enc} gs pre tail known clean h =
    let found =
      find_ascii_char-skip unquoted_stops gs pre tail known (omega arith) clean
        (IsTail-StopsAt tail h) in
    rw
      (
        ← append_assoc pre (bytes gs) tail,
        found,
        take-append (pre ++ bytes gs) tail,
        drop-append pre (bytes gs),
      )
      (elim (Bool-cases (bytes_eq (bytes gs) s_null)) [ inl e ↦ rw e | inr e ↦ rw e ])

find_event-unquoted :
    {enc : EncodingGroup} (g : Glyph enc) (gs : List (Glyph enc)) (pre tail : Bytes)
    → enc ≢ unknown
    → IsClean unquoted_stops (g ∷ gs)
    → lead g ≢ 0
    → lead g ≢ open_brace
    → lead g ≢ close_brace
    → lead g ≢ quote
    → IsTail tail
    → find_event enc (pre ++ (bytes (g ∷ gs) ++ tail)) (length pre)
      ≡ ok (unquoted_value (bytes (g ∷ gs)), length (pre ++ bytes (g ∷ gs)))
unfolding find_event
find_event-unquoted {enc} g gs pre tail known clean zero' open' close' quote' h =
    let here : byte_at (pre ++ (bytes (g ∷ gs) ++ tail)) (length pre) ≡ lead g =
      byte_at-length pre (lead g) ((trail g ++ bytes gs) ++ tail) in
    let found = unquoted_event-bytes (g ∷ gs) pre tail known clean h in
    let not_zero : (lead g == 0) ≡ false = ground arith in
    let not_open : (lead g == open_brace) ≡ false = ground arith in
    let not_close : (lead g == close_brace) ≡ false = ground arith in
    let not_quote : (lead g == quote) ≡ false = ground arith in
    rw (here, not_zero, not_open, not_close, not_quote) found

pub find_event-safe :
    {enc : EncodingGroup} (g : Glyph enc) (gs : List (Glyph enc)) (pre tail : Bytes)
    → enc ≢ unknown
    → IsClean unquoted_stops (g ∷ gs)
    → lead g ≢ 0
    → lead g ≢ open_brace
    → lead g ≢ close_brace
    → lead g ≢ quote
    → bytes (g ∷ gs) ≢ s_null
    → IsTail tail
    → find_event enc (pre ++ (bytes (g ∷ gs) ++ tail)) (length pre)
      ≡ ok ((string_value, bytes (g ∷ gs)), length (pre ++ bytes (g ∷ gs)))
find_event-safe g gs pre tail known clean zero' open' close' quote' no_null h =
    elim (Bool-cases (bytes_eq (bytes (g ∷ gs)) s_null)) [
      | inl same ↦ absurd (no_null (bytes_eq-eq (bytes (g ∷ gs)) s_null same))
      | inr other ↦
          find_event-unquoted g gs pre tail known clean zero' open' close' quote' h ∙ rw other
    ]

-- The word NULL as characters of each encoding group.
record NullWord (enc : EncodingGroup) : Type 0 where
  first : Glyph enc
  others : List (Glyph enc)
  spells : bytes (first ∷ others) ≡ s_null
  is_n : lead first ≡ b'N'
  clean : IsClean unquoted_stops (first ∷ others)

null_word : (enc : EncodingGroup) → enc ≢ unknown → NullWord enc
unfolding is_needle
null_word unknown known = absurd (known refl)
null_word ascii_safe known = record {
  first = byte b'N';
  others = byte b'U' ∷ byte b'L' ∷ byte b'L' ∷ [];
  spells = refl;
  is_n = refl;
  clean = (refl, (refl, (refl, (refl, tt))));
}
null_word two_tier known = record {
  first = tier_ascii b'N' (omega arith);
  others =
      tier_ascii b'U' (omega arith)
      ∷ tier_ascii b'L' (omega arith)
      ∷ tier_ascii b'L' (omega arith)
      ∷ [];
  spells = refl;
  is_n = refl;
  clean = (refl, (refl, (refl, (refl, tt))));
}
null_word gb18030 known = record {
  first = gb_ascii b'N' (omega arith);
  others =
      gb_ascii b'U' (omega arith) ∷ gb_ascii b'L' (omega arith) ∷ gb_ascii b'L' (omega arith) ∷ [];
  spells = refl;
  is_n = refl;
  clean = (refl, (refl, (refl, (refl, tt))));
}
null_word sjis known = record {
  first = jis_ascii b'N' (omega arith);
  others =
      jis_ascii b'U' (omega arith)
      ∷ jis_ascii b'L' (omega arith)
      ∷ jis_ascii b'L' (omega arith)
      ∷ [];
  spells = refl;
  is_n = refl;
  clean = (refl, (refl, (refl, (refl, tt))));
}

pub find_event-null :
    (enc : EncodingGroup) (pre tail : Bytes)
    → enc ≢ unknown
    → IsTail tail
    → find_event enc (pre ++ (s_null ++ tail)) (length pre)
      ≡ ok ((null_value, []), length (pre ++ s_null))
find_event-null enc pre tail known h =
    let w = null_word enc known in
    subst
      (λ t.
        find_event enc (pre ++ (t ++ tail)) (length pre) ≡ ok (unquoted_value t, length (pre ++ t)))
      w.spells
      (find_event-unquoted w.first w.others pre tail known w.clean (rw w.is_n (omega arith))
        (rw w.is_n (omega arith)) (rw w.is_n (omega arith)) (rw w.is_n (omega arith)) h)
    ∙ rw (bytes_eq_refl s_null)
