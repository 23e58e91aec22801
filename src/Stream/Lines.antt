-- ===== src/Stream/Lines.antt =====
-- The text format of COPY: a line of fields, as the backend documents it.
use libpqxx.Prelude.{
  ℕ, ◌≡◌, refl, true, false, Bytes, List, [], ◌∷◌, ◌++◌, ◌==◌, if◌then◌else◌, arith, Option, none,
  some, ok, length, ◌<◌,
}
use libpqxx.Encoding.Scanner.{EncodingGroup}
use libpqxx.Encoding.Finder.{is_needle}
use libpqxx.Encoding.Text.{Glyph, lead, trail, bytes, trail_of_ascii}
use libpqxx.Encoding.Search.{IsClean, IsAscii, StopsAt, is_needle-lt}
use libpqxx.Array.Quoted.{backslash}
use libpqxx.Stream.Writer.{Value, arithmetic, text, tab, stops, escape_char}
use libpqxx.Stream.Reader.{line_stops, unescape_char}

-- The letter that stands behind the backslash.
abbrev pub letter : ℕ → ℕ
letter c =
    if c == 8
    then b'b'
    else if c == 12
    then b'f'
    else if c == 10
    then b'n'
    else if c == 13
    then b'r'
    else if c == tab
    then b't'
    else if c == 11
    then b'v'
    else c

abbrev pub copied_glyph : {enc : EncodingGroup} → Glyph enc → Bytes
copied_glyph g =
    if is_needle stops (lead g) then backslash ∷ letter (lead g) ∷ [] else lead g ∷ trail g

abbrev pub copied : {enc : EncodingGroup} → List (Glyph enc) → Bytes
copied [] = []
copied (g ∷ gs) = copied_glyph g ++ copied gs

abbrev pub Row : EncodingGroup → Type 0
Row enc = List (Option (List (Glyph enc)))

abbrev pub column : {enc : EncodingGroup} → Option (List (Glyph enc)) → Bytes
column none = backslash ∷ b'N' ∷ []
column (some gs) = copied gs

-- The other columns of a line, each behind a tab.
abbrev pub columns : {enc : EncodingGroup} → Row enc → Bytes
columns [] = []
columns (f ∷ fs) = tab ∷ (column f ++ columns fs)

abbrev pub text_of : {enc : EncodingGroup} → Option (List (Glyph enc)) → Option Bytes
text_of none = none
text_of (some gs) = some (bytes gs)

abbrev pub texts_of : {enc : EncodingGroup} → Row enc → List (Option Bytes)
texts_of [] = []
texts_of (f ∷ fs) = text_of f ∷ texts_of fs

-- What the writer is given for a column: a null, a text, or an arithmetic value, whose text has no
-- character that is escaped and is shorter than its `size_buffer`.
abbrev pub IsValue : {enc : EncodingGroup} → Option Value → Option (List (Glyph enc)) → Type 0
IsValue none none = Unit {0}
IsValue none (some gs) = ⊥
IsValue (some v) none = ⊥
IsValue (some (text b)) (some gs) = b ≡ bytes gs
IsValue (some (arithmetic b budget)) (some gs) =
    (b ≡ bytes gs) × IsClean stops gs × (length b < budget)

abbrev pub AreValues : {enc : EncodingGroup} → List (Option Value) → Row enc → Type 0
AreValues [] [] = Unit {0}
AreValues [] (f ∷ fs) = ⊥
AreValues (v ∷ vs) [] = ⊥
AreValues (v ∷ vs) (f ∷ fs) = IsValue v f × AreValues vs fs

pub stops-IsAscii : IsAscii stops
stops-IsAscii = omega arith

pub line_stops-IsAscii : IsAscii line_stops
line_stops-IsAscii = omega arith

pub escape_char-letter : (c : ℕ) → is_needle stops c ≡ true → escape_char c ≡ ok (letter c)
unfolding escape_char is_needle
escape_char-letter c h = ground arith

-- What is written behind a backslash is read back, and is never taken for a null.
pub unescape_char-letter : (c : ℕ) → is_needle stops c ≡ true → unescape_char (letter c) ≡ c
unfolding unescape_char is_needle
unescape_char-letter c h = ground arith

pub letter-not_null : (c : ℕ) → is_needle stops c ≡ true → (letter c == b'N') ≡ false
unfolding is_needle
letter-not_null c h = ground arith

-- A character that the writer leaves alone is none the reader stops at.
pub line_stops-stops : (c : ℕ) → is_needle stops c ≡ false → is_needle line_stops c ≡ false
unfolding is_needle
line_stops-stops c h = ground arith

pub trail_of_stop :
    {enc : EncodingGroup} (g : Glyph enc) → is_needle stops (lead g) ≡ true → trail g ≡ []
trail_of_stop g h = trail_of_ascii g (is_needle-lt stops (lead g) stops-IsAscii h)

pub StopsAt-tab : (rest : Bytes) → StopsAt line_stops (tab ∷ rest)
unfolding is_needle
StopsAt-tab rest = refl

pub StopsAt-escape : (rest : Bytes) → StopsAt line_stops (backslash ∷ rest)
unfolding is_needle
StopsAt-escape rest = refl
