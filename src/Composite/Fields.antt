-- ===== src/Composite/Fields.antt =====
-- Fields of well encoded text and the SQL text of a composite value of them.
use libpqxx.Prelude.{
  ℕ, ◌≡◌, ◌≢◌, refl, false, Bytes, List, [], ◌∷◌, ◌++◌, arith, Bool-cases, inl, inr, true,
}
use libpqxx.Encoding.Scanner.{EncodingGroup}
use libpqxx.Encoding.Finder.{is_needle}
use libpqxx.Encoding.Text.{Glyph, bytes, lead, trail}
use libpqxx.Encoding.Search.{IsClean}
use libpqxx.Array.Quoted.{quote, backslash, specials}
use libpqxx.Array.Escaped.{escaped, trail_of_special}
use libpqxx.Composite.Reader.{field_stops}
use libpqxx.Composite.Writer.{Place, Field, safe_field, quoted_field, escape_bytes}

pub data FieldText (enc : EncodingGroup) : Type 0 where
  safe : List (Glyph enc) → ℕ → FieldText enc
  quoted : Place → List (Glyph enc) → ℕ → FieldText enc

unfoldable pub to_field : {enc : EncodingGroup} → FieldText enc → Field
to_field (safe gs budget) = safe_field (bytes gs) budget
to_field (quoted place gs budget) = quoted_field place (bytes gs) budget

-- The text of a field.
abbrev pub field_bytes : {enc : EncodingGroup} → FieldText enc → Bytes
field_bytes (safe gs budget) = bytes gs
field_bytes (quoted place gs budget) = bytes gs

-- None of the bytes of a text looks like a quote or a backslash.
abbrev pub IsPlain : Bytes → Type 0
IsPlain [] = Unit {0}
IsPlain (x ∷ xs) = (is_needle specials x ≡ false) × IsPlain xs

-- No byte inside a multibyte character looks like a quote or a backslash.
abbrev pub HasPlainTrails : {enc : EncodingGroup} → List (Glyph enc) → Type 0
HasPlainTrails [] = Unit {0}
HasPlainTrails (g ∷ gs) = IsPlain (trail g) × HasPlainTrails gs

-- An unquoted field: not empty, no byte that ends a field at the start of a character, and no
-- quote at its own start.
abbrev pub IsUnquotedField : {enc : EncodingGroup} → List (Glyph enc) → Type 0
IsUnquotedField [] = ⊥
IsUnquotedField (g ∷ gs) = IsClean field_stops (g ∷ gs) × (lead g ≢ quote)

abbrev pub IsFieldText : {enc : EncodingGroup} → FieldText enc → Type 0
IsFieldText (safe gs budget) = IsUnquotedField gs
IsFieldText (quoted place gs budget) = HasPlainTrails gs

unfoldable pub render_field : {enc : EncodingGroup} → FieldText enc → Bytes
render_field (safe gs budget) = bytes gs
render_field (quoted place gs budget) = quote ∷ (escaped gs ++ quote ∷ [])

pub escape_bytes-plain :
    (t rest : Bytes) → IsPlain t → escape_bytes (t ++ rest) ≡ t ++ escape_bytes rest
unfolding escape_bytes is_needle
escape_bytes-plain [] rest h = refl
escape_bytes-plain (x ∷ t) rest h = ground (arith, escape_bytes-plain t rest h.1, h.0)

escape_bytes-special :
    (x : ℕ) (rest : Bytes)
    → is_needle specials x ≡ true
    → escape_bytes (x ∷ rest) ≡ backslash ∷ x ∷ escape_bytes rest
unfolding escape_bytes is_needle
escape_bytes-special x rest h = ground (arith, h)

-- Escaping byte by byte is escaping character by character, for plain multibyte characters.
pub escape_bytes-escaped :
    {enc : EncodingGroup} (gs : List (Glyph enc))
    → HasPlainTrails gs
    → escape_bytes (bytes gs) ≡ escaped gs
escape_bytes-escaped [] h = unfold escape_bytes in refl
escape_bytes-escaped (g ∷ gs) h = elim (Bool-cases (is_needle specials (lead g))) [
  | inl special ↦ rw (
    special,
    trail_of_special g special,
    escape_bytes-special (lead g) (bytes gs) special,
    escape_bytes-escaped gs h.1,
  )
  | inr plain ↦ rw (
    plain,
    escape_bytes-plain (lead g ∷ trail g) (bytes gs) (plain, h.0),
    escape_bytes-escaped gs h.1,
  )
]
