-- ===== src/Array/Items.antt =====
-- Arrays of well encoded texts, the elements that they are for `array_into_buf`, and the SQL text
-- that PostgreSQL's documentation prescribes for them.
use libpqxx.Prelude.{ℕ, ◌≤◌, ◌≢◌, Bytes, List, [], ◌∷◌, ◌++◌, length}
use libpqxx.Encoding.Scanner.{EncodingGroup}
use libpqxx.Encoding.Text.{Glyph, bytes, lead}
use libpqxx.Encoding.Search.{IsClean}
use libpqxx.Array.Quoted.{quote}
use libpqxx.Array.Escaped.{escaped}
use libpqxx.Array.Writer.{
  Element, Elements, null_element, array_element, safe_element, text_element, nil, cons, open_brace,
  close_brace, separator, s_null,
}
use libpqxx.Array.Parser.{Event, row_start, row_end, null_value, string_value, unquoted_stops}

-- An element: a null, a nested array, and the two kinds of text, each with its `size_buffer`.
mutual
  pub data Item (enc : EncodingGroup) : Type 0 where
    null : Item enc
    row : Items enc → Item enc
    safe : List (Glyph enc) → ℕ → Item enc
    text : List (Glyph enc) → ℕ → Item enc

  pub data Items (enc : EncodingGroup) : Type 0 where
    none : Items enc
    more : Item enc → Items enc → Items enc

-- A text that needs no quotes: it has no separator or closing brace, does not begin like
-- something else, and does not spell a null.
abbrev pub IsUnquotedSafe : {enc : EncodingGroup} → List (Glyph enc) → Type 0
IsUnquotedSafe [] = ⊥
IsUnquotedSafe (g ∷ gs) =
    IsClean unquoted_stops (g ∷ gs)
    × (lead g ≢ 0)
    × (lead g ≢ open_brace)
    × (lead g ≢ close_brace)
    × (lead g ≢ quote)
    × (bytes (g ∷ gs) ≢ s_null)

unfoldable mutual
  pub to_element : {enc : EncodingGroup} → Item enc → Element
  to_element null = null_element
  to_element (row xs) = array_element (to_elements xs)
  to_element (safe gs budget) = safe_element (bytes gs) budget
  to_element (text gs budget) = text_element (bytes gs) budget

  pub to_elements : {enc : EncodingGroup} → Items enc → Elements
  to_elements none = nil
  to_elements (more x xs) = cons (to_element x) (to_elements xs)

-- `size_buffer` keeps its promise: it is at least the size of the text.
abbrev mutual
  pub IsBudgeted : {enc : EncodingGroup} → Item enc → Type 0
  IsBudgeted null = Unit {0}
  IsBudgeted (row xs) = AreBudgeted xs
  IsBudgeted (safe gs budget) = (length (bytes gs) ≤ budget) × IsUnquotedSafe gs
  IsBudgeted (text gs budget) = length (bytes gs) ≤ budget

  pub AreBudgeted : {enc : EncodingGroup} → Items enc → Type 0
  AreBudgeted none = Unit {0}
  AreBudgeted (more x xs) = IsBudgeted x × AreBudgeted xs

-- The SQL text: braces round the elements and separators between them.
unfoldable mutual
  pub render : {enc : EncodingGroup} → Item enc → Bytes
  render null = s_null
  render (row xs) = open_brace ∷ render_first xs
  render (safe gs budget) = bytes gs
  render (text gs budget) = quote ∷ (escaped gs ++ quote ∷ [])

  pub render_first : {enc : EncodingGroup} → Items enc → Bytes
  render_first none = close_brace ∷ []
  render_first (more x xs) = render x ++ render_rest xs

  pub render_rest : {enc : EncodingGroup} → Items enc → Bytes
  render_rest none = close_brace ∷ []
  render_rest (more x xs) = separator ∷ (render x ++ render_rest xs)

unfoldable mutual
  pub events : {enc : EncodingGroup} → Item enc → List Event
  events null = (null_value, []) ∷ []
  events (row xs) = (row_start, []) ∷ (events_row xs ++ (row_end, []) ∷ [])
  events (safe gs budget) = (string_value, bytes gs) ∷ []
  events (text gs budget) = (string_value, bytes gs) ∷ []

  pub events_row : {enc : EncodingGroup} → Items enc → List Event
  events_row none = []
  events_row (more x xs) = events x ++ events_row xs
