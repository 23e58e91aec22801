-- ===== src/Array/ItemReading.antt =====
-- The elements of an SQL text that `pqxx::array` reads.
use libpqxx.Prelude.{
  ℕ, ◌≡◌, ◌≢◌, refl, sym, ◌∙◌, Bytes, byte_at, byte_at-length, List, [], ◌∷◌, ◌++◌, length, arith,
  ok, ◌>>=◌, none, some,
}
use libpqxx.Encoding.Scanner.{EncodingGroup, unknown}
use libpqxx.Encoding.Finder.{is_needle}
use libpqxx.Encoding.Text.{bytes, lead, trail}
use libpqxx.Array.Quoted.{quote}
use libpqxx.Array.Escaped.{escaped}
use libpqxx.Array.Writer.{open_brace, close_brace, separator}
use libpqxx.Array.Parser.{find_event}
use libpqxx.Array.Items.{Item, Items, null, row, safe, text, none, more, IsBudgeted, render}
use libpqxx.Array.Reading.{IsTail, find_event-quoted, find_event-safe, find_event-null}
use libpqxx.Array.Elements.{valued, read_element-event}
use libpqxx.Array.Container.{null_or_throw, read_element}
use libpqxx.Composite.Reader.{FieldReader}

module _ {A : Type 0} {enc : EncodingGroup} (reader : FieldReader A) where
  -- The reader gives a value for an element that is no row.
  abbrev pub Reads : Item enc → A → Type 0
  Reads null v = reader.null ≡ some v
  Reads (row xs) v = ⊥
  Reads (safe gs budget) v = reader.from_string (bytes gs) ≡ ok v
  Reads (text gs budget) v = reader.from_string (bytes gs) ≡ ok v

  abbrev pub ReadsAll : Items enc → List A → Type 0
  ReadsAll none [] = Unit {0}
  ReadsAll none (v ∷ vs) = ⊥
  ReadsAll (more x xs) [] = ⊥
  ReadsAll (more x xs) (v ∷ vs) = Reads x v × ReadsAll xs vs

  -- The first byte of an element's text.
  pub Item-start :
      (x : Item enc) (v : A)
      → IsBudgeted x
      → Reads x v
      → (c : ℕ) × (rest : Bytes) × (render x ≡ c ∷ rest)
        × (c ≢ 0)
        × (c ≢ separator)
        × (c ≢ open_brace)
        × (c ≢ close_brace)
  unfolding render is_needle
  Item-start null v b r =
      (b'N', b'U' ∷ b'L' ∷ b'L' ∷ [], refl, omega arith, omega arith, omega arith, omega arith)
  Item-start (row xs) v b r = absurd r
  Item-start (safe [] budget) v b r = absurd b.1
  Item-start (safe (g ∷ gs) budget) v (small, (clean, z, o, c, q, n)) r =
      (lead g, trail g ++ bytes gs, refl, z, ground (arith, clean.0), o, c)
  Item-start (text gs budget) v b r =
      (quote, escaped gs ++ quote ∷ [], refl, omega arith, omega arith, omega arith, omega arith)

  find_event-Item :
      (x : Item enc) (v : A) (pre tail : Bytes)
      → enc ≢ unknown
      → IsBudgeted x
      → Reads x v
      → IsTail tail
      → (find_event enc (pre ++ (render x ++ tail)) (length pre) >>= valued reader)
        ≡ ok (v, length (pre ++ render x))
  unfolding render null_or_throw
  find_event-Item null v pre tail known b r h = rw (find_event-null enc pre tail known h, r)
  find_event-Item (row xs) v pre tail known b r h = absurd r
  find_event-Item (safe [] budget) v pre tail known b r h = absurd b.1
  find_event-Item (safe (g ∷ gs) budget) v pre tail known (small, (clean, z, o, c, q, n)) r h =
      rw (find_event-safe g gs pre tail known clean z o c q n h, r)
  find_event-Item (text gs budget) v pre tail known b r h =
      rw (find_event-quoted gs pre tail known h, r)

  pub read_element-Item :
      (x : Item enc) (v : A) (pre tail : Bytes)
      → enc ≢ unknown
      → IsBudgeted x
      → Reads x v
      → IsTail tail
      → read_element separator enc reader (pre ++ (render x ++ tail)) (length pre)
        ≡ ok (v, length (pre ++ render x))
  read_element-Item x v pre tail known b r h =
      let (c, rest, starts, z, s, o, e) = Item-start x v b r in
      let input = pre ++ (render x ++ tail) in
      let here : byte_at input (length pre) ≡ c = rw starts (byte_at-length pre c (rest ++ tail)) in
      read_element-event enc reader input (length pre) (λ q. z (sym here ∙ q))
        (λ q. s (sym here ∙ q)) (λ q. o (sym here ∙ q)) (λ q. e (sym here ∙ q))
      ∙ find_event-Item x v pre tail known b r h
