-- ===== src/Composite/Escaping.antt =====
-- What the writer of a field leaves in the buffer.
use libpqxx.Prelude.{
  ℕ, suc, ◌+◌, ◌-◌, ◌≤◌, ◌<◌, ◌≡◌, refl, ap, subst, true, false, Bool-cases, inl, inr, ◌||◌, Bytes,
  byte_at, byte_at-length, take, drop, take-append-drop, length-take, length-drop, length,
  length-append, [], ◌∷◌, ◌++◌, append-nil, append_assoc, ltb, ◌==◌, arith, ◌>>=◌, Result-cases,
}
use libpqxx.Array.Quoted.{quote, backslash}
use libpqxx.Composite.Buffer.{
  Written, write_all, write_all-append, write_all-fits, Wrote, Wrote-then, write_all-Wrote,
}
use libpqxx.Composite.Reader.{comma}
use libpqxx.Composite.Writer.{
  Place, in_value, in_buffer, Field, safe_field, quoted_field, convert, text_byte, escaped_byte,
  escape_into, escape_bytes, into_buf, quote_text, write_field, write_composite_field,
}

-- A text that is not in the buffer is escaped by writing its escaped form.
pub escape_into-value :
    (done todo : Bytes) (buf : Bytes) (pos : ℕ)
    → escape_into (length todo) (λ b i. byte_at (done ++ todo) i) (length done) (buf, pos)
      ≡ write_all (escape_bytes todo) buf pos
unfolding escape_into escape_bytes
escape_into-value done [] buf pos = unfold write_all in refl
escape_into-value done (x ∷ todo) buf pos =
    let done' = done ++ x ∷ [] in
    let size : length done' ≡ suc (length done) = omega (arith, length-append {0} done (x ∷ [])) in
    let joined : done' ++ todo ≡ done ++ x ∷ todo = append_assoc done (x ∷ []) todo in
    rw (byte_at-length done x todo, write_all-append (escaped_byte x) (escape_bytes todo) buf pos)
      (elim (Result-cases (write_all (escaped_byte x) buf pos)) [
        | inl ((next, here), e) ↦
            rw e (rw (joined, size) at (escape_into-value done' todo next here))
        | inr (thrown, e) ↦ rw e refl
      ])

length-escaped_byte : (x : ℕ) → (1 ≤ length (escaped_byte x)) × (length (escaped_byte x) ≤ 2)
length-escaped_byte x = elim (Bool-cases (x == quote || x == backslash)) [
  | inl e ↦ rw e (omega arith, omega arith)
  | inr e ↦ rw e (omega arith, omega arith)
]

-- A text that is in the buffer is escaped likewise, where there is room in front of it.
pub escape_into-buffer :
    (todo out gap tail : Bytes) (start i : ℕ)
    → start + i ≡ length (out ++ gap)
    → length (escape_bytes todo) ≤ length gap
    → Wrote
        (escape_into
          (length todo)
          (λ b i. byte_at b (start + i))
          i
          ((out ++ gap) ++ (todo ++ tail), length out))
        out
        (gap ++ (todo ++ tail))
        (escape_bytes todo)
unfolding escape_into escape_bytes
escape_into-buffer [] out gap tail start i at fits =
    (gap ++ tail, rw append-nil (rw (append_assoc out gap tail) refl), omega arith)
escape_into-buffer (x ∷ todo) out gap tail start i at fits =
    let e = escaped_byte x in
    let (some, few) = length-escaped_byte x in
    let all : length (e ++ escape_bytes todo) ≡ length e + length (escape_bytes todo) =
      length-append e (escape_bytes todo) in
    let front = take (length e) gap in
    let back = drop (length e) gap in
    let parts : front ++ back ≡ gap = take-append-drop (length e) gap in
    let front_size : length front ≡ length e = let a = length-take (length e) gap in omega arith in
    let back_size = length-drop (length e) gap in
    let rest = todo ++ tail in
    let out' = out ++ e in
    let gap' = back ++ x ∷ [] in
    let here : byte_at ((out ++ gap) ++ x ∷ rest) (start + i) ≡ x =
      rw at (byte_at-length (out ++ gap) x rest) in
    let before : (out ++ gap) ++ x ∷ rest ≡ out ++ (front ++ (back ++ x ∷ rest)) =
      subst (λ (g : Bytes). (out ++ g) ++ x ∷ rest ≡ out ++ (front ++ (back ++ x ∷ rest))) parts
        (simp append_assoc) in
    let behind_byte : out' ++ (back ++ x ∷ rest) ≡ (out' ++ gap') ++ rest = simp append_assoc in
    let total : length (out ++ gap) ≡ length out + length gap = length-append out gap in
    let total' : length (out' ++ gap') ≡ length out + length e + length back + 1 = omega (
      arith,
      length-append {0} out' gap',
      length-append {0} out e,
      length-append {0} back (x ∷ []),
    ) in
    let gap_size : length gap' ≡ length back + 1 = length-append back (x ∷ []) in
    let (behind, wrote, size) =
      escape_into-buffer todo out' gap' tail start (suc i) (omega arith) (omega arith) in
    let sizes : (length (gap' ++ rest) ≡ length gap' + length rest)
        × (length (gap ++ x ∷ rest) ≡ length gap + suc (length rest)) =
      (length-append gap' rest, length-append gap (x ∷ rest)) in
    let joined : out' ++ escape_bytes todo ≡ out ++ (e ++ escape_bytes todo) =
      append_assoc out e (escape_bytes todo) in
    (
      behind,
      rw (here, before, write_all-fits e out front (back ++ x ∷ rest) front_size, behind_byte)
          (rw joined at wrote),
      omega arith,
    )

take-append_plus :
    (pre rest : Bytes) (k : ℕ) → take (length pre + k) (pre ++ rest) ≡ pre ++ take k rest
take-append_plus [] rest k = let e : 0 + k ≡ k = omega arith in rw e refl
take-append_plus (x ∷ pre) rest k =
    let e : suc (length pre) + k ≡ suc (length pre + k) = omega arith in
    rw e (ap (λ (t : Bytes). x ∷ t) (take-append_plus pre rest k))

-- Into which buffers the writer of a field writes all of it: for a type that is safe without quotes
-- its `size_buffer` must be there, and for a text in the buffer, the escaped text and its first quote
-- in front of that part.
abbrev pub IsClear : Place → Bytes → ℕ → ℕ → ℕ → Type 0
IsClear in_value text budget size pos = Unit {0}
IsClear (in_buffer left) text budget size pos =
    (pos + 1 + length (escape_bytes text) + budget ≤ size) × (length text + length left ≡ budget)

abbrev pub HasRoom : Field → ℕ → ℕ → Type 0
HasRoom (safe_field text budget) size pos = (pos + budget < size) × (length text ≤ budget)
HasRoom (quoted_field place text budget) size pos =
    (budget < size)
    × (pos + length (escape_bytes text) + 2 < size)
    × IsClear place text budget size pos

-- The SQL text of a field.
abbrev pub field_text : Field → Bytes
field_text (safe_field text budget) = text
field_text (quoted_field place text budget) = quote ∷ (escape_bytes text ++ quote ∷ [])

into_buf-Wrote :
    (text out rest : Bytes) (budget : ℕ)
    → budget < length rest
    → length text ≤ budget
    → Wrote (into_buf text budget (out ++ rest, length out)) out rest text
unfolding into_buf
into_buf-Wrote text out rest budget h k =
    let size : length (out ++ rest) ≡ length out + length rest = length-append out rest in
    let roomy : ltb (length (out ++ rest) - length out) budget ≡ false = ground arith in
    let roomy' : ltb (length (out ++ rest) - length out) (length text) ≡ false = ground arith in
    rw (roomy, roomy') (write_all-Wrote text out rest (omega arith))

-- The conversion and the loop behind the opening quote.
quoted_text-Wrote :
    (place : Place) (text out rest : Bytes) (budget size : ℕ)
    → length (out ++ rest) ≡ size
    → HasRoom (quoted_field place text budget) size (length out - 1)
    → 1 ≤ length out
    → Wrote
        (escape_into
          (length text)
          (text_byte place text (size - budget))
          0
          (convert place text budget (out ++ rest), length out))
        out
        rest
        (escape_bytes text)
quoted_text-Wrote in_value text out rest budget size whole (h, k, c) begun =
    let total = length-append out rest in
    rw (escape_into-value [] text (out ++ rest) (length out))
      (write_all-Wrote (escape_bytes text) out rest (omega arith))
quoted_text-Wrote (in_buffer left) text out rest budget size whole (h, k, (c, d)) begun =
    let total = length-append out rest in
    let gap = take (size - budget - length out) rest in
    let gap_size : length gap ≡ size - budget - length out =
      let a = length-take (size - budget - length out) rest in omega arith in
    let place : length (out ++ rest) - budget ≡ length out + (size - budget - length out) =
      omega arith in
    let front = length-append out gap in
    let converted : take (length (out ++ rest) - budget) (out ++ rest) ≡ out ++ gap =
      rw place (take-append_plus out rest (size - budget - length out)) in
    let (behind, wrote, count) =
      escape_into-buffer text out gap left (size - budget) 0 (omega arith) (omega arith) in
    let sizes : (length (gap ++ (text ++ left)) ≡ length gap + length (text ++ left))
        × (length (text ++ left) ≡ length text + length left) =
      (length-append gap (text ++ left), length-append text left) in
    (behind, rw converted wrote, omega arith)

quote_text-Wrote :
    (place : Place) (text out rest : Bytes) (budget : ℕ)
    → HasRoom (quoted_field place text budget) (length (out ++ rest)) (length out)
    → Wrote
        (quote_text place text budget (out ++ rest, length out))
        out
        rest
        (quote ∷ (escape_bytes text ++ quote ∷ []))
unfolding quote_text
quote_text-Wrote place text out rest budget h =
    let esc = escape_bytes text in
    let total = length-append out rest in
    let ends : length (esc ++ quote ∷ []) ≡ length esc + 1 = length-append esc (quote ∷ []) in
    let fits : ltb budget (length (out ++ rest)) ≡ true = ground arith in
    let size = length (out ++ rest) in
    rw fits (
      Wrote-then (write_all (quote ∷ []) (out ++ rest) (length out))
        (λ (w : Written).
          escape_into (length text) (text_byte place text (size - budget)) 0
            (convert place text budget w.0, w.1)
          >>= λ (v : Written). write_all (quote ∷ []) v.0 v.1)
        out rest (quote ∷ []) (esc ++ quote ∷ [])
        (write_all-Wrote (quote ∷ []) out rest (omega arith))
        (λ behind left.
          let out' = out ++ quote ∷ [] in
          let pos : length out' ≡ length out + 1 = length-append out (quote ∷ []) in
          let same : length (out' ++ behind) ≡ size =
            omega (arith, length-append {0} out' behind) in
          let room : HasRoom (quoted_field place text budget) size (length out' - 1) =
            let back : length out ≡ length out' - 1 = omega arith in
            subst (λ (n : ℕ). HasRoom (quoted_field place text budget) size n) back h in
          Wrote-then
            (escape_into (length text) (text_byte place text (size - budget)) 0
              (convert place text budget (out' ++ behind), length out'))
            (λ (v : Written). write_all (quote ∷ []) v.0 v.1) out' behind esc (quote ∷ [])
            (quoted_text-Wrote place text out' behind budget size same room (omega arith))
            (λ end left'. write_all-Wrote (quote ∷ []) (out' ++ esc) end (omega arith))))

write_field-Wrote :
    (f : Field) (out rest : Bytes)
    → HasRoom f (length (out ++ rest)) (length out)
    → Wrote (write_field f (out ++ rest, length out)) out rest (field_text f)
unfolding write_field
write_field-Wrote (safe_field text budget) out rest (h, k) =
    let total = length-append out rest in into_buf-Wrote text out rest budget (omega arith) k
write_field-Wrote (quoted_field place text budget) out rest h =
    quote_text-Wrote place text out rest budget h

-- A field and its comma.
pub write_composite_field-Wrote :
    (f : Field) (out rest : Bytes)
    → HasRoom f (length (out ++ rest)) (length out)
    → length (field_text f) < length rest
    → Wrote
        (write_composite_field f (out ++ rest, length out))
        out
        rest
        (field_text f ++ comma ∷ [])
unfolding write_composite_field
write_composite_field-Wrote f out rest h k =
    Wrote-then (write_field f (out ++ rest, length out))
      (λ (w : Written). write_all (comma ∷ []) w.0 w.1) out rest (field_text f) (comma ∷ [])
      (write_field-Wrote f out rest h)
      (λ behind left. write_all-Wrote (comma ∷ []) (out ++ field_text f) behind (omega arith))
