-- ===== src/Composite/Cells.antt =====
-- The fields of a composite value with their readers: what is written for a list of them, and what
-- is read.
use libpqxx.Prelude.{
  ℕ, suc, ◌+◌, ◌*◌, ◌≤◌, ◌<◌, ◌≡◌, ◌≢◌, ◌⊎◌, inl, inr, refl, sym, ap, subst, ◌∙◌, Bytes,
  byte_at-length, List, [], ◌∷◌, ◌++◌, append-nil, append_assoc, length, length-append, arith, ok,
  ◌>>=◌, add-zero,
}
use libpqxx.Encoding.Scanner.{EncodingGroup, unknown, ascii_safe, two_tier, gb18030, sjis}
use libpqxx.Encoding.Text.{bytes}
use libpqxx.Array.Quoted.{quote}
use libpqxx.Array.Escaped.{escaped, length-escaped-le}
use libpqxx.Composite.Reader.{
  FieldReader, comma, close_parenthesis, close_bracket, read_field, end_field,
  parse_composite_field, specialize_parse_composite_field, parse_fields,
}
use libpqxx.Composite.Buffer.{Wrote, Wrote-then}
use libpqxx.Composite.Writer.{
  Place, in_value, in_buffer, Field, escape_bytes, write_composite_field, write_fields,
}
use libpqxx.Composite.Escaping.{HasRoom, field_text, write_composite_field-Wrote}
use libpqxx.Composite.Fields.{
  FieldText, safe, quoted, to_field, field_bytes, IsFieldText, render_field, escape_bytes-escaped,
}
use libpqxx.Composite.Reading.{read_field-render}

-- A field with the reader for its type and the value that this reader gives for its text.
pub record Cell (enc : EncodingGroup) (A : Type 0) : Type 0 where
  pub text : FieldText enc
  pub reader : FieldReader A
  pub value : A

-- The field's text is a text for its kind, and its reader reads it.
pub record IsReadable {enc : EncodingGroup} {A : Type 0} (c : Cell enc A) : Type 0 where
  pub is_text : IsFieldText c.text
  pub reads : c.reader.from_string (field_bytes c.text) ≡ ok c.value

abbrev pub AreReadable : {enc : EncodingGroup} {A : Type 0} → List (Cell enc A) → Type 0
AreReadable [] = Unit {0}
AreReadable (c ∷ cs) = IsReadable c × AreReadable cs

abbrev pub readers : {enc : EncodingGroup} {A : Type 0} → List (Cell enc A) → List (FieldReader A)
readers [] = []
readers (c ∷ cs) = c.reader ∷ readers cs

abbrev pub values : {enc : EncodingGroup} {A : Type 0} → List (Cell enc A) → List A
values [] = []
values (c ∷ cs) = c.value ∷ values cs

abbrev pub fields : {enc : EncodingGroup} {A : Type 0} → List (Cell enc A) → List Field
fields [] = []
fields (c ∷ cs) = to_field c.text ∷ fields cs

-- The fields with commas between them and a closing parenthesis.
unfoldable pub cells_text :
    {enc : EncodingGroup} {A : Type 0} → Cell enc A → List (Cell enc A) → Bytes
cells_text c [] = render_field c.text ++ close_parenthesis ∷ []
cells_text c (d ∷ ds) = render_field c.text ++ comma ∷ cells_text d ds

pub specialize-known :
    {A : Type 0} (enc : EncodingGroup)
    → enc ≢ unknown
    → specialize_parse_composite_field {A = A} enc ≡ ok (parse_composite_field enc)
unfolding specialize_parse_composite_field
specialize-known unknown known = absurd (known refl)
specialize-known ascii_safe known = refl
specialize-known two_tier known = refl
specialize-known gb18030 known = refl
specialize-known sjis known = refl

pub end_field-comma :
    (index last_field : ℕ) (q tail : Bytes)
    → index < last_field
    → end_field index (q ++ comma ∷ tail) (length q) last_field ≡ ok (length q + 1)
unfolding end_field
end_field-comma index last_field q tail h = ground (arith, byte_at-length q comma tail)

pub end_field-close :
    (index : ℕ) (q : Bytes) (c : ℕ)
    → (c ≡ close_parenthesis) ⊎ (c ≡ close_bracket)
    → end_field index (q ++ c ∷ []) (length q) index ≡ ok (length q + 1)
unfolding end_field
end_field-close index q c h = ground (arith, byte_at-length q c [], length-append q (c ∷ []))

pub parse_fields-cons :
    {A : Type 0} (enc : EncodingGroup) (reader : FieldReader A) (rs : List (FieldReader A))
    (index here last_field stop next : ℕ) (text : Bytes) (v : A)
    → enc ≢ unknown
    → read_field enc reader text here ≡ ok (v, stop)
    → end_field index text stop last_field ≡ ok next
    → parse_fields enc (reader ∷ rs) index text here last_field
      ≡ (parse_fields enc rs (index + 1) text next last_field >>= λ (vs, end). ok (v ∷ vs, end))
unfolding parse_fields parse_composite_field
parse_fields-cons {A} enc reader rs index here last_field stop next text v known read ended =
    rw (specialize-known {A = A} enc known, read, ended)

pub parse_fields-text :
    {enc : EncodingGroup} {A : Type 0} (c : Cell enc A) (cs : List (Cell enc A)) (pre : Bytes)
    (index : ℕ)
    → enc ≢ unknown
    → AreReadable (c ∷ cs)
    → parse_fields enc
        (readers (c ∷ cs))
        index
        (pre ++ cells_text c cs)
        (length pre)
        (index + length cs)
      ≡ ok (values (c ∷ cs), length (pre ++ cells_text c cs))
unfolding parse_fields parse_composite_field cells_text
parse_fields-text {enc} {A} c [] pre index known (r, _) =
    let q = pre ++ render_field c.text in
    let read =
      read_field-render c.text c.reader c.value pre close_parenthesis [] known r.is_text
        (inr (inl refl)) r.reads in
    let closed = end_field-close index q close_parenthesis (inl refl) in
    let size : length q + 1 ≡ length (pre ++ (render_field c.text ++ close_parenthesis ∷ [])) =
      omega (
        arith,
        length-append {0} pre (render_field c.text ++ close_parenthesis ∷ []),
        length-append {0} (render_field c.text) (close_parenthesis ∷ []),
        length-append {0} pre (render_field c.text),
      ) in
    let closed' = rw (append_assoc pre (render_field c.text) (close_parenthesis ∷ [])) at closed in
    rw (specialize-known {A = A} enc known, add-zero index, read, closed', size)
parse_fields-text {enc} {A} c (d ∷ ds) pre index known (r, rs) =
    let text = render_field c.text in
    let q = pre ++ text in
    let rest = cells_text d ds in
    let q' = q ++ comma ∷ [] in
    let read =
      read_field-render c.text c.reader c.value pre comma rest known r.is_text (inl refl) r.reads in
    let ended = end_field-comma index (index + suc (length ds)) q rest (omega arith) in
    let ended' = rw (append_assoc pre text (comma ∷ rest)) at ended in
    let later = parse_fields-text d ds q' (index + 1) known rs in
    let shape : q' ++ rest ≡ pre ++ (text ++ comma ∷ rest) = simp append_assoc in
    let size : length q' ≡ length q + 1 = length-append q (comma ∷ []) in
    let count : index + 1 + length ds ≡ index + suc (length ds) = omega arith in
    let later' = rw (shape, size, count) at later in
    parse_fields-cons enc c.reader (readers (d ∷ ds)) index (length pre) (index + suc (length ds))
      (length q) (length q + 1) (pre ++ (text ++ comma ∷ rest)) c.value known read ended'
    ∙ rw later'

-- What is written before the last comma is erased.
unfoldable pub listed : {enc : EncodingGroup} {A : Type 0} → List (Cell enc A) → Bytes
listed [] = []
listed (c ∷ cs) = render_field c.text ++ comma ∷ listed cs

pub listed_init :
    {enc : EncodingGroup} {A : Type 0} (c : Cell enc A) (cs : List (Cell enc A))
    → (init : Bytes) × (listed (c ∷ cs) ≡ init ++ comma ∷ [])
      × (cells_text c cs ≡ init ++ close_parenthesis ∷ [])
unfolding listed cells_text
listed_init c [] = (render_field c.text, refl, refl)
listed_init c (d ∷ ds) =
    let (init, whole, closed) = listed_init d ds in
    (
      render_field c.text ++ comma ∷ init,
      rw whole (sym (append_assoc (render_field c.text) (comma ∷ init) (comma ∷ []))),
      rw closed (sym (append_assoc (render_field c.text) (comma ∷ init) (close_parenthesis ∷ []))),
    )

-- The `size_buffer` of a type that is safe without quotes is at least the size of its text. That of
-- another type is less than the size of the buffer; where its `to_buf` writes to the buffer, it is at
-- most `scratch`, and the text and what stands behind it fill that part of the buffer.
abbrev pub IsPlaced : Place → ℕ → ℕ → ℕ → Type 0
IsPlaced in_value count budget scratch = Unit {0}
IsPlaced (in_buffer left) count budget scratch = (budget ≤ scratch) × (count + length left ≡ budget)

abbrev pub IsSized : {enc : EncodingGroup} → FieldText enc → ℕ → ℕ → Type 0
IsSized (safe gs budget) size scratch = length (bytes gs) ≤ budget
IsSized (quoted place gs budget) size scratch =
    (budget < size) × IsPlaced place (length (bytes gs)) budget scratch

abbrev pub AreSized : {enc : EncodingGroup} {A : Type 0} → List (Cell enc A) → ℕ → ℕ → Type 0
AreSized [] size scratch = Unit {0}
AreSized (c ∷ cs) size scratch = IsSized c.text size scratch × AreSized cs size scratch

abbrev pub field_room : {enc : EncodingGroup} → FieldText enc → ℕ
field_room (safe gs budget) = budget
field_room (quoted place gs budget) = 2 * length (bytes gs) + 2

-- Room in the buffer: for a type that is safe without quotes its `size_buffer`, for a quoted text
-- every byte escaped and the quotes, and a comma behind each.
abbrev pub room : {enc : EncodingGroup} {A : Type 0} → List (Cell enc A) → ℕ
room [] = 0
room (c ∷ cs) = field_room c.text + 1 + room cs

field_text-render :
    {enc : EncodingGroup} (x : FieldText enc)
    → IsFieldText x
    → field_text (to_field x) ≡ render_field x
unfolding to_field render_field
field_text-render (safe gs budget) f = refl
field_text-render (quoted place gs budget) f = rw (escape_bytes-escaped gs f) refl

length-render_field :
    {enc : EncodingGroup} (x : FieldText enc) (size scratch : ℕ)
    → IsSized x size scratch
    → length (render_field x) ≤ field_room x
unfolding render_field
length-render_field (safe gs budget) size scratch h = h
length-render_field (quoted place gs budget) size scratch h =
    omega (arith, length-escaped-le gs, length-append {0} (escaped gs) (quote ∷ []))

to_field-HasRoom :
    {enc : EncodingGroup} (x : FieldText enc) (size scratch pos : ℕ)
    → IsFieldText x
    → IsSized x size scratch
    → pos + field_room x + scratch < size
    → HasRoom (to_field x) size pos
unfolding to_field
to_field-HasRoom (safe gs budget) size scratch pos f h k = (omega arith, h)
to_field-HasRoom (quoted in_value gs budget) size scratch pos f (h, c) k =
    let short : length (escape_bytes (bytes gs)) ≤ 2 * length (bytes gs) =
      rw (escape_bytes-escaped gs f) (length-escaped-le gs) in
    (h, omega arith, tt)
to_field-HasRoom (quoted (in_buffer left) gs budget) size scratch pos f (h, (c, d)) k =
    let short : length (escape_bytes (bytes gs)) ≤ 2 * length (bytes gs) =
      rw (escape_bytes-escaped gs f) (length-escaped-le gs) in
    (h, omega arith, (omega arith, d))

-- The fields are written with their commas, and the buffer keeps its size.
pub write_fields-listed :
    {enc : EncodingGroup} {A : Type 0} (cs : List (Cell enc A)) (scratch : ℕ) (out rest : Bytes)
    → AreReadable cs
    → AreSized cs (length (out ++ rest)) scratch
    → length out + room cs + scratch < length (out ++ rest)
    → Wrote (write_fields (fields cs) (out ++ rest, length out)) out rest (listed cs)
unfolding write_fields listed
write_fields-listed [] scratch out rest r s fits = (rest, rw append-nil refl, omega arith)
write_fields-listed (c ∷ cs) scratch out rest (r, rs) (s, ss) fits =
    let text = render_field c.text in
    let same : field_text (to_field c.text) ≡ text = field_text-render c.text r.is_text in
    let short : length text ≤ field_room c.text =
      length-render_field c.text (length (out ++ rest)) scratch s in
    let total = length-append out rest in
    let clear =
      to_field-HasRoom c.text (length (out ++ rest)) scratch (length out) r.is_text s
        (omega arith) in
    let inside : length (field_text (to_field c.text)) < length rest = rw same (omega arith) in
    let field : Wrote (write_composite_field (to_field c.text) (out ++ rest, length out)) out rest
        (text ++ comma ∷ []) =
      subst
        (λ (t : Bytes).
          Wrote (write_composite_field (to_field c.text) (out ++ rest, length out)) out rest
            (t ++ comma ∷ []))
        same (write_composite_field-Wrote (to_field c.text) out rest clear inside) in
    let joined : (text ++ comma ∷ []) ++ listed cs ≡ text ++ comma ∷ listed cs =
      append_assoc text (comma ∷ []) (listed cs) in
    subst (Wrote (write_fields (fields (c ∷ cs)) (out ++ rest, length out)) out rest) joined (
      Wrote-then (write_composite_field (to_field c.text) (out ++ rest, length out))
        (write_fields (fields cs)) out rest (text ++ comma ∷ []) (listed cs) field
        (λ behind left.
          let out' = out ++ (text ++ comma ∷ []) in
          let count = length-append (out ++ (text ++ comma ∷ [])) behind in
          let count' = length-append out (text ++ comma ∷ []) in
          let count'' = length-append text (comma ∷ []) in
          let size : length (out ++ rest) ≡ length (out' ++ behind) = omega arith in
          write_fields-listed cs scratch out' behind rs
            (subst (λ (n : ℕ). AreSized cs n scratch) size ss) (omega arith)))

pub length-listed :
    {enc : EncodingGroup} {A : Type 0} (cs : List (Cell enc A)) (size scratch : ℕ)
    → AreSized cs size scratch
    → length (listed cs) ≤ room cs
unfolding listed
length-listed [] size scratch s = omega arith
length-listed (c ∷ cs) size scratch (s, ss) =
    let text = render_field c.text in
    let short = length-render_field c.text size scratch s in
    let later = length-listed cs size scratch ss in
    let total = length-append text (comma ∷ listed cs) in omega arith

pub length-readers :
    {enc : EncodingGroup} {A : Type 0} (cs : List (Cell enc A)) → length (readers cs) ≡ length cs
length-readers [] = refl
length-readers (c ∷ cs) = ap suc (length-readers cs)
