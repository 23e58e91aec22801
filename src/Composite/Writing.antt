-- ===== src/Composite/Writing.antt =====
-- What `composite_into_buf` writes for one field and for more.
use libpqxx.Prelude.{
  ℕ, ◌+◌, ◌-◌, ◌≤◌, ◌≡◌, refl, ◌∙◌, subst, true, false, Bytes, take-append, List, [], ◌∷◌, ◌++◌,
  append_assoc, length, length-append, ltb, ◌==◌, arith, Result, ok, ◌>>=◌,
}
use libpqxx.Encoding.Scanner.{EncodingGroup}
use libpqxx.Composite.Reader.{comma, open_parenthesis, close_parenthesis}
use libpqxx.Composite.Buffer.{Written, write_all, write_all-Wrote}
use libpqxx.Composite.Fields.{render_field}
use libpqxx.Composite.Writer.{
  write_fields, drop_last_comma, finish, composite_into_buf, composite_size_buffer,
}
use libpqxx.Composite.Cells.{
  Cell, AreReadable, AreSized, room, fields, listed, listed_init, cells_text, write_fields-listed,
  length-listed,
}

finish-fits :
    (num pos : ℕ) (kept behind : Bytes)
    → drop_last_comma num pos ≡ length kept
    → 2 ≤ length behind
    → finish num (kept ++ behind, pos) ≡ ok (kept ++ close_parenthesis ∷ [])
unfolding finish
finish-fits num pos kept behind dropped some =
    let (end, wrote, size) = write_all-Wrote (close_parenthesis ∷ 0 ∷ []) kept behind some in
    let closed = kept ++ close_parenthesis ∷ [] in
    let count : length (kept ++ close_parenthesis ∷ 0 ∷ []) - 1 ≡ length closed = omega (
      arith,
      length-append {0} kept (close_parenthesis ∷ 0 ∷ []),
      length-append {0} kept (close_parenthesis ∷ []),
    ) in
    let shape : (kept ++ close_parenthesis ∷ 0 ∷ []) ++ end ≡ closed ++ 0 ∷ end =
      simp append_assoc in
    rw (dropped, wrote, count, shape, take-append closed (0 ∷ end)) refl

-- Everything up to the end of the last field's comma.
written_fields :
    {enc : EncodingGroup} {A : Type 0} (cs : List (Cell enc A)) (scratch : ℕ) (buffer : Bytes)
    (later : Written → Result Bytes)
    → AreReadable cs
    → AreSized cs (length buffer) scratch
    → room cs + scratch + 2 ≤ length buffer
    → (behind : Bytes) × ((write_all (open_parenthesis ∷ []) buffer 0 >>= λ (w : Written).
          write_fields (fields cs) w >>= later)
        ≡ later ((open_parenthesis ∷ listed cs) ++ behind, length (open_parenthesis ∷ listed cs)))
      × (length buffer ≤ room cs + length behind + 1)
written_fields cs scratch buffer later r s roomy =
    let (rest, begun, size) = write_all-Wrote (open_parenthesis ∷ []) [] buffer (omega arith) in
    let same : length buffer ≡ length (open_parenthesis ∷ rest) = omega arith in
    let (behind, wrote, size') =
      write_fields-listed cs scratch (open_parenthesis ∷ []) rest r
        (subst (λ (n : ℕ). AreSized cs n scratch) same s) (omega arith) in
    let short = length-listed cs (length buffer) scratch s in
    (behind, rw (begun, wrote) refl, omega arith)

module _ {enc : EncodingGroup} {A : Type 0} where
  -- The last comma gives way to the parenthesis.
  pub composite_into_buf-fields :
      (c d : Cell enc A) (cs : List (Cell enc A)) (scratch : ℕ) (buffer : Bytes)
      → AreReadable (c ∷ d ∷ cs)
      → AreSized (c ∷ d ∷ cs) (length buffer) scratch
      → room (c ∷ d ∷ cs) + scratch + 2 ≤ length buffer
      → composite_size_buffer (fields (c ∷ d ∷ cs)) ≤ length buffer
      → composite_into_buf buffer (fields (c ∷ d ∷ cs))
        ≡ ok (open_parenthesis ∷ cells_text c (d ∷ cs))
  unfolding composite_into_buf
  composite_into_buf-fields c d cs scratch buffer r s roomy enough =
      let fs = fields (c ∷ d ∷ cs) in
      let (init, whole, closed) = listed_init c (d ∷ cs) in
      let budget : ltb (length buffer) (composite_size_buffer fs) ≡ false = ground arith in
      let some : (length fs == 0) ≡ false = ground arith in
      let (behind, wrote, size) =
        written_fields (c ∷ d ∷ cs) scratch buffer (finish (length fs)) r s roomy in
      let kept = open_parenthesis ∷ init in
      let shape : (kept ++ comma ∷ []) ++ behind ≡ kept ++ comma ∷ behind =
        append_assoc kept (comma ∷ []) behind in
      let count : length (kept ++ comma ∷ []) ≡ length kept + 1 = length-append kept (comma ∷ []) in
      let many : ltb 1 (length fs) ≡ true = ground arith in
      let dropped : drop_last_comma (length fs) (length (kept ++ comma ∷ [])) ≡ length kept =
        unfold drop_last_comma in rw many (omega arith) in
      let wrote' = rw (whole, shape) at wrote in
      rw (budget, some, closed)
        (wrote'
          ∙ finish-fits (length fs) (length (kept ++ comma ∷ [])) kept (comma ∷ behind) dropped
              (omega arith))

  pub composite_into_buf-single :
      (c : Cell enc A) (scratch : ℕ) (buffer : Bytes)
      → AreReadable (c ∷ [])
      → AreSized (c ∷ []) (length buffer) scratch
      → room (c ∷ []) + scratch + 3 ≤ length buffer
      → composite_size_buffer (fields (c ∷ [])) ≤ length buffer
      → composite_into_buf buffer (fields (c ∷ []))
        ≡ ok (open_parenthesis ∷ ((render_field c.text ++ comma ∷ []) ++ close_parenthesis ∷ []))
  unfolding composite_into_buf
  composite_into_buf-single c scratch buffer r s roomy enough =
      let fs = fields (c ∷ []) in
      let budget : ltb (length buffer) (composite_size_buffer fs) ≡ false = ground arith in
      let (behind, wrote, size) =
        written_fields (c ∷ []) scratch buffer (finish 1) r s (omega arith) in
      let kept = open_parenthesis ∷ (render_field c.text ++ comma ∷ []) in
      let dropped : drop_last_comma 1 (length kept) ≡ length kept =
        unfold drop_last_comma in refl in
      let last : listed (c ∷ []) ≡ render_field c.text ++ comma ∷ [] = unfold listed in refl in
      let wrote' = rw last at wrote in
      rw budget (wrote' ∙ finish-fits 1 (length kept) kept behind dropped (omega arith))
