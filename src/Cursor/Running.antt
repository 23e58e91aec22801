-- ===== src/Cursor/Running.antt =====
-- A cursor through any number of calls.
use libpqxx.Prelude.{
  ℕ, ◌≡◌, refl, sym, ap, ◌∙◌, subst, Bool-cases, inl, inr, List, [], ◌∷◌, length, Result, ok,
}
use libpqxx.Prelude.Int.{ℤ, pos, ◌-ℤ◌, int_laws}
use libpqxx.Cursor.Movement.{SqlCursor, unknown_pos, eq_ℤ, declared}
use libpqxx.Cursor.Adjusting.{landing, at, IsEnd}
use libpqxx.Cursor.Backend.{Backend, fetch, move, then_do}
use libpqxx.Cursor.Following.{
  IsSmall, Follows, move-Follows, fetch-Follows, fetch_zero, eq_ℤ-pos_zero, ne_ℤ-pos_zero, stay,
}

pub data Request : Type 0 where
  moves fetches : ℤ → Request

abbrev pub amount : Request → ℤ
amount (moves k) = k
amount (fetches k) = k

-- The abstract cursor: a place among `n` rows, and its displacements.
abbrev pub track : ℕ → List Request → ℕ → ℕ
track n [] p = p
track n (r ∷ rs) p = track n rs (landing n (amount r) p)

abbrev pub displacements : ℕ → List Request → ℕ → List ℤ
displacements n [] p = []
displacements n (r ∷ rs) p =
    let q = landing n (amount r) p in (pos q -ℤ pos p) ∷ displacements n rs q

module _ {Row : Type 0} (b : Backend Row) where
  -- A call, with the displacement that it reports.
  unfoldable pub perform : Request → SqlCursor → b.State → Result ℤ × (SqlCursor × b.State)
  perform (moves k) c s = then_do b (move b k c s) (λ r c' s'. (ok r.1, (c', s')))
  perform (fetches k) c s = then_do b (fetch b k c s) (λ r c' s'. (ok r.1, (c', s')))

  unfoldable pub perform_all :
      List Request → SqlCursor → b.State → Result (List ℤ) × (SqlCursor × b.State)
  unfolding perform
  perform_all [] c s = (ok [], (c, s))
  perform_all (r ∷ rs) c s =
      then_do b (perform r c s)
        (λ d c' s'. then_do b (perform_all rs c' s') (λ ds c'' s''. (ok (d ∷ ds), (c'', s''))))

  perform-Follows :
      (r : Request) (c : SqlCursor) (s : b.State)
      → IsSmall b
      → Follows b c s
      → (s' : b.State) × (c' : SqlCursor) × (perform r c s
          ≡ (ok (pos (b.place s') -ℤ pos (b.place s)), (c', s')))
        × (b.place s' ≡ landing (length b.table) (amount r) (b.place s))
        × Follows b c' s'
  unfolding perform
  perform-Follows (moves k) c s small f =
      let (s', c', count, out, there, f') = move-Follows b k c s small f in
      (s', c', rw out, there, f')
  perform-Follows (fetches k) c s small f = elim (Bool-cases (eq_ℤ k (pos 0))) [
    | inl none ↦
        let zero_rows = eq_ℤ-pos_zero k none in
        let same_place : pos (b.place s) -ℤ pos (b.place s) ≡ pos 0 = omega int_laws in
        (s, c, rw (zero_rows, same_place, fetch_zero b c s), rw zero_rows (sym (stay b s)), f)
    | inr some ↦
        let (s', c', out, there, f') = fetch-Follows b k c s small (ne_ℤ-pos_zero k some) f in
        (s', c', rw out, there, f')
  ]

  perform_all-Follows :
      (rs : List Request) (c : SqlCursor) (s : b.State)
      → IsSmall b
      → Follows b c s
      → (s' : b.State) × (c' : SqlCursor) × (perform_all rs c s
          ≡ (ok (displacements (length b.table) rs (b.place s)), (c', s')))
        × (b.place s' ≡ track (length b.table) rs (b.place s))
        × Follows b c' s'
  unfolding perform_all
  perform_all-Follows [] c s small f = (s, c, refl, refl, f)
  perform_all-Follows (r ∷ rs) c s small f =
      let (s', c', out, there, f') = perform-Follows r c s small f in
      let (s'', c'', rest, last, f'') = perform_all-Follows rs c' s' small f' in
      (s'', c'', rw (out, rest, there), rw (last, there), f'')

  -- A cursor that is declared and then moved and fetched from any number of times never throws, as
  -- long as the backend's table has less rows than the number for "all": each call reports the
  -- displacement of the abstract cursor, a place from 0 to one behind the last row that every move
  -- changes and stops at the ends, and `pos()` is its place behind all of them. Where `endpos()` is
  -- known, it is one more than the number of rows.
  pub declared-track :
      (rs : List Request) (s : b.State)
      → IsSmall b
      → b.place s ≡ 0
      → (s' : b.State) × (c' : SqlCursor) × (perform_all rs declared s
          ≡ (ok (displacements (length b.table) rs 0), (c', s')))
        × (c'.position ≡ pos (track (length b.table) rs 0))
        × IsEnd (length b.table) c'.endpos
  unfolding declared
  declared-track rs s small start =
      let n = length b.table in
      let begin : declared ≡ at n (b.place s) unknown_pos =
        ap (λ (p : ℕ). at n p unknown_pos) (sym start) in
      let (s', c', out, there, (e, is_end, here)) =
        perform_all-Follows rs declared s small (unknown_pos, inl refl, begin) in
      (
        s',
        c',
        subst (λ (p : ℕ). perform_all rs declared s ≡ (ok (displacements n rs p), (c', s'))) start
            out,
        ap (λ (c0 : SqlCursor). c0.position) here
            ∙ ap pos (there ∙ ap (λ (p : ℕ). track n rs p) start),
        subst (λ (z : ℤ). IsEnd n z) (sym (ap (λ (c0 : SqlCursor). c0.endpos) here)) is_end,
      )
