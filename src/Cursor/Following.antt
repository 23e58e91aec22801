-- ===== src/Cursor/Following.antt =====
-- `move` and `fetch` of a cursor that knows where the backend's cursor stands.
use libpqxx.Prelude.{
  ℕ, zero, suc, ◌+◌, ◌-◌, ◌≤◌, ◌<◌, ◌≡◌, ◌≢◌, refl, sym, ap, ◌∙◌, inl, inr, true, false, Bool-cases,
  ltb, leb, arith, List, [], length, length-take, length-reverse, take-all, length-drop, drop, take,
  reverse, min, ok,
}
use libpqxx.Prelude.Int.{ℤ, pos, negsuc, ◌-ℤ◌, int_laws}
use libpqxx.Cursor.Movement.{SqlCursor, eq_ℤ, adjust}
use libpqxx.Cursor.Adjusting.{landing, met, end_after, at, IsEnd, adjust-landing}
use libpqxx.Cursor.Backend.{all_rows, backward_all_rows, stridestring, Backend, fetch, move}

pub eq_ℤ-pos_zero : (z : ℤ) → (eq_ℤ z (pos 0) ≡ true) → z ≡ pos 0
eq_ℤ-pos_zero z h = ground arith

pub ne_ℤ-pos_zero : (z : ℤ) → (eq_ℤ z (pos 0) ≡ false) → z ≢ pos 0
ne_ℤ-pos_zero z h = λ e. cc (rw e at h)

eq_ℤ-false : (z : ℤ) → z ≢ pos 0 → eq_ℤ z (pos 0) ≡ false
eq_ℤ-false (pos zero) h = absurd (h refl)
eq_ℤ-false (pos (suc n)) h = ground arith
eq_ℤ-false (negsuc n) h = ground arith

pub IsEnd-end_after :
    (n : ℕ) (hoped : ℤ) (p : ℕ) (e : ℤ) → IsEnd n e → IsEnd n (end_after n hoped p e)
IsEnd-end_after n (pos k) p e h = elim (Bool-cases (ltb n (k + p))) [
  | inl far ↦ rw far (inr refl)
  | inr near ↦ rw near h
]
IsEnd-end_after n (negsuc k) p e h = h

module _ {Row : Type 0} (b : Backend Row) where
  -- The backend's table is smaller than the number that stands for all rows.
  abbrev pub IsSmall : Type 0
  IsSmall = length b.table < all_rows

  -- The cursor knows where the backend's cursor stands, and perhaps where the end is.
  abbrev pub Follows : SqlCursor → b.State → Type 0
  Follows c s = (e : ℤ) × IsEnd (length b.table) e × (c ≡ at (length b.table) (b.place s) e)

  -- A command with the word for all rows does what the number would do.
  stride_fetch :
      (hoped : ℤ) (s : b.State)
      → IsSmall
      → hoped ≢ pos 0
      → ((b.fetch (stridestring hoped) s).0 ≡ met b.table hoped (b.place s))
        × (b.place (b.fetch (stridestring hoped) s).1 ≡ landing (length b.table) hoped (b.place s))
  unfolding stridestring
  stride_fetch (pos k) s small moves = elim (Bool-cases (leb all_rows k)) [
    | inl many ↦
        let (rows, there) = b.fetch_all s in
        let bound : all_rows ≤ k = ground arith in
        let size : length (drop (b.place s) b.table) ≤ k =
          let l = length-drop (b.place s) b.table in omega arith in
        let past : min (b.place s + k) (suc (length b.table)) ≡ suc (length b.table) =
          omega arith in
        (
          rw many (rows ∙ sym (take-all k (drop (b.place s) b.table) size)),
          rw many (there ∙ sym past),
        )
    | inr few ↦ rw few (b.fetch_by (pos k) s moves)
  ]
  stride_fetch (negsuc k) s small moves = elim (Bool-cases (leb backward_all_rows (suc k))) [
    | inl many ↦
        let (rows, there) = b.fetch_backward_all s in
        let bound : backward_all_rows ≤ suc k = ground arith in
        let before = take (b.place s - 1) b.table in
        let size : length (reverse before) ≤ suc k =
          let l = length-reverse before in
          let m = length-take (b.place s - 1) b.table in omega arith in
        let inside = b.inside s in
        let home : b.place s - suc k ≡ 0 = omega arith in
        (rw many (rows ∙ sym (take-all (suc k) (reverse before) size)), rw many (there ∙ sym home))
    | inr few ↦ rw few (b.fetch_by (negsuc k) s moves)
  ]

  -- What `move` and `fetch` return and leave, for a cursor that stands at `place s`.
  abbrev pub landed : ℤ → ℤ → b.State → b.State → SqlCursor
  landed hoped e s s' =
      at (length b.table) (b.place s') (end_after (length b.table) hoped (b.place s) e)

  adjusted :
      (hoped e : ℤ) (s s' : b.State)
      → IsEnd (length b.table) e
      → hoped ≢ pos 0
      → b.place s' ≡ landing (length b.table) hoped (b.place s)
      → adjust hoped
          (pos (length (met b.table hoped (b.place s))))
          (at (length b.table) (b.place s) e)
        ≡ (ok (pos (b.place s') -ℤ pos (b.place s)), landed hoped e s s')
  adjusted hoped e s s' is_end moves there =
      rw there (adjust-landing b.table hoped (b.place s) e (b.inside s) is_end moves)

  pub move_at :
      (hoped e : ℤ) (s : b.State)
      → IsSmall
      → IsEnd (length b.table) e
      → hoped ≢ pos 0
      → let s' : b.State = (b.move (stridestring hoped) s).1 in
        (move b hoped (at (length b.table) (b.place s) e) s ≡ (
          ok (length (met b.table hoped (b.place s)), pos (b.place s') -ℤ pos (b.place s)),
          (landed hoped e s s', s'),
        ))
        × (b.place s' ≡ landing (length b.table) hoped (b.place s))
  unfolding move
  move_at hoped e s small is_end moves =
      let (rows, there) = stride_fetch hoped s small moves in
      let (count, same) = b.move_counts (stridestring hoped) s in
      let s' = (b.move (stridestring hoped) s).1 in
      let counted : (b.move (stridestring hoped) s).0 ≡ length (met b.table hoped (b.place s)) =
        count ∙ ap (λ (l : List Row). length l) rows in
      let some_rows : eq_ℤ hoped (pos 0) ≡ false = eq_ℤ-false hoped moves in
      let there' = same ∙ there in
      (rw (some_rows, counted, adjusted hoped e s s' is_end moves there'), there')

  fetch_at :
      (hoped e : ℤ) (s : b.State)
      → IsSmall
      → IsEnd (length b.table) e
      → hoped ≢ pos 0
      → let s' : b.State = (b.fetch (stridestring hoped) s).1 in
        (fetch b hoped (at (length b.table) (b.place s) e) s ≡ (
          ok (met b.table hoped (b.place s), pos (b.place s') -ℤ pos (b.place s)),
          (landed hoped e s s', s'),
        ))
        × (b.place s' ≡ landing (length b.table) hoped (b.place s))
  unfolding fetch
  fetch_at hoped e s small is_end moves =
      let (rows, there) = stride_fetch hoped s small moves in
      let s' = (b.fetch (stridestring hoped) s).1 in
      let some_rows : eq_ℤ hoped (pos 0) ≡ false = eq_ℤ-false hoped moves in
      (rw (some_rows, rows, adjusted hoped e s s' is_end moves there), there)

  -- A move by no rows.
  pub stay : (s : b.State) → landing (length b.table) (pos 0) (b.place s) ≡ b.place s
  stay s = let i = b.inside s in omega arith

  move_zero : (c : SqlCursor) (s : b.State) → move b (pos 0) c s ≡ (ok (0, pos 0), (c, s))
  unfolding move
  move_zero c s = refl

  pub fetch_zero : (c : SqlCursor) (s : b.State) → fetch b (pos 0) c s ≡ (ok ([], pos 0), (c, s))
  unfolding fetch
  fetch_zero c s = refl

  -- A move keeps the cursor with the backend's, returns the displacement and throws nothing.
  pub move-Follows :
      (hoped : ℤ) (c : SqlCursor) (s : b.State)
      → IsSmall
      → Follows c s
      → (s' : b.State) × (c' : SqlCursor) × (count : ℕ) × (move b hoped c s
          ≡ (ok (count, pos (b.place s') -ℤ pos (b.place s)), (c', s')))
        × (b.place s' ≡ landing (length b.table) hoped (b.place s))
        × Follows c' s'
  move-Follows hoped c s small (e, is_end, here) = elim (Bool-cases (eq_ℤ hoped (pos 0))) [
    | inl none ↦
        let zero_rows = eq_ℤ-pos_zero hoped none in
        let same_place : pos (b.place s) -ℤ pos (b.place s) ≡ pos 0 = omega int_laws in
        (
          s,
          c,
          0,
          rw (zero_rows, same_place) (move_zero c s),
          rw zero_rows (sym (stay s)),
          (e, is_end, here),
        )
    | inr some ↦
        let moves = ne_ℤ-pos_zero hoped some in
        let s' = (b.move (stridestring hoped) s).1 in
        let (out, there) = move_at hoped e s small is_end moves in
        (
          s',
          landed hoped e s s',
          length (met b.table hoped (b.place s)),
          ap (λ (c0 : SqlCursor). move b hoped c0 s) here ∙ out,
          there,
          (
            end_after (length b.table) hoped (b.place s) e,
            IsEnd-end_after (length b.table) hoped (b.place s) e is_end,
            refl,
          ),
        )
  ]

  -- A fetch returns the rows that the backend's cursor meets, too.
  pub fetch-Follows :
      (hoped : ℤ) (c : SqlCursor) (s : b.State)
      → IsSmall
      → hoped ≢ pos 0
      → Follows c s
      → (s' : b.State) × (c' : SqlCursor) × (fetch b hoped c s
          ≡ (ok (met b.table hoped (b.place s), pos (b.place s') -ℤ pos (b.place s)), (c', s')))
        × (b.place s' ≡ landing (length b.table) hoped (b.place s))
        × Follows c' s'
  fetch-Follows hoped c s small moves (e, is_end, here) =
      let s' = (b.fetch (stridestring hoped) s).1 in
      let (out, there) = fetch_at hoped e s small is_end moves in
      (
        s',
        landed hoped e s s',
        ap (λ (c0 : SqlCursor). fetch b hoped c0 s) here ∙ out,
        there,
        (
          end_after (length b.table) hoped (b.place s) e,
          IsEnd-end_after (length b.table) hoped (b.place s) e is_end,
          refl,
        ),
      )
