-- ===== src/Cursor/Adopting.antt =====
-- A stateless cursor on a cursor that it did not declare (include/pqxx/cursor.hxx).
use libpqxx.Prelude.{
  ℕ, ◌+◌, ◌-◌, ◌<◌, ◌≡◌, refl, sym, ap, ◌∙◌, inl, List, length, length-take, length-reverse, take,
  reverse, ok, arith, false,
}
use libpqxx.Prelude.Int.{ℤ, pos, negsuc, ◌+ℤ◌, ◌-ℤ◌}
use libpqxx.Cursor.Movement.{
  SqlCursor, before_start, unknown_pos, adopted, adjust, fell_short, settle,
}
use libpqxx.Cursor.Adjusting.{at, adjust-fell_short, settle-backward}
use libpqxx.Cursor.Backend.{
  Backend, backward_all_rows, stridestring, backward_all, move, adopt_stateless,
}
use libpqxx.Cursor.Following.{IsSmall, Follows}

fell_short-adopted :
    (m : ℕ)
    → fell_short before_start (pos m) adopted
      ≡ settle false before_start
          (pos (m + 1))
          (record { at_end = before_start; position = pos (m + 1); endpos = unknown_pos })
unfolding fell_short adopted ◌+ℤ◌
fell_short-adopted m = ground arith

adjust-adopted :
    (n m : ℕ)
    → m < backward_all_rows
    → adjust (negsuc (backward_all_rows - 1)) (pos m) adopted
      ≡ (ok (pos 0 -ℤ pos (m + 1)), at n 0 unknown_pos)
adjust-adopted n m h =
    let home : m + 1 - (m + 1) ≡ 0 = omega arith in
    (adjust-fell_short (backward_all_rows - 1) m adopted h).1
    ∙ (fell_short-adopted m
        ∙ (settle-backward (m + 1) (m + 1) before_start unknown_pos (omega arith)
            ∙ ap
                (λ (p : ℕ). (
                  ok (pos 0 -ℤ pos (m + 1)),
                  record { at_end = before_start; position = pos p; endpos = unknown_pos },
                ))
                home))

module _ {Row : Type 0} (b : Backend Row) where
  -- A stateless cursor that adopts a cursor of the backend, wherever that one stands, moves it to the
  -- start without an exception, and knows its position from then on.
  pub adopt_stateless-Follows :
      (s : b.State)
      → IsSmall b
      → (s' : b.State) × (c' : SqlCursor) × (r : ℕ × ℤ) × (adopt_stateless b s ≡ (ok r, (c', s')))
        × (b.place s' ≡ 0)
        × Follows b c' s'
  unfolding adopt_stateless move stridestring
  adopt_stateless-Follows s small =
      let n = length b.table in
      let s' = (b.move backward_all s).1 in
      let m = (b.move backward_all s).0 in
      let (rows, there) = b.fetch_backward_all s in
      let (count, same) = b.move_counts backward_all s in
      let before = take (b.place s - 1) b.table in
      let number : m ≡ length (reverse before) = count ∙ ap (λ (l : List Row). length l) rows in
      let few : m < backward_all_rows =
        let a = length-reverse before in
        let c = length-take (b.place s - 1) b.table in let i = b.inside s in omega arith in
      let home = same ∙ there in
      (
        s',
        at n 0 unknown_pos,
        (m, pos 0 -ℤ pos (m + 1)),
        rw (adjust-adopted n m few),
        home,
        (unknown_pos, inl refl, ap (λ (p : ℕ). at n p unknown_pos) (sym home)),
      )
