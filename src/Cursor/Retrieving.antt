-- ===== src/Cursor/Retrieving.antt =====
-- `stateless_cursor`: the size and the rows that it returns.
use libpqxx.Prelude.{
  ℕ, zero, suc, ◌+◌, ◌≤◌, ◌<◌, ◌≡◌, ◌≢◌, refl, ap, ◌∙◌, inl, inr, true, false, ltb, arith, List, [],
  ◌∷◌, length, take, min, ok,
}
use libpqxx.Prelude.Int.{ℤ, pos, negsuc, pos_part, ◌-ℤ◌, int_laws}
use libpqxx.Cursor.Movement.{SqlCursor, unknown_pos, eq_ℤ}
use libpqxx.Cursor.Adjusting.{landing, met, at, IsEnd}
use libpqxx.Cursor.Backend.{
  Backend, all_rows, fetch, move, then_do, stridestring, obtain_stateless_cursor_size, clamp_end,
}
use libpqxx.Cursor.Following.{IsSmall, Follows, move_at, move-Follows, fetch-Follows}

pub pos-ne : {k : ℕ} → 0 < k → pos k ≢ pos 0
pos-ne h e = let flat = ap pos_part e in omega arith

pub take-min {ℓ} : {A : Type ℓ} (k : ℕ) (xs : List A) → take (min k (length xs)) xs ≡ take k xs
take-min zero xs = let e : min 0 (length xs) ≡ 0 = omega arith in rw e
take-min (suc k) [] = let e : min (suc k) 0 ≡ 0 = omega arith in rw e
take-min (suc k) (x ∷ xs) =
    let e : min (suc k) (suc (length xs)) ≡ suc (min k (length xs)) = omega arith in
    rw (e, take-min k xs)

pub clamp-above : (n e : ℕ) → clamp_end (pos n) (pos e) ≡ pos (min e n)
unfolding clamp_end
clamp-above n e = ground arith

pub clamp-within : (n e : ℕ) → e ≤ n → clamp_end (pos n) (pos e) ≡ pos e
unfolding clamp_end
clamp-within n e h = ground arith

pub clamp-below : (n j : ℕ) → clamp_end (pos n) (negsuc j) ≡ negsuc 0
unfolding clamp_end
clamp-below n j = ground arith

landing-to : (n q p : ℕ) → p ≤ suc n → landing n (pos q -ℤ pos p) p ≡ min q (suc n)
unfolding ◌-ℤ◌
landing-to n q p h = ground arith

module _ {Row : Type 0} (b : Backend Row) where
  size_at :
      (e : ℤ) (s : b.State)
      → IsSmall b
      → IsEnd (length b.table) e
      → (s' : b.State) × (c' : SqlCursor) × (obtain_stateless_cursor_size b
            (at (length b.table) (b.place s) e)
            s
          ≡ (ok (pos (length b.table)), (c', s')))
        × Follows b c' s'
  unfolding obtain_stateless_cursor_size
  size_at e s small (inl none) =
      let n = length b.table in
      let s' = (b.move (stridestring (pos all_rows)) s).1 in
      let far : ltb n (all_rows + b.place s) ≡ true = ground arith in
      let last : pos (suc n) -ℤ pos 1 ≡ pos n = omega int_laws in
      let out =
        (move_at b (pos all_rows) unknown_pos s small (inl refl)
          (λ (h : pos all_rows ≡ pos 0). cc h)).0 in
      (
        s',
        at n (b.place s') (pos (suc n)),
        rw (none, out, far, last),
        (pos (suc n), inr refl, refl),
      )
  size_at e s small (inr known) =
      let n = length b.table in
      let last : pos (suc n) -ℤ pos 1 ≡ pos n = omega int_laws in
      let found : eq_ℤ (pos (suc n)) unknown_pos ≡ false = ground arith in
      (s, at n (b.place s) (pos (suc n)), rw (known, found, last), (pos (suc n), inr refl, refl))

  -- The size is the number of rows.
  pub size-Follows :
      (c : SqlCursor) (s : b.State)
      → IsSmall b
      → Follows b c s
      → (s' : b.State) × (c' : SqlCursor) × (obtain_stateless_cursor_size b c s
          ≡ (ok (pos (length b.table)), (c', s')))
        × Follows b c' s'
  size-Follows c s small (e, is_end, here) =
      let (s', c', out, f) = size_at e s small is_end in
      (s', c', ap (λ (c0 : SqlCursor). obtain_stateless_cursor_size b c0 s) here ∙ out, f)

  -- The move to a row and the fetch from there.
  pub move_and_fetch :
      (q : ℕ) (hop rows : ℤ) (c : SqlCursor) (s : b.State)
      → IsSmall b
      → Follows b c s
      → hop ≡ pos q -ℤ pos (b.place s)
      → rows ≢ pos 0
      → (s' : b.State) × (c' : SqlCursor) × (then_do b (move b hop c s) (λ moved c1 s1.
            then_do b (fetch b rows c1 s1) (λ fetched c2 s2. (ok fetched.0, (c2, s2))))
          ≡ (ok (met b.table rows (min q (suc (length b.table)))), (c', s')))
        × Follows b c' s'
  move_and_fetch q hop rows c s small f to moves =
      let (s1, c1, count, out, there, f1) = move-Follows b hop c s small f in
      let (s2, c2, got, there', f2) = fetch-Follows b rows c1 s1 small moves f1 in
      let spot : b.place s1 ≡ min q (suc (length b.table)) =
        there
        ∙ (ap (λ (z : ℤ). landing (length b.table) z (b.place s)) to
            ∙ landing-to (length b.table) q (b.place s) (b.inside s)) in
      (s2, c2, rw (out, got, spot), f2)
