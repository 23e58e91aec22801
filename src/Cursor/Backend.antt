-- ===== src/Cursor/Backend.antt =====
-- A cursor of the backend, and the calls of `sql_cursor` that go to it: `stridestring`, `fetch` and
-- `move` (src/sql_cursor.cxx); on top of them `obtain_stateless_cursor_size` and
-- `stateless_cursor_retrieve` (src/cursor.cxx).
use libpqxx.Prelude.{
  ℕ, suc, ◌-◌, ◌≤◌, ◌≡◌, ◌≢◌, ◌||◌, leb, if◌then◌else◌, List, [], length, drop, take, reverse,
  Result, ok, err, range_error, ◌>>=◌,
}
use libpqxx.Prelude.Int.{ℤ, pos, negsuc, ◌-ℤ◌, ltb_ℤ}
use libpqxx.Cursor.Movement.{SqlCursor, unknown_pos, eq_ℤ, adjust, adopted}
use libpqxx.Cursor.Adjusting.{landing, met}

-- `cursor_base::all()`, and `backward_all()` with a minus.
abbrev pub all_rows : ℕ
all_rows = 2147483646

abbrev pub backward_all_rows : ℕ
backward_all_rows = 2147483647

-- What stands for the number of rows in a command: a number, or a word.
pub data Stride : Type 0 where
  all backward_all : Stride
  by : ℤ → Stride

unfoldable pub stridestring : ℤ → Stride
stridestring (pos n) = if leb all_rows n then all else by (pos n)
stridestring (negsuc n) = if leb backward_all_rows (suc n) then backward_all else by (negsuc n)

-- A scrolling cursor of PostgreSQL: FETCH returns the rows that it meets, MOVE their number. The laws
-- are the documented behaviour of the two commands.
pub record Backend (Row : Type 0) : Type 1 where
  pub State : Type 0
  pub table : List Row
  pub place : State → ℕ
  pub fetch : Stride → State → List Row × State
  pub move : Stride → State → ℕ × State
  pub inside : (s : State) → place s ≤ suc (length table)
  pub fetch_by :
      (z : ℤ) (s : State)
      → z ≢ pos 0
      → ((fetch (by z) s).0 ≡ met table z (place s))
        × (place (fetch (by z) s).1 ≡ landing (length table) z (place s))
  pub fetch_all :
      (s : State)
      → ((fetch all s).0 ≡ drop (place s) table) × (place (fetch all s).1 ≡ suc (length table))
  pub fetch_backward_all :
      (s : State)
      → ((fetch backward_all s).0 ≡ reverse (take (place s - 1) table))
        × (place (fetch backward_all s).1 ≡ 0)
  pub move_counts :
      (stride : Stride) (s : State)
      → ((move stride s).0 ≡ length (fetch stride s).0)
        × (place (move stride s).1 ≡ place (fetch stride s).1)

-- The clamping of `end_pos`.
unfoldable pub clamp_end : ℤ → ℤ → ℤ
clamp_end size end_pos =
    if ltb_ℤ end_pos (negsuc 0) then negsuc 0 else if ltb_ℤ size end_pos then size else end_pos

module _ {Row : Type 0} (b : Backend Row) where
  -- Returns the rows and the displacement.
  unfoldable pub fetch : ℤ → SqlCursor → b.State → Result (List Row × ℤ) × (SqlCursor × b.State)
  fetch rows c s =
      if eq_ℤ rows (pos 0)
      then (ok ([], pos 0), (c, s))
      else (let answer = b.fetch (stridestring rows) s in
          let counted = adjust rows (pos (length answer.0)) c in
          ((counted.0 >>= λ displacement. ok (answer.0, displacement)), (counted.1, answer.1)))

  -- Returns the number of rows and the displacement.
  unfoldable pub move : ℤ → SqlCursor → b.State → Result (ℕ × ℤ) × (SqlCursor × b.State)
  move rows c s =
      if eq_ℤ rows (pos 0)
      then (ok (0, pos 0), (c, s))
      else (let answer = b.move (stridestring rows) s in
          let counted = adjust rows (pos answer.0) c in
          ((counted.0 >>= λ displacement. ok (answer.0, displacement)), (counted.1, answer.1)))

  -- What a call does behind another one, on the state that it leaves.
  abbrev pub then_do {ℓ κ} :
      {X : Type ℓ} {Y : Type κ}
      → Result X × (SqlCursor × b.State)
      → (X → SqlCursor → b.State → Result Y × (SqlCursor × b.State))
      → Result Y × (SqlCursor × b.State)
  then_do (err e, (c, s)) rest = (err e, (c, s))
  then_do (ok x, (c, s)) rest = rest x c s

  -- The second constructor of `stateless_cursor` puts an adopted cursor at the start.
  unfoldable pub adopt_stateless : b.State → Result (ℕ × ℤ) × (SqlCursor × b.State)
  unfolding adopted
  adopt_stateless s = move (negsuc (backward_all_rows - 1)) adopted s

  unfoldable pub obtain_stateless_cursor_size :
      SqlCursor → b.State → Result ℤ × (SqlCursor × b.State)
  obtain_stateless_cursor_size c s =
      if eq_ℤ c.endpos unknown_pos
      then then_do (move (pos all_rows) c s) (λ moved c' s'. (ok (c'.endpos -ℤ pos 1), (c', s')))
      else (ok (c.endpos -ℤ pos 1), (c, s))

  unfoldable pub stateless_cursor_retrieve :
      ℤ → ℤ → ℤ → SqlCursor → b.State → Result (List Row) × (SqlCursor × b.State)
  unfolding clamp_end
  stateless_cursor_retrieve size begin_pos end_pos c s =
      let end = clamp_end size end_pos in
      let direction = if ltb_ℤ begin_pos end then pos 1 else negsuc 0 in
      if ltb_ℤ begin_pos (pos 0) || ltb_ℤ size begin_pos
      then (err range_error, (c, s))
      else if eq_ℤ begin_pos end
      then (ok [], (c, s))
      else then_do (move (begin_pos -ℤ direction -ℤ (c.position -ℤ pos 1)) c s) (λ moved c' s'.
        then_do (fetch (end -ℤ begin_pos) c' s') (λ fetched c'' s''. (ok fetched.0, (c'', s''))))

  -- `stateless_cursor::retrieve`
  unfoldable pub retrieve : ℤ → ℤ → SqlCursor → b.State → Result (List Row) × (SqlCursor × b.State)
  retrieve begin_pos end_pos c s =
      then_do (obtain_stateless_cursor_size c s)
        (λ size c' s'. stateless_cursor_retrieve size begin_pos end_pos c' s')
