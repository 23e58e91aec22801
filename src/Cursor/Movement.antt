-- ===== src/Cursor/Movement.antt =====
-- The position of a cursor: `adjust`, `fetch`, `move` and the constructors of `sql_cursor`
-- (src/sql_cursor.cxx).
use libpqxx.Prelude.{
  ◌+◌, Bool, true, false, not, ◌&&◌, ◌==◌, if◌then◌else◌, Result, ok, err, internal_error,
}
use libpqxx.Prelude.Int.{ℤ, pos, negsuc, pos_part, neg_part, ◌+ℤ◌, ◌-ℤ◌, ltb_ℤ}

-- `m_at_end` and `direction`: -1 at the starting position or backwards, 0 somewhere in the middle, 1
-- past the end or forwards.
pub data End : Type 0 where
  before_start in_middle past_end : End

pub record SqlCursor : Type 0 where
  pub at_end : End
  pub position : ℤ
  pub endpos : ℤ

-- -1, for a position that is not known.
abbrev pub unknown_pos : ℤ
unknown_pos = negsuc 0

-- The constructor that declares a cursor, and the one that adopts a cursor.
unfoldable pub declared : SqlCursor
declared = record { at_end = before_start; position = pos 0; endpos = unknown_pos }

unfoldable pub adopted : SqlCursor
adopted = record { at_end = in_middle; position = unknown_pos; endpos = unknown_pos }

abbrev pub eq_ℤ : ℤ → ℤ → Bool
eq_ℤ a b = pos_part a + neg_part b == pos_part b + neg_part a

abbrev pub eq_end : End → End → Bool
eq_end before_start before_start = true
eq_end in_middle in_middle = true
eq_end past_end past_end = true
eq_end a b = false

abbrev pub labs : ℤ → ℤ
labs a = pos (pos_part a + neg_part a)

-- `direction * n`
abbrev pub along : End → ℤ → ℤ
along before_start n = pos 0 -ℤ n
along in_middle n = pos 0
along past_end n = n

-- From `if (m_pos >= 0)` on, with `hit_end`.
unfoldable pub settle : Bool → End → ℤ → SqlCursor → Result ℤ × SqlCursor
unfolding ◌+ℤ◌ ◌-ℤ◌
settle hit_end direction actual c =
    let moved =
      if ltb_ℤ c.position (pos 0)
      then c
      else record c { position = c.position +ℤ along direction actual } in
    let done = along direction actual in
    if hit_end
    then (if not (ltb_ℤ moved.endpos (pos 0)) && not (eq_ℤ moved.position moved.endpos)
        then (err internal_error, moved)
        else (ok done, record moved { endpos = moved.position }))
    else (ok done, moved)

-- The branch for fewer rows than were asked for.
unfoldable pub fell_short : End → ℤ → SqlCursor → Result ℤ × SqlCursor
unfolding settle
fell_short direction rows c =
    let actual = if not (eq_end c.at_end direction) then rows +ℤ pos 1 else rows in
    if eq_end direction past_end
    then settle true direction actual (record c { at_end = direction })
    else if eq_ℤ c.position unknown_pos
    then settle false direction actual (record c { position = actual; at_end = direction })
    else if not (eq_ℤ c.position actual)
    then (err internal_error, c)
    else settle false direction actual (record c { at_end = direction })

unfoldable pub adjust : ℤ → ℤ → SqlCursor → Result ℤ × SqlCursor
unfolding fell_short settle
adjust hoped actual c =
    let direction = if ltb_ℤ hoped (pos 0) then before_start else past_end in
    if ltb_ℤ actual (pos 0)
    then (err internal_error, c)
    else if eq_ℤ hoped (pos 0)
    then (ok (pos 0), c)
    else if not (eq_ℤ actual (labs hoped))
    then (if ltb_ℤ (labs hoped) actual
        then (err internal_error, c)
        else fell_short direction actual c)
    else settle false direction actual (record c { at_end = in_middle })
