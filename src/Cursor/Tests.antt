-- ===== src/Cursor/Tests.antt =====
-- The property of `find_query_end`, on a query in Shift-JIS.
use libpqxx.Prelude.{
  [], ◌≡◌, ok, List, inl, ◌∷◌, ◌≢◌, arith, ℕ, ◌-◌, refl, length, drop, take, reverse, min, err,
  range_error,
}
use libpqxx.Prelude.Int.{ℤ, pos, negsuc, ◌+ℤ◌, ◌-ℤ◌}
use libpqxx.Cursor.Movement.{SqlCursor, unknown_pos, declared, adjust, settle, fell_short}
use libpqxx.Cursor.Adjusting.{landing, met, IsEnd}
use libpqxx.Cursor.Backend.{
  Stride, all, backward_all, by, Backend, fetch, move, adopt_stateless, retrieve, stridestring,
  stateless_cursor_retrieve, obtain_stateless_cursor_size, clamp_end,
}
use libpqxx.Cursor.Following.{Follows}
use libpqxx.Cursor.Running.{
  Request, moves, fetches, track, displacements, perform_all, declared-track,
}
use libpqxx.Cursor.Stateless.{wanted, retrieve-wanted, retrieve_beyond, retrieve_refuses}
use libpqxx.Cursor.Adopting.{adopt_stateless-Follows}
use libpqxx.Encoding.Scanner.{sjis, unknown}
use libpqxx.Encoding.Finder.{is_needle}
use libpqxx.Encoding.Text.{Glyph, jis_pair, jis_ascii, bytes}
use libpqxx.Cursor.{find_query_end, find_query_end-last_useful}

sjis_known : sjis ≢ unknown
sjis_known e = cc

-- A space, a character of two bytes, a semicolon and a space.
abbrev query : List (Glyph sjis)
query =
    jis_ascii b' ' (omega arith)
    ∷ jis_pair 0x83 0x5c (inl (omega arith))
    ∷ jis_ascii b';' (omega arith)
    ∷ jis_ascii b' ' (omega arith)
    ∷ []

find_query_end-last_useful_example : find_query_end sjis (bytes query) ≡ ok 3
unfolding is_needle
find_query_end-last_useful_example = find_query_end-last_useful query sjis_known

-- A backend that keeps the rows in a list, and the place as a number.
abbrev rows : List ℕ
rows = 10 ∷ 20 ∷ 30 ∷ 40 ∷ []

abbrev spot : ℕ → ℕ
spot s = min s 5

abbrev answer : Stride → ℕ → List ℕ × ℕ
answer all s = (drop (spot s) rows, 5)
answer backward_all s = (reverse (take (spot s - 1) rows), 0)
answer (by z) s = (met rows z (spot s), landing 4 z (spot s))

spot-by :
    (z : ℤ) (s : ℕ)
    → z ≢ pos 0
    → ((answer (by z) s).0 ≡ met rows z (spot s))
      × (spot (answer (by z) s).1 ≡ landing 4 z (spot s))
spot-by (pos k) s h = (refl, omega arith)
spot-by (negsuc k) s h = (refl, omega arith)

abbrev in_memory : Backend ℕ
in_memory = record {
  State = ℕ;
  table = rows;
  place = spot;
  fetch = answer;
  move = λ stride s. (length (answer stride s).0, (answer stride s).1);
  inside = λ s. omega arith;
  fetch_by = spot-by;
  fetch_all = λ s. (refl, omega arith);
  fetch_backward_all = λ s. (refl, omega arith);
  move_counts = λ stride s. (refl, refl);
}

abbrev some_calls : List Request
some_calls = moves (pos 2) ∷ fetches (pos 9) ∷ fetches (negsuc 1) ∷ moves (pos 0) ∷ []

declared-track_example :
    (s' : ℕ) × (c' : SqlCursor) × (perform_all in_memory some_calls declared 0
      ≡ (ok (displacements 4 some_calls 0), (c', s')))
    × (c'.position ≡ pos (track 4 some_calls 0))
    × IsEnd 4 c'.endpos
declared-track_example = declared-track in_memory some_calls 0 (omega arith) refl

after_the_calls : track 4 some_calls 0 ≡ 3
after_the_calls = refl

fresh : Follows in_memory declared 0
unfolding declared
fresh = (unknown_pos, inl refl, refl)

retrieve-wanted_example :
    (s' : ℕ) × (c' : SqlCursor) × (retrieve in_memory (pos 3) (pos 1) declared 0
      ≡ (ok (wanted rows 3 (pos 1)), (c', s')))
    × Follows in_memory c' s'
retrieve-wanted_example =
    retrieve-wanted in_memory 3 (pos 1) declared 0 (omega arith) fresh (omega arith)

two_rows_down : wanted rows 3 (pos 1) ≡ 40 ∷ 30 ∷ []
two_rows_down = refl

retrieve_beyond_example :
    (s' : ℕ) × (c' : SqlCursor) × (retrieve in_memory (pos 4) (pos 1) declared 0
      ≡ (ok (reverse (drop 1 rows)), (c', s')))
    × Follows in_memory c' s'
retrieve_beyond_example = retrieve_beyond in_memory 1 declared 0 (omega arith) fresh (omega arith)

-- The row with number 1 is among them.
one_row_too_many : (retrieve in_memory (pos 4) (pos 1) declared 0).0 ≡ ok (40 ∷ 30 ∷ 20 ∷ [])
unfolding retrieve obtain_stateless_cursor_size stateless_cursor_retrieve clamp_end move fetch
    stridestring adjust settle fell_short declared ◌+ℤ◌ ◌-ℤ◌
one_row_too_many = refl

row_five_refused : (retrieve in_memory (pos 5) (pos 0) declared 0).0 ≡ err range_error
row_five_refused = retrieve_refuses in_memory (pos 5) (pos 0) declared 0 (omega arith) fresh refl

adopt_stateless-Follows_example :
    (s' : ℕ) × (c' : SqlCursor) × (r : ℕ × ℤ) × (adopt_stateless in_memory 3 ≡ (ok r, (c', s')))
    × (spot s' ≡ 0)
    × Follows in_memory c' s'
adopt_stateless-Follows_example = adopt_stateless-Follows in_memory 3 (omega arith)
