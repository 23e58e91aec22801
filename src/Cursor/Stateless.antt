-- ===== src/Cursor/Stateless.antt =====
-- The rows that `retrieve` of a stateless cursor returns (src/cursor.cxx).
use libpqxx.Prelude.{
  ℕ, suc, ◌+◌, ◌-◌, ◌≤◌, ◌<◌, ◌≡◌, ap, ◌∙◌, inl, inr, true, false, ◌||◌, Bool-cases, ltb, leb,
  if◌then◌else◌, arith, List, [], length, length-take, length-reverse, length-drop, take-all,
  take-reverse, drop, take, reverse, min, ok, err, range_error,
}
use libpqxx.Prelude.Int.{ℤ, pos, negsuc, pos_part, neg_part, ◌+ℤ◌, ◌-ℤ◌, ltb_ℤ, int_laws, +ℤ_parts}
use libpqxx.Cursor.Movement.{SqlCursor, eq_ℤ}
use libpqxx.Cursor.Backend.{Backend, clamp_end, stateless_cursor_retrieve, retrieve}
use libpqxx.Cursor.Following.{IsSmall, Follows}
use libpqxx.Cursor.Retrieving.{
  take-min, clamp-above, clamp-within, clamp-below, pos-ne, size-Follows, move_and_fetch,
}

-- The existing rows from `begin` on, up to but not with `end`, in the direction from one to the
-- other.
abbrev pub wanted {ℓ} : {A : Type ℓ} → List A → ℕ → ℤ → List A
wanted table begin (pos end) =
    if leb begin end
    then take (end - begin) (drop begin table)
    else reverse (drop (suc end) (take (suc begin) table))
wanted table begin (negsuc end) = reverse (take (suc begin) table)

module _ {Row : Type 0} (b : Backend Row) where
  -- A fetch forwards from row `q`.
  retrieve_ascending :
      (q e : ℕ) (end : ℤ) (c : SqlCursor) (s : b.State)
      → IsSmall b
      → Follows b c s
      → q < e
      → e ≤ length b.table
      → clamp_end (pos (length b.table)) end ≡ pos e
      → (s' : b.State) × (c' : SqlCursor) × (stateless_cursor_retrieve b
            (pos (length b.table))
            (pos q)
            end
            c
            s
          ≡ (ok (take (e - q) (drop q b.table)), (c', s')))
        × Follows b c' s'
  unfolding stateless_cursor_retrieve
  retrieve_ascending q e end c s small f less within clamped =
      let n = length b.table in
      let forward : ltb_ℤ (pos q) (pos e) ≡ true = ground arith in
      let inside : (ltb_ℤ (pos q) (pos 0) || ltb_ℤ (pos n) (pos q)) ≡ false = ground arith in
      let different : eq_ℤ (pos q) (pos e) ≡ false = ground arith in
      let spot : min q (suc n) ≡ q = omega arith in
      let rows : pos e -ℤ pos q ≡ pos (e - q) = omega int_laws in
      let (_, _, here) = f in
      let place = ap (λ (c0 : SqlCursor). c0.position) here in
      let hop : pos q -ℤ pos 1 -ℤ (c.position -ℤ pos 1) ≡ pos q -ℤ pos (b.place s) =
        rw place (omega int_laws) in
      let (s', c', out, f') =
        move_and_fetch b q (pos q -ℤ pos 1 -ℤ (c.position -ℤ pos 1)) (pos (e - q)) c s small f hop
          (λ (h : pos (e - q) ≡ pos 0). pos-ne (omega arith) h) in
      (s', c', rw (clamped, forward, inside, different, rows, out, spot), f')

  -- A fetch backwards from row `q`, to an end that is `suc k` below it.
  retrieve_descending :
      (q k : ℕ) (end below : ℤ) (c : SqlCursor) (s : b.State)
      → IsSmall b
      → Follows b c s
      → q ≤ length b.table
      → clamp_end (pos (length b.table)) end ≡ below
      → below +ℤ pos (suc k) ≡ pos q
      → (s' : b.State) × (c' : SqlCursor) × (stateless_cursor_retrieve b
            (pos (length b.table))
            (pos q)
            end
            c
            s
          ≡ (ok (take (suc k) (reverse (take (suc q) b.table))), (c', s')))
        × Follows b c' s'
  unfolding stateless_cursor_retrieve
  retrieve_descending q k end below c s small f within clamped under =
      let n = length b.table in
      let parts = +ℤ_parts below (pos (suc k)) in
      let sum = ap (λ (z : ℤ). pos_part z + 0) under in
      let sum' = ap neg_part under in
      let backward : ltb_ℤ (pos q) below ≡ false = ground arith in
      let inside : (ltb_ℤ (pos q) (pos 0) || ltb_ℤ (pos n) (pos q)) ≡ false = ground arith in
      let different : eq_ℤ (pos q) below ≡ false = ground arith in
      let rows : below -ℤ pos q ≡ negsuc k = omega int_laws in
      let (_, _, here) = f in
      let place = ap (λ (c0 : SqlCursor). c0.position) here in
      let hop : pos q -ℤ negsuc 0 -ℤ (c.position -ℤ pos 1) ≡ pos (q + 2) -ℤ pos (b.place s) =
        rw place (omega int_laws) in
      let (s', c', out, f') =
        move_and_fetch b (q + 2) (pos q -ℤ negsuc 0 -ℤ (c.position -ℤ pos 1)) (negsuc k) c s small f
          hop (λ (h : negsuc k ≡ pos 0). cc h) in
      let spot : min (q + 2) (suc n) - 1 ≡ min (suc q) n = omega arith in
      let part : take (min (suc q) n) b.table ≡ take (suc q) b.table = take-min (suc q) b.table in
      (s', c', rw (clamped, backward, inside, different, rows, out, spot, part), f')

  retrieve_nothing :
      (q : ℕ) (c : SqlCursor) (s : b.State)
      → q ≤ length b.table
      → stateless_cursor_retrieve b (pos (length b.table)) (pos q) (pos q) c s ≡ (ok [], (c, s))
  unfolding stateless_cursor_retrieve clamp_end
  retrieve_nothing q c s h =
      let inside : (ltb_ℤ (pos q) (pos 0) || ltb_ℤ (pos (length b.table)) (pos q)) ≡ false =
        ground arith in
      let low : ltb_ℤ (pos q) (negsuc 0) ≡ false = ground arith in
      let high : ltb_ℤ (pos (length b.table)) (pos q) ≡ false = ground arith in
      let same : eq_ℤ (pos q) (pos q) ≡ true = ground arith in rw (inside, low, high, same)

  -- What `retrieve` returns behind `size`.
  abbrev Retrieves : ℕ → ℤ → List Row → SqlCursor → b.State → Type 0
  Retrieves begin end rows c s =
      (s' : b.State) × (c' : SqlCursor) × (stateless_cursor_retrieve b (pos (length b.table))
          (pos begin) end c s
        ≡ (ok rows, (c', s')))
      × Follows b c' s'

  retrieve_up :
      (begin e : ℕ) (c : SqlCursor) (s : b.State)
      → IsSmall b
      → Follows b c s
      → begin < e
      → begin < length b.table
      → Retrieves begin (pos e) (take (e - begin) (drop begin b.table)) c s
  retrieve_up begin e c s small f less valid =
      let n = length b.table in
      let (s', c', out, f') =
        retrieve_ascending begin (min e n) (pos e) c s small f (omega arith) (omega arith)
          (clamp-above n e) in
      let clipped : min e n - begin ≡ min (e - begin) (length (drop begin b.table)) =
        let l = length-drop begin b.table in omega arith in
      let same : take (min e n - begin) (drop begin b.table)
          ≡ take (e - begin) (drop begin b.table) =
        rw clipped (take-min (e - begin) (drop begin b.table)) in
      (s', c', out ∙ ap (λ (rows : List Row). (ok rows, (c', s'))) same, f')

  retrieve_down :
      (begin e : ℕ) (c : SqlCursor) (s : b.State)
      → IsSmall b
      → Follows b c s
      → e < begin
      → begin < length b.table
      → Retrieves begin (pos e) (reverse (drop (suc e) (take (suc begin) b.table))) c s
  retrieve_down begin e c s small f less valid =
      let k = begin - suc e in
      let part = take (suc begin) b.table in
      let (s', c', out, f') =
        retrieve_descending begin k (pos e) (pos e) c s small f (omega arith)
          (clamp-within (length b.table) e (omega arith)) (omega int_laws) in
      let size : length part ≡ suc begin = let l = length-take (suc begin) b.table in omega arith in
      let from : length part - suc k ≡ suc e = omega arith in
      let same : take (suc k) (reverse part) ≡ reverse (drop (suc e) part) =
        take-reverse (suc k) part (omega arith) ∙ ap (λ (m : ℕ). reverse (drop m part)) from in
      (s', c', out ∙ ap (λ (rows : List Row). (ok rows, (c', s'))) same, f')

  retrieve_to_start :
      (begin j : ℕ) (c : SqlCursor) (s : b.State)
      → IsSmall b
      → Follows b c s
      → begin < length b.table
      → Retrieves begin (negsuc j) (reverse (take (suc begin) b.table)) c s
  retrieve_to_start begin j c s small f valid =
      let part = take (suc begin) b.table in
      let (s', c', out, f') =
        retrieve_descending begin begin (negsuc j) (negsuc 0) c s small f (omega arith)
          (clamp-below (length b.table) j) (omega int_laws) in
      let size : length (reverse part) ≤ suc begin =
        let l = length-take (suc begin) b.table in let r = length-reverse part in omega arith in
      let same = take-all (suc begin) (reverse part) size in
      (s', c', out ∙ ap (λ (rows : List Row). (ok rows, (c', s'))) same, f')

  retrieve_any :
      (begin : ℕ) (end : ℤ) (c : SqlCursor) (s : b.State)
      → IsSmall b
      → Follows b c s
      → begin < length b.table
      → Retrieves begin end (wanted b.table begin end) c s
  retrieve_any begin (negsuc j) c s small f valid = retrieve_to_start begin j c s small f valid
  retrieve_any begin (pos e) c s small f valid = elim (Bool-cases (ltb begin e)) [
    | inl less ↦
        let low : begin < e = ground arith in
        let before : leb begin e ≡ true = ground arith in
        rw before (retrieve_up begin e c s small f low valid)
    | inr more ↦ elim (Bool-cases (ltb e begin)) [
      | inl above ↦
          let high : e < begin = ground arith in
          let behind : leb begin e ≡ false = ground arith in
          rw behind (retrieve_down begin e c s small f high valid)
      | inr level ↦
          let same : e ≡ begin = ground arith in
          let before : leb begin begin ≡ true = ground arith in
          let no_rows : begin - begin ≡ 0 = omega arith in
          rw (same, before, no_rows) (s, c, retrieve_nothing begin c s (omega arith), f)
    ]
  ]

  -- `retrieve` from a valid row number returns the existing rows from it up to the end, without the
  -- end itself, in ascending order to a greater end and in descending order to a smaller one, for any
  -- end inside or outside the table; it never throws, wherever the cursor stands and whether or not
  -- it knows its end, and the cursor follows the backend's still.
  pub retrieve-wanted :
      (begin : ℕ) (end : ℤ) (c : SqlCursor) (s : b.State)
      → IsSmall b
      → Follows b c s
      → begin < length b.table
      → (s' : b.State) × (c' : SqlCursor) × (retrieve b (pos begin) end c s
          ≡ (ok (wanted b.table begin end), (c', s')))
        × Follows b c' s'
  unfolding retrieve
  retrieve-wanted begin end c s small f valid =
      let (s1, c1, size, f1) = size-Follows b c s small f in
      let (s2, c2, out, f2) = retrieve_any begin end c1 s1 small f1 valid in
      (s2, c2, rw (size, out), f2)

  -- From the row number one beyond the last, which the documentation allows, to a smaller one,
  -- `retrieve` returns the row with the number of the end too, which should stay out.
  pub retrieve_beyond :
      (e : ℕ) (c : SqlCursor) (s : b.State)
      → IsSmall b
      → Follows b c s
      → e < length b.table
      → (s' : b.State) × (c' : SqlCursor) × (retrieve b (pos (length b.table)) (pos e) c s
          ≡ (ok (reverse (drop e b.table)), (c', s')))
        × Follows b c' s'
  unfolding retrieve
  retrieve_beyond e c s small f less =
      let n = length b.table in
      let k = n - suc e in
      let (s1, c1, size, f1) = size-Follows b c s small f in
      let (s2, c2, out, f2) =
        retrieve_descending n k (pos e) (pos e) c1 s1 small f1 (omega arith)
          (clamp-within n e (omega arith)) (omega int_laws) in
      let whole : take (suc n) b.table ≡ b.table = take-all (suc n) b.table (omega arith) in
      let from : n - suc k ≡ e = omega arith in
      let same : take (suc k) (reverse b.table) ≡ reverse (drop e b.table) =
        take-reverse (suc k) b.table (omega arith)
        ∙ ap (λ (m : ℕ). reverse (drop m b.table)) from in
      let rows = ap (λ (l : List Row). take (suc k) (reverse l)) whole ∙ same in
      let out' = out ∙ ap (λ (l : List Row). (ok l, (c2, s2))) rows in (s2, c2, rw (size, out'), f2)

  -- A row number that is negative or more than one beyond the last is refused with range_error.
  pub retrieve_refuses :
      (begin end : ℤ) (c : SqlCursor) (s : b.State)
      → IsSmall b
      → Follows b c s
      → (ltb_ℤ begin (pos 0) || ltb_ℤ (pos (length b.table)) begin) ≡ true
      → (retrieve b begin end c s).0 ≡ err range_error
  unfolding retrieve stateless_cursor_retrieve
  retrieve_refuses begin end c s small f outside =
      let (s1, c1, size, f1) = size-Follows b c s small f in rw (size, outside)
