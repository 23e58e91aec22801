-- ===== src/Cursor/Adjusting.antt =====
-- `adjust` follows the position of the backend's cursor.
use libpqxx.Prelude.{
  ℕ, zero, suc, ◌+◌, ◌-◌, ◌≤◌, ◌<◌, ◌≡◌, refl, sym, ap, ◌∙◌, ◌⊎◌, inl, inr, true, false, ltb, ◌==◌,
  if◌then◌else◌, arith, ok, Bool-cases, List, length, length-take, length-drop, length-reverse,
  take, drop, reverse, min, ◌≢◌,
}
use libpqxx.Prelude.Int.{ℤ, pos, negsuc, ◌+ℤ◌, ◌-ℤ◌, int_laws}
use libpqxx.Cursor.Movement.{
  End, before_start, in_middle, past_end, SqlCursor, unknown_pos, settle, fell_short, adjust,
}

-- Where a cursor over `n` rows stands: at 0 before the first row, at `n + 1` past the last one.
abbrev pub end_at : ℕ → ℕ → End
end_at n p = if p == 0 then before_start else if p == suc n then past_end else in_middle

-- The end is unknown, or known.
abbrev pub IsEnd : ℕ → ℤ → Type 0
IsEnd n e = (e ≡ unknown_pos) ⊎ (e ≡ pos (suc n))

-- A cursor that knows where it stands.
abbrev pub at : ℕ → ℕ → ℤ → SqlCursor
at n p e = record { at_end = end_at n p; position = pos p; endpos = e }

-- As many rows as were asked for, or fewer.
pub adjust-fell_short :
    (k m : ℕ) (c : SqlCursor)
    → m < suc k
    → (adjust (pos (suc k)) (pos m) c ≡ fell_short past_end (pos m) c)
      × (adjust (negsuc k) (pos m) c ≡ fell_short before_start (pos m) c)
unfolding adjust
adjust-fell_short k m c h = (ground arith, ground arith)

adjust-settle :
    (k : ℕ) (c : SqlCursor)
    → (adjust (pos (suc k)) (pos (suc k)) c
        ≡ settle false past_end (pos (suc k)) (record c { at_end = in_middle }))
      × (adjust (negsuc k) (pos (suc k)) c
          ≡ settle false before_start (pos (suc k)) (record c { at_end = in_middle }))
unfolding adjust
adjust-settle k c = (ground arith, ground arith)

settle-forward :
    (p a : ℕ) (x : End) (e : ℤ)
    → settle false past_end (pos a) (record { at_end = x; position = pos p; endpos = e })
      ≡ (ok (pos a), record { at_end = x; position = pos (p + a); endpos = e })
unfolding settle ◌+ℤ◌
settle-forward p a x e = ground arith

pub settle-backward :
    (p a : ℕ) (x : End) (e : ℤ)
    → a ≤ p
    → settle false before_start (pos a) (record { at_end = x; position = pos p; endpos = e })
      ≡ (ok (pos 0 -ℤ pos a), record { at_end = x; position = pos (p - a); endpos = e })
unfolding settle ◌+ℤ◌ ◌-ℤ◌
settle-backward p a x e h = ground arith

settle-end :
    (n p a : ℕ) (x : End) (e : ℤ)
    → IsEnd n e
    → p + a ≡ suc n
    → settle true past_end (pos a) (record { at_end = x; position = pos p; endpos = e })
      ≡ (ok (pos a), record { at_end = x; position = pos (suc n); endpos = pos (suc n) })
unfolding settle ◌+ℤ◌
settle-end n p a x e (inl known) h = rw known (ground arith)
settle-end n p a x e (inr known) h = rw known (ground arith)

fell_short-forward :
    (n p : ℕ) (e : ℤ)
    → p ≤ suc n
    → fell_short past_end (pos (n - p)) (at n p e)
      ≡ settle true past_end
          (pos (suc n - p))
          (record { at_end = past_end; position = pos p; endpos = e })
unfolding fell_short ◌+ℤ◌
fell_short-forward n p e h = ground arith

fell_short-backward :
    (n p : ℕ) (e : ℤ)
    → p ≤ suc n
    → fell_short before_start (pos (p - 1)) (at n p e)
      ≡ settle false before_start
          (pos p)
          (record { at_end = before_start; position = pos p; endpos = e })
unfolding fell_short ◌+ℤ◌
fell_short-backward n p e h = ground arith

-- Where the backend's cursor comes to stand by a move of `hoped` rows, and the rows that it meets on
-- the way: at most as many as there are on that side, the row that it stands on not among them.
abbrev pub landing : ℕ → ℤ → ℕ → ℕ
landing n (pos k) p = min (p + k) (suc n)
landing n (negsuc k) p = p - suc k

abbrev pub met {ℓ} : {A : Type ℓ} → List A → ℤ → ℕ → List A
met table (pos k) p = take k (drop p table)
met table (negsuc k) p = take (suc k) (reverse (take (p - 1) table))

-- What is known of the end behind a move.
abbrev pub end_after : ℕ → ℤ → ℕ → ℤ → ℤ
end_after n (pos k) p e = if ltb n (k + p) then pos (suc n) else e
end_after n (negsuc k) p e = e

middle : (n p : ℕ) → 0 < p → p ≤ n → end_at n p ≡ in_middle
middle n p h k = ground arith

past : (n : ℕ) → end_at n (suc n) ≡ past_end
past n = ground arith

module _ (n p : ℕ) (e : ℤ) (inside : p ≤ suc n) where
  adjust_forward_full :
      (k : ℕ)
      → suc k + p ≤ n
      → adjust (pos (suc k)) (pos (suc k)) (at n p e) ≡ (ok (pos (suc k)), at n (p + suc k) e)
  adjust_forward_full k h =
      (adjust-settle k (at n p e)).0
      ∙ (settle-forward p (suc k) in_middle e
          ∙ ap
              (λ (x : End).
                (ok (pos (suc k)), record { at_end = x; position = pos (p + suc k); endpos = e }))
              (sym (middle n (p + suc k) (omega arith) (omega arith))))

  adjust_forward_short :
      (k : ℕ)
      → IsEnd n e
      → n < suc k + p
      → adjust (pos (suc k)) (pos (n - p)) (at n p e)
        ≡ (ok (pos (suc n - p)), at n (suc n) (pos (suc n)))
  adjust_forward_short k known h =
      (adjust-fell_short k (n - p) (at n p e) (omega arith)).0
      ∙ (fell_short-forward n p e inside
          ∙ (settle-end n p (suc n - p) past_end e known (omega arith)
              ∙ ap
                  (λ (x : End). (
                    ok (pos (suc n - p)),
                    record { at_end = x; position = pos (suc n); endpos = pos (suc n) },
                  ))
                  (sym (past n))))

  adjust_backward_full :
      (k : ℕ)
      → suc k < p
      → adjust (negsuc k) (pos (suc k)) (at n p e) ≡ (ok (pos 0 -ℤ pos (suc k)), at n (p - suc k) e)
  adjust_backward_full k h =
      (adjust-settle k (at n p e)).1
      ∙ (settle-backward p (suc k) in_middle e (omega arith)
          ∙ ap
              (λ (x : End). (
                ok (pos 0 -ℤ pos (suc k)),
                record { at_end = x; position = pos (p - suc k); endpos = e },
              ))
              (sym (middle n (p - suc k) (omega arith) (omega arith))))

  adjust_backward_short :
      (k : ℕ)
      → p ≤ suc k
      → adjust (negsuc k) (pos (p - 1)) (at n p e) ≡ (ok (pos 0 -ℤ pos p), at n 0 e)
  adjust_backward_short k h =
      let home : p - p ≡ 0 = omega arith in
      (adjust-fell_short k (p - 1) (at n p e) (omega arith)).1
      ∙ (fell_short-backward n p e inside
          ∙ (settle-backward p p before_start e (omega arith)
              ∙ ap
                  (λ (m : ℕ). (
                    ok (pos 0 -ℤ pos p),
                    record { at_end = before_start; position = pos m; endpos = e },
                  ))
                  home))

module _ {ℓ} {A : Type ℓ} where
  length-met_forward :
      (table : List A) (k p : ℕ) → length (met table (pos k) p) ≡ min k (length table - p)
  length-met_forward table k p =
      let behind = length-drop p table in rw (length-take k (drop p table), behind)

  length-met_backward :
      (table : List A) (k p : ℕ)
      → p ≤ suc (length table)
      → length (met table (negsuc k) p) ≡ min (suc k) (p - 1)
  length-met_backward table k p inside =
      let least : min (p - 1) (length table) ≡ p - 1 = omega arith in
      rw (
        length-take (suc k) (reverse (take (p - 1) table)),
        length-reverse (take (p - 1) table),
        length-take (p - 1) table,
        least,
      )

  -- `adjust` with the number of rows that the backend met: it returns the displacement, and the
  -- cursor knows where the backend's cursor stands now.
  pub adjust-landing :
      (table : List A) (hoped : ℤ) (p : ℕ) (e : ℤ)
      → let n : ℕ = length table in
        p ≤ suc n
        → IsEnd n e
        → hoped ≢ pos 0
        → adjust hoped (pos (length (met table hoped p))) (at n p e) ≡ (
          ok (pos (landing n hoped p) -ℤ pos p),
          at n (landing n hoped p) (end_after n hoped p e),
        )
  adjust-landing table (pos zero) p e inside known moves = absurd (moves refl)
  adjust-landing table (pos (suc k)) p e inside known moves =
      let n = length table in
      let size = length-met_forward table (suc k) p in
      elim (Bool-cases (ltb n (suc k + p))) [
        | inl short ↦
            let fewer : min (suc k) (n - p) ≡ n - p = ground arith in
            let there : min (p + suc k) (suc n) ≡ suc n = ground arith in
            let moved : pos (suc n) -ℤ pos p ≡ pos (suc n - p) = omega int_laws in
            rw (size, fewer, there, short, moved)
              (adjust_forward_short n p e inside k known (ground arith))
        | inr full ↦
            let all_of_them : min (suc k) (n - p) ≡ suc k = ground arith in
            let there : min (p + suc k) (suc n) ≡ p + suc k = ground arith in
            let moved : pos (p + suc k) -ℤ pos p ≡ pos (suc k) = omega int_laws in
            rw (size, all_of_them, there, full, moved)
              (adjust_forward_full n p e inside k (ground arith))
      ]
  adjust-landing table (negsuc k) p e inside known moves =
      let n = length table in
      let size = length-met_backward table k p inside in
      elim (Bool-cases (ltb (suc k) p)) [
        | inl full ↦
            let all_of_them : min (suc k) (p - 1) ≡ suc k = ground arith in
            let moved : pos (p - suc k) -ℤ pos p ≡ pos 0 -ℤ pos (suc k) =
              let within : suc k < p = ground arith in omega int_laws in
            rw (size, all_of_them, moved) (adjust_backward_full n p e inside k (ground arith))
        | inr short ↦
            let within : p ≤ suc k = ground arith in
            let fewer : min (suc k) (p - 1) ≡ p - 1 = omega arith in
            let there : p - suc k ≡ 0 = omega arith in
            rw (size, fewer, there) (adjust_backward_short n p e inside k within)
      ]
