-- ===== src/Composite/Buffer.antt =====
-- A buffer and the position in it: what `buf[pos++] = x` does, and what a run of such writes leaves.
use libpqxx.Prelude.{
  ℕ, suc, ◌+◌, ◌-◌, ◌≤◌, ◌<◌, ◌≡◌, refl, ap, ◌∙◌, true, false, Bytes, set, length, length-append,
  [], ◌∷◌, ◌++◌, append-nil, append_assoc, take, drop, take-append-drop, length-take, length-drop,
  ltb, if◌then◌else◌, arith, Result, ok, err, out_of_bounds, ◌>>=◌, Result-cases, inl, inr,
}

-- The buffer's bytes, and `pos`.
abbrev pub Written : Type 0
Written = Bytes × ℕ

unfoldable pub put : Bytes → ℕ → ℕ → Result Bytes
put buf pos x = if ltb pos (length buf) then ok (set buf pos x) else err out_of_bounds

-- `buf[pos++] = x` for each of the bytes.
unfoldable pub write_all : Bytes → Bytes → ℕ → Result Written
unfolding put
write_all [] buf pos = ok (buf, pos)
write_all (x ∷ xs) buf pos = put buf pos x >>= λ next. write_all xs next (pos + 1)

set-append :
    (out : Bytes) (y x : ℕ) (rest : Bytes) → set (out ++ y ∷ rest) (length out) x ≡ out ++ x ∷ rest
set-append [] y x rest = refl
set-append (z ∷ out) y x rest = ap (λ (t : Bytes). z ∷ t) (set-append out y x rest)

put-append :
    (out : Bytes) (y x : ℕ) (rest : Bytes)
    → put (out ++ y ∷ rest) (length out) x ≡ ok (out ++ x ∷ rest)
unfolding put
put-append out y x rest =
    let size : length (out ++ y ∷ rest) ≡ length out + suc (length rest) =
      length-append out (y ∷ rest) in
    let inside : ltb (length out) (length (out ++ y ∷ rest)) ≡ true = ground arith in
    rw (inside, set-append out y x rest) refl

put-past : (out : Bytes) (x : ℕ) → put out (length out) x ≡ err out_of_bounds
unfolding put
put-past out x = let past : ltb (length out) (length out) ≡ false = ground arith in rw past refl

write_all-put :
    (x : ℕ) (xs buf next : Bytes) (pos : ℕ)
    → put buf pos x ≡ ok next
    → write_all (x ∷ xs) buf pos ≡ write_all xs next (pos + 1)
unfolding write_all
write_all-put x xs buf next pos h = rw h refl

pub write_all-append :
    (xs ys buf : Bytes) (pos : ℕ)
    → write_all (xs ++ ys) buf pos
      ≡ (write_all xs buf pos >>= λ (w : Written). write_all ys w.0 w.1)
unfolding write_all
write_all-append [] ys buf pos = refl
write_all-append (x ∷ xs) ys buf pos = elim (Result-cases (put buf pos x)) [
  | inl (next, e) ↦ rw e (write_all-append xs ys next (pos + 1))
  | inr (thrown, e) ↦ rw e refl
]

-- The bytes take the place of as many of those that stood behind the position.
pub write_all-fits :
    (xs out gap rest : Bytes)
    → length gap ≡ length xs
    → write_all xs (out ++ (gap ++ rest)) (length out)
      ≡ ok ((out ++ xs) ++ rest, length (out ++ xs))
write_all-fits [] out [] rest h = unfold write_all in rw append-nil refl
write_all-fits [] out (y ∷ gap) rest h = absurd (omega arith)
write_all-fits (x ∷ xs) out [] rest h = absurd (omega arith)
write_all-fits (x ∷ xs) out (y ∷ gap) rest h =
    let out' = out ++ x ∷ [] in
    let size : length out' ≡ length out + 1 = length-append out (x ∷ []) in
    let next : out ++ x ∷ (gap ++ rest) ≡ out' ++ (gap ++ rest) = simp append_assoc in
    let joined : out' ++ xs ≡ out ++ x ∷ xs = simp append_assoc in
    write_all-put x xs (out ++ y ∷ (gap ++ rest)) (out ++ x ∷ (gap ++ rest)) (length out)
      (put-append out y x (gap ++ rest))
    ∙ rw (next, ← size, ← joined) (write_all-fits xs out' gap rest (omega arith))

pub write_all-past :
    (xs out rest : Bytes)
    → length rest < length xs
    → write_all xs (out ++ rest) (length out) ≡ err out_of_bounds
write_all-past [] out rest h = absurd (omega arith)
write_all-past (x ∷ xs) out [] h = unfold write_all in rw (append-nil out, put-past out x) refl
write_all-past (x ∷ xs) out (y ∷ rest) h =
    let out' = out ++ x ∷ [] in
    let size : length out' ≡ length out + 1 = length-append out (x ∷ []) in
    let next : out ++ x ∷ rest ≡ out' ++ rest = simp append_assoc in
    write_all-put x xs (out ++ y ∷ rest) (out ++ x ∷ rest) (length out) (put-append out y x rest)
    ∙ rw (next, ← size) (write_all-past xs out' rest (omega arith))

-- What a call wrote at the end of `out`, and that the buffer kept its size.
abbrev pub Wrote : Result Written → Bytes → Bytes → Bytes → Type 0
Wrote result out rest text =
    (behind : Bytes) × (result ≡ ok ((out ++ text) ++ behind, length (out ++ text)))
    × (length text + length behind ≡ length rest)

-- One call behind another.
pub Wrote-then :
    (call : Result Written) (later : Written → Result Written) (out rest xs ys : Bytes)
    → Wrote call out rest xs
    → ((behind : Bytes)
        → length xs + length behind ≡ length rest
        → Wrote (later ((out ++ xs) ++ behind, length (out ++ xs))) (out ++ xs) behind ys)
    → Wrote (call >>= later) out rest (xs ++ ys)
Wrote-then call later out rest xs ys (behind, e, size) next =
    let (behind', e', size') = next behind size in
    let joined : (out ++ xs) ++ ys ≡ out ++ (xs ++ ys) = append_assoc out xs ys in
    let total : length (xs ++ ys) ≡ length xs + length ys = length-append xs ys in
    (behind', rw e (rw joined at e'), omega arith)

pub write_all-Wrote :
    (xs out rest : Bytes)
    → length xs ≤ length rest
    → Wrote (write_all xs (out ++ rest) (length out)) out rest xs
write_all-Wrote xs out rest h =
    let gap = take (length xs) rest in
    let behind = drop (length xs) rest in
    let size : length gap ≡ length xs = let a = length-take (length xs) rest in omega arith in
    let left : length behind ≡ length rest - length xs = length-drop (length xs) rest in
    let whole : gap ++ behind ≡ rest = take-append-drop (length xs) rest in
    (behind, rw whole at (write_all-fits xs out gap behind size), omega arith)
