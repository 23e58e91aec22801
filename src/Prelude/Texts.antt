-- ===== src/Prelude/Texts.antt =====
-- Texts as lists of bytes, and what `std::string_view` does with positions.
use Prim.Native.Nat.{ℕ, suc, ◌+◌, ◌-◌}
use Prim.Native.Char.{code}
use Prim.Native.String.{String}
use mathlib.Core.Path.{◌≡◌, refl, ap}
use mathlib.Core.Bool.{Bool, true, false, ◌&&◌}
use mathlib.Core.List.{List, [], ◌∷◌, ◌++◌, append-nil, append_assoc}
use native.Mathlib.Omega.{arith}
use libpqxx.Prelude.Lists.{length, get_or, take, drop, length-append}
use libpqxx.Prelude.Tests.{◌==◌}

abbrev pub Bytes : Type 0
Bytes = List ℕ

-- The bytes of an ASCII literal.
abbrev pub codes : String → Bytes
codes String.[] = []
codes (String.◌∷◌ c s) = code c ∷ codes s

-- `text[pos]`; the source asserts or tests `pos < size` wherever it reads.
abbrev pub byte_at : Bytes → ℕ → ℕ
byte_at text pos = get_or text pos 0

-- `text.substr(pos, count)` and `text.substr(0, stop)`.
abbrev pub substr : Bytes → ℕ → ℕ → Bytes
substr text pos count = take count (drop pos text)

-- `a == b` on `std::string_view`.
unfoldable pub bytes_eq : Bytes → Bytes → Bool
bytes_eq [] [] = true
bytes_eq [] (y ∷ ys) = false
bytes_eq (x ∷ xs) [] = false
bytes_eq (x ∷ xs) (y ∷ ys) = (x == y) && bytes_eq xs ys

-- Reading behind a prefix.
pub byte_at-append :
    (pre rest : Bytes) (k : ℕ) → byte_at (pre ++ rest) (length pre + k) ≡ byte_at rest k
byte_at-append [] rest k = let e : 0 + k ≡ k = omega arith in rw e
byte_at-append (x ∷ pre) rest k =
    let e : suc (length pre) + k ≡ suc (length pre + k) = omega arith in
    rw e (byte_at-append pre rest k)

pub byte_at-length :
    (pre : Bytes) (x : ℕ) (rest : Bytes) → byte_at (pre ++ x ∷ rest) (length pre) ≡ x
byte_at-length [] x rest = refl
byte_at-length (y ∷ pre) x rest = byte_at-length pre x rest

pub drop-append : (pre rest : Bytes) → drop (length pre) (pre ++ rest) ≡ rest
drop-append [] rest = refl
drop-append (x ∷ pre) rest = drop-append pre rest

pub take-append : (pre rest : Bytes) → take (length pre) (pre ++ rest) ≡ pre
take-append [] rest = refl
take-append (x ∷ pre) rest = ap (λ t. x ∷ t) (take-append pre rest)

-- Regrouping, for texts that are read in pieces.
pub regroup_second : (a b c d e : Bytes) → (a ++ b) ++ ((c ++ d) ++ e) ≡ (a ++ (b ++ c)) ++ (d ++ e)
regroup_second a b c d e = simp append_assoc

pub regroup_first : (a b c d : Bytes) → a ++ ((b ++ c) ++ d) ≡ ((a ++ b) ++ []) ++ (c ++ d)
regroup_first a b c d = simp (append_assoc, append-nil)

pub substr-append : (a b c : Bytes) → substr ((a ++ b) ++ c) (length a) (length b) ≡ b
substr-append a b c = rw (append_assoc a b c, drop-append a (b ++ c)) (take-append b c)

pub regroup_one : (a : Bytes) (x : ℕ) (b : Bytes) → a ++ x ∷ b ≡ ((a ++ x ∷ []) ++ []) ++ b
regroup_one a x b = simp (append_assoc, append-nil)

pub bytes_eq-eq : (a b : Bytes) → bytes_eq a b ≡ true → a ≡ b
unfolding bytes_eq
bytes_eq-eq [] [] h = refl
bytes_eq-eq [] (y ∷ b) h = cc
bytes_eq-eq (x ∷ a) [] h = cc
bytes_eq-eq (x ∷ a) (y ∷ b) h = ground (arith, bytes_eq-eq a b)

pub bytes_eq_refl : (a : Bytes) → bytes_eq a a ≡ true
unfolding bytes_eq
bytes_eq_refl [] = refl
bytes_eq_refl (x ∷ a) = ground (arith, bytes_eq_refl a)

pub take_init : (init : Bytes) (c : ℕ) → take (length (init ++ c ∷ []) - 1) (init ++ c ∷ []) ≡ init
take_init init c =
    let size : length (init ++ c ∷ []) - 1 ≡ length init =
      omega (arith, length-append {0} init (c ∷ [])) in
    rw size (take-append init (c ∷ []))

pub byte_at-last : (q : Bytes) (c : ℕ) → byte_at (q ++ c ∷ []) (length (q ++ c ∷ []) - 1) ≡ c
byte_at-last q c =
    let size : length (q ++ c ∷ []) - 1 ≡ length q = omega (arith, length-append {0} q (c ∷ [])) in
    rw size (byte_at-length q c [])

pub drop-append_plus :
    (pre rest : Bytes) (k : ℕ) → drop (length pre + k) (pre ++ rest) ≡ drop k rest
drop-append_plus [] rest k = let e : 0 + k ≡ k = omega arith in rw e
drop-append_plus (x ∷ pre) rest k =
    let e : suc (length pre) + k ≡ suc (length pre + k) = omega arith in
    rw e (drop-append_plus pre rest k)
