-- ===== src/Array/RowMajor.antt =====
-- Row-major order: the place of an index, and that it is the index's own.
use libpqxx.Prelude.{
  ℕ, suc, ◌+◌, ◌*◌, ◌≤◌, ◌<◌, ◌≡◌, refl, sym, inl, inr, List, [], ◌∷◌, leb, arith, Bool-cases,
}
use native.Mathlib.Nat.{mul-le-mul_right}
use libpqxx.Prelude.Int.{ℤ, pos}

abbrev pub product : List ℕ → ℕ
product [] = 1
product (e ∷ es) = e * product es

-- An index has as many numbers as there are dimensions, each smaller than the extent.
abbrev pub InBounds : List ℕ → List ℕ → Type 0
InBounds [] [] = Unit {0}
InBounds [] (i ∷ is) = ⊥
InBounds (e ∷ es) [] = ⊥
InBounds (e ∷ es) (i ∷ is) = (i < e) × InBounds es is

-- The place of an index: the number of elements that stand before it.
abbrev pub row_major : List ℕ → List ℕ → ℕ
row_major [] is = 0
row_major (e ∷ es) [] = 0
row_major (e ∷ es) (i ∷ is) = i * product es + row_major es is

abbrev pub signed : List ℕ → List ℤ
signed [] = []
signed (i ∷ is) = pos i ∷ signed is

pub row_major-lt : (es is : List ℕ) → InBounds es is → row_major es is < product es
row_major-lt [] [] h = omega arith
row_major-lt [] (i ∷ is) h = absurd h
row_major-lt (e ∷ es) [] h = absurd h
row_major-lt (e ∷ es) (i ∷ is) (less, h) =
    let p = product es in
    let rest = row_major-lt es is h in
    let rows : suc i * p ≤ e * p = mul-le-mul_right p less in
    let step : suc i * p ≡ i * p + p = omega arith in omega arith

not_before : (p i j a b : ℕ) → a < p → i * p + a ≡ j * p + b → j ≤ i
not_before p i j a b ha h = elim (Bool-cases (leb j i)) [
  | inl e ↦ ground arith
  | inr e ↦
      let less : suc i ≤ j = ground arith in
      let rows : suc i * p ≤ j * p = mul-le-mul_right p less in
      let step : suc i * p ≡ i * p + p = omega arith in absurd (omega arith)
]

-- A quotient and a remainder are determined by what they make.
same_row : (p i j a b : ℕ) → a < p → b < p → i * p + a ≡ j * p + b → (i ≡ j) × (a ≡ b)
same_row p i j a b ha hb h =
    let down = not_before p i j a b ha h in
    let up = not_before p j i b a hb (sym h) in
    let same : i ≡ j = omega arith in (same, let h' = rw same at h in omega arith)

pub row_major-injective :
    (es is js : List ℕ)
    → InBounds es is
    → InBounds es js
    → row_major es is ≡ row_major es js
    → is ≡ js
row_major-injective [] [] [] h k e = refl
row_major-injective [] [] (j ∷ js) h k e = absurd k
row_major-injective [] (i ∷ is) js h k e = absurd h
row_major-injective (m ∷ es) [] js h k e = absurd h
row_major-injective (m ∷ es) (i ∷ is) [] h k e = absurd k
row_major-injective (m ∷ es) (i ∷ is) (j ∷ js) (hi, h) (kj, k) e =
    let (first, rest) =
      same_row (product es) i j (row_major es is) (row_major es js) (row_major-lt es is h)
        (row_major-lt es js k) e in
    rw (first, row_major-injective es is js h k rest)
