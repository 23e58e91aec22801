-- ===== src/Array/Indexing.antt =====
-- The element that `at` of `pqxx::array` returns.
use libpqxx.Prelude.{
  ℕ, zero, suc, ◌+◌, ◌-◌, ◌*◌, ◌≤◌, ◌<◌, ◌≡◌, refl, sym, ap, ◌∙◌, inl, inr, List, [], ◌∷◌, length,
  length-set, get_or, get_or-set_self, get_or-set_ne, drop-get_or, drop-all, get_elem?, set, leb,
  drop, if◌then◌else◌, arith, ok, err, range_error, some, Bool-cases, true, false, ltb, ◌&&◌, Bool,
}
use native.Mathlib.Nat.{mul_comm}
use libpqxx.Prelude.Int.{ℤ, pos, negsuc}
use libpqxx.Array.Extents.{
  check_cast, factors_loop, init_factors, add_index, check_bounds, Array, at,
}
use libpqxx.Array.RowMajor.{product, InBounds, row_major, signed, row_major-lt, row_major-injective}

-- The loop writes the products of the extents behind each dimension below `dim`, and no others.
factors_loop-product :
    (dim : ℕ) (extents : List ℕ) (factor : ℕ) (factors : List ℕ) (j : ℕ)
    → dim ≤ length factors
    → suc (length factors) ≡ length extents
    → factor ≡ product (drop (suc dim) extents)
    → (j < dim
        → get_or (factors_loop dim extents factor factors) j 0 ≡ product (drop (suc j) extents))
      × (dim ≤ j → get_or (factors_loop dim extents factor factors) j 0 ≡ get_or factors j 0)
unfolding factors_loop
factors_loop-product zero extents factor factors j fits size f =
    (λ h. absurd (omega arith), λ h. refl)
factors_loop-product (suc dim) extents factor factors j fits size f =
    let factor' = factor * get_or extents (suc dim) 0 in
    let next : factor' ≡ product (drop (suc dim) extents) =
      rw (drop-get_or (suc dim) extents 0 (omega arith), f)
        (mul_comm (product (drop (suc (suc dim)) extents)) (get_or extents (suc dim) 0)) in
    let len = length-set factors dim factor' in
    let (below, from) =
      factors_loop-product dim extents factor' (set factors dim factor') j (omega arith)
        (omega arith) next in
    (
      λ h. elim (Bool-cases (leb dim j)) [
        | inl e ↦
            let here : j ≡ dim = ground arith in
            let kept = from (ground arith) in
            let wrote = get_or-set_self factors dim factor' 0 (omega arith) in
            rw here (rw here at kept ∙ (wrote ∙ next))
        | inr e ↦ below (ground arith)
      ],
      λ h. from (omega arith) ∙ get_or-set_ne factors dim j factor' 0 (omega arith),
    )

-- The factor of a dimension is the number of elements in one of its rows.
init_factors-product :
    (extents factors : List ℕ) (j : ℕ)
    → suc (length factors) ≡ length extents
    → j < length factors
    → get_or (init_factors extents factors) j 0 ≡ product (drop (suc j) extents)
unfolding init_factors
init_factors-product extents factors j size h =
    let d : length extents - 1 ≡ length factors = omega arith in
    let none_left : 1 ≡ product (drop (suc (length factors)) extents) =
      sym (ap product (drop-all (suc (length factors)) extents (omega arith))) in
    rw d
      ((factors_loop-product (length factors) extents 1 factors j (omega arith) size none_left).0 h)

drop-suc : (d : ℕ) (xs : List ℕ) {e : ℕ} {es : List ℕ} → drop d xs ≡ e ∷ es → drop (suc d) xs ≡ es
drop-suc zero [] h = cc
drop-suc zero (x ∷ xs) h = cc
drop-suc (suc d) [] h = cc
drop-suc (suc d) (x ∷ xs) h = drop-suc d xs h

drop-get_or_head :
    (d : ℕ) (xs : List ℕ) {e : ℕ} {es : List ℕ} → drop d xs ≡ e ∷ es → get_or xs d 0 ≡ e
drop-get_or_head zero [] h = cc
drop-get_or_head zero (x ∷ xs) h = cc
drop-get_or_head (suc d) [] h = cc
drop-get_or_head (suc d) (x ∷ xs) h = drop-get_or_head d xs h

length-InBounds : (es is : List ℕ) → InBounds es is → length es ≡ length is
length-InBounds [] [] h = refl
length-InBounds [] (i ∷ is) h = absurd h
length-InBounds (e ∷ es) [] h = absurd h
length-InBounds (e ∷ es) (i ∷ is) (less, h) = ap suc (length-InBounds es is h)

length-signed : (is : List ℕ) → length (signed is) ≡ length is
length-signed [] = refl
length-signed (i ∷ is) = ap suc (length-signed is)

-- `add_index` over the last numbers of an index, from dimension `d` on.
add_index-row_major :
    (extents factors es is : List ℕ) (d : ℕ)
    → ((j : ℕ) → suc j < length extents → get_or factors j 0 ≡ product (drop (suc j) extents))
    → drop d extents ≡ es
    → d + length es ≡ length extents
    → InBounds es is
    → add_index (length extents) factors (signed is) ≡ ok (row_major es is)
unfolding add_index check_cast
add_index-row_major extents factors [] [] d known last size h = refl
add_index-row_major extents factors [] (i ∷ is) d known last size h = absurd h
add_index-row_major extents factors (e ∷ es) [] d known last size h = absurd h
add_index-row_major extents factors (e ∷ []) (i ∷ []) d known last size h = ap ok (omega arith)
add_index-row_major extents factors (e ∷ []) (i ∷ j ∷ is) d known last size h = absurd h.1
add_index-row_major extents factors (e ∷ f ∷ es) (i ∷ []) d known last size h = absurd h.1
add_index-row_major extents factors (e ∷ f ∷ es) (i ∷ j ∷ is) d known last size (less, h) =
    let behind = drop-suc d extents last in
    let rest =
      add_index-row_major extents factors (f ∷ es) (j ∷ is) (suc d) known behind (omega arith) h in
    let dims : length extents - (length (signed (j ∷ is)) + 1) ≡ d =
      omega (arith, length-InBounds (f ∷ es) (j ∷ is) h, length-signed (j ∷ is)) in
    let factor : get_or factors d 0 ≡ product (f ∷ es) =
      known d (omega arith) ∙ ap product behind in
    rw (rest, dims, factor)

-- The test that `check_bounds` makes.
abbrev pub in_bounds : List ℕ → List ℤ → Bool
in_bounds [] index = true
in_bounds (e ∷ es) [] = true
in_bounds (e ∷ es) (pos i ∷ index) = ltb i e && in_bounds es index
in_bounds (e ∷ es) (negsuc i ∷ index) = false

check_bounds-in_bounds :
    (extents es : List ℕ) (index : List ℤ) (d : ℕ)
    → drop d extents ≡ es
    → d + length es ≡ length extents
    → length index ≡ length es
    → check_bounds (length extents) extents index
      ≡ (if in_bounds es index then ok tt else err range_error)
unfolding check_bounds check_cast
check_bounds-in_bounds extents [] [] d last size same = refl
check_bounds-in_bounds extents [] (i ∷ index) d last size same = absurd (omega arith)
check_bounds-in_bounds extents (e ∷ es) [] d last size same = absurd (omega arith)
check_bounds-in_bounds extents (e ∷ es) (negsuc i ∷ index) d last size same = refl
check_bounds-in_bounds extents (e ∷ es) (pos i ∷ index) d last size same =
    let dims : length extents - (length index + 1) ≡ d = omega arith in
    let extent : get_or extents d 0 ≡ e = drop-get_or_head d extents last in
    let rest =
      check_bounds-in_bounds extents es index (suc d) (drop-suc d extents last) (omega arith)
        (omega arith) in
    elim (Bool-cases (leb e i)) [
      | inl outside ↦ let no : ltb i e ≡ false = ground arith in rw (dims, extent, outside, no)
      | inr inside ↦ let yes : ltb i e ≡ true = ground arith in rw (dims, extent, inside, yes) rest
    ]

in_bounds-InBounds : (es is : List ℕ) → InBounds es is → in_bounds es (signed is) ≡ true
in_bounds-InBounds [] is h = refl
in_bounds-InBounds (e ∷ es) [] h = absurd h
in_bounds-InBounds (e ∷ es) (i ∷ is) (less, h) =
    let yes : ltb i e ≡ true = ground arith in rw yes (in_bounds-InBounds es is h)

get_elem?-some {ℓ} :
    {A : Type ℓ} (xs : List A) (k : ℕ) → k < length xs → (x : A) × (get_elem? xs k ≡ some x)
get_elem?-some [] k h = absurd (omega arith)
get_elem?-some (x ∷ xs) zero h = (x, refl)
get_elem?-some (x ∷ xs) (suc k) h = get_elem?-some xs k (omega arith)

-- The fields that the constructor leaves: as many elements as the extents say, and the factors that
-- `init_factors` makes of them.
pub record IsConsistent {ℓ} {A : Type ℓ} (a : Array A) : Type ℓ where
  pub before : List ℕ
  pub dimensions : suc (length before) ≡ length a.extents
  pub computed : a.factors ≡ init_factors a.extents before
  pub filled : length a.elts ≡ product a.extents

-- In a consistent array of any number of dimensions `at` with an index inside the bounds returns the
-- element that stands at the index's place in row-major order, which always exists, and no other
-- index inside the bounds has that place.
pub at-row_major {ℓ} :
    {A : Type ℓ} (a : Array A) (index : List ℕ)
    → IsConsistent a
    → InBounds a.extents index
    → (x : A) × (at a (signed index) ≡ ok x)
      × (get_elem? a.elts (row_major a.extents index) ≡ some x)
      × ((other : List ℕ)
          → InBounds a.extents other
          → row_major a.extents other ≡ row_major a.extents index
          → other ≡ index)
unfolding at
at-row_major a index c h =
    let es = a.extents in
    let inside = row_major-lt es index h in
    let filled = c.filled in
    let (x, found) = get_elem?-some a.elts (row_major es index) (omega arith) in
    let known : (j : ℕ) → suc j < length es → get_or a.factors j 0 ≡ product (drop (suc j) es) =
      λ j small.
        ap (λ (fs : List ℕ). get_or fs j 0) c.computed
        ∙ init_factors-product es c.before j c.dimensions (let d = c.dimensions in omega arith) in
    let size = length-InBounds es index h in
    let checked =
      check_bounds-in_bounds es es (signed index) 0 refl (omega arith)
        (length-signed index ∙ sym size)
      ∙ ap (λ (b : Bool). if b then ok tt else err range_error) (in_bounds-InBounds es index h) in
    let place = add_index-row_major es a.factors es index 0 known refl (omega arith) h in
    (
      x,
      rw (checked, place, found),
      found,
      λ other k same. row_major-injective es other index k h same,
    )

-- With as many numbers as there are dimensions, one of which is negative or not below the extent, `at`
-- throws range_error and looks at no element.
at_refuses {ℓ} :
    {A : Type ℓ} (a : Array A) (index : List ℤ)
    → length index ≡ length a.extents
    → in_bounds a.extents index ≡ false
    → at a index ≡ err range_error
unfolding at
at_refuses a index size outside =
    let checked = check_bounds-in_bounds a.extents a.extents index 0 refl (omega arith) size in
    rw (checked, outside)
