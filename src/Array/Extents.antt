-- ===== src/Array/Extents.antt =====
-- The index arithmetic of `pqxx::array` (include/pqxx/array.hxx): `init_factors`, `add_index`,
-- `check_bounds` and `at`.
use libpqxx.Prelude.{
  ℕ, zero, suc, ◌+◌, ◌-◌, ◌*◌, List, [], ◌∷◌, length, get_or, get_elem?, set, leb, if◌then◌else◌,
  Result, ok, err, range_error, out_of_range, ◌>>=◌, ◌>>◌, Option, none, some,
}
use libpqxx.Prelude.Int.{ℤ, pos, negsuc}

-- `check_cast<std::size_t>`; no index type has values above those of `std::size_t`.
unfoldable pub check_cast : ℤ → Result ℕ
check_cast (pos n) = ok n
check_cast (negsuc n) = err range_error

-- The loop of `init_factors`, from `dim` down to 1.
unfoldable pub factors_loop : ℕ → List ℕ → ℕ → List ℕ → List ℕ
factors_loop zero extents factor factors = factors
factors_loop (suc dim) extents factor factors =
    let factor' = factor * get_or extents (suc dim) 0 in
    factors_loop dim extents factor' (set factors dim factor')

-- There is one extent for each dimension.
unfoldable pub init_factors : List ℕ → List ℕ → List ℕ
unfolding factors_loop
init_factors extents factors = factors_loop (length extents - 1) extents 1 factors

-- `add_index` with the number of dimensions; the index as a list, which is not empty.
unfoldable pub add_index : ℕ → List ℕ → List ℤ → Result ℕ
unfolding check_cast
add_index dimensions factors [] = ok 0
add_index dimensions factors (outer ∷ []) = check_cast outer
add_index dimensions factors (outer ∷ i ∷ indexes) = check_cast outer >>= λ first.
    add_index dimensions factors (i ∷ indexes) >>= λ rest.
    ok (first * get_or factors (dimensions - (length (i ∷ indexes) + 1)) 0 + rest)

unfoldable pub check_bounds : ℕ → List ℕ → List ℤ → Result (Unit {0})
unfolding check_cast
check_bounds dimensions extents [] = ok tt
check_bounds dimensions extents (outer ∷ indexes) = check_cast outer >>= λ first.
    if leb (get_or extents (dimensions - (length indexes + 1)) 0) first
    then err range_error
    else check_bounds dimensions extents indexes

pub record Array {ℓ} (A : Type ℓ) : Type ℓ where
  pub elts : List A
  pub extents : List ℕ
  pub factors : List ℕ

-- What `std::vector::at` returns, or throws where there is no element.
abbrev pub found_or_throw {ℓ} : {A : Type ℓ} → Option A → Result A
found_or_throw none = err out_of_range
found_or_throw (some x) = ok x

unfoldable pub at {ℓ} : {A : Type ℓ} → Array A → List ℤ → Result A
unfolding check_bounds add_index
at a index =
    check_bounds (length a.extents) a.extents index
    >> (add_index (length a.extents) a.factors index >>= λ k. found_or_throw (get_elem? a.elts k))
