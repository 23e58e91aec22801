-- ===== src/Range/Conversion.antt =====
-- The conversion of a range to another value type (include/pqxx/range.hxx).
use libpqxx.Prelude.{◌≡◌, refl, ap, false, not, Result, ok, ◌>>=◌}
use libpqxx.Range.Bounds.{
  Element, Bound, no_bound, inclusive, exclusive, is_limited, value, inclusive_bound,
  exclusive_bound, extends_down_to, extends_up_to,
}
use libpqxx.Range.Ranges.{Range, crossed, make_range, contains}

module _ {ℓ κ} {A : Type ℓ} {B : Type κ} ⦃t : Element A⦄ ⦃u : Element B⦄ (f : A → B) where
  unfoldable pub convert_bound : Bound A → Result (Bound B)
  unfolding inclusive_bound exclusive_bound
  convert_bound no_bound = ok no_bound
  convert_bound (inclusive x) = inclusive_bound (f x)
  convert_bound (exclusive x) = exclusive_bound (f x)

  -- `operator range<DEST>()`; `f` is the conversion of the values.
  unfoldable pub convert : Range A → Result (Range B)
  unfolding convert_bound make_range
  convert r =
      convert_bound r.lower >>= λ lower. convert_bound r.upper >>= λ upper. make_range lower upper

  abbrev converted : Bound A → Bound B
  converted no_bound = no_bound
  converted (inclusive x) = inclusive (f x)
  converted (exclusive x) = exclusive (f x)

  module _ (keeps : (x y : A) → u.less (f x) (f y) ≡ t.less x y)
      (known : (x : A) → u.is_null (f x) ≡ false) where
    convert_bound-converted : (b : Bound A) → convert_bound b ≡ ok (converted b)
    unfolding convert_bound inclusive_bound exclusive_bound
    convert_bound-converted no_bound = refl
    convert_bound-converted (inclusive x) = rw (known x)
    convert_bound-converted (exclusive x) = rw (known x)

    crossed-converted : (a b : Bound A) → crossed (converted a) (converted b) ≡ crossed a b
    unfolding crossed is_limited value
    crossed-converted no_bound b = refl
    crossed-converted (inclusive x) no_bound = refl
    crossed-converted (inclusive x) (inclusive y) = keeps y x
    crossed-converted (inclusive x) (exclusive y) = keeps y x
    crossed-converted (exclusive x) no_bound = refl
    crossed-converted (exclusive x) (inclusive y) = keeps y x
    crossed-converted (exclusive x) (exclusive y) = keeps y x

    down-converted :
        (a : Bound A) (v : A) → extends_down_to (converted a) (f v) ≡ extends_down_to a v
    unfolding extends_down_to
    down-converted no_bound v = refl
    down-converted (inclusive x) v = ap not (keeps v x)
    down-converted (exclusive x) v = keeps x v

    up-converted : (a : Bound A) (v : A) → extends_up_to (converted a) (f v) ≡ extends_up_to a v
    unfolding extends_up_to
    up-converted no_bound v = refl
    up-converted (inclusive x) v = ap not (keeps x v)
    up-converted (exclusive x) v = keeps v x

    -- A conversion of the values that keeps their order and makes no nulls converts every range that the
    -- constructor admits, and the new range contains a converted value if and only if the old one
    -- contains the value.
    pub contains-convert :
        (r : Range A)
        → crossed r.lower r.upper ≡ false
        → (q : Range B) × (convert r ≡ ok q) × ((v : A) → contains q (f v) ≡ contains r v)
    unfolding convert make_range contains
    contains-convert r valid = (
      record { lower = converted r.lower; upper = converted r.upper },
      rw (
        convert_bound-converted r.lower,
        convert_bound-converted r.upper,
        crossed-converted r.lower r.upper,
        valid,
      ),
      λ v. rw (down-converted r.lower v, up-converted r.upper v),
    )
