-- ===== src/Range/Bounds.antt =====
-- The value type of a range, and `no_bound`, `inclusive_bound`, `exclusive_bound` and `range_bound`
-- (include/pqxx/range.hxx).
use libpqxx.Prelude.{
  ◌≡◌, ◌⊎◌, Bool, true, false, not, ◌&&◌, if◌then◌else◌, Option, none, some, Result, ok, err,
  argument_error,
}

-- What a range uses of its value type: `<`, `==`, `is_null` and `TYPE{}`. The laws are those of a
-- strict weak order, the order that C++ asks of `<`; values that are equal stand at one place in it,
-- and the default value is not null.
pub record Element {ℓ} (A : Type ℓ) : Type ℓ where
  pub less : A → A → Bool
  pub equal : A → A → Bool
  pub is_null : A → Bool
  pub initial : A
  pub irreflexive : (x : A) → less x x ≡ false
  pub transitive : (x y z : A) → less x y ≡ true → less y z ≡ true → less x z ≡ true
  pub splits : (x y z : A) → less x z ≡ true → (less x y ≡ true) ⊎ (less y z ≡ true)
  pub equal_refl : (x : A) → equal x x ≡ true
  pub equal_not_less : (x y : A) → equal x y ≡ true → (less x y ≡ false) × (less y x ≡ false)
  pub initial_known : is_null initial ≡ false

-- The variant.
pub data Bound {ℓ} (A : Type ℓ) : Type ℓ where
  no_bound : Bound A
  inclusive exclusive : A → Bound A

-- `a == b` on Booleans.
abbrev same_kind : Bool → Bool → Bool
same_kind true b = b
same_kind false b = not b

module _ {ℓ} {A : Type ℓ} where
  unfoldable pub is_limited : Bound A → Bool
  is_limited no_bound = false
  is_limited (inclusive x) = true
  is_limited (exclusive x) = true

  unfoldable pub is_inclusive : Bound A → Bool
  is_inclusive no_bound = false
  is_inclusive (inclusive x) = true
  is_inclusive (exclusive x) = false

  unfoldable pub is_exclusive : Bound A → Bool
  is_exclusive no_bound = false
  is_exclusive (inclusive x) = false
  is_exclusive (exclusive x) = true

  -- `value()`; the null pointer is `none`.
  unfoldable pub value : Bound A → Option A
  value no_bound = none
  value (inclusive x) = some x
  value (exclusive x) = some x

module _ {ℓ} {A : Type ℓ} ⦃t : Element A⦄ where
  -- The constructors of the two kinds of bound.
  unfoldable pub inclusive_bound : A → Result (Bound A)
  inclusive_bound x = if t.is_null x then err argument_error else ok (inclusive x)

  unfoldable pub exclusive_bound : A → Result (Bound A)
  exclusive_bound x = if t.is_null x then err argument_error else ok (exclusive x)

  -- The member functions of the two kinds of bound.
  abbrev pub inclusive_down : A → A → Bool
  inclusive_down x v = not (t.less v x)

  abbrev pub inclusive_up : A → A → Bool
  inclusive_up x v = not (t.less x v)

  abbrev pub exclusive_down : A → A → Bool
  exclusive_down x v = t.less x v

  abbrev pub exclusive_up : A → A → Bool
  exclusive_up x v = t.less v x

  -- Those of the variant.
  unfoldable pub extends_down_to : Bound A → A → Bool
  extends_down_to no_bound v = true
  extends_down_to (inclusive x) v = inclusive_down x v
  extends_down_to (exclusive x) v = exclusive_down x v

  unfoldable pub extends_up_to : Bound A → A → Bool
  extends_up_to no_bound v = true
  extends_up_to (inclusive x) v = inclusive_up x v
  extends_up_to (exclusive x) v = exclusive_up x v

  -- `*a < *b` and `equal(*a, *b)`, where neither pointer is null.
  abbrev pub less_at : Option A → Option A → Bool
  less_at (some x) (some y) = t.less x y
  less_at (some x) none = false
  less_at none y = false

  abbrev pub equal_at : Option A → Option A → Bool
  equal_at (some x) (some y) = t.equal x y
  equal_at (some x) none = false
  equal_at none y = false

  -- `range_bound::operator==`
  unfoldable pub bound_eq : Bound A → Bound A → Bool
  unfolding is_limited is_inclusive value
  bound_eq a b =
      if is_limited a
      then is_limited b
        && (same_kind (is_inclusive a) (is_inclusive b) && equal_at (value a) (value b))
      else not (is_limited b)
