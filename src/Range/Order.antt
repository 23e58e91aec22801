-- ===== src/Range/Order.antt =====
-- What a bound admits, from the laws of the order.
use libpqxx.Prelude.{◌≡◌, refl, inl, inr, Bool, true, false, not, Bool-cases}
use libpqxx.Range.Bounds.{
  Element, Bound, no_bound, inclusive, exclusive, is_limited, is_inclusive, value, extends_down_to,
  extends_up_to, less_at, bound_eq,
}

not-true : (b : Bool) → not b ≡ true → b ≡ false
not-true true h = cc
not-true false h = refl

module _ {ℓ} {A : Type ℓ} ⦃t : Element A⦄ where
  pub asymmetric : (x y : A) → t.less x y ≡ true → t.less y x ≡ false
  asymmetric x y h = elim (Bool-cases (t.less y x)) [
    | inl back ↦ cc (t.transitive x y x h back, t.irreflexive x)
    | inr e ↦ e
  ]

  -- Values that are not less than each other stand at one place.
  pub less_cong_left :
      (x y v : A) → t.less x y ≡ false → t.less y x ≡ false → t.less x v ≡ t.less y v
  less_cong_left x y v h k = elim (Bool-cases (t.less x v)) [
    | inl e ↦ elim (t.splits x y v e) [ inl a ↦ cc | inr b ↦ cc ]
    | inr e ↦ elim (Bool-cases (t.less y v)) [
      | inl f ↦ elim (t.splits y x v f) [ inl a ↦ cc | inr b ↦ cc ]
      | inr f ↦ cc
    ]
  ]

  pub less_cong_right :
      (x y v : A) → t.less x y ≡ false → t.less y x ≡ false → t.less v x ≡ t.less v y
  less_cong_right x y v h k = elim (Bool-cases (t.less v x)) [
    | inl e ↦ elim (t.splits v y x e) [ inl a ↦ cc | inr b ↦ cc ]
    | inr e ↦ elim (Bool-cases (t.less v y)) [
      | inl f ↦ elim (t.splits v x y f) [ inl a ↦ cc | inr b ↦ cc ]
      | inr f ↦ cc
    ]
  ]

  -- A value above `y` is above what is less than `y`; below, likewise.
  pub above : (x y v : A) → t.less x y ≡ true → t.less v y ≡ false → t.less x v ≡ true
  above x y v h k = elim (t.splits x v y h) [ inl e ↦ e | inr e ↦ cc ]

  pub below : (x y v : A) → t.less x y ≡ true → t.less x v ≡ false → t.less v y ≡ true
  below x y v h k = elim (t.splits x v y h) [ inl e ↦ cc | inr e ↦ e ]

  pub bound_eq-extends_down_to :
      (a b : Bound A) (v : A) → bound_eq a b ≡ true → extends_down_to a v ≡ extends_down_to b v
  unfolding bound_eq is_limited is_inclusive value extends_down_to
  bound_eq-extends_down_to no_bound no_bound v h = refl
  bound_eq-extends_down_to no_bound (inclusive y) v h = cc
  bound_eq-extends_down_to no_bound (exclusive y) v h = cc
  bound_eq-extends_down_to (inclusive x) no_bound v h = cc
  bound_eq-extends_down_to (inclusive x) (inclusive y) v h =
      let (lt, gt) = t.equal_not_less x y h in rw (less_cong_right x y v lt gt)
  bound_eq-extends_down_to (inclusive x) (exclusive y) v h = cc
  bound_eq-extends_down_to (exclusive x) no_bound v h = cc
  bound_eq-extends_down_to (exclusive x) (inclusive y) v h = cc
  bound_eq-extends_down_to (exclusive x) (exclusive y) v h =
      let (lt, gt) = t.equal_not_less x y h in less_cong_left x y v lt gt

  pub bound_eq-extends_up_to :
      (a b : Bound A) (v : A) → bound_eq a b ≡ true → extends_up_to a v ≡ extends_up_to b v
  unfolding bound_eq is_limited is_inclusive value extends_up_to
  bound_eq-extends_up_to no_bound no_bound v h = refl
  bound_eq-extends_up_to no_bound (inclusive y) v h = cc
  bound_eq-extends_up_to no_bound (exclusive y) v h = cc
  bound_eq-extends_up_to (inclusive x) no_bound v h = cc
  bound_eq-extends_up_to (inclusive x) (inclusive y) v h =
      let (lt, gt) = t.equal_not_less x y h in rw (less_cong_left x y v lt gt)
  bound_eq-extends_up_to (inclusive x) (exclusive y) v h = cc
  bound_eq-extends_up_to (exclusive x) no_bound v h = cc
  bound_eq-extends_up_to (exclusive x) (inclusive y) v h = cc
  bound_eq-extends_up_to (exclusive x) (exclusive y) v h =
      let (lt, gt) = t.equal_not_less x y h in less_cong_right x y v lt gt

  -- A lower bound with the smaller value admits what one with the greater value does.
  pub lower_next :
      (a b : Bound A) (v : A)
      → less_at (value a) (value b) ≡ true
      → extends_down_to b v ≡ true
      → extends_down_to a v ≡ true
  unfolding value extends_down_to
  lower_next no_bound b v h k = cc
  lower_next (inclusive x) no_bound v h k = cc
  lower_next (inclusive x) (inclusive y) v h k =
      let low : t.less v y ≡ false = not-true _ k in rw (asymmetric x v (above x y v h low))
  lower_next (inclusive x) (exclusive y) v h k = rw (asymmetric x v (t.transitive x y v h k))
  lower_next (exclusive x) no_bound v h k = cc
  lower_next (exclusive x) (inclusive y) v h k =
      let low : t.less v y ≡ false = not-true _ k in above x y v h low
  lower_next (exclusive x) (exclusive y) v h k = t.transitive x y v h k

  pub upper_next :
      (a b : Bound A) (v : A)
      → less_at (value a) (value b) ≡ true
      → extends_up_to a v ≡ true
      → extends_up_to b v ≡ true
  unfolding value extends_up_to
  upper_next no_bound b v h k = cc
  upper_next (inclusive x) no_bound v h k = cc
  upper_next (inclusive x) (inclusive y) v h k =
      let low : t.less x v ≡ false = not-true _ k in rw (asymmetric v y (below x y v h low))
  upper_next (inclusive x) (exclusive y) v h k =
      let low : t.less x v ≡ false = not-true _ k in below x y v h low
  upper_next (exclusive x) no_bound v h k = cc
  upper_next (exclusive x) (inclusive y) v h k = rw (asymmetric v y (t.transitive v x y k h))
  upper_next (exclusive x) (exclusive y) v h k = t.transitive v x y k h
