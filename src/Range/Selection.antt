-- ===== src/Range/Selection.antt =====
-- The bounds of an intersection.
use libpqxx.Prelude.{◌≡◌, refl, sym, ◌⊎◌, inl, inr, Bool, true, false, ◌&&◌, Bool-cases}
use libpqxx.Range.Bounds.{
  Element, Bound, no_bound, inclusive, exclusive, is_limited, is_exclusive, value, extends_down_to,
  extends_up_to, less_at,
}
use libpqxx.Range.Ranges.{lower_of_both, upper_of_both, crossed}
use libpqxx.Range.Order.{asymmetric, above, less_cong_left, less_cong_right, lower_next, upper_next}

-- The conjunction with something that is implied.
absorb_left : (p q : Bool) → (q ≡ true → p ≡ true) → q ≡ p && q
absorb_left true q h = refl
absorb_left false true h = sym (h refl)
absorb_left false false h = refl

absorb_right : (p q : Bool) → (p ≡ true → q ≡ true) → p ≡ p && q
absorb_right true q h = sym (h refl)
absorb_right false q h = refl

module _ {ℓ} {A : Type ℓ} ⦃t : Element A⦄ where
  -- At one place an exclusive bound admits no more than any other.
  lower_same :
      (a b : Bound A) (v : A)
      → is_limited a ≡ true
      → less_at (value a) (value b) ≡ false
      → less_at (value b) (value a) ≡ false
      → (is_exclusive a ≡ true) ⊎ (is_exclusive b ≡ false)
      → extends_down_to a v ≡ true
      → extends_down_to b v ≡ true
  unfolding value is_limited is_exclusive extends_down_to
  lower_same no_bound b v l h k e m = cc
  lower_same (inclusive x) no_bound v l h k e m = refl
  lower_same (inclusive x) (inclusive y) v l h k e m = rw (less_cong_right x y v h k) at m
  lower_same (inclusive x) (exclusive y) v l h k e m = elim e [ inl f ↦ cc | inr f ↦ cc ]
  lower_same (exclusive x) no_bound v l h k e m = refl
  lower_same (exclusive x) (inclusive y) v l h k e m =
      rw (asymmetric y v (rw (less_cong_left x y v h k) at m))
  lower_same (exclusive x) (exclusive y) v l h k e m = rw (less_cong_left x y v h k) at m

  upper_same :
      (a b : Bound A) (v : A)
      → is_limited a ≡ true
      → less_at (value a) (value b) ≡ false
      → less_at (value b) (value a) ≡ false
      → (is_exclusive a ≡ true) ⊎ (is_exclusive b ≡ false)
      → extends_up_to a v ≡ true
      → extends_up_to b v ≡ true
  unfolding value is_limited is_exclusive extends_up_to
  upper_same no_bound b v l h k e m = cc
  upper_same (inclusive x) no_bound v l h k e m = refl
  upper_same (inclusive x) (inclusive y) v l h k e m = rw (less_cong_left x y v h k) at m
  upper_same (inclusive x) (exclusive y) v l h k e m = elim e [ inl f ↦ cc | inr f ↦ cc ]
  upper_same (exclusive x) no_bound v l h k e m = refl
  upper_same (exclusive x) (inclusive y) v l h k e m =
      rw (asymmetric v y (rw (less_cong_right x y v h k) at m))
  upper_same (exclusive x) (exclusive y) v l h k e m = rw (less_cong_right x y v h k) at m

  unlimited_down : (a : Bound A) (v : A) → is_limited a ≡ false → extends_down_to a v ≡ true
  unfolding is_limited extends_down_to
  unlimited_down no_bound v h = refl
  unlimited_down (inclusive x) v h = cc
  unlimited_down (exclusive x) v h = cc

  unlimited_up : (a : Bound A) (v : A) → is_limited a ≡ false → extends_up_to a v ≡ true
  unfolding is_limited extends_up_to
  unlimited_up no_bound v h = refl
  unlimited_up (inclusive x) v h = cc
  unlimited_up (exclusive x) v h = cc

  -- The lower bound of an intersection admits what both do.
  pub lower_of_both-extends :
      (a b : Bound A) (v : A)
      → extends_down_to (lower_of_both a b) v ≡ extends_down_to a v && extends_down_to b v
  unfolding lower_of_both
  lower_of_both-extends a b v = elim (Bool-cases (is_limited a)) [
    | inr free ↦ rw (free, unlimited_down a v free)
    | inl la ↦ elim (Bool-cases (is_limited b)) [
      | inr free ↦
          rw (la, free, unlimited_down b v free)
            (absorb_right (extends_down_to a v) true (λ h. refl))
      | inl lb ↦ elim (Bool-cases (less_at (value a) (value b))) [
        | inl lt ↦ rw (la, lb, lt) (absorb_left _ _ (lower_next a b v lt))
        | inr nlt ↦ elim (Bool-cases (less_at (value b) (value a))) [
          | inl gt ↦ rw (la, lb, nlt, gt) (absorb_right _ _ (lower_next b a v gt))
          | inr ngt ↦ elim (Bool-cases (is_exclusive a)) [
            | inl ex ↦
                rw (la, lb, nlt, ngt, ex) (absorb_right _ _ (lower_same a b v la nlt ngt (inl ex)))
            | inr inc ↦
                rw (la, lb, nlt, ngt, inc) (absorb_left _ _ (lower_same b a v lb ngt nlt (inr inc)))
          ]
        ]
      ]
    ]
  ]

  pub upper_of_both-extends :
      (a b : Bound A) (v : A)
      → extends_up_to (upper_of_both a b) v ≡ extends_up_to a v && extends_up_to b v
  unfolding upper_of_both
  upper_of_both-extends a b v = elim (Bool-cases (is_limited a)) [
    | inr free ↦ rw (free, unlimited_up a v free)
    | inl la ↦ elim (Bool-cases (is_limited b)) [
      | inr free ↦
          rw (la, free, unlimited_up b v free) (absorb_right (extends_up_to a v) true (λ h. refl))
      | inl lb ↦ elim (Bool-cases (less_at (value b) (value a))) [
        | inl gt ↦ rw (la, lb, gt) (absorb_left _ _ (upper_next b a v gt))
        | inr ngt ↦ elim (Bool-cases (less_at (value a) (value b))) [
          | inl lt ↦ rw (la, lb, ngt, lt) (absorb_right _ _ (upper_next a b v lt))
          | inr nlt ↦ elim (Bool-cases (is_exclusive a)) [
            | inl ex ↦
                rw (la, lb, ngt, nlt, ex) (absorb_right _ _ (upper_same a b v la nlt ngt (inl ex)))
            | inr inc ↦
                rw (la, lb, ngt, nlt, inc) (absorb_left _ _ (upper_same b a v lb ngt nlt (inr inc)))
          ]
        ]
      ]
    ]
  ]

  -- Crossed bounds admit no value, nor do two exclusive bounds at one place.
  pub crossed_nothing :
      (a b : Bound A) (v : A)
      → crossed a b ≡ true
      → extends_down_to a v && extends_up_to b v ≡ false
  unfolding crossed extends_down_to extends_up_to is_limited value
  crossed_nothing no_bound b v h = cc
  crossed_nothing (inclusive x) no_bound v h = cc
  crossed_nothing (inclusive x) (inclusive y) v h = elim (Bool-cases (t.less v x)) [
    | inl e ↦ rw e
    | inr e ↦ rw (e, above y x v h e)
  ]
  crossed_nothing (inclusive x) (exclusive y) v h = elim (Bool-cases (t.less v x)) [
    | inl e ↦ rw e
    | inr e ↦ rw (e, asymmetric y v (above y x v h e))
  ]
  crossed_nothing (exclusive x) no_bound v h = cc
  crossed_nothing (exclusive x) (inclusive y) v h = elim (Bool-cases (t.less x v)) [
    | inl e ↦ rw (e, t.transitive y x v h e)
    | inr e ↦ rw e
  ]
  crossed_nothing (exclusive x) (exclusive y) v h = elim (Bool-cases (t.less x v)) [
    | inl e ↦ rw (e, asymmetric y v (t.transitive y x v h e))
    | inr e ↦ rw e
  ]
