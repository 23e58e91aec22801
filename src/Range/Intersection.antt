-- ===== src/Range/Intersection.antt =====
-- What `&`, `contains` and `empty` of ranges say of their values.
use libpqxx.Prelude.{
  ◌≡◌, refl, sym, ◌∙◌, subst, ◌⊎◌, ◌↔◌, inl, inr, Bool, true, false, not, ◌&&◌, ◌||◌, Bool-cases,
  ok,
}
use libpqxx.Range.Bounds.{
  Element, Bound, no_bound, inclusive, exclusive, is_limited, is_inclusive, is_exclusive, value,
  extends_down_to, extends_up_to, exclusive_bound, bound_eq,
}
use libpqxx.Range.Ranges.{
  Range, crossed, make_range, empty_range, empty, contains, range_eq, lower_of_both, upper_of_both,
  intersection, contains_range,
}
use libpqxx.Range.Order.{asymmetric, bound_eq-extends_down_to, bound_eq-extends_up_to}
use libpqxx.Range.Selection.{lower_of_both-extends, upper_of_both-extends, crossed_nothing}

and_swap : (a b c d : Bool) → (a && b) && (c && d) ≡ (a && c) && (b && d)
and_swap true true c d = refl
and_swap true false true d = refl
and_swap true false false d = refl
and_swap false b c d = refl

and-true : (a b : Bool) → a && b ≡ true → (a ≡ true) × (b ≡ true)
and-true true b h = (refl, h)
and-true false b h = cc

and_false : (a : Bool) → a && false ≡ false
and_false true = refl
and_false false = refl

not-true : (b : Bool) → not b ≡ true → b ≡ false
not-true true h = cc
not-true false h = refl

not-false : (b : Bool) → not b ≡ false → b ≡ true
not-false true h = refl
not-false false h = cc

ok-inj {ℓ} : {A : Type ℓ} (x y : A) → ok x ≡ ok y → x ≡ y
ok-inj x y h = cc

or-true : (a b : Bool) → a || b ≡ true → (a ≡ true) ⊎ (b ≡ true)
or-true true b h = inl refl
or-true false b h = inr h

module _ {ℓ} {A : Type ℓ} ⦃t : Element A⦄ where
  empty_range_nothing : (r : Range A) × (empty_range ≡ ok r) × ((v : A) → contains r v ≡ false)
  unfolding empty_range exclusive_bound contains extends_down_to extends_up_to
  empty_range_nothing =
      let r : Range A = record { lower = exclusive t.initial; upper = exclusive t.initial } in
      (
        r,
        rw t.initial_known,
        λ v. elim (Bool-cases (t.less t.initial v)) [
          | inl e ↦ rw (e, asymmetric t.initial v e)
          | inr e ↦ rw e
        ],
      )

  -- The intersection of two ranges never throws, and contains the values that both ranges contain and no
  -- others, whatever the kinds of their bounds.
  pub contains-intersection :
      (a b : Range A)
      → (r : Range A) × (intersection a b ≡ ok r)
        × ((v : A) → contains r v ≡ contains a v && contains b v)
  unfolding intersection make_range contains
  contains-intersection a b =
      let l = lower_of_both a.lower b.lower in
      let u = upper_of_both a.upper b.upper in
      let both : (v : A)
          → extends_down_to l v && extends_up_to u v
            ≡ (extends_down_to a.lower v && extends_up_to a.upper v)
              && (extends_down_to b.lower v && extends_up_to b.upper v) =
        λ v.
          rw (lower_of_both-extends a.lower b.lower v, upper_of_both-extends a.upper b.upper v)
            (and_swap (extends_down_to a.lower v) (extends_down_to b.lower v)
              (extends_up_to a.upper v) (extends_up_to b.upper v)) in
      elim (Bool-cases (crossed l u)) [
        | inl x ↦
            let (r, made, nothing) = empty_range_nothing in
            (r, rw x made, λ v. nothing v ∙ (sym (crossed_nothing l u v x) ∙ both v))
        | inr x ↦ (record { lower = l; upper = u }, rw x, both)
      ]

  -- The same of its bounds.
  empty_bounds :
      (l u : Bound A) (v : A)
      → empty (record { lower = l; upper = u }) ≡ true
      → extends_down_to l v && extends_up_to u v ≡ false
  unfolding empty is_exclusive is_limited value extends_down_to extends_up_to
  empty_bounds no_bound no_bound v h = cc
  empty_bounds no_bound (inclusive y) v h = cc
  empty_bounds no_bound (exclusive y) v h = cc
  empty_bounds (inclusive x) no_bound v h = cc
  empty_bounds (inclusive x) (inclusive y) v h = cc
  empty_bounds (inclusive x) (exclusive y) v h =
      let less : t.less x y ≡ false = not-true _ h in
      elim (Bool-cases (t.less v y)) [
        | inl e ↦ elim (t.splits v x y e) [ inl f ↦ rw f | inr f ↦ cc ]
        | inr e ↦ rw e (and_false (not (t.less v x)))
      ]
  empty_bounds (exclusive x) no_bound v h = cc
  empty_bounds (exclusive x) (inclusive y) v h =
      let less : t.less x y ≡ false = not-true _ h in
      elim (Bool-cases (t.less x v)) [
        | inl e ↦ elim (t.splits x y v e) [ inl f ↦ cc | inr f ↦ rw (e, f) ]
        | inr e ↦ rw e
      ]
  empty_bounds (exclusive x) (exclusive y) v h =
      let less : t.less x y ≡ false = not-true _ h in
      elim (Bool-cases (t.less x v)) [
        | inl e ↦ elim (Bool-cases (t.less v y)) [
          | inl f ↦ cc (t.transitive x v y e f)
          | inr f ↦ rw (e, f)
        ]
        | inr e ↦ rw e
      ]

  empty_nothing : (r : Range A) (v : A) → empty r ≡ true → contains r v ≡ false
  unfolding contains
  empty_nothing r v h = empty_bounds r.lower r.upper v h

  range_eq-contains : (a b : Range A) (v : A) → range_eq a b ≡ true → contains a v ≡ contains b v
  unfolding range_eq contains
  range_eq-contains a b v h =
      elim (or-true (bound_eq a.lower b.lower && bound_eq a.upper b.upper) _ h) [
        | inl same ↦
            let (l, u) = and-true (bound_eq a.lower b.lower) _ same in
            rw (
              bound_eq-extends_down_to a.lower b.lower v l,
              bound_eq-extends_up_to a.upper b.upper v u,
            )
        | inr both ↦
            let (ea, eb) = and-true (empty a) _ both in
            empty_bounds a.lower a.upper v ea ∙ sym (empty_bounds b.lower b.upper v eb)
      ]

  -- A range that `contains` another by its own word has every value that the other has.
  pub contains_range-contains :
      (a b : Range A) (v : A)
      → contains_range a b ≡ ok true
      → contains b v ≡ true
      → contains a v ≡ true
  unfolding contains_range
  contains_range-contains a b v h k =
      let (r, met, values) = contains-intersection a b in
      let same : range_eq r b ≡ true = ok-inj _ _ (rw met at h) in
      let inside : contains a v && contains b v ≡ true =
        sym (values v) ∙ (range_eq-contains r b v same ∙ k) in
      (and-true _ _ inside).0

  holds_low :
      (l u : Bound A)
      → crossed l u ≡ false
      → is_inclusive l ≡ true
      → empty (record { lower = l; upper = u }) ≡ false
      → (v : A) × (extends_down_to l v && extends_up_to u v ≡ true)
  unfolding crossed empty is_inclusive is_exclusive is_limited value extends_down_to extends_up_to
  holds_low no_bound u x i h = cc
  holds_low (exclusive y) u x i h = cc
  holds_low (inclusive y) no_bound x i h = (y, rw (t.irreflexive y))
  holds_low (inclusive y) (inclusive z) x i h = (y, rw (t.irreflexive y, x))
  holds_low (inclusive y) (exclusive z) x i h = (y, rw (t.irreflexive y) (not-false _ h))

  holds_high :
      (l u : Bound A)
      → crossed l u ≡ false
      → is_inclusive u ≡ true
      → empty (record { lower = l; upper = u }) ≡ false
      → (v : A) × (extends_down_to l v && extends_up_to u v ≡ true)
  unfolding crossed empty is_inclusive is_exclusive is_limited value extends_down_to extends_up_to
  holds_high l no_bound x i h = cc
  holds_high l (exclusive y) x i h = cc
  holds_high no_bound (inclusive z) x i h = (z, rw (t.irreflexive z))
  holds_high (inclusive y) (inclusive z) x i h = (z, rw (t.irreflexive z, x))
  holds_high (exclusive y) (inclusive z) x i h = (z, rw (t.irreflexive z, not-false _ h))

  exact_bounds :
      (l u : Bound A)
      → crossed l u ≡ false
      → (is_inclusive l ≡ true) ⊎ (is_inclusive u ≡ true)
      → (empty (record { lower = l; upper = u }) ≡ true)
        ↔ ((v : A) → extends_down_to l v && extends_up_to u v ≡ false)
  exact_bounds l u x i = (
    λ h v. empty_bounds l u v h,
    λ none. elim (Bool-cases (empty (record { lower = l; upper = u }))) [
      | inl e ↦ e
      | inr e ↦
          let held : (v : A) × (extends_down_to l v && extends_up_to u v ≡ true) = elim i [
            | inl a ↦ holds_low l u x a e
            | inr b ↦ holds_high l u x b e
          ] in
          cc (none held.0, held.1)
    ],
  )

  -- For a range that the constructor admits and one of whose bounds at least is inclusive, `empty` is
  -- exact: it returns true if and only if the range contains no value.
  pub empty_exact :
      (l u : Bound A) (r : Range A)
      → make_range l u ≡ ok r
      → (is_inclusive l ≡ true) ⊎ (is_inclusive u ≡ true)
      → (empty r ≡ true) ↔ ((v : A) → contains r v ≡ false)
  unfolding make_range contains
  empty_exact l u r made i = elim (Bool-cases (crossed l u)) [
    | inl x ↦ cc (rw x at made)
    | inr x ↦
        let bounds : Range A = record { lower = l; upper = u } in
        let shape : bounds ≡ r = ok-inj _ _ (rw x at made) in
        subst (λ (q : Range A). (empty q ≡ true) ↔ ((v : A) → contains q v ≡ false)) shape
          (exact_bounds l u x i)
  ]
