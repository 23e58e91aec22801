-- ===== src/Range/Ranges.antt =====
-- The class `range` (include/pqxx/range.hxx): constructors, `empty`, `contains`, `==` and `&`.
use libpqxx.Prelude.{Bool, not, ◌&&◌, ◌||◌, if◌then◌else◌, Result, ok, err, range_error, ◌>>=◌}
use libpqxx.Range.Bounds.{
  Element, Bound, is_limited, is_exclusive, value, exclusive_bound, extends_down_to, extends_up_to,
  less_at, bound_eq,
}

pub record Range {ℓ} (A : Type ℓ) : Type ℓ where
  pub lower : Bound A
  pub upper : Bound A

module _ {ℓ} {A : Type ℓ} ⦃t : Element A⦄ where
  -- The test of the constructor and of `&`.
  unfoldable pub crossed : Bound A → Bound A → Bool
  unfolding is_limited value
  crossed lower upper =
      is_limited lower && (is_limited upper && less_at (value upper) (value lower))

  unfoldable pub make_range : Bound A → Bound A → Result (Range A)
  unfolding crossed
  make_range lower upper =
      if crossed lower upper then err range_error else ok (record { lower = lower; upper = upper })

  -- The default constructor.
  unfoldable pub empty_range : Result (Range A)
  unfolding exclusive_bound
  empty_range = do
    lower ← exclusive_bound t.initial
    upper ← exclusive_bound t.initial
    ok (record { lower = lower; upper = upper })

  unfoldable pub empty : Range A → Bool
  unfolding is_exclusive is_limited value
  empty r =
      (is_exclusive r.lower || is_exclusive r.upper)
      && (is_limited r.lower
          && (is_limited r.upper && not (less_at (value r.lower) (value r.upper))))

  unfoldable pub contains : Range A → A → Bool
  unfolding extends_down_to extends_up_to
  contains r v = extends_down_to r.lower v && extends_up_to r.upper v

  -- `range::operator==`
  unfoldable pub range_eq : Range A → Range A → Bool
  unfolding bound_eq empty
  range_eq a b = (bound_eq a.lower b.lower && bound_eq a.upper b.upper) || (empty a && empty b)

  unfoldable pub lower_of_both : Bound A → Bound A → Bound A
  unfolding is_limited is_exclusive value
  lower_of_both a b =
      if not (is_limited a)
      then b
      else if not (is_limited b)
      then a
      else if less_at (value a) (value b)
      then b
      else if less_at (value b) (value a)
      then a
      else if is_exclusive a
      then a
      else b

  unfoldable pub upper_of_both : Bound A → Bound A → Bound A
  unfolding is_limited is_exclusive value
  upper_of_both a b =
      if not (is_limited a)
      then b
      else if not (is_limited b)
      then a
      else if less_at (value b) (value a)
      then b
      else if less_at (value a) (value b)
      then a
      else if is_exclusive a
      then a
      else b

  -- `range::operator&`
  unfoldable pub intersection : Range A → Range A → Result (Range A)
  unfolding lower_of_both upper_of_both crossed empty_range make_range
  intersection a b =
      let lower = lower_of_both a.lower b.lower in
      let upper = upper_of_both a.upper b.upper in
      if crossed lower upper then empty_range else make_range lower upper

  -- `contains` of a range.
  unfoldable pub contains_range : Range A → Range A → Result Bool
  unfolding intersection range_eq
  contains_range a b = intersection a b >>= λ both. ok (range_eq both b)
