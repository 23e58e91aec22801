-- ===== src/Array/Container.antt =====
-- The constructor of `pqxx::array` (include/pqxx/array.hxx): `check_dims`, `parse_field_end` and
-- `parse`. The separator and the number of dimensions are arguments, and the element's type a reader.
use libpqxx.Prelude.{
  ℕ, zero, suc, ◌+◌, ◌-◌, ◌*◌, ◌%◌, ◌^◌, not, Bytes, byte_at, take, substr, bytes_eq, List, [], ◌∷◌,
  ◌++◌, length, get_or, set, replicate, ltb, leb, ◌==◌, if◌then◌else◌, Option, none, some, Result,
  ok, err, conversion_error, usage_error, fuel_out, unexpected_null, ◌>>=◌, ◌>>◌,
}
use libpqxx.Encoding.Scanner.{EncodingGroup, unknown}
use libpqxx.Array.Quoted.{
  quote, scan_double_quoted_string, parse_double_quoted_string, scan_unquoted_string,
}
use libpqxx.Array.Writer.{open_brace, close_brace, s_null}
use libpqxx.Array.Extents.{Array, init_factors}
use libpqxx.Composite.Reader.{FieldReader}

-- The two loops of `check_dims`, with the number of rounds left.
unfoldable pub check_open : ℕ → ℕ → Bytes → Result (Unit {0})
check_open zero i input = ok tt
check_open (suc rounds) i input =
    if byte_at input i == open_brace then check_open rounds (i + 1) input else err conversion_error

unfoldable pub check_close : ℕ → ℕ → Bytes → Result (Unit {0})
check_close zero i input = ok tt
check_close (suc rounds) i input =
    if byte_at input (length input - 1 - i) == close_brace
    then check_close rounds (i + 1) input
    else err conversion_error

unfoldable pub check_dims : ℕ → Bytes → Result (Unit {0})
unfolding check_open check_close
check_dims dimensions input =
    if ltb (length input) (dimensions * 2)
    then err conversion_error
    else if not (byte_at input 0 == open_brace)
    then err conversion_error
    else (check_open dimensions 0 input
        >> (if byte_at input dimensions == open_brace
            then err conversion_error
            else check_close dimensions 0 input))

unfoldable pub parse_field_end : ℕ → Bytes → ℕ → Result ℕ
parse_field_end sep input here =
    if ltb here (length input)
    then (if byte_at input here == sep
        then (if leb (length input) (here + 1)
            then err conversion_error
            else if byte_at input (here + 1) == sep
            then err conversion_error
            else if byte_at input (here + 1) == close_brace
            then err conversion_error
            else ok (here + 1))
        else if byte_at input here == close_brace
        then ok here
        else err conversion_error)
    else ok here

module _ {ℓ} {A : Type ℓ} where
  -- `if constexpr (has_null<ELEMENT>()) ... else throw unexpected_null`.
  unfoldable pub null_or_throw : Option A → Result A
  null_or_throw none = err unexpected_null
  null_or_throw (some v) = ok v

  -- The double-quoted case of the switch.
  unfoldable pub read_quoted : EncodingGroup → FieldReader A → Bytes → ℕ → Result (A × ℕ)
  read_quoted enc reader input here = do
    end ← scan_double_quoted_string enc input here
    buf ← parse_double_quoted_string enc (take end input) here
    v ← reader.from_string buf
    ok (v, end)

  -- The default case of the switch.
  unfoldable pub read_unquoted : ℕ → EncodingGroup → FieldReader A → Bytes → ℕ → Result (A × ℕ)
  unfolding null_or_throw scan_unquoted_string
  read_unquoted sep enc reader input here =
      scan_unquoted_string enc (sep ∷ close_brace ∷ []) input here >>= λ end.
      let field = substr input here (end - here) in
      (if bytes_eq field s_null then null_or_throw reader.null else reader.from_string field)
      >>= λ v. ok (v, end)

  -- The switch on the first byte of an element. Returns its value and its end.
  unfoldable pub read_element : ℕ → EncodingGroup → FieldReader A → Bytes → ℕ → Result (A × ℕ)
  unfolding read_quoted read_unquoted
  read_element sep enc reader input here =
      let c = byte_at input here in
      if c == 0
      then err conversion_error
      else if c == b','
      then err conversion_error
      else if c == quote
      then read_quoted enc reader input here
      else read_unquoted sep enc reader input here

-- The local variables of `parse`, and `m_extents` and `m_elts`.
pub record Parsing {ℓ} (A : Type ℓ) : Type ℓ where
  pub know_extents_from : ℕ
  pub dim : ℕ
  pub counts : List ℕ
  pub extents : List ℕ
  pub elts : List A

-- `std::size_t{0u} - std::size_t{1u}`, and steps of a `std::size_t` that rolls over.
abbrev pub word : ℕ
word = 2 ^ 64

unfoldable pub outer : ℕ
outer = word - 1

unfoldable pub dim_up : ℕ → ℕ
dim_up dim = (dim + 1) % word

unfoldable pub dim_down : ℕ → ℕ
dim_down dim = (dim + word - 1) % word

module _ {ℓ} {A : Type ℓ} where
  -- An opening brace.
  unfoldable pub open_row : ℕ → ℕ → Parsing A → Result (ℕ × Parsing A)
  open_row dimensions here p =
      let opened = λ (counts : List ℕ).
        ok (here + 1, record p { dim = dim_up p.dim; counts = set counts (dim_up p.dim) 0 }) in
      if p.dim == outer
      then (if not (p.know_extents_from == dimensions)
          then err conversion_error
          else opened p.counts)
      else if leb (dimensions - 1) p.dim
      then err conversion_error
      else opened (set p.counts p.dim (get_or p.counts p.dim 0 + 1))

  -- A closing brace.
  unfoldable pub close_row : ℕ → Bytes → ℕ → Parsing A → Result (ℕ × Parsing A)
  unfolding parse_field_end
  close_row sep input here p =
      let count = get_or p.counts p.dim 0 in
      if p.dim == outer
      then err conversion_error
      else ((if ltb p.dim p.know_extents_from
            then ok (record p { extents = set p.extents p.dim count; know_extents_from = p.dim })
            else if not (count == get_or p.extents p.dim 0)
            then err conversion_error
            else ok p)
          >>= λ q. parse_field_end sep input (here + 1) >>= λ next.
              ok (next, record q { dim = dim_down p.dim }))

  -- An element.
  unfoldable pub add_element :
      ℕ → EncodingGroup → FieldReader A → ℕ → Bytes → ℕ → Parsing A → Result (ℕ × Parsing A)
  unfolding parse_field_end
  add_element sep enc reader dimensions input here p =
      if not (p.dim == dimensions - 1)
      then err conversion_error
      else (read_element sep enc reader input here >>= λ (v, end).
          parse_field_end sep input end >>= λ next. ok (
            next,
            record p {
              counts = set p.counts p.dim (get_or p.counts p.dim 0 + 1);
              elts = p.elts ++ v ∷ [];
            },
          ))

  -- A round of the loop.
  unfoldable pub parse_round :
      ℕ → EncodingGroup → FieldReader A → ℕ → Bytes → ℕ → Parsing A → Result (ℕ × Parsing A)
  parse_round sep enc reader dimensions input here p =
      if byte_at input here == open_brace
      then open_row dimensions here p
      else if byte_at input here == close_brace
      then close_row sep input here p
      else add_element sep enc reader dimensions input here p

  unfoldable pub parse_rounds :
      ℕ → ℕ → EncodingGroup → FieldReader A → ℕ → Bytes → ℕ → Parsing A → Result (Parsing A)
  parse_rounds zero sep enc reader dimensions input here p = err fuel_out
  parse_rounds (suc fuel) sep enc reader dimensions input here p =
      if ltb here (length input)
      then (parse_round sep enc reader dimensions input here p >>= λ (next, q).
          parse_rounds fuel sep enc reader dimensions input next q)
      else ok p

  -- `parse<ENC>`; `garbage` is what the arrays of extents and factors hold before.
  unfoldable pub parse :
      ℕ → EncodingGroup → FieldReader A → ℕ → List ℕ → List ℕ → Bytes → Result (Array A)
  unfolding check_dims parse_rounds init_factors
  parse sep enc reader dimensions extents factors input =
      check_dims dimensions input
      >> (parse_rounds (suc (length input)) sep enc reader dimensions input 0 (record {
        know_extents_from = dimensions;
        dim = outer;
        counts = replicate dimensions 0;
        extents = extents;
        elts = [];
      })
          >>= λ p.
              if not (p.dim == outer)
              then err conversion_error
              else ok (record {
                elts = p.elts;
                extents = p.extents;
                factors = init_factors p.extents factors;
              }))

  -- The constructor's switch on the encoding group.
  unfoldable pub make_array :
      ℕ → EncodingGroup → FieldReader A → ℕ → List ℕ → List ℕ → Bytes → Result (Array A)
  make_array sep unknown reader dimensions extents factors input = err usage_error
  make_array sep enc reader dimensions extents factors input =
      parse sep enc reader dimensions extents factors input
