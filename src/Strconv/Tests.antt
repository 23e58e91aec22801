-- ===== src/Strconv/Tests.antt =====
-- The properties at concrete inputs: the bottom value of a `short`, and Boolean values.
use libpqxx.Prelude.{
  ◌≡◌, ◌≤◌, refl, true, arith, Bytes, codes, bytes_eq, Bool, false, ok, err, conversion_error,
  length,
}
use libpqxx.Prelude.Int.{negsuc}
use libpqxx.Strconv.Booleans.{
  bool_from_string, bool_to_buf, spelled, spellings, bool_from_string-spelled,
}
use libpqxx.Strconv.{IntType, size_buffer, to_buf, IsDecimal, to_buf-IsDecimal}

abbrev short : IntType
short = record { is_signed = true; bits = 16; digits10 = 4 }

to_buf-IsDecimal_example :
    (text : Bytes) × (to_buf short 6 (negsuc 32767) ≡ ok text)
    × IsDecimal (negsuc 32767) text
    × (length text ≤ size_buffer short)
unfolding size_buffer
to_buf-IsDecimal_example =
    to_buf-IsDecimal short 6 (negsuc 32767) (refl, omega arith) (omega arith) (omega arith)

bool_to_buf_reads : (b : Bool) → bool_from_string (bool_to_buf b) ≡ ok b
unfolding bool_from_string bool_to_buf bytes_eq
bool_to_buf_reads true = refl
bool_to_buf_reads false = refl

mixed_case : bool_from_string (codes "True") ≡ err conversion_error
unfolding bool_from_string bytes_eq
mixed_case = refl

bool_from_string-spelled_example :
    bool_from_string (codes "FALSE") ≡ spelled spellings (codes "FALSE")
bool_from_string-spelled_example = bool_from_string-spelled (codes "FALSE")
