-- ===== src/Encoding/Group.antt =====
-- The lookup of an encoding group by PostgreSQL's name for the encoding (src/encodings.cxx).
-- `pg_encoding_to_char` is libpq's, so `name_encoding` takes it as an argument.
use libpqxx.Prelude.{
  ℕ, ◌≡◌, refl, Bool, ◌&&◌, ◌||◌, Bytes, codes, byte_at, drop, take, bytes_eq, List, [], ◌∷◌,
  length, ltb, leb, ◌==◌, if◌then◌else◌, Result, ok, err, argument_error,
}
use libpqxx.Encoding.Scanner.{EncodingGroup, ascii_safe, two_tier, gb18030, sjis}

unfoldable pub same : Bytes → Bytes → Bool
unfolding bytes_eq
same a b = bytes_eq a b

abbrev pub windows_subtypes : List Bytes
windows_subtypes =
    codes "866"
    ∷ codes "874"
    ∷ codes "1250"
    ∷ codes "1251"
    ∷ codes "1252"
    ∷ codes "1253"
    ∷ codes "1254"
    ∷ codes "1255"
    ∷ codes "1256"
    ∷ codes "1257"
    ∷ codes "1258"
    ∷ []

-- `text.starts_with(prefix)`.
unfoldable pub starts_with : Bytes → Bytes → Bool
unfolding bytes_eq
starts_with text prefix = bytes_eq (take (length prefix) text) prefix

unrecognized : Result EncodingGroup
unrecognized = err argument_error

-- `for (auto const n : windows_subtypes) if (same(n, subtype)) return ascii_safe;`
windows_group : List Bytes → Bytes → Result EncodingGroup
unfolding same unrecognized
windows_group [] subtype = unrecognized
windows_group (n ∷ names) subtype =
    if same n subtype then ok ascii_safe else windows_group names subtype

latin_group : Bytes → Result EncodingGroup
unfolding same unrecognized
latin_group subtype =
    let n = byte_at subtype 0 in
    if length subtype == 1
    then (if leb b'1' n && leb n b'9' then ok ascii_safe else unrecognized)
    else if same subtype (codes "10")
    then ok ascii_safe
    else unrecognized

-- The switch on the first byte; a `break` leads to the exception.
by_first_byte : ℕ → Bytes → Result EncodingGroup
unfolding same starts_with unrecognized windows_group latin_group
by_first_byte c name =
    if c == b'B'
    then (if same name (codes "BIG5") then ok two_tier else unrecognized)
    else if c == b'E'
    then (if starts_with name (codes "EUC_") then ok ascii_safe else unrecognized)
    else if c == b'G'
    then (if same name (codes "GB18030")
        then ok gb18030
        else if same name (codes "GBK")
        then ok gb18030
        else unrecognized)
    else if c == b'I'
    then (let subtype = byte_at name 9 in
        if length name == 10 && starts_with name (codes "ISO_8859_")
        then (if leb b'5' subtype && ltb subtype b'9' then ok ascii_safe else unrecognized)
        else unrecognized)
    else if c == b'K'
    then (if same name (codes "KOI8R") || same name (codes "KOI8U")
        then ok ascii_safe
        else unrecognized)
    else if c == b'L'
    then (if starts_with name (codes "LATIN") then latin_group (drop 5 name) else unrecognized)
    else if c == b'M'
    then (if same name (codes "MULE_INTERNAL") then ok ascii_safe else unrecognized)
    else if c == b'S'
    then (if same name (codes "SHIFT_JIS_2004")
        then ok sjis
        else if same name (codes "SJIS")
        then ok sjis
        else if same name (codes "SQL_ASCII")
        then ok ascii_safe
        else unrecognized)
    else if c == b'U'
    then (if same name (codes "UHC")
        then ok ascii_safe
        else if same name (codes "UTF8")
        then ok ascii_safe
        else unrecognized)
    else if c == b'W'
    then (if same (take 3 name) (codes "WIN")
        then windows_group windows_subtypes (drop 3 name)
        else unrecognized)
    else unrecognized

unfoldable pub enc_group : Bytes → Result EncodingGroup
unfolding by_first_byte unrecognized
enc_group encoding_name =
    if ltb 0 (length encoding_name)
    then by_first_byte (byte_at encoding_name 0) encoding_name
    else unrecognized

module _ (pg_encoding_to_char : ℕ → Bytes) where
  unfoldable pub name_encoding : ℕ → Bytes
  name_encoding encoding_id = pg_encoding_to_char encoding_id

  unfoldable pub enc_group_by_id : ℕ → Result EncodingGroup
  unfolding name_encoding enc_group
  enc_group_by_id libpq_enc_id = enc_group (name_encoding libpq_enc_id)

-- The names of the documentation that the source's own compile-time tests list.
euc_is_safe : enc_group (codes "EUC_JIS_2004") ≡ ok ascii_safe
unfolding enc_group
euc_is_safe = refl

windows_is_safe : enc_group (codes "WIN1258") ≡ ok ascii_safe
unfolding enc_group
windows_is_safe = refl

latin_is_safe : enc_group (codes "LATIN10") ≡ ok ascii_safe
unfolding enc_group
latin_is_safe = refl

shift_jis_is_sjis : enc_group (codes "SHIFT_JIS_2004") ≡ ok sjis
unfolding enc_group
shift_jis_is_sjis = refl
