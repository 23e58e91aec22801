-- ===== src/Composite/Defects.antt =====
-- Where composite values are not written as they are read.
use libpqxx.Prelude.{
  ℕ, zero, suc, ◌+◌, ◌*◌, ◌^◌, ◌≤◌, ◌<◌, ◌≡◌, ◌≢◌, ◌⊎◌, inl, refl, ap, ◌∙◌, true, false, Bytes,
  byte_at-length, List, [], ◌∷◌, ◌++◌, append-nil, append_assoc, length, length-append, ltb, ◌==◌,
  arith, ok, err, conversion_error, argument_error, out_of_bounds,
}
use libpqxx.Encoding.Scanner.{EncodingGroup, unknown}
use libpqxx.Encoding.Finder.{is_needle, find_ascii_char}
use libpqxx.Encoding.Text.{Glyph, lead, trail, bytes}
use libpqxx.Encoding.Search.{IsClean, bytes-append, find_ascii_char-skip}
use libpqxx.Array.Quoted.{quote, backslash, specials, scan_loop, scan_double_quoted_string}
use libpqxx.Array.Escaped.{specials-IsAscii, StopsAt-backslash, IsClean-append, scan_loop-escape}
use libpqxx.Composite.Reader.{
  comma, open_parenthesis, close_parenthesis, read_field, end_field, parse_fields, parse_composite,
  parse_composite_field, FieldReader,
}
use libpqxx.Composite.Buffer.{write_all-Wrote, write_all-past}
use libpqxx.Composite.Writer.{
  Field, in_value, quoted_field, escape_bytes, quote_text, write_field, write_composite_field,
  write_fields, composite_into_buf, composite_size_buffer,
}
use libpqxx.Composite.Escaping.{escape_into-value, write_composite_field-Wrote}
use libpqxx.Composite.Writing.{composite_into_buf-single}
use libpqxx.Composite.Fields.{render_field, IsPlain, HasPlainTrails, escape_bytes-plain}
use libpqxx.Composite.Reading.{read_field-render}
use libpqxx.Composite.Cells.{
  Cell, IsReadable, IsSized, readers, fields, field_room, specialize-known,
}

-- Every byte is a quote or a backslash.
abbrev pub IsAllSpecial : Bytes → Type 0
IsAllSpecial [] = Unit {0}
IsAllSpecial (x ∷ xs) = ((x ≡ quote) ⊎ (x ≡ backslash)) × IsAllSpecial xs

length-escape_bytes : (t : Bytes) → IsAllSpecial t → length (escape_bytes t) ≡ 2 * length t
unfolding escape_bytes
length-escape_bytes [] h = omega arith
length-escape_bytes (x ∷ t) h = ground (arith, length-escape_bytes t h.1)

two_quoted_size :
    (n m : ℕ) (t u : Bytes)
    → 0 < n
    → 0 < m
    → n + m < 2 ^ 62
    → composite_size_buffer (quoted_field in_value t n ∷ quoted_field in_value u m ∷ [])
      ≡ 2 * n + 2 * m + 4
unfolding composite_size_buffer
two_quoted_size n m t u pn pm small = omega arith

-- The writer comes to the end of the buffer inside the text.
quote_text-past :
    (text out rest : Bytes) (budget : ℕ)
    → budget < length (out ++ rest)
    → 1 ≤ length rest
    → length rest ≤ length (escape_bytes text)
    → quote_text in_value text budget (out ++ rest, length out) ≡ err out_of_bounds
unfolding quote_text
quote_text-past text out rest budget h some few =
    let fits : ltb budget (length (out ++ rest)) ≡ true = ground arith in
    let (behind, begun, size) = write_all-Wrote (quote ∷ []) out rest some in
    let out' = out ++ quote ∷ [] in
    rw
      (
        fits,
        begun,
        escape_into-value [] text (out' ++ behind) (length out'),
        write_all-past (escape_bytes text) out' behind (omega arith),
      )
      refl

-- Two fields of type `std::string`: `to_buf` returns the string itself, `size_buffer` its size.
abbrev pub two_strings : Bytes → Bytes → List Field
two_strings t u = quoted_field in_value t (length t) ∷ quoted_field in_value u (length u) ∷ []

-- Two strings of quotes and backslashes, neither empty and of less than 2 ^ 62 bytes together: the code
-- writes past the end of a buffer of exactly the size that
-- `composite_size_buffer` estimates.
pub composite_size_buffer_too_small :
    (t u buffer : Bytes)
    → IsAllSpecial t
    → IsAllSpecial u
    → 0 < length t
    → 0 < length u
    → length t + length u < 2 ^ 62
    → length buffer ≡ composite_size_buffer (two_strings t u)
    → composite_into_buf buffer (two_strings t u) ≡ err out_of_bounds
unfolding composite_into_buf write_fields write_composite_field write_field
composite_size_buffer_too_small t u buffer ht hu pt pu small exact =
    let fs = two_strings t u in
    let enough : ltb (length buffer) (composite_size_buffer fs) ≡ false = ground arith in
    let estimate = two_quoted_size (length t) (length u) t u pt pu small in
    let st = length-escape_bytes t ht in
    let su = length-escape_bytes u hu in
    let (rest, begun, size) = write_all-Wrote (open_parenthesis ∷ []) [] buffer (omega arith) in
    let out = open_parenthesis ∷ [] in
    let first = quote ∷ (escape_bytes t ++ quote ∷ []) in
    let quoted = length-append (escape_bytes t) (quote ∷ []) in
    let (behind, wrote, size') =
      write_composite_field-Wrote (quoted_field in_value t (length t)) out rest
        (omega arith, omega arith, tt) (omega arith) in
    let out' = out ++ (first ++ comma ∷ []) in
    let count : length (first ++ comma ∷ []) ≡ length first + 1 =
      length-append first (comma ∷ []) in
    let total : length (out' ++ behind) ≡ length out' + length behind = length-append out' behind in
    rw
      (
        enough,
        begun,
        wrote,
        quote_text-past u out' behind (length u) (omega arith) (omega arith) (omega arith),
      )
      refl

parse_fields-fails :
    {A : Type 0} (enc : EncodingGroup) (reader : FieldReader A) (rs : List (FieldReader A))
    (index here last_field stop : ℕ) (text : Bytes) (v : A)
    → enc ≢ unknown
    → read_field enc reader text here ≡ ok (v, stop)
    → end_field index text stop last_field ≡ err conversion_error
    → parse_fields enc (reader ∷ rs) index text here last_field ≡ err conversion_error
unfolding parse_fields parse_composite_field
parse_fields-fails {A} enc reader rs index here last_field stop text v known read ended =
    rw (specialize-known {A = A} enc known, read, ended)

end_field-extra :
    (index : ℕ) (q tail : Bytes)
    → end_field index (q ++ comma ∷ tail) (length q) index ≡ err conversion_error
unfolding end_field
end_field-extra index q tail = ground (arith, byte_at-length q comma tail)

-- A single field is written with a comma behind it, and the text does not parse in the same known
-- encoding group, although the field's reader reads its text and the buffer has room for it (as in
-- `composite_round_trip`): a composite value of one field does not survive.
pub single_field_fails :
    {enc : EncodingGroup} {A : Type 0} (c : Cell enc A) (scratch : ℕ) (buffer : Bytes)
    → enc ≢ unknown
    → IsReadable c
    → IsSized c.text (length buffer) scratch
    → field_room c.text + scratch + 4 ≤ length buffer
    → composite_size_buffer (fields (c ∷ [])) ≤ length buffer
    → (written : Bytes) × (composite_into_buf buffer (fields (c ∷ [])) ≡ ok written)
      × (parse_composite enc written (readers (c ∷ [])) ≡ err conversion_error)
unfolding parse_composite
single_field_fails {enc} c scratch buffer known r s roomy enough =
    let text = render_field c.text in
    let written = open_parenthesis ∷ ((text ++ comma ∷ []) ++ close_parenthesis ∷ []) in
    let read =
      read_field-render c.text c.reader c.value (open_parenthesis ∷ []) comma
        (close_parenthesis ∷ []) known r.is_text (inl refl) r.reads in
    let some_text : (suc (length (text ++ comma ∷ close_parenthesis ∷ [])) == 0) ≡ false =
      ground arith in
    let ended = end_field-extra 0 (open_parenthesis ∷ text) (close_parenthesis ∷ []) in
    (
      written,
      composite_into_buf-single c scratch buffer (r, tt) (s, tt) (omega arith) enough,
      rw (append_assoc text (comma ∷ []) (close_parenthesis ∷ [])) (
          rw (
            parse_fields-fails enc c.reader [] 0 1 0 (suc (length text))
                (open_parenthesis ∷ (text ++ comma ∷ close_parenthesis ∷ [])) c.value known read
                ended,
            some_text,
          )),
    )

IsPlain-append : (a b : Bytes) → IsPlain a → IsPlain b → IsPlain (a ++ b)
IsPlain-append [] b ha hb = hb
IsPlain-append (x ∷ a) b ha hb = (ha.0, IsPlain-append a b ha.1 hb)

bytes-IsPlain :
    {enc : EncodingGroup} (gs : List (Glyph enc))
    → IsClean specials gs
    → HasPlainTrails gs
    → IsPlain (bytes gs)
bytes-IsPlain [] clean trails = tt
bytes-IsPlain (g ∷ gs) clean trails =
    (clean.0, IsPlain-append (trail g) (bytes gs) trails.0 (bytes-IsPlain gs clean.1 trails.1))

escape_bytes-split :
    {enc : EncodingGroup} (gs : List (Glyph enc)) (g : Glyph enc)
    → IsClean specials gs
    → HasPlainTrails gs
    → is_needle specials (lead g) ≡ false
    → trail g ≡ backslash ∷ []
    → escape_bytes (bytes (gs ++ g ∷ [])) ≡ bytes (gs ++ g ∷ []) ++ backslash ∷ []
escape_bytes-split gs g clean trails plain h =
    rw
      (
        bytes-append gs (g ∷ []),
        h,
        escape_bytes-plain (bytes gs) (lead g ∷ backslash ∷ []) (bytes-IsPlain gs clean trails),
        append_assoc (bytes gs) (lead g ∷ backslash ∷ []) (backslash ∷ []),
      )
      (ap (λ t. bytes gs ++ t)
        (escape_bytes-plain (lead g ∷ []) (backslash ∷ []) (plain, tt)
          ∙ unfold escape_bytes in refl))

scan_loop-end :
    (fuel : ℕ) (enc : EncodingGroup) (input : Bytes)
    → 0 < fuel
    → scan_loop fuel enc input (length input) ≡ err argument_error
unfolding scan_loop
scan_loop-end zero enc input h = elim h [ ]
scan_loop-end (suc fuel) enc input h =
    let past : ltb (length input) (length input) ≡ false = ground arith in rw past

-- Text that ends in a multibyte character whose second byte looks like a backslash is written with
-- that byte escaped on its own. Behind such a field no quote ends it for the scanner of the same
-- encoding: with any clean text behind it, the scan throws.
pub split_character_fails :
    {enc : EncodingGroup} (gs cs : List (Glyph enc)) (g : Glyph enc) (pre : Bytes)
    → enc ≢ unknown
    → IsClean specials gs
    → HasPlainTrails gs
    → is_needle specials (lead g) ≡ false
    → trail g ≡ backslash ∷ []
    → IsClean specials cs
    → 0 < length (bytes cs)
    → scan_double_quoted_string enc
        (pre ++ quote ∷ (escape_bytes (bytes (gs ++ g ∷ [])) ++ quote ∷ bytes cs))
        (length pre)
      ≡ err argument_error
unfolding scan_double_quoted_string
split_character_fails {enc} gs cs g pre known clean trails plain h after some =
    let body = bytes (gs ++ g ∷ []) in
    let pre' = pre ++ quote ∷ [] in
    let size : length pre' ≡ length pre + 1 = length-append pre (quote ∷ []) in
    let rest = backslash ∷ quote ∷ bytes cs in
    let q = pre' ++ body in
    let input = q ++ rest in
    let shape : pre ++ quote ∷ ((body ++ backslash ∷ []) ++ quote ∷ bytes cs) ≡ input =
      simp append_assoc in
    let found =
      find_ascii_char-skip specials (gs ++ g ∷ []) pre' rest known specials-IsAscii
        (IsClean-append specials gs g clean plain) (StopsAt-backslash (quote ∷ bytes cs)) in
    let q' = q ++ backslash ∷ quote ∷ [] in
    let size' : length q' ≡ length q + 2 = length-append q (backslash ∷ quote ∷ []) in
    let shape' : (q' ++ bytes cs) ++ [] ≡ input = simp (append_assoc, append-nil) in
    let whole : q' ++ bytes cs ≡ input = simp append_assoc in
    let found' : find_ascii_char enc specials input (length q + 2) ≡ ok (length input) =
      rw (shape', size', whole) at
        (find_ascii_char-skip specials cs q' [] known specials-IsAscii after tt) in
    let positive : 0 < length input = omega (arith, length-append {0} q rest) in
    rw (escape_bytes-split gs g clean trails plain h, shape, ← size, found)
      (scan_loop-escape (length input) enc q quote (bytes cs) (inl refl) some
        ∙ rw found' (scan_loop-end (length input) enc input positive))
