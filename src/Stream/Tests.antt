-- ===== src/Stream/Tests.antt =====
-- The properties of this component, at concrete inputs.
use libpqxx.Prelude.{Bytes, refl, ◌≡◌, ◌≢◌, inl, arith, List, [], ◌∷◌, ok, none, some}
use libpqxx.Encoding.Scanner.{sjis, unknown}
use libpqxx.Encoding.Finder.{is_needle}
use libpqxx.Encoding.Text.{bytes, Glyph, jis_pair, jis_ascii}
use libpqxx.Stream.Writer.{text, arithmetic, write_row}
use libpqxx.Stream.Reader.{parse_line}
use libpqxx.Stream.RoundTrip.{stream_round_trip}

sjis_known : sjis ≢ unknown
sjis_known e = cc

-- A tab, and a character whose second byte is the code of a backslash.
abbrev gs : List (Glyph sjis)
gs = jis_ascii 9 (omega arith) ∷ jis_pair 0x83 0x5c (inl (omega arith)) ∷ []

abbrev seven : List (Glyph sjis)
seven = jis_ascii b'7' (omega arith) ∷ []

stream_round_trip_example :
    (line : Bytes) × (write_row sjis
        (some (text (bytes gs)) ∷ none ∷ some (arithmetic (b'7' ∷ []) 11) ∷ [])
      ≡ ok (line, []))
    × (parse_line sjis line ≡ ok (some (bytes gs) ∷ none ∷ some (b'7' ∷ []) ∷ []))
unfolding is_needle
stream_round_trip_example =
    stream_round_trip (some (text (bytes gs))) (none ∷ some (arithmetic (b'7' ∷ []) 11) ∷ [])
      (some gs) (none ∷ some seven ∷ []) sjis_known
      (refl, (tt, ((refl, (refl, tt), omega arith), tt)))
