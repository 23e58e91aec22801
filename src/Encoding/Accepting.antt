-- ===== src/Encoding/Accepting.antt =====
-- What a scanner accepts is a character of its encoding group.
use libpqxx.Prelude.{
  ℕ, zero, suc, ◌+◌, ◌≤◌, ◌<◌, ◌≡◌, refl, sym, ap, ◌∙◌, ◌⊎◌, inl, inr, Bool-cases, false, ◌&&◌, not,
  Bytes, byte_at, take, drop, take-append-drop, [], ◌∷◌, ◌++◌, length, ltb, leb, ◌==◌,
  if◌then◌else◌, arith, ok, err, Error, argument_error,
}
use libpqxx.Encoding.Scanner.{
  EncodingGroup, unknown, ascii_safe, two_tier, gb18030, sjis, scan_ascii_safe, scan_two_tier,
  throw_for_encoding_error, throw_for_truncated_character, scan_gb18030, scan_sjis, glyph_scanner,
  between_inc, get_byte,
}
use libpqxx.Encoding.Text.{
  Glyph, byte, tier_ascii, tier_pair, gb_ascii, gb_pair, gb_quad, jis_ascii, jis_kana, jis_pair,
  lead, trail,
}

drop-cons :
    (buffer : Bytes) (i : ℕ)
    → i < length buffer
    → drop i buffer ≡ byte_at buffer i ∷ drop (i + 1) buffer
drop-cons [] i h = absurd (omega arith)
drop-cons (x ∷ buffer) zero h = refl
drop-cons (x ∷ buffer) (suc i) h =
    let e : suc i + 1 ≡ suc (i + 1) = omega arith in rw e (drop-cons buffer i (omega arith))

-- The character stands between `start` and `next`.
abbrev pub StandsAt : {enc : EncodingGroup} → Bytes → ℕ → ℕ → Glyph enc → Type 0
StandsAt buffer start next g =
    (next ≡ start + suc (length (trail g)))
    × (buffer ≡ take start buffer ++ lead g ∷ (trail g ++ drop next buffer))

one_byte :
    (buffer : Bytes) (start : ℕ)
    → start < length buffer
    → buffer ≡ take start buffer ++ byte_at buffer start ∷ drop (start + 1) buffer
one_byte buffer start h =
    sym (take-append-drop start buffer)
    ∙ ap (λ (t : Bytes). take start buffer ++ t) (drop-cons buffer start h)

two_bytes :
    (buffer : Bytes) (start : ℕ)
    → start + 2 ≤ length buffer
    → buffer
      ≡ take start buffer
        ++ byte_at buffer start ∷ byte_at buffer (start + 1) ∷ drop (start + 2) buffer
two_bytes buffer start h =
    let e : start + 1 + 1 ≡ start + 2 = omega arith in
    let second = rw e at (drop-cons buffer (start + 1) (omega arith)) in
    one_byte buffer start (omega arith)
    ∙ ap (λ (t : Bytes). take start buffer ++ byte_at buffer start ∷ t) second

four_bytes :
    (buffer : Bytes) (start : ℕ)
    → start + 4 ≤ length buffer
    → buffer
      ≡ take start buffer
        ++ byte_at buffer start
          ∷ byte_at buffer (start + 1)
          ∷ byte_at buffer (start + 2)
          ∷ byte_at buffer (start + 3)
          ∷ drop (start + 4) buffer
four_bytes buffer start h =
    let e : start + 2 + 1 ≡ start + 3 = omega arith in
    let e' : start + 3 + 1 ≡ start + 4 = omega arith in
    let third = rw e at (drop-cons buffer (start + 2) (omega arith)) in
    let fourth = rw e' at (drop-cons buffer (start + 3) (omega arith)) in
    two_bytes buffer start (omega arith)
    ∙ ap (λ (t : Bytes). take start buffer ++ byte_at buffer start ∷ byte_at buffer (start + 1) ∷ t)
        (third ∙ ap (λ (t : Bytes). byte_at buffer (start + 2) ∷ t) fourth)

ok_eq : {a b : ℕ} → ok a ≡ ok b → b ≡ a
ok_eq {a = a} {b = b} h = ground arith

no_error : {e : Error} {n : ℕ} → err e ≡ ok n → ⊥
no_error h = cc

sjis_lead :
    (a : ℕ)
    → (not (leb 0x81 a && leb a 0x9f) && not (leb 0xe0 a && leb a 0xfc)) ≡ false
    → ((0x81 ≤ a) × (a ≤ 0x9f)) ⊎ ((0xe0 ≤ a) × (a ≤ 0xfc))
sjis_lead a h = elim (Bool-cases (leb 0x81 a && leb a 0x9f)) [
  | inl low ↦ inl (ground arith, ground arith)
  | inr high ↦ inr (ground arith, ground arith)
]

module _ (buffer : Bytes) (start next : ℕ) (inside : start < length buffer) where
  ascii_safe_reads :
      scan_ascii_safe buffer start ≡ ok next → (g : Glyph ascii_safe) × StandsAt buffer start next g
  unfolding scan_ascii_safe
  ascii_safe_reads h =
      let ended : next ≡ start + 1 = ok_eq h in
      (byte (byte_at buffer start), (ended, rw ended (one_byte buffer start inside)))

  two_tier_reads :
      scan_two_tier buffer start ≡ ok next → (g : Glyph two_tier) × StandsAt buffer start next g
  unfolding scan_two_tier get_byte throw_for_truncated_character
  two_tier_reads h = elim (Bool-cases (ltb (byte_at buffer start) 0x80)) [
    | inl ascii ↦
        let ended : next ≡ start + 1 = ok_eq (rw ascii at h) in
        (
          tier_ascii (byte_at buffer start) (ground arith),
          (ended, rw ended (one_byte buffer start inside)),
        )
    | inr high ↦ elim (Bool-cases (leb (start + 2) (length buffer))) [
      | inl fits ↦
          let ended : next ≡ start + 2 = ok_eq (rw (high, fits) at h) in
          (
            tier_pair (byte_at buffer start) (byte_at buffer (start + 1)) (ground arith),
            (ended, rw ended (two_bytes buffer start (ground arith))),
          )
      | inr short ↦ absurd (no_error (rw (high, short) at h))
    ]
  ]

  sjis_reads : scan_sjis buffer start ≡ ok next → (g : Glyph sjis) × StandsAt buffer start next g
  unfolding scan_sjis get_byte between_inc throw_for_truncated_character throw_for_encoding_error
  sjis_reads h =
      let a = byte_at buffer start in
      elim (Bool-cases (ltb a 0x80)) [
        | inl ascii ↦
            let ended : next ≡ start + 1 = ok_eq (rw ascii at h) in
            (jis_ascii a (ground arith), (ended, rw ended (one_byte buffer start inside)))
        | inr high ↦ elim (Bool-cases (leb 0xa1 a && leb a 0xdf)) [
          | inl kana ↦
              let ended : next ≡ start + 1 = ok_eq (rw (high, kana) at h) in
              (
                jis_kana a (ground arith) (ground arith),
                (ended, rw ended (one_byte buffer start inside)),
              )
          | inr pair ↦
              elim (Bool-cases (not (leb 0x81 a && leb a 0x9f) && not (leb 0xe0 a && leb a 0xfc))) [
                | inl bad ↦ absurd (no_error (rw (high, pair, bad) at h))
                | inr good ↦ elim (Bool-cases (ltb (length buffer) (start + 2))) [
                  | inl short ↦ absurd (no_error (rw (high, pair, good, short) at h))
                  | inr fits ↦
                      let ended : next ≡ start + 2 = ok_eq (rw (high, pair, good, fits) at h) in
                      (
                        jis_pair a (byte_at buffer (start + 1)) (sjis_lead a good),
                        (ended, rw ended (two_bytes buffer start (ground arith))),
                      )
                ]
              ]
        ]
      ]

  -- A character of GB18030 of four bytes.
  gb_quad_reads :
      start + 4 ≤ length buffer
      → 0x80 < byte_at buffer start
      → (if (leb 0x30 (byte_at buffer (start + 1)) && leb (byte_at buffer (start + 1)) 0x39)
            && (leb 0x81 (byte_at buffer (start + 2)) && leb (byte_at buffer (start + 2)) 0xfe)
            && (leb 0x30 (byte_at buffer (start + 3)) && leb (byte_at buffer (start + 3)) 0x39)
          then ok (start + 4)
          else err argument_error)
        ≡ ok next
      → (g : Glyph gb18030) × StandsAt buffer start next g
  gb_quad_reads fits high h =
      let b = byte_at buffer (start + 1) in
      let c = byte_at buffer (start + 2) in
      let d = byte_at buffer (start + 3) in
      elim (Bool-cases
        ((leb 0x30 b && leb b 0x39) && (leb 0x81 c && leb c 0xfe) && (leb 0x30 d && leb d 0x39))) [
          | inl good ↦
              let ended : next ≡ start + 4 = ok_eq (rw good at h) in
              (
                gb_quad (byte_at buffer start) b c d high (ground arith) (ground arith)
                    (ground arith) (ground arith) (ground arith) (ground arith),
                (ended, rw ended (four_bytes buffer start fits)),
              )
          | inr bad ↦ absurd (no_error (rw bad at h))
        ]

  gb18030_reads :
      scan_gb18030 buffer start ≡ ok next → (g : Glyph gb18030) × StandsAt buffer start next g
  unfolding scan_gb18030 get_byte between_inc throw_for_truncated_character throw_for_encoding_error
  gb18030_reads h =
      let a = byte_at buffer start in
      let b = byte_at buffer (start + 1) in
      elim (Bool-cases (ltb a 0x80)) [
        | inl ascii ↦
            let ended : next ≡ start + 1 = ok_eq (rw ascii at h) in
            (gb_ascii a (ground arith), (ended, rw ended (one_byte buffer start inside)))
        | inr not_ascii ↦ elim (Bool-cases (a == 0x80)) [
          | inl bad ↦ absurd (no_error (rw (not_ascii, bad) at h))
          | inr other ↦
              let high : 0x80 < a = ground arith in
              elim (Bool-cases (ltb (length buffer) (start + 2))) [
                | inl short ↦ absurd (no_error (rw (not_ascii, other, short) at h))
                | inr two ↦ elim (Bool-cases (leb 0x40 b && leb b 0xfe)) [
                  | inl second ↦ elim (Bool-cases (b == 0x7f)) [
                    | inl bad ↦ absurd (no_error (rw (not_ascii, other, two, second, bad) at h))
                    | inr good ↦
                        let ended : next ≡ start + 2 =
                          ok_eq (rw (not_ascii, other, two, second, good) at h) in
                        (
                          gb_pair a b high (ground arith) (ground arith) (ground arith),
                          (ended, rw ended (two_bytes buffer start (ground arith))),
                        )
                  ]
                  | inr long ↦ elim (Bool-cases (ltb (length buffer) (start + 4))) [
                    | inl short ↦ absurd (no_error (rw (not_ascii, other, two, long, short) at h))
                    | inr four ↦
                        gb_quad_reads (ground arith) high
                          (rw (not_ascii, other, two, long, four) at h)
                  ]
                ]
              ]
        ]
      ]

-- What a scanner accepts is one character of its encoding group, which ends where the scanner says: the
-- text is what stands before it, the character's bytes, and the rest. So a scanner refuses every text
-- that does not go on with a character of the group.
pub glyph_scanner-StandsAt :
    (enc : EncodingGroup) (buffer : Bytes) (start next : ℕ)
    → start < length buffer
    → glyph_scanner enc buffer start ≡ ok next
    → (g : Glyph enc) × StandsAt buffer start next g
unfolding glyph_scanner
glyph_scanner-StandsAt unknown buffer start next inside h = absurd (no_error h)
glyph_scanner-StandsAt ascii_safe buffer start next inside h =
    ascii_safe_reads buffer start next inside h
glyph_scanner-StandsAt two_tier buffer start next inside h =
    two_tier_reads buffer start next inside h
glyph_scanner-StandsAt gb18030 buffer start next inside h = gb18030_reads buffer start next inside h
glyph_scanner-StandsAt sjis buffer start next inside h = sjis_reads buffer start next inside h
