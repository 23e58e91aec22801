-- ===== src/Encoding/Text.antt =====
-- Well encoded text, character by character, and what the scanners and the finder do on it.
use libpqxx.Prelude.{
  ℕ, suc, ◌+◌, ◌≤◌, ◌<◌, ◌≡◌, ◌≢◌, ◌⊎◌, inl, inr, refl, Bytes, List, [], ◌∷◌, ◌++◌, length,
  length-append, arith, ok, byte_at-append, byte_at-length,
}
use libpqxx.Encoding.Scanner.{
  EncodingGroup, unknown, ascii_safe, two_tier, gb18030, sjis, glyph_scanner,
}

-- One character, as the documentation of each encoding group describes it.
pub data Glyph : EncodingGroup → Type 0 where
  byte : ℕ → Glyph ascii_safe
  tier_ascii : (c : ℕ) → c < 0x80 → Glyph two_tier
  tier_pair : (a b : ℕ) → 0x80 ≤ a → Glyph two_tier
  gb_ascii : (c : ℕ) → c < 0x80 → Glyph gb18030
  gb_pair : (a b : ℕ) → 0x80 < a → 0x40 ≤ b → b ≤ 0xfe → b ≢ 0x7f → Glyph gb18030
  gb_quad :
      (a b c d : ℕ)
      → 0x80 < a
      → 0x30 ≤ b
      → b ≤ 0x39
      → 0x81 ≤ c
      → c ≤ 0xfe
      → 0x30 ≤ d
      → d ≤ 0x39
      → Glyph gb18030
  jis_ascii : (c : ℕ) → c < 0x80 → Glyph sjis
  jis_kana : (c : ℕ) → 0xa1 ≤ c → c ≤ 0xdf → Glyph sjis
  jis_pair : (a b : ℕ) → ((0x81 ≤ a) × (a ≤ 0x9f)) ⊎ ((0xe0 ≤ a) × (a ≤ 0xfc)) → Glyph sjis

abbrev pub lead : {enc : EncodingGroup} → Glyph enc → ℕ
lead (byte c) = c
lead (tier_ascii c _) = c
lead (tier_pair a b _) = a
lead (gb_ascii c _) = c
lead (gb_pair a b _ _ _ _) = a
lead (gb_quad a b c d _ _ _ _ _ _ _) = a
lead (jis_ascii c _) = c
lead (jis_kana c _ _) = c
lead (jis_pair a b _) = a

abbrev pub trail : {enc : EncodingGroup} → Glyph enc → Bytes
trail (byte c) = []
trail (tier_ascii c _) = []
trail (tier_pair a b _) = b ∷ []
trail (gb_ascii c _) = []
trail (gb_pair a b _ _ _ _) = b ∷ []
trail (gb_quad a b c d _ _ _ _ _ _ _) = b ∷ c ∷ d ∷ []
trail (jis_ascii c _) = []
trail (jis_kana c _ _) = []
trail (jis_pair a b _) = b ∷ []

-- The bytes of a text.
abbrev pub bytes : {enc : EncodingGroup} → List (Glyph enc) → Bytes
bytes [] = []
bytes (g ∷ gs) = lead g ∷ (trail g ++ bytes gs)

-- An ASCII byte at the start of a character is that character.
pub trail_of_ascii : {enc : EncodingGroup} (g : Glyph enc) → lead g < 0x80 → trail g ≡ []
trail_of_ascii (byte c) h = refl
trail_of_ascii (tier_ascii c _) h = refl
trail_of_ascii (tier_pair a b p) h = absurd (omega arith)
trail_of_ascii (gb_ascii c _) h = refl
trail_of_ascii (gb_pair a b p _ _ _) h = absurd (omega arith)
trail_of_ascii (gb_quad a b c d p _ _ _ _ _ _) h = absurd (omega arith)
trail_of_ascii (jis_ascii c _) h = refl
trail_of_ascii (jis_kana c _ _) h = refl
trail_of_ascii (jis_pair a b (inl p)) h = absurd (omega arith)
trail_of_ascii (jis_pair a b (inr p)) h = absurd (omega arith)

pub known_of_Glyph : {enc : EncodingGroup} → Glyph enc → enc ≢ unknown
known_of_Glyph (byte c) e = cc
known_of_Glyph (tier_ascii c _) e = cc
known_of_Glyph (tier_pair a b p) e = cc
known_of_Glyph (gb_ascii c _) e = cc
known_of_Glyph (gb_pair a b p _ _ _) e = cc
known_of_Glyph (gb_quad a b c d p _ _ _ _ _ _) e = cc
known_of_Glyph (jis_ascii c _) e = cc
known_of_Glyph (jis_kana c _ _) e = cc
known_of_Glyph (jis_pair a b p) e = cc

-- At a character of well encoded text the scanner finds the end of that character, whatever
-- stands before and behind it.
pub glyph_scanner-Glyph :
    {enc : EncodingGroup} (g : Glyph enc) (pre rest : Bytes)
    → glyph_scanner enc (pre ++ lead g ∷ (trail g ++ rest)) (length pre)
      ≡ ok (length pre + suc (length (trail g)))
unfolding glyph_scanner
glyph_scanner-Glyph (byte c) pre rest = ground arith
glyph_scanner-Glyph (tier_ascii c p) pre rest = ground (arith, byte_at-length pre c rest)
glyph_scanner-Glyph (tier_pair a b p) pre rest =
    ground (arith, byte_at-length pre a (b ∷ rest), length-append pre (a ∷ b ∷ rest))
glyph_scanner-Glyph (gb_ascii c p) pre rest = ground (arith, byte_at-length pre c rest)
glyph_scanner-Glyph (gb_pair a b p q r s) pre rest = ground (
  arith,
  byte_at-length pre a (b ∷ rest),
  length-append pre (a ∷ b ∷ rest),
  byte_at-append pre (a ∷ b ∷ rest) 1,
)
glyph_scanner-Glyph (gb_quad a b c d p q r s t u v) pre rest = ground (
  arith,
  byte_at-length pre a (b ∷ c ∷ d ∷ rest),
  length-append pre (a ∷ b ∷ c ∷ d ∷ rest),
  byte_at-append pre (a ∷ b ∷ c ∷ d ∷ rest) 1,
  byte_at-append pre (a ∷ b ∷ c ∷ d ∷ rest) 2,
  byte_at-append pre (a ∷ b ∷ c ∷ d ∷ rest) 3,
)
glyph_scanner-Glyph (jis_ascii c p) pre rest = ground (arith, byte_at-length pre c rest)
glyph_scanner-Glyph (jis_kana c p q) pre rest = ground (arith, byte_at-length pre c rest)
glyph_scanner-Glyph (jis_pair a b p) pre rest =
    ground (arith, byte_at-length pre a (b ∷ rest), length-append pre (a ∷ b ∷ rest))
