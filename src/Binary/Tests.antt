-- ===== src/Binary/Tests.antt =====
-- The properties of `esc_bin` and `unesc_bin`, at concrete inputs.
use libpqxx.Prelude.{ℕ, ◌≡◌, refl, arith, [], ◌∷◌, ok, length, codes}
use libpqxx.Binary.{
  nibble, size_esc_bin, size_unesc_bin, esc_bin_buffer, esc_bin, unesc_bin, esc_bin-sizes,
  unesc_bin-esc_bin, unesc_bin-length,
}

esc_bin-sizes_example :
    (length (esc_bin_buffer (0xca ∷ 0xfe ∷ [])) ≡ size_esc_bin 2)
    × (size_unesc_bin (length (esc_bin (0xca ∷ 0xfe ∷ []))) ≡ 2)
esc_bin-sizes_example = esc_bin-sizes (0xca ∷ 0xfe ∷ [])

unesc_bin-esc_bin_example : unesc_bin (esc_bin (0xca ∷ 0xfe ∷ [])) ≡ ok (0xca ∷ 0xfe ∷ [])
unesc_bin-esc_bin_example = unesc_bin-esc_bin (0xca ∷ 0xfe ∷ []) (omega arith, (omega arith, tt))

unesc_bin-length_example : length {A = ℕ} (0xca ∷ []) ≡ size_unesc_bin (length (codes "\\xCa"))
unfolding unesc_bin nibble
unesc_bin-length_example = unesc_bin-length (codes "\\xCa") (0xca ∷ []) refl
