-- ===== src/Crc.antt =====
-- CRC-32: crc32_buf of src/enc_util.c and the decoder's default over flash in src/patch_apply.h. The
-- primitive that reads a byte of flash is a parameter.
pub mod Detects
use ultra_patch.Base.{
  ℕ, zero, suc, ◌+◌, ◌/◌, ◌%◌, ◌≡◌, refl, List, [], ◌∷◌, bit_and, bit_xor, ap, ◌∙◌,
}
use ultra_patch.Base.Word.{u32, sub32}

-- The `k` rounds of the encoder's inner loop: shift right, and the polynomial where a one falls out.
unfoldable pub crc_bits : ℕ → ℕ → ℕ
crc_bits zero c = c
crc_bits (suc k) c = crc_bits k (bit_xor (c / 2) (bit_and 0xedb8_8320 (sub32 0 (c % 2))))

unfoldable pub crc32_loop : List ℕ → ℕ → ℕ
unfolding crc_bits
crc32_loop [] c = c
crc32_loop (b ∷ p) c = crc32_loop p (crc_bits 8 (bit_xor c b))

unfoldable pub crc32_buf : List ℕ → ℕ
unfolding crc32_loop
crc32_buf p = bit_xor (crc32_loop p 0xffff_ffff) 0xffff_ffff

-- The `k` rounds of the decoder's inner loop.
unfoldable pub crc_flash_bits : ℕ → ℕ → ℕ
crc_flash_bits zero c = c
crc_flash_bits (suc k) c =
    crc_flash_bits k (bit_xor (c / 2) (bit_and 0xedb8_8320 (sub32 0 (c % 2))))

bits_agree : (k c : ℕ) → crc_flash_bits k c ≡ crc_bits k c
unfolding crc_flash_bits crc_bits
bits_agree zero c = refl
bits_agree (suc k) c = bits_agree k (bit_xor (c / 2) (bit_and 0xedb8_8320 (sub32 0 (c % 2))))

module _ (flash_read : ℕ → ℕ) where
  unfoldable pub crc32_flash_loop : ℕ → ℕ → ℕ → ℕ → ℕ
  unfolding crc_flash_bits
  crc32_flash_loop zero start i c = c
  crc32_flash_loop (suc left) start i c =
      crc32_flash_loop left start (i + 1)
        (crc_flash_bits 8 (bit_xor c (flash_read (u32 (start + i)))))

  unfoldable pub crc32_decode_default : ℕ → ℕ → ℕ
  crc32_decode_default start size = bit_xor (crc32_flash_loop size start 0 0xffff_ffff) 0xffff_ffff

  -- The bytes of flash from `start + i` on.
  unfoldable pub flash_bytes : ℕ → ℕ → ℕ → List ℕ
  flash_bytes zero start i = []
  flash_bytes (suc left) start i = flash_read (u32 (start + i)) ∷ flash_bytes left start (i + 1)

  loops_agree :
      (left start i c : ℕ)
      → crc32_flash_loop left start i c ≡ crc32_loop (flash_bytes left start i) c
  unfolding crc32_flash_loop crc32_loop flash_bytes
  loops_agree zero start i c = refl
  loops_agree (suc left) start i c =
      let x = bit_xor c (flash_read (u32 (start + i))) in
      ap (crc32_flash_loop left start (i + 1)) (bits_agree 8 x)
      ∙ loops_agree left start (i + 1) (crc_bits 8 x)

  -- For every flash, start and size, the decoder's CRC of a range is the encoder's CRC of the bytes
  -- that the range holds.
  pub crc32_decode_default-crc32_buf :
      (start size : ℕ) → crc32_decode_default start size ≡ crc32_buf (flash_bytes size start 0)
  unfolding crc32_decode_default crc32_buf
  crc32_decode_default-crc32_buf start size =
      ap (λ c. bit_xor c 0xffff_ffff) (loops_agree size start 0 0xffff_ffff)
