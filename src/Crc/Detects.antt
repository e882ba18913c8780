-- ===== src/Crc/Detects.antt =====
-- What the CRC of src/enc_util.c tells apart.
use ultra_patch.Base.{
  ℕ, zero, suc, ◌/◌, ◌%◌, ◌^◌, ◌≤◌, ◌<◌, ◌≡◌, ◌≢◌, ◌⊎◌, inl, inr, refl, sym, ap, ◌∙◌, List, [], ◌∷◌,
  ◌++◌, bit_and, bit_xor, arith, subst,
}
use ultra_patch.Base.Word.{IsByte, IsU32, sub32}
use ultra_patch.Base.Bits.{bit_xor-zero}
use ultra_patch.Base.Bits.Xor.{bit_xor-lt, bit_xor_comm, bit_xor_cancel, bit_xor-≥}
use ultra_patch.Crc.{crc_bits, crc32_loop, crc32_buf}

-- One round of the inner loop.
abbrev round : ℕ → ℕ
round c = bit_xor (c / 2) (bit_and 0xedb8_8320 (sub32 0 (c % 2)))

round_even : (c : ℕ) → IsU32 c → c % 2 ≡ 0 → round c ≡ c / 2
round_even c h e =
    ap (λ b. bit_xor (c / 2) (bit_and 0xedb8_8320 (sub32 0 b))) e
    ∙ bit_xor-zero (c / 2) (omega arith)

round_odd : (c : ℕ) → c % 2 ≡ 1 → round c ≡ bit_xor (c / 2) 0xedb8_8320
round_odd c e = ap (λ b. bit_xor (c / 2) (bit_and 0xedb8_8320 (sub32 0 b))) e

parity : (c : ℕ) → (c % 2 ≡ 0) ⊎ (c % 2 ≡ 1)
parity c = ground arith

-- The top bit of a round's result is the bit that fell out.
round_small : (c : ℕ) → IsU32 c → c % 2 ≡ 0 → round c < 2 ^ 31
round_small c h e = let r = round_even c h e in omega arith

round_large : (c : ℕ) → IsU32 c → c % 2 ≡ 1 → 2 ^ 31 ≤ round c
round_large c h e =
    let r = round_odd c e in
    let top = bit_xor-≥ 31 (c / 2) 0xedb8_8320 (omega arith) (omega arith) (omega arith) in
    omega arith

round-IsU32 : (c : ℕ) → IsU32 c → IsU32 (round c)
round-IsU32 c h = elim (parity c) [
  | inl e ↦ let r = round_even c h e in omega arith
  | inr e ↦
      let r = round_odd c e in
      let w = bit_xor-lt 32 (c / 2) 0xedb8_8320 (omega arith) (omega arith) in omega arith
]

odd_rounds : (c d : ℕ) → IsU32 c → IsU32 d → c % 2 ≡ 1 → d % 2 ≡ 1 → round c ≡ round d → c ≡ d
odd_rounds c d h k e f same =
    let both = sym (round_odd c e) ∙ same ∙ round_odd d f in
    let halves =
      bit_xor_cancel 32 (c / 2) (d / 2) 0xedb8_8320 (omega arith) (omega arith) (omega arith)
        both in
    omega arith

round_inj : (c d : ℕ) → IsU32 c → IsU32 d → round c ≡ round d → c ≡ d
round_inj c d h k same = elim (parity c) [
  | inl e ↦ elim (parity d) [
    | inl f ↦ let x = round_even c h e in let y = round_even d k f in omega arith
    | inr f ↦ let x = round_small c h e in let y = round_large d k f in absurd (omega arith)
  ]
  | inr e ↦ elim (parity d) [
    | inl f ↦ let x = round_large c h e in let y = round_small d k f in absurd (omega arith)
    | inr f ↦ odd_rounds c d h k e f same
  ]
]

crc_bits-IsU32 : (n c : ℕ) → IsU32 c → IsU32 (crc_bits n c)
unfolding crc_bits
crc_bits-IsU32 zero c h = h
crc_bits-IsU32 (suc n) c h = crc_bits-IsU32 n (round c) (round-IsU32 c h)

crc_bits_inj : (n c d : ℕ) → IsU32 c → IsU32 d → crc_bits n c ≡ crc_bits n d → c ≡ d
unfolding crc_bits
crc_bits_inj zero c d h k same = same
crc_bits_inj (suc n) c d h k same =
    round_inj c d h k (crc_bits_inj n (round c) (round d) (round-IsU32 c h) (round-IsU32 d k) same)

abbrev pub AreBytes : List ℕ → Type 0
AreBytes [] = Unit {0}
AreBytes (b ∷ p) = IsByte b × AreBytes p

mixed-IsU32 : (c b : ℕ) → IsU32 c → IsByte b → IsU32 (bit_xor c b)
mixed-IsU32 c b h k = bit_xor-lt 32 c b h (omega arith)

crc32_loop-IsU32 : (p : List ℕ) (c : ℕ) → AreBytes p → IsU32 c → IsU32 (crc32_loop p c)
unfolding crc32_loop
crc32_loop-IsU32 [] c h k = k
crc32_loop-IsU32 (b ∷ p) c h k =
    crc32_loop-IsU32 p (crc_bits 8 (bit_xor c b)) h.1
      (crc_bits-IsU32 8 (bit_xor c b) (mixed-IsU32 c b k h.0))

-- The same bytes keep two states apart.
crc32_loop_inj :
    (p : List ℕ) (c d : ℕ)
    → AreBytes p
    → IsU32 c
    → IsU32 d
    → crc32_loop p c ≡ crc32_loop p d
    → c ≡ d
unfolding crc32_loop
crc32_loop_inj [] c d h k l same = same
crc32_loop_inj (b ∷ p) c d h k l same =
    let x = mixed-IsU32 c b k h.0 in
    let y = mixed-IsU32 d b l h.0 in
    let states =
      crc32_loop_inj p (crc_bits 8 (bit_xor c b)) (crc_bits 8 (bit_xor d b)) h.1
        (crc_bits-IsU32 8 (bit_xor c b) x) (crc_bits-IsU32 8 (bit_xor d b) y) same in
    bit_xor_cancel 32 c d b k l (omega arith)
      (crc_bits_inj 8 (bit_xor c b) (bit_xor d b) x y states)

crc32_loop-++ : (p q : List ℕ) (c : ℕ) → crc32_loop (p ++ q) c ≡ crc32_loop q (crc32_loop p c)
unfolding crc32_loop
crc32_loop-++ [] q c = refl
crc32_loop-++ (b ∷ p) q c = crc32_loop-++ p q (crc_bits 8 (bit_xor c b))

-- A byte is told from another in the same place.
one_byte :
    (b d : ℕ) (q : List ℕ) (c : ℕ)
    → IsByte b
    → IsByte d
    → AreBytes q
    → IsU32 c
    → crc32_loop (b ∷ q) c ≡ crc32_loop (d ∷ q) c
    → b ≡ d
unfolding crc32_loop
one_byte b d q c hb hd hq h same =
    let x = mixed-IsU32 c b h hb in
    let y = mixed-IsU32 c d h hd in
    let states =
      crc32_loop_inj q (crc_bits 8 (bit_xor c b)) (crc_bits 8 (bit_xor c d)) hq
        (crc_bits-IsU32 8 (bit_xor c b) x) (crc_bits-IsU32 8 (bit_xor c d) y) same in
    let mixed = crc_bits_inj 8 (bit_xor c b) (bit_xor c d) x y states in
    let turned =
      bit_xor_comm 32 b c (omega arith) h ∙ mixed ∙ sym (bit_xor_comm 32 d c (omega arith) h) in
    bit_xor_cancel 32 b d c (omega arith) (omega arith) h turned

-- Two buffers of bytes that differ in a single byte, anywhere, never have the same CRC.
pub crc32_buf-one_byte :
    (p q : List ℕ) (b d : ℕ)
    → AreBytes p
    → AreBytes q
    → IsByte b
    → IsByte d
    → b ≢ d
    → crc32_buf (p ++ (b ∷ q)) ≢ crc32_buf (p ++ (d ∷ q))
unfolding crc32_buf
crc32_buf-one_byte p q b d hp hq hb hd apart same =
    let c = crc32_loop p 0xffff_ffff in
    let start = crc32_loop-IsU32 p 0xffff_ffff hp (omega arith) in
    let x = crc32_loop-++ p (b ∷ q) 0xffff_ffff in
    let y = crc32_loop-++ p (d ∷ q) 0xffff_ffff in
    let u = subst IsU32 (sym x) (crc32_loop-IsU32 (b ∷ q) c (hb, hq) start) in
    let v = subst IsU32 (sym y) (crc32_loop-IsU32 (d ∷ q) c (hd, hq) start) in
    let states =
      bit_xor_cancel 32 (crc32_loop (p ++ (b ∷ q)) 0xffff_ffff)
        (crc32_loop (p ++ (d ∷ q)) 0xffff_ffff) 0xffff_ffff u v (omega arith) same in
    apart (one_byte b d q c hb hd hq start (sym x ∙ states ∙ y))
