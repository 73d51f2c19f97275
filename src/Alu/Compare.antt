-- ===== src/Alu/Compare.antt =====
-- Signed comparison and sign extension in src/cpu.c: flipped sign bits.
use native.Mathlib.Nat.{pow-suc, pow-le-pow_right, mod-eq_of_lt, mod-eq-sub-mod}
use native.Mathlib.Decide.{dec_lt}
use yan_os.Base.{
  ℕ, zero, suc, ltb, ltb_of_lt, ltb_of_le, if◌then◌else◌, ◌+◌, ◌-◌, ◌^◌, ◌≤◌, ◌<◌, ◌≡◌, arith,
}
use yan_os.Base.Int.{signed32, signed, ltb_ℤ}
use yan_os.Base.Bits.Mask.{bit_xor-top}
use yan_os.Alu.{signed_less, sign_extend, shl32}

-- On 32-bit words the signed comparison is that of the integers that the words stand for.
pub signed_less-ltb_ℤ :
    (left right : ℕ)
    → left < 2 ^ 32
    → right < 2 ^ 32
    → signed_less left right ≡ ltb_ℤ (signed32 left) (signed32 right)
unfolding signed_less
signed_less-ltb_ℤ left right h k = ground (arith, bit_xor-top 31 left h, bit_xor-top 31 right k)

pow-le-word : (b : ℕ) → b < 32 → 2 ^ b ≤ 2 ^ 31
pow-le-word b h = pow-le-pow_right {n = 2} (omega arith) {i = b} {j = 31} (omega arith)

sign_mask : (b : ℕ) → b < 32 → shl32 1 b ≡ 2 ^ b
sign_mask b h = omega (arith, pow-le-word b h)

-- The word that a field of `b + 1` bits is extended to, by the field's top bit.
extended :
    (value b : ℕ)
    → b < 32
    → value < 2 ^ suc b
    → sign_extend value (suc b) ≡ (if ltb value (2 ^ b) then value else 2 ^ 32 + value - 2 ^ suc b)
unfolding sign_extend
extended value b h small =
    let e : suc b - 1 ≡ b = omega arith in
    rw (e, sign_mask b h, bit_xor-top b value small)
      (elim (dec_lt value (2 ^ b)) [
        | yes p ↦
            rw
              (
                ltb_of_lt p,
                mod-eq_of_lt {n = value + 2 ^ b} {m = 2 ^ suc b} (omega (arith, pow-suc 2 b)),
              )
              (omega (arith, pow-le-word b h))
        | no p ↦
            rw
              (
                ltb_of_le {a = value} {b = 2 ^ b} (omega arith),
                mod-eq-sub-mod {n = value + 2 ^ b} {m = 2 ^ suc b} (omega (arith, pow-suc 2 b)),
                mod-eq_of_lt {n = value + 2 ^ b - 2 ^ suc b} {m = 2 ^ suc b}
                    (omega (arith, pow-suc 2 b)),
              )
              (omega (arith, pow-suc 2 b, pow-le-word b h))
      ])

-- Sign extension of a field of 1 to 32 bits gives the word that stands for the integer that the
-- field stands for.
pub sign_extend-signed :
    (value bits : ℕ)
    → 1 ≤ bits
    → bits ≤ 32
    → value < 2 ^ bits
    → signed32 (sign_extend value bits) ≡ signed bits value
sign_extend-signed value zero lo hi small = absurd (omega arith)
sign_extend-signed value (suc b) lo hi small =
    let e : suc b - 1 ≡ b = omega arith in
    rw (extended value b (omega arith) small, e) (ground (arith, pow-le-word b, pow-suc 2 b))
