-- ===== src/Alu/Shift.antt =====
-- The arithmetic shift of src/cpu.c.
use native.Mathlib.Nat.{pow-suc, one-le-pow, pow-le-pow_right, add-zero, div-eq_of_lt-le}
use native.Mathlib.Nat.{div-le_self, div-lt_iff_lt-mul, div-add-mod', mod-lt}
use native.Mathlib.Decide.{ℕ_discrete, dec_lt}
use yan_os.Base.{
  sym, if◌then◌else◌, ltb, ℕ, suc, zero, ◌+◌, ◌-◌, ◌*◌, ◌/◌, ◌%◌, ◌^◌, ◌≤◌, ◌<◌, ◌≡◌, ◌∙◌, ap,
  arith, bit_or,
}
use yan_os.Base.Int.{signed32, floor_shift}
use yan_os.Base.Bits.{bit_at}
use yan_os.Base.Bits.Mask.{bit_or-disjoint'}
use yan_os.Base.Bits.Flag.{flag_set, flag_clear, bit_at_above, bit_at-complement}
use yan_os.Alu.{arithmetic_shift_right, shl32, u32_max}

pow-add : (a b : ℕ) → 2 ^ (a + b) ≡ 2 ^ a * 2 ^ b
pow-add a zero = rw (add-zero a) (omega arith)
pow-add a (suc b) =
    let e : a + suc b ≡ suc (a + b) = omega arith in
    let f : 2 ^ a * 2 ^ suc b ≡ 2 ^ a * (2 ^ b * 2) = ap (λ (t : ℕ). 2 ^ a * t) (pow-suc 2 b) in
    rw (e, f) (omega (arith, pow-suc 2 (a + b), pow-add a b))

-- A word below 2^32 = p * q, shifted right by p with ones shifted in.
module _ (p q value : ℕ) (split : p * q ≡ 2 ^ 32) (p_pos : 1 ≤ p) (q_pos : 1 ≤ q)
    (small : value < 2 ^ 32) where
  quotient-lt : value / p < q
  quotient-lt = (div-lt_iff_lt-mul p_pos).1 (omega arith)

  -- Complement and division commute.
  complement-div : (2 ^ 32 - 1 - value) / p ≡ q - 1 - value / p
  complement-div =
      let k = q - 1 - value / p in
      let sum : k * p + p + value / p * p ≡ q * p = omega (
        arith,
        ap (λ (t : ℕ). t * p) (let e : k + 1 + value / p ≡ q = omega (arith, quotient-lt) in e),
      ) in
      div-eq_of_lt-le {k = k} p (omega (arith, sum, div-add-mod' value p, mod-lt value p_pos))
        (omega (arith, sum, div-add-mod' value p, mod-lt value p_pos))

ones_shifted : (q : ℕ) → 1 ≤ q → q ≤ 2 ^ 31 → u32_max * q % 2 ^ 32 ≡ 2 ^ 32 - q
ones_shifted q lo hi = omega arith

-- The shift of a negative word, by the power `p` with cofactor `q`.
negative_shift :
    (p value rest : ℕ)
    → p * 2 ^ rest ≡ 2 ^ 32
    → 1 ≤ p
    → rest < 32
    → value < 2 ^ 32
    → bit_or (value / p) (shl32 u32_max rest) ≡ 2 ^ 32 - 1 - (2 ^ 32 - 1 - value) / p
negative_shift p value rest split p_pos hi small =
    let q = 2 ^ rest in
    let q_pos : 1 ≤ q = one-le-pow rest 2 (omega arith) in
    let q_le : q ≤ 2 ^ 31 =
      pow-le-pow_right {n = 2} (omega arith) {i = rest} {j = 31} (omega arith) in
    let below = quotient-lt p q value split p_pos q_pos small in
    let whole : (p - 1 + 1) * q ≡ p * q = ap (λ (t : ℕ). t * q) (omega arith) in
    let filled : (p - 1) * q + q ≡ p * q = omega (arith, whole) in
    let ones : shl32 u32_max rest ≡ (p - 1) * q =
      ones_shifted q q_pos q_le ∙ omega (arith, filled) in
    rw (ones, complement-div p q value split p_pos q_pos small)
      (bit_or-disjoint' rest (p - 1) (value / p) below ∙ omega (arith, filled))

top_digit : (value : ℕ) → value < 2 ^ 32 → 2 ^ 31 ≤ value → bit_at value 31 ≡ 1
top_digit value h neg =
    let c = bit_at_above 31 (2 ^ 32 - 1 - value) 31 (omega arith) (omega arith) in
    omega (arith, c, bit_at-complement 32 value 31 h (omega arith))

-- The shift computes its result from the sign.
shifted :
    (value amount : ℕ)
    → value < 2 ^ 32
    → amount < 32
    → arithmetic_shift_right value amount ≡ (
        if ltb value (2 ^ 31)
        then value / 2 ^ amount
        else 2 ^ 32 - 1 - (2 ^ 32 - 1 - value) / 2 ^ amount)
unfolding arithmetic_shift_right
shifted value amount h k = elim (ℕ_discrete amount 0) [
  | yes e ↦ rw e (ground arith)
  | no ne ↦
      let whole : amount + (32 - amount) ≡ 32 = omega arith in
      let split : 2 ^ amount * 2 ^ (32 - amount) ≡ 2 ^ 32 =
        sym (pow-add amount (32 - amount)) ∙ ap (λ (t : ℕ). 2 ^ t) whole in
      let shift =
        negative_shift (2 ^ amount) value (32 - amount) split (one-le-pow amount 2 (omega arith))
          (omega arith) h in
      elim (dec_lt value (2 ^ 31)) [
        | yes p ↦ ground (arith, flag_clear value 31 (bit_at_above 31 value 31 p (omega arith)))
        | no p ↦ ground (arith, shift, flag_set value 31 (top_digit value h (omega arith)))
      ]
]

-- On 32-bit words and amounts below 32, the arithmetic shift is the division by the power of two,
-- rounded down, of the integer that the word stands for.
pub arithmetic_shift_right-floor :
    (value amount : ℕ)
    → value < 2 ^ 32
    → amount < 32
    → signed32 (arithmetic_shift_right value amount) ≡ floor_shift (signed32 value) amount
arithmetic_shift_right-floor value amount h k =
    rw (shifted value amount h k) (
      ground (arith, div-le_self value (2 ^ amount), div-le_self (2 ^ 32 - 1 - value) (2 ^ amount)))
