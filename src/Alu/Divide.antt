-- ===== src/Alu/Divide.antt =====
-- Division and remainder of the M extension in src/cpu.c.
use native.Mathlib.Nat.{div-add-mod', div-le_self, mod-lt, div-lt_iff_lt-mul}
use native.Mathlib.Decide.{ℕ_discrete}
use yan_os.Base.{
  inl, inr, ℕ, suc, zero, ◌+◌, ◌-◌, ◌*◌, ◌/◌, ◌%◌, ◌^◌, ◌≤◌, ◌<◌, ◌≡◌, ◌≢◌, refl, arith, ◌⊎◌, not,
  Bool, true, false, ltb, leb, if◌then◌else◌,
}
use yan_os.Base.Int.{signed32, signed32-cases, quot, rem, to_u32, neg_ℕ}
use yan_os.Base.{Bool-cases, ==_of_ne, ◌==◌, ◌&&◌}
use yan_os.Alu.{sign_bit, u32_max, m_extension_operation}

-- DIVU and REMU of any two 32-bit words, a zero divisor included: quotient times divisor plus
-- remainder is the dividend modulo 2^32.
pub divu-remu :
    (left right : ℕ)
    → left < 2 ^ 32
    → right < 2 ^ 32
    → (m_extension_operation 5 left right * right + m_extension_operation 7 left right) % 2 ^ 32
      ≡ left
unfolding m_extension_operation
divu-remu left right h k = ground arith

mod-le : (a b : ℕ) → a % b ≤ a
mod-le a b = omega (arith, div-add-mod' a b)

-- The size of the signed integer that a word stands for, and whether it is below zero.
abbrev pub magnitude : ℕ → ℕ
magnitude w = if ltb w (2 ^ 31) then w else 2 ^ 32 - w

abbrev pub is_negative : ℕ → Bool
is_negative w = leb (2 ^ 31) w

abbrev pub HasSign : ℕ → Bool → Type 0
HasSign w sign = (w ≡ 0) ⊎ (is_negative w ≡ sign)

-- The word of a size with a sign.
abbrev word : Bool → ℕ → ℕ
word true n = to_u32 (neg_ℕ n)
word false n = n % 2 ^ 32

word-magnitude : (sign : Bool) (n : ℕ) → n ≤ 2 ^ 31 → magnitude (word sign n) ≡ n
word-magnitude true zero h = refl
word-magnitude true (suc n) h = ground arith
word-magnitude false n h = ground arith

word-HasSign :
    (sign : Bool) (n : ℕ) → n ≤ 2 ^ 31 → (n < 2 ^ 31) ⊎ (sign ≡ true) → HasSign (word sign n) sign
word-HasSign true zero h k = inl refl
word-HasSign true (suc n) h k = inr (ground arith)
word-HasSign false n h k = inr (ground arith)

abbrev pub differ : Bool → Bool → Bool
differ true sign = not sign
differ false sign = sign

-- Truncated division of the integers that two words stand for, and where the quotient overflows.
abbrev pub Truncates : ℕ → ℕ → ℕ → ℕ → Type 0
Truncates left right q r =
    (magnitude q * magnitude right + magnitude r ≡ magnitude left)
    × (magnitude r < magnitude right)
    × HasSign r (is_negative left)
    × (HasSign q (differ (is_negative left) (is_negative right))
        ⊎ ((left ≡ 2 ^ 31) × (right ≡ 2 ^ 32 - 1) × (q ≡ 2 ^ 31)))

word-Truncates :
    (left right a b : ℕ) (s t : Bool)
    → magnitude left ≡ a
    → magnitude right ≡ b
    → is_negative left ≡ s
    → is_negative right ≡ t
    → 0 < b
    → b ≤ 2 ^ 31
    → a ≤ 2 ^ 31
    → (a / b < 2 ^ 31) ⊎ (differ s t ≡ true)
    → Truncates left right (word (differ s t) (a / b)) (word s (a % b))
word-Truncates left right a b s t e f g h positive bounded small k =
    let q_small : a / b ≤ 2 ^ 31 = omega (arith, div-le_self a b) in
    let r_small : a % b ≤ 2 ^ 31 = omega (arith, mod-le a b) in
    let q_size = word-magnitude (differ s t) (a / b) q_small in
    let r_size = word-magnitude s (a % b) r_small in
    rw (e, f, g, h, q_size, r_size)
      (
        div-add-mod' a b,
        mod-lt a positive,
        word-HasSign s (a % b) r_small (inl (omega (arith, mod-lt a positive))),
        inl (word-HasSign (differ s t) (a / b) q_small k),
      )

-- The division of the code's integers, but for the overflow.
quot-Truncates :
    (left right : ℕ)
    → left < 2 ^ 32
    → right < 2 ^ 32
    → right ≢ 0
    → (left ≢ 2 ^ 31) ⊎ (right ≢ 2 ^ 32 - 1)
    → Truncates left right
        (to_u32 (quot (signed32 left) (signed32 right)))
        (to_u32 (rem (signed32 left) (signed32 right)))
unfolding quot rem
quot-Truncates left right h k nonzero regular = elim (signed32-cases left h) [
  | inl (a, e) ↦ elim (signed32-cases right k) [
    | inl (b, f) ↦
        rw (e, f)
          (word-Truncates left right left right false false (ground arith) (ground arith)
            (ground arith) (ground arith) (omega arith) (omega arith) (omega arith)
            (inl (omega (arith, div-le_self left right))))
    | inr (b, f) ↦
        rw (e, f)
          (word-Truncates left right left (suc (2 ^ 32 - 1 - right)) false true (ground arith)
            (ground arith) (ground arith) (ground arith) (omega arith) (omega arith) (omega arith)
            (inr refl))
  ]
  | inr (a, e) ↦ elim (signed32-cases right k) [
    | inl (b, f) ↦
        rw (e, f)
          (word-Truncates left right (suc (2 ^ 32 - 1 - left)) right true false (ground arith)
            (ground arith) (ground arith) (ground arith) (omega arith) (omega arith) (omega arith)
            (inr refl))
    | inr (b, f) ↦
        let small : suc (2 ^ 32 - 1 - left) / suc (2 ^ 32 - 1 - right) < 2 ^ 31 =
          (div-lt_iff_lt-mul (omega arith)).1 (omega arith) in
        rw (e, f)
          (word-Truncates left right (suc (2 ^ 32 - 1 - left)) (suc (2 ^ 32 - 1 - right)) true true
            (ground arith) (ground arith) (ground arith) (ground arith) (omega arith) (omega arith)
            (omega arith) (inl small))
  ]
]

overflow : (left right : ℕ) → left ≡ 2 ^ 31 → right ≡ 2 ^ 32 - 1 → Truncates left right left 0
overflow left right e f = (ground arith, ground arith, inl refl, inr (e, f, e))

-- DIV and REM of any two 32-bit words. A zero divisor gives the quotient of all ones and the
-- dividend as remainder. Any other gives the truncated quotient: in size, quotient times divisor
-- plus remainder is the dividend and the remainder is below the divisor; the remainder is zero or
-- has the sign of the dividend, and the quotient is zero or negative exactly if one of the two
-- is, but for -2^31 by -1, where the quotient is the word of -2^31.
pub div-rem :
    (left right : ℕ)
    → left < 2 ^ 32
    → right < 2 ^ 32
    → (let q = m_extension_operation 4 left right in
        let r = m_extension_operation 6 left right in
        ((right ≡ 0) × (q ≡ 2 ^ 32 - 1) × (r ≡ left)) ⊎ Truncates left right q r)
unfolding m_extension_operation
div-rem left right h k = elim (ℕ_discrete right 0) [
  | yes z ↦ inl (z, ground arith, ground arith)
  | no nonzero ↦ inr (elim (Bool-cases (left == sign_bit && right == u32_max)) [
    | inl e ↦
        let low : left ≡ 2 ^ 31 = ground arith in
        let ones : right ≡ 2 ^ 32 - 1 = ground arith in
        rw (==_of_ne {a = right} {b = 0} nonzero, e) (overflow left right low ones)
    | inr e ↦
        rw (==_of_ne {a = right} {b = 0} nonzero, e)
          (quot-Truncates left right h k nonzero (ground arith))
  ])
]
