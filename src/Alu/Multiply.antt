-- ===== src/Alu/Multiply.antt =====
-- The products of the M extension in src/cpu.c.
use yan_os.Base.{inl, inr, ℕ, suc, zero, ◌+◌, ◌-◌, ◌*◌, ◌%◌, ◌^◌, ◌≤◌, ◌<◌, ◌≡◌, refl, ap, arith}
use yan_os.Base.Int.{ℤ, pos, negsuc, signed32, signed32-cases, complement_suc, ◌*ℤ◌, to_u64, neg_ℕ}
use yan_os.Alu.{m_extension_operation}

product-lt : (a b : ℕ) → a < 2 ^ 32 → b < 2 ^ 32 → a * b < 2 ^ 64
product-lt a b h k = let p : a * b ≤ (2 ^ 32 - 1) * b = grind arith in omega arith

to_u64-neg_ℕ : (n : ℕ) → to_u64 (neg_ℕ n) ≡ (2 ^ 64 - n % 2 ^ 64) % 2 ^ 64
to_u64-neg_ℕ zero = refl
to_u64-neg_ℕ (suc n) = omega arith

to_u64-lt : (z : ℤ) → to_u64 z < 2 ^ 64
to_u64-lt (pos n) = omega arith
to_u64-lt (negsuc n) = omega arith

-- A product with a negated factor, modulo 2^32.
negated_word : (l r y : ℕ) → y + r ≡ 2 ^ 32 → to_u64 (neg_ℕ (l * y)) % 2 ^ 32 ≡ l * r % 2 ^ 32
negated_word l r y e =
    let p : l * (y + r) ≡ l * 2 ^ 32 = ap (λ (t : ℕ). l * t) e in
    rw (to_u64-neg_ℕ (l * y)) (omega (arith, p))

both_negated_word :
    (l r x y : ℕ) → x + l ≡ 2 ^ 32 → y + r ≡ 2 ^ 32 → x * y % 2 ^ 32 ≡ l * r % 2 ^ 32
both_negated_word l r x y d e =
    let p : x * (y + r) ≡ x * 2 ^ 32 = ap (λ (t : ℕ). x * t) e in
    let q : (x + l) * r ≡ 2 ^ 32 * r = ap (λ (t : ℕ). t * r) d in omega (arith, p, q)

-- The low word of a signed product is that of the unsigned one.
low_word_mixed :
    (left right : ℕ)
    → left < 2 ^ 32
    → to_u64 (signed32 left *ℤ pos right) % 2 ^ 32 ≡ left * right % 2 ^ 32
unfolding ◌*ℤ◌
low_word_mixed left right h = elim (signed32-cases left h) [
  | inl (_, e) ↦ rw e (omega arith)
  | inr (_, e) ↦
      let x = suc (2 ^ 32 - 1 - left) in
      let s : x * right ≡ right * x = omega arith in
      let t : left * right ≡ right * left = omega arith in
      rw e (rw (s, t) (negated_word right left x (complement_suc left h)))
]

low_word :
    (left right : ℕ)
    → left < 2 ^ 32
    → right < 2 ^ 32
    → to_u64 (signed32 left *ℤ signed32 right) % 2 ^ 32 ≡ left * right % 2 ^ 32
unfolding ◌*ℤ◌
low_word left right h k = elim (signed32-cases right k) [
  | inl (_, f) ↦ rw f (low_word_mixed left right h)
  | inr (_, f) ↦
      let y = suc (2 ^ 32 - 1 - right) in
      elim (signed32-cases left h) [
        | inl (_, e) ↦ rw (f, e) (negated_word left right y (complement_suc right k))
        | inr (_, e) ↦
            let x = suc (2 ^ 32 - 1 - left) in
            rw (f, e)
              (omega (
                arith,
                both_negated_word left right x y (complement_suc left h) (complement_suc right k),
              ))
      ]
]

-- MULHU and MUL of any two 32-bit words are the two halves of the 64-bit unsigned product.
pub mulhu-mul :
    (left right : ℕ)
    → left < 2 ^ 32
    → right < 2 ^ 32
    → m_extension_operation 3 left right * 2 ^ 32 + m_extension_operation 0 left right
      ≡ left * right
unfolding m_extension_operation
mulhu-mul left right h k = omega (arith, product-lt left right h k)

-- MULH and MUL of any two 32-bit words are the two halves of the 64-bit product of the signed
-- integers.
pub mulh-mul :
    (left right : ℕ)
    → left < 2 ^ 32
    → right < 2 ^ 32
    → m_extension_operation 1 left right * 2 ^ 32 + m_extension_operation 0 left right
      ≡ to_u64 (signed32 left *ℤ signed32 right)
unfolding m_extension_operation
mulh-mul left right h k =
    omega (arith, low_word left right h k, to_u64-lt (signed32 left *ℤ signed32 right))

-- MULHSU and MUL of any two 32-bit words are the two halves of the 64-bit product of the signed
-- integer and the unsigned one.
pub mulhsu-mul :
    (left right : ℕ)
    → left < 2 ^ 32
    → right < 2 ^ 32
    → m_extension_operation 2 left right * 2 ^ 32 + m_extension_operation 0 left right
      ≡ to_u64 (signed32 left *ℤ pos right)
unfolding m_extension_operation
mulhsu-mul left right h k =
    omega (arith, low_word_mixed left right h, to_u64-lt (signed32 left *ℤ pos right))
