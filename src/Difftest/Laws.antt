-- ===== src/Difftest/Laws.antt =====
-- The bits that the comparison of src/difftest.c sets.
use native.Mathlib.Decide.{ℕ_discrete}
use mathlib.Core.Path.{subst}
use yan_os.Base.{
  ℕ, zero, suc, ◌+◌, ◌<◌, ◌≡◌, refl, ap, ◌∙◌, arith, ◌&&◌, ◌==◌, ◌!=◌, leb, ltb, to_int,
  if◌then◌else◌, get_or,
}
use yan_os.Base.Bits.{bit_at, bit_at_zero}
use yan_os.Base.Bits.Flag.{set_bits}
use yan_os.Cpu.{Cpu, register_count}
use yan_os.Difftest.{DiffResult, observable, compare_register, compare_loop, compare}

module _ (dut ref : Cpu) where
  register_bits :
      (index j : ℕ) (result : DiffResult)
      → bit_at (compare_register dut ref index result).differing j ≡ (
          if j == index && observable dut j != observable ref j
          then 1
          else bit_at result.differing j)
  unfolding compare_register
  register_bits index j result = elim (ℕ_discrete index j) [
    | yes e ↦
        subst
          (λ i. bit_at (compare_register dut ref index result).differing i ≡ (
            if i == index && observable dut i != observable ref i
            then 1
            else bit_at result.differing i))
          e (ground (arith, set_bits result.differing index index))
    | no ne ↦ ground (arith, set_bits result.differing index j)
  ]

  loop_bits :
      (left index j : ℕ) (result : DiffResult)
      → bit_at (compare_loop dut ref left index result).differing j ≡ (
          if leb index j && ltb j (index + left) && observable dut j != observable ref j
          then 1
          else bit_at result.differing j)
  unfolding compare_loop
  loop_bits zero index j result = ground arith
  loop_bits (suc left) index j result =
      loop_bits left (index + 1) j (compare_register dut ref index result)
      ∙ ground (arith, register_bits index j result)

  loop_pc :
      (left index : ℕ) (result : DiffResult)
      → (compare_loop dut ref left index result).pc_equal ≡ result.pc_equal
  unfolding compare_loop compare_register
  loop_pc zero index result = refl
  loop_pc (suc left) index result =
      loop_pc left (index + 1) (compare_register dut ref index result) ∙ ground arith

-- Comparing two harts sets the bit of each register from 1 to 31 in which they differ, and no bit
-- 0, whatever is stored for x0; the result is equal exactly if the PCs are and no bit is set.
pub compare-differing :
    (dut ref : Cpu) (j : ℕ)
    → j < register_count
    → (bit_at (compare dut ref).1.differing j
        ≡ to_int (j != 0 && get_or dut.regs j 0 != get_or ref.regs j 0))
      × ((compare dut ref).1.equal ≡ (dut.pc == ref.pc && (compare dut ref).1.differing == 0))
unfolding compare observable
compare-differing dut ref j h = (
  loop_bits dut ref register_count 0 j _ ∙ ground (arith, bit_at_zero j),
  ap (λ b. b && (compare dut ref).1.differing == 0) (loop_pc dut ref register_count 0 _),
)
