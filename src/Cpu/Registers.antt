-- ===== src/Cpu/Registers.antt =====
-- The register file of src/cpu.c: `yan_cpu_read_reg` and `yan_cpu_write_reg`.
use yan_os.Base.{ℕ, ◌^◌, ◌<◌, ◌≡◌, arith, length, get_or, length-set, All}
use yan_os.Base.{get_or-set_self, get_or-set_ne, All-set, ◌==◌, if◌then◌else◌}
use native.Mathlib.Decide.{ℕ_discrete}
use yan_os.Status.{ok}
use yan_os.Cpu.{Cpu, read_reg, write_reg, register_count}

abbrev pub HasRegisters : Cpu → Type 0
HasRegisters cpu = (length cpu.regs ≡ register_count) × All (λ w. w < 2 ^ 32) cpu.regs

pub write_reg-HasRegisters :
    (cpu : Cpu) (index value : ℕ)
    → value < 2 ^ 32
    → HasRegisters cpu
    → HasRegisters (write_reg cpu index value).1
unfolding write_reg
write_reg-HasRegisters cpu index value small (l, a) =
    grind (
      arith,
      length-set cpu.regs index value,
      All-set (λ w. w < 2 ^ 32) cpu.regs index value small a,
    )

-- With 32 registers and indices below 32, a register reads after a write of any register: x0
-- zero, the written one the value, any other what it held.
pub read_reg-write_reg :
    (cpu : Cpu) (i j value old : ℕ)
    → length cpu.regs ≡ register_count
    → i < register_count
    → j < register_count
    → read_reg (write_reg cpu i value).1 j old
      ≡ (ok, if j == 0 then 0 else if j == i then value else get_or cpu.regs j 0)
unfolding read_reg write_reg
read_reg-write_reg cpu i j value old l p q = elim (ℕ_discrete i j) [
  | yes e ↦ grind (arith, get_or-set_self cpu.regs i value 0)
  | no ne ↦ grind (arith, get_or-set_ne cpu.regs i j value 0 ne)
]
