-- ===== src/Cpu.antt =====
-- The state of the hart and its registers: `YanCpu` of include/yan/cpu.h, and the functions of
-- src/cpu.c that do not execute.
pub mod Registers
use mathlib.Core.Option.{Option}
use yan_os.Base.{ℕ, ◌%◌, bit_and, List, Bool, true, false, ◌==◌, ◌!=◌, leb, if◌then◌else◌}
use yan_os.Base.{get_or, set, replicate}
use yan_os.Status.{Status, ok, unaligned, out_of_bounds}
use yan_os.Csr.{Csr, mstatus_mpp, mie_mask}
use yan_os.Bus
use yan_os.Bus.{Bus, BusResult}

pub record Cpu : Type 0 where
  pub regs : List ℕ
  pub pc : ℕ
  pub csr : Csr

abbrev pub register_count : ℕ
register_count = 32

-- `(YanCpu){0}`
abbrev pub zero_csr : Csr
zero_csr = record {
  mstatus = 0;
  mtvec = 0;
  mscratch = 0;
  mepc = 0;
  mcause = 0;
  mtval = 0;
  mie = 0;
  mip = 0;
}

abbrev pub zero_cpu : Cpu
zero_cpu = record { regs = replicate register_count 0; pc = 0; csr = zero_csr }

unfoldable pub reset : Cpu → ℕ → Status × Cpu
reset cpu entry =
    if entry % 4 != 0
    then (unaligned, cpu)
    else (ok, record zero_cpu { pc = entry; csr = record zero_csr { mstatus = mstatus_mpp } })

-- The last argument is what `*value` holds before the call.
unfoldable pub read_reg : Cpu → ℕ → ℕ → Status × ℕ
read_reg cpu index value =
    if leb register_count index
    then (out_of_bounds, value)
    else (ok, if index == 0 then 0 else get_or cpu.regs index 0)

unfoldable pub write_reg : Cpu → ℕ → ℕ → Status × Cpu
write_reg cpu index value =
    if leb register_count index
    then (out_of_bounds, cpu)
    else (ok, if index != 0 then record cpu { regs = set cpu.regs index value } else cpu)

unfoldable pub snapshot : Cpu → Status × Cpu
snapshot cpu = (ok, record cpu { regs = set cpu.regs 0 0 })

unfoldable pub fetch : Cpu → Bus → ℕ → BusResult × ℕ
fetch cpu bus instruction = Bus.fetch32 bus cpu.pc instruction

-- mip is no storage: it is read from the devices at each instruction boundary.
unfoldable pub poll_interrupts : Cpu → Bus → Status × Cpu
poll_interrupts cpu bus = (
  ok,
  record cpu {
    csr = (let csr = cpu.csr in record csr { mip = bit_and (Bus.pending_interrupts bus) mie_mask });
  },
)
