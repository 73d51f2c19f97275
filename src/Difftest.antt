-- ===== src/Difftest.antt =====
-- The comparison of src/difftest.c: the registers and the PC of two harts.
pub mod Laws
use yan_os.Base.{ℕ, zero, suc, ◌+◌, ◌^◌, bit_or, Bool, false, ◌&&◌, ◌==◌, if◌then◌else◌, get_or}
use yan_os.Status.{Status, ok}
use yan_os.Cpu.{Cpu, register_count}

pub record DiffResult : Type 0 where
  pub pc_equal : Bool
  pub registers_equal : Bool
  pub equal : Bool
  pub pc_dut : ℕ
  pub pc_ref : ℕ
  pub differing : ℕ
  pub first_differing_reg : ℕ
  pub reg_dut : ℕ
  pub reg_ref : ℕ

unfoldable pub observable : Cpu → ℕ → ℕ
observable state index = if index == 0 then 0 else get_or state.regs index 0

-- One round of the loop.
unfoldable pub compare_register : Cpu → Cpu → ℕ → DiffResult → DiffResult
compare_register dut ref index result =
    let left = observable dut index in
    let right = observable ref index in
    let differing = bit_or result.differing (2 ^ index) in
    if left == right
    then result
    else if result.first_differing_reg == register_count
    then record result {
      differing = differing;
      first_differing_reg = index;
      reg_dut = left;
      reg_ref = right;
    }
    else record result { differing = differing }

-- The loop from `index`, with `left` rounds to go.
unfoldable pub compare_loop : Cpu → Cpu → ℕ → ℕ → DiffResult → DiffResult
compare_loop dut ref zero index result = result
compare_loop dut ref (suc left) index result =
    compare_loop dut ref left (index + 1) (compare_register dut ref index result)

unfoldable pub compare : Cpu → Cpu → Status × DiffResult
compare dut ref =
    let pc_equal = dut.pc == ref.pc in
    let start : DiffResult = record {
      pc_equal = pc_equal;
      registers_equal = false;
      equal = false;
      pc_dut = dut.pc;
      pc_ref = ref.pc;
      differing = 0;
      first_differing_reg = register_count;
      reg_dut = 0;
      reg_ref = 0;
    } in
    let result = compare_loop dut ref register_count 0 start in
    let registers_equal = result.differing == 0 in
    (
      ok,
      record result {
        registers_equal = registers_equal;
        equal = result.pc_equal && registers_equal;
      },
    )
