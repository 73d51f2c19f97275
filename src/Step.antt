-- ===== src/Step.antt =====
-- `yan_cpu_step` of src/cpu.c: one instruction boundary of the hart.
pub mod Phases
pub mod Failure
pub mod Memory
pub mod Trap
pub mod Invariant
use yan_os.Base.{ℕ, ◌+◌, ◌*◌, ◌/◌, ◌%◌, ◌^◌, bit_and, bit_or, Bool, true, false, not, ◌&&◌, ◌||◌}
use yan_os.Base.{List, [], ◌==◌, ◌!=◌, leb, if◌then◌else◌}
use yan_os.Status.{Status, ok, trap, unaligned, unmapped, out_of_bounds, unsupported_instruction}
use yan_os.Status.{is_ok}
use yan_os.Platform.{interrupt_meip, interrupt_mtip}
use yan_os.Host.{Effect}
use yan_os.Bus.{Bus}
use yan_os.Csr.{Csr, mstatus_mie, mstatus_mpie, mstatus_mpp, mie_mask, word_mask}
use yan_os.Alu.{add32, shr32, sign_extend}
use yan_os.Cpu.{Cpu, write_reg, fetch, poll_interrupts}
use yan_os.Execute.{opcode, funct3, rd, rs1, register, compute_integer_result}
use yan_os.Execute.{compute_branch_target, load_value, store_value, execute_csr}

abbrev pub mcause_interrupt : ℕ
mcause_interrupt = 0x8000_0000

unfoldable pub enter_trap : Cpu → ℕ → ℕ → Status × Cpu
enter_trap cpu cause value =
    let csr = cpu.csr in
    (
      trap,
      record cpu {
        csr = record csr {
          mepc = bit_and cpu.pc word_mask;
          mcause = cause;
          mtval = value;
          mstatus =
              bit_or mstatus_mpp (if bit_and csr.mstatus mstatus_mie != 0 then mstatus_mpie else 0);
        };
        pc = bit_and csr.mtvec word_mask;
      },
    )

-- External outranks timer, which outranks software.
unfoldable pub interrupt_cause : ℕ → ℕ
interrupt_cause pending_and_enabled =
    if bit_and pending_and_enabled interrupt_meip != 0
    then 11
    else if bit_and pending_and_enabled interrupt_mtip != 0
    then 7
    else 3

unfoldable pub enter_interrupt : Cpu → Status × Cpu
enter_interrupt cpu =
    let cause = interrupt_cause (bit_and cpu.csr.mip cpu.csr.mie) in
    enter_trap cpu (bit_or mcause_interrupt cause) 0

unfoldable pub access_fault : Cpu → Status → ℕ → ℕ → Status × Cpu
access_fault cpu unaligned cause address = enter_trap cpu cause address
access_fault cpu unmapped cause address = enter_trap cpu (cause + 1) address
access_fault cpu out_of_bounds cause address = enter_trap cpu (cause + 1) address
access_fault cpu status cause address = (status, cpu)

-- The locals of `yan_cpu_step` once an instruction has been executed, with the hart and the bus.
pub record Executed : Type 0 where
  pub status : Status
  pub value : ℕ
  pub next_pc : ℕ
  pub fault_address : ℕ
  pub cpu : Cpu
  pub bus : Bus

-- The chain of branches on the instruction either returns from the step or goes on.
pub data Phase : Type 0 where
  returns : Status × Cpu → Phase
  goes_on : Executed → Phase

abbrev pub is_branch : ℕ → Bool
is_branch instruction = opcode instruction == 0x63

abbrev pub is_store : ℕ → Bool
is_store instruction = opcode instruction == 0x23

abbrev pub is_fence : ℕ → Bool
is_fence instruction = opcode instruction == 0x0f && leb (funct3 instruction) 1

abbrev pub is_mret : ℕ → Bool
is_mret instruction = instruction == 0x3020_0073

-- The 21-bit offset that a J-type word encodes.
abbrev pub jump_offset : ℕ → ℕ
jump_offset instruction =
    bit_or
      (bit_or (bit_or (shr32 instruction 31 * 2 ^ 20) (bit_and instruction 0xf_f000))
        (bit_and (shr32 instruction 20) 1 * 2 ^ 11))
      (bit_and (shr32 instruction 21) 0x3ff * 2)

-- What `mret` makes of mstatus.
abbrev pub mret_mstatus : ℕ → ℕ
mret_mstatus mstatus =
    bit_or (bit_or mstatus_mpp mstatus_mpie)
      (if bit_and mstatus mstatus_mpie != 0 then mstatus_mie else 0)

unfoldable pub execute : Cpu → Bus → ℕ → Bool → Phase
execute cpu bus instruction ready =
    let next_pc = add32 cpu.pc 4 in
    let csr = cpu.csr in
    let start : Executed = record {
      status = ok;
      value = 0;
      next_pc = next_pc;
      fault_address = 0;
      cpu = cpu;
      bus = bus;
    } in
    if instruction == 0x0000_0073
    then returns (enter_trap cpu 11 0)
    else if instruction == 0x0010_0073
    then returns (enter_trap cpu 3 cpu.pc)
    else if is_mret instruction
    then goes_on (record start {
      next_pc = bit_and csr.mepc word_mask;
      cpu = record cpu { csr = record csr { mstatus = mret_mstatus csr.mstatus } };
    })
    else if opcode instruction == 0x73
    then (let (status, value, cpu') = execute_csr cpu instruction 0 in
        goes_on (record start { status = status; value = value; cpu = cpu' }))
    else if is_fence instruction
    then goes_on start
    else if opcode instruction == 0x03
    then (let (status, value, fault_address, bus') = load_value cpu bus instruction ready 0 0 in
        goes_on (record start {
          status = status;
          value = value;
          fault_address = fault_address;
          bus = bus';
        }))
    else if is_branch instruction
    then (let (status, target) = compute_branch_target cpu instruction next_pc in
        goes_on (record start { status = status; next_pc = target }))
    else if opcode instruction == 0x6f
    then goes_on (record start {
      value = next_pc;
      next_pc = add32 cpu.pc (sign_extend (jump_offset instruction) 21);
    })
    else if opcode instruction == 0x67
    then (if funct3 instruction != 0
        then returns (enter_trap cpu 2 instruction)
        else goes_on (record start {
          value = next_pc;
          next_pc =
              bit_and
                (add32 (register cpu (rs1 instruction)) (sign_extend (shr32 instruction 20) 12))
                0xffff_fffe;
        }))
    else if not (is_store instruction)
    then (let (status, value) = compute_integer_result cpu instruction 0 in
        goes_on (record start { status = status; value = value }))
    else goes_on start

-- The exit of a step whose instruction failed with `status`.
unfoldable pub fail_with : Cpu → Status → ℕ → ℕ → ℕ → Status × Cpu
fail_with cpu unsupported_instruction cause instruction fault_address = enter_trap cpu 2 instruction
fail_with cpu status cause instruction fault_address = access_fault cpu status cause fault_address

-- The end of the step: it faults, or commits the store or the register, and moves the PC.
unfoldable pub commit : Executed → ℕ → Bool → Status × Cpu × Bus × List Effect
commit x instruction ready =
    if not (is_ok x.status)
    then (let (status, cpu') = fail_with x.cpu x.status 4 instruction x.fault_address in
        (status, cpu', x.bus, []))
    else if x.next_pc % 4 != 0
    then (let (status, cpu') = enter_trap x.cpu 0 x.next_pc in (status, cpu', x.bus, []))
    else if is_store instruction
    then (let (status, fault_address, bus', effects) =
          store_value x.cpu x.bus instruction ready x.fault_address in
        let cpu = x.cpu in
        if not (is_ok status)
        then (let (status', cpu') = fail_with cpu status 6 instruction fault_address in
            (status', cpu', bus', effects))
        else (ok, record cpu { pc = x.next_pc }, bus', effects))
    else (let written =
          if not (is_branch instruction) && not (is_fence instruction) && not (is_mret instruction)
          then (write_reg x.cpu (rd instruction) x.value).1
          else x.cpu in
        (ok, record written { pc = x.next_pc }, x.bus, []))

abbrev pub finish : Phase → Bus → ℕ → Bool → Status × Cpu × Bus × List Effect
finish (returns (status, cpu')) bus instruction ready = (status, cpu', bus, [])
finish (goes_on x) bus instruction ready = commit x instruction ready

abbrev pub takes_interrupt : Cpu → Bool
takes_interrupt cpu =
    bit_and cpu.csr.mstatus mstatus_mie != 0
    && bit_and (bit_and cpu.csr.mip cpu.csr.mie) mie_mask != 0

-- The step after the poll: an interrupt, or one instruction.
unfoldable pub step_polled : Cpu → Bus → Bool → Status × Cpu × Bus × List Effect
step_polled cpu bus ready =
    if takes_interrupt cpu
    then (let (status, cpu') = enter_interrupt cpu in (status, cpu', bus, []))
    else (let (result, instruction) = fetch cpu bus 0 in
        if not (is_ok result.status)
        then (let (status, cpu') = access_fault cpu result.status 0 result.address in
            (status, cpu', bus, []))
        else finish (execute cpu bus instruction ready) bus instruction ready)

-- `ready` is what the UART's backend answers if the instruction asks it.
unfoldable pub step : Cpu → Bus → Bool → Status × Cpu × Bus × List Effect
step cpu bus ready =
    let (polled, cpu') = poll_interrupts cpu bus in
    if not (is_ok polled) then (polled, cpu', bus, []) else step_polled cpu' bus ready
