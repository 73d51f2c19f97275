-- ===== src/Tests/Hart.antt =====
-- The hart of src/cpu.c at concrete states.
use yan_os.Base.{
  List, ◌∷◌, ℕ, ◌+◌, ◌^◌, ◌≡◌, ◌≢◌, refl, arith, bit_and, some, none, [], true, false,
  if◌then◌else◌, ◌==◌, replicate, set,
}
use yan_os.Status.{ok, trap, unavailable}
use yan_os.Ram
use yan_os.Ram.{Ram}
use yan_os.Clint
use yan_os.Plic
use yan_os.Uart
use yan_os.Uart.{Uart}
use yan_os.Bus
use yan_os.Bus.{Bus, decode, to_ram, fetch32}
use yan_os.Bus.Routes.{HasRam, fetch-store}
use yan_os.Csr
use yan_os.Csr.{word_mask}
use yan_os.Base.{get_or, set}
use yan_os.Csr.{Csr, mstatus_mie}
use yan_os.Csr.Laws.{is_read_only, legal, read-write_csr}
use yan_os.Cpu.{Cpu, read_reg, zero_csr, fetch, poll_interrupts}
use yan_os.Execute
use yan_os.Alu
use yan_os.Base.{◌!=◌, ◌&&◌, to_int}
use yan_os.Base.Bits.{bit_at}
use yan_os.Difftest.{compare}
use yan_os.Difftest.Laws.{compare-differing}
use yan_os.Step
use yan_os.Step.{enter_trap, takes_interrupt, interrupt_cause, step, step_polled}
use yan_os.Step.Trap.{IsHighest, interrupt_taken, trap-mret}
use yan_os.Step.Invariant.{IsWellFormed, step-IsWellFormed}
use yan_os.Step.Failure.{step_host_error}

-- 32 bytes of RAM: `mret` at 16 and `sw x0, 0(x1)` at 0.
abbrev code_bytes : List ℕ
code_bytes =
    35 ∷ 160 ∷ 0 ∷ 0 ∷ 0 ∷ 0 ∷ 0 ∷ 0 ∷ 0 ∷ 0 ∷ 0 ∷ 0 ∷ 0 ∷ 0 ∷ 0 ∷ 0 ∷ 115 ∷ 0 ∷ 32 ∷ 48 ∷ 0 ∷ 0 ∷ 0
    ∷ 0 ∷ 0 ∷ 0 ∷ 0 ∷ 0 ∷ 0 ∷ 0 ∷ 0 ∷ 0 ∷ []

abbrev code : Ram
code = record { storage = some code_bytes; size = 32 }

abbrev closed_uart : Uart
closed_uart = record {
  control = 0;
  irq_status = 0;
  rx_data = 0;
  rx_available = false;
  attached = true;
}

abbrev board : Bus
board = record {
  ram = some code;
  ram_base = 0x8000_0000;
  clint = none;
  plic = none;
  uart = some closed_uart;
  transport = none;
}

abbrev hart : Cpu
hart = record {
  regs = set (replicate 32 0) 1 0x1000_0000;
  pc = 0x8000_0000;
  csr = record zero_csr { mstatus = 8; mtvec = 0x8000_0010; mie = 0x888; mip = 0x88 };
}

hart-IsWellFormed : IsWellFormed hart
hart-IsWellFormed = (refl, refl, refl)

step-IsWellFormed_example : IsWellFormed (step hart board true).1
step-IsWellFormed_example = step-IsWellFormed hart board true hart-IsWellFormed

interrupt_taken_example :
    let lines = bit_and hart.csr.mip hart.csr.mie in
    let (status, after, bus', effects) = step_polled hart board true in
    (cause : ℕ) × IsHighest lines cause
    × (status ≡ trap)
    × (after.csr.mcause ≡ 2 ^ 31 + cause)
    × (after.csr.mtval ≡ 0)
    × (after.csr.mepc ≡ bit_and hart.pc word_mask)
    × (after.pc ≡ bit_and hart.csr.mtvec word_mask)
    × (bit_at after.csr.mstatus 3 ≡ 0)
    × (bit_at after.csr.mstatus 7 ≡ 1)
    × (after.regs ≡ hart.regs)
    × (bus' ≡ board)
    × (effects ≡ [])
interrupt_taken_example = interrupt_taken hart board true refl (omega arith)

mret_fetched_ok : (fetch (enter_trap hart 3 0).1 board 0).0.status ≡ ok
unfolding enter_trap fetch fetch32 Bus.ram_read Bus.ram_translate Ram.read Ram.check_access
mret_fetched_ok = refl

mret_fetched : (fetch (enter_trap hart 3 0).1 board 0).1 ≡ 0x3020_0073
unfolding enter_trap fetch fetch32 Bus.ram_read Bus.ram_translate Ram.read Ram.check_access
    Ram.read_loop
mret_fetched = refl

trap-mret_example :
    let (status, after, bus', effects) = step (enter_trap hart 3 0).1 board true in
    (status ≡ ok)
    × (after.pc ≡ hart.pc)
    × (after.regs ≡ hart.regs)
    × (bit_and after.csr.mstatus mstatus_mie ≡ bit_and hart.csr.mstatus mstatus_mie)
    × (bus' ≡ board)
    × (effects ≡ [])
trap-mret_example = trap-mret hart board 3 0 true (omega arith) refl mret_fetched_ok mret_fetched

-- The terminal is not ready, so that the store to TXDATA is a host error.
store_unavailable : (step hart board false).0 ≡ unavailable
unfolding step poll_interrupts Bus.pending_interrupts Clint.pending Plic.pending_line step_polled
    fetch fetch32 Bus.ram_read Bus.ram_translate Ram.read Ram.check_access Ram.read_loop
    Step.execute Step.commit Execute.store_value Bus.write Bus.write_target decode Bus.dispatch
    Bus.mapped Bus.device_offset Uart.write Uart.tx_ready read_reg Step.fail_with Step.access_fault
    Alu.sign_extend
store_unavailable = refl

not_ok : (step hart board false).0 ≢ ok
not_ok e = absurd (cc (store_unavailable, e))

not_trap : (step hart board false).0 ≢ trap
not_trap e = absurd (cc (store_unavailable, e))

step_host_error_example :
    ((step hart board false).1 ≡ (poll_interrupts hart board).1)
    × ((step hart board false).2 ≡ board)
    × ((step hart board false).3 ≡ [])
step_host_error_example = step_host_error hart board false not_ok not_trap

board-HasRam : HasRam board.ram
board-HasRam = (
  refl,
  omega arith,
  (
    omega arith,
    (
      omega arith,
      (
        omega arith,
        (
          omega arith,
          (
            omega arith,
            (
              omega arith,
              (
                omega arith,
                (
                  omega arith,
                  (
                    omega arith,
                    (
                      omega arith,
                      (
                        omega arith,
                        (
                          omega arith,
                          (
                            omega arith,
                            (
                              omega arith,
                              (
                                omega arith,
                                (
                                  omega arith,
                                  (
                                    omega arith,
                                    (
                                      omega arith,
                                      (
                                        omega arith,
                                        (
                                          omega arith,
                                          (
                                            omega arith,
                                            (
                                              omega arith,
                                              (
                                                omega arith,
                                                (
                                                  omega arith,
                                                  (
                                                    omega arith,
                                                    (
                                                      omega arith,
                                                      (
                                                        omega arith,
                                                        (
                                                          omega arith,
                                                          (
                                                            omega arith,
                                                            (
                                                            omega arith,
                                                            (omega arith, (omega arith, tt)),
                                                            ),
                                                          ),
                                                        ),
                                                      ),
                                                    ),
                                                  ),
                                                ),
                                              ),
                                            ),
                                          ),
                                        ),
                                      ),
                                    ),
                                  ),
                                ),
                              ),
                            ),
                          ),
                        ),
                      ),
                    ),
                  ),
                ),
              ),
            ),
          ),
        ),
      ),
    ),
  ),
)

routed : decode board 0x8000_0008 4 ≡ to_ram
unfolding decode Bus.dispatch Bus.mapped Bus.device_offset
routed = refl

stored_ok : (Bus.write board 0x8000_0008 4 0x13 true).0.status ≡ ok
unfolding Bus.write Bus.write_target decode Bus.dispatch Bus.mapped Bus.device_offset Bus.ram_write
    Bus.ram_translate Ram.write Ram.check_access
stored_ok = refl

fetch-store_example :
    ((fetch32 (Bus.write board 0x8000_0008 4 0x13 true).1 0x8000_0008 0).0.status ≡ ok)
    × ((fetch32 (Bus.write board 0x8000_0008 4 0x13 true).1 0x8000_0008 0).1 ≡ 0x13)
    × ((Bus.write board 0x8000_0008 4 0x13 true).2 ≡ [])
fetch-store_example =
    fetch-store board 0x8000_0008 0x13 0 true board-HasRam routed (omega arith) stored_ok

load_refused : (Bus.read board 0x9000_0000 4 true 7).0.status ≢ ok
unfolding Bus.read Bus.read_target decode Bus.dispatch Bus.mapped Bus.device_offset Bus.ram_read
    Bus.ram_translate
load_refused e = absurd (cc e)

store_refused : (Bus.write board 0x1000_0000 4 65 false).0.status ≢ ok
unfolding Bus.write Bus.write_target decode Bus.dispatch Bus.mapped Bus.device_offset Uart.write
    Uart.tx_ready
store_refused e = absurd (cc e)

csr_written : (Csr.write hart.csr 0x305 0x8000_0103).0 ≡ ok
unfolding Csr.write
csr_written = refl

read-write_csr_example : Csr.read (Csr.write hart.csr 0x305 0x8000_0103).1 0x305 0 ≡ (
    if 0x305 == 0x305
    then (if is_read_only 0x305 then Csr.read hart.csr 0x305 0 else (ok, legal 0x305 0x8000_0103))
    else Csr.read hart.csr 0x305 0)
read-write_csr_example = read-write_csr hart.csr 0x305 0x305 0x8000_0103 0 csr_written

-- A value stored for x0 is no difference.
abbrev dirty : Cpu
dirty = record hart { regs = set hart.regs 0 5 }

compare-differing_example :
    (bit_at (compare dirty hart).1.differing 0
      ≡ to_int (0 != 0 && get_or dirty.regs 0 0 != get_or hart.regs 0 0))
    × ((compare dirty hart).1.equal
        ≡ (dirty.pc == hart.pc && (compare dirty hart).1.differing == 0))
compare-differing_example = compare-differing dirty hart 0 (omega arith)
