-- ===== src/Step/Invariant.antt =====
-- The shape of the hart of src/cpu.c along its steps.
use mathlib.Core.Path.{subst}
use yan_os.Base.{ℕ, ◌+◌, ◌%◌, ◌≡◌, refl, ◌∙◌, ap, sym, arith, bit_and, Bool}
use yan_os.Base.{◌!=◌, length, length-set, get_or, get_or-set_ne, Bool-cases, inl, inr}
use yan_os.Base.Bits.{bit_at, bit_at-bit_and}
use yan_os.Status.{Status, ok, is_ok}
use yan_os.Csr.{word_mask}
use yan_os.Bus.{Bus}
use yan_os.Step.Phases.{execute_outcomes}
use yan_os.Cpu.{reset, Cpu, fetch, poll_interrupts, write_reg, register_count}
use yan_os.Step.{
  enter_trap, enter_interrupt, takes_interrupt, execute, step_polled, step, finish, commit,
  Executed, goes_on, returns, Phase, fail_with, access_fault, is_store,
}
use yan_os.Execute.{rd, execute_csr, store_value}

-- The register file is whole, x0 is zero, and the PC is aligned.
abbrev pub IsWellFormed : Cpu → Type 0
IsWellFormed cpu = (length cpu.regs ≡ register_count) × (get_or cpu.regs 0 0 ≡ 0) × (cpu.pc % 4 ≡ 0)

masked_aligned : (a : ℕ) → bit_and a word_mask % 4 ≡ 0
masked_aligned a =
    let d0 : bit_at (bit_and a word_mask) 0 ≡ 0 = omega (arith, bit_at-bit_and a word_mask 0) in
    let d1 : bit_at (bit_and a word_mask) 1 ≡ 0 = omega (arith, bit_at-bit_and a word_mask 1) in
    omega (arith, d0, d1)

enter_trap-IsWellFormed :
    (cpu : Cpu) (cause value : ℕ) → IsWellFormed cpu → IsWellFormed (enter_trap cpu cause value).1
unfolding enter_trap
enter_trap-IsWellFormed cpu cause value (l, z, a) = (l, z, masked_aligned cpu.csr.mtvec)

access_fault-IsWellFormed :
    (cpu : Cpu) (status : Status) (cause address : ℕ)
    → IsWellFormed cpu
    → IsWellFormed (access_fault cpu status cause address).1
unfolding access_fault
access_fault-IsWellFormed cpu status cause address v = ground (
  arith,
  enter_trap-IsWellFormed cpu cause address v,
  enter_trap-IsWellFormed cpu (cause + 1) address v,
)

fail_with-IsWellFormed :
    (cpu : Cpu) (status : Status) (cause instruction address : ℕ)
    → IsWellFormed cpu
    → IsWellFormed (fail_with cpu status cause instruction address).1
unfolding fail_with
fail_with-IsWellFormed cpu status cause instruction address v = ground (
  arith,
  enter_trap-IsWellFormed cpu 2 instruction v,
  access_fault-IsWellFormed cpu status cause address v,
)

write_reg-IsWellFormed :
    (cpu : Cpu) (index value : ℕ) → IsWellFormed cpu → IsWellFormed (write_reg cpu index value).1
unfolding write_reg
write_reg-IsWellFormed cpu index value (l, z, a) =
    grind (arith, length-set cpu.regs index value, get_or-set_ne cpu.regs index 0 value 0)

commit-IsWellFormed :
    (x : Executed) (instruction : ℕ) (ready : Bool)
    → IsWellFormed x.cpu
    → IsWellFormed (commit x instruction ready).1
unfolding commit
commit-IsWellFormed x instruction ready v =
    let fault = fail_with-IsWellFormed x.cpu x.status 4 instruction x.fault_address v in
    let jump = enter_trap-IsWellFormed x.cpu 0 x.next_pc v in
    let store = store_value x.cpu x.bus instruction ready x.fault_address in
    let store_fault = fail_with-IsWellFormed x.cpu store.0 6 instruction store.1 v in
    let written = write_reg-IsWellFormed x.cpu (rd instruction) x.value v in
    elim (Bool-cases (is_ok x.status)) [
      | inr e ↦ rw e fault
      | inl e ↦ elim (Bool-cases (x.next_pc % 4 != 0)) [
        | inl f ↦ rw (e, f) jump
        | inr f ↦ elim (Bool-cases (is_store instruction)) [
          | inl g ↦ elim (Bool-cases (is_ok store.0)) [
            | inl i ↦ rw (e, f, g, i) (v.0, v.1, ground arith)
            | inr i ↦ rw (e, f, g, i) store_fault
          ]
          | inr g ↦ rw (e, f, g) (ground (arith, written, v))
        ]
      ]
    ]

execute_csr-kept :
    (cpu : Cpu) (instruction value : ℕ)
    → ((execute_csr cpu instruction value).2.regs ≡ cpu.regs)
      × ((execute_csr cpu instruction value).2.pc ≡ cpu.pc)
unfolding execute_csr
execute_csr-kept cpu instruction value = ground arith

-- What an executed instruction leaves of the hart.
abbrev pub Keeps : Phase → Type 0
Keeps (returns (status, cpu')) = IsWellFormed cpu'
Keeps (goes_on x) = IsWellFormed x.cpu

execute-Keeps :
    (cpu : Cpu) (bus : Bus) (instruction : ℕ) (ready : Bool)
    → IsWellFormed cpu
    → Keeps (execute cpu bus instruction ready)
execute-Keeps cpu bus instruction ready v =
    let kept = execute_csr-kept cpu instruction 0 in
    execute_outcomes cpu bus instruction ready Keeps
      (λ cause value. enter_trap-IsWellFormed cpu cause value v)
      (λ x e _. subst (λ c. IsWellFormed c) (sym e) v) (λ _. v) (λ _. v)
      (λ _.
        (ap length kept.0 ∙ v.0, ap (λ r. get_or r 0 0) kept.0 ∙ v.1, ap (λ t. t % 4) kept.1 ∙ v.2))

finish-IsWellFormed :
    (phase : Phase) (bus : Bus) (instruction : ℕ) (ready : Bool)
    → Keeps phase
    → IsWellFormed (finish phase bus instruction ready).1
finish-IsWellFormed (returns (status, cpu')) bus instruction ready v = v
finish-IsWellFormed (goes_on x) bus instruction ready v = commit-IsWellFormed x instruction ready v

step_polled-IsWellFormed :
    (cpu : Cpu) (bus : Bus) (ready : Bool)
    → IsWellFormed cpu
    → IsWellFormed (step_polled cpu bus ready).1
unfolding step_polled enter_interrupt
step_polled-IsWellFormed cpu bus ready v =
    let fetched = fetch cpu bus 0 in
    elim (Bool-cases (takes_interrupt cpu)) [
      | inl e ↦ rw e (enter_trap-IsWellFormed cpu _ 0 v)
      | inr e ↦ elim (Bool-cases (is_ok fetched.0.status)) [
        | inl f ↦
            rw (e, f)
              (finish-IsWellFormed (execute cpu bus fetched.1 ready) bus fetched.1 ready
                (execute-Keeps cpu bus fetched.1 ready v))
        | inr f ↦ rw (e, f) (access_fault-IsWellFormed cpu _ 0 _ v)
      ]
    ]

-- A step keeps the register file of 32 entries, x0 zero and the PC a multiple of four, whatever
-- the instruction, the status and the answers of the devices.
pub step-IsWellFormed :
    (cpu : Cpu) (bus : Bus) (ready : Bool) → IsWellFormed cpu → IsWellFormed (step cpu bus ready).1
unfolding step poll_interrupts
step-IsWellFormed cpu bus ready v = step_polled-IsWellFormed (poll_interrupts cpu bus).1 bus ready v

pub reset-IsWellFormed :
    (cpu : Cpu) (entry : ℕ) → (reset cpu entry).0 ≡ ok → IsWellFormed (reset cpu entry).1
unfolding reset
reset-IsWellFormed cpu entry h = elim (Bool-cases (entry % 4 != 0)) [
  | inl e ↦ absurd (ground arith)
  | inr e ↦ rw e (refl, refl, ground arith)
]
