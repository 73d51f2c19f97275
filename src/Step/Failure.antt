-- ===== src/Step/Failure.antt =====
-- The host errors of `yan_cpu_step` of src/cpu.c: a status that is neither success nor a trap.
use mathlib.Core.Path.{subst}
use yan_os.Base.{
  ℕ, ◌%◌, ◌^◌, ◌≡◌, ◌≢◌, ◌⊎◌, refl, ap, arith, bit_and, bit_or, ◌*◌, [], List, Bool, true, false,
  ◌==◌, ◌!=◌, ltb, ==_iff, if◌then◌else◌, Bool-cases, inl, inr,
}
use yan_os.Status.{Status, ok, trap, is_ok, is_ok?, unsupported_instruction}
use yan_os.Host.{Effect}
use yan_os.Csr.Laws.{read-status, write-status}
use yan_os.Bus.{Bus}
use yan_os.Bus.Failure.{read_failed, write_failed}
use yan_os.Alu.{add32, shr32, sign_extend}
use yan_os.Cpu.{Cpu, fetch, poll_interrupts}
use yan_os.Step.{
  Executed, Phase, returns, goes_on, enter_trap, enter_interrupt, execute, is_store,
  takes_interrupt, access_fault, fail_with, commit, finish, step_polled, step,
}
use yan_os.Step.Phases.{execute_outcomes, after_load}
use yan_os.Execute.{
  opcode, funct3, execute_csr, store_value, load_value, rs2, csr_old, updated_csr, register, rs1,
  rd,
}

-- The outcome of a step.
abbrev Outcome : Type 0
Outcome = Status × Cpu × Bus × List Effect

-- Success, a trap, or nothing changed.
abbrev pub Preserves : Cpu → Bus → Outcome → Type 0
Preserves cpu bus (status, cpu', bus', effects) =
    (status ≡ ok) ⊎ ((status ≡ trap) ⊎ ((cpu' ≡ cpu) × (bus' ≡ bus) × (effects ≡ [])))

-- The same of the hart alone.
abbrev pub PreservesHart : Cpu → Status × Cpu → Type 0
PreservesHart cpu (status, cpu') = (status ≡ ok) ⊎ ((status ≡ trap) ⊎ (cpu' ≡ cpu))

with_bus :
    (cpu : Cpu) (bus bus' : Bus) (effects : List Effect) (r : Status × Cpu)
    → bus' ≡ bus
    → effects ≡ []
    → PreservesHart cpu r
    → Preserves cpu bus (r.0, r.1, bus', effects)
with_bus cpu bus bus' effects r e f (inl v) = inl v
with_bus cpu bus bus' effects r e f (inr (inl v)) = inr (inl v)
with_bus cpu bus bus' effects r e f (inr (inr v)) = inr (inr (v, e, f))

enter_trap-trap : (cpu : Cpu) (cause value : ℕ) → (enter_trap cpu cause value).0 ≡ trap
unfolding enter_trap
enter_trap-trap cpu cause value = refl

access_fault-Preserves :
    (cpu : Cpu) (status : Status) (cause address : ℕ)
    → PreservesHart cpu (access_fault cpu status cause address)
unfolding access_fault enter_trap
access_fault-Preserves cpu status cause address = ground arith

fail_with-Preserves :
    (cpu : Cpu) (status : Status) (cause instruction address : ℕ)
    → PreservesHart cpu (fail_with cpu status cause instruction address)
unfolding fail_with access_fault enter_trap
fail_with-Preserves cpu status cause instruction address = ground arith

execute_csr-status :
    (cpu : Cpu) (instruction value : ℕ)
    → ((execute_csr cpu instruction value).0 ≡ ok)
      ⊎ ((execute_csr cpu instruction value).0 ≡ unsupported_instruction)
unfolding execute_csr
execute_csr-status cpu instruction value =
    let kind = funct3 instruction in
    let address = shr32 instruction 20 in
    let source_index = rs1 instruction in
    let operand = if ltb kind 4 then register cpu source_index else source_index in
    let operation = bit_and kind 3 in
    let old = (csr_old cpu address operation (rd instruction)).1 in
    ground (
      arith,
      read-status cpu.csr address 0,
      write-status cpu.csr address (updated_csr operation old operand),
    )

load_failed :
    (cpu : Cpu) (bus : Bus) (instruction : ℕ) (ready : Bool) (value fault_address : ℕ)
    → (load_value cpu bus instruction ready value fault_address).0 ≢ ok
    → (load_value cpu bus instruction ready value fault_address).3 ≡ bus
unfolding load_value
load_failed cpu bus instruction ready value fault_address h =
    let address = add32 (register cpu (rs1 instruction)) (sign_extend (shr32 instruction 20) 12) in
    let width = 2 ^ bit_and (funct3 instruction) 3 in
    ground (arith, h, read_failed bus address width ready value)

store_failed :
    (cpu : Cpu) (bus : Bus) (instruction : ℕ) (ready : Bool) (fault_address : ℕ)
    → (store_value cpu bus instruction ready fault_address).0 ≢ ok
    → ((store_value cpu bus instruction ready fault_address).2 ≡ bus)
      × ((store_value cpu bus instruction ready fault_address).3 ≡ [])
unfolding store_value
store_failed cpu bus instruction ready fault_address =
    let offset = bit_or (shr32 instruction 25 * 2 ^ 5) (bit_and (shr32 instruction 7) 31) in
    let value = register cpu (rs2 instruction) in
    let address = add32 (register cpu (rs1 instruction)) (sign_extend offset 12) in
    elim (Bool-cases (ltb 2 (funct3 instruction))) [
      | inl e ↦ rw e (λ _. (refl, refl))
      | inr e ↦ rw e (write_failed bus address (2 ^ funct3 instruction) value ready)
    ]

-- An executed instruction left everything as it was, or ends in success or a trap.
abbrev pub Ends : Cpu → Bus → ℕ → Phase → Type 0
Ends cpu bus instruction (returns (status, cpu')) = status ≡ trap
Ends cpu bus instruction (goes_on x) =
    (x.cpu ≡ cpu) × (x.bus ≡ bus)
    ⊎ (is_store instruction ≡ false) × ((x.status ≡ ok) ⊎ (x.status ≡ unsupported_instruction))

load-Ends :
    (cpu : Cpu) (bus : Bus) (instruction : ℕ) (ready : Bool)
    → (opcode instruction == 0x03) ≡ true
    → Ends cpu bus instruction (goes_on (after_load cpu bus instruction ready))
load-Ends cpu bus instruction ready e = elim (is_ok? (load_value cpu bus instruction ready 0 0).0) [
  | inl f ↦ inr (ground arith, inl f)
  | inr f ↦ inl (refl, load_failed cpu bus instruction ready 0 0 f)
]

execute-Ends :
    (cpu : Cpu) (bus : Bus) (instruction : ℕ) (ready : Bool)
    → Ends cpu bus instruction (execute cpu bus instruction ready)
execute-Ends cpu bus instruction ready =
    execute_outcomes cpu bus instruction ready (Ends cpu bus instruction)
      (λ cause value. enter_trap-trap cpu cause value) (λ x e f. inl (e, f))
      (load-Ends cpu bus instruction ready)
      (λ e. inr (ap is_store ((==_iff instruction 0x3020_0073).0 e), inl refl))
      (λ e. inr (ground arith, execute_csr-status cpu instruction 0))

commit-Preserves :
    (x : Executed) (instruction : ℕ) (ready : Bool)
    → Preserves x.cpu x.bus (commit x instruction ready)
unfolding commit
commit-Preserves x instruction ready =
    let store = store_value x.cpu x.bus instruction ready x.fault_address in
    elim (Bool-cases (is_ok x.status)) [
      | inr e ↦ rw e (
          with_bus x.cpu x.bus x.bus [] (fail_with x.cpu x.status 4 instruction x.fault_address)
            refl refl (fail_with-Preserves x.cpu x.status 4 instruction x.fault_address))
      | inl e ↦ elim (Bool-cases (x.next_pc % 4 != 0)) [
        | inl f ↦ rw (e, f) (inr (inl (enter_trap-trap x.cpu 0 x.next_pc)))
        | inr f ↦ elim (Bool-cases (is_store instruction)) [
          | inl g ↦ elim (Bool-cases (is_ok store.0)) [
            | inl i ↦ rw (e, f, g, i) (inl refl)
            | inr i ↦
                let kept =
                  store_failed x.cpu x.bus instruction ready x.fault_address (ground arith) in
                rw (e, f, g, i)
                  (with_bus x.cpu x.bus store.2 store.3
                    (fail_with x.cpu store.0 6 instruction store.1) kept.0 kept.1
                    (fail_with-Preserves x.cpu store.0 6 instruction store.1))
          ]
          | inr g ↦ rw (e, f, g) (inl refl)
        ]
      ]
    ]

-- Without a store, success before the commit is success or a trap after it.
commit_without_store :
    (x : Executed) (instruction : ℕ) (ready : Bool)
    → is_store instruction ≡ false
    → (x.status ≡ ok) ⊎ (x.status ≡ unsupported_instruction)
    → ((commit x instruction ready).0 ≡ ok) ⊎ ((commit x instruction ready).0 ≡ trap)
unfolding commit fail_with
commit_without_store x instruction ready g (inr s) =
    rw s (inr (enter_trap-trap x.cpu 2 instruction))
commit_without_store x instruction ready g (inl s) = elim (Bool-cases (x.next_pc % 4 != 0)) [
  | inl f ↦ rw (s, f) (inr (enter_trap-trap x.cpu 0 x.next_pc))
  | inr f ↦ rw (s, f, g) (inl refl)
]

finish-Preserves :
    (cpu : Cpu) (phase : Phase) (bus : Bus) (instruction : ℕ) (ready : Bool)
    → Ends cpu bus instruction phase
    → Preserves cpu bus (finish phase bus instruction ready)
finish-Preserves cpu (returns (status, cpu')) bus instruction ready v = inr (inl v)
finish-Preserves cpu (goes_on x) bus instruction ready (inl (e, f)) =
    subst (λ b. Preserves cpu b (commit x instruction ready)) f
      (subst (λ c. Preserves c x.bus (commit x instruction ready)) e
        (commit-Preserves x instruction ready))
finish-Preserves cpu (goes_on x) bus instruction ready (inr (g, s)) =
    elim (commit_without_store x instruction ready g s) [ inl e ↦ inl e | inr e ↦ inr (inl e) ]

step_polled-Preserves :
    (cpu : Cpu) (bus : Bus) (ready : Bool) → Preserves cpu bus (step_polled cpu bus ready)
unfolding step_polled enter_interrupt
step_polled-Preserves cpu bus ready =
    let fetched = fetch cpu bus 0 in
    elim (Bool-cases (takes_interrupt cpu)) [
      | inl e ↦ rw e (inr (inl (enter_trap-trap cpu _ 0)))
      | inr e ↦ elim (Bool-cases (is_ok fetched.0.status)) [
        | inl f ↦
            rw (e, f)
              (finish-Preserves cpu (execute cpu bus fetched.1 ready) bus fetched.1 ready
                (execute-Ends cpu bus fetched.1 ready))
        | inr f ↦
            rw (e, f)
              (with_bus cpu bus bus [] (access_fault cpu fetched.0.status 0 fetched.0.address) refl
                refl (access_fault-Preserves cpu fetched.0.status 0 fetched.0.address))
      ]
    ]

-- Where `yan_cpu_step` returns a status that is neither success nor a trap, the hart is as the
-- poll of the interrupt lines left it, the bus with its devices is unchanged, no byte was sent to
-- the terminal and the host was not notified; the terminal may have been asked whether it can
-- take a byte.
pub step_host_error :
    (cpu : Cpu) (bus : Bus) (ready : Bool)
    → (step cpu bus ready).0 ≢ ok
    → (step cpu bus ready).0 ≢ trap
    → ((step cpu bus ready).1 ≡ (poll_interrupts cpu bus).1)
      × ((step cpu bus ready).2 ≡ bus)
      × ((step cpu bus ready).3 ≡ [])
unfolding step poll_interrupts
step_host_error cpu bus ready h k =
    elim (step_polled-Preserves (poll_interrupts cpu bus).1 bus ready) [
      | inl e ↦ absurd (h e)
      | inr (inl e) ↦ absurd (k e)
      | inr (inr e) ↦ e
    ]
