-- ===== src/Step/Memory.antt =====
-- What a step of src/cpu.c leaves of RAM.
use mathlib.Core.Path.{subst}
use mathlib.Core.Option.{Option}
use yan_os.Base.{
  ℕ, ◌*◌, ◌%◌, ◌^◌, ◌≡◌, refl, sym, ◌∙◌, arith, bit_and, bit_or, none, some, Bool, ◌!=◌, ltb,
  Bool-cases, inl, inr,
}
use yan_os.Status.{is_ok}
use yan_os.Ram.{Ram}
use yan_os.Ram.Laws.{IsValid, write-IsValid, write-size}
use yan_os.Bus
use yan_os.Bus.{
  Bus, Target, to_clint, to_plic, to_uart, to_transport, to_ram, decode, read_target, write_target,
  ram_write, ram_translate,
}
use yan_os.Cpu.{Cpu, fetch, poll_interrupts}
use yan_os.Alu.{add32, shr32, sign_extend}
use yan_os.Execute.{funct3, rs1, rs2, register, load_value, store_value}
use yan_os.Step.{
  Executed, Phase, returns, goes_on, is_store, execute, commit, finish, takes_interrupt,
  step_polled, step,
}
use yan_os.Step.Phases.{execute_outcomes}

-- Behind a link there is a whole RAM of `size` bytes.
abbrev pub IsRamOf : Option Ram → ℕ → Type 0
IsRamOf none size = Unit
IsRamOf (some ram) size = IsValid ram × (ram.size ≡ size)

read_target_ram :
    (target : Target) (bus : Bus) (address width : ℕ) (ready : Bool) (value : ℕ)
    → (read_target target bus address width ready value).2.ram ≡ bus.ram
unfolding read_target
read_target_ram (to_clint _ _) bus address width ready value = refl
read_target_ram (to_plic _ _) bus address width ready value = refl
read_target_ram (to_uart _ _) bus address width ready value = refl
read_target_ram (to_transport _ _) bus address width ready value = refl
read_target_ram to_ram bus address width ready value = refl

ram_write_ram :
    (bus : Bus) (o : Option Ram) (size address width value : ℕ)
    → IsRamOf o size
    → IsRamOf (ram_write (record bus { ram = o }) address width value).1.ram size
unfolding ram_write
ram_write_ram bus none size address width value v =
    elim (Bool-cases (is_ok (ram_translate (record bus { ram = none }) address width).0)) [
      | inl e ↦ rw e tt
      | inr e ↦ rw e tt
    ]
ram_write_ram bus (some ram) size address width value (v, s) =
    let t = ram_translate (record bus { ram = some ram }) address width in
    elim (Bool-cases (is_ok t.0)) [
      | inl e ↦ rw e (write-IsValid ram t.1 width value v, write-size ram t.1 width value ∙ s)
      | inr e ↦ rw e (v, s)
    ]

write_target_ram :
    (target : Target) (bus : Bus) (size address width value : ℕ) (ready : Bool)
    → IsRamOf bus.ram size
    → IsRamOf (write_target target bus address width value ready).1.ram size
unfolding write_target
write_target_ram (to_clint _ _) bus size address width value ready v = v
write_target_ram (to_plic _ _) bus size address width value ready v = v
write_target_ram (to_uart _ _) bus size address width value ready v = v
write_target_ram (to_transport _ _) bus size address width value ready v = v
write_target_ram to_ram bus size address width value ready v =
    ram_write_ram bus bus.ram size address width value v

load_ram :
    (cpu : Cpu) (bus : Bus) (instruction : ℕ) (ready : Bool) (value fault_address : ℕ)
    → (load_value cpu bus instruction ready value fault_address).3.ram ≡ bus.ram
unfolding load_value Bus.read
load_ram cpu bus instruction ready value fault_address =
    let address = add32 (register cpu (rs1 instruction)) (sign_extend (shr32 instruction 20) 12) in
    let width = 2 ^ bit_and (funct3 instruction) 3 in
    ground (arith, read_target_ram (decode bus address width) bus address width ready value)

store_ram :
    (cpu : Cpu) (bus : Bus) (size instruction : ℕ) (ready : Bool) (fault_address : ℕ)
    → IsRamOf bus.ram size
    → IsRamOf (store_value cpu bus instruction ready fault_address).2.ram size
unfolding store_value Bus.write
store_ram cpu bus size instruction ready fault_address v =
    let offset = bit_or (shr32 instruction 25 * 2 ^ 5) (bit_and (shr32 instruction 7) 31) in
    let value = register cpu (rs2 instruction) in
    let address = add32 (register cpu (rs1 instruction)) (sign_extend offset 12) in
    let width = 2 ^ funct3 instruction in
    elim (Bool-cases (ltb 2 (funct3 instruction))) [
      | inl e ↦ rw e v
      | inr e ↦
          rw e (write_target_ram (decode bus address width) bus size address width value ready v)
    ]

abbrev Leaves : ℕ → Phase → Type 0
Leaves size (returns _) = Unit
Leaves size (goes_on x) = IsRamOf x.bus.ram size

execute-Leaves :
    (cpu : Cpu) (bus : Bus) (size instruction : ℕ) (ready : Bool)
    → IsRamOf bus.ram size
    → Leaves size (execute cpu bus instruction ready)
execute-Leaves cpu bus size instruction ready v =
    execute_outcomes cpu bus instruction ready (Leaves size) (λ _ _. tt)
      (λ x _ f. subst (λ b. IsRamOf b.ram size) (sym f) v)
      (λ _. subst (λ o. IsRamOf o size) (sym (load_ram cpu bus instruction ready 0 0)) v) (λ _. v)
      (λ _. v)

commit_ram :
    (x : Executed) (size instruction : ℕ) (ready : Bool)
    → IsRamOf x.bus.ram size
    → IsRamOf (commit x instruction ready).2.ram size
unfolding commit
commit_ram x size instruction ready v =
    let store = store_value x.cpu x.bus instruction ready x.fault_address in
    let stored = store_ram x.cpu x.bus size instruction ready x.fault_address v in
    elim (Bool-cases (is_ok x.status)) [
      | inr e ↦ rw e v
      | inl e ↦ elim (Bool-cases (x.next_pc % 4 != 0)) [
        | inl f ↦ rw (e, f) v
        | inr f ↦ elim (Bool-cases (is_store instruction)) [
          | inl g ↦ elim (Bool-cases (is_ok store.0)) [
            | inl i ↦ rw (e, f, g, i) stored
            | inr i ↦ rw (e, f, g, i) stored
          ]
          | inr g ↦ rw (e, f, g) v
        ]
      ]
    ]

finish_ram :
    (phase : Phase) (bus : Bus) (size instruction : ℕ) (ready : Bool)
    → IsRamOf bus.ram size
    → Leaves size phase
    → IsRamOf (finish phase bus instruction ready).2.ram size
finish_ram (returns (status, cpu')) bus size instruction ready v w = v
finish_ram (goes_on x) bus size instruction ready v w = commit_ram x size instruction ready w

step_polled_ram :
    (cpu : Cpu) (bus : Bus) (size : ℕ) (ready : Bool)
    → IsRamOf bus.ram size
    → IsRamOf (step_polled cpu bus ready).2.ram size
unfolding step_polled
step_polled_ram cpu bus size ready v =
    let fetched = fetch cpu bus 0 in
    elim (Bool-cases (takes_interrupt cpu)) [
      | inl e ↦ rw e v
      | inr e ↦ elim (Bool-cases (is_ok fetched.0.status)) [
        | inl f ↦
            rw (e, f)
              (finish_ram (execute cpu bus fetched.1 ready) bus size fetched.1 ready v
                (execute-Leaves cpu bus size fetched.1 ready v))
        | inr f ↦ rw (e, f) v
      ]
    ]

pub step-IsRamOf :
    (cpu : Cpu) (bus : Bus) (size : ℕ) (ready : Bool)
    → IsRamOf bus.ram size
    → IsRamOf (step cpu bus ready).2.ram size
unfolding step poll_interrupts
step-IsRamOf cpu bus size ready v = step_polled_ram (poll_interrupts cpu bus).1 bus size ready v
