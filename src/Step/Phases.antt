-- ===== src/Step/Phases.antt =====
-- The outcomes of the chain of branches in `yan_cpu_step` of src/cpu.c that executes an instruction.
use yan_os.Base.{ℕ, ◌≡◌, refl, bit_and, Bool, true, ◌==◌, ◌!=◌, Bool-cases, inl, inr}
use yan_os.Status.{ok}
use yan_os.Csr.{word_mask}
use yan_os.Bus.{Bus}
use yan_os.Alu.{add32}
use yan_os.Cpu.{Cpu}
use yan_os.Step.{
  Executed, Phase, returns, goes_on, enter_trap, execute, is_mret, is_fence, is_branch, is_store,
  mret_mstatus,
}
use yan_os.Execute.{opcode, funct3, execute_csr, load_value}

module _ (cpu : Cpu) (bus : Bus) (instruction : ℕ) (ready : Bool) where
  abbrev pub after_mret : Executed
  after_mret = record {
    status = ok;
    value = 0;
    next_pc = bit_and cpu.csr.mepc word_mask;
    fault_address = 0;
    cpu = record cpu { csr = record (cpu.csr) { mstatus = mret_mstatus cpu.csr.mstatus } };
    bus = bus;
  }

  abbrev pub after_csr : Executed
  after_csr =
      let (status, value, cpu') = execute_csr cpu instruction 0 in
      record {
        status = status;
        value = value;
        next_pc = add32 cpu.pc 4;
        fault_address = 0;
        cpu = cpu';
        bus = bus;
      }

  abbrev pub after_load : Executed
  after_load =
      let (status, value, fault_address, bus') = load_value cpu bus instruction ready 0 0 in
      record {
        status = status;
        value = value;
        next_pc = add32 cpu.pc 4;
        fault_address = fault_address;
        cpu = cpu;
        bus = bus';
      }

  -- An instruction traps, is `mret`, is on a CSR, is a load, or leaves the bus and the hart's registers to the commit.
  pub execute_outcomes {κ} :
      (P : Phase → Type κ)
      → ((cause value : ℕ) → P (returns (enter_trap cpu cause value)))
      → ((x : Executed) → x.cpu ≡ cpu → x.bus ≡ bus → P (goes_on x))
      → ((opcode instruction == 0x03) ≡ true → P (goes_on after_load))
      → (is_mret instruction ≡ true → P (goes_on after_mret))
      → ((opcode instruction == 0x73) ≡ true → P (goes_on after_csr))
      → P (execute cpu bus instruction ready)
  unfolding execute
  execute_outcomes P t k l m c = elim (Bool-cases (instruction == 0x0000_0073)) [
    | inl e0 ↦ rw e0 (t 11 0)
    | inr e0 ↦ elim (Bool-cases (instruction == 0x0010_0073)) [
      | inl e1 ↦ rw (e0, e1) (t 3 cpu.pc)
      | inr e1 ↦ elim (Bool-cases (is_mret instruction)) [
        | inl e2 ↦ rw (e0, e1, e2) (m e2)
        | inr e2 ↦ elim (Bool-cases (opcode instruction == 0x73)) [
          | inl e3 ↦ rw (e0, e1, e2, e3) (c e3)
          | inr e3 ↦ elim (Bool-cases (is_fence instruction)) [
            | inl e4 ↦ rw (e0, e1, e2, e3, e4) (k _ refl refl)
            | inr e4 ↦ elim (Bool-cases (opcode instruction == 0x03)) [
              | inl e5 ↦ rw (e0, e1, e2, e3, e4, e5) (l e5)
              | inr e5 ↦ elim (Bool-cases (is_branch instruction)) [
                | inl e6 ↦ rw (e0, e1, e2, e3, e4, e5, e6) (k _ refl refl)
                | inr e6 ↦ elim (Bool-cases (opcode instruction == 0x6f)) [
                  | inl e7 ↦ rw (e0, e1, e2, e3, e4, e5, e6, e7) (k _ refl refl)
                  | inr e7 ↦ elim (Bool-cases (opcode instruction == 0x67)) [
                    | inl e8 ↦ elim (Bool-cases (funct3 instruction != 0)) [
                      | inl f ↦ rw (e0, e1, e2, e3, e4, e5, e6, e7, e8, f) (t 2 instruction)
                      | inr f ↦ rw (e0, e1, e2, e3, e4, e5, e6, e7, e8, f) (k _ refl refl)
                    ]
                    | inr e8 ↦ elim (Bool-cases (is_store instruction)) [
                      | inl f ↦ rw (e0, e1, e2, e3, e4, e5, e6, e7, e8, f) (k _ refl refl)
                      | inr f ↦ rw (e0, e1, e2, e3, e4, e5, e6, e7, e8, f) (k _ refl refl)
                    ]
                  ]
                ]
              ]
            ]
          ]
        ]
      ]
    ]
  ]
