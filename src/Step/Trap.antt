-- ===== src/Step/Trap.antt =====
-- Traps and interrupts in `yan_cpu_step` of src/cpu.c.
use yan_os.Base.{
  ℕ, zero, suc, min, ◌+◌, ◌%◌, ◌^◌, ◌<◌, ◌≡◌, ◌≢◌, ◌⊎◌, refl, ◌∙◌, ap, sym, arith, bit_and, bit_or,
  Bool, true, false,
}
use yan_os.Base.{◌!=◌, if◌then◌else◌, [], Bool-cases, inl, inr}
use native.Mathlib.Decide.{ℕ_discrete}
use yan_os.Base.Bits.Flag.{bit_and-pow, flag_set, flag_clear}
use yan_os.Base.Bits.{bit_at, bit_at-lt, bit_ext, bit_at-bit_and, bit_at_zero}
use yan_os.Base.Bits.Mask.{bit_and-word_mask}
use yan_os.Status.{ok, trap}
use yan_os.Csr.{mstatus_mie, mstatus_mpie, mstatus_mpp, mie_mask, word_mask}
use yan_os.Bus.{Bus}
use yan_os.Cpu.{Cpu, fetch, poll_interrupts}
use yan_os.Step.{
  enter_trap, interrupt_cause, enter_interrupt, takes_interrupt, mcause_interrupt, mret_mstatus,
  execute, step_polled, step, commit,
}

trap_mstatus :
    (mstatus : ℕ)
    → bit_and
        (bit_or mstatus_mpp (if bit_and mstatus mstatus_mie != 0 then mstatus_mpie else 0))
        mstatus_mie
      ≡ 0
trap_mstatus mstatus = elim (Bool-cases (bit_and mstatus mstatus_mie != 0)) [
  | inl e ↦ rw e refl
  | inr e ↦ rw e refl
]

-- Entering a trap disables interrupts: the state after it takes none.
pub enter_trap-masks :
    (cpu : Cpu) (cause value : ℕ) → takes_interrupt (enter_trap cpu cause value).1 ≡ false
unfolding enter_trap
enter_trap-masks cpu cause value = rw (trap_mstatus cpu.csr.mstatus) refl

-- The digits of the mask of the three interrupt lines.
mask_digit : (j : ℕ) → j ≢ 3 → j ≢ 7 → j ≢ 11 → bit_at mie_mask j ≡ 0
mask_digit zero a b c = refl
mask_digit (suc zero) a b c = refl
mask_digit (suc (suc zero)) a b c = refl
mask_digit (suc (suc (suc zero))) a b c = absurd (a refl)
mask_digit (suc (suc (suc (suc zero)))) a b c = refl
mask_digit (suc (suc (suc (suc (suc zero))))) a b c = refl
mask_digit (suc (suc (suc (suc (suc (suc zero)))))) a b c = refl
mask_digit (suc (suc (suc (suc (suc (suc (suc zero))))))) a b c = absurd (b refl)
mask_digit (suc (suc (suc (suc (suc (suc (suc (suc zero)))))))) a b c = refl
mask_digit (suc (suc (suc (suc (suc (suc (suc (suc (suc zero))))))))) a b c = refl
mask_digit (suc (suc (suc (suc (suc (suc (suc (suc (suc (suc zero)))))))))) a b c = refl
mask_digit (suc (suc (suc (suc (suc (suc (suc (suc (suc (suc (suc zero))))))))))) a b c =
    absurd (c refl)
mask_digit (suc (suc (suc (suc (suc (suc (suc (suc (suc (suc (suc (suc j)))))))))))) a b c =
    bit_at_zero j

no_line :
    (lines : ℕ)
    → bit_at lines 3 ≡ 0
    → bit_at lines 7 ≡ 0
    → bit_at lines 11 ≡ 0
    → bit_and lines mie_mask ≡ 0
no_line lines a b c = bit_ext _ 0 λ j. bit_at-bit_and lines mie_mask j ∙ go j ∙ sym (bit_at_zero j)
  where
    other : (j : ℕ) → bit_at mie_mask j ≡ 0 → min (bit_at lines j) (bit_at mie_mask j) ≡ 0
    other j e = omega (arith, e)

    line : (i j : ℕ) → i ≡ j → bit_at lines i ≡ 0 → min (bit_at lines j) (bit_at mie_mask j) ≡ 0
    line i j e z = omega (arith, ap (bit_at lines) e)

    go : (j : ℕ) → min (bit_at lines j) (bit_at mie_mask j) ≡ 0
    go j = elim (ℕ_discrete 3 j) [
      | yes e ↦ line 3 j e a
      | no p ↦ elim (ℕ_discrete 7 j) [
        | yes e ↦ line 7 j e b
        | no q ↦ elim (ℕ_discrete 11 j) [
          | yes e ↦ line 11 j e c
          | no r ↦ other j (mask_digit j (λ e. p (sym e)) (λ e. q (sym e)) (λ e. r (sym e)))
        ]
      ]
    ]

-- `cause` is the number of a raised line that no raised line outranks.
abbrev pub IsHighest : ℕ → ℕ → Type 0
IsHighest lines cause =
    (bit_at lines cause ≡ 1)
    × ((cause ≡ 11)
        ⊎ ((bit_at lines 11 ≡ 0) × ((cause ≡ 7) ⊎ ((bit_at lines 7 ≡ 0) × (cause ≡ 3)))))

interrupt_cause-IsHighest :
    (lines : ℕ) → bit_and lines mie_mask ≢ 0 → IsHighest lines (interrupt_cause lines)
unfolding interrupt_cause
interrupt_cause-IsHighest lines h = elim (bit_cases lines 11) [
  | inr e ↦ rw (flag_set lines 11 e) (e, inl refl)
  | inl z ↦ elim (bit_cases lines 7) [
    | inr e ↦ rw (flag_clear lines 11 z, flag_set lines 7 e) (e, inr (z, inl refl))
    | inl y ↦ elim (bit_cases lines 3) [
      | inr e ↦ rw (flag_clear lines 11 z, flag_clear lines 7 y) (e, inr (z, inr (y, refl)))
      | inl x ↦ absurd (h (no_line lines x y z))
    ]
  ]
]
  where
    bit_cases : (a s : ℕ) → (bit_at a s ≡ 0) ⊎ (bit_at a s ≡ 1)
    bit_cases a s = ground (arith, bit_at-lt a s)

interrupt_code :
    (lines : ℕ) → bit_or mcause_interrupt (interrupt_cause lines) ≡ 2 ^ 31 + interrupt_cause lines
unfolding interrupt_cause
interrupt_code lines = ground arith

-- Where MIE is set and an enabled line is raised, the instruction boundary takes an interrupt: it
-- returns the trap status, mcause is 2^31 plus the number of a raised and enabled line that no
-- raised and enabled line outranks (external, then timer, then software), mtval is zero, mepc is
-- the PC and the PC is mtvec, both with the two low bits cleared, MIE is cleared and MPIE set;
-- the registers and the bus are as before, and no byte is sent and no notification made.
pub interrupt_taken :
    (cpu : Cpu) (bus : Bus) (ready : Bool)
    → bit_at cpu.csr.mstatus 3 ≡ 1
    → bit_and (bit_and cpu.csr.mip cpu.csr.mie) mie_mask ≢ 0
    → (let lines = bit_and cpu.csr.mip cpu.csr.mie in
        let (status, after, bus', effects) = step_polled cpu bus ready in
        (cause : ℕ) × IsHighest lines cause
        × (status ≡ trap)
        × (after.csr.mcause ≡ 2 ^ 31 + cause)
        × (after.csr.mtval ≡ 0)
        × (after.csr.mepc ≡ bit_and cpu.pc word_mask)
        × (after.pc ≡ bit_and cpu.csr.mtvec word_mask)
        × (bit_at after.csr.mstatus 3 ≡ 0)
        × (bit_at after.csr.mstatus 7 ≡ 1)
        × (after.regs ≡ cpu.regs)
        × (bus' ≡ bus)
        × (effects ≡ []))
unfolding step_polled enter_interrupt enter_trap
interrupt_taken cpu bus ready enabled raised =
    let lines = bit_and cpu.csr.mip cpu.csr.mie in
    let set : (bit_and cpu.csr.mstatus mstatus_mie != 0) ≡ true =
      flag_set cpu.csr.mstatus 3 enabled in
    let any : (bit_and lines mie_mask != 0) ≡ true = ground arith in
    rw (set, any)
      (
        interrupt_cause lines,
        interrupt_cause-IsHighest lines raised,
        refl,
        interrupt_code lines,
        refl,
        refl,
        refl,
        refl,
        refl,
        refl,
        refl,
        refl,
      )

abbrev pub mret_word : ℕ
mret_word = 0x3020_0073

restored_mie :
    (mstatus : ℕ)
    → bit_and
        (mret_mstatus
          (bit_or mstatus_mpp (if bit_and mstatus mstatus_mie != 0 then mstatus_mpie else 0)))
        mstatus_mie
      ≡ bit_and mstatus mstatus_mie
restored_mie mstatus = elim (Bool-cases (bit_and mstatus mstatus_mie != 0)) [
  | inl e ↦ rw e (ground (arith, bit_and-pow mstatus 3, bit_at-lt mstatus 3))
  | inr e ↦ rw e (ground arith)
]

-- The first step of a handler that is a single `mret`.
mret_step :
    (cpu : Cpu) (bus : Bus) (ready : Bool)
    → takes_interrupt (poll_interrupts cpu bus).1 ≡ false
    → (fetch cpu bus 0).0.status ≡ ok
    → (fetch cpu bus 0).1 ≡ mret_word
    → bit_and cpu.csr.mepc word_mask % 4 ≡ 0
    → step cpu bus ready ≡ (
      ok,
      record cpu {
        pc = bit_and cpu.csr.mepc word_mask;
        csr = record (poll_interrupts cpu bus).1.csr { mstatus = mret_mstatus cpu.csr.mstatus };
      },
      bus,
      [],
    )
unfolding step step_polled execute commit poll_interrupts fetch
mret_step cpu bus ready h f g e = rw (h, f, g) (rw e refl)

return_address : (pc : ℕ) → pc < 2 ^ 32 → pc % 4 ≡ 0 → bit_and (bit_and pc word_mask) word_mask ≡ pc
return_address pc small aligned =
    let e : bit_and pc word_mask ≡ pc = omega (arith, bit_and-word_mask pc small) in rw (e, e) refl

-- After a trap from an aligned 32-bit PC, a handler whose first instruction is `mret` returns:
-- the step succeeds, the PC and the registers are those before the trap, mstatus.MIE is as
-- before, and the bus is untouched. The handler's first fetch is assumed to succeed and to give
-- `mret`.
pub trap-mret :
    (cpu : Cpu) (bus : Bus) (cause value : ℕ) (ready : Bool)
    → cpu.pc < 2 ^ 32
    → cpu.pc % 4 ≡ 0
    → (fetch (enter_trap cpu cause value).1 bus 0).0.status ≡ ok
    → (fetch (enter_trap cpu cause value).1 bus 0).1 ≡ mret_word
    → (let (status, after, bus', effects) = step (enter_trap cpu cause value).1 bus ready in
        (status ≡ ok)
        × (after.pc ≡ cpu.pc)
        × (after.regs ≡ cpu.regs)
        × (bit_and after.csr.mstatus mstatus_mie ≡ bit_and cpu.csr.mstatus mstatus_mie)
        × (bus' ≡ bus)
        × (effects ≡ []))
unfolding enter_trap poll_interrupts
trap-mret cpu bus cause value ready small aligned f g =
    let e = return_address cpu.pc small aligned in
    let run =
      mret_step (enter_trap cpu cause value).1 bus ready (rw (trap_mstatus cpu.csr.mstatus) refl) f
        g (ap (λ t. t % 4) e ∙ aligned) in
    (
      ap (λ t. t.0) run,
      ap (λ t. t.1.pc) run ∙ e,
      ap (λ t. t.1.regs) run,
      ap (λ t. bit_and t.1.csr.mstatus mstatus_mie) run ∙ restored_mie cpu.csr.mstatus,
      ap (λ t. t.2) run,
      ap (λ t. t.3) run,
    )
