-- ===== src/Plic/Gateway.antt =====
-- The gateways of the PLIC of src/interrupt.c.
use yan_os.Base.{ℕ, ◌-◌, ◌^◌, ◌<◌, ◌≡◌, inl, inr, arith, min}
use yan_os.Base.{bit_and, Bool, false, ◌!=◌, ◌==◌, Bool-cases, ltb, leb, ◌||◌, ◌&&◌, ==_iff}
use yan_os.Base.Bits.{bit_at, bit_at-lt, bit_at_zero}
use yan_os.Base.Bits.Flag.{
  bit_not, set_bits, clear_bits, bit_and-lt, bit_or-lt, pow-lt-word, flag_test, flag_test_not,
}
use yan_os.Plic.{
  Plic, source_max, claim_offset, reset, select, claim, read, complete, write, set_level,
}
use yan_os.Plic.Select.{IsValid, select-IsArbitrated}

pub record IsGated (plic : Plic) : Type 0 where
  pub words : IsValid plic
  pub gate :
      (s : ℕ) → bit_at plic.pending s ≡ min (bit_at plic.level s) (1 - bit_at plic.in_service_m s)

pub reset-IsGated : (plic : Plic) → IsGated (reset plic)
unfolding reset
reset-IsGated plic = record { words = omega arith; gate = λ s. omega (arith, bit_at_zero s) }

select-lt : (plic : Plic) → select plic < 32
select-lt plic = ground (arith, select-IsArbitrated plic)

-- Only a read of the claim register has an effect.
pub read_keeps :
    (plic : Plic) (offset value : ℕ)
    → (offset == claim_offset) ≡ false
    → (read plic offset value).2 ≡ plic
unfolding read
read_keeps plic offset value e = ground arith

-- The words that the gateway depends on.
abbrev pub SameGate : Plic → Plic → Type 0
SameGate p q = (p.pending ≡ q.pending) × (p.level ≡ q.level) × (p.in_service_m ≡ q.in_service_m)

pub write-SameGate :
    (plic : Plic) (offset value : ℕ)
    → (offset == claim_offset) ≡ false
    → SameGate (write plic offset value).1 plic
unfolding write
write-SameGate plic offset value e = ground arith

SameGate-IsGated : (p q : Plic) → SameGate p q → IsGated q → IsGated p
SameGate-IsGated p q (a, b, c) g = record {
  words = omega (arith, g.words);
  gate = λ s. rw (a, b, c) (g.gate s);
}

module _ (plic : Plic) (g : IsGated plic) where
  pub set_level-IsGated : (source : ℕ) (asserted : Bool) → IsGated (set_level plic source asserted)
  unfolding set_level
  set_level-IsGated source asserted = elim (Bool-cases (ltb source 1 || ltb source_max source)) [
    | inl out ↦ rw out g
    | inr inside ↦ rw inside record {
      words = ground (
        arith,
        bit_or-lt 32 plic.level (2 ^ source),
        bit_or-lt 32 plic.pending (2 ^ source),
        bit_and-lt 32 plic.level (bit_not (2 ^ source)),
        bit_and-lt 32 plic.pending (bit_not (2 ^ source)),
        pow-lt-word source,
        g.words,
      );
      gate = λ s. ground (
        arith,
        flag_test_not plic.in_service_m source,
        set_bits plic.level source s,
        set_bits plic.pending source s,
        clear_bits plic.level source s,
        clear_bits plic.pending source s,
        g.gate s,
        g.words,
        bit_at-lt plic.in_service_m source,
        bit_at-lt plic.level s,
      );
    }
  ]

  pub claim-IsGated : IsGated (claim plic).1
  unfolding claim
  claim-IsGated = elim (Bool-cases (select plic != 0)) [
    | inl won ↦ rw won record {
      words = ground (
        arith,
        bit_and-lt 32 plic.pending (bit_not (2 ^ select plic)),
        bit_or-lt 32 plic.in_service_m (2 ^ select plic),
        pow-lt-word (select plic),
        select-lt plic,
        g.words,
      );
      gate = λ s. ground (
        arith,
        clear_bits plic.pending (select plic) s,
        set_bits plic.in_service_m (select plic) s,
        select-lt plic,
        g.gate s,
        g.words,
      );
    }
    | inr none_won ↦ rw none_won g
  ]

  pub complete-IsGated : (id : ℕ) → IsGated (complete plic id)
  unfolding complete
  complete-IsGated id =
      elim (Bool-cases (leb 1 id && leb id source_max && bit_and plic.in_service_m (2 ^ id) != 0)) [
        | inl served ↦ rw served record {
          words = ground (
            arith,
            bit_and-lt 32 plic.in_service_m (bit_not (2 ^ id)),
            bit_or-lt 32 plic.pending (2 ^ id),
            pow-lt-word id,
            g.words,
          );
          gate = λ s. ground (
            arith,
            flag_test plic.in_service_m id,
            flag_test plic.level id,
            bit_at-lt plic.level id,
            bit_at-lt plic.level s,
            clear_bits plic.in_service_m id s,
            set_bits plic.pending id s,
            g.gate s,
            g.words,
          );
        }
        | inr ignored ↦ rw ignored g
      ]

  pub read-IsGated : (offset value : ℕ) → IsGated (read plic offset value).2
  unfolding read
  read-IsGated offset value = elim (Bool-cases (offset == claim_offset)) [
    | inl e ↦ rw ((==_iff offset claim_offset).0 e) claim-IsGated
    | inr e ↦ rw (read_keeps plic offset value e) g
  ]

  pub write-IsGated : (offset value : ℕ) → IsGated (write plic offset value).1
  write-IsGated offset value = elim (Bool-cases (offset == claim_offset)) [
    | inl e ↦
        let at = (==_iff offset claim_offset).0 e in rw at (unfold write in complete-IsGated value)
    | inr e ↦ SameGate-IsGated _ plic (write-SameGate plic offset value e) g
  ]
