-- ===== src/Image/Plan.antt =====
-- What the validation of src/image.c establishes about the segments.
use native.Mathlib.Decide.{ℕ_discrete}
use yan_os.Base.{ℕ, zero, suc, ◌+◌, ◌-◌, ◌*◌, ◌^◌, bit_or, ◌≤◌, ◌<◌, ◌≡◌}
use yan_os.Base.{List, some, false, >>=-some, arith, All, Bool-cases, inl, inr}
use yan_os.Base.Bits.Flag.{bit_or-lt}
use yan_os.Status.{Status, ok, is_ok, is_ok→ok}
use yan_os.Image.{Program, byte, range_fits, read_u32, read_program, plan_segment}
use yan_os.Image.{plan_segments, elf32_program_size, elf32_program_load}
use yan_os.Ram.Bytes.{IsByte, get_or-IsByte}

pub read_u32-lt :
    (image : List ℕ) (size offset v : ℕ)
    → All IsByte image
    → read_u32 image size offset ≡ some v
    → v < 2 ^ 32
unfolding read_u32
read_u32-lt image size offset v bs h =
    let at : (i : ℕ) → byte image i < 256 = λ i. get_or-IsByte image i bs in
    let low =
      bit_or-lt 32 (byte image offset) (byte image (offset + 1) * 2 ^ 8) (omega (arith, at offset))
        (omega (arith, at (offset + 1))) in
    let middle =
      bit_or-lt 32 (bit_or (byte image offset) (byte image (offset + 1) * 2 ^ 8))
        (byte image (offset + 2) * 2 ^ 16) low (omega (arith, at (offset + 2))) in
    let all =
      bit_or-lt 32
        (bit_or (bit_or (byte image offset) (byte image (offset + 1) * 2 ^ 8))
          (byte image (offset + 2) * 2 ^ 16))
        (byte image (offset + 3) * 2 ^ 24) middle (omega (arith, at (offset + 3))) in
    ground (arith, all)

pub read_program-paddr :
    (image : List ℕ) (size phoff index : ℕ) (p : Program)
    → All IsByte image
    → read_program image size phoff index ≡ some p
    → p.paddr < 2 ^ 32
unfolding read_program
read_program-paddr image size phoff index p bs h =
    let first = >>=-some (read_u32 image size (phoff + index * elf32_program_size + 0)) _ p h in
    let second =
      >>=-some (read_u32 image size (phoff + index * elf32_program_size + 4)) _ p first.2 in
    let third =
      >>=-some (read_u32 image size (phoff + index * elf32_program_size + 12)) _ p second.2 in
    let small =
      read_u32-lt image size (phoff + index * elf32_program_size + 12) third.0 bs third.1 in
    let fourth =
      >>=-some (read_u32 image size (phoff + index * elf32_program_size + 16)) _ p third.2 in
    let fifth =
      >>=-some (read_u32 image size (phoff + index * elf32_program_size + 20)) _ p fourth.2 in
    ground (arith, small, fifth.2)

-- What an entry that the validation accepts has, if it is to be loaded.
pub record IsPlanned (ram_size base size : ℕ) (p : Program) : Type 0 where
  pub in_file : p.offset + p.filesz ≤ size
  pub shorter : p.filesz ≤ p.memsz
  pub above : base ≤ p.paddr
  pub in_ram : p.paddr - base + p.memsz ≤ ram_size

pub plan_segment-IsPlanned :
    (ram_size base size : ℕ) (p : Program)
    → plan_segment ram_size base size (some p) ≡ ok
    → p.kind ≡ elf32_program_load
    → IsPlanned ram_size base size p
unfolding plan_segment range_fits
plan_segment-IsPlanned ram_size base size p h k = record {
  in_file = ground arith;
  shorter = ground arith;
  above = ground arith;
  in_ram = ground arith;
}

pub refused : (s : Status) → is_ok s ≡ false → s ≡ ok → ⊥
refused s e h = ground arith

-- Every entry passed the validation.
pub plan_segments-ok :
    (ram_size base : ℕ) (image : List ℕ) (size phoff index left k : ℕ)
    → plan_segments ram_size base image size phoff index left ≡ ok
    → index ≤ k
    → k < index + left
    → plan_segment ram_size base size (read_program image size phoff k) ≡ ok
unfolding plan_segments
plan_segments-ok ram_size base image size phoff index zero k h p q = absurd (omega arith)
plan_segments-ok ram_size base image size phoff index (suc left) k h p q =
    let status = plan_segment ram_size base size (read_program image size phoff index) in
    elim (Bool-cases (is_ok status)) [
      | inl e ↦ elim (ℕ_discrete index k) [
        | yes same ↦ rw same at (is_ok→ok status e)
        | no n ↦
            plan_segments-ok ram_size base image size phoff (index + 1) left k (rw e at h)
              (omega arith) (omega arith)
      ]
      | inr e ↦ absurd (refused status e (rw e at h))
    ]
