-- ===== src/Clint/Laws.antt =====
-- The registers and the lines of the CLINT of src/interrupt.c.
use yan_os.Base.{
  ℕ, ◌⊎◌, inl, inr, ◌+◌, ◌*◌, ◌/◌, ◌%◌, ◌^◌, ◌<◌, ◌≡◌, ◌-◌, ap, bit_and, bit_or, arith, some,
  if◌then◌else◌, leb,
}
use yan_os.Base.{◌==◌}
use yan_os.Base.Bits.Mask.{bit_and-low, bit_and-high, bit_or-disjoint, bit_or-disjoint'}
use yan_os.Status.{Status, ok}
use yan_os.Platform.{interrupt_msip, interrupt_mtip}
use yan_os.Clint.{
  Clint, set_low, set_high, msip_offset, mtimecmp_offset, mtime_offset, read, write, tick, reset,
  pending,
}

pub record IsValid (clint : Clint) : Type 0 where
  pub msip_small : clint.msip < 2
  pub mtime_small : clint.mtime < 2 ^ 64
  pub mtimecmp_small : clint.mtimecmp < 2 ^ 64

pub set_low-sum :
    (reg value : ℕ)
    → reg < 2 ^ 64
    → value < 2 ^ 32
    → set_low reg value ≡ reg / 2 ^ 32 * 2 ^ 32 + value
unfolding set_low
set_low-sum reg value h k = omega (
  arith,
  ap (λ t. bit_or t value) (bit_and-high 32 (2 ^ 32 - 1) reg),
  bit_or-disjoint 32 (bit_and (reg / 2 ^ 32) (2 ^ 32 - 1)) value k,
  bit_and-low 32 (reg / 2 ^ 32),
)

pub set_high-sum :
    (reg value : ℕ)
    → reg < 2 ^ 64
    → value < 2 ^ 32
    → set_high reg value ≡ value * 2 ^ 32 + reg % 2 ^ 32
unfolding set_high
set_high-sum reg value h k =
    let fits : value * 2 ^ 32 % 2 ^ 64 ≡ value * 2 ^ 32 = omega arith in
    rw (bit_and-low 32 reg, fits) (bit_or-disjoint' 32 value (reg % 2 ^ 32) (omega arith))

pub bit_and-one : (a : ℕ) → bit_and a 1 ≡ a % 2
bit_and-one a = bit_and-low 1 a

pub reset-IsValid : (clint : Clint) → IsValid (reset clint)
unfolding reset
reset-IsValid clint = omega arith

pub tick-IsValid : (clint : Clint) (n : ℕ) → IsValid clint → IsValid (tick clint n)
unfolding tick
tick-IsValid clint n v = omega arith

module _ (clint : Clint) (offset value : ℕ) (v : IsValid clint) (small : value < 2 ^ 32) where
  pub write-IsValid : IsValid (write clint offset value).1
  unfolding write
  write-IsValid = ground (
    arith,
    bit_and-one value,
    set_low-sum clint.mtime value,
    set_high-sum clint.mtime value,
    set_low-sum clint.mtimecmp value,
    set_high-sum clint.mtimecmp value,
  )

  written :
      (write clint offset value).0 ≡ ok
      → (offset ≡ msip_offset)
        ⊎ ((offset ≡ mtimecmp_offset)
            ⊎ ((offset ≡ mtimecmp_offset + 4)
                ⊎ ((offset ≡ mtime_offset) ⊎ (offset ≡ mtime_offset + 4))))
  unfolding write
  written h = ground arith

-- What `at` reads after `value` is written at `offset`.
abbrev pub read_after : Clint → ℕ → ℕ → ℕ → ℕ → Status × ℕ
read_after clint offset value at out =
    if at == offset
    then (ok, if offset == msip_offset then value % 2 else value)
    else read clint at out

module _ (clint : Clint) (value : ℕ) (v : IsValid clint) (small : value < 2 ^ 32) (at out : ℕ) where
  after_msip :
      read (write clint msip_offset value).1 at out ≡ read_after clint msip_offset value at out
  unfolding read write
  after_msip = ground (arith, bit_and-one value, bit_and-one (value % 2))

  after_mtimecmp :
      read (write clint mtimecmp_offset value).1 at out
      ≡ read_after clint mtimecmp_offset value at out
  unfolding read write
  after_mtimecmp = ground (arith, set_low-sum clint.mtimecmp value v.mtimecmp_small small)

  after_mtimecmp_high :
      read (write clint (mtimecmp_offset + 4) value).1 at out
      ≡ read_after clint (mtimecmp_offset + 4) value at out
  unfolding read write
  after_mtimecmp_high = ground (arith, set_high-sum clint.mtimecmp value v.mtimecmp_small small)

  after_mtime :
      read (write clint mtime_offset value).1 at out ≡ read_after clint mtime_offset value at out
  unfolding read write
  after_mtime = ground (arith, set_low-sum clint.mtime value v.mtime_small small)

  after_mtime_high :
      read (write clint (mtime_offset + 4) value).1 at out
      ≡ read_after clint (mtime_offset + 4) value at out
  unfolding read write
  after_mtime_high = ground (arith, set_high-sum clint.mtime value v.mtime_small small)

-- After an accepted write of a 32-bit value to a CLINT in range, the register at that offset
-- reads the value (MSIP its low bit), and every other register as before.
pub read-write_timer :
    (clint : Clint) (offset value at out : ℕ)
    → IsValid clint
    → value < 2 ^ 32
    → (write clint offset value).0 ≡ ok
    → read (write clint offset value).1 at out ≡ (
        if at == offset
        then (ok, if offset == msip_offset then value % 2 else value)
        else read clint at out)
read-write_timer clint offset value at out v small h = elim (written clint offset value v small h) [
  | inl e ↦ rw e (after_msip clint value v small at out)
  | inr (inl e) ↦ rw e (after_mtimecmp clint value v small at out)
  | inr (inr (inl e)) ↦ rw e (after_mtimecmp_high clint value v small at out)
  | inr (inr (inr (inl e))) ↦ rw e (after_mtime clint value v small at out)
  | inr (inr (inr (inr e))) ↦ rw e (after_mtime_high clint value v small at out)
]

-- The CLINT's lines are levels: MTIP while the time has reached the comparator, MSIP while the
-- software bit is set.
pub pending-lines :
    (clint : Clint)
    → pending (some clint)
      ≡ (if leb clint.mtimecmp clint.mtime then interrupt_mtip else 0)
        + (if clint.msip % 2 == 1 then interrupt_msip else 0)
unfolding pending
pending-lines clint = ground (arith, bit_and-one clint.msip)
