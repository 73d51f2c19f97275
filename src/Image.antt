-- ===== src/Image.antt =====
-- The ELF loader of src/image.c and include/yan/image.h. `image` is the bytes behind `data`, `size` its length
-- as the caller gives it. A function that stores through pointers and returns success or failure
-- returns what it stores, or `none`: its callers do not read what a failure leaves behind.
pub mod Bytes
pub mod Plan
pub mod Segment
pub mod Load
pub mod Reads
pub mod Symbol
pub mod Lookup
pub mod Spans
use mathlib.Core.Option
use mathlib.Core.Option.{Option}
use yan_os.Base.{ℕ, zero, suc, ◌+◌, ◌-◌, ◌*◌, ◌%◌, ◌^◌, bit_or, List, [], ◌∷◌, none, some}
use yan_os.Base.{Bool, true, false, not, ◌&&◌, ◌||◌, ◌==◌, ◌!=◌, ltb, leb, if◌then◌else◌}
use yan_os.Base.{get_or, set, ◌>>=◌, guard, is_null}
use yan_os.Status.{Status, ok, invalid_state, invalid_image, out_of_bounds, is_ok}
use yan_os.Ram.{Ram, bytes}

abbrev pub elf32_header_size : ℕ
elf32_header_size = 52

abbrev pub elf32_program_size : ℕ
elf32_program_size = 32

abbrev pub elf32_program_load : ℕ
elf32_program_load = 1

abbrev pub elf32_machine_riscv : ℕ
elf32_machine_riscv = 243

-- `data[i]`
abbrev pub byte : List ℕ → ℕ → ℕ
byte image i = get_or image i 0

unfoldable pub range_fits : ℕ → ℕ → ℕ → Bool
range_fits size offset len = leb offset size && leb len (size - offset)

unfoldable pub read_u16 : List ℕ → ℕ → ℕ → Option ℕ
read_u16 image size offset =
    if range_fits size offset 2
    then some (bit_or (byte image offset) (byte image (offset + 1) * 2 ^ 8))
    else none

unfoldable pub read_u32 : List ℕ → ℕ → ℕ → Option ℕ
read_u32 image size offset =
    if range_fits size offset 4
    then some (
        bit_or
          (bit_or (bit_or (byte image offset) (byte image (offset + 1) * 2 ^ 8))
            (byte image (offset + 2) * 2 ^ 16))
          (byte image (offset + 3) * 2 ^ 24))
    else none

-- `memcmp(data + at, expected, length of expected) == 0`
unfoldable pub same_bytes : List ℕ → ℕ → List ℕ → Bool
same_bytes image at [] = true
same_bytes image at (x ∷ xs) = byte image at == x && same_bytes image (at + 1) xs

pub record Header : Type 0 where
  pub entry : ℕ
  pub phoff : ℕ
  pub phnum : ℕ

unfoldable pub header_is_supported : List ℕ → ℕ → Option Header
header_is_supported image size = do
  sized ←
      guard
        (not (ltb size elf32_header_size || not (same_bytes image 0 (0x7f ∷ 69 ∷ 76 ∷ 70 ∷ []))))
  class ← guard (not (byte image 4 != 1 || byte image 5 != 1))
  version ← read_u32 image size 20
  current ← guard (version == 1)
  machine ← read_u16 image size 18
  riscv ← guard (machine == elf32_machine_riscv)
  entry ← read_u32 image size 24
  phoff ← read_u32 image size 28
  phentsize ← read_u16 image size 42
  entries ← guard (phentsize == elf32_program_size)
  phnum ← read_u16 image size 44
  fits ← guard (range_fits size phoff (phnum * elf32_program_size))
  some (record { entry = entry; phoff = phoff; phnum = phnum })

pub record Program : Type 0 where
  pub kind : ℕ
  pub offset : ℕ
  pub paddr : ℕ
  pub filesz : ℕ
  pub memsz : ℕ

unfoldable pub read_program : List ℕ → ℕ → ℕ → ℕ → Option Program
read_program image size phoff index =
    let at = phoff + index * elf32_program_size in
    do
      kind ← read_u32 image size (at + 0)
      offset ← read_u32 image size (at + 4)
      paddr ← read_u32 image size (at + 12)
      filesz ← read_u32 image size (at + 16)
      memsz ← read_u32 image size (at + 20)
      some (record { kind = kind; offset = offset; paddr = paddr; filesz = filesz; memsz = memsz })

-- What the loop of `plan_segments` returns for one entry; `ok` goes on.
unfoldable pub plan_segment : ℕ → ℕ → ℕ → Option Program → Status
plan_segment ram_size base size none = invalid_image
plan_segment ram_size base size (some p) =
    if p.kind != elf32_program_load
    then ok
    else if not (range_fits size p.offset p.filesz) || ltb p.memsz p.filesz
    then invalid_image
    else if ltb p.paddr base
    then out_of_bounds
    else if ltb ram_size (p.paddr - base + p.memsz)
    then out_of_bounds
    else ok

-- `plan_segments` from entry `index`, with `left` entries to go.
unfoldable pub plan_segments : ℕ → ℕ → List ℕ → ℕ → ℕ → ℕ → ℕ → Status
plan_segments ram_size base image size phoff index zero = ok
plan_segments ram_size base image size phoff index (suc left) =
    let status = plan_segment ram_size base size (read_program image size phoff index) in
    let rest = plan_segments ram_size base image size phoff (index + 1) left in
    if is_ok status then rest else status

-- `memcpy(store + start, data + offset, n)`
unfoldable pub memcpy : List ℕ → ℕ → List ℕ → ℕ → ℕ → List ℕ
memcpy store start image offset zero = store
memcpy store start image offset (suc n) =
    memcpy (set store start (byte image offset)) (start + 1) image (offset + 1) n

-- `memset(store + start, 0, n)`
unfoldable pub memset : List ℕ → ℕ → ℕ → List ℕ
memset store start zero = store
memset store start (suc n) = memset (set store start 0) (start + 1) n

-- The body of the loop of `copy_segments`.
unfoldable pub copy_segment : ℕ → List ℕ → Option Program → List ℕ → List ℕ
copy_segment base image none store = store
copy_segment base image (some p) store =
    let start = (p.paddr + 2 ^ 32 - base) % 2 ^ 32 in
    let copied = memcpy store start image p.offset p.filesz in
    if p.kind != elf32_program_load
    then store
    else if ltb p.filesz p.memsz
    then memset copied (start + p.filesz) (p.memsz - p.filesz)
    else copied

-- `copy_segments` from entry `index`, with `left` entries to go.
unfoldable pub copy_segments : ℕ → List ℕ → ℕ → ℕ → ℕ → ℕ → List ℕ → List ℕ
copy_segments base image size phoff index zero store = store
copy_segments base image size phoff index (suc left) store =
    copy_segments base image size phoff (index + 1) left
      (copy_segment base image (read_program image size phoff index) store)

-- `info` is the entry address behind the pointer, which a failure keeps.
unfoldable pub load_supported : Ram → ℕ → List ℕ → ℕ → ℕ → Option Header → Status × Ram × ℕ
load_supported ram base image size info none = (invalid_image, ram, info)
load_supported ram base image size info (some h) =
    let status = plan_segments ram.size base image size h.phoff 0 h.phnum in
    if is_ok status
    then (
      ok,
      record ram {
        storage = Option.map (copy_segments base image size h.phoff 0 h.phnum) ram.storage;
      },
      h.entry,
    )
    else (status, ram, info)

unfoldable pub load_elf : Ram → ℕ → List ℕ → ℕ → ℕ → Status × Ram × ℕ
load_elf ram base image size info =
    if is_null ram.storage || ram.size == 0
    then (invalid_state, ram, info)
    else load_supported ram base image size info (header_is_supported image size)
