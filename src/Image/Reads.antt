-- ===== src/Image/Reads.antt =====
-- Which bytes of the image src/image.c reads.
use native.Mathlib.Decide.{ℕ_discrete}
use yan_os.Base.{ℕ, zero, suc, ◌+◌, ◌≤◌, ◌<◌, ◌≡◌, inl, inr, refl}
use mathlib.Core.Path.{fun_ext}
use yan_os.Base.{List, [], ◌∷◌, Option, some, none, arith, length, Bool-cases}
use yan_os.Base.{ltb, set, !=_of_ne}
use yan_os.Status.{ok, is_ok, is_ok→ok}
use yan_os.Ram.{Ram}
use yan_os.Image.{Header, Program, byte, range_fits, read_u16, read_u32, same_bytes, read_program}
use yan_os.Image.{header_is_supported, plan_segment, plan_segments, memcpy, copy_segment}
use yan_os.Image.{copy_segments, load_supported, load_elf, elf32_header_size, elf32_program_load}
use yan_os.Image.Plan.{plan_segment-IsPlanned, plan_segments-ok}

module _ (a b : List ℕ) (size : ℕ) (agree : (i : ℕ) → i < size → byte a i ≡ byte b i) where
  pub read_u16_agree : (offset : ℕ) → read_u16 a size offset ≡ read_u16 b size offset
  unfolding read_u16 range_fits
  read_u16_agree offset = elim (Bool-cases (range_fits size offset 2)) [
    | inl e ↦ rw (e, agree offset (ground arith), agree (offset + 1) (ground arith)) refl
    | inr e ↦ rw e refl
  ]

  pub read_u32_agree : (offset : ℕ) → read_u32 a size offset ≡ read_u32 b size offset
  unfolding read_u32 range_fits
  read_u32_agree offset = elim (Bool-cases (range_fits size offset 4)) [
    | inl e ↦
        rw
          (
            e,
            agree offset (ground arith),
            agree (offset + 1) (ground arith),
            agree (offset + 2) (ground arith),
            agree (offset + 3) (ground arith),
          )
          refl
    | inr e ↦ rw e refl
  ]

  pub same_bytes_agree :
      (at : ℕ) (expected : List ℕ)
      → at + length expected ≤ size
      → same_bytes a at expected ≡ same_bytes b at expected
  unfolding same_bytes
  same_bytes_agree at [] h = refl
  same_bytes_agree at (x ∷ xs) h =
      rw (agree at (omega arith), same_bytes_agree (at + 1) xs (omega arith)) refl

  pub header_agree : header_is_supported a size ≡ header_is_supported b size
  unfolding header_is_supported
  header_agree = elim (Bool-cases (ltb size elf32_header_size)) [
    | inl e ↦ rw e refl
    | inr e ↦
        rw
          (
            same_bytes_agree 0 (0x7f ∷ 69 ∷ 76 ∷ 70 ∷ []) (ground arith),
            agree 4 (ground arith),
            agree 5 (ground arith),
            read_u32_agree 20,
            read_u16_agree 18,
            read_u32_agree 24,
            read_u32_agree 28,
            read_u16_agree 42,
            read_u16_agree 44,
          )
          refl
  ]

  pub read_program_agree :
      (phoff index : ℕ) → read_program a size phoff index ≡ read_program b size phoff index
  unfolding read_program
  read_program_agree phoff index = simp read_u32_agree

  plan_segments_agree :
      (ram_size base phoff index left : ℕ)
      → plan_segments ram_size base a size phoff index left
        ≡ plan_segments ram_size base b size phoff index left
  unfolding plan_segments
  plan_segments_agree ram_size base phoff index zero = refl
  plan_segments_agree ram_size base phoff index (suc left) =
      rw (read_program_agree phoff index, plan_segments_agree ram_size base phoff (index + 1) left)
        refl

  memcpy_agree :
      (store : List ℕ) (start offset n : ℕ)
      → offset + n ≤ size
      → memcpy store start a offset n ≡ memcpy store start b offset n
  unfolding memcpy
  memcpy_agree store start offset zero h = refl
  memcpy_agree store start offset (suc n) h =
      rw (agree offset (omega arith))
        (memcpy_agree (set store start (byte b offset)) (start + 1) (offset + 1) n (omega arith))

  copy_segment_agree :
      (ram_size base : ℕ) (p : Option Program) (store : List ℕ)
      → plan_segment ram_size base size p ≡ ok
      → copy_segment base a p store ≡ copy_segment base b p store
  unfolding copy_segment
  copy_segment_agree ram_size base none store h = refl
  copy_segment_agree ram_size base (some p) store h = elim (ℕ_discrete p.kind elf32_program_load) [
    | yes k ↦
        let plan = plan_segment-IsPlanned ram_size base size p h k in
        rw (memcpy_agree store _ p.offset p.filesz plan.in_file) refl
    | no n ↦ rw (!=_of_ne n) refl
  ]

  copy_segments_agree :
      (ram_size base phoff index left : ℕ) (store : List ℕ)
      → ((k : ℕ)
          → index ≤ k
          → k < index + left
          → plan_segment ram_size base size (read_program b size phoff k) ≡ ok)
      → copy_segments base a size phoff index left store
        ≡ copy_segments base b size phoff index left store
  unfolding copy_segments
  copy_segments_agree ram_size base phoff index zero store h = refl
  copy_segments_agree ram_size base phoff index (suc left) store h =
      rw
        (
          read_program_agree phoff index,
          copy_segment_agree ram_size base (read_program b size phoff index) store
              (h index (omega arith) (omega arith)),
        )
        (copy_segments_agree ram_size base phoff (index + 1) left _
          (λ k p q. h k (omega arith) (omega arith)))

  load_supported_agree :
      (ram : Ram) (base info : ℕ) (h : Option Header)
      → load_supported ram base a size info h ≡ load_supported ram base b size info h
  unfolding load_supported
  load_supported_agree ram base info none = refl
  load_supported_agree ram base info (some h) =
      rw (plan_segments_agree ram.size base h.phoff 0 h.phnum)
        (elim (Bool-cases (is_ok (plan_segments ram.size base b size h.phoff 0 h.phnum))) [
          | inl e ↦
              let same = fun_ext (λ store.
                copy_segments_agree ram.size base h.phoff 0 h.phnum store (λ k p q.
                  plan_segments-ok ram.size base b size h.phoff 0 h.phnum k (is_ok→ok _ e) p q)) in
              rw (e, same) refl
          | inr e ↦ rw e refl
        ])

  -- The loader reads no byte of the image at or past the size it is given: images that agree
  -- below the size have the same status, RAM and entry address.
  pub load_elf_agree :
      (ram : Ram) (base info : ℕ) → load_elf ram base a size info ≡ load_elf ram base b size info
  unfolding load_elf
  load_elf_agree ram base info =
      rw (header_agree, load_supported_agree ram base info (header_is_supported b size)) refl
