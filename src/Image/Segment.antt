-- ===== src/Image/Segment.antt =====
-- What one entry of the program table of src/image.c leaves in RAM.
use mathlib.Core.Option.{Option}
use native.Mathlib.Decide.{ℕ_discrete, dec_lt}
use yan_os.Base.{ℕ, zero, suc, ◌+◌, ◌-◌, ◌%◌, ◌^◌, ◌≤◌, ◌<◌, ◌≡◌, ◌≢◌, inl, inr, refl, ap, ◌∙◌}
use yan_os.Base.{List, some, none, arith, length, All, ltb}
use yan_os.Base.{if◌then◌else◌, ltb_of_lt, ltb_of_le, !=_of_eq, if-intro, ◌!=◌, ◌⊎◌}
use yan_os.Status.{ok}
use yan_os.Ram.Bytes.{IsByte}
use yan_os.Image.{Program, byte, memcpy, memset, copy_segment, copy_segments, read_program}
use yan_os.Image.{plan_segment}
use yan_os.Image.{elf32_program_load}
use yan_os.Image.Bytes
use yan_os.Image.Plan.{IsPlanned, plan_segment-IsPlanned, read_program-paddr}

-- What the file says a segment has at offset `j` of RAM: its bytes, then zeroes.
abbrev pub segment_byte : ℕ → List ℕ → Program → ℕ → ℕ
segment_byte base image p j =
    if ltb j (p.paddr - base + p.filesz) then byte image (p.offset + (j - (p.paddr - base))) else 0

-- The entry is to be loaded and takes offset `j` of RAM.
pub record IsCovering (base : ℕ) (p : Program) (j : ℕ) : Type 0 where
  pub loads : p.kind ≡ elf32_program_load
  pub from : p.paddr - base ≤ j
  pub below : j < p.paddr - base + p.memsz

-- What holds of the store, of a copy into it and of a zeroed copy, holds after an entry.
copy_segment-intro {ℓ} :
    (P : List ℕ → Type ℓ) (base : ℕ) (image : List ℕ) (p : Option Program) (store : List ℕ)
    → P store
    → ((start offset n : ℕ) → P (memcpy store start image offset n))
    → ((s : List ℕ) (start n : ℕ) → P s → P (memset s start n))
    → P (copy_segment base image p store)
unfolding copy_segment
copy_segment-intro P base image none store h c z = h
copy_segment-intro P base image (some p) store h c z =
    if-intro P (p.kind != elf32_program_load) _ _ h (
      if-intro P (ltb p.filesz p.memsz) _ _ (z _ _ _ (c _ p.offset p.filesz))
        (c _ p.offset p.filesz))

pub length-copy_segment :
    (base : ℕ) (image : List ℕ) (p : Option Program) (store : List ℕ)
    → length (copy_segment base image p store) ≡ length store
length-copy_segment base image p store =
    copy_segment-intro (λ s. length s ≡ length store) base image p store refl
      (λ start offset n. Bytes.length-memcpy store start image offset n)
      (λ s start n h. Bytes.length-memset s start n ∙ h)

pub copy_segment-IsByte :
    (base : ℕ) (image : List ℕ) (p : Option Program) (store : List ℕ)
    → All IsByte image
    → All IsByte store
    → All IsByte (copy_segment base image p store)
copy_segment-IsByte base image p store bs h =
    copy_segment-intro (All IsByte) base image p store h
      (λ start offset n. Bytes.memcpy-IsByte store start image offset n bs h)
      (λ s start n k. Bytes.memset-IsByte s start n k)

module _ (base : ℕ) (image : List ℕ) (p : Program) (store : List ℕ) (size j : ℕ)
    (small : p.paddr < 2 ^ 32) where
  start_offset : base ≤ p.paddr → (p.paddr + 2 ^ 32 - base) % 2 ^ 32 ≡ p.paddr - base
  start_offset above = omega arith

  copy_segment_skipped :
      p.kind ≢ elf32_program_load → copy_segment base image (some p) store ≡ store
  unfolding copy_segment
  copy_segment_skipped h = ground (arith, h)

  module _ (planned : IsPlanned (length store) base size p)
      (loads : p.kind ≡ elf32_program_load) where
    copy_segment_planned : copy_segment base image (some p) store ≡ (
        if ltb p.filesz p.memsz
        then memset
            (memcpy store (p.paddr - base) image p.offset p.filesz)
            (p.paddr - base + p.filesz)
            (p.memsz - p.filesz)
        else memcpy store (p.paddr - base) image p.offset p.filesz)
    unfolding copy_segment
    copy_segment_planned = rw (start_offset planned.above, !=_of_eq loads) refl

    copied_outside :
        (j < p.paddr - base) ⊎ (p.paddr - base + p.memsz ≤ j)
        → byte (copy_segment base image (some p) store) j ≡ byte store j
    copied_outside h =
        let copied =
          Bytes.memcpy_outside store (p.paddr - base) image p.offset p.filesz j
            (omega (arith, h, planned.shorter)) in
        rw copy_segment_planned (
          if-intro (λ (s : List ℕ). byte s j ≡ byte store j) (ltb p.filesz p.memsz) _ _
            (Bytes.memset_outside (memcpy store (p.paddr - base) image p.offset p.filesz)
                (p.paddr - base + p.filesz) (p.memsz - p.filesz) j
                (omega (arith, h, planned.shorter))
              ∙ copied)
            copied)

    copied_inside :
        IsCovering base p j
        → byte (copy_segment base image (some p) store) j ≡ segment_byte base image p j
    copied_inside c =
        let start = p.paddr - base in
        let copied = memcpy store start image p.offset p.filesz in
        rw copy_segment_planned (elim (dec_lt j (start + p.filesz)) [
          | yes q ↦
              let at : start + (j - start) ≡ j = omega (arith, c.from) in
              let inside = rw at at (
                Bytes.memcpy_inside store start image p.offset p.filesz (j - start)
                  (omega (arith, c.from)) (omega (arith, planned.shorter, planned.in_ram))) in
              rw (ltb_of_lt {a = j} {b = p.paddr - base + p.filesz} q) (
                if-intro (λ (s : List ℕ). byte s j ≡ byte image (p.offset + (j - (p.paddr - base))))
                  (ltb p.filesz p.memsz) _ _
                  (Bytes.memset_outside copied (start + p.filesz) (p.memsz - p.filesz) j (inl q)
                    ∙ inside)
                  inside)
          | no q ↦
              let at : start + p.filesz + (j - (start + p.filesz)) ≡ j = omega arith in
              let zeroed = rw at at (
                Bytes.memset_inside copied (start + p.filesz) (p.memsz - p.filesz)
                  (j - (start + p.filesz)) (omega (arith, c.below))
                  (omega (
                    arith,
                    planned.shorter,
                    planned.in_ram,
                    Bytes.length-memcpy store start image p.offset p.filesz,
                  ))) in
              rw
                (
                  ltb_of_le {a = j} {b = p.paddr - base + p.filesz} (omega arith),
                  ltb_of_lt {a = p.filesz} {b = p.memsz} (omega (arith, c.below)),
                )
                zeroed
        ])

-- The validation accepted entries `index` to `index + left` for a store of this length.
abbrev pub ArePlanned : ℕ → ℕ → List ℕ → ℕ → ℕ → ℕ → ℕ → Type 0
ArePlanned len base image size phoff index left =
    (k : ℕ)
    → index ≤ k
    → k < index + left
    → plan_segment len base size (read_program image size phoff k) ≡ ok

-- Entry `k` covers no offset `j` of RAM.
abbrev pub IsElsewhere : ℕ → List ℕ → ℕ → ℕ → ℕ → ℕ → Type 0
IsElsewhere base image size phoff j k =
    (p : Program) → read_program image size phoff k ≡ some p → ¬ IsCovering base p j

read_elsewhere :
    (base : ℕ) (image : List ℕ) (size : ℕ) (store : List ℕ) (j : ℕ) (read : Option Program)
    → ((p : Program) → read ≡ some p → p.paddr < 2 ^ 32)
    → plan_segment (length store) base size read ≡ ok
    → ((p : Program) → read ≡ some p → ¬ IsCovering base p j)
    → byte (copy_segment base image read store) j ≡ byte store j
unfolding copy_segment
read_elsewhere base image size store j none small planned away = refl
read_elsewhere base image size store j (some p) small planned away =
    elim (ℕ_discrete p.kind elf32_program_load) [
      | no n ↦ ap (λ s. byte s j) (copy_segment_skipped base image p store size j (small p refl) n)
      | yes l ↦
          let plan = plan_segment-IsPlanned (length store) base size p planned l in
          elim (dec_lt j (p.paddr - base)) [
            | yes q ↦ copied_outside base image p store size j (small p refl) plan l (inl q)
            | no q ↦ elim (dec_lt j (p.paddr - base + p.memsz)) [
              | yes r ↦ absurd (away p refl record { loads = l; from = omega arith; below = r })
              | no r ↦
                  copied_outside base image p store size j (small p refl) plan l (inr (omega arith))
            ]
          ]
    ]

module _ (base : ℕ) (image : List ℕ) (size phoff : ℕ) (bs : All IsByte image) where
  copy_segment_elsewhere :
      (store : List ℕ) (j k : ℕ)
      → plan_segment (length store) base size (read_program image size phoff k) ≡ ok
      → IsElsewhere base image size phoff j k
      → byte (copy_segment base image (read_program image size phoff k) store) j ≡ byte store j
  copy_segment_elsewhere store j k planned away =
      read_elsewhere base image size store j (read_program image size phoff k)
        (λ p e. read_program-paddr image size phoff k p bs e) planned away

  pub copy_segments_elsewhere :
      (j index left : ℕ) (store : List ℕ)
      → ArePlanned (length store) base image size phoff index left
      → ((k : ℕ) → index ≤ k → k < index + left → IsElsewhere base image size phoff j k)
      → byte (copy_segments base image size phoff index left store) j ≡ byte store j
  unfolding copy_segments
  copy_segments_elsewhere j index zero store planned away = refl
  copy_segments_elsewhere j index (suc left) store planned away =
      let next = copy_segment base image (read_program image size phoff index) store in
      let same = length-copy_segment base image (read_program image size phoff index) store in
      copy_segments_elsewhere j (index + 1) left next
        (λ k p q. rw same (planned k (omega arith) (omega arith)))
        (λ k p q. away k (omega arith) (omega arith))
      ∙ copy_segment_elsewhere store j index (planned index (omega arith) (omega arith))
          (away index (omega arith) (omega arith))

  pub copy_segments_last :
      (j k : ℕ) (p : Program)
      → read_program image size phoff k ≡ some p
      → IsCovering base p j
      → (index left : ℕ) (store : List ℕ)
      → ArePlanned (length store) base image size phoff index left
      → index ≤ k
      → k < index + left
      → ((l : ℕ) → k < l → l < index + left → IsElsewhere base image size phoff j l)
      → byte (copy_segments base image size phoff index left store) j ≡ segment_byte base image p j
  unfolding copy_segments
  copy_segments_last j k p e c index zero store planned low high away = absurd (omega arith)
  copy_segments_last j k p e c index (suc left) store planned low high away =
      let next = copy_segment base image (read_program image size phoff index) store in
      let same = length-copy_segment base image (read_program image size phoff index) store in
      let later : ArePlanned (length next) base image size phoff (index + 1) left =
        λ l q r. rw same (planned l (omega arith) (omega arith)) in
      elim (ℕ_discrete index k) [
        | yes here ↦
            let read : read_program image size phoff index ≡ some p =
              ap (λ i. read_program image size phoff i) here ∙ e in
            let plan =
              plan_segment-IsPlanned (length store) base size p
                (rw read at (planned index (omega arith) (omega arith))) c.loads in
            copy_segments_elsewhere j (index + 1) left next later
              (λ l q r. away l (omega arith) (omega arith))
            ∙ ap (λ q. byte (copy_segment base image q store) j) read
            ∙ copied_inside base image p store size j (read_program-paddr image size phoff k p bs e)
                plan c.loads c
        | no n ↦
            copy_segments_last j k p e c (index + 1) left next later (omega arith) (omega arith)
              (λ l q r. away l q (omega arith))
      ]
