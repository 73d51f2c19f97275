-- ===== src/Image/Load.antt =====
-- What RAM holds after `yan_image_load_elf` of src/image.c.
use mathlib.Core.Option
use mathlib.Core.Option.{Option}
use yan_os.Base.{ℕ, zero, suc, ◌+◌, ◌<◌, ◌≡◌, ◌≢◌, inl, inr, refl, ◌∙◌}
use yan_os.Base.{List, some, none, false, arith, length, All, Bool-cases, ◌==◌, ◌||◌, is_null}
use yan_os.Status.{ok, is_ok, is_ok→ok, is_ok?}
use yan_os.Ram.{Ram, bytes}
use yan_os.Ram.Bytes.{IsByte}
use yan_os.Ram.Laws.{IsValid, Owns}
use yan_os.Image.{Header, Program, byte, copy_segments, read_program, load_elf, load_supported}
use yan_os.Image.{plan_segments, header_is_supported}
use yan_os.Image.Plan.{plan_segments-ok, refused}
use yan_os.Image.Segment.{IsCovering, IsElsewhere, ArePlanned, segment_byte, copy_segments_last}
use yan_os.Image.Segment.{copy_segments_elsewhere, length-copy_segment, copy_segment-IsByte}

pub length-copy_segments :
    (base : ℕ) (image : List ℕ) (size phoff index left : ℕ) (store : List ℕ)
    → length (copy_segments base image size phoff index left store) ≡ length store
unfolding copy_segments
length-copy_segments base image size phoff index zero store = refl
length-copy_segments base image size phoff index (suc left) store =
    length-copy_segments base image size phoff (index + 1) left _
    ∙ length-copy_segment base image (read_program image size phoff index) store

pub copy_segments-IsByte :
    (base : ℕ) (image : List ℕ) (size phoff index left : ℕ) (store : List ℕ)
    → All IsByte image
    → All IsByte store
    → All IsByte (copy_segments base image size phoff index left store)
unfolding copy_segments
copy_segments-IsByte base image size phoff index zero store bs h = h
copy_segments-IsByte base image size phoff index (suc left) store bs h =
    copy_segments-IsByte base image size phoff (index + 1) left _ bs
      (copy_segment-IsByte base image (read_program image size phoff index) store bs h)

-- What an accepted image is, and what the call did with it.
pub record IsLoaded (ram : Ram) (base : ℕ) (image : List ℕ) (size info : ℕ) : Type 0 where
  pub header : Header
  pub supported : header_is_supported image size ≡ some header
  pub planned : plan_segments ram.size base image size header.phoff 0 header.phnum ≡ ok
  pub result : load_elf ram base image size info ≡ (
    ok,
    record ram {
      storage = Option.map (copy_segments base image size header.phoff 0 header.phnum) ram.storage;
    },
    header.entry,
  )

load_supported-IsLoaded :
    (ram : Ram) (base : ℕ) (image : List ℕ) (size info : ℕ) (read : Option Header)
    → header_is_supported image size ≡ read
    → load_elf ram base image size info ≡ load_supported ram base image size info read
    → (load_supported ram base image size info read).0 ≡ ok
    → IsLoaded ram base image size info
unfolding load_supported
load_supported-IsLoaded ram base image size info none e f h = absurd (cc h)
load_supported-IsLoaded ram base image size info (some header) e f h =
    let status = plan_segments ram.size base image size header.phoff 0 header.phnum in
    elim (Bool-cases (is_ok status)) [
      | inl t ↦ record {
        header = header;
        supported = e;
        planned = is_ok→ok status t;
        result = rw t at f;
      }
      | inr t ↦ absurd (refused status t (rw t at h))
    ]

load_elf-IsLoaded :
    (ram : Ram) (base : ℕ) (image : List ℕ) (size info : ℕ)
    → (load_elf ram base image size info).0 ≡ ok
    → IsLoaded ram base image size info
unfolding load_elf
load_elf-IsLoaded ram base image size info h =
    elim (Bool-cases (is_null ram.storage || ram.size == 0)) [
      | inl e ↦ absurd (cc (rw e at h))
      | inr e ↦
          load_supported-IsLoaded ram base image size info (header_is_supported image size) refl
            (rw e refl) (rw e at h)
    ]

load_supported_refused :
    (ram : Ram) (base : ℕ) (image : List ℕ) (size info : ℕ) (read : Option Header)
    → (load_supported ram base image size info read).0 ≢ ok
    → load_supported ram base image size info read
      ≡ ((load_supported ram base image size info read).0, ram, info)
unfolding load_supported
load_supported_refused ram base image size info none h = refl
load_supported_refused ram base image size info (some header) h =
    let status = plan_segments ram.size base image size header.phoff 0 header.phnum in
    elim (Bool-cases (is_ok status)) [ inl t ↦ absurd ((rw t at h) refl) | inr t ↦ rw t refl ]

-- Where `yan_image_load_elf` does not return OK, RAM and the entry address behind the pointer are
-- unchanged.
pub load_elf_refused :
    (ram : Ram) (base : ℕ) (image : List ℕ) (size info : ℕ)
    → (load_elf ram base image size info).0 ≢ ok
    → load_elf ram base image size info ≡ ((load_elf ram base image size info).0, ram, info)
unfolding load_elf
load_elf_refused ram base image size info h =
    elim (Bool-cases (is_null ram.storage || ram.size == 0)) [
      | inl e ↦ rw e refl
      | inr e ↦ rw e (
          load_supported_refused ram base image size info (header_is_supported image size)
            (rw e at h))
    ]

Owns-copy_segments :
    (storage : Option (List ℕ)) (len base : ℕ) (image : List ℕ) (size phoff left : ℕ)
    → All IsByte image
    → Owns storage len
    → Owns (Option.map (copy_segments base image size phoff 0 left) storage) len
Owns-copy_segments none len base image size phoff left bs v = v
Owns-copy_segments (some store) len base image size phoff left bs v = (
  length-copy_segments base image size phoff 0 left store ∙ v.0,
  v.1,
  copy_segments-IsByte base image size phoff 0 left store bs v.2,
)

pub load_elf-IsValid :
    (ram : Ram) (base : ℕ) (image : List ℕ) (size info : ℕ)
    → All IsByte image
    → IsValid ram
    → IsValid (load_elf ram base image size info).1
load_elf-IsValid ram base image size info bs v =
    elim (is_ok? (load_elf ram base image size info).0) [
      | inl e ↦
          let l = load_elf-IsLoaded ram base image size info e in
          rw l.result (
            Owns-copy_segments ram.storage ram.size base image size l.header.phoff l.header.phnum bs
              v)
      | inr n ↦ rw (load_elf_refused ram base image size info n) v
    ]

present :
    (storage : Option (List ℕ)) (size : ℕ)
    → (is_null storage || size == 0) ≡ false
    → (store : List ℕ) × (storage ≡ some store)
present none size h = absurd (cc h)
present (some store) size h = (store, refl)

Owns-some :
    (storage : Option (List ℕ)) (size : ℕ) (store : List ℕ)
    → storage ≡ some store
    → Owns storage size
    → length store ≡ size
Owns-some none size store e v = absurd (cc e)
Owns-some (some s) size store e v = ground (arith, e, v.0)

bytes_of : (ram : Ram) (store : List ℕ) → ram.storage ≡ some store → bytes ram ≡ store
bytes_of ram store h = rw h refl

load_elf-present :
    (ram : Ram) (base : ℕ) (image : List ℕ) (size info : ℕ)
    → (load_elf ram base image size info).0 ≡ ok
    → (store : List ℕ) × (ram.storage ≡ some store)
unfolding load_elf
load_elf-present ram base image size info h =
    elim (Bool-cases (is_null ram.storage || ram.size == 0)) [
      | inl e ↦ absurd (cc (rw e at h))
      | inr e ↦ present ram.storage ram.size e
    ]

module _ (ram : Ram) (base : ℕ) (image : List ℕ) (size info : ℕ) (h : Header) (j : ℕ)
    (whole : IsValid ram) (bs : All IsByte image)
    (accepted : (load_elf ram base image size info).0 ≡ ok)
    (supported : header_is_supported image size ≡ some h) where
  loaded :
      (P : ℕ → Type 0)
      → ((store : List ℕ)
          → bytes ram ≡ store
          → ArePlanned (length store) base image size h.phoff 0 h.phnum
          → P (byte (copy_segments base image size h.phoff 0 h.phnum store) j))
      → P (byte (bytes (load_elf ram base image size info).1) j)
  loaded P go =
      let l = load_elf-IsLoaded ram base image size info accepted in
      let s = load_elf-present ram base image size info accepted in
      let same : l.header ≡ h = cc (l.supported, supported) in
      let len : length s.0 ≡ ram.size = Owns-some ram.storage ram.size s.0 s.1 whole in
      let planned : plan_segments ram.size base image size h.phoff 0 h.phnum ≡ ok =
        rw same at l.planned in
      let result = rw same at l.result in
      rw (result, s.1)
        (go s.0 (bytes_of ram s.0 s.1) (
          rw len
            (λ k p q. plan_segments-ok ram.size base image size h.phoff 0 h.phnum k planned p q)))

  -- After an accepted `yan_image_load_elf` into a whole RAM, each byte of RAM that a loadable
  -- segment covers and no later one does is the byte that the file has there, or zero beyond the
  -- bytes that the file carries.
  pub loaded_byte :
      (k : ℕ) (p : Program)
      → k < h.phnum
      → read_program image size h.phoff k ≡ some p
      → IsCovering base p j
      → ((l : ℕ) → k < l → l < h.phnum → IsElsewhere base image size h.phoff j l)
      → byte (bytes (load_elf ram base image size info).1) j ≡ segment_byte base image p j
  loaded_byte k p below read covering last =
      loaded (λ b. b ≡ segment_byte base image p j)
        λ store e planned.
          copy_segments_last base image size h.phoff bs j k p read covering 0 h.phnum store planned
            (omega arith) (omega arith) (λ l q r. last l q (omega arith))

  -- After an accepted `yan_image_load_elf` into a whole RAM, each byte of RAM that no loadable
  -- segment covers is as before.
  pub loaded_elsewhere :
      ((k : ℕ) → k < h.phnum → IsElsewhere base image size h.phoff j k)
      → byte (bytes (load_elf ram base image size info).1) j ≡ byte (bytes ram) j
  loaded_elsewhere away =
      loaded (λ b. b ≡ byte (bytes ram) j)
        λ store e planned. rw e (
          copy_segments_elsewhere base image size h.phoff bs j 0 h.phnum store planned
            (λ k p q. away k (omega arith)))
