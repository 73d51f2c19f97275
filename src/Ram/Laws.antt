-- ===== src/Ram/Laws.antt =====
-- Accepted and refused accesses of src/ram.c, and the states that its calls keep.
use mathlib.Core.Option
use mathlib.Core.Option.{Option}
use yan_os.Base.{ℕ, ◌+◌, ◌≤◌, ◌<◌, ◌≡◌, ◌⊎◌, refl, ap, ◌∙◌}
use yan_os.Base.{List, [], some, none, arith, length, All}
use yan_os.Base.{is_null, ◌≢◌, inl, inr, Bool-cases}
use yan_os.Status.{ok, is_ok}
use yan_os.Ram.{Ram, bytes, check_access, read, write, write_loop}
use yan_os.Ram.Bytes.{IsByte, word, read_loop-eq-word, length-write_loop, write_loop-IsByte}

-- A buffer of `size` bytes.
abbrev pub Owns : Option (List ℕ) → ℕ → Type 0
Owns none size = size ≡ 0
Owns (some store) size = (length store ≡ size) × (0 < size) × All IsByte store

abbrev pub IsValid : Ram → Type 0
IsValid ram = Owns ram.storage ram.size

access_of_parts :
    (storage : Option (List ℕ)) (size offset width : ℕ)
    → Owns storage size
    → check_access (record { storage = storage; size = size }) offset width ≡ ok
    → (offset + width ≤ length (Option.get_or storage []))
      × All IsByte (Option.get_or storage [])
      × ((width ≡ 1) ⊎ ((width ≡ 2) ⊎ (width ≡ 4)))
      × (width ≤ 4)
unfolding check_access
access_of_parts none size offset width v h = absurd (cc h)
access_of_parts (some store) size offset width v h = ground arith

-- What an accepted access means: it lies in the buffer, and is of a byte, a half word or a word.
pub check_access-ok :
    (ram : Ram) (offset width : ℕ)
    → IsValid ram
    → check_access ram offset width ≡ ok
    → (offset + width ≤ length (bytes ram))
      × All IsByte (bytes ram)
      × ((width ≡ 1) ⊎ ((width ≡ 2) ⊎ (width ≡ 4)))
      × (width ≤ 4)
check_access-ok ram = access_of_parts ram.storage ram.size

-- An accepted read gives the little-endian number at the offset.
pub read-ok :
    (ram : Ram) (offset width value : ℕ)
    → IsValid ram
    → check_access ram offset width ≡ ok
    → read ram offset width value ≡ (ok, word (bytes ram) offset width)
unfolding read
read-ok ram offset width value v h =
    let a = check_access-ok ram offset width v h in
    let start : offset + 0 ≡ offset = omega arith in
    let loop = read_loop-eq-word (bytes ram) offset 0 width 0 a.1 (omega arith) (omega arith) in
    rw (h, loop, start) (ap (λ n. (ok, n)) (omega arith))

pub read_status :
    (ram : Ram) (offset width value : ℕ)
    → (read ram offset width value).0 ≡ check_access ram offset width
unfolding read
read_status ram offset width value = ground arith

-- A refused read keeps what the output held.
pub read_refused :
    (ram : Ram) (offset width value : ℕ)
    → check_access ram offset width ≢ ok
    → read ram offset width value ≡ (check_access ram offset width, value)
unfolding read
read_refused ram offset width value h = ground arith

pub write_status :
    (ram : Ram) (offset width value : ℕ)
    → (write ram offset width value).0 ≡ check_access ram offset width
unfolding write
write_status ram offset width value = ground arith

pub write_refused :
    (ram : Ram) (offset width value : ℕ)
    → check_access ram offset width ≢ ok
    → write ram offset width value ≡ (check_access ram offset width, ram)
unfolding write
write_refused ram offset width value h = ground arith

pub write-size :
    (ram : Ram) (offset width value : ℕ) → (write ram offset width value).1.size ≡ ram.size
unfolding write
write-size ram offset width value = ground arith

Owns-write_loop :
    (storage : Option (List ℕ)) (size offset width value : ℕ)
    → Owns storage size
    → Owns (Option.map (λ store. write_loop store offset value 0 width) storage) size
Owns-write_loop none size offset width value v = v
Owns-write_loop (some store) size offset width value (l, p, b) = (
  length-write_loop store offset value 0 width ∙ l,
  p,
  write_loop-IsByte store offset value 0 width b,
)

-- A write, accepted or not, keeps a whole RAM: a buffer of `size` bytes, or none and size zero.
pub write-IsValid :
    (ram : Ram) (offset width value : ℕ) → IsValid ram → IsValid (write ram offset width value).1
unfolding write
write-IsValid ram offset width value v = elim (Bool-cases (is_ok (check_access ram offset width))) [
  | inl e ↦ rw e (Owns-write_loop ram.storage ram.size offset width value v)
  | inr e ↦ rw e v
]

check_access_congr :
    (ram : Ram) (storage : Option (List ℕ)) (offset width : ℕ)
    → is_null storage ≡ is_null ram.storage
    → check_access (record ram { storage = storage }) offset width ≡ check_access ram offset width
unfolding check_access
check_access_congr ram storage offset width e = rw e

is_null-map :
    (storage : Option (List ℕ)) (f : List ℕ → List ℕ)
    → is_null (Option.map f storage) ≡ is_null storage
is_null-map none f = refl
is_null-map (some store) f = refl

pub check_access-write :
    (ram : Ram) (o w value offset width : ℕ)
    → check_access (write ram o w value).1 offset width ≡ check_access ram offset width
unfolding write
check_access-write ram o w value offset width = elim (Bool-cases (is_ok (check_access ram o w))) [
  | inl e ↦ rw e (check_access_congr ram _ offset width (is_null-map ram.storage _))
  | inr e ↦ rw e refl
]

pub write-is_null :
    (ram : Ram) (offset width value : ℕ)
    → is_null (write ram offset width value).1.storage ≡ is_null ram.storage
unfolding write
write-is_null ram offset width value = elim (Bool-cases (is_ok (check_access ram offset width))) [
  | inl e ↦ rw e (is_null-map ram.storage _)
  | inr e ↦ rw e refl
]
