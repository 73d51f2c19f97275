-- ===== src/Ram/Bytes.antt =====
-- The two byte loops of src/ram.c against the little-endian reading of the bytes.
use native.Mathlib.Nat.{pow-suc}
use native.Mathlib.Decide.{ℕ_discrete}
use native.Mathlib.Numerals.{towards_suc}
use yan_os.Base.{ℕ, zero, suc, ◌+◌, ◌*◌, ◌/◌, ◌%◌, ◌^◌, ◌≤◌, ◌<◌, ◌≡◌, ◌⊎◌, refl, ◌∙◌}
use yan_os.Base.{List, arith, length, get_or, set, All, All-set, All-get_or, length-set}
use yan_os.Base.{get_or-set_self, get_or-set_ne}
use yan_os.Base.Bits.Mask.{bit_or-disjoint'}
use yan_os.Ram.{read_loop, write_loop}

abbrev pub IsByte : ℕ → Type 0
IsByte b = b < 256

-- The little-endian number in `n` bytes.
abbrev pub word : List ℕ → ℕ → ℕ → ℕ
word store offset zero = 0
word store offset (suc n) = get_or store offset 0 + 256 * word store (offset + 1) n

pub pow-byte : (i : ℕ) → 2 ^ (8 * (i + 1)) ≡ 256 * 2 ^ (8 * i)
pow-byte i =
    let e : 8 * (i + 1) ≡ 8 * i + 8 = omega arith in
    rw e (simp (towards_suc, pow-suc) (omega arith))

pub get_or-IsByte : (store : List ℕ) (i : ℕ) → All IsByte store → get_or store i 0 < 256
get_or-IsByte store i h = All-get_or IsByte store i 0 (omega arith) h

shifted_byte : (b i : ℕ) → b < 256 → i < 4 → b * 2 ^ (8 * i) % 2 ^ 32 ≡ b * 2 ^ (8 * i)
shifted_byte b zero hb hi = omega arith
shifted_byte b (suc zero) hb hi = omega arith
shifted_byte b (suc (suc zero)) hb hi = omega arith
shifted_byte b (suc (suc (suc zero))) hb hi = omega arith
shifted_byte b (suc (suc (suc (suc i)))) hb hi = absurd (omega arith)

-- The read loop adds the bytes left to what it has.
pub read_loop-eq-word :
    (store : List ℕ) (offset i left result : ℕ)
    → All IsByte store
    → result < 2 ^ (8 * i)
    → i + left ≤ 4
    → read_loop store offset i left result ≡ result + 2 ^ (8 * i) * word store (offset + i) left
unfolding read_loop
read_loop-eq-word store offset i zero result bs small fits = omega arith
read_loop-eq-word store offset i (suc left) result bs small fits =
    let b = get_or store (offset + i) 0 in
    let isb : b < 256 = get_or-IsByte store (offset + i) bs in
    rw (shifted_byte b i isb (omega arith), bit_or-disjoint' (8 * i) b result small)
      (read_loop-eq-word store offset (i + 1) left (b * 2 ^ (8 * i) + result) bs
          (rw (pow-byte i) (grind arith)) (omega arith)
        ∙ (let e : offset + (i + 1) ≡ offset + i + 1 = omega arith in
            rw (pow-byte i, e) (omega arith)))

pub length-write_loop :
    (store : List ℕ) (offset value i left : ℕ)
    → length (write_loop store offset value i left) ≡ length store
unfolding write_loop
length-write_loop store offset value i zero = refl
length-write_loop store offset value i (suc left) =
    length-write_loop (set store (offset + i) _) offset value (i + 1) left ∙ length-set store _ _

pub write_loop-IsByte :
    (store : List ℕ) (offset value i left : ℕ)
    → All IsByte store
    → All IsByte (write_loop store offset value i left)
unfolding write_loop
write_loop-IsByte store offset value i zero h = h
write_loop-IsByte store offset value i (suc left) h =
    write_loop-IsByte (set store (offset + i) _) offset value (i + 1) left
      (All-set IsByte store (offset + i) _ (omega arith) h)

-- A byte that the write loop does not reach.
pub write_loop_outside :
    (store : List ℕ) (offset value i left j : ℕ)
    → (j < offset + i) ⊎ (offset + i + left ≤ j)
    → get_or (write_loop store offset value i left) j 0 ≡ get_or store j 0
unfolding write_loop
write_loop_outside store offset value i zero j h = refl
write_loop_outside store offset value i (suc left) j h =
    write_loop_outside (set store (offset + i) _) offset value (i + 1) left j (omega arith)
    ∙ get_or-set_ne store (offset + i) j _ 0 (omega arith)

-- A byte that it writes.
pub write_loop_inside :
    (store : List ℕ) (offset value i left k : ℕ)
    → i ≤ k
    → k < i + left
    → offset + i + left ≤ length store
    → get_or (write_loop store offset value i left) (offset + k) 0 ≡ value / 2 ^ (8 * k) % 2 ^ 8
unfolding write_loop
write_loop_inside store offset value i zero k lo hi fits = absurd (omega arith)
write_loop_inside store offset value i (suc left) k lo hi fits = elim (ℕ_discrete i k) [
  | yes e ↦
      write_loop_outside (set store (offset + i) _) offset value (i + 1) left (offset + k)
        (omega arith)
      ∙ rw e (get_or-set_self store (offset + k) _ 0 (omega arith))
  | no ne ↦
      write_loop_inside (set store (offset + i) _) offset value (i + 1) left k (omega arith)
        (omega arith) (omega (arith, length-set store (offset + i) (value / 2 ^ (8 * i) % 2 ^ 8)))
]
