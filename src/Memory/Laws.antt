-- ===== src/Memory/Laws.antt =====
-- `memcpy` and `memmove` of os/memory.c.
use native.Mathlib.Decide.{dec_lt}
use yan_os.Base.{ℕ, ◌+◌, ◌≤◌, ◌≡◌, ◌⊎◌, inl, inr, arith, ◌==◌, ◌||◌, ltb_of_lt, ltb_of_le}
use yan_os.Base.{true, Bool-cases}
use yan_os.Memory.{Bytes, memcpy, memmove}
use yan_os.Memory.Forward.{IsCopied, copy_forward-IsCopied}
use yan_os.Memory.Backward.{copy_backward-IsCopied}

pub memcpy-IsCopied :
    (bytes : Bytes) (out source size : ℕ)
    → (out ≤ source) ⊎ (source + size ≤ out)
    → IsCopied out source 0 size bytes (memcpy bytes out source size)
unfolding memcpy
memcpy-IsCopied bytes out source size clear = copy_forward-IsCopied out source size bytes clear

nothing_moves :
    (bytes : Bytes) (out source size : ℕ)
    → (out == source || size == 0) ≡ true
    → IsCopied out source 0 size bytes bytes
nothing_moves bytes out source size h x = ground arith

-- However the two ranges overlap and are aligned, `memmove` leaves each byte of the destination
-- as the byte at the same place of the source was before, and every other byte as it was.
pub memmove-IsCopied :
    (bytes : Bytes) (out source size : ℕ)
    → IsCopied out source 0 size bytes (memmove bytes out source size)
unfolding memmove
memmove-IsCopied bytes out source size = elim (Bool-cases (out == source || size == 0)) [
  | inl e ↦ rw e (nothing_moves bytes out source size e)
  | inr e ↦ rw e (elim (dec_lt out source) [
    | yes p ↦
        rw (ltb_of_lt {a = out} {b = source} p)
          (copy_forward-IsCopied out source size bytes (inl (omega arith)))
    | no p ↦
        rw (ltb_of_le {a = out} {b = source} (omega arith))
          (copy_backward-IsCopied out source size bytes (omega arith))
  ])
]
