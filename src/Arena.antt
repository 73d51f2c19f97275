-- ===== src/Arena.antt =====
-- The bump arena of os/arena.c. `limit` is UINTPTR_MAX, and NULL is `none`.
pub mod Blocks
use yan_os.Base.{ℕ, ◌+◌, ◌-◌, ◌%◌, Option, none, some, ◌!=◌, ltb, ◌||◌, if◌then◌else◌}

abbrev pub alignment : ℕ
alignment = 16

pub record Arena : Type 0 where
  pub next : ℕ
  pub end : ℕ

unfoldable pub init : ℕ → ℕ → Arena
init start end = record { next = start; end = end }

-- The last steps of `yan_arena_alloc`, from the rounded cursor on.
unfoldable pub place : Arena → ℕ → ℕ → Option ℕ × Arena
place arena aligned size =
    if ltb arena.end aligned || ltb (arena.end - aligned) size
    then (none, arena)
    else (some aligned, record arena { next = aligned + size })

unfoldable pub alloc : ℕ → Arena → ℕ → Option ℕ × Arena
alloc limit arena size =
    let current = arena.next in
    let padding = alignment - current % alignment in
    if current % alignment != 0
    then (if ltb (limit - current) padding
        then (none, arena)
        else place arena (current + padding) size)
    else place arena current size

unfoldable pub used : ℕ → Arena → ℕ → ℕ
used limit arena start = (arena.next + (limit + 1) - start) % (limit + 1)
