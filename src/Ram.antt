-- ===== src/Ram.antt =====
-- The byte store of src/ram.c and include/yan/ram.h. An operation that stores through a pointer
-- takes the old content and returns the new one, so that a failure can be seen to keep it.
pub mod Bytes
pub mod Laws
pub mod RoundTrip
use mathlib.Core.Option
use mathlib.Core.Option.{Option}
use yan_os.Base.{ℕ, zero, suc, ◌+◌, ◌-◌, ◌*◌, ◌/◌, ◌%◌, ◌^◌, bit_or, List, [], ◌∷◌, none, some}
use yan_os.Base.{Bool, true, false, not, ◌&&◌, ◌||◌, ◌==◌, ◌!=◌, ltb, if◌then◌else◌, is_null}
use yan_os.Base.{get_or, set, replicate}
use yan_os.Status.{Status, ok, invalid_argument, invalid_state, out_of_memory, invalid_width}
use yan_os.Status.{out_of_bounds, is_ok}

-- `YanRam`; `none` is the NULL of `data`.
pub record Ram : Type 0 where
  pub storage : Option (List ℕ)
  pub size : ℕ

-- The bytes behind `data`, where it is not NULL.
abbrev pub bytes : Ram → List ℕ
bytes ram = Option.get_or ram.storage []

abbrev pub absent : Ram
absent = record { storage = none; size = 0 }

unfoldable pub check_access : Ram → ℕ → ℕ → Status
check_access ram offset width =
    if is_null ram.storage || ram.size == 0
    then invalid_state
    else if width != 1 && width != 2 && width != 4
    then invalid_width
    else if ltb ram.size width || ltb (ram.size - width) offset
    then out_of_bounds
    else ok

-- `available` is whether `calloc` finds the memory.
unfoldable pub init : Ram → ℕ → Bool → Status × Ram
init ram size available =
    if not (is_null ram.storage) || ram.size != 0
    then (invalid_state, ram)
    else if size == 0
    then (invalid_argument, ram)
    else if available
    then (ok, record { storage = some (replicate size 0); size = size })
    else (out_of_memory, ram)

unfoldable pub destroy : Ram → Ram
destroy ram = absent

-- `memset(ram->data, 0, ram->size)`
abbrev pub zero_fill : ℕ → List ℕ → List ℕ
zero_fill zero xs = xs
zero_fill (suc n) [] = []
zero_fill (suc n) (x ∷ xs) = 0 ∷ zero_fill n xs

unfoldable pub clear : Ram → Status × Ram
clear ram =
    let status = check_access ram 0 1 in
    if is_ok status
    then (ok, record ram { storage = Option.map (zero_fill ram.size) ram.storage })
    else (status, ram)

-- The loop of `yan_ram_read` from byte `i`, with `left` rounds to go.
unfoldable pub read_loop : List ℕ → ℕ → ℕ → ℕ → ℕ → ℕ
read_loop store offset i zero result = result
read_loop store offset i (suc left) result =
    read_loop store offset (i + 1) left
      (bit_or result (get_or store (offset + i) 0 * 2 ^ (8 * i) % 2 ^ 32))

-- The last argument is what `*value` holds before the call.
unfoldable pub read : Ram → ℕ → ℕ → ℕ → Status × ℕ
read ram offset width value =
    let status = check_access ram offset width in
    if is_ok status then (ok, read_loop (bytes ram) offset 0 width 0) else (status, value)

-- The loop of `yan_ram_write`.
unfoldable pub write_loop : List ℕ → ℕ → ℕ → ℕ → ℕ → List ℕ
write_loop store offset value i zero = store
write_loop store offset value i (suc left) =
    write_loop (set store (offset + i) (value / 2 ^ (8 * i) % 2 ^ 8)) offset value (i + 1) left

unfoldable pub write : Ram → ℕ → ℕ → ℕ → Status × Ram
write ram offset width value =
    let status = check_access ram offset width in
    if is_ok status
    then (
      ok,
      record ram {
        storage = Option.map (λ store. write_loop store offset value 0 width) ram.storage;
      },
    )
    else (status, ram)
