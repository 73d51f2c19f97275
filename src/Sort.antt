-- ===== src/Sort.antt =====
-- The heapsort of indices of os/sort.h. The callback `before` with its context is a parameter.
-- Both loops run on fuel; `none` is a run that used it up.
pub mod Arrays
pub mod Sift
pub mod Sorted
use mathlib.Core.Option
use mathlib.Core.Option.{Option}
use yan_os.Base.{ℕ, zero, suc, ◌+◌, ◌-◌, ◌*◌, ◌/◌, ◌%◌, ◌^◌, List, none, some}
use yan_os.Base.{Bool, ◌&&◌, ltb, leb, if◌then◌else◌, get_or, set, ◌>>=◌}

-- `order[i]`; an index out of range reads 0.
abbrev pub at : List ℕ → ℕ → ℕ
at order i = get_or order i 0

-- `swap = order[i]; order[i] = order[j]; order[j] = swap`
unfoldable pub exchange : List ℕ → ℕ → ℕ → List ℕ
exchange order i j = set (set order i (at order j)) j (at order i)

module _ (before : ℕ → ℕ → Bool) where
  -- The child that is compared with its parent: the later one of the two, if there are two.
  unfoldable pub larger_child : List ℕ → ℕ → ℕ → ℕ
  larger_child order child count =
      if ltb (child + 1) count && before (at order child) (at order (child + 1))
      then child + 1
      else child

  unfoldable pub sift_down : ℕ → List ℕ → ℕ → ℕ → Option (List ℕ)
  sift_down zero order root count = none
  sift_down (suc fuel) order root count =
      let first = (root * 2 + 1) % 2 ^ 32 in
      let child = larger_child order first count in
      let rest = sift_down fuel (exchange order root child) child count in
      if leb count first
      then some order
      else if before (at order root) (at order child)
      then rest
      else some order

  -- The first loop of `yan_sort_index`, from `first` down.
  unfoldable pub build : ℕ → List ℕ → ℕ → Option (List ℕ)
  build zero order count = some order
  build (suc first) order count = do
    next ← sift_down count order first count
    build first next count

  -- The second loop, from `end` down.
  unfoldable pub drain : ℕ → List ℕ → Option (List ℕ)
  drain zero order = some order
  drain (suc zero) order = some order
  drain (suc (suc end)) order = do
    next ← sift_down (suc end) (exchange order 0 (suc end)) 0 (suc end)
    drain (suc end) next

  unfoldable pub index : List ℕ → ℕ → Option (List ℕ)
  index order count =
      if ltb count 2 then some order else do heap ← build (count / 2) order count; drain count heap
