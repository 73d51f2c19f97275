-- ===== src/Memory/Forward.antt =====
-- `copy_forward` of os/memory.c against a copy of all bytes at once.
use yan_os.Base.{
  ℕ, zero, suc, ◌+◌, ◌-◌, ◌*◌, ◌/◌, ◌≤◌, ◌≡◌, ◌⊎◌, sym, if-intro, arith, ◌&&◌, ltb, leb,
  if◌then◌else◌,
}
use yan_os.Memory.{
  Bytes, put, move_word, unaligned, Copy, forward_head, forward_words, forward_blocks,
}
use yan_os.Memory.{forward_singles, forward_tail, copy_forward}

-- The bytes where those at `out + lo` up to `out + hi` come from `source`, as they were `before`.
abbrev pub copied : ℕ → ℕ → ℕ → ℕ → Bytes → Bytes
copied out source lo hi before =
    λ x. if leb (out + lo) x && ltb x (out + hi) then before (source + (x - out)) else before x

abbrev pub IsCopied : ℕ → ℕ → ℕ → ℕ → Bytes → Bytes → Type 0
IsCopied out source lo hi before now = (x : ℕ) → now x ≡ copied out source lo hi before x

module _ (out source n : ℕ) (before : Bytes) (clear : (out ≤ source) ⊎ (source + n ≤ out)) where
  -- The first `k` bytes are copied, and the pointers stand behind them.
  abbrev At : ℕ → Bytes → ℕ → ℕ → Type 0
  At k now o s = (o ≡ out + k) × (s ≡ source + k) × IsCopied out source 0 k before now

  put-At :
      (now : Bytes) (o s k : ℕ)
      → At k now o s
      → k + 1 ≤ n
      → At (k + 1) (put now o (now s)) (o + 1) (s + 1)
  unfolding put
  put-At now o s k (p, q, h) fits = (omega arith, omega arith, λ x. ground (arith, h x, h s))

  move_word-At :
      (now : Bytes) (o s k : ℕ)
      → At k now o s
      → k + 4 ≤ n
      → At (k + 4) (move_word now o s) (o + 4) (s + 4)
  unfolding put move_word
  move_word-At now o s k (p, q, h) fits =
      (omega arith, omega arith, λ x. ground (arith, h x, h s, h (s + 1), h (s + 2), h (s + 3)))

  forward_words-At :
      (words : ℕ) (now : Bytes) (o s k m : ℕ)
      → At k now o s
      → k + words * 4 ≡ m
      → m ≤ n
      → IsCopied out source 0 m before (forward_words words now o s)
  unfolding forward_words
  forward_words-At zero now o s k m (p, q, h) e fits =
      let same : k ≡ m = omega arith in rw (sym same) h
  forward_words-At (suc words) now o s k m h e fits =
      forward_words-At words (move_word now o s) (o + 4) (s + 4) (k + 4) m
        (move_word-At now o s k h (omega arith)) (omega arith) fits

  -- Some bytes are copied, and as many of the `n` as `size` says are left.
  abbrev Runs : Copy → Type 0
  Runs c = (k : ℕ) × (c.size + k ≡ n) × At k c.bytes c.out c.source

  forward_head-Runs :
      (left : ℕ) (now : Bytes) (o s k : ℕ)
      → left + k ≡ n
      → At k now o s
      → Runs (forward_head left now o s)
  unfolding forward_head
  forward_head-Runs zero now o s k e h = (k, e, h)
  forward_head-Runs (suc left) now o s k e h =
      let rest =
        forward_head-Runs left (put now o (now s)) (o + 1) (s + 1) (k + 1) (omega arith)
          (put-At now o s k h (omega arith)) in
      if-intro Runs (unaligned o s) _ _ rest (k, e, h)

  forward_blocks-Runs :
      (rounds : ℕ) (c : Copy) → Runs c → rounds * 32 ≤ c.size → Runs (forward_blocks rounds c)
  unfolding forward_blocks
  forward_blocks-Runs zero c h fits = h
  forward_blocks-Runs (suc rounds) c (k, e, (p, q, h)) fits =
      forward_blocks-Runs rounds _
        (
          k + 32,
          omega arith,
          (
            omega arith,
            omega arith,
            forward_words-At 8 c.bytes c.out c.source k (k + 32) (p, q, h) (omega arith)
                (omega arith),
          ),
        )
        (omega arith)

  forward_singles-Runs :
      (rounds : ℕ) (c : Copy) → Runs c → rounds * 4 ≤ c.size → Runs (forward_singles rounds c)
  unfolding forward_singles
  forward_singles-Runs zero c h fits = h
  forward_singles-Runs (suc rounds) c (k, e, h) fits =
      forward_singles-Runs rounds _
        (k + 4, omega arith, move_word-At c.bytes c.out c.source k h (omega arith)) (omega arith)

  forward_tail-IsCopied :
      (left : ℕ) (now : Bytes) (o s k : ℕ)
      → left + k ≡ n
      → At k now o s
      → IsCopied out source 0 n before (forward_tail left now o s)
  unfolding forward_tail
  forward_tail-IsCopied zero now o s k e (p, q, h) =
      let same : k ≡ n = omega arith in rw (sym same) h
  forward_tail-IsCopied (suc left) now o s k e h =
      forward_tail-IsCopied left (put now o (now s)) (o + 1) (s + 1) (k + 1) (omega arith)
        (put-At now o s k h (omega arith))

  start : At 0 before out source
  start = (omega arith, omega arith, λ x. ground arith)

  pub copy_forward-IsCopied : IsCopied out source 0 n before (copy_forward before out source n)
  unfolding copy_forward
  copy_forward-IsCopied =
      let head = forward_head n before out source in
      let blocks = forward_blocks (head.size / 32) head in
      let singles = forward_singles (blocks.size / 4) blocks in
      let h = forward_head-Runs n before out source 0 (omega arith) start in
      let b : Runs blocks = forward_blocks-Runs (head.size / 32) head h (omega arith) in
      let w : Runs singles = forward_singles-Runs (blocks.size / 4) blocks b (omega arith) in
      forward_tail-IsCopied singles.size singles.bytes singles.out singles.source (w.0) (w.1) (w.2)
