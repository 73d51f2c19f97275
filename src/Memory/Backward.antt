-- ===== src/Memory/Backward.antt =====
-- `copy_backward` of os/memory.c against a copy of all bytes at once.
use yan_os.Base.{
  ℕ, zero, suc, ◌+◌, ◌-◌, ◌*◌, ◌/◌, ◌≤◌, ◌≡◌, ◌∙◌, if-intro, refl, arith, ◌&&◌, ltb, leb,
  if◌then◌else◌,
}
use yan_os.Memory.{
  Bytes, put, move_word, unaligned, Copy, backward_head, backward_words, backward_blocks,
}
use yan_os.Memory.{backward_singles, backward_tail, copy_backward}
use yan_os.Memory.Forward.{IsCopied}

-- Of a word moved, each byte is the one at the same place of the source.
move_word_lem :
    (now : Bytes) (a b x : ℕ)
    → move_word now a b x ≡ (if leb a x && ltb x (a + 4) then now (b + (x - a)) else now x)
unfolding put move_word
move_word_lem now a b x = ground arith

module _ (out source n : ℕ) (before : Bytes) (above : source ≤ out) where
  -- All but the first `k` bytes are copied, and the pointers stand behind those.
  abbrev At : ℕ → Bytes → ℕ → ℕ → Type 0
  At k now o s = (o ≡ out + k) × (s ≡ source + k) × IsCopied out source k n before now

  put-At :
      (now : Bytes) (o s k : ℕ)
      → At (k + 1) now o s
      → k + 1 ≤ n
      → At k (put now (o - 1) (now (s - 1))) (o - 1) (s - 1)
  unfolding put
  put-At now o s k (p, q, h) fits = (omega arith, omega arith, λ x. ground (arith, h x, h (s - 1)))

  move_word-IsCopied :
      (now : Bytes) (k : ℕ)
      → IsCopied out source (k + 4) n before now
      → k + 4 ≤ n
      → IsCopied out source k n before (move_word now (out + k) (source + k))
  move_word-IsCopied now k h fits x =
      move_word_lem now (out + k) (source + k) x
      ∙ ground (arith, h x, h (source + k + (x - (out + k))))

  move_word-At :
      (now : Bytes) (o s k : ℕ)
      → At (k + 4) now o s
      → k + 4 ≤ n
      → At k (move_word now (o - 4) (s - 4)) (o - 4) (s - 4)
  move_word-At now o s k (p, q, h) fits =
      let there : o - 4 ≡ out + k = omega arith in
      let from : s - 4 ≡ source + k = omega arith in
      (there, from, rw (there, from) (move_word-IsCopied now k h fits))

  backward_words-At :
      (words : ℕ) (now : Bytes) (o s k m : ℕ)
      → At k now o s
      → m + words * 4 ≡ k
      → k ≤ n
      → IsCopied out source m n before (backward_words words now o s)
  unfolding backward_words
  backward_words-At zero now o s k m (p, q, h) e fits = let same : m ≡ k = omega arith in rw same h
  backward_words-At (suc words) now o s k m h e fits =
      let j = m + words * 4 in
      let next : j + 4 ≡ k = omega arith in
      backward_words-At words (move_word now (o - 4) (s - 4)) (o - 4) (s - 4) j m
        (move_word-At now o s j (rw next h) (omega arith)) refl (omega arith)

  -- All but the first `size` bytes are copied.
  abbrev Runs : Copy → Type 0
  Runs c = (c.size ≤ n) × At c.size c.bytes c.out c.source

  backward_head-Runs :
      (left : ℕ) (now : Bytes) (o s : ℕ)
      → left ≤ n
      → At left now o s
      → Runs (backward_head left now o s)
  unfolding backward_head
  backward_head-Runs zero now o s e h = (e, h)
  backward_head-Runs (suc left) now o s e h =
      let now_one : left + 1 ≡ suc left = omega arith in
      let rest =
        backward_head-Runs left (put now (o - 1) (now (s - 1))) (o - 1) (s - 1) (omega arith)
          (put-At now o s left (rw now_one h) (omega arith)) in
      if-intro Runs (unaligned o s) _ _ rest (e, h)

  backward_blocks-Runs :
      (rounds : ℕ) (c : Copy) → Runs c → rounds * 32 ≤ c.size → Runs (backward_blocks rounds c)
  unfolding backward_blocks
  backward_blocks-Runs zero c h fits = h
  backward_blocks-Runs (suc rounds) c (e, (p, q, h)) fits =
      backward_blocks-Runs rounds _
        (
          omega arith,
          (
            omega arith,
            omega arith,
            backward_words-At 8 c.bytes c.out c.source c.size (c.size - 32) (p, q, h) (omega arith)
                e,
          ),
        )
        (omega arith)

  backward_singles-Runs :
      (rounds : ℕ) (c : Copy) → Runs c → rounds * 4 ≤ c.size → Runs (backward_singles rounds c)
  unfolding backward_singles
  backward_singles-Runs zero c h fits = h
  backward_singles-Runs (suc rounds) c (e, h) fits =
      let four : c.size - 4 + 4 ≡ c.size = omega arith in
      backward_singles-Runs rounds _
        (omega arith, move_word-At c.bytes c.out c.source (c.size - 4) (rw four h) (omega arith))
        (omega arith)

  backward_tail-IsCopied :
      (left : ℕ) (now : Bytes) (o s : ℕ)
      → left ≤ n
      → At left now o s
      → IsCopied out source 0 n before (backward_tail left now o s)
  unfolding backward_tail
  backward_tail-IsCopied zero now o s e (p, q, h) = h
  backward_tail-IsCopied (suc left) now o s e h =
      let now_one : left + 1 ≡ suc left = omega arith in
      backward_tail-IsCopied left (put now (o - 1) (now (s - 1))) (o - 1) (s - 1) (omega arith)
        (put-At now o s left (rw now_one h) (omega arith))

  start : At n before (out + n) (source + n)
  start = (refl, refl, λ x. ground arith)

  pub copy_backward-IsCopied : IsCopied out source 0 n before (copy_backward before out source n)
  unfolding copy_backward
  copy_backward-IsCopied =
      let head = backward_head n before (out + n) (source + n) in
      let blocks = backward_blocks (head.size / 32) head in
      let singles = backward_singles (blocks.size / 4) blocks in
      let h = backward_head-Runs n before (out + n) (source + n) (omega arith) start in
      let b : Runs blocks = backward_blocks-Runs (head.size / 32) head h (omega arith) in
      let w : Runs singles = backward_singles-Runs (blocks.size / 4) blocks b (omega arith) in
      backward_tail-IsCopied singles.size singles.bytes singles.out singles.source (w.0) (w.1)
