-- ===== src/Memory.antt =====
-- The copies of os/memory.c. Memory is a function from addresses to bytes, an address is a number,
-- and a word is its four bytes in the order of their addresses: a copy never looks at its value.
pub mod Forward
pub mod Backward
pub mod Laws
use yan_os.Base.{
  ℕ, zero, suc, ◌+◌, ◌-◌, ◌*◌, ◌/◌, ◌%◌, Bool, ◌&&◌, ◌||◌, not, ◌==◌, ◌!=◌, ltb, leb, if◌then◌else◌,
}

abbrev pub Bytes : Type 0
Bytes = ℕ → ℕ

-- `*address = byte`
unfoldable pub put : Bytes → ℕ → ℕ → Bytes
put bytes address byte = λ x. if x == address then byte else bytes x

-- `*(yan_memory_word *)out = *(const yan_memory_word *)in`
unfoldable pub move_word : Bytes → ℕ → ℕ → Bytes
move_word bytes out source =
    let b0 = bytes source in
    let b1 = bytes (source + 1) in
    let b2 = bytes (source + 2) in
    let b3 = bytes (source + 3) in
    put (put (put (put bytes out b0) (out + 1) b1) (out + 2) b2) (out + 3) b3

unfoldable pub unaligned : ℕ → ℕ → Bool
unaligned out source = out % 4 != 0 || source % 4 != 0

-- The bytes, the two pointers and the size left; a backward copy has the pointers to the ends.
pub record Copy : Type 0 where
  pub bytes : Bytes
  pub out : ℕ
  pub source : ℕ
  pub size : ℕ

-- The loop over the unaligned head; at most `left` bytes are left.
unfoldable pub forward_head : ℕ → Bytes → ℕ → ℕ → Copy
forward_head zero bytes out source = record { bytes = bytes; out = out; source = source; size = 0 }
forward_head (suc left) bytes out source =
    let rest = forward_head left (put bytes out (bytes source)) (out + 1) (source + 1) in
    if unaligned out source
    then rest
    else record { bytes = bytes; out = out; source = source; size = suc left }

-- `o[0] = i[0]` and so on, for this many words.
unfoldable pub forward_words : ℕ → Bytes → ℕ → ℕ → Bytes
forward_words zero bytes out source = bytes
forward_words (suc words) bytes out source =
    forward_words words (move_word bytes out source) (out + 4) (source + 4)

-- The loop over blocks of eight words, `size / 32` rounds.
unfoldable pub forward_blocks : ℕ → Copy → Copy
forward_blocks zero c = c
forward_blocks (suc rounds) c = forward_blocks rounds (record {
  bytes = forward_words 8 c.bytes c.out c.source;
  out = c.out + 32;
  source = c.source + 32;
  size = c.size - 32;
})

-- The loop over single words, `size / 4` rounds.
unfoldable pub forward_singles : ℕ → Copy → Copy
forward_singles zero c = c
forward_singles (suc rounds) c = forward_singles rounds (record {
  bytes = move_word c.bytes c.out c.source;
  out = c.out + 4;
  source = c.source + 4;
  size = c.size - 4;
})

-- The loop over the bytes of the tail.
unfoldable pub forward_tail : ℕ → Bytes → ℕ → ℕ → Bytes
forward_tail zero bytes out source = bytes
forward_tail (suc left) bytes out source =
    forward_tail left (put bytes out (bytes source)) (out + 1) (source + 1)

unfoldable pub copy_forward : Bytes → ℕ → ℕ → ℕ → Bytes
copy_forward bytes out source size =
    let head = forward_head size bytes out source in
    let blocks = forward_blocks (head.size / 32) head in
    let singles = forward_singles (blocks.size / 4) blocks in
    forward_tail singles.size singles.bytes singles.out singles.source

-- The loops of a backward copy, where `out` and `source` point behind the bytes that are left.
unfoldable pub backward_head : ℕ → Bytes → ℕ → ℕ → Copy
backward_head zero bytes out source = record { bytes = bytes; out = out; source = source; size = 0 }
backward_head (suc left) bytes out source =
    let rest =
      backward_head left (put bytes (out - 1) (bytes (source - 1))) (out - 1) (source - 1) in
    if unaligned out source
    then rest
    else record { bytes = bytes; out = out; source = source; size = suc left }

-- `o[7] = i[7]` and so on down, for this many words.
unfoldable pub backward_words : ℕ → Bytes → ℕ → ℕ → Bytes
backward_words zero bytes out source = bytes
backward_words (suc words) bytes out source =
    backward_words words (move_word bytes (out - 4) (source - 4)) (out - 4) (source - 4)

unfoldable pub backward_blocks : ℕ → Copy → Copy
backward_blocks zero c = c
backward_blocks (suc rounds) c = backward_blocks rounds (record {
  bytes = backward_words 8 c.bytes c.out c.source;
  out = c.out - 32;
  source = c.source - 32;
  size = c.size - 32;
})

unfoldable pub backward_singles : ℕ → Copy → Copy
backward_singles zero c = c
backward_singles (suc rounds) c = backward_singles rounds (record {
  bytes = move_word c.bytes (c.out - 4) (c.source - 4);
  out = c.out - 4;
  source = c.source - 4;
  size = c.size - 4;
})

unfoldable pub backward_tail : ℕ → Bytes → ℕ → ℕ → Bytes
backward_tail zero bytes out source = bytes
backward_tail (suc left) bytes out source =
    backward_tail left (put bytes (out - 1) (bytes (source - 1))) (out - 1) (source - 1)

unfoldable pub copy_backward : Bytes → ℕ → ℕ → ℕ → Bytes
copy_backward bytes out source size =
    let head = backward_head size bytes (out + size) (source + size) in
    let blocks = backward_blocks (head.size / 32) head in
    let singles = backward_singles (blocks.size / 4) blocks in
    backward_tail singles.size singles.bytes singles.out singles.source

-- `memcpy`, which returns its destination
unfoldable pub memcpy : Bytes → ℕ → ℕ → ℕ → Bytes
memcpy bytes out source size = copy_forward bytes out source size

-- `memmove`, which returns its destination
unfoldable pub memmove : Bytes → ℕ → ℕ → ℕ → Bytes
memmove bytes out source size =
    if out == source || size == 0
    then bytes
    else if ltb out source
    then copy_forward bytes out source size
    else copy_backward bytes out source size
