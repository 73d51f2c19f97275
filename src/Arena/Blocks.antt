-- ===== src/Arena/Blocks.antt =====
-- The blocks that an arena of os/arena.c hands out.
use yan_os.Base.{
  ℕ, ◌+◌, ◌-◌, ◌%◌, ◌≤◌, ◌<◌, ◌≡◌, ◌⊎◌, inl, inr, refl, List, [], ◌∷◌, Option, none, some,
}
use yan_os.Base.{arith, Bool-cases, ltb, ◌||◌, ◌!=◌}
use yan_os.Arena.{Arena, alignment, place, alloc}

-- The first aligned address at or after the cursor.
abbrev pub first_aligned : ℕ → ℕ
first_aligned n = n + (alignment - n % alignment) % alignment

place_lem :
    (arena : Arena) (aligned size : ℕ)
    → ((aligned + size ≤ arena.end)
        × (place arena aligned size ≡ (some aligned, record arena { next = aligned + size })))
      ⊎ ((arena.end < aligned + size) × (place arena aligned size ≡ (none, arena)))
unfolding place
place_lem arena aligned size =
    elim (Bool-cases (ltb arena.end aligned || ltb (arena.end - aligned) size)) [
      | inl e ↦ inr (ground arith, rw e refl)
      | inr e ↦ inl (ground arith, rw e refl)
    ]

-- The block at the first aligned address, if it ends by the arena's end, or a refusal.
pub alloc_lem :
    (limit : ℕ) (arena : Arena) (size : ℕ)
    → arena.end ≤ limit
    → ((first_aligned arena.next + size ≤ arena.end)
        × (alloc limit arena size ≡ (
          some (first_aligned arena.next),
          record arena { next = first_aligned arena.next + size },
        )))
      ⊎ ((arena.end < first_aligned arena.next + size) × (alloc limit arena size ≡ (none, arena)))
unfolding alloc
alloc_lem limit arena size fits = elim (Bool-cases (arena.next % alignment != 0)) [
  | inl e ↦
      let at : first_aligned arena.next ≡ arena.next + (alignment - arena.next % alignment) =
        ground arith in
      elim (Bool-cases (ltb (limit - arena.next) (alignment - arena.next % alignment))) [
        | inl f ↦ inr (ground arith, rw (e, f) refl)
        | inr f ↦
            rw (e, f, at) (place_lem arena (arena.next + (alignment - arena.next % alignment)) size)
      ]
  | inr e ↦
      let at : first_aligned arena.next ≡ arena.next = ground arith in
      rw (e, at) (place_lem arena arena.next size)
]

-- The blocks of a run of requests, with their sizes; refused requests give none.
abbrev granted : Option ℕ → ℕ → List (ℕ × ℕ) → List (ℕ × ℕ)
granted none size rest = rest
granted (some a) size rest = (a, size) ∷ rest

abbrev pub grants : ℕ → Arena → List ℕ → List (ℕ × ℕ)
grants limit arena [] = []
grants limit arena (size ∷ sizes) =
    let answer = alloc limit arena size in granted answer.0 size (grants limit answer.1 sizes)

-- Blocks one after the other, aligned, from `low` on and by `high`.
abbrev pub AreOrdered : ℕ → ℕ → List (ℕ × ℕ) → Type 0
AreOrdered low high [] = Unit {0}
AreOrdered low high (b ∷ rest) =
    (low ≤ b.0) × (b.0 % alignment ≡ 0) × (b.0 + b.1 ≤ high) × AreOrdered (b.0 + b.1) high rest

lower :
    (low low' high : ℕ) (blocks : List (ℕ × ℕ))
    → low ≤ low'
    → AreOrdered low' high blocks
    → AreOrdered low high blocks
lower low low' high [] h o = tt
lower low low' high (b ∷ rest) h o = (omega (arith, o.0), o.1, o.2, o.3)

-- In an arena that ends by UINTPTR_MAX, the blocks granted to any sequence of requests are
-- 16-byte aligned, lie between the cursor and the end, and follow one another without overlap.
pub grants-AreOrdered :
    (limit : ℕ) (arena : Arena) (sizes : List ℕ)
    → arena.end ≤ limit
    → AreOrdered arena.next arena.end (grants limit arena sizes)
grants-AreOrdered limit arena [] h = tt
grants-AreOrdered limit arena (size ∷ sizes) h = elim (alloc_lem limit arena size h) [
  | inl g ↦ rw g.1 (
    omega arith,
    omega arith,
    g.0,
    grants-AreOrdered limit (record arena { next = first_aligned arena.next + size }) sizes h,
  )
  | inr r ↦ rw r.1 (grants-AreOrdered limit arena sizes h)
]
