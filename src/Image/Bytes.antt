-- ===== src/Image/Bytes.antt =====
-- What the copies of src/image.c leave in each byte.
use yan_os.Base.{ℕ, zero, suc, ◌+◌, ◌≤◌, ◌<◌, ◌≡◌, ◌⊎◌, inl, refl, ◌∙◌}
use yan_os.Base.{List, arith, length, set, All, All-set, length-set, get_or-set_self, get_or-set_ne}
use yan_os.Image.{byte, memcpy, memset}
use yan_os.Ram.Bytes.{IsByte, get_or-IsByte}

pub length-memcpy :
    (store : List ℕ) (start : ℕ) (image : List ℕ) (offset n : ℕ)
    → length (memcpy store start image offset n) ≡ length store
unfolding memcpy
length-memcpy store start image offset zero = refl
length-memcpy store start image offset (suc n) =
    length-memcpy (set store start (byte image offset)) (start + 1) image (offset + 1) n
    ∙ length-set store start (byte image offset)

pub length-memset : (store : List ℕ) (start n : ℕ) → length (memset store start n) ≡ length store
unfolding memset
length-memset store start zero = refl
length-memset store start (suc n) =
    length-memset (set store start 0) (start + 1) n ∙ length-set store start 0

pub memcpy-IsByte :
    (store : List ℕ) (start : ℕ) (image : List ℕ) (offset n : ℕ)
    → All IsByte image
    → All IsByte store
    → All IsByte (memcpy store start image offset n)
unfolding memcpy
memcpy-IsByte store start image offset zero bs h = h
memcpy-IsByte store start image offset (suc n) bs h =
    memcpy-IsByte (set store start (byte image offset)) (start + 1) image (offset + 1) n bs
      (All-set IsByte store start (byte image offset) (get_or-IsByte image offset bs) h)

pub memset-IsByte :
    (store : List ℕ) (start n : ℕ) → All IsByte store → All IsByte (memset store start n)
unfolding memset
memset-IsByte store start zero h = h
memset-IsByte store start (suc n) h =
    memset-IsByte (set store start 0) (start + 1) n (All-set IsByte store start 0 (omega arith) h)

pub memcpy_outside :
    (store : List ℕ) (start : ℕ) (image : List ℕ) (offset n j : ℕ)
    → (j < start) ⊎ (start + n ≤ j)
    → byte (memcpy store start image offset n) j ≡ byte store j
unfolding memcpy
memcpy_outside store start image offset zero j h = refl
memcpy_outside store start image offset (suc n) j h =
    memcpy_outside (set store start (byte image offset)) (start + 1) image (offset + 1) n j
      (omega (arith, h))
    ∙ get_or-set_ne store start j (byte image offset) 0 (omega (arith, h))

pub memset_outside :
    (store : List ℕ) (start n j : ℕ)
    → (j < start) ⊎ (start + n ≤ j)
    → byte (memset store start n) j ≡ byte store j
unfolding memset
memset_outside store start zero j h = refl
memset_outside store start (suc n) j h =
    memset_outside (set store start 0) (start + 1) n j (omega (arith, h))
    ∙ get_or-set_ne store start j 0 0 (omega (arith, h))

pub memcpy_inside :
    (store : List ℕ) (start : ℕ) (image : List ℕ) (offset n k : ℕ)
    → k < n
    → start + n ≤ length store
    → byte (memcpy store start image offset n) (start + k) ≡ byte image (offset + k)
unfolding memcpy
memcpy_inside store start image offset zero k h fits = absurd (omega arith)
memcpy_inside store start image offset (suc n) zero h fits =
    let here : start + 0 ≡ start = omega arith in
    let there : offset + 0 ≡ offset = omega arith in
    rw (here, there)
      (memcpy_outside (set store start (byte image offset)) (start + 1) image (offset + 1) n start
          (inl (omega arith))
        ∙ get_or-set_self store start (byte image offset) 0 (omega arith))
memcpy_inside store start image offset (suc n) (suc k) h fits =
    let here : start + suc k ≡ start + 1 + k = omega arith in
    let there : offset + suc k ≡ offset + 1 + k = omega arith in
    rw (here, there)
      (memcpy_inside (set store start (byte image offset)) (start + 1) image (offset + 1) n k
        (omega arith) (omega (arith, length-set store start (byte image offset))))

pub memset_inside :
    (store : List ℕ) (start n k : ℕ)
    → k < n
    → start + n ≤ length store
    → byte (memset store start n) (start + k) ≡ 0
unfolding memset
memset_inside store start zero k h fits = absurd (omega arith)
memset_inside store start (suc n) zero h fits =
    let here : start + 0 ≡ start = omega arith in
    rw here (
      memset_outside (set store start 0) (start + 1) n start (inl (omega arith))
      ∙ get_or-set_self store start 0 0 (omega arith))
memset_inside store start (suc n) (suc k) h fits =
    let here : start + suc k ≡ start + 1 + k = omega arith in
    rw here (
      memset_inside (set store start 0) (start + 1) n k (omega arith)
        (omega (arith, length-set store start 0)))
