-- ===== src/Ram/RoundTrip.antt =====
-- Reads after writes in src/ram.c.
use mathlib.Core.Option.{Option}
use yan_os.Base.{ℕ, zero, suc, ◌+◌, ◌*◌, ◌%◌, ◌^◌, ◌≤◌, ◌<◌, ◌≡◌, ◌⊎◌, inl, inr, refl, ap, ◌∙◌, sym}
use yan_os.Base.{is_null, List, some, none, arith, length, get_or, false, ◌/◌}
use yan_os.Status.{ok, is_ok?}
use yan_os.Ram.{Ram, bytes, check_access, read, write, write_loop}
use yan_os.Ram.Bytes.{word, write_loop_inside, write_loop_outside}
use yan_os.Ram.Laws.{IsValid, check_access-ok, read-ok, read_refused, write_status, write_refused}
use yan_os.Ram.Laws.{write-IsValid, check_access-write}

-- The bytes of a value, from the `k`-th on.
abbrev bytes_from : ℕ → ℕ → ℕ → ℕ
bytes_from value k zero = 0
bytes_from value k (suc n) = value / 2 ^ (8 * k) % 2 ^ 8 + 256 * bytes_from value (k + 1) n

module _ (store : List ℕ) (offset value w : ℕ) (fits : offset + w ≤ length store) where
  word_from :
      (n k j : ℕ)
      → j ≡ offset + k
      → k + n ≤ w
      → word (write_loop store offset value 0 w) j n ≡ bytes_from value k n
  word_from zero k j e h = refl
  word_from (suc n) k j e h = omega (
    arith,
    ap (λ t. get_or (write_loop store offset value 0 w) t 0) e,
    write_loop_inside store offset value 0 w k (omega arith) (omega arith) (omega arith),
    word_from n (k + 1) (j + 1) (omega arith) (omega arith),
  )

  word_written :
      (w ≡ 1) ⊎ ((w ≡ 2) ⊎ (w ≡ 4))
      → word (write_loop store offset value 0 w) offset w ≡ value % 2 ^ (8 * w)
  word_written s = word_from w 0 offset (omega arith) (omega arith) ∙ whole s
    where
      whole : (w ≡ 1) ⊎ ((w ≡ 2) ⊎ (w ≡ 4)) → bytes_from value 0 w ≡ value % 2 ^ (8 * w)
      whole (inl e) = rw e (omega arith)
      whole (inr (inl e)) = rw e (omega arith)
      whole (inr (inr e)) = rw e (omega arith)

word_congr :
    (xs ys : List ℕ) (offset n : ℕ)
    → ((j : ℕ) → offset ≤ j → j < offset + n → get_or xs j 0 ≡ get_or ys j 0)
    → word xs offset n ≡ word ys offset n
word_congr xs ys offset zero h = refl
word_congr xs ys offset (suc n) h = omega (
  arith,
  h offset (omega arith) (omega arith),
  word_congr xs ys (offset + 1) n (λ j lo hi. h j (omega arith) (omega arith)),
)

not_null : (ram : Ram) (o w : ℕ) → check_access ram o w ≡ ok → is_null ram.storage ≡ false
unfolding check_access
not_null ram o w h = ground arith

bytes_of_parts :
    (storage : Option (List ℕ)) (size o w value : ℕ)
    → is_null storage ≡ false
    → let ram : Ram = record { storage = storage; size = size } in
      check_access ram o w ≡ ok → bytes (write ram o w value).1 ≡ write_loop (bytes ram) o value 0 w
unfolding write
bytes_of_parts none size o w value e h = absurd (cc e)
bytes_of_parts (some store) size o w value e h = rw h refl

pub bytes-write :
    (ram : Ram) (o w value : ℕ)
    → check_access ram o w ≡ ok
    → bytes (write ram o w value).1 ≡ write_loop (bytes ram) o value 0 w
bytes-write ram o w value h = bytes_of_parts ram.storage ram.size o w value (not_null ram o w h) h

-- On a whole RAM, reading back an accepted write of `w` bytes succeeds and gives the low `8 * w`
-- bits of what was written.
pub read-write :
    (ram : Ram) (o w value out : ℕ)
    → IsValid ram
    → (write ram o w value).0 ≡ ok
    → read (write ram o w value).1 o w out ≡ (ok, value % 2 ^ (8 * w))
read-write ram o w value out v h =
    let c : check_access ram o w ≡ ok = sym (write_status ram o w value) ∙ h in
    let a = check_access-ok ram o w v c in
    read-ok (write ram o w value).1 o w out (write-IsValid ram o w value v)
      (check_access-write ram o w value o w ∙ c)
    ∙ ap (λ n. (ok, n))
        (rw (bytes-write ram o w value c) (word_written (bytes ram) o value w a.0 a.2))

-- On a whole RAM, a write leaves the answer of every read of bytes outside it, accepted or not.
pub read-write_disjoint :
    (ram : Ram) (o w value offset width out : ℕ)
    → IsValid ram
    → (offset + width ≤ o) ⊎ (o + w ≤ offset)
    → read (write ram o w value).1 offset width out ≡ read ram offset width out
read-write_disjoint ram o w value offset width out v apart =
    elim (is_ok? (check_access ram offset width)) [
      | inl c ↦
          read-ok (write ram o w value).1 offset width out (write-IsValid ram o w value v)
            (check_access-write ram o w value offset width ∙ c)
          ∙ ap (λ n. (ok, n)) same
          ∙ sym (read-ok ram offset width out v c)
      | inr ne ↦
          read_refused (write ram o w value).1 offset width out
            (rw (check_access-write ram o w value offset width) ne)
          ∙ rw (check_access-write ram o w value offset width)
              (sym (read_refused ram offset width out ne))
    ]
  where
    same : word (bytes (write ram o w value).1) offset width ≡ word (bytes ram) offset width
    same = elim (is_ok? (check_access ram o w)) [
      | inl c ↦
          ap (λ s. word s offset width) (bytes-write ram o w value c)
          ∙ word_congr _ (bytes ram) offset width
              (λ j lo hi. write_loop_outside (bytes ram) o value 0 w j (omega arith))
      | inr ne ↦ ap (λ p. word (bytes p.1) offset width) (write_refused ram o w value ne)
    ]
