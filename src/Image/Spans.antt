-- ===== src/Image/Spans.antt =====
-- `yan_image_segments` of src/image.c.
use native.Mathlib.Decide.{ℕ_discrete, dec_lt}
use yan_os.Base.{ltb_of_lt, ltb_of_le, if-intro, length-set, get_or-set_self, get_or-set_ne, sym}
use yan_os.Base.{ℕ, zero, suc, ◌+◌, ◌-◌, ◌%◌, ◌^◌, ◌<◌, ◌≡◌, refl, ap, ◌∙◌, inl, inr}
use yan_os.Base.{List, [], ◌∷◌, Option, none, some, arith, length, get_or, set}
use yan_os.Base.{not, ◌||◌, ◌&&◌, ◌++◌, is_null, ◌!=◌, ltb, if◌then◌else◌, Bool-cases}
use yan_os.Status.{Status, ok, invalid_image, invalid_argument, is_ok, is_ok→ok}
use yan_os.Image.Plan.{refused}
use mathlib.Core.List.{append-nil}
use yan_os.Image.{Header, Program, range_fits, read_program, header_is_supported}
use yan_os.Image.{elf32_program_load}

-- `YanImageSegment`
pub record Segment : Type 0 where
  pub start : ℕ
  pub end : ℕ

-- The array at `out`, where it is not NULL, and the count so far.
pub record Output : Type 0 where
  pub out : Option (List Segment)
  pub total : ℕ

unfoldable pub put : ℕ → Segment → Output → Output
put capacity s o = record {
  out =
      if ltb o.total capacity
      then (elim o.out [ none ↦ none | some cells ↦ some (set cells o.total s) ])
      else o.out;
  total = o.total + 1;
}

-- The body of the loop; a status that is not `ok` leaves it.
unfoldable pub list_segment : ℕ → ℕ → ℕ → Output → Option Program → Status × Output
list_segment size base capacity o none = (invalid_image, o)
list_segment size base capacity o (some p) =
    if p.kind != elf32_program_load
    then (ok, o)
    else if not (range_fits size p.offset p.filesz)
        || ltb p.memsz p.filesz
        || ltb p.paddr base
        || ltb (2 ^ 32 - 1) (p.paddr + p.memsz)
    then (invalid_image, o)
    else (ok, put capacity (record { start = p.paddr; end = (p.paddr + p.memsz) % 2 ^ 32 }) o)

-- The loop from entry `index`, with `left` entries to go.
unfoldable pub list_segments : List ℕ → ℕ → ℕ → ℕ → ℕ → ℕ → ℕ → Output → Status × Output
list_segments image size base capacity phoff index zero o = (ok, o)
list_segments image size base capacity phoff index (suc left) o =
    let step = list_segment size base capacity o (read_program image size phoff index) in
    let rest = list_segments image size base capacity phoff (index + 1) left step.1 in
    if is_ok step.0 then rest else step

unfoldable pub list_supported :
    List ℕ → ℕ → ℕ → Option (List Segment) → ℕ → ℕ → Option Header → Status × Output
list_supported image size base out capacity count none =
    (invalid_image, record { out = out; total = count })
list_supported image size base out capacity count (some h) =
    let end =
      list_segments image size base capacity h.phoff 0 h.phnum (record { out = out; total = 0 }) in
    if is_ok end.0 then end else (end.0, record { out = end.1.out; total = count })

-- The status, the array and the count behind the pointers; `count` is what `*count` held.
unfoldable pub segments : List ℕ → ℕ → ℕ → Option (List Segment) → ℕ → ℕ → Status × Output
segments image size base out capacity count =
    if is_null out && capacity != 0
    then (invalid_argument, record { out = out; total = count })
    else list_supported image size base out capacity count (header_is_supported image size)

-- The spans of the entries to be loaded, in the table's order.
abbrev pub loadable : Option Program → List Segment → List Segment
loadable none rest = rest
loadable (some p) rest =
    if p.kind != elf32_program_load
    then rest
    else record { start = p.paddr; end = p.paddr + p.memsz } ∷ rest

abbrev pub loadable_spans : List ℕ → ℕ → ℕ → ℕ → ℕ → List Segment
loadable_spans image size phoff index zero = []
loadable_spans image size phoff index (suc left) =
    loadable (read_program image size phoff index)
      (loadable_spans image size phoff (index + 1) left)

abbrev pub nowhere : Segment
nowhere = record { start = 0; end = 0 }

-- The array, where there is one, holds as many of the spans as it has room for.
abbrev pub Holds : List Segment → ℕ → Option (List Segment) → Type 0
Holds spans capacity none = Unit {0}
Holds spans capacity (some cells) =
    (length cells ≡ capacity)
    × ((i : ℕ) → i < capacity → i < length spans → get_or cells i nowhere ≡ get_or spans i nowhere)

-- The count is that of the spans, too.
abbrev pub IsListed : List Segment → ℕ → Output → Type 0
IsListed spans capacity o = (o.total ≡ length spans) × Holds spans capacity o.out

length-snoc : (spans : List Segment) (s : Segment) → length (spans ++ s ∷ []) ≡ length spans + 1
length-snoc [] s = refl
length-snoc (x ∷ spans) s = omega (arith, length-snoc spans s)

get_or-snoc :
    (spans : List Segment) (s : Segment) (i : ℕ)
    → i < length spans
    → get_or (spans ++ s ∷ []) i nowhere ≡ get_or spans i nowhere
get_or-snoc [] s i h = absurd (omega arith)
get_or-snoc (x ∷ spans) s zero h = refl
get_or-snoc (x ∷ spans) s (suc i) h = get_or-snoc spans s i (omega arith)

get_or-snoc_last :
    (spans : List Segment) (s : Segment) → get_or (spans ++ s ∷ []) (length spans) nowhere ≡ s
get_or-snoc_last [] s = refl
get_or-snoc_last (x ∷ spans) s = get_or-snoc_last spans s

put-total : (capacity : ℕ) (s : Segment) (o : Output) → (put capacity s o).total ≡ o.total + 1
unfolding put
put-total capacity s o = refl

put-Holds :
    (spans : List Segment) (capacity total : ℕ) (out : Option (List Segment)) (s : Segment)
    → total ≡ length spans
    → Holds spans capacity out
    → Holds (spans ++ s ∷ []) capacity (put capacity s (record { out = out; total = total })).out
unfolding put
put-Holds spans capacity total none s e h =
    if-intro (Holds (spans ++ s ∷ []) capacity) (ltb total capacity) none none tt tt
put-Holds spans capacity total (some cells) s e h = elim (dec_lt total capacity) [
  | yes p ↦ rw (ltb_of_lt p) (
    length-set cells total s ∙ h.0,
    λ i q r. elim (ℕ_discrete total i) [
      | yes same ↦ rw (sym same) (
          get_or-set_self cells total s nowhere (omega (arith, h.0))
          ∙ sym (ap (λ n. get_or (spans ++ s ∷ []) n nowhere) e ∙ get_or-snoc_last spans s))
      | no n ↦
          let below : i < length spans = omega (arith, length-snoc spans s) in
          get_or-set_ne cells total i s nowhere n
          ∙ h.1 i q below
          ∙ sym (get_or-snoc spans s i below)
    ],
  )
  | no p ↦ rw (ltb_of_le {a = total} {b = capacity} (omega arith)) (
    h.0,
    λ i q r.
        let below : i < length spans = omega arith in
        h.1 i q below ∙ sym (get_or-snoc spans s i below),
  )
]

append-snoc :
    (spans : List Segment) (s : Segment) (rest : List Segment)
    → (spans ++ s ∷ []) ++ rest ≡ spans ++ s ∷ rest
append-snoc [] s rest = refl
append-snoc (x ∷ spans) s rest = ap (◌∷◌ x) (append-snoc spans s rest)

-- An entry that the loop accepts adds its span, if it is to be loaded.
list_segment-IsListed :
    (size base capacity : ℕ) (spans : List Segment) (o : Output) (p : Option Program)
    → (list_segment size base capacity o p).0 ≡ ok
    → IsListed spans capacity o
    → (rest : List Segment)
    → (now : List Segment) × IsListed now capacity (list_segment size base capacity o p).1
      × (now ++ rest ≡ spans ++ loadable p rest)
unfolding list_segment
list_segment-IsListed size base capacity spans o none h l rest = absurd (cc h)
list_segment-IsListed size base capacity spans o (some p) h l rest =
    elim (Bool-cases (p.kind != elf32_program_load)) [
      | inl e ↦ rw e (spans, l, refl)
      | inr e ↦
          let refuse =
            not (range_fits size p.offset p.filesz)
            || ltb p.memsz p.filesz
            || ltb p.paddr base
            || ltb (2 ^ 32 - 1) (p.paddr + p.memsz) in
          elim (Bool-cases refuse) [
            | inl f ↦ absurd (cc (rw (e, f) at h))
            | inr f ↦
                let span : Segment = record { start = p.paddr; end = p.paddr + p.memsz } in
                let small : (p.paddr + p.memsz) % 2 ^ 32 ≡ p.paddr + p.memsz = ground arith in
                rw (e, f, small)
                  (
                    spans ++ span ∷ [],
                    (
                      omega (arith, l.0, length-snoc spans span, put-total capacity span o),
                      put-Holds spans capacity o.total o.out span l.0 l.1,
                    ),
                    append-snoc spans span rest,
                  )
          ]
    ]

list_segments-IsListed :
    (image : List ℕ) (size base capacity phoff index left : ℕ) (spans : List Segment) (o : Output)
    → (list_segments image size base capacity phoff index left o).0 ≡ ok
    → IsListed spans capacity o
    → IsListed
        (spans ++ loadable_spans image size phoff index left)
        capacity
        (list_segments image size base capacity phoff index left o).1
unfolding list_segments
list_segments-IsListed image size base capacity phoff index zero spans o h l =
    rw (append-nil spans) l
list_segments-IsListed image size base capacity phoff index (suc left) spans o h l =
    let step = list_segment size base capacity o (read_program image size phoff index) in
    elim (Bool-cases (is_ok step.0)) [
      | inl e ↦
          let now =
            list_segment-IsListed size base capacity spans o (read_program image size phoff index)
              (is_ok→ok step.0 e) l (loadable_spans image size phoff (index + 1) left) in
          rw (e, sym now.2)
            (list_segments-IsListed image size base capacity phoff (index + 1) left now.0 step.1
              (rw e at h) now.1)
      | inr e ↦ absurd (refused step.0 e (rw e at h))
    ]

Holds-nothing :
    (out : Option (List Segment)) (capacity : ℕ)
    → ((cells : List Segment) → out ≡ some cells → length cells ≡ capacity)
    → Holds [] capacity out
Holds-nothing none capacity c = tt
Holds-nothing (some cells) capacity c = (c cells refl, λ i q r. absurd (omega arith))

list_supported-IsListed :
    (image : List ℕ) (size base : ℕ) (out : Option (List Segment)) (capacity count : ℕ) (h : Header)
    → ((cells : List Segment) → out ≡ some cells → length cells ≡ capacity)
    → (list_supported image size base out capacity count (some h)).0 ≡ ok
    → IsListed
        (loadable_spans image size h.phoff 0 h.phnum)
        capacity
        (list_supported image size base out capacity count (some h)).1
unfolding list_supported
list_supported-IsListed image size base out capacity count h c a =
    let start : Output = record { out = out; total = 0 } in
    let end = list_segments image size base capacity h.phoff 0 h.phnum start in
    elim (Bool-cases (is_ok end.0)) [
      | inl e ↦ rw e (
          list_segments-IsListed image size base capacity h.phoff 0 h.phnum [] start
            (is_ok→ok end.0 e) (refl, Holds-nothing out capacity c))
      | inr e ↦ absurd (refused end.0 e (rw e at a))
    ]

-- Where `yan_image_segments` returns OK, the count is that of the table's loadable entries, and
-- the array, of the given capacity where there is one, holds their spans in the table's order as
-- far as it has room, each end without a wrap-around.
pub segments-IsListed :
    (image : List ℕ) (size base : ℕ) (out : Option (List Segment)) (capacity count : ℕ) (h : Header)
    → ((cells : List Segment) → out ≡ some cells → length cells ≡ capacity)
    → header_is_supported image size ≡ some h
    → (segments image size base out capacity count).0 ≡ ok
    → IsListed
        (loadable_spans image size h.phoff 0 h.phnum)
        capacity
        (segments image size base out capacity count).1
unfolding segments
segments-IsListed image size base out capacity count h c r a =
    elim (Bool-cases (is_null out && capacity != 0)) [
      | inl e ↦ absurd (cc (rw e at a))
      | inr e ↦
          rw (e, r)
            (list_supported-IsListed image size base out capacity count h c (rw (e, r) at a))
    ]
