-- ===== src/Image/Lookup.antt =====
-- Which bytes the symbol lookup of src/image.c reads, and that it ends.
use yan_os.Base.{ℕ, zero, suc, ◌+◌, ◌*◌, ◌/◌, ◌≤◌, ◌<◌, ◌≡◌, ◌≢◌, inl, inr, refl}
use yan_os.Base.{List, [], ◌∷◌, ◌++◌, Option, some, none, true, arith, length, Bool-cases}
use yan_os.Base.{◌!=◌, leb_of_le, leb_of_lt, if-intro}
use native.Mathlib.Decide.{dec_le}
use yan_os.Status.{Status, ok}
use yan_os.Image.{byte, range_fits, read_u32}
use yan_os.Image.Reads.{read_u16_agree, read_u32_agree, same_bytes_agree, header_agree}
use yan_os.Image.Symbol.{name_matches, Symbol, read_symbol, match_symbol, scan_symbols, go_on}
use yan_os.Image.Symbol.{read_table, Table, search_table, search_section, scan_sections, Search}
use yan_os.Image.Symbol.{
  read_sections, Sections, find_in, find_symbol, elf32_symbol_size, answer, elf32_section_size,
}
use yan_os.Image.Symbol.{elf32_section_symtab}

-- A loop that ends.
abbrev Ends : Option Search → Type 0
Ends run = (r : Search) × (run ≡ some r)

go_on-Ends : (s : Search) (rest : Option Search) → Ends rest → Ends (go_on s rest)
go_on-Ends (Search.found v) rest h = (Search.found v, refl)
go_on-Ends Search.broken rest h = (Search.broken, refl)
go_on-Ends Search.absent rest h = h

-- The loop over a table's symbols ends with fuel for each 16 bytes left and one round more.
scan_symbols-Ends :
    (fuel : ℕ) (image : List ℕ) (size names_offset names_size : ℕ) (name : List ℕ)
    (limit symbol : ℕ)
    → limit < symbol + 16 * (fuel + 1)
    → Ends (scan_symbols (suc fuel) image size names_offset names_size name limit symbol)
unfolding scan_symbols
scan_symbols-Ends zero image size names_offset names_size name limit symbol h =
    rw (leb_of_lt {a = symbol + elf32_symbol_size} {b = limit} (omega arith)) (Search.absent, refl)
scan_symbols-Ends (suc fuel) image size names_offset names_size name limit symbol h =
    elim (dec_le (symbol + 16) limit) [
      | yes p ↦ rw (leb_of_le {a = symbol + elf32_symbol_size} {b = limit} p) (
          go_on-Ends
            (match_symbol image size names_offset names_size name (read_symbol image size symbol))
            (scan_symbols (suc fuel) image size names_offset names_size name limit
              (symbol + elf32_symbol_size))
            (scan_symbols-Ends fuel image size names_offset names_size name limit
              (symbol + elf32_symbol_size) (omega arith)))
      | no p ↦
          rw (leb_of_lt {a = symbol + elf32_symbol_size} {b = limit} (omega arith))
            (Search.absent, refl)
    ]

search_table-Ends :
    (image : List ℕ) (size : ℕ) (name : List ℕ) (t : Option Table)
    → Ends (search_table image size name t)
unfolding search_table
search_table-Ends image size name none = (Search.broken, refl)
search_table-Ends image size name (some t) =
    let e : t.len / 16 + 1 ≡ suc (t.len / 16) = omega arith in
    rw e (
      scan_symbols-Ends (t.len / 16) image size t.names_offset t.names_size name (t.offset + t.len)
        t.offset (omega arith))

search_section-Ends :
    (image : List ℕ) (size shoff shnum at : ℕ) (name : List ℕ) (kind : Option ℕ)
    → Ends (search_section image size shoff shnum at name kind)
unfolding search_section
search_section-Ends image size shoff shnum at name none = (Search.broken, refl)
search_section-Ends image size shoff shnum at name (some kind) =
    if-intro Ends (kind != elf32_section_symtab) _ _ (Search.absent, refl)
      (search_table-Ends image size name (read_table image size shoff shnum at))

scan_sections-Ends :
    (image : List ℕ) (size shoff shnum : ℕ) (name : List ℕ) (index left : ℕ)
    → Ends (scan_sections image size shoff shnum name index left)
unfolding scan_sections
scan_sections-Ends image size shoff shnum name index zero = (Search.absent, refl)
scan_sections-Ends image size shoff shnum name index (suc left) =
    let at = shoff + index * elf32_section_size in
    let r = search_section-Ends image size shoff shnum at name (read_u32 image size (at + 4)) in
    rw r.1 (
      go_on-Ends r.0 (scan_sections image size shoff shnum name (index + 1) left)
        (scan_sections-Ends image size shoff shnum name (index + 1) left))

find_in-Ends :
    (image : List ℕ) (size : ℕ) (name : List ℕ) (s : Option Sections)
    → Ends (find_in image size name s)
unfolding find_in
find_in-Ends image size name none = (Search.broken, refl)
find_in-Ends image size name (some s) = scan_sections-Ends image size s.shoff s.shnum name 0 s.shnum

answer_kept :
    (address : ℕ) (r : Search) → (answer address r).0 ≢ ok → (answer address r).1 ≡ address
unfolding answer
answer_kept address (Search.found v) h = absurd (h refl)
answer_kept address Search.broken h = refl
answer_kept address Search.absent h = refl

-- The symbol lookup ends on every image, size and name, within the fuel that its loop over the
-- symbols gets, and keeps what the address pointer holds unless it returns OK.
pub find_symbol_ends :
    (image : List ℕ) (size : ℕ) (name : List ℕ) (address : ℕ)
    → (r : Status × ℕ) × (find_symbol image size name address ≡ some r) × (r.0 ≢ ok → r.1 ≡ address)
unfolding find_symbol
find_symbol_ends image size name address =
    let r = find_in-Ends image size name (read_sections image size) in
    (answer address r.0, rw r.1 refl, answer_kept address r.0)

length-terminated : (name : List ℕ) → length (name ++ 0 ∷ []) ≡ length name + 1
length-terminated [] = refl
length-terminated (x ∷ name) = omega (arith, length-terminated name)

fits_within : (size offset len : ℕ) → range_fits size offset len ≡ true → offset + len ≤ size
unfolding range_fits
fits_within size offset len h = ground arith

module _ (a b : List ℕ) (size : ℕ) (agree : (i : ℕ) → i < size → byte a i ≡ byte b i) where
  name_matches_agree :
      (names_offset names_size name_offset : ℕ) (name : List ℕ)
      → name_matches a size names_offset names_size name_offset name
        ≡ name_matches b size names_offset names_size name_offset name
  unfolding name_matches
  name_matches_agree names_offset names_size name_offset name =
      elim (Bool-cases (range_fits size (names_offset + name_offset) (length name + 1))) [
        | inl e ↦
            let within =
              same_bytes_agree a b size agree (names_offset + name_offset) (name ++ 0 ∷ []) (
                omega (
                  arith,
                  length-terminated name,
                  fits_within size (names_offset + name_offset) (length name + 1) e,
                )) in
            rw (e, within) refl
        | inr e ↦ rw e refl
      ]

  match_symbol_agree :
      (names_offset names_size : ℕ) (name : List ℕ) (s : Option Symbol)
      → match_symbol a size names_offset names_size name s
        ≡ match_symbol b size names_offset names_size name s
  unfolding match_symbol
  match_symbol_agree names_offset names_size name none = refl
  match_symbol_agree names_offset names_size name (some s) =
      rw (name_matches_agree names_offset names_size s.name_offset name) refl

  read_symbol_agree : (symbol : ℕ) → read_symbol a size symbol ≡ read_symbol b size symbol
  unfolding read_symbol
  read_symbol_agree symbol = simp (read_u32_agree a b size agree, read_u16_agree a b size agree)

  scan_symbols_agree :
      (fuel names_offset names_size : ℕ) (name : List ℕ) (limit symbol : ℕ)
      → scan_symbols fuel a size names_offset names_size name limit symbol
        ≡ scan_symbols fuel b size names_offset names_size name limit symbol
  unfolding scan_symbols
  scan_symbols_agree zero names_offset names_size name limit symbol = refl
  scan_symbols_agree (suc fuel) names_offset names_size name limit symbol =
      rw
        (
          read_symbol_agree symbol,
          match_symbol_agree names_offset names_size name (read_symbol b size symbol),
          scan_symbols_agree fuel names_offset names_size name limit (symbol + elf32_symbol_size),
        )
        refl

  read_table_agree :
      (shoff shnum at : ℕ) → read_table a size shoff shnum at ≡ read_table b size shoff shnum at
  unfolding read_table
  read_table_agree shoff shnum at = simp (read_u32_agree a b size agree)

  search_table_agree :
      (name : List ℕ) (t : Option Table) → search_table a size name t ≡ search_table b size name t
  unfolding search_table
  search_table_agree name none = refl
  search_table_agree name (some t) = scan_symbols_agree _ t.names_offset t.names_size name _ _

  search_section_agree :
      (shoff shnum at : ℕ) (name : List ℕ) (kind : Option ℕ)
      → search_section a size shoff shnum at name kind
        ≡ search_section b size shoff shnum at name kind
  unfolding search_section
  search_section_agree shoff shnum at name none = refl
  search_section_agree shoff shnum at name (some kind) =
      rw
        (
          read_table_agree shoff shnum at,
          search_table_agree name (read_table b size shoff shnum at),
        )
        refl

  scan_sections_agree :
      (shoff shnum : ℕ) (name : List ℕ) (index left : ℕ)
      → scan_sections a size shoff shnum name index left
        ≡ scan_sections b size shoff shnum name index left
  unfolding scan_sections
  scan_sections_agree shoff shnum name index zero = refl
  scan_sections_agree shoff shnum name index (suc left) =
      rw
        (
          read_u32_agree a b size agree (shoff + index * elf32_section_size + 4),
          search_section_agree shoff shnum (shoff + index * elf32_section_size) name
              (read_u32 b size (shoff + index * elf32_section_size + 4)),
          scan_sections_agree shoff shnum name (index + 1) left,
        )
        refl

  read_sections_agree : read_sections a size ≡ read_sections b size
  unfolding read_sections
  read_sections_agree =
      rw
        (
          header_agree a b size agree,
          read_u32_agree a b size agree 32,
          read_u16_agree a b size agree 46,
          read_u16_agree a b size agree 48,
        )
        refl

  find_in_agree :
      (name : List ℕ) (s : Option Sections) → find_in a size name s ≡ find_in b size name s
  unfolding find_in
  find_in_agree name none = refl
  find_in_agree name (some s) = scan_sections_agree s.shoff s.shnum name 0 s.shnum

  -- The symbol lookup reads no byte of the image at or past the size it is given: images that
  -- agree below the size have the same answer.
  pub find_symbol_agree :
      (name : List ℕ) (address : ℕ)
      → find_symbol a size name address ≡ find_symbol b size name address
  unfolding find_symbol
  find_symbol_agree name address =
      rw (read_sections_agree, find_in_agree name (read_sections b size)) refl
