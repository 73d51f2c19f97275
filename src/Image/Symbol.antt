-- ===== src/Image/Symbol.antt =====
-- The symbol lookup of src/image.c. The loop over the symbols of a table runs on fuel; `none` is a
-- run that used it up.
use yan_os.Base.{ℕ, zero, suc, ◌+◌, ◌-◌, ◌*◌, ◌/◌, List, [], ◌∷◌, ◌++◌, Option, none, some, length}
use yan_os.Base.{Bool, not, ◌&&◌, ◌||◌, ◌==◌, ◌!=◌, ltb, leb, if◌then◌else◌, ◌>>=◌, guard}
use yan_os.Status.{Status, ok, invalid_image, unmapped}
use yan_os.Image.{range_fits, read_u16, read_u32, same_bytes, header_is_supported}

abbrev pub elf32_section_size : ℕ
elf32_section_size = 40

abbrev pub elf32_symbol_size : ℕ
elf32_symbol_size = 16

abbrev pub elf32_section_symtab : ℕ
elf32_section_symtab = 2

-- `name` is the bytes of the string before its NUL.
unfoldable pub name_matches : List ℕ → ℕ → ℕ → ℕ → ℕ → List ℕ → Bool
name_matches image size names_offset names_size name_offset name =
    let len = length name + 1 in
    if leb names_size name_offset || ltb (names_size - name_offset) len
    then Bool.false
    else range_fits size (names_offset + name_offset) len
      && same_bytes image (names_offset + name_offset) (name ++ 0 ∷ [])

-- How a loop body ends: with the address, with a malformed image, or with `continue`.
pub data Search : Type 0 where
  found : ℕ → Search
  broken absent : Search

pub record Symbol : Type 0 where
  pub name_offset : ℕ
  pub value : ℕ
  pub section : ℕ

unfoldable pub read_symbol : List ℕ → ℕ → ℕ → Option Symbol
read_symbol image size symbol = do
  name_offset ← read_u32 image size symbol
  value ← read_u32 image size (symbol + 4)
  section ← read_u16 image size (symbol + 14)
  some (record { name_offset = name_offset; value = value; section = section })

unfoldable pub match_symbol : List ℕ → ℕ → ℕ → ℕ → List ℕ → Option Symbol → Search
match_symbol image size names_offset names_size name none = broken
match_symbol image size names_offset names_size name (some s) =
    if s.section == 0 || not (name_matches image size names_offset names_size s.name_offset name)
    then absent
    else found s.value

-- `continue`, or leave the loop.
abbrev pub go_on : Search → Option Search → Option Search
go_on (found v) rest = some (found v)
go_on broken rest = some broken
go_on absent rest = rest

-- The loop over the symbols; `limit` is the end of the table.
unfoldable pub scan_symbols : ℕ → List ℕ → ℕ → ℕ → ℕ → List ℕ → ℕ → ℕ → Option Search
scan_symbols zero image size names_offset names_size name limit symbol = none
scan_symbols (suc fuel) image size names_offset names_size name limit symbol =
    let rest =
      scan_symbols fuel image size names_offset names_size name limit
        (symbol + elf32_symbol_size) in
    if leb (symbol + elf32_symbol_size) limit
    then go_on
        (match_symbol image size names_offset names_size name (read_symbol image size symbol)) rest
    else some absent

-- A symbol table: where its symbols are and where their names are.
pub record Table : Type 0 where
  pub offset : ℕ
  pub len : ℕ
  pub names_offset : ℕ
  pub names_size : ℕ

-- The fields of the section header at `at`, which is a symbol table's.
unfoldable pub read_table : List ℕ → ℕ → ℕ → ℕ → ℕ → Option Table
read_table image size shoff shnum at = do
  offset ← read_u32 image size (at + 16)
  len ← read_u32 image size (at + 20)
  link ← read_u32 image size (at + 24)
  entsize ← read_u32 image size (at + 36)
  sound ←
      guard
        (not (entsize != elf32_symbol_size || leb shnum link || not (range_fits size offset len)))
  names_offset ← read_u32 image size (shoff + link * elf32_section_size + 16)
  names_size ← read_u32 image size (shoff + link * elf32_section_size + 20)
  some record { offset = offset; len = len; names_offset = names_offset; names_size = names_size }

unfoldable pub search_table : List ℕ → ℕ → List ℕ → Option Table → Option Search
search_table image size name none = some broken
search_table image size name (some t) =
    scan_symbols (t.len / elf32_symbol_size + 1) image size t.names_offset t.names_size name
      (t.offset + t.len) t.offset

unfoldable pub search_section : List ℕ → ℕ → ℕ → ℕ → ℕ → List ℕ → Option ℕ → Option Search
search_section image size shoff shnum at name none = some broken
search_section image size shoff shnum at name (some kind) =
    if kind != elf32_section_symtab
    then some absent
    else search_table image size name (read_table image size shoff shnum at)

-- The loop over the sections from `index`, with `left` sections to go.
unfoldable pub scan_sections : List ℕ → ℕ → ℕ → ℕ → List ℕ → ℕ → ℕ → Option Search
scan_sections image size shoff shnum name index zero = some absent
scan_sections image size shoff shnum name index (suc left) =
    let at = shoff + index * elf32_section_size in
    do
      result ← search_section image size shoff shnum at name (read_u32 image size (at + 4))
      go_on result (scan_sections image size shoff shnum name (index + 1) left)

pub record Sections : Type 0 where
  pub shoff : ℕ
  pub shnum : ℕ

unfoldable pub read_sections : List ℕ → ℕ → Option Sections
read_sections image size = do
  header ← header_is_supported image size
  shoff ← read_u32 image size 32
  shentsize ← read_u16 image size 46
  entries ← guard (shentsize == elf32_section_size)
  shnum ← read_u16 image size 48
  fits ← guard (range_fits size shoff (shnum * elf32_section_size))
  some (record { shoff = shoff; shnum = shnum })

-- The value returned and what `*address`, which held `address`, holds.
unfoldable pub answer : ℕ → Search → Status × ℕ
answer address (found v) = (ok, v)
answer address broken = (invalid_image, address)
answer address absent = (unmapped, address)

unfoldable pub find_in : List ℕ → ℕ → List ℕ → Option Sections → Option Search
find_in image size name none = some broken
find_in image size name (some s) = scan_sections image size s.shoff s.shnum name 0 s.shnum

unfoldable pub find_symbol : List ℕ → ℕ → List ℕ → ℕ → Option (Status × ℕ)
find_symbol image size name address = do
  result ← find_in image size name (read_sections image size)
  some (answer address result)
