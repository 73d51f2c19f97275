-- ===== src/Tests/Loader.antt =====
-- The loader of src/image.c on an image with one segment and one symbol, `to`.
use yan_os.Base.{ℕ, ◌<◌, ◌≡◌, ◌≢◌, refl, sym, ◌∙◌, arith, List, [], ◌∷◌, ◌++◌, some, true}
use yan_os.Base.{Bool, ltb, ◌&&◌, zero, suc, Option, replicate, length, All, some-inj}
use yan_os.Status.{Status, ok, invalid_image}
use yan_os.Ram.{Ram, bytes}
use yan_os.Ram.Laws.{IsValid}
use yan_os.Ram.Bytes.{IsByte}
use yan_os.Image
use yan_os.Image.{Header, Program, byte, load_elf, header_is_supported, read_program}
use yan_os.Image.Symbol
use yan_os.Image.Symbol.{find_symbol}
use yan_os.Image.Segment.{IsElsewhere, IsCovering, segment_byte}
use yan_os.Image.Load.{loaded_byte, loaded_elsewhere, load_elf_refused}
use yan_os.Image.Reads.{load_elf_agree}
use yan_os.Image.Lookup.{find_symbol_ends}
use yan_os.Image.Spans
use yan_os.Image.Spans.{Segment, segments, segments-IsListed, IsListed, loadable_spans}

abbrev elf_header : List ℕ
elf_header =
    127 ∷ 69 ∷ 76 ∷ 70 ∷ 1 ∷ 1 ∷ 1 ∷ 0 ∷ 0 ∷ 0 ∷ 0 ∷ 0 ∷ 0 ∷ 0 ∷ 0 ∷ 0 ∷ 2 ∷ 0 ∷ 243 ∷ 0 ∷ 1 ∷ 0 ∷ 0
    ∷ 0 ∷ 0 ∷ 0 ∷ 0 ∷ 128 ∷ 52 ∷ 0 ∷ 0 ∷ 0 ∷ 108 ∷ 0 ∷ 0 ∷ 0 ∷ 0 ∷ 0 ∷ 0 ∷ 0 ∷ 52 ∷ 0 ∷ 32 ∷ 0 ∷ 1
    ∷ 0 ∷ 40 ∷ 0 ∷ 2 ∷ 0 ∷ 0 ∷ 0 ∷ []

abbrev program_header : List ℕ
program_header =
    1 ∷ 0 ∷ 0 ∷ 0 ∷ 84 ∷ 0 ∷ 0 ∷ 0 ∷ 0 ∷ 0 ∷ 0 ∷ 128 ∷ 0 ∷ 0 ∷ 0 ∷ 128 ∷ 4 ∷ 0 ∷ 0 ∷ 0 ∷ 8 ∷ 0 ∷ 0
    ∷ 0 ∷ 5 ∷ 0 ∷ 0 ∷ 0 ∷ 4 ∷ 0 ∷ 0 ∷ 0 ∷ []

abbrev contents : List ℕ
contents = 19 ∷ 0 ∷ 0 ∷ 7 ∷ []

abbrev symbols : List ℕ
symbols = 1 ∷ 0 ∷ 0 ∷ 0 ∷ 4 ∷ 0 ∷ 0 ∷ 128 ∷ 0 ∷ 0 ∷ 0 ∷ 0 ∷ 0 ∷ 0 ∷ 1 ∷ 0 ∷ []

abbrev names : List ℕ
names = 0 ∷ 116 ∷ 111 ∷ 0 ∷ []

abbrev section_headers : List ℕ
section_headers =
    0 ∷ 0 ∷ 0 ∷ 0 ∷ 2 ∷ 0 ∷ 0 ∷ 0 ∷ 0 ∷ 0 ∷ 0 ∷ 0 ∷ 0 ∷ 0 ∷ 0 ∷ 0 ∷ 88 ∷ 0 ∷ 0 ∷ 0 ∷ 16 ∷ 0 ∷ 0 ∷ 0
    ∷ 1 ∷ 0 ∷ 0 ∷ 0 ∷ 0 ∷ 0 ∷ 0 ∷ 0 ∷ 0 ∷ 0 ∷ 0 ∷ 0 ∷ 16 ∷ 0 ∷ 0 ∷ 0 ∷ 0 ∷ 0 ∷ 0 ∷ 0 ∷ 3 ∷ 0 ∷ 0 ∷ 0
    ∷ 0 ∷ 0 ∷ 0 ∷ 0 ∷ 0 ∷ 0 ∷ 0 ∷ 0 ∷ 104 ∷ 0 ∷ 0 ∷ 0 ∷ 4 ∷ 0 ∷ 0 ∷ 0 ∷ 0 ∷ 0 ∷ 0 ∷ 0 ∷ 0 ∷ 0 ∷ 0
    ∷ 0 ∷ 0 ∷ 0 ∷ 0 ∷ 0 ∷ 0 ∷ 0 ∷ 0 ∷ 0 ∷ []

abbrev elf : List ℕ
elf = elf_header ++ program_header ++ contents ++ symbols ++ names ++ section_headers

abbrev header : Header
header = record { entry = 0x8000_0000; phoff = 52; phnum = 1 }

abbrev program : Program
program = record { kind = 1; offset = 84; paddr = 0x8000_0000; filesz = 4; memsz = 8 }

abbrev blank : Ram
blank = record { storage = some (replicate 12 9); size = 12 }

supported : header_is_supported elf 188 ≡ some header
unfolding header_is_supported Image.same_bytes Image.read_u16 Image.read_u32 Image.range_fits
supported = refl

has_program : read_program elf 188 52 0 ≡ some program
unfolding read_program Image.read_u32 Image.range_fits
has_program = refl

loaded : load_elf blank 0x8000_0000 elf 188 5 ≡ (
  ok,
  record { storage = some (19 ∷ 0 ∷ 0 ∷ 7 ∷ 0 ∷ 0 ∷ 0 ∷ 0 ∷ 9 ∷ 9 ∷ 9 ∷ 9 ∷ []); size = 12 },
  0x8000_0000,
)
unfolding load_elf Image.load_supported Image.plan_segments Image.plan_segment Image.copy_segments
    Image.copy_segment Image.memcpy Image.memset header_is_supported Image.same_bytes Image.read_u16
    Image.read_u32 Image.range_fits read_program
loaded = refl

abbrev all_bytes : List ℕ → Bool
all_bytes [] = true
all_bytes (x ∷ xs) = ltb x 256 && all_bytes xs

all_bytes-All : (xs : List ℕ) → all_bytes xs ≡ true → All IsByte xs
all_bytes-All [] h = tt
all_bytes-All (x ∷ xs) h = (ground arith, all_bytes-All xs (ground arith))

abbrev of_bytes : All IsByte elf
of_bytes = all_bytes-All elf refl

abbrev whole : IsValid blank
whole = (refl, omega arith, all_bytes-All (replicate 12 9) refl)

accepted : (load_elf blank 0x8000_0000 elf 188 5).0 ≡ ok
accepted = rw loaded refl

loaded_byte_example :
    byte (bytes (load_elf blank 0x8000_0000 elf 188 5).1) 3 ≡ segment_byte 0x8000_0000 elf program 3
loaded_byte_example =
    loaded_byte blank 0x8000_0000 elf 188 5 header 3 whole of_bytes accepted supported 0 program
      (omega arith) has_program covering (λ l p q. absurd (omega arith))
  where
    covering : IsCovering 0x8000_0000 program 3
    covering = record { loads = refl; from = omega arith; below = omega arith }

away : (k : ℕ) → k < 1 → IsElsewhere 0x8000_0000 elf 188 52 9 k
away zero h p r c =
    let same : p ≡ program = some-inj (sym r ∙ has_program) in
    let below = rw same at c.below in absurd (omega (arith, below))
away (suc k) h p r c = absurd (omega arith)

loaded_elsewhere_example :
    byte (bytes (load_elf blank 0x8000_0000 elf 188 5).1) 9 ≡ byte (bytes blank) 9
loaded_elsewhere_example =
    loaded_elsewhere blank 0x8000_0000 elf 188 5 header 9 whole of_bytes accepted supported away

short : (load_elf blank 0x8000_0000 elf 20 5).0 ≡ invalid_image
unfolding load_elf Image.load_supported header_is_supported
short = refl

short_refused : (load_elf blank 0x8000_0000 elf 20 5).0 ≢ ok
short_refused h = cc (short, h)

load_elf_refused_example :
    load_elf blank 0x8000_0000 elf 20 5 ≡ ((load_elf blank 0x8000_0000 elf 20 5).0, blank, 5)
load_elf_refused_example = load_elf_refused blank 0x8000_0000 elf 20 5 short_refused

agree_append : (xs ys : List ℕ) (i : ℕ) → i < length xs → byte xs i ≡ byte (xs ++ ys) i
agree_append [] ys i h = absurd (omega arith)
agree_append (x ∷ xs) ys zero h = refl
agree_append (x ∷ xs) ys (suc i) h = agree_append xs ys i (omega arith)

load_elf_agree_example :
    load_elf blank 0x8000_0000 elf 188 5 ≡ load_elf blank 0x8000_0000 (elf ++ 1 ∷ []) 188 5
load_elf_agree_example =
    load_elf_agree elf (elf ++ 1 ∷ []) 188 (agree_append elf (1 ∷ [])) blank 0x8000_0000 5

find_symbol_ends_example :
    (r : Status × ℕ) × (find_symbol elf 188 (116 ∷ 111 ∷ []) 5 ≡ some r) × (r.0 ≢ ok → r.1 ≡ 5)
find_symbol_ends_example = find_symbol_ends elf 188 (116 ∷ 111 ∷ []) 5

found_symbol : find_symbol elf 188 (116 ∷ 111 ∷ []) 5 ≡ some (ok, 0x8000_0004)
unfolding find_symbol Symbol.find_in Symbol.scan_sections Symbol.search_section Symbol.search_table
    Symbol.read_table Symbol.read_sections Symbol.scan_symbols Symbol.read_symbol
    Symbol.match_symbol Symbol.name_matches Symbol.answer header_is_supported Image.same_bytes
    Image.read_u16 Image.read_u32 Image.range_fits
found_symbol = refl

abbrev room : Option (List Segment)
room = some (replicate 2 (record { start = 0; end = 0 }))

listed : (segments elf 188 0x8000_0000 room 2 9).0 ≡ ok
unfolding segments Spans.list_supported Spans.list_segments Spans.list_segment Spans.put
    header_is_supported Image.same_bytes Image.read_u16 Image.read_u32 Image.range_fits read_program
listed = refl

room_for : (cells : List Segment) → room ≡ some cells → length cells ≡ 2
room_for cells e = rw (sym (some-inj e)) refl

segments-IsListed_example :
    IsListed (loadable_spans elf 188 52 0 1) 2 (segments elf 188 0x8000_0000 room 2 9).1
segments-IsListed_example =
    segments-IsListed elf 188 0x8000_0000 room 2 9 header room_for supported listed
