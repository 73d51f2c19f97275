-- ===== src/Tests/Guest.antt =====
-- The sort, the arena and the line reader of os at concrete inputs.
use yan_os.Base.{◌%◌, ℕ, inl, ◌≡◌, refl, arith, List, [], ◌∷◌, some, true, false, ltb}
use yan_os.Base.{replicate}
use yan_os.Sort
use yan_os.Sort.Sift.{Gives, IsRearranged, IsOrder}
use yan_os.Sort.Sorted.{IsSorted, index_sorts}
use yan_os.Text
use yan_os.Text.{utf8_scalar, utf8_expected, utf8_valid}
use mathlib.Core.Logic.{◌↔◌}
use yan_os.Base.{Bool}
use yan_os.Text.Sound.{IsText, utf8_valid-IsText}
use yan_os.Text.Encode.{utf8_scalar-encode}
use yan_os.Memory
use yan_os.Memory.{Bytes, memmove}
use yan_os.Memory.Forward.{IsCopied}
use yan_os.Memory.Laws.{memmove-IsCopied}
use yan_os.Arena
use yan_os.Arena.{Arena, alloc}
use yan_os.Arena.Blocks.{AreOrdered, grants, grants-AreOrdered}
use yan_os.Line
use yan_os.Line.{Line, Round, typed, idle, next, LineResult, Call}
use yan_os.Line.Grammar.{parse, accepted}
use yan_os.Line.Refine.{Answers, bytes_of, next-Answers}
use yan_os.Line.Exit.{IsAnswer, next-IsAnswer}

ltb-IsOrder : IsOrder ltb
ltb-IsOrder = record { asymmetric = λ x y h. ground arith; transitive = λ x y z h k. ground arith }

sorted : Sort.index ltb (3 ∷ 1 ∷ 4 ∷ 1 ∷ 5 ∷ 9 ∷ []) 6 ≡ some (1 ∷ 1 ∷ 3 ∷ 4 ∷ 5 ∷ 9 ∷ [])
unfolding Sort.index Sort.build Sort.drain Sort.sift_down Sort.larger_child Sort.exchange
sorted = refl

index_sorts_example :
    Gives
      (λ r. IsSorted ltb ltb-IsOrder 4 r × IsRearranged 4 (3 ∷ 1 ∷ 4 ∷ 1 ∷ []) r)
      (Sort.index ltb (3 ∷ 1 ∷ 4 ∷ 1 ∷ []) 4)
index_sorts_example = index_sorts ltb ltb-IsOrder (3 ∷ 1 ∷ 4 ∷ 1 ∷ []) 4 (omega arith) (omega arith)

small : Arena
small = record { next = 0x8000_0005; end = 0x8000_0030 }

granted_blocks :
    grants 0xffff_ffff (record { next = 0x8000_0005; end = 0x8000_0030 }) (3 ∷ 64 ∷ 16 ∷ [])
    ≡ (0x8000_0010, 3) ∷ (0x8000_0020, 16) ∷ []
unfolding alloc Arena.place
granted_blocks = refl

grants-AreOrdered_example :
    AreOrdered 0x8000_0005 0x8000_0030
      (grants 0xffff_ffff (record { next = 0x8000_0005; end = 0x8000_0030 }) (3 ∷ 64 ∷ 16 ∷ []))
grants-AreOrdered_example =
    grants-AreOrdered 0xffff_ffff (record { next = 0x8000_0005; end = 0x8000_0030 })
      (3 ∷ 64 ∷ 16 ∷ []) (omega arith)

abbrev fresh_line : Line
fresh_line = record {
  initialized = true;
  busy = false;
  swallow_lf = true;
  len = 0;
  buffer = replicate 1024 0;
}

abbrev script : List Round
script =
    typed 0x0a []
    ∷ idle
    ∷ typed 0x68 []
    ∷ typed 0x6a []
    ∷ typed 0x08 []
    ∷ typed 0x69 []
    ∷ typed 0x0d []
    ∷ []

parsed : parse true (accepted []) (bytes_of script) ≡ some (Line.line_ok, 0x69 ∷ 0x68 ∷ [], true)
unfolding Line.is_eol
parsed = refl

next-Answers_example : Answers (parse true (accepted []) (bytes_of script)) (next fresh_line script)
next-Answers_example =
    next-Answers fresh_line script refl refl refl
      (refl, (tt, (refl, (refl, (refl, (refl, (refl, tt)))))))

abbrev refused_line : Line
refused_line = record fresh_line { swallow_lf = false }

abbrev refused_calls : List Call
refused_calls = Line.arm_rx false ∷ Line.put_byte 0x68 ∷ Line.arm_rx false ∷ Line.ack_rx ∷ []

refused_echo :
    next fresh_line (typed 0x68 (false ∷ []) ∷ [])
    ≡ some (Line.unavailable, refused_line, refused_calls)
unfolding next Line.opened Line.rounds Line.round Line.take_byte Line.edit_byte Line.store_byte
    Line.echoed Line.put_all Line.close Line.is_eol
refused_echo = refl

next-IsAnswer_example : IsAnswer (Line.unavailable, refused_line, refused_calls)
next-IsAnswer_example =
    next-IsAnswer fresh_line (typed 0x68 (false ∷ []) ∷ [])
      (Line.unavailable, refused_line, refused_calls) refl refl refl refused_echo

-- The euro sign, whole and cut off.
abbrev euro : List ℕ
euro = 0xe2 ∷ 0x82 ∷ 0xac ∷ []

euro_decodes : utf8_scalar euro 3 (some 7) ≡ (3, some 0x20ac)
unfolding utf8_scalar Text.scalar3 Text.continues
euro_decodes = refl

euro_cut : utf8_scalar euro 2 (some 7) ≡ (0, some 7)
unfolding utf8_scalar Text.scalar3 Text.continues
euro_cut = refl

euro_valid : utf8_valid (some euro) 3 ≡ some true
unfolding utf8_valid Text.valid_loop utf8_expected Text.checked Text.well_formed Text.second_out
    Text.continues
euro_valid = refl

folded : Text.ascii_fold 0x59 ≡ 0x79
unfolding Text.ascii_fold
folded = refl

underscore_is_a_word : Text.is_ascii_word 0x5f ≡ true
unfolding Text.is_ascii_word
underscore_is_a_word = refl

utf8_scalar-encode_example :
    utf8_scalar (0xe2 ∷ 0x82 ∷ 0xac ∷ 0x41 ∷ []) 4 (some 7) ≡ (3, some 0x20ac)
utf8_scalar-encode_example =
    utf8_scalar-encode 0x20ac (0x41 ∷ []) 4 (some 7) (inl (omega arith)) (omega arith)

abbrev text : List ℕ
text = 0x41 ∷ 0xe2 ∷ 0x82 ∷ 0xac ∷ []

utf8_valid-IsText_example :
    (b : Bool) × (utf8_valid (some text) 4 ≡ some b) × ((b ≡ true) ↔ IsText text)
utf8_valid-IsText_example = utf8_valid-IsText text (omega arith)

-- An encoded surrogate and an overlong form.
surrogate : utf8_valid (some (0xed ∷ 0xa0 ∷ 0x80 ∷ [])) 3 ≡ some false
unfolding utf8_valid Text.valid_loop utf8_expected Text.checked Text.well_formed Text.second_out
    Text.continues
surrogate = refl

overlong : utf8_valid (some (0xc1 ∷ 0x80 ∷ [])) 2 ≡ some false
unfolding utf8_valid Text.valid_loop utf8_expected
overlong = refl

-- A byte for each address.
abbrev stripes : Bytes
stripes x = x % 256

-- Ranges that overlap and are aligned alike.
moved_up : memmove stripes 0x1004 0x1000 43 0x1010 ≡ 0x0c
unfolding memmove Memory.copy_backward Memory.backward_head Memory.backward_blocks
    Memory.backward_words Memory.backward_singles Memory.backward_tail Memory.move_word Memory.put
    Memory.unaligned
moved_up = refl

moved_down : memmove stripes 0x1001 0x1005 44 0x1010 ≡ 0x14
unfolding memmove Memory.copy_forward Memory.forward_head Memory.forward_blocks Memory.forward_words
    Memory.forward_singles Memory.forward_tail Memory.move_word Memory.put Memory.unaligned
moved_down = refl

memmove-IsCopied_example : IsCopied 0x1004 0x1000 0 43 stripes (memmove stripes 0x1004 0x1000 43)
memmove-IsCopied_example = memmove-IsCopied stripes 0x1004 0x1000 43
