-- ===== src/Line/Grammar.antt =====
-- The grammar of lines in os/line.h, on the bytes that are typed alone: no buffer, no length, no
-- interrupt, no wait and no echo.
use yan_os.Base.{ℕ, List, [], ◌∷◌, Option, none, some, Bool, false, ◌&&◌, ◌||◌, ◌==◌}
use yan_os.Base.{ltb, leb, if◌then◌else◌, length}
use yan_os.Line.{LineResult, line_ok, too_long, invalid_input, cr, lf, bs, del, line_max, is_eol}

-- The line so far, its last byte first, or why it is refused.
pub data Draft : Type 0 where
  accepted : List ℕ → Draft
  refused : LineResult → Draft

-- A byte finishes the line, or the draft goes on; `swallow` is whether an LF is dropped next.
pub data Fed : Type 0 where
  done : LineResult → List ℕ → Bool → Fed
  more : Bool → Draft → Fed

abbrev pub drop_last : List ℕ → List ℕ
drop_last [] = []
drop_last (b ∷ rest) = rest

abbrev pub edit : List ℕ → ℕ → Fed
edit text byte =
    if is_eol byte
    then done line_ok text (byte == cr)
    else if byte == bs || byte == del
    then more false (accepted (drop_last text))
    else if ltb byte 0x20
    then more false (refused invalid_input)
    else if leb line_max (length text)
    then more false (refused too_long)
    else more false (accepted (byte ∷ text))

abbrev pub feed : Bool → Draft → ℕ → Fed
feed swallow (refused reason) byte =
    if is_eol byte then done reason [] (byte == cr) else more swallow (refused reason)
feed swallow (accepted text) byte =
    if swallow && byte == lf then more false (accepted text) else edit text byte

-- The first line of the bytes: the result, the text with its last byte first, and whether an LF
-- is dropped at the start of the next line. `none` where the bytes end before the line does.
abbrev pub parse : Bool → Draft → List ℕ → Option (LineResult × List ℕ × Bool)
parse swallow draft [] = none
parse swallow draft (byte ∷ bytes) = elim (feed swallow draft byte) [
  | done result text swallow' ↦ some (result, text, swallow')
  | more swallow' draft' ↦ parse swallow' draft' bytes
]
