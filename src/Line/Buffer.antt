-- ===== src/Line/Buffer.antt =====
-- The buffer of os/line.c as the text that it holds.
use yan_os.Base.{ℕ, ◌+◌, ◌-◌, ◌≤◌, ◌<◌, ◌≡◌, refl, sym, ◌∙◌, List, [], ◌∷◌, arith}
use yan_os.Base.{length, get_or, set, length-set, get_or-set_self, get_or-set_ne}
use yan_os.Line.{buffer_size, line_max}
use yan_os.Line.Grammar.{drop_last}

-- The bytes stand at the front of the buffer; the text has its last byte first.
abbrev pub Stores : List ℕ → List ℕ → Type 0
Stores buffer [] = Unit {0}
Stores buffer (b ∷ rest) = (get_or buffer (length rest) 0 ≡ b) × Stores buffer rest

-- The buffer of `len` bytes and a NUL holds the text.
pub record Holds (buffer : List ℕ) (len : ℕ) (text : List ℕ) : Type 0 where
  pub sized : length buffer ≡ buffer_size
  pub counted : len ≡ length text
  pub fits : len ≤ line_max
  pub stored : Stores buffer text
  pub terminated : get_or buffer len 0 ≡ 0

-- A write behind the text.
stores-set :
    (buffer text : List ℕ) (i v : ℕ)
    → length text ≤ i
    → Stores buffer text
    → Stores (set buffer i v) text
stores-set buffer [] i v h s = tt
stores-set buffer (b ∷ rest) i v h s = (
  get_or-set_ne buffer i (length rest) v 0 (omega arith) ∙ s.0,
  stores-set buffer rest i v (omega arith) s.1,
)

pub Holds-nothing : (buffer : List ℕ) → length buffer ≡ buffer_size → Holds (set buffer 0 0) 0 []
Holds-nothing buffer h = record {
  sized = length-set buffer 0 0 ∙ h;
  counted = refl;
  fits = omega arith;
  stored = tt;
  terminated = get_or-set_self buffer 0 0 0 (omega arith);
}

pub Holds-delete :
    (buffer : List ℕ) (len : ℕ) (text : List ℕ)
    → 0 < len
    → Holds buffer len text
    → Holds (set buffer (len - 1) 0) (len - 1) (drop_last text)
Holds-delete buffer len [] h s = absurd (omega (arith, s.counted))
Holds-delete buffer len (b ∷ rest) h s = record {
  sized = length-set buffer (len - 1) 0 ∙ s.sized;
  counted = omega (arith, s.counted);
  fits = omega (arith, s.fits);
  stored = stores-set buffer rest (len - 1) 0 (omega (arith, s.counted)) s.stored.1;
  terminated = get_or-set_self buffer (len - 1) 0 0 (omega (arith, s.fits, s.sized));
}

pub Holds-store :
    (buffer : List ℕ) (len : ℕ) (text : List ℕ) (byte : ℕ)
    → len < line_max
    → Holds buffer len text
    → Holds (set (set buffer len byte) (len + 1) 0) (len + 1) (byte ∷ text)
Holds-store buffer len text byte h s =
    let written = set buffer len byte in
    let same = length-set buffer len byte in
    record {
      sized = length-set written (len + 1) 0 ∙ same ∙ s.sized;
      counted = omega (arith, s.counted);
      fits = omega arith;
      stored = (
        rw (sym s.counted) (
            get_or-set_ne written (len + 1) len 0 0 (omega arith)
            ∙ get_or-set_self buffer len byte 0 (omega (arith, s.sized))),
        stores-set written text (len + 1) 0 (omega (arith, s.counted))
            (stores-set buffer text len byte (omega (arith, s.counted)) s.stored),
      );
      terminated = get_or-set_self written (len + 1) 0 0 (omega (arith, same, s.sized));
    }

pub Holds-drop_none :
    (buffer : List ℕ) (len : ℕ) (text : List ℕ)
    → len ≡ 0
    → Holds buffer len text
    → Holds buffer len (drop_last text)
Holds-drop_none buffer len [] h s = s
Holds-drop_none buffer len (b ∷ rest) h s = absurd (omega (arith, s.counted))
