-- ===== src/Status.antt =====
-- `YanStatus` of include/yan/status.h.
use yan_os.Base.{◌≡◌, ◌≢◌, ◌⊎◌, Bool, true, false, arith}

pub data Status : Type 0 where
  ok invalid_argument invalid_state out_of_memory invalid_width out_of_bounds : Status
  unaligned unmapped unsupported_instruction trap invalid_image unavailable : Status

-- `status == YAN_OK`
abbrev pub is_ok : Status → Bool
is_ok ok = true
is_ok _ = false

pub is_ok→ok : (s : Status) → is_ok s ≡ true → s ≡ ok
is_ok→ok s h = ground arith

-- Was a call accepted?
pub is_ok? : (s : Status) → (s ≡ ok) ⊎ (s ≢ ok)
is_ok? s = ground arith
