-- ===== src/Code/Marks.antt =====
-- The marks of a variable, `SymExpr::getmark` and its kin of src/expr.h: the bits of an `int`, as
-- the number from 0 to 2 ^ 32 - 1 with those bits.
pub mod Laws
use lfsc.Common.{ℕ, ◌+◌, ◌-◌, ◌/◌, ◌%◌, ◌^◌, Bool, ◌==◌, if◌then◌else◌}

-- `(m >> i) & 1`
unfoldable pub getmark : ℕ → ℕ → Bool
getmark m i = (m / 2 ^ i) % 2 == 1

-- `m | (1 << i)`
unfoldable pub setmark : ℕ → ℕ → ℕ
setmark m i = if getmark m i then m else m + 2 ^ i

-- `m & ~(1 << i)`
unfoldable pub clearmark : ℕ → ℕ → ℕ
clearmark m i = if getmark m i then m - 2 ^ i else m
