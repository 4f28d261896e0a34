-- ===== src/Js/Int32.antt =====
-- Numbers as JavaScript converts them for its bit operators. A number is an integer here; an int32
-- is held as its bit pattern, below 2 ^ 32.
use winterjs.Common.{ℕ, zero, suc, ◌+◌, ◌-◌, ◌*◌, ◌/◌, ◌%◌, ◌^◌, ◌<◌, arith}
use winterjs.Common.{Option, none, some, ltb, if◌then◌else◌}
use winterjs.Common.Int.{ℤ, pos, negsuc}

-- `z mod 2 ^ w` for a negative `z` too: the pattern of the low `w` bits.
abbrev pub wrap : ℕ → ℤ → ℕ
wrap m (pos n) = n % m
wrap m (negsuc n) = m - 1 - n % m

-- `z >>> 0`
abbrev pub to_uint32 : ℤ → ℕ
to_uint32 = wrap (2 ^ 32)

-- The integer that a pattern of 32 bits stands for.
abbrev pub signed32 : ℕ → ℤ
signed32 w = if ltb w (2 ^ 31) then pos w else negsuc (2 ^ 32 - 1 - w)

-- `x << k` on patterns.
abbrev pub shl : ℕ → ℕ → ℕ
shl x k = x * 2 ^ k % 2 ^ 32

-- `x >>> k` on patterns.
abbrev pub shr : ℕ → ℕ → ℕ
shr x k = x / 2 ^ k

-- `x >> 8` on patterns: the sign bit is copied.
abbrev pub sar8 : ℕ → ℕ
sar8 x = if ltb x (2 ^ 31) then x / 2 ^ 8 else x / 2 ^ 8 + (2 ^ 32 - 2 ^ 24)

-- The integer part of `z / m`, cut towards 0.
abbrev pub trunc_div : ℤ → ℕ → ℤ
trunc_div (pos n) m = pos (n / m)
trunc_div (negsuc n) m = elim (suc n / m) [ zero ↦ pos 0 | suc q ↦ negsuc q ]

-- `z >> k` on a `BigInt`, which rounds down.
abbrev pub floor_div : ℤ → ℕ → ℤ
floor_div (pos n) m = pos (n / m)
floor_div (negsuc n) m = negsuc (n / m)

-- An array element as an operand of a bit operator, where undefined counts as 0.
abbrev pub word : Option ℕ → ℕ
word none = 0
word (some b) = b

-- `+` and `*` on numbers; `none` stands for undefined as an operand and for NaN as a result.
infixl 65 ◌+?◌
abbrev pub ◌+?◌ : Option ℕ → Option ℕ → Option ℕ
none +? b = none
some a +? none = none
some a +? some b = some (a + b)

infixl 70 ◌*?◌
abbrev pub ◌*?◌ : Option ℕ → ℕ → Option ℕ
none *? m = none
some a *? m = some (a * m)

pub wrap-lt : (m : ℕ) (z : ℤ) → 0 < m → wrap m z < m
wrap-lt m (pos n) h = grind arith
wrap-lt m (negsuc n) h = omega arith
