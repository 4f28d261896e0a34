-- ===== src/Buffer/Utf16.antt =====
-- buffer.js: `utf16leToBytes`, `ucs2Write` and `utf16leSlice`.
pub mod Laws
use winterjs.Common.{ℕ, zero, suc, ◌+◌, ◌-◌, ◌*◌, ◌/◌, ◌%◌, ltb, if◌then◌else◌}
use winterjs.Common.{List, [], ◌∷◌, length, Option}
use winterjs.Common.Int.{ℤ}
use winterjs.Buffer.Blit.{blit_buffer}
use winterjs.Buffer.Slice.{slice}

-- `utf16leToBytes`: the code units left, and `units`. `c >> 8` is `c / 256` on a code unit.
unfoldable pub utf16le_to_bytes : List ℕ → ℕ → List ℕ
utf16le_to_bytes [] units = []
utf16le_to_bytes (c ∷ str) units =
    let rest = utf16le_to_bytes str (units - 2) in
    if ltb units 2 then [] else (c % 256) ∷ (c / 256) ∷ rest

-- `ucs2Write` at an offset inside the buffer.
unfoldable pub ucs2_write : List ℕ → List ℕ → ℕ → ℕ → ℕ × List ℕ
unfolding utf16le_to_bytes blit_buffer
ucs2_write buf string offset len =
    blit_buffer (utf16le_to_bytes string (length buf - offset)) buf offset len

-- The loop of `utf16leSlice`, over the bytes not read yet.
abbrev pub utf16le_units : List ℕ → List ℕ
utf16le_units (lo ∷ hi ∷ bytes) = (lo + hi * 256) ∷ utf16le_units bytes
utf16le_units bytes = []

-- `utf16leSlice`
unfoldable pub utf16le_slice : List ℕ → ℤ → Option ℤ → List ℕ
unfolding slice
utf16le_slice buf start end = utf16le_units (slice buf start end)
