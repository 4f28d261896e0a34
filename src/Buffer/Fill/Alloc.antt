-- ===== src/Buffer/Fill/Alloc.antt =====
-- `alloc` with a value to fill the buffer with.
use winterjs.Common.{ℕ, ◌-◌, ◌≡◌, List, ◌++◌, length, Option}
use winterjs.Js.{ok}
use winterjs.Buffer.Window.{splice}
use winterjs.Buffer.Fill.{FillValue, fill, encoding_args}
use winterjs.Buffer.Fill.Laws.{Repeats}
use winterjs.Buffer.Fill.Ranges.{encoding_arg}

-- `createBuffer(size).fill(fill, encoding)` fills the whole buffer.
Whole : (List ℕ → List ℕ) → List ℕ → List ℕ → FillValue → Option (List ℕ) → Type 0
Whole lower buf bytes value encoding =
    (ds : List ℕ) × (fill lower buf value (encoding_args (encoding_arg encoding))
      ≡ ok (splice buf 0 ds))
    × (length ds ≡ length buf - 0)
    × Repeats bytes 0 ds
