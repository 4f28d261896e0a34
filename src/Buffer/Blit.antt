-- ===== src/Buffer/Blit.antt =====
-- buffer.js: `blitBuffer`, and what it is used for with one byte for each character: `asciiToBytes`,
-- `asciiWrite`, `asciiSlice` and `latin1Slice`.
pub mod Laws
pub mod Latin
use winterjs.Common.{ℕ, zero, suc, ◌+◌, ◌-◌, ◌||◌, leb, if◌then◌else◌, bit_and, min}
use winterjs.Common.{List, length, get_elem?, map}
use winterjs.Js.{store}
use winterjs.Js.Int32.{word}
use winterjs.Buffer.Window.{window}

-- The loop: the rounds left, `i` and `dst`. It returns `i`.
unfoldable pub blit_loop : List ℕ → ℕ → ℕ → ℕ → List ℕ → ℕ × List ℕ
blit_loop src offset zero i dst = (i, dst)
blit_loop src offset (suc rounds) i dst =
    let rest =
      blit_loop src offset rounds (i + 1) (store dst (i + offset) (word (get_elem? src i))) in
    if leb (length dst) (i + offset) || leb (length src) i then (i, dst) else rest

-- `blitBuffer(src, dst, offset, length)`
unfoldable pub blit_buffer : List ℕ → List ℕ → ℕ → ℕ → ℕ × List ℕ
unfolding blit_loop
blit_buffer src dst offset len = blit_loop src offset len 0 dst

-- `asciiToBytes`
abbrev pub ascii_to_bytes : List ℕ → List ℕ
ascii_to_bytes = map (λ c. bit_and c 255)

-- `asciiWrite`
unfoldable pub ascii_write : List ℕ → List ℕ → ℕ → ℕ → ℕ × List ℕ
unfolding blit_buffer
ascii_write buf string offset len = blit_buffer (ascii_to_bytes string) buf offset len

-- `asciiSlice` and `latin1Slice`: the loops read the bytes from `start` to the end, one after another.
unfoldable pub ascii_slice : List ℕ → ℕ → ℕ → List ℕ
ascii_slice buf start end =
    map (λ b. bit_and b 127) (window buf start (min (length buf) end - start))

unfoldable pub latin1_slice : List ℕ → ℕ → ℕ → List ℕ
latin1_slice buf start end = window buf start (min (length buf) end - start)
