-- ===== src/Buffer/Blit/Latin.antt =====
-- `asciiWrite` followed by `latin1Slice` and by `asciiSlice`.
use winterjs.Common.{ℕ, ◌+◌, ◌-◌, ◌<◌, ◌≤◌, ◌≡◌, refl, ap₂, ◌∙◌, arith, min, bit_and}
use winterjs.Common.{take_all, List, [], ◌∷◌, All, length, map}
use winterjs.Common.Bits.{bit_and-mod}
use winterjs.Js.{IsBytes}
use winterjs.Buffer.Window.{window, splice, window-splice, length-splice}
use winterjs.Buffer.Blit.{ascii_to_bytes, ascii_write, ascii_slice, latin1_slice}
use winterjs.Buffer.Blit.Laws.{blit_buffer-splice, blit_count}

pub ascii_to_bytes-IsBytes : (string : List ℕ) → IsBytes (ascii_to_bytes string)
ascii_to_bytes-IsBytes [] = tt
ascii_to_bytes-IsBytes (c ∷ string) =
    (omega (arith, bit_and-mod 8 c), ascii_to_bytes-IsBytes string)

-- A mask that leaves numbers below a bound alone.
pub map-mask :
    (bound mask : ℕ)
    → ((c : ℕ) → c < bound → bit_and c mask ≡ c)
    → (xs : List ℕ) → All (λ c. c < bound) xs
    → map (λ c. bit_and c mask) xs ≡ xs
map-mask bound mask fits [] h = refl
map-mask bound mask fits (c ∷ xs) (hc, h) = ap₂ ◌∷◌ (fits c hc) (map-mask bound mask fits xs h)

pub ascii_to_bytes-of : (string : List ℕ) → IsBytes string → ascii_to_bytes string ≡ string
ascii_to_bytes-of string h = map-mask 256 255 (λ c hc. omega (arith, bit_and-mod 8 c)) string h

-- A string of bytes that fits is written whole.
ascii_write-splice :
    (buf string : List ℕ) (offset : ℕ)
    → IsBytes string
    → offset + length string ≤ length buf
    → ascii_write buf string offset (length string) ≡ (length string, splice buf offset string)
unfolding ascii_write
ascii_write-splice buf string offset h room = rw (ascii_to_bytes-of string h) (
    blit_buffer-splice string buf offset (length string) h (omega arith)
    ∙ ap₂ (λ a b. (a, splice buf offset b)) (omega arith)
        (take_all (blit_count string buf offset (length string)) string (omega arith)))

window_all :
    (buf string : List ℕ) (offset : ℕ)
    → offset + length string ≤ length buf
    → window
        (splice buf offset string)
        offset
        (min (length (splice buf offset string)) (offset + length string) - offset)
      ≡ string
window_all buf string offset room =
    let e : min (length (splice buf offset string)) (offset + length string) - offset
        ≡ length string =
      omega (arith, length-splice buf offset string room) in
    rw e (window-splice buf offset string room)

-- A string of code units below 256 that fits is written whole by `asciiWrite`, as its count says, and
-- `latin1Slice` reads it back.
pub latin1_slice-ascii_write :
    (buf string : List ℕ) (offset : ℕ)
    → IsBytes string
    → offset + length string ≤ length buf
    → ((ascii_write buf string offset (length string)).0 ≡ length string)
      × (latin1_slice
            ((ascii_write buf string offset (length string)).1)
            offset
            (offset + length string)
          ≡ string)
unfolding latin1_slice
latin1_slice-ascii_write buf string offset h room =
    rw (ascii_write-splice buf string offset h room) (refl, window_all buf string offset room)

-- `asciiSlice` reads back what `asciiWrite` has written of a string of code units below 128 that
-- fits.
pub ascii_slice-ascii_write :
    (buf string : List ℕ) (offset : ℕ)
    → All (λ c. c < 128) string
    → IsBytes string
    → offset + length string ≤ length buf
    → ascii_slice
        ((ascii_write buf string offset (length string)).1)
        offset
        (offset + length string)
      ≡ string
unfolding ascii_slice
ascii_slice-ascii_write buf string offset h hb room =
    rw (ascii_write-splice buf string offset hb room, window_all buf string offset room)
      (map-mask 128 127 (λ c hc. omega (arith, bit_and-mod 7 c)) string h)
