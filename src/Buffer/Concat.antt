-- ===== src/Buffer/Concat.antt =====
-- buffer.js: `createBuffer`, `assertSize`, `checked`, `allocUnsafe` and `Buffer.concat`.
-- The list holds buffers, so the type checks pass.
pub mod Overlay
pub mod Laws
use winterjs.Common.{
  ℕ, ◌+◌, ltb, leb, if◌then◌else◌, List, [], ◌∷◌, length, replicate, Option, none, some,
}
use winterjs.Common.Int.{ℤ, pos, negsuc, ltb_ℤ}
use winterjs.Js.{Result, ok, err, ◌>>=◌, ◌>>◌, throw_if, or_default, invalid_size, too_large}
use winterjs.Buffer.Window.{splice}
use winterjs.Buffer.Copy.{copy}

-- `K_MAX_LENGTH`
abbrev pub k_max_length : ℕ
k_max_length = 0x7fffffff

-- `assertSize` of a number.
unfoldable pub assert_size : ℤ → Result (Unit {0})
assert_size size = throw_if (ltb_ℤ size (pos 0)) invalid_size

-- `createBuffer`
unfoldable pub create_buffer : ℕ → Result (List ℕ)
create_buffer len = do throw_if (ltb k_max_length len) invalid_size; ok (replicate len 0)

-- `checked`; `| 0` leaves a length below 2 ^ 31 as it is.
unfoldable pub checked : ℕ → Result ℕ
checked len = do throw_if (leb k_max_length len) too_large; ok len

-- `allocUnsafe`
unfoldable pub alloc_unsafe : ℤ → Result (List ℕ)
unfolding assert_size checked create_buffer
alloc_unsafe (pos size) = assert_size (pos size) >> (checked size >>= create_buffer)
alloc_unsafe (negsuc n) = assert_size (negsuc n) >> create_buffer 0

-- The sum of the lengths.
abbrev pub total_length : List (List ℕ) → ℕ
total_length [] = 0
total_length (buf ∷ list) = length buf + total_length list

-- One buffer, put at `pos`.
unfoldable pub place : List ℕ → ℕ → List ℕ → Result (List ℕ)
place buf at buffer =
    if ltb (length buffer) (at + length buf)
    then (copy buf buffer (some (pos at)) none none >>= λ r. ok r.1)
    else ok (splice buffer at buf)

-- The second loop: the buffers left, `pos` and `buffer`.
unfoldable pub place_all : List (List ℕ) → ℕ → List ℕ → Result (List ℕ)
place_all [] at buffer = ok buffer
place_all (buf ∷ list) at buffer = place buf at buffer >>= place_all list (at + length buf)

-- `Buffer.concat`
unfoldable pub concat : List (List ℕ) → Option ℤ → Result (List ℕ)
unfolding create_buffer alloc_unsafe
concat [] len = create_buffer 0
concat (buf ∷ list) len =
    alloc_unsafe (or_default (pos (total_length (buf ∷ list))) len) >>= place_all (buf ∷ list) 0
