-- ===== src/Buffer/Encoding/Write.antt =====
-- buffer.js: `utf8Write` and `write`.
pub mod Laws
use winterjs.Common.{ℕ, ◌-◌, ltb, if◌then◌else◌, List, length, Option, none, some}
use winterjs.Common.Int.{ℤ}
use winterjs.Js.{Result, ok, err, ◌>>=◌, ◌>>◌, throw_if, no_longer_supported, outside_bounds}
use winterjs.Js.Int32.{to_uint32}
use winterjs.Base64.{codes}
use winterjs.Buffer.Blit.{blit_buffer, ascii_write}
use winterjs.Buffer.Hex.{hex_write}
use winterjs.Buffer.Utf8.{utf8_to_bytes}
use winterjs.Buffer.Utf16.{ucs2_write}
use winterjs.Buffer.Encoding.{
  Encoding, hex, utf8, ascii, latin1, base64, utf16le, select, known, or_utf8,
}
use winterjs.Buffer.Encoding.Clean.{base64_write}

-- `utf8Write`
unfoldable pub utf8_write : List ℕ → List ℕ → ℕ → ℕ → Result (ℕ × List ℕ)
unfolding blit_buffer
utf8_write buf string offset len = utf8_to_bytes string (some (length buf - offset)) >>= λ bytes.
    ok (blit_buffer bytes buf offset len)

-- The argument `length`: undefined, a number, or a string, with the finite number that the engine
-- reads it as, if it does: `isFinite(length)` converts it, so that an empty string is 0.
pub data LengthArg : Type 0 where
  no_length : LengthArg
  number : ℤ → LengthArg
  name : List ℕ → Option ℤ → LengthArg

-- The arguments behind the string: none, an encoding, an offset with what follows it, or an offset
-- that is not finite.
pub data WriteArgs : Type 0 where
  no_args : WriteArgs
  with_encoding : List ℕ → WriteArgs
  at_offset : ℤ → LengthArg → Option (List ℕ) → WriteArgs
  not_finite : WriteArgs

-- What the first part of `write` makes of its arguments: `offset`, `length` and `encoding`.
abbrev pub WriteRange : Type 0
WriteRange = ℕ × Option ℕ × Option (List ℕ)

unfoldable pub write_range : ℕ → WriteArgs → Result WriteRange
write_range len no_args = ok (0, some len, some (codes "utf8"))
write_range len (with_encoding encoding) = ok (0, some len, some encoding)
write_range len (at_offset offset (number n) none) =
    ok (to_uint32 offset, some (to_uint32 n), some (codes "utf8"))
write_range len (at_offset offset (number n) (some encoding)) =
    ok (to_uint32 offset, some (to_uint32 n), some encoding)
write_range len (at_offset offset no_length encoding) = ok (to_uint32 offset, none, none)
write_range len (at_offset offset (name s none) encoding) = ok (to_uint32 offset, none, some s)
write_range len (at_offset offset (name s (some n)) none) =
    ok (to_uint32 offset, some (to_uint32 n), some (codes "utf8"))
write_range len (at_offset offset (name s (some n)) (some encoding)) =
    ok (to_uint32 offset, some (to_uint32 n), some encoding)
write_range len not_finite = err no_longer_supported

-- The cases of the switch.
unfoldable pub write_as : Encoding → List ℕ → List ℕ → ℕ → ℕ → Result (ℕ × List ℕ)
unfolding hex_write utf8_write ascii_write base64_write ucs2_write
write_as hex buf string offset len = ok (hex_write buf string offset len)
write_as utf8 buf string offset len = utf8_write buf string offset len
write_as ascii buf string offset len = ok (ascii_write buf string offset len)
write_as latin1 buf string offset len = ok (ascii_write buf string offset len)
write_as base64 buf string offset len = base64_write buf string offset len
write_as utf16le buf string offset len = ok (ucs2_write buf string offset len)

-- `if (length === undefined || length > remaining) length = remaining`, at an offset inside.
abbrev pub clamp_length : ℕ → Option ℕ → ℕ
clamp_length remaining none = remaining
clamp_length remaining (some n) = if ltb remaining n then remaining else n

-- The rest of `write`. An offset past the end makes `remaining` negative and throws; else no
-- number is negative.
unfoldable pub write_at : (List ℕ → List ℕ) → List ℕ → List ℕ → WriteRange → Result (ℕ × List ℕ)
unfolding write_as
write_at lower buf string (offset, len, encoding) = do
  throw_if (ltb (length buf) offset) outside_bounds
  e ← known (select lower (or_utf8 encoding))
  write_as e buf string offset (clamp_length (length buf - offset) len)

-- `write`: the count that it returns, and the buffer.
unfoldable pub write : (List ℕ → List ℕ) → List ℕ → List ℕ → WriteArgs → Result (ℕ × List ℕ)
unfolding write_range write_at
write lower buf string args = write_range (length buf) args >>= write_at lower buf string
