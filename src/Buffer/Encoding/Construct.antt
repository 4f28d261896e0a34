-- ===== src/Buffer/Encoding/Construct.antt =====
-- buffer.js: `byteLength` of a string, and `fromString`.
pub mod Laws
pub mod Faithful
pub mod Bounds
pub mod RoundTrip
use winterjs.Common.{
  ℕ, ◌*◌, ◌/◌, Bool, false, ◌&&◌, not, ◌==◌, if◌then◌else◌, List, length, Option, none, some,
}
use winterjs.Common.Int.{ℤ, pos, negsuc}
use winterjs.Js.{Result, ok, err, ◌>>=◌, ◌>>◌, throw_if, unknown_encoding, invalid_array_length}
use winterjs.Buffer.Slice.{to_int32, slice}
use winterjs.Buffer.Copy.{eq_ℤ}
use winterjs.Buffer.Concat.{create_buffer}
use winterjs.Buffer.Utf8.{utf8_to_bytes}
use winterjs.Buffer.Encoding.{
  Encoding, hex, utf8, ascii, latin1, base64, utf16le, select, is_encoding, or_utf8,
}
use winterjs.Buffer.Encoding.Clean.{base64_to_bytes}
use winterjs.Buffer.Encoding.Write.{with_encoding, write}

-- The cases of the switch of `byteLength`, of which `none` is the last default.
unfoldable pub length_as : Bool → List ℕ → Option Encoding → Result ℤ
unfolding base64_to_bytes
length_as must_match string none =
    if must_match
    then ok (negsuc 0)
    else (utf8_to_bytes string none >>= λ bytes. ok (pos (length bytes)))
length_as must_match string (some hex) = ok (pos (length string / 2))
length_as must_match string (some utf8) =
    utf8_to_bytes string none >>= λ bytes. ok (pos (length bytes))
length_as must_match string (some ascii) = ok (pos (length string))
length_as must_match string (some latin1) = ok (pos (length string))
length_as must_match string (some base64) =
    base64_to_bytes string >>= λ bytes. ok (pos (length bytes))
length_as must_match string (some utf16le) = ok (pos (length string * 2))

-- `byteLength` of a string; `must_match` says that the third argument is `true`.
unfoldable pub string_byte_length : (List ℕ → List ℕ) → Bool → List ℕ → List ℕ → Result ℤ
unfolding length_as
string_byte_length lower must_match string encoding =
    if not must_match && (length string == 0)
    then ok (pos 0)
    else length_as must_match string (select lower encoding)

-- `createBuffer` of a number that may be negative, where `new Uint8Array` throws.
abbrev pub create_signed : ℤ → Result (List ℕ)
create_signed (pos n) = create_buffer n
create_signed (negsuc n) = err invalid_array_length

-- `if (actual !== length) buf = buf.slice(0, actual)`
abbrev pub cut_to : ℤ → ℕ × List ℕ → List ℕ
cut_to len (actual, buf) =
    if eq_ℤ (pos actual) len then buf else slice buf (pos 0) (some (pos actual))

-- `fromString`; `none` stands for an encoding that is not a string.
unfoldable pub from_string : (List ℕ → List ℕ) → List ℕ → Option (List ℕ) → Result (List ℕ)
unfolding is_encoding string_byte_length write
from_string lower string encoding = do
  let name = or_utf8 encoding
  throw_if (not (is_encoding lower name)) unknown_encoding
  len ← string_byte_length lower false string name
  buf ← create_signed (to_int32 len)
  written ← write lower buf string (with_encoding name)
  ok (cut_to (to_int32 len) written)
