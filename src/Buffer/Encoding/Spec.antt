-- ===== src/Buffer/Encoding/Spec.antt =====
-- The bytes that a string stands for in each encoding, and the text of bytes, with no buffer, offset
-- or limit.
use winterjs.Common.{ℕ, List, length, map, bit_and, none}
use winterjs.Js.{Result, ok}
use winterjs.Base64.{from_byte_array}
use winterjs.Buffer.Blit.{ascii_to_bytes}
use winterjs.Buffer.Hex.{hex_codes}
use winterjs.Buffer.Hex.Laws.{hex_bytes}
use winterjs.Buffer.Utf8.{utf8_to_bytes, decode}
use winterjs.Buffer.Utf16.{utf16le_units}
use winterjs.Buffer.Utf16.Laws.{unit_bytes}
use winterjs.Buffer.Encoding.{Encoding, hex, utf8, ascii, latin1, base64, utf16le}
use winterjs.Buffer.Encoding.Clean.{base64_to_bytes}

abbrev pub bytes_of : Encoding → List ℕ → Result (List ℕ)
bytes_of hex string = ok (hex_bytes string)
bytes_of utf8 string = utf8_to_bytes string none
bytes_of ascii string = ok (ascii_to_bytes string)
bytes_of latin1 string = ok (ascii_to_bytes string)
bytes_of base64 string = base64_to_bytes string
bytes_of utf16le string = ok (unit_bytes string)

abbrev pub text_of : Encoding → List ℕ → List ℕ
text_of hex bytes = hex_codes bytes
text_of utf8 bytes = decode (length bytes) bytes
text_of ascii bytes = map (λ b. bit_and b 127) bytes
text_of latin1 bytes = bytes
text_of base64 bytes = from_byte_array bytes
text_of utf16le bytes = utf16le_units bytes
