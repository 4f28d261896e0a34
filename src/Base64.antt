-- ===== src/Base64.antt =====
-- src/builtins/internal_js_modules/__winterjs_internal/base64-js.js: the encoder and the decoder.
-- Strings are lists of UTF-16 code units, arrays are lists of bytes. A loop that walks an array by
-- an index recurs on the rounds left, over the part of the array from that index on.
pub mod Table
pub mod Decode
pub mod RoundTrip
pub mod Encode
mod Runs
use winterjs.Common.{ℕ, zero, suc, ◌+◌, ◌-◌, ◌*◌, ◌/◌, ◌%◌, ◌^◌, min, bit_and, bit_or}
use winterjs.Common.{ltb, ◌==◌, if◌then◌else◌, Option, none, some}
use winterjs.Common.{List, [], ◌∷◌, ◌++◌, length, get_elem?, take, drop, replicate}
use winterjs.Common.Int.{ℤ, sub_ℕ}
use winterjs.Js.{
  Result, ok, err, ◌>>=◌, ◌>>◌, throw_if, store, invalid_length, invalid_array_length,
}
use Prim.Native.Char.{code}
use Prim.Native.String.{String}

abbrev pub codes : String → List ℕ
codes String.[] = []
codes (String.◌∷◌ c s) = code c ∷ codes s

-- `code`, the alphabet, which is also the table `lookup`.
abbrev pub alphabet : List ℕ
alphabet = codes "ABCDEFGHIJKLMNOPQRSTUVWXYZabcdefghijklmnopqrstuvwxyz0123456789+/"

-- `lookup[i]`, used by the source at `i` below 64 only.
unfoldable pub lookup : ℕ → ℕ
lookup i = elim (get_elem? alphabet i) [ none ↦ 0 | some c ↦ c ]

index_from : ℕ → List ℕ → ℕ → Option ℕ
index_from i [] c = none
index_from i (x ∷ xs) c = if x == c then some i else index_from (i + 1) xs c

-- `revLookup[c]`: the position in the alphabet, with `-` and `_` as 62 and 63; `none` is undefined.
unfoldable pub rev_lookup : ℕ → Option ℕ
unfolding index_from
rev_lookup c = if c == b'-' then some 62 else if c == b'_' then some 63 else index_from 0 alphabet c

-- `revLookup[b64.charCodeAt(j)]` as an operand of `<<` or `>>`, where undefined counts as 0.
unfoldable pub sextet : List ℕ → ℕ → ℕ
unfolding rev_lookup
sextet b64 j = elim (get_elem? b64 j) [
  | none ↦ 0
  | some c ↦ elim (rev_lookup c) [ none ↦ 0 | some v ↦ v ]
]

-- `b64.indexOf('=')`, or the length when there is none.
unfoldable pub index_of_pad : List ℕ → ℕ
index_of_pad [] = 0
index_of_pad (c ∷ cs) = if c == b'=' then 0 else suc (index_of_pad cs)

-- `getLens`: the valid length and the number of place holders.
unfoldable pub get_lens : List ℕ → Result (ℕ × ℕ)
unfolding index_of_pad
get_lens b64 = do
  let len = length b64
  throw_if (ltb 0 (len % 4)) invalid_length
  let valid_len = index_of_pad b64
  ok (valid_len, if valid_len == len then 0 else 4 - valid_len % 4)

-- `byteLength`
unfoldable pub byte_length : List ℕ → Result ℤ
unfolding get_lens
byte_length b64 = do
  (valid_len, place_holders) ← get_lens b64
  ok (sub_ℕ ((valid_len + place_holders) * 3 / 4) place_holders)

-- The 24 bits of four characters from index `j` on.
abbrev quantum : List ℕ → ℕ
quantum b64 =
    bit_or (bit_or (bit_or (sextet b64 0 * 2 ^ 18) (sextet b64 1 * 2 ^ 12)) (sextet b64 2 * 2 ^ 6))
      (sextet b64 3)

-- `for (i = 0; i < len; i += 4)`: the rounds left, the string from `i` on, `curByte` and `arr`.
unfoldable pub decode_loop : ℕ → List ℕ → ℕ → List ℕ → List ℕ × ℕ × List ℕ
unfolding sextet
decode_loop zero b64 cur arr = (b64, cur, arr)
decode_loop (suc rounds) b64 cur arr =
    let tmp = quantum b64 in
    let arr1 = store arr cur (bit_and (tmp / 2 ^ 16) 0xff) in
    let arr2 = store arr1 (cur + 1) (bit_and (tmp / 2 ^ 8) 0xff) in
    let arr3 = store arr2 (cur + 2) (bit_and tmp 0xff) in
    decode_loop rounds (drop 4 b64) (cur + 3) arr3

-- The two tests on `placeHoldersLen` behind the loop.
unfoldable pub decode_tail : ℕ → List ℕ × ℕ × List ℕ → List ℕ
unfolding sextet
decode_tail place_holders (b64, cur, arr) =
    if place_holders == 2
    then store arr cur (bit_and (bit_or (sextet b64 0 * 2 ^ 2) (sextet b64 1 / 2 ^ 4)) 0xff)
    else if place_holders == 1
    then (let tmp =
          bit_or (bit_or (sextet b64 0 * 2 ^ 10) (sextet b64 1 * 2 ^ 4)) (sextet b64 2 / 2 ^ 2) in
        store (store arr cur (bit_and (tmp / 2 ^ 8) 0xff)) (cur + 1) (bit_and tmp 0xff))
    else arr

-- `toByteArray`. `new Uint8Array` throws at a negative length; `validLen - 4` is cut at 0, where
-- the loop makes no round either way.
unfoldable pub to_byte_array : List ℕ → Result (List ℕ)
unfolding get_lens decode_loop decode_tail
to_byte_array b64 = do
  (valid_len, place_holders) ← get_lens b64
  let whole = (valid_len + place_holders) * 3 / 4
  throw_if (ltb whole place_holders) invalid_array_length
  let len = if ltb 0 place_holders then valid_len - 4 else valid_len
  ok (
      decode_tail place_holders
        (decode_loop ((len + 3) / 4) b64 0 (replicate (whole - place_holders) 0)))

-- `tripletToBase64`
unfoldable pub triplet_to_base64 : ℕ → List ℕ
unfolding lookup
triplet_to_base64 num =
    lookup (bit_and (num / 2 ^ 18) 0x3f)
    ∷ lookup (bit_and (num / 2 ^ 12) 0x3f)
    ∷ lookup (bit_and (num / 2 ^ 6) 0x3f)
    ∷ lookup (bit_and num 0x3f)
    ∷ []

-- `uint8[i]` as an operand of `<<` or `&`, where undefined counts as 0.
abbrev byte_at : List ℕ → ℕ → ℕ
byte_at xs i = elim (get_elem? xs i) [ none ↦ 0 | some b ↦ b ]

-- The 24 bits of three bytes.
abbrev pub chunk_bits : List ℕ → ℕ
chunk_bits uint8 =
    bit_and (byte_at uint8 0 * 2 ^ 16) 0xff0000
    + bit_and (byte_at uint8 1 * 2 ^ 8) 0xff00
    + bit_and (byte_at uint8 2) 0xff

-- `encodeChunk(uint8, start, end)`: the rounds left, and the array from `i` on.
unfoldable pub encode_chunk : ℕ → List ℕ → List ℕ
unfolding triplet_to_base64
encode_chunk zero uint8 = []
encode_chunk (suc rounds) uint8 =
    triplet_to_base64 (chunk_bits uint8) ++ encode_chunk rounds (drop 3 uint8)

-- `for (i = 0; i < len2; i += maxChunkLength)`: the rounds left, the array from `i` on, and
-- `len2 - i`.
unfoldable pub encode_chunks : ℕ → ℕ → List ℕ → ℕ → List ℕ
unfolding encode_chunk
encode_chunks max_chunk_length zero uint8 left = []
encode_chunks max_chunk_length (suc rounds) uint8 left =
    encode_chunk ((min max_chunk_length left + 2) / 3) uint8
    ++ encode_chunks max_chunk_length rounds (drop max_chunk_length uint8) (left - max_chunk_length)

-- The last one or two bytes, padded.
unfoldable pub encode_tail : ℕ → List ℕ → List ℕ
unfolding lookup
encode_tail extra_bytes last =
    if extra_bytes == 1
    then (let tmp = byte_at last 0 in
        lookup (tmp / 2 ^ 2) ∷ lookup (bit_and (tmp * 2 ^ 4) 0x3f) ∷ b'=' ∷ b'=' ∷ [])
    else if extra_bytes == 2
    then (let tmp = byte_at last 0 * 2 ^ 8 + byte_at last 1 in
        lookup (tmp / 2 ^ 10)
        ∷ lookup (bit_and (tmp / 2 ^ 4) 0x3f)
        ∷ lookup (bit_and (tmp * 2 ^ 2) 0x3f)
        ∷ b'='
        ∷ [])
    else []

abbrev pub max_chunk : ℕ
max_chunk = 16383

-- `fromByteArray`
unfoldable pub from_byte_array : List ℕ → List ℕ
unfolding encode_chunks encode_tail
from_byte_array uint8 =
    let len = length uint8 in
    let extra_bytes = len % 3 in
    let len2 = len - extra_bytes in
    encode_chunks max_chunk ((len2 + (max_chunk - 1)) / max_chunk) uint8 len2
    ++ encode_tail extra_bytes (drop len2 uint8)
