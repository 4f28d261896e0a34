-- ===== src/Buffer/Utf8.antt =====
-- buffer.js: `utf8ToBytes` and `utf8Slice`. A string is the list of its UTF-16 code units, so that
-- `decodeCodePointsArray`, which makes a string of units, is the identity.
pub mod Bytes
pub mod RoundTrip
pub mod Bounds
pub mod Total
use winterjs.Common.{
  ℕ, zero, suc, ◌+◌, ◌-◌, Bool, true, false, ◌&&◌, ◌||◌, ◌==◌, ltb, leb, min, bit_and, bit_or,
  if◌then◌else◌, List, [], ◌∷◌, ◌++◌, take, drop, length, Option, none, some,
}
use winterjs.Common.Int.{ℤ, pos, ◌-ℤ◌, ltb_ℤ}
use winterjs.Js.{Result, ok, err, ◌>>=◌, invalid_code_point}
use winterjs.Js.Int32.{shl, shr}

-- The bytes of a code point, `none` where it is invalid.
unfoldable pub code_point_bytes : ℕ → Option (List ℕ)
code_point_bytes c =
    if ltb c 0x80
    then some (c ∷ [])
    else if ltb c 0x800
    then some (bit_or (shr c 6) 0xC0 ∷ bit_or (bit_and c 0x3F) 0x80 ∷ [])
    else if ltb c 0x10000
    then some (
        bit_or (shr c 12) 0xE0
        ∷ bit_or (bit_and (shr c 6) 0x3F) 0x80
        ∷ bit_or (bit_and c 0x3F) 0x80
        ∷ [])
    else if ltb c 0x110000
    then some (
        bit_or (shr c 18) 0xF0
        ∷ bit_or (bit_and (shr c 12) 0x3F) 0x80
        ∷ bit_or (bit_and (shr c 6) 0x3F) 0x80
        ∷ bit_or (bit_and c 0x3F) 0x80
        ∷ [])
    else none

-- `units`: the bytes that may still be pushed, `none` for Infinity.
abbrev pub spend : ℕ → Option ℤ → Option ℤ
spend n none = none
spend n (some units) = some (units -ℤ pos n)

abbrev pub is_negative : Option ℤ → Bool
is_negative none = false
is_negative (some units) = ltb_ℤ units (pos 0)

-- The code after `// encode utf8`, and what follows it in the loop.
abbrev pub emit_bytes : Option (List ℕ) → Option ℤ → (Option ℤ → Result (List ℕ)) → Result (List ℕ)
emit_bytes none units next = err invalid_code_point
emit_bytes (some bytes) units next =
    if is_negative (spend (length bytes) units)
    then ok []
    else next (spend (length bytes) units) >>= λ more. ok (bytes ++ more)

-- `if ((units -= 3) > -1) bytes.push(0xEF, 0xBF, 0xBD)`
abbrev pub push_replacement : Option ℤ → (Option ℤ → Result (List ℕ)) → Result (List ℕ)
push_replacement units next = next (spend 3 units) >>= λ more.
    ok (if is_negative (spend 3 units) then more else 0xEF ∷ 0xBF ∷ 0xBD ∷ more)

abbrev pub is_surrogate : ℕ → Bool
is_surrogate c = ltb 0xD7FF c && ltb c 0xE000

abbrev pub is_empty : List ℕ → Bool
is_empty [] = true
is_empty (c ∷ rest) = false

-- `(leadSurrogate - 0xD800 << 10 | codePoint - 0xDC00) + 0x10000`
abbrev pub surrogate_pair : ℕ → ℕ → ℕ
surrogate_pair lead c = bit_or (shl (lead - 0xD800) 10) (c - 0xDC00) + 0x10000

-- The loop of `utf8ToBytes`: the code units left, `leadSurrogate` and `units`.
unfoldable pub encode : List ℕ → Option ℕ → Option ℤ → Result (List ℕ)
encode [] lead units = ok []
encode (c ∷ rest) none units =
    if is_surrogate c
    then if ltb 0xDBFF c || is_empty rest
      then push_replacement units (encode rest none)
      else encode rest (some c) units
    else emit_bytes (code_point_bytes c) units (encode rest none)
encode (c ∷ rest) (some lead) units =
    if is_surrogate c
    then if ltb c 0xDC00
      then push_replacement units (encode rest (some c))
      else emit_bytes (code_point_bytes (surrogate_pair lead c)) units (encode rest none)
    else push_replacement units (λ left. emit_bytes (code_point_bytes c) left (encode rest none))

-- `utf8ToBytes`; a limit that is missing or 0 is Infinity.
unfoldable pub utf8_to_bytes : List ℕ → Option ℕ → Result (List ℕ)
unfolding encode
utf8_to_bytes string none = encode string none none
utf8_to_bytes string (some zero) = encode string none none
utf8_to_bytes string (some (suc units)) = encode string none (some (pos (suc units)))

-- `(byte & 0xC0) === 0x80`
abbrev pub continues : ℕ → Bool
continues b = bit_and b 0xC0 == 0x80

abbrev pub bytes_per_sequence : ℕ → ℕ
bytes_per_sequence b =
    if ltb 0xEF b then 4 else if ltb 0xDF b then 3 else if ltb 0xBF b then 2 else 1

abbrev pub point_if : Bool → ℕ → Option ℕ
point_if valid point = if valid then some point else none

-- The cases of the switch: the first byte, and the bytes behind it up to the end.
abbrev pub point_two : ℕ → List ℕ → Option ℕ
point_two b [] = none
point_two b (c ∷ rest) =
    let point = bit_or (shl (bit_and b 0x1F) 6) (bit_and c 0x3F) in
    point_if (continues c && ltb 0x7F point) point

abbrev pub point_three : ℕ → List ℕ → Option ℕ
point_three b [] = none
point_three b (c ∷ []) = none
point_three b (c ∷ d ∷ rest) =
    let point =
      bit_or (bit_or (shl (bit_and b 0xF) 12) (shl (bit_and c 0x3F) 6)) (bit_and d 0x3F) in
    point_if
      (continues c && continues d && (ltb 0x7FF point && (ltb point 0xD800 || ltb 0xDFFF point)))
      point

abbrev pub point_four : ℕ → List ℕ → Option ℕ
point_four b [] = none
point_four b (c ∷ []) = none
point_four b (c ∷ d ∷ []) = none
point_four b (c ∷ d ∷ e ∷ rest) =
    let point =
      bit_or
        (bit_or (bit_or (shl (bit_and b 0xF) 18) (shl (bit_and c 0x3F) 12))
          (shl (bit_and d 0x3F) 6))
        (bit_and e 0x3F) in
    point_if (continues c && continues d && continues e && (ltb 0xFFFF point && ltb point 0x110000))
      point

unfoldable pub code_point : ℕ → List ℕ → Option ℕ
code_point b rest =
    if ltb 0xEF b
    then point_four b rest
    else if ltb 0xDF b
    then point_three b rest
    else if ltb 0xBF b
    then point_two b rest
    else point_if (ltb b 0x80) b

-- The surrogate pair dance.
unfoldable pub code_units : ℕ → List ℕ
code_units c =
    if ltb 0xFFFF c
    then bit_or (bit_and (shr (c - 0x10000) 10) 0x3FF) 0xD800
      ∷ bit_or 0xDC00 (bit_and (c - 0x10000) 0x3FF)
      ∷ []
    else c ∷ []

-- The loop of `utf8Slice`: the rounds left, one for each byte, and the bytes up to the end.
unfoldable pub decode : ℕ → List ℕ → List ℕ
decode zero bytes = []
decode (suc rounds) [] = []
decode (suc rounds) (b ∷ rest) = elim (code_point b rest) [
  | none ↦ 0xFFFD ∷ decode rounds rest
  | some c ↦ code_units c ++ decode rounds (drop (bytes_per_sequence b - 1) rest)
]

-- `utf8Slice`
unfoldable pub utf8_slice : List ℕ → ℕ → ℕ → List ℕ
unfolding decode
utf8_slice buf start end =
    let bytes = drop start (take (min (length buf) end) buf) in decode (length bytes) bytes
