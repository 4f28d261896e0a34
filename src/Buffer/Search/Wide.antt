-- ===== src/Buffer/Search/Wide.antt =====
-- buffer.js: `arrayIndexOf` forwards in a two-byte encoding, and `bidirectionalIndexOf` for a string.
-- The positions of the source are halves of offsets here, so that `i` and `foundIndex` are doubled.
pub mod Laws
pub mod Text
use winterjs.Common.{
  ℕ, zero, suc, ◌+◌, ◌-◌, Bool, true, false, ◌||◌, ◌==◌, ltb, if◌then◌else◌, List, [], ◌∷◌, length,
  Option, none, some,
}
use winterjs.Common.Int.{ℤ, pos, negsuc}
use winterjs.Js.{Result, ok, ◌>>=◌}
use winterjs.Buffer.ReadUint.{read_uint16_be}
use winterjs.Buffer.Search.{
  same_elem, or_index, array_index_of, search_start, Value, bytes, Native, index_of,
}
use winterjs.Buffer.Encoding.{Encoding, utf16le, hex, utf8, ascii, latin1, base64, named}
use winterjs.Buffer.Encoding.Construct.{from_string}

-- `read(buf, i)` where `indexSize` is 2.
abbrev pub read_wide : List ℕ → ℕ → Result (Option ℕ)
read_wide buf i = read_uint16_be buf (pos i) false

module _ (arr val : List ℕ) where
  -- The loop with `dir`: the rounds left, `i` and `foundIndex`. A read behind the end throws.
  unfoldable pub forward_wide : ℕ → ℕ → Option ℕ → Result (Option ℤ)
  forward_wide zero i found = ok none
  forward_wide (suc rounds) i found = elim (ltb i (length arr)) [
    | false ↦ ok (some (negsuc 0))
    | true ↦ read_wide arr i >>= λ a. read_wide val (i - or_index i found) >>= λ b.
        elim (same_elem a b) [
          | false ↦ forward_wide rounds (or_index i found + 2) none
          | true ↦ elim (i - or_index i found + 2 == length val) [
            | true ↦ ok (some (pos (or_index i found)))
            | false ↦ forward_wide rounds (i + 2) (some (or_index i found))
          ]
        ]
  ]

  -- Rounds that are enough from a start that is `left` bytes before the end.
  abbrev pub enough_wide : ℕ → ℕ
  enough_wide zero = suc (length val)
  enough_wide (suc left) = suc (length val) + enough_wide left

  -- `arrayIndexOf` in a two-byte encoding.
  unfoldable pub array_index_of_wide : ℕ → Result (Option ℤ)
  unfolding forward_wide
  array_index_of_wide byte_offset =
      if ltb (length arr) 2 || ltb (length val) 2
      then ok (some (negsuc 0))
      else forward_wide (enough_wide (length arr - byte_offset)) byte_offset none

-- Whether `String(encoding).toLowerCase()` is one of the names of UTF-16.
abbrev pub is_wide : Option Encoding → Bool
is_wide none = false
is_wide (some hex) = false
is_wide (some utf8) = false
is_wide (some ascii) = false
is_wide (some latin1) = false
is_wide (some base64) = false
is_wide (some utf16le) = true

unfoldable pub wide_encoding : (List ℕ → List ℕ) → Option (List ℕ) → Bool
wide_encoding lower none = false
wide_encoding lower (some name) = is_wide (named (lower name))

-- The search for bytes that are not empty, in the encoding that was given.
abbrev pub search_bytes : Bool → List ℕ → List ℕ → ℕ → Result (Option ℤ)
search_bytes wide buffer [] start = ok (some (negsuc 0))
search_bytes true buffer (b ∷ bs) start = array_index_of_wide buffer (b ∷ bs) start
search_bytes false buffer (b ∷ bs) start = ok (array_index_of buffer (b ∷ bs) start true)

abbrev pub search_string :
    (List ℕ → List ℕ) → List ℕ → List ℕ → Option (List ℕ) → Option ℕ → Result (Option ℤ)
search_string lower buffer string encoding none = ok (some (negsuc 0))
search_string lower buffer string encoding (some start) =
    from_string lower string encoding >>= λ val.
    search_bytes (wide_encoding lower encoding) buffer val start

-- `indexOf` of a string, with an offset and an encoding.
unfoldable pub index_of_string :
    (List ℕ → List ℕ) → List ℕ → List ℕ → Option ℤ → Option (List ℕ) → Result (Option ℤ)
unfolding array_index_of_wide wide_encoding array_index_of search_start
index_of_string lower buffer string byte_offset encoding =
    if length buffer == 0
    then ok (some (negsuc 0))
    else search_string lower buffer string encoding (search_start (length buffer) byte_offset true)
