-- ===== src/Buffer/Search.antt =====
-- buffer.js: `bidirectionalIndexOf` and `arrayIndexOf`, for values that are bytes or a number and
-- encodings of one byte. A string value is first made bytes by `Buffer.from`.
pub mod Forward
pub mod Backward
pub mod Laws
pub mod Offsets
pub mod Wide
use winterjs.Common.{
  ℕ, zero, suc, ◌+◌, ◌-◌, Bool, true, false, ◌&&◌, ◌==◌, ltb, leb, if◌then◌else◌, List, [], ◌∷◌,
  length, get_elem?, Option, none, some,
}
use winterjs.Common.Int.{ℤ, pos, negsuc, ◌+ℤ◌, ltb_ℤ, leb_ℤ}
use winterjs.Js.{Result, ok, err, ◌>>=◌, wrong_value}
use winterjs.Js.Int32.{wrap}

-- `===` on elements, undefined out of range.
abbrev pub same_elem : Option ℕ → Option ℕ → Bool
same_elem none none = true
same_elem none (some b) = false
same_elem (some a) none = false
same_elem (some a) (some b) = a == b

abbrev pub or_index : ℕ → Option ℕ → ℕ
or_index i none = i
or_index i (some found) = found

-- The inner loop of `arrayIndexOf` without `dir`: all bytes from `i` on.
unfoldable pub match_from : List ℕ → ℕ → List ℕ → Bool
match_from arr i [] = true
match_from arr i (b ∷ bs) =
    if same_elem (get_elem? arr i) (some b) then match_from arr (i + 1) bs else false

module _ (arr val : List ℕ) where
  -- The loop of `arrayIndexOf` with `dir`: the rounds left, `i`, and `foundIndex`, which is `none` for -1.
  -- A mismatch behind a start takes `i` back to that start. With no rounds left there is no result.
  unfoldable pub forward : ℕ → ℕ → Option ℕ → Option ℤ
  forward zero i found = none
  forward (suc rounds) i found = elim (ltb i (length arr)) [
    | false ↦ some (negsuc 0)
    | true ↦ elim (same_elem (get_elem? arr i) (get_elem? val (i - or_index i found))) [
      | false ↦ forward rounds (or_index i found + 1) none
      | true ↦ elim (i - or_index i found + 1 == length val) [
        | true ↦ some (pos (or_index i found))
        | false ↦ forward rounds (i + 1) (some (or_index i found))
      ]
    ]
  ]

  -- Rounds that are always enough from a start that is `left` bytes before the end.
  abbrev pub enough : ℕ → ℕ
  enough zero = suc (length val)
  enough (suc left) = suc (length val) + enough left

  -- The starts downwards.
  unfoldable pub backward : ℕ → ℤ
  unfolding match_from
  backward zero = if match_from arr 0 val then pos 0 else negsuc 0
  backward (suc i) =
      let rest = backward i in if match_from arr (suc i) val then pos (suc i) else rest

  -- `arrayIndexOf` with a start inside the array, where the value is not empty.
  unfoldable pub array_index_of : ℕ → Bool → Option ℤ
  unfolding forward backward
  array_index_of byte_offset true = forward (enough (length arr - byte_offset)) byte_offset none
  array_index_of byte_offset false =
      let start =
        if ltb (length arr) (byte_offset + length val)
        then length arr - length val
        else byte_offset in
      some (if ltb (length arr) (length val) then negsuc 0 else backward start)

-- `byteOffset` cut to 32 bits, and counted from the end where it is negative.
abbrev pub clamp_offset : ℤ → ℤ
clamp_offset z =
    if ltb_ℤ (pos 0x7fffffff) z
    then pos 0x7fffffff
    else if ltb_ℤ z (negsuc 0x7fffffff)
    then negsuc 0x7fffffff
    else z

unfoldable pub from_end : ℕ → ℤ → ℤ
unfolding ◌+ℤ◌
from_end len z = if ltb_ℤ z (pos 0) then pos len +ℤ z else z

-- The start of the search, `none` where it returns -1 for an offset that is outside.
abbrev pub in_buffer : ℕ → Bool → ℤ → Option ℕ
in_buffer len dir z =
    if leb_ℤ (pos len) z
    then if dir then none else some (len - 1)
    else elim z [ pos n ↦ some n | negsuc n ↦ if dir then some 0 else none ]

-- An offset of `none` is one that is not a number.
unfoldable pub search_start : ℕ → Option ℤ → Bool → Option ℕ
unfolding from_end
search_start len none dir = in_buffer len dir (if dir then pos 0 else pos (len - 1))
search_start len (some offset) dir = in_buffer len dir (from_end len (clamp_offset offset))

-- The argument `val`.
pub data Value : Type 0 where
  bytes : List ℕ → Value
  number : ℤ → Value
  other : Value

-- `indexOf` and `lastIndexOf` of the engine's typed arrays, where it has them: the direction, the
-- array, the byte and the start.
abbrev pub Native : Type 0
Native = Option (Bool → List ℕ → ℕ → ℕ → ℤ)

abbrev pub native_or_array : Native → List ℕ → ℕ → ℕ → Bool → Option ℤ
native_or_array none buffer value start dir = array_index_of buffer (value ∷ []) start dir
native_or_array (some native) buffer value start dir = some (native dir buffer value start)

abbrev pub search_value : Native → List ℕ → Value → ℕ → Bool → Result (Option ℤ)
search_value native buffer (bytes []) start dir = ok (some (negsuc 0))
search_value native buffer (bytes (b ∷ bs)) start dir =
    ok (array_index_of buffer (b ∷ bs) start dir)
search_value native buffer (number n) start dir =
    ok (native_or_array native buffer (wrap 256 n) start dir)
search_value native buffer other start dir = err wrong_value

abbrev pub search_from : Native → List ℕ → Value → Bool → Option ℕ → Result (Option ℤ)
search_from native buffer val dir none = ok (some (negsuc 0))
search_from native buffer val dir (some start) = search_value native buffer val start dir

-- `bidirectionalIndexOf`
unfoldable pub bidirectional_index_of :
    Native → List ℕ → Value → Option ℤ → Bool → Result (Option ℤ)
unfolding array_index_of search_start
bidirectional_index_of native buffer val byte_offset dir =
    if length buffer == 0
    then ok (some (negsuc 0))
    else search_from native buffer val dir (search_start (length buffer) byte_offset dir)

-- `indexOf`, `lastIndexOf` and `includes`
abbrev pub index_of : Native → List ℕ → Value → Option ℤ → Result (Option ℤ)
index_of native buffer val byte_offset = bidirectional_index_of native buffer val byte_offset true

abbrev pub last_index_of : Native → List ℕ → Value → Option ℤ → Result (Option ℤ)
last_index_of native buffer val byte_offset =
    bidirectional_index_of native buffer val byte_offset false

-- `!== -1`
abbrev pub not_minus_one : ℤ → Bool
not_minus_one (pos n) = true
not_minus_one (negsuc zero) = false
not_minus_one (negsuc (suc n)) = true

abbrev pub map_found : Option ℤ → Option Bool
map_found none = none
map_found (some z) = some (not_minus_one z)

abbrev pub includes : Native → List ℕ → Value → Option ℤ → Result (Option Bool)
includes native buffer val byte_offset =
    index_of native buffer val byte_offset >>= λ found. ok (map_found found)
