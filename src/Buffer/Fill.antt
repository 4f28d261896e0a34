-- ===== src/Buffer/Fill.antt =====
-- buffer.js: `fill` and `alloc`. A string argument in the place of a number spells no number.
pub mod Laws
pub mod Ranges
pub mod Alloc
pub mod Keeps
use winterjs.Common.{
  ℕ, zero, suc, ◌+◌, ◌-◌, ◌%◌, Bool, true, false, not, ◌&&◌, ◌||◌, ◌==◌, ltb, if◌then◌else◌, List,
  [], ◌∷◌, length, get_elem?, Option, none, some,
}
use winterjs.Common.Int.{ℤ, pos, negsuc, ltb_ℤ, leb_ℤ}
use winterjs.Js.{
  Result, ok, err, ◌>>=◌, ◌>>◌, throw_if, store, unknown_encoding, encoding_not_string,
  invalid_value, out_of_range_index,
}
use winterjs.Js.Int32.{wrap, to_uint32, word}
use winterjs.Base64.{codes}
use winterjs.Buffer.Concat.{assert_size, create_buffer}
use winterjs.Buffer.Encoding.{is_encoding, same_string}
use winterjs.Buffer.Encoding.Construct.{from_string}

-- `val`; `nothing` is null or undefined, `buffer` a buffer with other memory, and `view` one that
-- shares the memory of this buffer: the bytes of this buffer from `offset` on, `size` of them.
pub data FillValue : Type 0 where
  text : List ℕ → FillValue
  number : ℤ → FillValue
  boolean : Bool → FillValue
  nothing : FillValue
  buffer : List ℕ → FillValue
  view : (offset size : ℕ) → FillValue

-- The other arguments: undefined, a number or a string.
pub data FillArg : Type 0 where
  absent : FillArg
  at : ℤ → FillArg
  named : List ℕ → FillArg

-- `start`, `end` and `encoding`.
abbrev pub FillArgs : Type 0
FillArgs = FillArg × FillArg × FillArg

-- What the buffer is filled with: a number, a string with its encoding, or a buffer.
pub data Filler : Type 0 where
  byte : ℕ → Filler
  spelled : List ℕ → Option (List ℕ) → Filler
  pattern_of : List ℕ → Filler
  view_of : (offset size : ℕ) → Filler

-- A string in the place of `start` or of `end` is the encoding.
unfoldable pub shift_args : ℕ → FillArgs → FillArgs
shift_args len (named s, end, encoding) = (at (pos 0), at (pos len), named s)
shift_args len (absent, named s, encoding) = (absent, at (pos len), named s)
shift_args len (at start, named s, encoding) = (at start, at (pos len), named s)
shift_args len (absent, absent, encoding) = (absent, absent, encoding)
shift_args len (absent, at end, encoding) = (absent, at end, encoding)
shift_args len (at start, absent, encoding) = (at start, absent, encoding)
shift_args len (at start, at end, encoding) = (at start, at end, encoding)

-- The two checks of `encoding`.
unfoldable pub check_encoding : (List ℕ → List ℕ) → FillArg → Result (Option (List ℕ))
unfolding is_encoding
check_encoding lower absent = ok none
check_encoding lower (at n) = err encoding_not_string
check_encoding lower (named s) = if is_encoding lower s then ok (some s) else err unknown_encoding

abbrev pub is_exactly : List ℕ → Option (List ℕ) → Bool
is_exactly name none = false
is_exactly name (some s) = same_string name s

-- The fast path for one character, and `if (!val) val = 0` for the empty string.
unfoldable pub text_filler : List ℕ → Option (List ℕ) → Filler
text_filler [] encoding = byte 0
text_filler (c ∷ []) encoding =
    if is_exactly (codes "utf8") encoding && ltb c 128 || is_exactly (codes "latin1") encoding
    then byte c
    else spelled (c ∷ []) encoding
text_filler (c ∷ d ∷ string) encoding = spelled (c ∷ d ∷ string) encoding

-- The first part of `fill`: the value, and `start` and `end`.
unfoldable pub prepare :
    (List ℕ → List ℕ) → ℕ → FillValue → FillArgs → Result (Filler × FillArg × FillArg)
unfolding shift_args check_encoding text_filler
prepare lower len (text string) args = do
  let shifted = shift_args len args
  encoding ← check_encoding lower shifted.2
  ok (text_filler string encoding, shifted.0, shifted.1)
prepare lower len (number n) (start, end, encoding) = ok (byte (wrap 256 n), start, end)
prepare lower len (boolean b) (start, end, encoding) = ok (byte (if b then 1 else 0), start, end)
prepare lower len nothing (start, end, encoding) = ok (byte 0, start, end)
prepare lower len (buffer bytes) (start, end, encoding) = ok (pattern_of bytes, start, end)
prepare lower len (view offset size) (start, end, encoding) = ok (view_of offset size, start, end)

-- An operand of `<` or `<=`; `none` is not a number, and makes the test false.
abbrev pub operand : FillArg → Option ℤ
operand absent = none
operand (at n) = some n
operand (named s) = none

abbrev pub test : (ℤ → ℤ → Bool) → Option ℤ → Option ℤ → Bool
test f none b = false
test f (some a) none = false
test f (some a) (some b) = f a b

-- `x >>> 0`
abbrev pub uint32_of : FillArg → ℕ
uint32_of absent = 0
uint32_of (at n) = to_uint32 n
uint32_of (named s) = 0

abbrev pub end_of : ℕ → FillArg → ℕ
end_of len absent = len
end_of len (at n) = to_uint32 n
end_of len (named s) = 0

-- The checks of the range; `none` where `end <= start` returns at once.
unfoldable pub fill_range : ℕ → FillArg → FillArg → Result (Option (ℕ × ℕ))
fill_range len start end = do
  let outside =
      test ltb_ℤ (operand start) (some (pos 0))
      || test ltb_ℤ (some (pos len)) (operand start)
      || test ltb_ℤ (some (pos len)) (operand end)
  throw_if outside out_of_range_index
  ok (
      if test leb_ℤ (operand end) (operand start)
      then none
      else some (uint32_of start, end_of len end))

-- `for (i = start; i < end; ++i) this[i] = val`: the rounds left, and `i`.
unfoldable pub fill_byte : ℕ → ℕ → ℕ → List ℕ → List ℕ
fill_byte value zero i buf = buf
fill_byte value (suc rounds) i buf = fill_byte value rounds (i + 1) (store buf i value)

-- The loop that repeats `bytes`: the rounds left, and `i`.
unfoldable pub fill_bytes : List ℕ → ℕ → ℕ → ℕ → List ℕ → List ℕ
fill_bytes bytes start zero i buf = buf
fill_bytes bytes start (suc rounds) i buf =
    fill_bytes bytes start rounds (i + 1)
      (store buf (i + start) (word (get_elem? bytes (i % length bytes))))

unfoldable pub repeat_bytes : List ℕ → ℕ → ℕ → List ℕ → Result (List ℕ)
unfolding fill_bytes
repeat_bytes bytes start end buf = do
  throw_if (length bytes == 0) invalid_value
  ok (fill_bytes bytes start (end - start) 0 buf)

-- The same loop where `bytes` is a view of the buffer itself, which reads what it has written.
unfoldable pub fill_view : ℕ → ℕ → ℕ → ℕ → ℕ → List ℕ → List ℕ
fill_view offset size start zero i buf = buf
fill_view offset size start (suc rounds) i buf =
    fill_view offset size start rounds (i + 1)
      (store buf (i + start) (word (get_elem? buf (offset + i % size))))

unfoldable pub repeat_view : ℕ → ℕ → ℕ → ℕ → List ℕ → Result (List ℕ)
unfolding fill_view
repeat_view offset size start end buf = do
  throw_if (size == 0) invalid_value
  ok (fill_view offset size start (end - start) 0 buf)

-- The last part of `fill`.
unfoldable pub fill_with : (List ℕ → List ℕ) → Filler → Option (ℕ × ℕ) → List ℕ → Result (List ℕ)
unfolding fill_byte repeat_bytes repeat_view
fill_with lower filler none buf = ok buf
fill_with lower (byte value) (some (start, end)) buf = ok (fill_byte value (end - start) start buf)
fill_with lower (spelled string encoding) (some (start, end)) buf =
    from_string lower string encoding >>= λ bytes. repeat_bytes bytes start end buf
fill_with lower (pattern_of bytes) (some (start, end)) buf = repeat_bytes bytes start end buf
fill_with lower (view_of offset size) (some (start, end)) buf =
    repeat_view offset size start end buf

-- `fill`
unfoldable pub fill : (List ℕ → List ℕ) → List ℕ → FillValue → FillArgs → Result (List ℕ)
unfolding prepare fill_range fill_with
fill lower buf value args = do
  (filler, start, end) ← prepare lower (length buf) value args
  range ← fill_range (length buf) start end
  fill_with lower filler range buf

-- `typeof encoding === 'string' ? createBuffer(size).fill(fill, encoding) : createBuffer(size).fill(fill)`
abbrev pub encoding_args : FillArg → FillArgs
encoding_args absent = (absent, absent, absent)
encoding_args (at n) = (absent, absent, absent)
encoding_args (named s) = (named s, absent, absent)

abbrev pub fill_new : (List ℕ → List ℕ) → List ℕ → Option FillValue → FillArg → Result (List ℕ)
fill_new lower buf none encoding = ok buf
fill_new lower buf (some value) encoding = fill lower buf value (encoding_args encoding)

-- `alloc` of a number; `none` is a `fill` that is undefined.
unfoldable pub alloc : (List ℕ → List ℕ) → ℤ → Option FillValue → FillArg → Result (List ℕ)
unfolding assert_size create_buffer fill
alloc lower (pos zero) value encoding = assert_size (pos zero) >> create_buffer 0
alloc lower (pos (suc n)) value encoding = do
  assert_size (pos (suc n))
  buf ← create_buffer (suc n)
  fill_new lower buf value encoding
alloc lower (negsuc n) value encoding = assert_size (negsuc n) >> create_buffer 0
