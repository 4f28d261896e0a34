-- ===== src/Buffer/Runs/Calls.antt =====
-- The theorems on the methods that fill, make and change a buffer at concrete inputs.
use winterjs.Common.{
  ℕ, ◌+◌, ◌-◌, ◌%◌, ◌≡◌, refl, arith, Bool, true, false, if◌then◌else◌, List, [], ◌∷◌, length, none,
  some, ◌^◌,
}
use winterjs.Common.Int.{pos, negsuc}
use winterjs.Js.{ok, IsBytes}
use winterjs.Base64.{codes}
use winterjs.Buffer.Window.{
  window, splice, le_bytes, be_bytes, le_num, be_num, length-le_bytes, length-be_bytes,
}
use winterjs.Buffer.Encoding.Write.{no_args}
use winterjs.Buffer.Fill.{buffer, at, absent, number, fill}
use winterjs.Buffer.Fill.Laws.{Repeats}
use winterjs.Buffer.Fill.Ranges.{fill-Repeats}
use winterjs.Buffer.Encoding
use winterjs.Buffer.From.{uint8_array, plain, buffer_like, to_json, from}
use winterjs.Buffer.From.Laws.{from-to_json}
use winterjs.Buffer.Float.{Ieee754, write_float, write_double}
use winterjs.Buffer.Float.Laws.{Ieee754Laws, read_float_in, read_double_in, read-write_float_double}
use winterjs.Buffer.Mutation.{Call, fixed, uint8, swapped16, copied, written, filled}

abbrev keep_case : List ℕ → List ℕ
keep_case s = s

abbrev six : List ℕ
six = 1 ∷ 2 ∷ 3 ∷ 4 ∷ 5 ∷ 6 ∷ []

six-IsBytes : IsBytes six
six-IsBytes =
    (omega arith, (omega arith, (omega arith, (omega arith, (omega arith, (omega arith, tt))))))

-- The first call throws.
abbrev calls : List Call
calls =
    fixed uint8 (pos 300) (pos 0) false
    ∷ written (codes "hi") no_args
    ∷ swapped16
    ∷ copied six (some (pos 3)) none none
    ∷ filled (number (negsuc 0)) (at (pos 5), absent, absent)
    ∷ []

fill-Repeats_example :
    (ds : List ℕ) × (fill keep_case six (buffer (7 ∷ 8 ∷ [])) (at (pos 1), absent, absent)
      ≡ ok (splice six 1 ds))
    × (length ds ≡ 6 - 1)
    × Repeats (7 ∷ 8 ∷ []) 0 ds
fill-Repeats_example =
    fill-Repeats keep_case six (7 ∷ 8 ∷ []) (buffer (7 ∷ 8 ∷ [])) (some 1) none none refl
      (omega arith, (omega arith, tt)) (omega arith) (omega arith) (omega arith) (omega arith)

from-to_json_example :
    (from keep_case (uint8_array six) absent none ≡ ok six)
    × (from keep_case (plain (to_json six)) absent none ≡ ok six)
    × (from keep_case (plain (buffer_like six)) absent none ≡ ok six)
from-to_json_example = from-to_json keep_case absent none six six-IsBytes (omega arith)

-- Numbers that are written as their low bytes.
abbrev low_bytes : ℕ → Bool → ℕ → ℕ → List ℕ
low_bytes v le m n = if le then le_bytes n v else be_bytes n v

abbrev num_of : List ℕ → Bool → ℕ → ℕ → ℕ
num_of xs le m n = if le then le_num xs else be_num xs

abbrev as_numbers : Ieee754 ℕ
as_numbers = record {
  read = λ buf o le m n. num_of (window buf o n) le m n;
  write = λ buf v o le m n. splice buf o (low_bytes (v % 256 ^ n) le m n);
}

as_numbers-Laws : Ieee754Laws as_numbers
as_numbers-Laws = record {
  encode = λ v le m n. low_bytes (v % 256 ^ n) le m n;
  decode = num_of;
  encode-size = λ v le m n h. sizes (v % 256 ^ n) le m n;
  write-encode = λ buf v o le m n h room. refl;
  read-decode = λ buf o le m n h room. refl;
}
  where
    sizes : (v : ℕ) (le : Bool) (m n : ℕ) → length (low_bytes v le m n) ≡ n
    sizes v true m n = length-le_bytes n v
    sizes v false m n = length-be_bytes n v

abbrev fourteen : List ℕ
fourteen = 0 ∷ 0 ∷ 0 ∷ 0 ∷ 0 ∷ 0 ∷ 0 ∷ 0 ∷ 0 ∷ 0 ∷ 0 ∷ 0 ∷ 0 ∷ 0 ∷ []

read-write_float_double_example :
    (buf1 : List ℕ) × (buf2 : List ℕ) × (write_float as_numbers fourteen 70000 (pos 1) true false
      ≡ ok (buf1, 1 + 4))
    × (write_double as_numbers buf1 80000 (pos (1 + 4)) false false ≡ ok (buf2, 1 + 12))
    × (read_float_in true as_numbers buf2 (pos 1) false ≡ ok 70000)
    × (read_double_in false as_numbers buf2 (pos (1 + 4)) false ≡ ok 80000)
unfolding as_numbers-Laws
read-write_float_double_example =
    read-write_float_double as_numbers as_numbers-Laws fourteen 70000 80000 1 true false
      (omega arith) (omega arith)
