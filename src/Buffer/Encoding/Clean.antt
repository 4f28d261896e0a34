-- ===== src/Buffer/Encoding/Clean.antt =====
-- buffer.js: `base64clean`, `base64ToBytes`, `base64Write` and `base64Slice`.
pub mod Laws
pub mod Total
use winterjs.Common.{
  ℕ, zero, suc, ◌%◌, Bool, true, false, ◌&&◌, ◌||◌, ◌==◌, ltb, leb, if◌then◌else◌, List, [], ◌∷◌,
  ◌++◌, length,
}
use winterjs.Common.Int.{pos}
use winterjs.Common.{some}
use winterjs.Js.{Result, ok, ◌>>=◌}
use winterjs.Base64.{to_byte_array, from_byte_array}
use winterjs.Buffer.Blit.{blit_buffer}
use winterjs.Buffer.Slice.{slice}

-- `str.split('=')[0]`
abbrev pub before_pad : List ℕ → List ℕ
before_pad [] = []
before_pad (c ∷ cs) = if c == b'=' then [] else c ∷ before_pad cs

-- White space and line ends, which `trim` removes on both sides.
abbrev pub is_space : ℕ → Bool
is_space c =
    leb 9 c && leb c 13
    || c == 32
    || c == 0xA0
    || c == 0x1680
    || leb 0x2000 c && leb c 0x200A
    || c == 0x2028
    || c == 0x2029
    || c == 0x202F
    || c == 0x205F
    || c == 0x3000
    || c == 0xFEFF

abbrev pub trim_start : List ℕ → List ℕ
trim_start [] = []
trim_start (c ∷ cs) = if is_space c then trim_start cs else c ∷ cs

abbrev pub snoc_trimmed : ℕ → List ℕ → List ℕ
snoc_trimmed c [] = if is_space c then [] else c ∷ []
snoc_trimmed c (d ∷ ds) = c ∷ d ∷ ds

abbrev pub trim_end : List ℕ → List ℕ
trim_end [] = []
trim_end (c ∷ cs) = snoc_trimmed c (trim_end cs)

-- The characters that `INVALID_BASE64_RE` does not match.
abbrev pub is_base64 : ℕ → Bool
is_base64 c =
    c == b'+'
    || c == b'/'
    || leb b'0' c && leb c b'9'
    || leb b'A' c && leb c b'Z'
    || leb b'a' c && leb c b'z'
    || c == b'-'
    || c == b'_'

-- `.replace(INVALID_BASE64_RE, '')`
abbrev pub drop_invalid : List ℕ → List ℕ
drop_invalid [] = []
drop_invalid (c ∷ cs) = if is_base64 c then c ∷ drop_invalid cs else drop_invalid cs

-- `while (str.length % 4 !== 0) str = str + '='`: the rounds left, of which 3 are enough.
unfoldable pub pad_loop : ℕ → List ℕ → List ℕ
pad_loop zero str = str
pad_loop (suc rounds) str = if length str % 4 == 0 then str else pad_loop rounds (str ++ b'=' ∷ [])

-- `base64clean`
unfoldable pub base64_clean : List ℕ → List ℕ
unfolding pad_loop
base64_clean str =
    let kept = drop_invalid (trim_end (trim_start (before_pad str))) in
    if ltb (length kept) 2 then [] else pad_loop 3 kept

-- `base64ToBytes`
unfoldable pub base64_to_bytes : List ℕ → Result (List ℕ)
unfolding base64_clean
base64_to_bytes str = to_byte_array (base64_clean str)

-- `base64Write`
unfoldable pub base64_write : List ℕ → List ℕ → ℕ → ℕ → Result (ℕ × List ℕ)
unfolding base64_to_bytes
base64_write buf string offset len =
    base64_to_bytes string >>= λ bytes. ok (blit_buffer bytes buf offset len)

-- `base64Slice`
unfoldable pub base64_slice : List ℕ → ℕ → ℕ → List ℕ
base64_slice buf start end =
    if start == 0 && end == length buf
    then from_byte_array buf
    else from_byte_array (slice buf (pos start) (some (pos end)))
