-- ===== src/Base64/Runs.antt =====
-- The codec's theorems at concrete inputs.
use winterjs.Common.{ℕ, ◌≡◌, arith, List, [], ◌∷◌}
use winterjs.Js.{ok, IsBytes}
use winterjs.Base64.{to_byte_array, from_byte_array}
use winterjs.Base64.RoundTrip.{to_byte_array-from_byte_array}

abbrev four_bytes : List ℕ
four_bytes = 255 ∷ 0 ∷ 17 ∷ 128 ∷ []

four_bytes-IsBytes : IsBytes four_bytes
four_bytes-IsBytes = (omega arith, (omega arith, (omega arith, (omega arith, tt))))

to_byte_array-from_byte_array_example : to_byte_array (from_byte_array four_bytes) ≡ ok four_bytes
to_byte_array-from_byte_array_example = to_byte_array-from_byte_array four_bytes four_bytes-IsBytes
