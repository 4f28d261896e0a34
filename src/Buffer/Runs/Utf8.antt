-- ===== src/Buffer/Runs/Utf8.antt =====
-- The theorems on UTF-8 at concrete inputs.
use winterjs.Common.{ℕ, ◌≤◌, ◌≡◌, refl, inl, inr, arith, List, [], ◌∷◌, length, none, some}
use winterjs.Common.Int.{◌-ℤ◌}
use winterjs.Js.{ok}
use winterjs.Buffer.Utf8.{code_point_bytes, encode, utf8_to_bytes, utf8_slice}
use winterjs.Buffer.Utf8.RoundTrip.{utf8_slice-utf8_to_bytes}
use winterjs.Buffer.Utf8.Bounds.{length-utf8_to_bytes}

-- "aé€" and a code point outside the basic plane.
abbrev points : List ℕ
points = 97 ∷ 233 ∷ 8364 ∷ 128512 ∷ []

utf8_slice-utf8_to_bytes_example :
    (bs : List ℕ) × (utf8_to_bytes (97 ∷ 233 ∷ 8364 ∷ 55357 ∷ 56832 ∷ []) none ≡ ok bs)
    × (utf8_slice bs 0 (length bs) ≡ 97 ∷ 233 ∷ 8364 ∷ 55357 ∷ 56832 ∷ [])
utf8_slice-utf8_to_bytes_example = utf8_slice-utf8_to_bytes points (
  inl (omega arith),
  (inl (omega arith), (inl (omega arith), (inr (omega arith, omega arith), tt))),
)

abbrev one_byte : List ℕ
one_byte = 97 ∷ []

-- Two bytes would go over the limit of two after the first one.
cut : utf8_to_bytes (97 ∷ 233 ∷ []) (some 2) ≡ ok one_byte
unfolding utf8_to_bytes encode code_point_bytes ◌-ℤ◌
cut = refl

length-utf8_to_bytes_example : length one_byte ≤ 2
length-utf8_to_bytes_example = length-utf8_to_bytes (97 ∷ 233 ∷ []) 1 one_byte cut
