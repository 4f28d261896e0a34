-- ===== src/Buffer/Runs/Encoding.antt =====
-- The theorems on strings and their encodings at concrete inputs.
use winterjs.Common.{
  ℕ, ◌+◌, ◌-◌, ◌*◌, ◌≡◌, refl, arith, ap₂, true, false, ◌&&◌, ◌||◌, ltb, leb, if◌then◌else◌, Bool,
  List, [], ◌∷◌, length, none, some, inl, map,
}
use winterjs.Common.Int.{ℤ, pos, negsuc}
use winterjs.Js.{ok, ◌>>=◌, IsBytes}
use winterjs.Base64.{codes, to_byte_array}
use winterjs.Buffer.Hex.{hex_value}
use winterjs.Buffer.Window.{window}
use winterjs.Buffer.Utf8.{utf8_to_bytes, code_point_bytes}
use winterjs.Buffer.Search.{search_start, from_end}
use winterjs.Buffer.Search.Forward.{First}
use winterjs.Buffer.Search.Wide.{array_index_of_wide, index_of_string}
use winterjs.Buffer.Search.Wide.Laws.{wide_units, doubled, array_index_of_wide-First}
use winterjs.Buffer.Search.Wide.Text.{index_of_string-First}
use winterjs.Buffer.Encoding.{base64, hex, utf8, named, select, KeepsSmall, is_small}
use winterjs.Buffer.Encoding.Clean.{base64_to_bytes}
use winterjs.Buffer.Encoding.Clean.Total.{base64_to_bytes_total}
use winterjs.Buffer.Encoding.Spec.{text_of}
use winterjs.Buffer.Encoding.Text.{to_string}
use winterjs.Buffer.Encoding.Text.Laws.{inside_or, to_string-text_of}
use winterjs.Buffer.Encoding.Construct.{from_string}
use winterjs.Buffer.Encoding.Construct.Laws.{from_string-bytes_of}
use winterjs.Buffer.Encoding.Construct.RoundTrip.{from_string-to_string, to_string-from_string}

-- `toLowerCase` on ASCII.
abbrev small_letter : ℕ → ℕ
small_letter c = if leb 65 c && leb c 90 then c + 32 else c

abbrev lower_ascii : List ℕ → List ℕ
lower_ascii = map small_letter

lower_ascii-KeepsSmall : KeepsSmall lower_ascii
lower_ascii-KeepsSmall [] h = refl
lower_ascii-KeepsSmall (c ∷ cs) h =
    both (ltb c 65 || ltb 90 c && ltb c 128) (is_small cs) refl refl h (lower_ascii-KeepsSmall cs)
  where
    both :
        (a b : Bool)
        → (ltb c 65 || ltb 90 c && ltb c 128) ≡ a
        → is_small cs ≡ b
        → (a && b) ≡ true
        → (is_small cs ≡ true → lower_ascii cs ≡ cs)
        → small_letter c ∷ lower_ascii cs ≡ c ∷ cs
    both false b e f h rest = absurd (cc h)
    both true false e f h rest = absurd (cc h)
    both true true e f h rest = ap₂ ◌∷◌ (ground arith) (rest f)

abbrev four : List ℕ
four = 0 ∷ 255 ∷ 16 ∷ 7 ∷ []

from_string-to_string_example :
    (to_string lower_ascii four (some (some (codes "Base64"), none, none)) >>= λ string.
    from_string lower_ascii string (some (codes "Base64")))
    ≡ ok four
from_string-to_string_example =
    from_string-to_string lower_ascii (some (codes "Base64")) base64 lower_ascii-KeepsSmall
      (unfold named in refl) four (omega arith, (omega arith, (omega arith, (omega arith, tt)))) tt
      (omega arith)

-- Two characters, of two and three bytes in UTF-8.
abbrev accents : List ℕ
accents = 0xe9 ∷ 0x20ac ∷ []

abbrev accents_bytes : List ℕ
accents_bytes = 0xc3 ∷ 0xa9 ∷ 0xe2 ∷ 0x82 ∷ 0xac ∷ []

to_string-from_string_example :
    (from_string lower_ascii accents (some (codes "UTF-8")) >>= λ buf.
    to_string lower_ascii buf (some (some (codes "UTF-8"), none, none)))
    ≡ ok accents
to_string-from_string_example =
    to_string-from_string lower_ascii (some (codes "UTF-8")) utf8 lower_ascii-KeepsSmall
      (unfold named in refl) accents accents_bytes (omega arith, (omega arith, tt))
      (accents, (inl (omega arith), (inl (omega arith), tt)), refl)
      (unfold utf8_to_bytes code_point_bytes in refl) (omega arith) (omega arith)

-- The last two digits are no byte.
from_string-bytes_of_example :
    from_string lower_ascii (codes "4A6z") (some (codes "hex")) ≡ ok (0x4a ∷ [])
from_string-bytes_of_example =
    from_string-bytes_of lower_ascii (codes "4A6z") (0x4a ∷ []) (some (codes "hex")) hex
      lower_ascii-KeepsSmall (unfold named in refl)
      (omega arith, (omega arith, (omega arith, (omega arith, tt)))) (unfold hex_value in refl)
      (omega arith) (omega arith)

to_string-text_of_example :
    to_string lower_ascii four (some (some (codes "hex"), some (negsuc 4), some (pos 3)))
    ≡ ok (
        let first = inside_or (length four) 0 (some (negsuc 4)) in
        let last = inside_or (length four) (length four) (some (pos 3)) in
        text_of hex (window four first (last - first)))
to_string-text_of_example =
    to_string-text_of lower_ascii four (some (codes "hex")) hex (unfold select named in refl)
      (omega arith) (some (negsuc 4)) (some (pos 3))

base64_to_bytes_total_example :
    (bs : List ℕ) × (base64_to_bytes (codes " QUI\nD-_=x") ≡ ok bs) × IsBytes bs
base64_to_bytes_total_example = base64_to_bytes_total (codes " QUI\nD-_=x")

index_of_string-First_example :
    (z : ℤ) × (index_of_string lower_ascii four
        (codes "/xA")
        (some (negsuc 2))
        (some (codes "Base64"))
      ≡ ok (some z))
    × First four (255 ∷ 16 ∷ []) 1 z
index_of_string-First_example =
    index_of_string-First lower_ascii four (codes "/xA") (255 ∷ 16 ∷ []) (some (negsuc 2))
      (some (codes "Base64")) base64 1 lower_ascii-KeepsSmall (unfold named in refl) refl
      (omega arith, (omega arith, (omega arith, tt))) (unfold base64_to_bytes to_byte_array in refl)
      (omega arith) (omega arith) (omega arith) (omega arith) (unfold search_start from_end in refl)

array_index_of_wide-First_example :
    (z : ℤ) × (array_index_of_wide four (16 ∷ 7 ∷ []) (2 * 0) ≡ ok (some (doubled z)))
    × First (wide_units four) (wide_units (16 ∷ 7 ∷ [])) 0 z
array_index_of_wide-First_example =
    array_index_of_wide-First four (16 ∷ 7 ∷ []) 0
      (omega arith, (omega arith, (omega arith, (omega arith, tt))))
      (omega arith, (omega arith, tt)) refl refl (omega arith) (omega arith) (omega arith)
      (omega arith) (omega arith)
