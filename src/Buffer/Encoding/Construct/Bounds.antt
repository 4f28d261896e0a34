-- ===== src/Buffer/Encoding/Construct/Bounds.antt =====
-- A text is made of code units, at most four for each byte.
use winterjs.Common.{
  ℕ, zero, suc, ◌-◌, ◌*◌, ◌<◌, ◌≤◌, ◌≡◌, refl, ap, arith, ◌⊎◌, inl, inr, List, [], ◌∷◌, length,
  length-append, drop, replicate, All, All-append, map, ltb, true, false, Bool-cases, Option-cases,
  bit_and,
}
use winterjs.Common.Bits.{bit_and-mod}
use winterjs.Js.{IsBytes}
use winterjs.Base64.Encode.{length-from_byte_array}
use winterjs.Buffer.Hex.{hex_codes}
use winterjs.Buffer.Utf8.{decode, code_units, code_point, bytes_per_sequence}
use winterjs.Buffer.Utf8.Total.{IsUnit}
use winterjs.Buffer.Utf8.RoundTrip.{IsScalar, units_of, utf16}
use winterjs.Buffer.Utf16.{utf16le_units}
use winterjs.Buffer.Encoding.{Encoding, hex, utf8, ascii, latin1, base64, utf16le}
use winterjs.Buffer.Encoding.Clean.Laws.{IsKept, kept-lt, from_byte_array-IsText}
use winterjs.Buffer.Encoding.Spec.{text_of}
use winterjs.Buffer.Encoding.Construct.Faithful.{Lossless, utf8_text}

-- A text is made of code units.
below-IsUnit : (bound : ℕ) → bound ≤ 65536 → (xs : List ℕ) → All (λ c. c < bound) xs → All IsUnit xs
below-IsUnit bound le [] h = tt
below-IsUnit bound le (c ∷ xs) (hc, h) = (omega arith, below-IsUnit bound le xs h)

utf16-IsUnit : (cs : List ℕ) → All IsScalar cs → All IsUnit (utf16 cs)
utf16-IsUnit [] h = tt
utf16-IsUnit (c ∷ cs) (s, h) =
    All-append _ (units_of c) (utf16 cs) (one (Bool-cases (ltb c 0x10000))) (utf16-IsUnit cs h)
  where
    one : (ltb c 0x10000 ≡ true) ⊎ (ltb c 0x10000 ≡ false) → All IsUnit (units_of c)
    one (inl small) = rw small (ground arith, tt)
    one (inr large) = rw large (grind arith, (omega arith, tt))

hex_codes-IsUnit : (bs : List ℕ) → IsBytes bs → All IsUnit (hex_codes bs)
hex_codes-IsUnit [] h = tt
hex_codes-IsUnit (b ∷ bs) (hb, h) = (ground arith, (ground arith, hex_codes-IsUnit bs h))

masked-IsUnit : (bs : List ℕ) → All IsUnit (map (λ b. bit_and b 127) bs)
masked-IsUnit [] = tt
masked-IsUnit (b ∷ bs) = (omega (arith, bit_and-mod 7 b), masked-IsUnit bs)

utf16le_units-IsUnit : (bs : List ℕ) → IsBytes bs → All IsUnit (utf16le_units bs)
utf16le_units-IsUnit [] h = tt
utf16le_units-IsUnit (lo ∷ []) h = tt
utf16le_units-IsUnit (lo ∷ hi ∷ bs) (hl, (hh, h)) = (omega arith, utf16le_units-IsUnit bs h)

kept-IsUnit : (cs : List ℕ) → All IsKept cs → All IsUnit cs
kept-IsUnit [] h = tt
kept-IsUnit (c ∷ cs) (hc, h) = (omega (arith, kept-lt c hc), kept-IsUnit cs h)

pads-IsUnit : (p : ℕ) → All IsUnit (replicate p b'=')
pads-IsUnit zero = tt
pads-IsUnit (suc p) = (omega arith, pads-IsUnit p)

pub text_of-IsUnit :
    (e : Encoding) (buf : List ℕ) → IsBytes buf → Lossless e buf → All IsUnit (text_of e buf)
text_of-IsUnit hex buf h l = hex_codes-IsUnit buf h
text_of-IsUnit utf8 buf h (cs, scalars, encoded) =
    rw (utf8_text cs buf scalars encoded) (utf16-IsUnit cs scalars)
text_of-IsUnit ascii buf h l = masked-IsUnit buf
text_of-IsUnit latin1 buf h l = below-IsUnit 256 (omega arith) buf h
text_of-IsUnit base64 buf h l =
    let (cs, p, split, kept, _, _) = from_byte_array-IsText buf h in
    rw split (All-append _ cs (replicate p b'=') (kept-IsUnit cs kept) (pads-IsUnit p))
text_of-IsUnit utf16le buf h l = utf16le_units-IsUnit buf h

length-code_units : (c : ℕ) → length (code_units c) ≤ 2
unfolding code_units
length-code_units c = ground arith

length-decode : (rounds : ℕ) (bs : List ℕ) → length (decode rounds bs) ≤ 2 * rounds
unfolding decode
length-decode zero bs = omega arith
length-decode (suc rounds) [] = omega arith
length-decode (suc rounds) (b ∷ bs) = elim (Option-cases (code_point b bs)) [
  | inl bad ↦ rw (bad, decode) (omega (arith, length-decode rounds bs))
  | inr (c, good) ↦
      let rest = drop (bytes_per_sequence b - 1) bs in
      rw (good, decode)
        (omega (
          arith,
          length-append (code_units c) (decode rounds rest),
          length-code_units c,
          length-decode rounds rest,
        ))
]

length-hex_codes : (bs : List ℕ) → length (hex_codes bs) ≡ 2 * length bs
length-hex_codes [] = refl
length-hex_codes (b ∷ bs) = omega (arith, length-hex_codes bs)

length-utf16le_units : (bs : List ℕ) → length (utf16le_units bs) ≤ length bs
length-utf16le_units [] = omega arith
length-utf16le_units (lo ∷ []) = omega arith
length-utf16le_units (lo ∷ hi ∷ bs) = omega (arith, length-utf16le_units bs)

length-map {ℓ κ} :
    {A : Type ℓ} {B : Type κ} (f : A → B) (xs : List A) → length (map f xs) ≡ length xs
length-map f [] = refl
length-map f (x ∷ xs) = ap suc (length-map f xs)

pub length-text_of : (e : Encoding) (buf : List ℕ) → length (text_of e buf) ≤ 4 * length buf
length-text_of hex buf = omega (arith, length-hex_codes buf)
length-text_of utf8 buf = omega (arith, length-decode (length buf) buf)
length-text_of ascii buf = omega (arith, length-map (λ b. bit_and b 127) buf)
length-text_of latin1 buf = omega arith
length-text_of base64 buf = omega (arith, length-from_byte_array buf)
length-text_of utf16le buf = omega (arith, length-utf16le_units buf)
