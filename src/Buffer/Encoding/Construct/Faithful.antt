-- ===== src/Buffer/Encoding/Construct/Faithful.antt =====
-- Which buffers and strings an encoding stands for without a loss.
use winterjs.Common.{
  ℕ, ◌+◌, ◌*◌, ◌/◌, ◌%◌, ◌<◌, ◌≡◌, refl, sym, ap, ◌∙◌, arith, List, [], ◌∷◌, length, All, map, none,
  bit_and,
}
use winterjs.Common.Bits.{bit_and-mod}
use winterjs.Js.{ok, IsBytes}
use winterjs.Base64.{from_byte_array}
use winterjs.Buffer.Blit.{ascii_to_bytes}
use winterjs.Buffer.Blit.Latin.{ascii_to_bytes-of, map-mask}
use winterjs.Buffer.Hex.{hex_codes}
use winterjs.Buffer.Hex.Laws.{hex_bytes-hex_codes}
use winterjs.Buffer.Utf8.{utf8_to_bytes}
use winterjs.Buffer.Utf8.Total.{IsUnit}
use winterjs.Buffer.Utf8.RoundTrip.{IsScalar, utf16, codes}
use winterjs.Buffer.Utf16.{utf16le_units}
use winterjs.Buffer.Utf16.Laws.{unit_bytes, utf16le_units-unit_bytes}
use winterjs.Buffer.Encoding.{Encoding, hex, utf8, ascii, latin1, base64, utf16le}
use winterjs.Buffer.Encoding.Clean.Laws.{base64_to_bytes-from_byte_array}
use winterjs.Buffer.Encoding.Spec.{bytes_of, text_of}
use winterjs.Buffer.Encoding.Construct.Laws.{ok_inj}

-- Buffers whose text in an encoding stands for them: all of them in hexadecimal, Latin-1 and base64,
-- well-formed UTF-8, bytes below 128 in ASCII, and an even number of bytes in UTF-16.
abbrev pub Lossless : Encoding → List ℕ → Type 0
Lossless hex buf = Unit {0}
Lossless utf8 buf = (cs : List ℕ) × All IsScalar cs × (utf8_to_bytes (utf16 cs) none ≡ ok buf)
Lossless ascii buf = All (λ b. b < 128) buf
Lossless latin1 buf = Unit {0}
Lossless base64 buf = Unit {0}
Lossless utf16le buf = length buf % 2 ≡ 0

pub utf8_text :
    (cs buf : List ℕ)
    → All IsScalar cs
    → utf8_to_bytes (utf16 cs) none ≡ ok buf
    → text_of utf8 buf ≡ utf16 cs
unfolding utf8_to_bytes
utf8_text cs buf scalars encoded =
    let (bs, encoded', decoded) = codes cs scalars in
    let same : bs ≡ buf = ok_inj bs buf (sym encoded' ∙ encoded) in
    ap (text_of utf8) (sym same) ∙ decoded (length bs) (omega arith)

even_units :
    (buf : List ℕ) → IsBytes buf → length buf % 2 ≡ 0 → unit_bytes (utf16le_units buf) ≡ buf
even_units [] h e = refl
even_units (lo ∷ []) h e = absurd (omega arith)
even_units (lo ∷ hi ∷ buf) (hl, (hh, h)) e =
    let low : (lo + hi * 256) % 256 ≡ lo = omega arith in
    let high : (lo + hi * 256) / 256 ≡ hi = omega arith in
    rw (low, high) (ap (λ bs. lo ∷ hi ∷ bs) (even_units buf h (omega arith)))

-- The text of such a buffer stands for it.
pub bytes_of-text_of :
    (e : Encoding) (buf : List ℕ)
    → IsBytes buf
    → Lossless e buf
    → bytes_of e (text_of e buf) ≡ ok buf
bytes_of-text_of hex buf h l = ap ok (hex_bytes-hex_codes buf h)
bytes_of-text_of utf8 buf h (cs, scalars, encoded) = rw (utf8_text cs buf scalars encoded) encoded
bytes_of-text_of ascii buf h l = ap ok (
    ap ascii_to_bytes (map-mask 128 127 (λ c hc. omega (arith, bit_and-mod 7 c)) buf l)
    ∙ ascii_to_bytes-of buf h)
bytes_of-text_of latin1 buf h l = ap ok (ascii_to_bytes-of buf h)
bytes_of-text_of base64 buf h l = base64_to_bytes-from_byte_array buf h
bytes_of-text_of utf16le buf h l = ap ok (even_units buf h l)

-- Strings that the bytes that they stand for give back: what `toString` writes in hexadecimal and in
-- base64, well-formed strings in UTF-8, code units below 128 and below 256 in ASCII and in Latin-1,
-- and any code units in UTF-16.
abbrev pub Spelled : Encoding → List ℕ → Type 0
Spelled hex string = (bs : List ℕ) × IsBytes bs × (string ≡ hex_codes bs)
Spelled utf8 string = (cs : List ℕ) × All IsScalar cs × (string ≡ utf16 cs)
Spelled ascii string = All (λ c. c < 128) string
Spelled latin1 string = IsBytes string
Spelled base64 string = (bs : List ℕ) × IsBytes bs × (string ≡ from_byte_array bs)
Spelled utf16le string = All IsUnit string

ascii-IsBytes : (string : List ℕ) → All (λ c. c < 128) string → IsBytes string
ascii-IsBytes [] h = tt
ascii-IsBytes (c ∷ string) (hc, h) = (omega arith, ascii-IsBytes string h)

pub text_of-bytes_of :
    (e : Encoding) (string bs : List ℕ)
    → Spelled e string
    → bytes_of e string ≡ ok bs
    → text_of e bs ≡ string
text_of-bytes_of hex string bs (bs', h, same) e =
    let back : bs' ≡ bs =
      ok_inj bs' bs (ap ok (sym (hex_bytes-hex_codes bs' h)) ∙ (rw same at e)) in
    ap hex_codes (sym back) ∙ sym same
text_of-bytes_of utf8 string bs (cs, h, same) e = utf8_text cs bs h (rw same at e) ∙ sym same
text_of-bytes_of ascii string bs h e =
    let same = ok_inj (ascii_to_bytes string) bs e in
    ap (map (λ b. bit_and b 127)) (sym same ∙ ascii_to_bytes-of string (ascii-IsBytes string h))
    ∙ map-mask 128 127 (λ c hc. omega (arith, bit_and-mod 7 c)) string h
text_of-bytes_of latin1 string bs h e =
    sym (ok_inj (ascii_to_bytes string) bs e) ∙ ascii_to_bytes-of string h
text_of-bytes_of base64 string bs (bs', h, same) e =
    let back : bs' ≡ bs =
      ok_inj bs' bs (sym (base64_to_bytes-from_byte_array bs' h) ∙ (rw same at e)) in
    ap from_byte_array (sym back) ∙ sym same
text_of-bytes_of utf16le string bs h e =
    ap utf16le_units (sym (ok_inj (unit_bytes string) bs e)) ∙ utf16le_units-unit_bytes string
