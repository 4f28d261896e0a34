-- ===== src/Buffer/Encoding/Construct/RoundTrip.antt =====
-- `fromString` and `toString` undo each other.
use winterjs.Common.{ℕ, ◌*◌, ◌≤◌, ◌≡◌, ap, ◌∙◌, arith, List, length, All, Option, none, some}
use winterjs.Js.{ok, ◌>>=◌, IsBytes}
use winterjs.Buffer.Concat.{k_max_length}
use winterjs.Buffer.Utf8.Total.{IsUnit}
use winterjs.Buffer.Encoding.{Encoding, named, select, or_utf8, KeepsSmall, select-lowered}
use winterjs.Buffer.Encoding.Clean.Laws.{}
use winterjs.Buffer.Encoding.Spec.{bytes_of, text_of}
use winterjs.Buffer.Encoding.Text.{to_string}
use winterjs.Buffer.Encoding.Text.Laws.{to_string_all}
use winterjs.Buffer.Encoding.Construct.{from_string}
use winterjs.Buffer.Encoding.Construct.Laws.{from_string-bytes_of}
use winterjs.Buffer.Encoding.Construct.Faithful.{
  Lossless, Spelled, bytes_of-text_of, text_of-bytes_of,
}
use winterjs.Buffer.Encoding.Construct.Bounds.{text_of-IsUnit, length-text_of}

module _ (lower : List ℕ → List ℕ) (encoding : Option (List ℕ)) (e : Encoding)
    (keeps : KeepsSmall lower) (known : named (lower (or_utf8 encoding)) ≡ some e) where
  found : select lower (or_utf8 encoding) ≡ some e
  found = select-lowered lower (or_utf8 encoding) e keeps known

  -- In an encoding that is known behind a `toLowerCase` that keeps small letters, the text of a buffer
  -- of bytes that the encoding can stand for, and that is not too large for a string, is made into the
  -- same buffer again.
  pub from_string-to_string :
      (buf : List ℕ)
      → IsBytes buf
      → Lossless e buf
      → 8 * length buf ≤ k_max_length
      → (to_string lower buf (some (encoding, none, none)) >>= λ string.
          from_string lower string encoding)
        ≡ ok buf
  from_string-to_string buf h l fits = rw (to_string_all lower buf encoding e found (omega arith)) (
      from_string-bytes_of lower (text_of e buf) buf encoding e keeps known
        (text_of-IsUnit e buf h l) (bytes_of-text_of e buf h l)
        (omega (arith, length-text_of e buf)) (omega arith))

  -- A string of code units that is spelled in an encoding that is known, behind a `toLowerCase` that
  -- keeps small letters, comes back from the buffer that is made of it, where it and its bytes are not
  -- too many for a buffer.
  pub to_string-from_string :
      (string bs : List ℕ)
      → All IsUnit string
      → Spelled e string
      → bytes_of e string ≡ ok bs
      → 2 * length string ≤ k_max_length
      → length bs ≤ k_max_length
      → (from_string lower string encoding >>= λ buf.
          to_string lower buf (some (encoding, none, none)))
        ≡ ok string
  to_string-from_string string bs units spelled stands le fits =
      rw (from_string-bytes_of lower string bs encoding e keeps known units stands le fits) (
        to_string_all lower bs encoding e found (omega arith)
        ∙ ap ok (text_of-bytes_of e string bs spelled stands))
