-- ===== src/Buffer/Search/Wide/Text.antt =====
-- `indexOf` of a string looks for the bytes that the string stands for.
use winterjs.Common.{
  ℕ, ◌*◌, ◌<◌, ◌≤◌, ◌≡◌, refl, ap, arith, false, true, ◌==◌, List, [], ◌∷◌, length, Option, none,
  some, All,
}
use winterjs.Common.Int.{ℤ}
use winterjs.Js.{ok}
use winterjs.Buffer.Concat.{k_max_length}
use winterjs.Buffer.Utf8.Total.{IsUnit}
use winterjs.Buffer.Search.{search_start}
use winterjs.Buffer.Search.Forward.{First, array_index_of-First}
use winterjs.Buffer.Search.Laws.{search_start-lt}
use winterjs.Buffer.Search.Wide.{is_wide, wide_encoding, search_bytes, index_of_string}
use winterjs.Buffer.Encoding.{Encoding, named, or_utf8, KeepsSmall}
use winterjs.Buffer.Encoding.Spec.{bytes_of}
use winterjs.Buffer.Encoding.Construct.Laws.{from_string-bytes_of}

wide_encoding-narrow :
    (lower : List ℕ → List ℕ) (encoding : Option (List ℕ)) (e : Encoding)
    → KeepsSmall lower
    → named (lower (or_utf8 encoding)) ≡ some e
    → is_wide (some e) ≡ false
    → wide_encoding lower encoding ≡ false
unfolding wide_encoding
wide_encoding-narrow lower none e keeps known narrow = refl
wide_encoding-narrow lower (some []) e keeps known narrow =
    rw (keeps [] refl) (unfold named in refl)
wide_encoding-narrow lower (some (c ∷ name)) e keeps known narrow = rw known narrow

search_bytes-First :
    (buffer bs : List ℕ) (start : ℕ)
    → 0 < length bs
    → start ≤ length buffer
    → (z : ℤ) × (search_bytes false buffer bs start ≡ ok (some z)) × First buffer bs start z
search_bytes-First buffer [] start h inside = absurd (omega arith)
search_bytes-First buffer (b ∷ bs) start h inside =
    let (z, e, first) = array_index_of-First buffer (b ∷ bs) start h inside in (z, ap ok e, first)

-- In a buffer that is not empty, from an offset whose start is inside, and in a known encoding of one
-- byte behind a `toLowerCase` that keeps small letters, `indexOf` of a string of code units that
-- stands for some bytes, not too many for a buffer, ends with the first place at or behind the
-- start where these bytes stand, or with -1 where there is none.
pub index_of_string-First :
    (lower : List ℕ → List ℕ) (buffer string bs : List ℕ) (offset : Option ℤ)
    (encoding : Option (List ℕ)) (e : Encoding) (start : ℕ)
    → KeepsSmall lower
    → named (lower (or_utf8 encoding)) ≡ some e
    → is_wide (some e) ≡ false
    → All IsUnit string
    → bytes_of e string ≡ ok bs
    → 2 * length string ≤ k_max_length
    → length bs ≤ k_max_length
    → 0 < length bs
    → 0 < length buffer
    → search_start (length buffer) offset true ≡ some start
    → (z : ℤ) × (index_of_string lower buffer string offset encoding ≡ ok (some z))
      × First buffer bs start z
unfolding index_of_string
index_of_string-First lower buffer string bs offset encoding e start keeps known narrow units stands
      le fits some_bytes full at =
    let some_left : (length buffer == 0) ≡ false = ground arith in
    let inside = search_start-lt (length buffer) offset true start full at in
    let (z, found, first) = search_bytes-First buffer bs start some_bytes (omega arith) in
    (
      z,
      rw
          (
            some_left,
            at,
            from_string-bytes_of lower string bs encoding e keeps known units stands le fits,
            wide_encoding-narrow lower encoding e keeps known narrow,
          )
          found,
      first,
    )
