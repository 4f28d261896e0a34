-- ===== src/Buffer/Encoding/Text/Laws.antt =====
-- The slices read the bytes of their range, and `slowToString` cuts the range to the buffer.
use winterjs.Common.{
  ℕ, zero, suc, ◌-◌, ◌+◌, ◌%◌, ◌<◌, ◌^◌, ◌≤◌, ◌≡◌, refl, sym, ap, ◌∙◌, arith, ◌⊎◌, inl, inr, List,
  [], ◌∷◌, length, drop, map, bit_and, Option, none, some, min, true, false, ◌&&◌, ltb, leb, ◌==◌,
  if◌then◌else◌, Bool-cases, take_all, length-take, length-drop,
}
use winterjs.Common.Int.{ℤ, pos, negsuc}
use winterjs.Js.{ok, ◌>>=◌}
use winterjs.Js.Int32.{to_uint32}
use winterjs.Base64.{from_byte_array}
use winterjs.Buffer.Window.{window}
use winterjs.Buffer.Slice.Laws.{drop-take, slice-window}
use winterjs.Buffer.Blit.{ascii_slice, latin1_slice}
use winterjs.Buffer.Hex.{hex_codes, hex_slice}
use winterjs.Buffer.Utf8.{utf8_slice, decode}
use winterjs.Buffer.Utf16.{utf16le_units, utf16le_slice}
use winterjs.Buffer.Encoding.{
  Encoding, hex, utf8, ascii, latin1, base64, utf16le, select, known, or_utf8,
}
use winterjs.Buffer.Encoding.Clean.{base64_slice}
use winterjs.Buffer.Encoding.Spec.{text_of}
use winterjs.Buffer.Encoding.Text.{
  slice_as, clamp_text_start, clamp_text_end, slow_to_string, to_string,
}

hex_slice-window :
    (buf : List ℕ) (start end : ℕ)
    → start < end
    → end ≤ length buf
    → hex_slice buf (pos start) (pos end) ≡ hex_codes (window buf start (end - start))
unfolding hex_slice
hex_slice-window buf start zero h k = absurd (omega arith)
hex_slice-window buf start (suc e) h k =
    let within : ltb (length buf) (suc e) ≡ false = ground arith in rw within refl

module _ (buf : List ℕ) (start end : ℕ) (order : start < end) (inside : end ≤ length buf) where
  last_inside : min (length buf) end ≡ end
  last_inside = omega arith

  utf8_slice-window :
      utf8_slice buf start end
      ≡ decode (length (window buf start (end - start))) (window buf start (end - start))
  unfolding utf8_slice
  utf8_slice-window = rw last_inside (ap (λ bs. decode (length bs) bs) (drop-take start end buf))

  base64_slice-window :
      end < 2 ^ 31 → base64_slice buf start end ≡ from_byte_array (window buf start (end - start))
  unfolding base64_slice
  base64_slice-window small = elim (whole_or_part) [
    | inl (whole, s, e) ↦
        rw whole (ap from_byte_array (sym (rw s (take_all (end - 0) buf (omega arith)))))
    | inr part ↦
        rw part (ap from_byte_array (slice-window buf start end (omega arith) inside small))
  ]
    where
      whole_or_part :
          (((start == 0) && (end == length buf)) ≡ true) × (start ≡ 0) × (end ≡ length buf)
          ⊎ (((start == 0) && (end == length buf)) ≡ false)
      whole_or_part = ground arith

  -- In every encoding, a range of the buffer is read as its bytes alone.
  slice_as-text_of :
      (e : Encoding)
      → end < 2 ^ 31
      → slice_as e buf start end ≡ text_of e (window buf start (end - start))
  unfolding slice_as
  slice_as-text_of hex small = hex_slice-window buf start end order inside
  slice_as-text_of utf8 small = utf8_slice-window
  slice_as-text_of ascii small =
      unfold ascii_slice in
      ap (λ m. map (λ b. bit_and b 127) (window buf start (m - start))) last_inside
  slice_as-text_of latin1 small =
      unfold latin1_slice in ap (λ m. window buf start (m - start)) last_inside
  slice_as-text_of base64 small = base64_slice-window small
  slice_as-text_of utf16le small =
      unfold utf16le_slice in
      ap utf16le_units (slice-window buf start end (omega arith) inside small)

pub text_of-nil : (e : Encoding) → text_of e [] ≡ []
unfolding decode from_byte_array
text_of-nil hex = refl
text_of-nil utf8 = refl
text_of-nil ascii = refl
text_of-nil latin1 = refl
text_of-nil base64 = refl
text_of-nil utf16le = refl

window-none :
    (buf : List ℕ) (start n : ℕ) → length (window buf start n) ≡ 0 → window buf start n ≡ []
window-none buf start n h = nil_of (window buf start n) h
  where
    nil_of : (xs : List ℕ) → length xs ≡ 0 → xs ≡ []
    nil_of [] e = refl
    nil_of (x ∷ xs) e = absurd (omega arith)

clamp_text_end-le : (len : ℕ) (end : Option ℤ) → clamp_text_end len end ≤ len
clamp_text_end-le len none = omega arith
clamp_text_end-le len (some (pos n)) = ground arith
clamp_text_end-le len (some (negsuc n)) = omega arith

-- An end of a range in a buffer of `len` bytes, `default` where it is missing.
abbrev pub inside_or : ℕ → ℕ → Option ℤ → ℕ
inside_or len default none = default
inside_or len default (some (pos n)) = min n len
inside_or len default (some (negsuc n)) = 0

module _ (lower : List ℕ → List ℕ) (buf : List ℕ) (encoding : Option (List ℕ)) (e : Encoding)
    (known_name : select lower (or_utf8 encoding) ≡ some e) (small : length buf < 2 ^ 31) where
  empty :
      (first n : ℕ)
      → n + first ≤ first ⊎ (length buf ≤ first)
      → ok [] ≡ ok (text_of e (window buf first n))
  empty first n h = ap ok (
      sym (text_of-nil e)
      ∙ ap (text_of e) (
          sym (
            window-none buf first n
              (omega (arith, length-take n (drop first buf), length-drop first buf)))))

  slow_to_string-text_of :
      (start end : Option ℤ)
      → slow_to_string lower buf encoding start end
        ≡ ok (
            let first = clamp_text_start start in
            let last = clamp_text_end (length buf) end in
            text_of e (window buf first (last - first)))
  unfolding slow_to_string
  slow_to_string-text_of start end =
      by_range (clamp_text_start start) (clamp_text_end (length buf) end)
        (clamp_text_end-le (length buf) end)
    where
      by_range :
          (first last : ℕ)
          → last ≤ length buf
          → (if ltb (length buf) first
              then ok []
              else if leb last 0
              then ok []
              else if leb (to_uint32 (pos last)) (to_uint32 (pos first))
              then ok []
              else known (select lower (or_utf8 encoding)) >>= λ e.
                  ok (slice_as e buf (to_uint32 (pos first)) (to_uint32 (pos last))))
            ≡ ok (text_of e (window buf first (last - first)))
      by_range first last inside = elim (Bool-cases (ltb (length buf) first)) [
        | inl beyond ↦ rw beyond (empty first (last - first) (ground arith))
        | inr within ↦ elim (Bool-cases (leb last 0)) [
          | inl none_left ↦ rw (within, none_left) (empty first (last - first) (ground arith))
          | inr some_left ↦
              let f : first % 2 ^ 32 ≡ first = ground arith in
              let l : last % 2 ^ 32 ≡ last = ground arith in
              elim (Bool-cases (leb last first)) [
                | inl crossed ↦
                    rw (within, some_left, f, l, crossed)
                      (empty first (last - first) (ground arith))
                | inr ordered ↦
                    rw (within, some_left, f, l, ordered, known_name)
                      (ap ok
                        (slice_as-text_of buf first last (ground arith) inside e (omega arith)))
              ]
        ]
      ]

  -- The same, with the range that the code makes of its arguments.
  to_string-clamped :
      (start end : Option ℤ)
      → to_string lower buf (some (encoding, start, end))
        ≡ ok (
            let first = clamp_text_start start in
            let last = clamp_text_end (length buf) end in
            text_of e (window buf first (last - first)))
  unfolding to_string
  to_string-clamped start end = elim (Bool-cases (length buf == 0)) [
    | inl none_left ↦ rw none_left (
        empty (clamp_text_start start) (clamp_text_end (length buf) end - clamp_text_start start)
          (ground arith))
    | inr some_left ↦ rw some_left (slow_to_string-text_of start end)
  ]

  -- The text of the whole buffer.
  pub to_string_all : to_string lower buf (some (encoding, none, none)) ≡ ok (text_of e buf)
  to_string_all =
      to_string-clamped none none
      ∙ ap (λ bs. ok (text_of e bs)) (take_all (length buf - 0) buf (omega arith))

  -- `toString` of a range of a buffer of less than 2 ^ 31 bytes, in an encoding that is known, is the
  -- text of the bytes in the range. A missing end of the range is that of the buffer, and one outside
  -- of the buffer is moved to the next end of the buffer.
  pub to_string-text_of :
      (start end : Option ℤ)
      → to_string lower buf (some (encoding, start, end))
        ≡ ok (
            let first = inside_or (length buf) 0 start in
            let last = inside_or (length buf) (length buf) end in
            text_of e (window buf first (last - first)))
  to_string-text_of start end =
      to_string-clamped start end ∙ ap (λ bs. ok (text_of e bs)) (by_start start)
    where
      same_end :
          (end : Option ℤ)
          → clamp_text_end (length buf) end ≡ inside_or (length buf) (length buf) end
      same_end none = refl
      same_end (some (pos n)) = ground arith
      same_end (some (negsuc n)) = refl

      by_start :
          (start : Option ℤ)
          → window buf
              (clamp_text_start start)
              (clamp_text_end (length buf) end - clamp_text_start start)
            ≡ (let first = inside_or (length buf) 0 start in
                let last = inside_or (length buf) (length buf) end in
                window buf first (last - first))
      by_start none = ap (λ k. window buf 0 (k - 0)) (same_end end)
      by_start (some (negsuc n)) = ap (λ k. window buf 0 (k - 0)) (same_end end)
      by_start (some (pos n)) = elim (Bool-cases (ltb (length buf) n)) [
        | inl far ↦
            let le = clamp_text_end-le (length buf) end in
            let none1 : clamp_text_end (length buf) end - n ≡ 0 = ground arith in
            let none2 : inside_or (length buf) (length buf) end - min n (length buf) ≡ 0 =
              rw (sym (same_end end)) (ground arith) in
            rw (none1, none2) refl
        | inr near ↦
            let e : n ≡ min n (length buf) = ground arith in
            ap (λ k. window buf n (k - n)) (same_end end)
            ∙ ap (λ m. window buf m (inside_or (length buf) (length buf) end - m)) e
      ]
