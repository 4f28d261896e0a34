-- ===== src/Buffer/Encoding/Construct/Laws.antt =====
-- `fromString` makes a buffer of the bytes that the string stands for.
use winterjs.Common.{
  ℕ, suc, ◌+◌, ◌-◌, ◌*◌, ◌/◌, ◌≤◌, ◌≡◌, refl, sym, ap, ◌∙◌, arith, inl, inr, List, [], ◌∷◌, length,
  take, take_all, replicate, length-replicate, All, Option, none, some, ltb, ◌==◌, false,
  Bool-cases,
}
use winterjs.Common.Int.{pos}
use winterjs.Js.{Result, ok, ◌>>=◌}
use winterjs.Base64.{to_byte_array}
use winterjs.Buffer.Window.{splice, window, window-splice, length-splice}
use winterjs.Buffer.Slice.{to_int32}
use winterjs.Buffer.Slice.Laws.{slice-window}
use winterjs.Buffer.Copy.{eq_ℤ}
use winterjs.Buffer.Concat.{create_buffer, k_max_length}
use winterjs.Buffer.Blit.{ascii_to_bytes}
use winterjs.Buffer.Hex.Laws.{hex_bytes, length-hex_bytes}
use winterjs.Buffer.Utf8.{utf8_to_bytes}
use winterjs.Buffer.Utf8.Total.{IsUnit, utf8_to_bytes_total}
use winterjs.Buffer.Utf16.Laws.{unit_bytes, length-unit_bytes}
use winterjs.Buffer.Encoding.{
  Encoding, hex, utf8, ascii, latin1, base64, utf16le, named, select, is_encoding, or_utf8,
  KeepsSmall, select-lowered,
}
use winterjs.Buffer.Encoding.Clean.{base64_to_bytes}
use winterjs.Buffer.Encoding.Spec.{bytes_of}
use winterjs.Buffer.Encoding.Write.{with_encoding, write, write_range, clamp_length}
use winterjs.Buffer.Encoding.Write.Laws.{bytes_within, limit_of, put, write-in_range}
use winterjs.Buffer.Encoding.Construct.{length_as, string_byte_length, cut_to, from_string}

pub ok_inj : (a b : List ℕ) → Path (Result (List ℕ)) (ok a) (ok b) → a ≡ b
ok_inj a b e = cc e

length-ascii_to_bytes : (string : List ℕ) → length (ascii_to_bytes string) ≡ length string
length-ascii_to_bytes [] = refl
length-ascii_to_bytes (c ∷ string) = ap suc (length-ascii_to_bytes string)

-- `byteLength` counts the bytes, in hexadecimal at least as many, and no more than `max`.
abbrev Counts : Encoding → List ℕ → List ℕ → ℕ → Type 0
Counts e string bs n =
    (length_as false string (some e) ≡ ok (pos n))
    × (length bs ≤ n)
    × (bytes_within e n string ≡ ok bs)

length_as-Counts :
    (e : Encoding) (string bs : List ℕ) (max : ℕ)
    → All IsUnit string
    → bytes_of e string ≡ ok bs
    → 2 * length string ≤ max
    → length bs ≤ max
    → (n : ℕ) × Counts e string bs n × (n ≤ max)
unfolding length_as
length_as-Counts hex string bs max units h le fits =
    let same = ok_inj (hex_bytes string) bs h in
    (
      length string / 2,
      (refl, rw (sym same) (omega (arith, length-hex_bytes string)), h),
      omega arith,
    )
length_as-Counts utf8 string bs max units h le fits =
    let t = utf8_to_bytes_total string units in
    let same = ok_inj t.0 bs (sym t.1 ∙ h) in
    let l = t.3 (length bs) in
    (length bs, (rw h refl, omega arith, l.1 ∙ ap ok (l.3 (rw same (omega arith)) ∙ same)), fits)
length_as-Counts ascii string bs max units h le fits =
    let same = ok_inj (ascii_to_bytes string) bs h in
    (
      length string,
      (refl, rw (sym same) (omega (arith, length-ascii_to_bytes string)), h),
      omega arith,
    )
length_as-Counts latin1 string bs max units h le fits =
    let same = ok_inj (ascii_to_bytes string) bs h in
    (
      length string,
      (refl, rw (sym same) (omega (arith, length-ascii_to_bytes string)), h),
      omega arith,
    )
length_as-Counts base64 string bs max units h le fits =
    (length bs, (rw h refl, omega arith, h), fits)
length_as-Counts utf16le string bs max units h le fits =
    let same = ok_inj (unit_bytes string) bs h in
    (
      length string * 2,
      (
        refl,
        rw (sym same) (omega (arith, length-unit_bytes string)),
        ap (λ s. ok (unit_bytes s)) (take_all (length string * 2 / 2) string (omega arith)) ∙ h,
      ),
      omega arith,
    )

or_utf8-or_utf8 :
    (encoding : Option (List ℕ)) → or_utf8 (some (or_utf8 encoding)) ≡ or_utf8 encoding
or_utf8-or_utf8 none = refl
or_utf8-or_utf8 (some []) = refl
or_utf8-or_utf8 (some (c ∷ name)) = refl

length_as-nil : (e : Encoding) → length_as false [] (some e) ≡ ok (pos 0)
unfolding length_as utf8_to_bytes base64_to_bytes to_byte_array
length_as-nil hex = refl
length_as-nil utf8 = refl
length_as-nil ascii = refl
length_as-nil latin1 = refl
length_as-nil base64 = refl
length_as-nil utf16le = refl

string_byte_length-as :
    (lower : List ℕ → List ℕ) (string name : List ℕ) (e : Encoding) (n : ℕ)
    → select lower name ≡ some e
    → length_as false string (some e) ≡ ok (pos n)
    → string_byte_length lower false string name ≡ ok (pos n)
unfolding string_byte_length
string_byte_length-as lower [] name e n found h = sym (length_as-nil e) ∙ h
string_byte_length-as lower (c ∷ string) name e n found h =
    let some_left : (suc (length string) == 0) ≡ false = ground arith in rw (found, some_left) h

to_int32-small : (n : ℕ) → n ≤ k_max_length → to_int32 (pos n) ≡ pos n
to_int32-small n h = ground arith

limit_of-all :
    (e : Encoding) (n : ℕ) (bs : List ℕ)
    → length bs ≤ n
    → take (limit_of e n (clamp_length n (some n))) bs ≡ bs
limit_of-all e n bs h = take_all _ bs (by_encoding e)
  where
    by_encoding : (e : Encoding) → length bs ≤ limit_of e n (clamp_length n (some n))
    by_encoding hex = ground arith
    by_encoding utf8 = ground arith
    by_encoding ascii = ground arith
    by_encoding latin1 = ground arith
    by_encoding base64 = ground arith
    by_encoding utf16le = ground arith

-- What `fromString` does with what was written.
cut_to-put :
    (n : ℕ) (bs : List ℕ)
    → length bs ≤ n
    → n ≤ k_max_length
    → cut_to (pos n) (put (replicate n 0) 0 bs) ≡ bs
cut_to-put n bs h small = elim (Bool-cases (eq_ℤ (pos (length bs)) (pos n))) [
  | inl all ↦
      let whole : take (length bs) filled ≡ filled =
        take_all (length bs) filled (ground (arith, size)) in
      rw all (sym whole ∙ front)
  | inr part ↦ rw part (
      slice-window filled 0 (length bs) (omega arith) (omega (arith, size)) (omega arith)
      ∙ ap (window filled 0) (let e : length bs - 0 ≡ length bs = omega arith in e)
      ∙ front)
]
  where
    filled : List ℕ
    filled = splice (replicate n 0) 0 bs

    room : 0 + length bs ≤ length {A = ℕ} (replicate n 0)
    room = omega (arith, length-replicate {A = ℕ} n 0)

    size : length (splice (replicate n 0) 0 bs) ≡ n
    size = length-splice (replicate n 0) 0 bs room ∙ length-replicate n 0

    front : window (splice (replicate n 0) 0 bs) 0 (length bs) ≡ bs
    front = window-splice (replicate n 0) 0 bs room

-- `write` of a string whose bytes all fit.
write_whole :
    (lower : List ℕ → List ℕ) (buf string bs : List ℕ) (encoding : Option (List ℕ)) (e : Encoding)
    → All IsUnit string
    → select lower (or_utf8 encoding) ≡ some e
    → bytes_within e (length buf) string ≡ ok bs
    → length bs ≤ length buf
    → write lower buf string (with_encoding (or_utf8 encoding)) ≡ ok (put buf 0 bs)
write_whole lower buf string bs encoding e units found within enough =
    let (bs', taken, _, done) =
      write-in_range lower buf string (with_encoding (or_utf8 encoding)) 0 (some (length buf))
        (some (or_utf8 encoding)) e units (unfold write_range in refl) (omega arith)
        (ap (select lower) (or_utf8-or_utf8 encoding) ∙ found) in
    let room : length buf - 0 ≡ length buf = omega arith in
    let same : bs' ≡ bs = ok_inj bs' bs (sym taken ∙ (rw room within)) in
    done ∙ ap (λ ds. ok (put buf 0 ds)) (rw (room, same) (limit_of-all e (length buf) bs enough))

-- In an encoding that is known behind a `toLowerCase` that keeps small letters, a string of code units
-- becomes the buffer of the bytes that it stands for, where it and these are not too many for a buffer.
pub from_string-bytes_of :
    (lower : List ℕ → List ℕ) (string bs : List ℕ) (encoding : Option (List ℕ)) (e : Encoding)
    → KeepsSmall lower
    → named (lower (or_utf8 encoding)) ≡ some e
    → All IsUnit string
    → bytes_of e string ≡ ok bs
    → 2 * length string ≤ k_max_length
    → length bs ≤ k_max_length
    → from_string lower string encoding ≡ ok bs
unfolding from_string is_encoding
from_string-bytes_of lower string bs encoding e keeps known units h le fits =
    let (n, (counted, enough, within), small) =
      length_as-Counts e string bs k_max_length units h le fits in
    rw
      (
        known,
        string_byte_length-as lower string (or_utf8 encoding) e n found counted,
        to_int32-small n small,
      )
      (after n enough within small)
  where
    found : select lower (or_utf8 encoding) ≡ some e
    found = select-lowered lower (or_utf8 encoding) e keeps known

    after :
        (n : ℕ)
        → length bs ≤ n
        → bytes_within e n string ≡ ok bs
        → n ≤ k_max_length
        → (create_buffer n >>= λ buf.
            write lower buf string (with_encoding (or_utf8 encoding)) >>= λ w.
            ok (cut_to (pos n) w))
          ≡ ok bs
    after n enough within small =
        let size : length (replicate {A = ℕ} n 0) ≡ n = length-replicate {A = ℕ} n 0 in
        let below : ltb k_max_length n ≡ false = ground arith in
        unfold create_buffer in
        rw
          (
            below,
            write_whole lower (replicate n 0) string bs encoding e units found (rw size within)
                (omega (arith, size)),
          )
          (ap ok (cut_to-put n bs enough small))
