-- ===== src/Buffer/Encoding/Write/Laws.antt =====
-- What `write` puts into the buffer, in every encoding.
use winterjs.Common.{
  ℕ, ◌-◌, ◌/◌, ◌≤◌, ◌≡◌, refl, sym, ap, ap₂, ◌∙◌, arith, ◌⊎◌, inl, inr, List, length, length-take,
  take, take_all, All, All-take, Option, none, some, ltb, false,
}
use winterjs.Common.{zero, suc, min}
use winterjs.Common.Int.{pos}
use winterjs.Js.{Result, ok, IsBytes}
use winterjs.Buffer.Window.{splice}
use winterjs.Buffer.Blit.{blit_buffer, ascii_to_bytes, ascii_write}
use winterjs.Buffer.Blit.Laws.{blit_buffer-splice, blit_count}
use winterjs.Buffer.Blit.Latin.{ascii_to_bytes-IsBytes}
use winterjs.Buffer.Hex.{hex_limit}
use winterjs.Buffer.Hex.Laws.{hex_bytes, hex_bytes-IsBytes, hex_write-splice}
use winterjs.Buffer.Utf8.{utf8_to_bytes}
use winterjs.Buffer.Utf8.Total.{IsUnit, utf8_to_bytes_total}
use winterjs.Buffer.Utf16.{ucs2_write}
use winterjs.Buffer.Utf16.Laws.{unit_bytes, unit_bytes-IsBytes, utf16le_to_bytes-take}
use winterjs.Buffer.Encoding.{Encoding, hex, utf8, ascii, latin1, base64, utf16le, select, or_utf8}
use winterjs.Buffer.Encoding.Clean.{base64_to_bytes, base64_write}
use winterjs.Buffer.Encoding.Clean.Total.{base64_to_bytes_total}
use winterjs.Buffer.Encoding.Write.{
  utf8_write, write_as, clamp_length, write_at, WriteArgs, at_offset, number, name, write_range,
  write,
}

-- The bytes that a string has for a buffer with `room` bytes left. In UTF-8 and UTF-16 these are
-- whole characters only, so that none is cut at the end of the buffer.
abbrev pub bytes_within : Encoding → ℕ → List ℕ → Result (List ℕ)
bytes_within hex room string = ok (hex_bytes string)
bytes_within utf8 room string = utf8_to_bytes string (some room)
bytes_within ascii room string = ok (ascii_to_bytes string)
bytes_within latin1 room string = ok (ascii_to_bytes string)
bytes_within base64 room string = base64_to_bytes string
bytes_within utf16le room string = ok (unit_bytes (take (room / 2) string))

-- How many of them are written: in hexadecimal a length of 0 counts as a missing one.
abbrev pub limit_of : Encoding → ℕ → ℕ → ℕ
limit_of hex room len = hex_limit room len
limit_of utf8 room len = len
limit_of ascii room len = len
limit_of latin1 room len = len
limit_of base64 room len = len
limit_of utf16le room len = len

-- The count that is returned, and the buffer.
abbrev pub put : List ℕ → ℕ → List ℕ → ℕ × List ℕ
put buf offset ds = (length ds, splice buf offset ds)

blit_buffer-put :
    (src buf : List ℕ) (offset len : ℕ)
    → IsBytes src
    → offset ≤ length buf
    → len ≤ length buf - offset
    → blit_buffer src buf offset len ≡ put buf offset (take len src)
blit_buffer-put src buf offset len h inside fits =
    blit_buffer-splice src buf offset len h inside
    ∙ ap₂ (λ n ds. (n, splice buf offset ds)) (omega (arith, length-take len src)) same
  where
    cut : ℕ
    cut = blit_count src buf offset len

    same : take (blit_count src buf offset len) src ≡ take len src
    same = elim (all_or_len) [
      | inl (short, longer) ↦ take_all cut src short ∙ sym (take_all len src longer)
      | inr e ↦ ap (λ n. take n src) e
    ]
      where
        all_or_len :
            (length src ≤ blit_count src buf offset len) × (length src ≤ len)
            ⊎ (blit_count src buf offset len ≡ len)
        all_or_len = omega arith

module _ (buf string : List ℕ) (offset len : ℕ) (units : All IsUnit string)
    (inside : offset ≤ length buf) (fits : len ≤ length buf - offset) where
  abbrev room : ℕ
  room = length buf - offset

  ascii_put : ascii_write buf string offset len ≡ put buf offset (take len (ascii_to_bytes string))
  unfolding ascii_write
  ascii_put =
      blit_buffer-put (ascii_to_bytes string) buf offset len (ascii_to_bytes-IsBytes string) inside
        fits

  utf16_put :
      ucs2_write buf string offset len
      ≡ put buf offset (take len (unit_bytes (take (room / 2) string)))
  unfolding ucs2_write
  utf16_put = rw (utf16le_to_bytes-take string room) (
      blit_buffer-put (unit_bytes (take (room / 2) string)) buf offset len
        (unit_bytes-IsBytes (take (room / 2) string) (All-take _ (room / 2) string units)) inside
        fits)

  -- In every encoding the first bytes of the string that fit are written, as many as the length says,
  -- and nothing throws.
  pub write_as-put :
      (e : Encoding)
      → (bs : List ℕ) × (bytes_within e (length buf - offset) string ≡ ok bs)
        × IsBytes bs
        × (write_as e buf string offset len
            ≡ ok (put buf offset (take (limit_of e (length buf - offset) len) bs)))
  unfolding write_as
  write_as-put hex = (
    hex_bytes string,
    refl,
    hex_bytes-IsBytes string,
    ap ok (hex_write-splice buf string offset len inside),
  )
  write_as-put utf8 =
      let t = (utf8_to_bytes_total string units).3 (length buf - offset) in
      (
        t.0,
        t.1,
        t.2,
        (unfold utf8_write in rw t.1 (ap ok (blit_buffer-put t.0 buf offset len t.2 inside fits))),
      )
  write_as-put ascii = (ascii_to_bytes string, refl, ascii_to_bytes-IsBytes string, ap ok ascii_put)
  write_as-put latin1 =
      (ascii_to_bytes string, refl, ascii_to_bytes-IsBytes string, ap ok ascii_put)
  write_as-put base64 =
      let t = base64_to_bytes_total string in
      (
        t.0,
        t.1,
        t.2,
        (unfold base64_write in
            rw t.1 (ap ok (blit_buffer-put t.0 buf offset len t.2 inside fits))),
      )
  write_as-put utf16le = (
    unit_bytes (take (room / 2) string),
    refl,
    unit_bytes-IsBytes (take (room / 2) string) (All-take _ (room / 2) string units),
    ap ok utf16_put,
  )

pub clamp_length-le : (remaining : ℕ) (len : Option ℕ) → clamp_length remaining len ≤ remaining
clamp_length-le remaining none = omega arith
clamp_length-le remaining (some n) = ground arith

-- `write` with the range that the code makes of its arguments.
pub write-in_range :
    (lower : List ℕ → List ℕ) (buf string : List ℕ) (args : WriteArgs) (offset : ℕ) (len : Option ℕ)
    (encoding : Option (List ℕ)) (e : Encoding)
    → All IsUnit string
    → write_range (length buf) args ≡ ok (offset, len, encoding)
    → offset ≤ length buf
    → select lower (or_utf8 encoding) ≡ some e
    → (bs : List ℕ) × (bytes_within e (length buf - offset) string ≡ ok bs)
      × IsBytes bs
      × (write lower buf string args
          ≡ ok (
              let room = length buf - offset in
              put buf offset (take (limit_of e room (clamp_length room len)) bs)))
unfolding write write_at
write-in_range lower buf string args offset len encoding e units range inside found =
    let within : ltb (length buf) offset ≡ false = ground arith in
    let r =
      write_as-put buf string offset (clamp_length (length buf - offset) len) units inside
        (clamp_length-le (length buf - offset) len) e in
    (r.0, r.1, r.2, rw (range, within, found) (r.3))

-- The arguments of a write at an offset, with a length or without one.
abbrev pub args_of : ℕ → Option ℕ → List ℕ → WriteArgs
args_of offset none encoding = at_offset (pos offset) (name encoding none) none
args_of offset (some n) encoding = at_offset (pos offset) (number (pos n)) (some encoding)

-- How many bytes may be written where there is room for `room`: in hexadecimal a length of 0 counts
-- as a missing one.
abbrev pub allowed : Encoding → ℕ → Option ℕ → ℕ
allowed e room none = room
allowed hex room (some zero) = room
allowed hex room (some (suc n)) = min (suc n) room
allowed utf8 room (some n) = min n room
allowed ascii room (some n) = min n room
allowed latin1 room (some n) = min n room
allowed base64 room (some n) = min n room
allowed utf16le room (some n) = min n room
