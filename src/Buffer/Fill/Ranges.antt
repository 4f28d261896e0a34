-- ===== src/Buffer/Fill/Ranges.antt =====
-- `fill` by its arguments: the bytes that a value stands for, and the range.
use winterjs.Common.{
  ℕ, ◌-◌, ◌%◌, ◌^◌, ◌<◌, ◌≤◌, ◌≡◌, refl, sym, ap, ◌∙◌, arith, ◌⊎◌, inl, inr, true, false, List, [],
  ◌∷◌, length, Option, none, some, Bool-cases,
}
use winterjs.Common.Int.{pos, ltb_ℤ, leb_ℤ}
use winterjs.Js.{ok, IsBytes}
use winterjs.Js.Int32.{wrap, wrap-lt, to_uint32}
use winterjs.Buffer.Window.{splice, splice-nil}
use winterjs.Buffer.Encoding.{is_encoding}
use winterjs.Buffer.Encoding.Construct.{from_string}
use winterjs.Buffer.Fill.{
  FillValue, text, number, boolean, nothing, buffer, view, FillArg, FillArgs, absent, at, named,
  Filler, byte, spelled, pattern_of, shift_args, check_encoding, text_filler, prepare, fill_range,
  fill_with, fill,
}
use winterjs.Buffer.Fill.Laws.{filler_bytes, Repeats, fill-prepared}

-- An encoding that `fill` accepts, or none.
abbrev pub IsAccepted : (List ℕ → List ℕ) → Option (List ℕ) → Type 0
IsAccepted lower none = Unit {0}
IsAccepted lower (some encoding) = is_encoding lower encoding ≡ true

-- The bytes that a value stands for: the low byte of a number, 1 for true and 0 for false, a missing
-- value and the empty string, what `fromString` makes of a string of two code units or more, and the
-- bytes of a buffer with other memory.
abbrev pub StandsFor : (List ℕ → List ℕ) → FillValue → Option (List ℕ) → List ℕ → Type 0
StandsFor lower (text []) encoding bytes = IsAccepted lower encoding × (bytes ≡ 0 ∷ [])
StandsFor lower (text (c ∷ [])) encoding bytes = ⊥
StandsFor lower (text (c ∷ d ∷ string)) encoding bytes =
    IsAccepted lower encoding × (from_string lower (c ∷ d ∷ string) encoding ≡ ok bytes)
StandsFor lower (number n) encoding bytes = bytes ≡ wrap 256 n ∷ []
StandsFor lower (boolean true) encoding bytes = bytes ≡ 1 ∷ []
StandsFor lower (boolean false) encoding bytes = bytes ≡ 0 ∷ []
StandsFor lower nothing encoding bytes = bytes ≡ 0 ∷ []
StandsFor lower (buffer source) encoding bytes = bytes ≡ source
StandsFor lower (view offset size) encoding bytes = ⊥

-- Arguments that are numbers where they are given, and an encoding that is a string.
abbrev pub number_arg : Option ℕ → FillArg
number_arg none = absent
number_arg (some n) = at (pos n)

abbrev pub encoding_arg : Option (List ℕ) → FillArg
encoding_arg none = absent
encoding_arg (some s) = named s

abbrev pub given_or : ℕ → Option ℕ → ℕ
given_or default none = default
given_or default (some n) = n

shift_args-numbers :
    (len : ℕ) (start end : Option ℕ) (encoding : FillArg)
    → shift_args len (number_arg start, number_arg end, encoding)
      ≡ (number_arg start, number_arg end, encoding)
unfolding shift_args
shift_args-numbers len none none encoding = refl
shift_args-numbers len none (some e) encoding = refl
shift_args-numbers len (some s) none encoding = refl
shift_args-numbers len (some s) (some e) encoding = refl

check_encoding-IsAccepted :
    (lower : List ℕ → List ℕ) (encoding : Option (List ℕ))
    → IsAccepted lower encoding
    → check_encoding lower (encoding_arg encoding) ≡ ok encoding
unfolding check_encoding
check_encoding-IsAccepted lower none h = refl
check_encoding-IsAccepted lower (some s) h = rw h refl

module _ (lower : List ℕ → List ℕ) (len : ℕ) (start end : Option ℕ)
    (encoding : Option (List ℕ)) where
  abbrev args : FillArgs
  args = (number_arg start, number_arg end, encoding_arg encoding)

  Prepared : FillValue → List ℕ → Type 0
  Prepared value bytes =
      (filler : Filler) × (prepare lower len value args
        ≡ ok (filler, number_arg start, number_arg end))
      × (filler_bytes lower filler ≡ ok bytes)

  prepare-text :
      (string : List ℕ)
      → IsAccepted lower encoding
      → prepare lower len (text string) args
        ≡ ok (text_filler string encoding, number_arg start, number_arg end)
  unfolding prepare
  prepare-text string h =
      rw
        (
          shift_args-numbers len start end (encoding_arg encoding),
          check_encoding-IsAccepted lower encoding h,
        )
        refl

  prepare-StandsFor :
      (value : FillValue) (bytes : List ℕ)
      → StandsFor lower value encoding bytes
      → Prepared value bytes
  unfolding Prepared prepare text_filler
  prepare-StandsFor (text []) bytes (a, h) = (byte 0, prepare-text [] a, ap ok (sym h))
  prepare-StandsFor (text (c ∷ [])) bytes h = absurd h
  prepare-StandsFor (text (c ∷ d ∷ string)) bytes (a, h) =
      (spelled (c ∷ d ∷ string) encoding, prepare-text (c ∷ d ∷ string) a, h)
  prepare-StandsFor (number n) bytes h =
      let below = wrap-lt 256 n (omega arith) in
      let same : wrap 256 n % 256 ≡ wrap 256 n = omega arith in
      (byte (wrap 256 n), refl, ap (λ b. ok (b ∷ [])) same ∙ ap ok (sym h))
  prepare-StandsFor (boolean true) bytes h = (byte 1, refl, ap ok (sym h))
  prepare-StandsFor (boolean false) bytes h = (byte 0, refl, ap ok (sym h))
  prepare-StandsFor nothing bytes h = (byte 0, refl, ap ok (sym h))
  prepare-StandsFor (buffer source) bytes h = (pattern_of source, refl, ap ok (sym h))
  prepare-StandsFor (view offset size) bytes h = absurd h

-- What the checks of the range say of one inside the buffer.
Outcome : ℕ → FillArg → FillArg → ℕ → ℕ → Type 0
Outcome len first last s e =
    ((fill_range len first last ≡ ok none) × (e ≤ s))
    ⊎ ((fill_range len first last ≡ ok (some (s, e))) × (s ≤ e))

module _ (len : ℕ) (small : len < 2 ^ 32) where
  fill_range-inside :
      (start end : Option ℕ)
      → given_or 0 start ≤ len
      → given_or len end ≤ len
      → Outcome len (number_arg start) (number_arg end) (given_or 0 start) (given_or len end)
  unfolding Outcome fill_range
  fill_range-inside none none hs he = inr (refl, omega arith)
  fill_range-inside none (some e) hs he =
      let fits : ltb_ℤ (pos len) (pos e) ≡ false = ground arith in
      let same : to_uint32 (pos e) ≡ e = omega arith in inr (rw (fits, same) refl, omega arith)
  fill_range-inside (some s) none hs he =
      let fits : ltb_ℤ (pos len) (pos s) ≡ false = ground arith in
      let positive : ltb_ℤ (pos s) (pos 0) ≡ false = ground arith in
      let same : to_uint32 (pos s) ≡ s = omega arith in
      inr (rw (positive, fits, same) refl, omega arith)
  fill_range-inside (some s) (some e) hs he =
      let fits : ltb_ℤ (pos len) (pos s) ≡ false = ground arith in
      let positive : ltb_ℤ (pos s) (pos 0) ≡ false = ground arith in
      let fits' : ltb_ℤ (pos len) (pos e) ≡ false = ground arith in
      let same : to_uint32 (pos s) ≡ s = omega arith in
      let same' : to_uint32 (pos e) ≡ e = omega arith in
      elim (Bool-cases (leb_ℤ (pos e) (pos s))) [
        | inl behind ↦ inl (rw (positive, fits, fits', behind) refl, ground arith)
        | inr before ↦ inr (rw (positive, fits, fits', before, same, same') refl, ground arith)
      ]

-- In a buffer of less than 2 ^ 32 bytes, with a start and an end that are missing or at most its
-- length, the bytes from the start to the end become the bytes that the value stands for, over and over
-- again, and the others stay. A missing start is 0, and a missing end is the length. The value stands
-- for one byte or more; it is no string of one code unit, and no view of the same memory.
pub fill-Repeats :
    (lower : List ℕ → List ℕ) (buf bytes : List ℕ) (value : FillValue) (start end : Option ℕ)
    (encoding : Option (List ℕ))
    → StandsFor lower value encoding bytes
    → IsBytes bytes
    → 0 < length bytes
    → length buf < 2 ^ 32
    → given_or 0 start ≤ length buf
    → given_or (length buf) end ≤ length buf
    → (ds : List ℕ) × (fill lower buf value
          (number_arg start, number_arg end, encoding_arg encoding)
        ≡ ok (splice buf (given_or 0 start) ds))
      × (length ds ≡ given_or (length buf) end - given_or 0 start)
      × Repeats bytes 0 ds
unfolding Prepared Outcome fill fill_with
fill-Repeats lower buf bytes value start end encoding stands hb some_bytes small hs he =
    let (filler, prepared, repeated) =
      prepare-StandsFor lower (length buf) start end encoding value bytes stands in
    elim (fill_range-inside (length buf) small start end hs he) [
      | inl (nothing_left, order) ↦ (
        [],
        rw (prepared, nothing_left) (ap ok (sym (splice-nil buf (given_or 0 start)))),
        omega arith,
        λ k h. absurd (omega arith),
      )
      | inr (range, order) ↦
          fill-prepared lower buf bytes value
            (number_arg start, number_arg end, encoding_arg encoding) filler (number_arg start)
            (number_arg end) (given_or 0 start) (given_or (length buf) end) prepared range order he
            repeated hb some_bytes
    ]
