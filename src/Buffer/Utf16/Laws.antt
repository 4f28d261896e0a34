-- ===== src/Buffer/Utf16/Laws.antt =====
-- `ucs2Write` followed by `utf16leSlice`.
use winterjs.Common.{
  ℕ, zero, suc, ◌+◌, ◌-◌, ◌*◌, ◌/◌, ◌%◌, ◌^◌, ◌<◌, ◌≤◌, ◌≡◌, refl, ap, ap₂, ◌∙◌, ◌⊎◌, inl, inr,
  arith,
}
use winterjs.Common.{take_all, List, [], ◌∷◌, All, length, take, some, ltb, true, false}
use winterjs.Common.Int.{pos}
use winterjs.Js.{IsBytes}
use winterjs.Buffer.Window.{window, splice, window-splice, length-splice}
use winterjs.Buffer.Blit.Laws.{blit_buffer-splice, blit_count}
use winterjs.Buffer.Slice.Laws.{slice-window}
use winterjs.Buffer.Utf16.{utf16le_to_bytes, ucs2_write, utf16le_units, utf16le_slice}

-- The two bytes of each code unit, the low one first.
abbrev pub unit_bytes : List ℕ → List ℕ
unit_bytes [] = []
unit_bytes (c ∷ str) = (c % 256) ∷ (c / 256) ∷ unit_bytes str

pub unit_bytes-IsBytes : (str : List ℕ) → All (λ c. c < 65536) str → IsBytes (unit_bytes str)
unit_bytes-IsBytes [] h = tt
unit_bytes-IsBytes (c ∷ str) (hc, h) = (omega arith, (omega arith, unit_bytes-IsBytes str h))

pub length-unit_bytes : (str : List ℕ) → length (unit_bytes str) ≡ 2 * length str
length-unit_bytes [] = refl
length-unit_bytes (c ∷ str) = omega (arith, length-unit_bytes str)

pub utf16le_units-unit_bytes : (str : List ℕ) → utf16le_units (unit_bytes str) ≡ str
utf16le_units-unit_bytes [] = refl
utf16le_units-unit_bytes (c ∷ str) = ap₂ ◌∷◌ (omega arith) (utf16le_units-unit_bytes str)

-- As many whole code units as `units` has room for.
pub utf16le_to_bytes-take :
    (str : List ℕ) (units : ℕ) → utf16le_to_bytes str units ≡ unit_bytes (take (units / 2) str)
unfolding utf16le_to_bytes
utf16le_to_bytes-take [] units = none_left (units / 2)
  where
    none_left : (n : ℕ) → [] ≡ unit_bytes (take n [])
    none_left zero = refl
    none_left (suc n) = refl
utf16le_to_bytes-take (c ∷ str) units = elim (ltb_cases units) [
  | inl few ↦ rw (few.0, few.1)
  | inr more ↦
      rw (more.0, more.1)
        (ap (λ r. (c % 256) ∷ (c / 256) ∷ r) (utf16le_to_bytes-take str (units - 2)))
]
  where
    ltb_cases :
        (units : ℕ)
        → ((ltb units 2 ≡ true) × (units / 2 ≡ 0))
          ⊎ ((ltb units 2 ≡ false) × (units / 2 ≡ suc ((units - 2) / 2)))
    ltb_cases units = ground arith

module _ (buf str : List ℕ) (offset : ℕ) (units : All (λ c. c < 65536) str)
    (room : offset + 2 * length str ≤ length buf) where
  ucs2_write-splice :
      ucs2_write buf str offset (2 * length str)
      ≡ (2 * length str, splice buf offset (unit_bytes str))
  unfolding ucs2_write
  ucs2_write-splice =
      rw
        (
          utf16le_to_bytes-take str (length buf - offset),
          take_all ((length buf - offset) / 2) str (omega arith),
        )
        (blit_buffer-splice (unit_bytes str) buf offset (2 * length str)
            (unit_bytes-IsBytes str units) (omega arith)
          ∙ ap₂ (λ a b. (a, splice buf offset b)) (omega (arith, length-unit_bytes str))
              (take_all (blit_count (unit_bytes str) buf offset (2 * length str)) (unit_bytes str)
                (omega (arith, length-unit_bytes str))))

  -- A string of code units that fits is written whole by `ucs2Write`, as its count says, and
  -- `utf16leSlice` reads it back, at offsets below 2 ^ 31.
  pub utf16le_slice-ucs2_write :
      offset + 2 * length str < 2 ^ 31
      → ((ucs2_write buf str offset (2 * length str)).0 ≡ 2 * length str)
        × (utf16le_slice
              ((ucs2_write buf str offset (2 * length str)).1)
              (pos offset)
              (some (pos (offset + 2 * length str)))
            ≡ str)
  unfolding utf16le_slice
  utf16le_slice-ucs2_write small = rw ucs2_write-splice (
    refl,
    ap utf16le_units (
          slice-window (splice buf offset (unit_bytes str)) offset (offset + 2 * length str)
            (omega arith)
            (omega (arith, length-splice buf offset (unit_bytes str), length-unit_bytes str)) small
          ∙ bytes)
        ∙ utf16le_units-unit_bytes str,
  )
    where
      bytes :
          window (splice buf offset (unit_bytes str)) offset (offset + 2 * length str - offset)
          ≡ unit_bytes str
      bytes =
          let e : offset + 2 * length str - offset ≡ length (unit_bytes str) =
            omega (arith, length-unit_bytes str) in
          rw e (window-splice buf offset (unit_bytes str) (omega (arith, length-unit_bytes str)))
