-- ===== src/Buffer/Hex.antt =====
-- buffer.js: `hexSlice`, `hexWrite` and their tables.
pub mod Laws
use winterjs.Common.{
  ℕ, zero, suc, ◌+◌, ◌-◌, ◌*◌, ◌/◌, ◌%◌, ◌&&◌, ◌==◌, ltb, leb, if◌then◌else◌, bit_or,
}
use winterjs.Common.{List, [], ◌∷◌, ◌++◌, length, get_elem?, Option, none, some}
use winterjs.Common.Int.{ℤ, pos, negsuc}
use winterjs.Js.{store}
use winterjs.Js.Int32.{shl}
use winterjs.Buffer.Window.{window}

-- `alphabet[i]` of the sixteen digits.
abbrev pub hex_digit : ℕ → ℕ
hex_digit d = if ltb d 10 then 48 + d else 87 + d

-- `hexCharValueTable[c]`; `none` is undefined, for a character past the end too.
unfoldable pub hex_value : Option ℕ → Option ℕ
hex_value none = none
hex_value (some c) =
    if leb 48 c && leb c 57
    then some (c - 48)
    else if leb 97 c && leb c 102
    then some (c - 87)
    else if leb 65 c && leb c 70
    then some (c - 55)
    else none

-- `hexSliceLookupTable[b]`: the entry that the loops put at `i16 + j`.
abbrev pub hex_entry : ℕ → List ℕ
hex_entry b = hex_digit (b / 16) ∷ hex_digit (b % 16) ∷ []

-- The loop of `hexSlice`, over the bytes not read yet.
abbrev pub hex_codes : List ℕ → List ℕ
hex_codes [] = []
hex_codes (b ∷ bytes) = hex_entry b ++ hex_codes bytes

-- `hexSlice`; its `start` and `end` are 0 when they are missing or negative.
unfoldable pub hex_slice : List ℕ → ℤ → ℤ → List ℕ
hex_slice buf start end = hex_codes (window buf first (last - first))
  where
    first : ℕ
    first = elim start [ pos s ↦ s | negsuc _ ↦ 0 ]

    last : ℕ
    last = elim end [
      | pos zero ↦ length buf
      | pos (suc e) ↦ if ltb (length buf) (suc e) then length buf else suc e
      | negsuc _ ↦ length buf
    ]

-- `if (a === undefined || b === undefined) return i`, and else the rest of the round.
abbrev pub hex_round {ℓ} : {A : Type ℓ} → A → (ℕ → ℕ → A) → Option ℕ → Option ℕ → A
hex_round stop next none b = stop
hex_round stop next (some a) none = stop
hex_round stop next (some a) (some b) = next a b

-- The loop of `hexWrite`: the rounds left, `i` and `buf`. It returns `i`.
unfoldable pub hex_write_loop : List ℕ → ℕ → ℕ → ℕ → List ℕ → ℕ × List ℕ
hex_write_loop string offset zero i buf = (i, buf)
hex_write_loop string offset (suc rounds) i buf =
    hex_round (i, buf)
      (λ a b.
        hex_write_loop string offset rounds (i + 1) (store buf (offset + i) (bit_or (shl a 4) b)))
      (hex_value (get_elem? string (i * 2))) (hex_value (get_elem? string (i * 2 + 1)))

-- `length`, 0 when it is missing.
abbrev pub hex_limit : ℕ → ℕ → ℕ
hex_limit remaining len =
    if len == 0 then remaining else if ltb remaining len then remaining else len

-- `hexWrite` at an offset inside the buffer. The rounds of an odd string end in the half one, where
-- `i < strLen / 2` still holds.
unfoldable pub hex_write : List ℕ → List ℕ → ℕ → ℕ → ℕ × List ℕ
unfolding hex_write_loop
hex_write buf string offset len =
    let limit = hex_limit (length buf - offset) len in
    let rounds = if ltb (length string) (2 * limit) then (length string + 1) / 2 else limit in
    hex_write_loop string offset rounds 0 buf
