-- ===== src/Buffer/Search/Wide/Laws.antt =====
-- The search in a two-byte encoding is the search for 16-bit units, at twice their indices.
use winterjs.Common.{
  ℕ, zero, suc, ◌+◌, ◌-◌, ◌*◌, ◌%◌, ◌^◌, ◌<◌, ◌≤◌, ◌≡◌, refl, sym, ap, ◌∙◌, arith, inl, inr, Bool,
  true, false, ◌||◌, ◌==◌, ltb, Bool-cases, List, [], ◌∷◌, length, get_elem?, get_elem?-some,
  Option, none, some,
}
use winterjs.Common.Int.{ℤ, pos, negsuc}
use winterjs.Js.{Result, ok, IsBytes}
use winterjs.Js.Int32.{to_uint32}
use winterjs.Buffer.Window.{window, be_num}
use winterjs.Buffer.ReadUint.Laws.{read_uint16_be-be_num}
use winterjs.Buffer.Search.{or_index, forward, enough}
use winterjs.Buffer.Search.Forward.{First, forward-First}
use winterjs.Buffer.Search.Wide.{read_wide, forward_wide, enough_wide, array_index_of_wide}

-- The units of two bytes, the high one first.
abbrev pub wide_units : List ℕ → List ℕ
wide_units (a ∷ b ∷ bytes) = be_num (a ∷ b ∷ []) ∷ wide_units bytes
wide_units bytes = []

-- An array of bytes of an even length, whose offsets are uint32s.
record IsWide (buf : List ℕ) : Type 0 where
  elems : IsBytes buf
  even : length buf ≡ 2 * length (wide_units buf)
  small : length buf < 2 ^ 32

wide_even : (buf : List ℕ) → length buf % 2 ≡ 0 → length buf ≡ 2 * length (wide_units buf)
wide_even [] h = refl
wide_even (a ∷ []) h = absurd (omega arith)
wide_even (a ∷ b ∷ buf) h = omega (arith, wide_even buf (omega arith))

wide_units-elem :
    (buf : List ℕ) (i u : ℕ)
    → get_elem? (wide_units buf) i ≡ some u
    → be_num (window buf (2 * i) 2) ≡ u
wide_units-elem [] i u h = absurd (cc h)
wide_units-elem (a ∷ []) i u h = absurd (cc h)
wide_units-elem (a ∷ b ∷ buf) zero u h = cc h
wide_units-elem (a ∷ b ∷ buf) (suc i) u h =
    let e : 2 * suc i ≡ suc (suc (2 * i)) = omega arith in rw e (wide_units-elem buf i u h)

read_wide-unit :
    (buf : List ℕ) (i u : ℕ)
    → IsWide buf
    → i < length (wide_units buf)
    → get_elem? (wide_units buf) i ≡ some u
    → read_wide buf (2 * i) ≡ ok (some u)
read_wide-unit buf i u w h found =
    let e : to_uint32 (pos (2 * i)) ≡ 2 * i = omega (arith, w.even, w.small) in
    read_uint16_be-be_num buf (pos (2 * i)) false w.elems (omega (arith, e, w.even))
    ∙ ap (λ o. ok (some (be_num (window buf o 2)))) e
    ∙ ap (λ v. ok (some v)) (wide_units-elem buf i u found)

-- An answer in units as one in bytes.
abbrev pub doubled : ℤ → ℤ
doubled (pos n) = pos (2 * n)
doubled (negsuc n) = negsuc n

abbrev map_doubled : Option ℤ → Option ℤ
map_doubled none = none
map_doubled (some z) = some (doubled z)

abbrev twice : Option ℕ → Option ℕ
twice none = none
twice (some n) = some (2 * n)

-- `foundIndex` is less than a value behind `i`.
abbrev InValue : List ℕ → ℕ → Option ℕ → Type 0
InValue val i found = (or_index i found ≤ i) × (i - or_index i found < length (wide_units val))

or_index-twice : (i : ℕ) (found : Option ℕ) → or_index (2 * i) (twice found) ≡ 2 * or_index i found
or_index-twice i none = refl
or_index-twice i (some f) = refl

module _ (arr val : List ℕ) where
  -- The two loops agree from a state on.
  abbrev Agrees : ℕ → ℕ → Option ℕ → Type 0
  Agrees rounds i found =
      forward_wide arr val rounds (2 * i) (twice found)
      ≡ ok (map_doubled (forward (wide_units arr) (wide_units val) rounds i found))

  -- A round behind its two reads.
  abbrev full_wide : ℕ → ℕ → Option ℕ → Bool → Result (Option ℤ)
  full_wide rounds i found false = forward_wide arr val rounds (i + 2) (some (or_index i found))
  full_wide rounds i found true = ok (some (pos (or_index i found)))

  abbrev same_wide : ℕ → ℕ → Option ℕ → Bool → Result (Option ℤ)
  same_wide rounds i found false = forward_wide arr val rounds (or_index i found + 2) none
  same_wide rounds i found true = full_wide rounds i found (i - or_index i found + 2 == length val)

  forward_wide-suc :
      (rounds i : ℕ) (found : Option ℕ) (u v : ℕ)
      → ltb i (length arr) ≡ true
      → read_wide arr i ≡ ok (some u)
      → read_wide val (i - or_index i found) ≡ ok (some v)
      → forward_wide arr val (suc rounds) i found ≡ same_wide rounds i found (u == v)
  unfolding forward_wide
  forward_wide-suc rounds i found u v within ru rv = rw (forward_wide, within, ru, rv) refl

  -- One round, with the units that it reads.
  round-Agrees :
      (rounds i : ℕ) (found : Option ℕ) (u v : ℕ)
      → length val ≡ 2 * length (wide_units val)
      → 0 < length (wide_units val)
      → InValue val i found
      → forward_wide arr val (suc rounds) (2 * i) (twice found)
        ≡ same_wide rounds (2 * i) (twice found) (u == v)
      → ltb i (length (wide_units arr)) ≡ true
      → get_elem? (wide_units arr) i ≡ some u
      → get_elem? (wide_units val) (i - or_index i found) ≡ some v
      → ((j : ℕ) (next : Option ℕ) → InValue val j next → Agrees rounds j next)
      → Agrees (suc rounds) i found
  unfolding forward
  round-Agrees rounds i found u v even some_left (behind, inside) step within eu ev ih =
      step ∙ elim (Bool-cases (u == v)) [
        | inr other ↦
            let again : or_index (2 * i) (twice found) + 2 ≡ 2 * (or_index i found + 1) =
              omega (arith, or_index-twice i found) in
            rw (other, again, forward, within, eu, ev, other)
              (ih (or_index i found + 1) none (omega arith, omega arith))
        | inl same ↦ elim (Bool-cases (i - or_index i found + 1 == length (wide_units val))) [
          | inl full ↦
              let full' : (2 * i - or_index (2 * i) (twice found) + 2 == length val) ≡ true =
                ground (arith, even, or_index-twice i found) in
              rw (same, full', forward, within, eu, ev, same, full)
                (ap (λ n. ok (some (pos n))) (or_index-twice i found))
          | inr part ↦
              let part' : (2 * i - or_index (2 * i) (twice found) + 2 == length val) ≡ false =
                ground (arith, even, or_index-twice i found) in
              let next : 2 * i + 2 ≡ 2 * (i + 1) = omega arith in
              rw (same, part', or_index-twice i found, next, forward, within, eu, ev, same, part)
                (ih (i + 1) (some (or_index i found)) (omega arith, ground arith))
        ]
      ]

not_short : (a b : ℕ) → 2 ≤ a → 2 ≤ b → (ltb a 2 || ltb b 2) ≡ false
not_short a b ha hb = ground arith

module _ (arr val : List ℕ) (wa : IsWide arr) (wv : IsWide val) where
  forward_wide-forward :
      (rounds i : ℕ) (found : Option ℕ)
      → 0 < length (wide_units val)
      → InValue val i found
      → Agrees arr val rounds i found
  forward_wide-forward zero i found some_left h = unfold forward_wide forward in refl
  forward_wide-forward (suc rounds) i found some_left (behind, inside) =
      elim (Bool-cases (ltb i (length (wide_units arr)))) [
        | inr out ↦
            let out' : ltb (2 * i) (length arr) ≡ false = ground (arith, wa.even) in
            unfold forward_wide forward in rw (forward_wide, out', forward, out) refl
        | inl within ↦
            let (u, eu) = get_elem?-some (wide_units arr) i (ground arith) in
            let (v, ev) = get_elem?-some (wide_units val) (i - or_index i found) inside in
            let same_place : 2 * (i - or_index i found) ≡ 2 * i - or_index (2 * i) (twice found) =
              omega (arith, or_index-twice i found) in
            round-Agrees arr val rounds i found u v wv.even some_left (behind, inside)
              (forward_wide-suc arr val rounds (2 * i) (twice found) u v (ground (arith, wa.even))
                (read_wide-unit arr i u wa (ground arith) eu)
                (ap (read_wide val) (sym same_place)
                  ∙ read_wide-unit val (i - or_index i found) v wv inside ev))
              within eu ev (λ j next h. forward_wide-forward rounds j next some_left h)
      ]

  enough-le :
      (left : ℕ) → enough (wide_units arr) (wide_units val) left ≤ enough_wide arr val (2 * left)
  enough-le zero = omega (arith, wv.even)
  enough-le (suc left) =
      let e : 2 * suc left ≡ suc (suc (2 * left)) = omega arith in
      rw e (omega (arith, wv.even, enough-le left))

  array_index_of_wide-IsWide :
      (start : ℕ)
      → 0 < length val
      → 2 ≤ length arr
      → 2 * start ≤ length arr
      → (z : ℤ) × (array_index_of_wide arr val (2 * start) ≡ ok (some (doubled z)))
        × First (wide_units arr) (wide_units val) start z
  unfolding array_index_of_wide
  array_index_of_wide-IsWide start some_left long inside =
      let left = length (wide_units arr) - start in
      let rounds = enough_wide arr val (length arr - 2 * start) in
      let same : length arr - 2 * start ≡ 2 * left = omega (arith, wa.even) in
      let (z, e, first) =
        forward-First (wide_units arr) (wide_units val) rounds left start 0 (omega (arith, wa.even))
          (omega (arith, wv.even)) (λ k a. absurd (omega arith))
          (rw same (omega (arith, enough-le left))) in
      let here : start + 0 ≡ start = omega arith in
      let long_enough : (ltb (length arr) 2 || ltb (length val) 2) ≡ false =
        not_short (length arr) (length val) long (omega (arith, wv.even)) in
      (
        z,
        rw long_enough (
            forward_wide-forward rounds start none (omega (arith, wv.even))
              (omega arith, omega (arith, wv.even))
            ∙ ap (λ o. ok (map_doubled o))
                (ap (λ i. forward (wide_units arr) (wide_units val) rounds i none) (sym here) ∙ e)),
        first,
      )

-- In arrays of bytes of even lengths below 2 ^ 32, neither of them empty, from an even offset inside
-- the array, the search in a two-byte encoding ends with twice the index of the first place, counted in
-- 16-bit units, where the value stands at or behind the start, or with -1 where there is none.
pub array_index_of_wide-First :
    (arr val : List ℕ) (start : ℕ)
    → IsBytes arr
    → IsBytes val
    → length arr % 2 ≡ 0
    → length val % 2 ≡ 0
    → length arr < 2 ^ 32
    → length val < 2 ^ 32
    → 0 < length val
    → 2 ≤ length arr
    → 2 * start ≤ length arr
    → (z : ℤ) × (array_index_of_wide arr val (2 * start) ≡ ok (some (doubled z)))
      × First (wide_units arr) (wide_units val) start z
array_index_of_wide-First arr val start ha hv ea ev sa sv =
    array_index_of_wide-IsWide arr val (record { elems = ha; even = wide_even arr ea; small = sa })
      (record { elems = hv; even = wide_even val ev; small = sv }) start
