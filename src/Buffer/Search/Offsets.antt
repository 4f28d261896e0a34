-- ===== src/Buffer/Search/Offsets.antt =====
-- `indexOf` and `lastIndexOf` of bytes, by the offset that they are given.
use winterjs.Common.{
  ℕ, suc, ◌-◌, ◌^◌, ◌≤◌, ◌<◌, ◌≡◌, refl, ap, ◌∙◌, arith, ◌⊎◌, inl, inr, Bool, true, false, ltb,
  ◌==◌, min, dec_lt, if◌then◌else◌, List, ◌∷◌, length, Option, none, some,
}
use winterjs.Common.{sym, ◌↔◌}
use winterjs.Common.Int.{ℤ, pos, negsuc, ◌+ℤ◌}
use winterjs.Js.{ok, ◌>>=◌}
use winterjs.Buffer.Search.{
  in_buffer, search_start, from_end, clamp_offset, bytes, Native, search_from,
  bidirectional_index_of, index_of, last_index_of, includes, not_minus_one, map_found,
}
use winterjs.Buffer.Search.Forward.{Occurs, First, found, missing, too_late, array_index_of-First}
use winterjs.Buffer.Search.Backward.{Last, array_index_of-Last}

-- The index where `indexOf` starts: a negative offset counts from the end, and stops at the front.
abbrev pub from_front : ℕ → Option ℤ → ℕ
from_front len none = 0
from_front len (some (pos n)) = n
from_front len (some (negsuc m)) = len - suc m

clamp_pos : (n : ℕ) → clamp_offset (pos n) ≡ pos (min n 0x7fffffff)
clamp_pos n = ground arith

clamp_negsuc : (m : ℕ) → clamp_offset (negsuc m) ≡ negsuc (min m 0x7fffffff)
clamp_negsuc m = ground arith

from_end_pos : (len n : ℕ) → from_end len (pos n) ≡ pos n
unfolding from_end
from_end_pos len n = ground arith

from_end_inside : (len m : ℕ) → suc m ≤ len → from_end len (negsuc m) ≡ pos (len - suc m)
unfolding from_end ◌+ℤ◌
from_end_inside len m h = ground arith

from_end_outside : (len m : ℕ) → len < suc m → from_end len (negsuc m) ≡ negsuc (suc m - len - 1)
unfolding from_end ◌+ℤ◌
from_end_outside len m h = ground arith

in_buffer_inside : (len n : ℕ) (dir : Bool) → n < len → in_buffer len dir (pos n) ≡ some n
in_buffer_inside len n dir h = ground arith

in_buffer_front : (len m : ℕ) → in_buffer len true (negsuc m) ≡ some 0
in_buffer_front len m = ground arith

in_buffer_before : (len m : ℕ) → in_buffer len false (negsuc m) ≡ none
in_buffer_before len m = ground arith

in_buffer_behind : (len n : ℕ) → len ≤ n → in_buffer len true (pos n) ≡ none
in_buffer_behind len n h = ground arith

in_buffer_back : (len n : ℕ) → len ≤ n → in_buffer len false (pos n) ≡ some (len - 1)
in_buffer_back len n h = ground arith

-- The index where `lastIndexOf` starts, if there is one.
abbrev pub back_start : ℕ → Option ℤ → Option ℕ
back_start len none = some (len - 1)
back_start len (some (pos n)) = some (min n (len - 1))
back_start len (some (negsuc m)) = if ltb m len then some (len - suc m) else none

abbrev pub LastFrom : List ℕ → List ℕ → Option ℕ → ℤ → Type 0
LastFrom arr val none z = z ≡ negsuc 0
LastFrom arr val (some start) z = Last arr val start z

module _ (len : ℕ) (some_bytes : 0 < len) (small : len < 2 ^ 31) where
  IsBegun : Option ℤ → Type 0
  IsBegun offset =
      ((search_start len offset true ≡ none) × (len ≤ from_front len offset))
      ⊎ ((search_start len offset true ≡ some (from_front len offset))
          × (from_front len offset < len))

  search_start-IsBegun : (offset : Option ℤ) → IsBegun offset
  unfolding IsBegun search_start from_end ◌+ℤ◌
  search_start-IsBegun none = inr (in_buffer_inside len 0 true some_bytes, some_bytes)
  search_start-IsBegun (some (pos n)) = elim (dec_lt n len) [
    | yes inside ↦
        let e : min n 0x7fffffff ≡ n = omega arith in
        inr (rw (clamp_pos n, e, from_end_pos len n) (in_buffer_inside len n true inside), inside)
    | no outside ↦ inl (
      rw (clamp_pos n, from_end_pos len (min n 0x7fffffff))
          (in_buffer_behind len (min n 0x7fffffff) (omega arith)),
      omega arith,
    )
  ]
  search_start-IsBegun (some (negsuc m)) = elim (dec_lt m len) [
    | yes inside ↦
        let e : min m 0x7fffffff ≡ m = omega arith in
        inr (
          rw (clamp_negsuc m, e, from_end_inside len m (omega arith))
              (in_buffer_inside len (len - suc m) true (omega arith)),
          omega arith,
        )
    | no outside ↦
        let e : len - suc m ≡ 0 = omega arith in
        inr (
          rw (clamp_negsuc m, from_end_outside len (min m 0x7fffffff) (omega arith), e)
              (in_buffer_front len (suc (min m 0x7fffffff) - len - 1)),
          omega arith,
        )
  ]

  search_start-back_start :
      (offset : Option ℤ) → search_start len offset false ≡ back_start len offset
  unfolding search_start
  search_start-back_start none = in_buffer_inside len (len - 1) false (omega arith)
  search_start-back_start (some (pos n)) = elim (dec_lt n len) [
    | yes inside ↦
        let e : min n 0x7fffffff ≡ n = omega arith in
        rw (clamp_pos n, e, from_end_pos len n)
          (in_buffer_inside len n false inside ∙ ap some (omega arith))
    | no outside ↦
        rw (clamp_pos n, from_end_pos len (min n 0x7fffffff))
          (in_buffer_back len (min n 0x7fffffff) (omega arith) ∙ ap some (omega arith))
  ]
  search_start-back_start (some (negsuc m)) = elim (dec_lt m len) [
    | yes inside ↦
        let e : min m 0x7fffffff ≡ m = omega arith in
        let lt : ltb m len ≡ true = ground arith in
        rw (clamp_negsuc m, e, from_end_inside len m (omega arith), lt)
          (in_buffer_inside len (len - suc m) false (omega arith))
    | no outside ↦
        let ge : ltb m len ≡ false = ground arith in
        rw (clamp_negsuc m, from_end_outside len (min m 0x7fffffff) (omega arith), ge)
          (in_buffer_before len (suc (min m 0x7fffffff) - len - 1))
  ]

module _ (native : Native) (buffer : List ℕ) (b : ℕ) (bs : List ℕ) (some_bytes : 0 < length buffer)
    (small : length buffer < 2 ^ 31) where
  full : (length buffer == 0) ≡ false
  full = ground arith

  -- In a buffer that is not empty and has less than 2 ^ 31 bytes, `indexOf` of bytes, one or more, ends
  -- without an error with the first place at or behind the offset where they stand, or with -1 where
  -- there is none. A missing offset is 0; a negative one counts from the end, and stops at the front.
  pub index_of-First_from :
      (offset : Option ℤ)
      → (z : ℤ) × (index_of native buffer (bytes (b ∷ bs)) offset ≡ ok (some z))
        × First buffer (b ∷ bs) (from_front (length buffer) offset) z
  unfolding IsBegun bidirectional_index_of
  index_of-First_from offset = elim (search_start-IsBegun (length buffer) some_bytes small offset) [
    | inl (outside, behind) ↦ (
      negsuc 0,
      rw (full, outside) refl,
      missing (λ k at. too_late buffer (b ∷ bs) k (omega arith) (omega arith)),
    )
    | inr (start, inside) ↦
        let r =
          array_index_of-First buffer (b ∷ bs) (from_front (length buffer) offset) (omega arith)
            (omega arith) in
        (r.0, rw (full, start) (ap (λ o. ok o) r.1), r.2)
  ]

  from_back :
      (start : Option ℕ)
      → (z : ℤ) × (search_from native buffer (bytes (b ∷ bs)) false start ≡ ok (some z))
        × LastFrom buffer (b ∷ bs) start z
  from_back none = (negsuc 0, refl, refl)
  from_back (some start) =
      let r = array_index_of-Last buffer (b ∷ bs) start (omega arith) in
      (r.0, ap (λ o. ok o) r.1, r.2)

  -- In a buffer that is not empty and has less than 2 ^ 31 bytes, `lastIndexOf` of bytes, one or more,
  -- ends without an error with the last place at or before the offset where they stand, or with -1
  -- where there is none. An offset that is missing or behind the end is the last index; a negative one
  -- counts from the end, and before the front the answer is -1.
  pub last_index_of-Last_from :
      (offset : Option ℤ)
      → (z : ℤ) × (last_index_of native buffer (bytes (b ∷ bs)) offset ≡ ok (some z))
        × LastFrom buffer (b ∷ bs) (back_start (length buffer) offset) z
  unfolding bidirectional_index_of
  last_index_of-Last_from offset =
      rw (full, search_start-back_start (length buffer) some_bytes small offset)
        (from_back (back_start (length buffer) offset))

  -- In a buffer that is not empty and has less than 2 ^ 31 bytes, `includes` of bytes, one or more,
  -- answers true exactly where they stand at or behind the offset, and false elsewhere. A missing offset
  -- is 0; a negative one counts from the end, and stops at the front.
  pub includes_iff :
      (offset : Option ℤ)
      → ((includes native buffer (bytes (b ∷ bs)) offset ≡ ok (some true))
          ↔ ((i : ℕ) × (from_front (length buffer) offset ≤ i) × Occurs buffer (b ∷ bs) i))
        × ((includes native buffer (bytes (b ∷ bs)) offset ≡ ok (some false))
            ↔ ¬ ((i : ℕ) × (from_front (length buffer) offset ≤ i) × Occurs buffer (b ∷ bs) i))
  includes_iff offset =
      let r = index_of-First_from offset in
      answer r.0 (ap (λ x. x >>= λ found. ok (map_found found)) r.1) r.2
    where
      answer :
          (z : ℤ)
          → includes native buffer (bytes (b ∷ bs)) offset ≡ ok (some (not_minus_one z))
          → First buffer (b ∷ bs) (from_front (length buffer) offset) z
          → ((includes native buffer (bytes (b ∷ bs)) offset ≡ ok (some true))
              ↔ ((i : ℕ) × (from_front (length buffer) offset ≤ i) × Occurs buffer (b ∷ bs) i))
            × ((includes native buffer (bytes (b ∷ bs)) offset ≡ ok (some false))
                ↔ ¬ ((i : ℕ) × (from_front (length buffer) offset ≤ i) × Occurs buffer (b ∷ bs) i))
      answer z same (found i le o before) = (
        ((λ t. (i, le, o)), (λ t. same)),
        ((λ t. absurd (cc (sym same ∙ t))), (λ t. absurd (t (i, le, o)))),
      )
      answer z same (missing none_at) = (
        ((λ t. absurd (cc (sym same ∙ t))), (λ t. absurd (none_at t.0 t.1 t.2))),
        ((λ t u. none_at u.0 u.1 u.2), (λ t. same)),
      )
