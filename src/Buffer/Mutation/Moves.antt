-- ===== src/Buffer/Mutation/Moves.antt =====
-- The swaps and `copy` leave an array of bytes of the same length.
use winterjs.Common.{
  ℕ, zero, suc, ◌+◌, ◌-◌, ◌%◌, ◌≤◌, ◌≡◌, refl, ◌∙◌, arith, inl, inr, leb, ◌==◌, ◌||◌, Bool-cases,
  List, [], ◌∷◌, length, length-take, take, drop, set, get_elem?, All-append, All-take, All-drop,
  Option, none, some,
}
use winterjs.Common.Int.{ℤ, pos, negsuc}
use winterjs.Js.{Result, ok, err, ◌>>◌, or_default, IsByte, IsBytes}
use winterjs.Js.Int32.{word}
use winterjs.Buffer.Kept.{Kept, KeptResult, store-Kept}
use winterjs.Buffer.Window.{window, splice, length-splice, window-IsBytes}
use winterjs.Buffer.Swap.{swap, swap16_loop, swap32_loop, swap64_loop}
use winterjs.Buffer.Copy.{clamp_target, clamp_end, copy_end, copy_range, copy_checked, copy, eq_ℤ}
use winterjs.Buffer.Mutation.{second_of}
use winterjs.Buffer.Mutation.Keeps.{}

word-IsByte : (b : List ℕ) (i : ℕ) → IsBytes b → IsByte (word (get_elem? b i))
word-IsByte [] i h = omega arith
word-IsByte (x ∷ b) zero (hx, h) = hx
word-IsByte (x ∷ b) (suc i) (hx, h) = word-IsByte b i h

module _ (n : ℕ) where
  set-Kept : (b : List ℕ) (i v : ℕ) → IsByte v → Kept n b → Kept n (set b i v)
  set-Kept b i v h k = let small : v % 256 ≡ v = omega arith in rw small at (store-Kept n b i v k)

  swap-Kept : (b : List ℕ) (i j : ℕ) → Kept n b → Kept n (swap b i j)
  unfolding swap
  swap-Kept b i j k =
      set-Kept (set b i (word (get_elem? b j))) j (word (get_elem? b i)) (word-IsByte b i k.bytes)
        (set-Kept b i (word (get_elem? b j)) (word-IsByte b j k.bytes) k)

  pub swap16_loop-Kept : (rounds i : ℕ) (b : List ℕ) → Kept n b → Kept n (swap16_loop rounds i b)
  unfolding swap16_loop
  swap16_loop-Kept zero i b k = k
  swap16_loop-Kept (suc rounds) i b k =
      swap16_loop-Kept rounds (i + 2) (swap b i (i + 1)) (swap-Kept b i (i + 1) k)

  two_swaps : (b : List ℕ) (i j l m : ℕ) → Kept n b → Kept n (swap (swap b i j) l m)
  two_swaps b i j l m k = swap-Kept (swap b i j) l m (swap-Kept b i j k)

  pub swap32_loop-Kept : (rounds i : ℕ) (b : List ℕ) → Kept n b → Kept n (swap32_loop rounds i b)
  unfolding swap32_loop
  swap32_loop-Kept zero i b k = k
  swap32_loop-Kept (suc rounds) i b k =
      swap32_loop-Kept rounds (i + 4) (swap (swap b i (i + 3)) (i + 1) (i + 2))
        (two_swaps b i (i + 3) (i + 1) (i + 2) k)

  pub swap64_loop-Kept : (rounds i : ℕ) (b : List ℕ) → Kept n b → Kept n (swap64_loop rounds i b)
  unfolding swap64_loop
  swap64_loop-Kept zero i b k = k
  swap64_loop-Kept (suc rounds) i b k = swap64_loop-Kept rounds (i + 8) _ (
      two_swaps (swap (swap b i (i + 7)) (i + 1) (i + 6)) (i + 2) (i + 5) (i + 3) (i + 4)
        (two_swaps b i (i + 7) (i + 1) (i + 6) k))

  pub checked-KeptResult :
      (check : Result (Unit {0})) (b : List ℕ) → Kept n b → KeptResult n (check >> ok b)
  checked-KeptResult (err e) b k = tt
  checked-KeptResult (ok _) b k = k

  -- Bytes that are put where they fit.
  pub splice-Kept :
      (buf ds : List ℕ) (offset : ℕ)
      → IsBytes ds
      → offset + length ds ≤ length buf
      → Kept n buf
      → Kept n (splice buf offset ds)
  splice-Kept buf ds offset h room k = record {
    bytes = All-append _ (take offset buf) _ (All-take _ offset buf k.bytes) (
        All-append _ ds _ h
          (All-drop _ (length ds) (drop offset buf) (All-drop _ offset buf k.bytes)));
    size = length-splice buf offset ds room ∙ k.size;
  }

  clamp_target-le :
      (len t : ℕ) (target_start : Option ℤ) → clamp_target len target_start ≡ pos t → t ≤ len
  unfolding clamp_target
  clamp_target-le len t none e = ground arith
  clamp_target-le len t (some (pos m)) e = ground arith
  clamp_target-le len t (some (negsuc m)) e = ground arith

  copy_end-room :
      (src target : List ℕ) (t s e : ℕ) → copy_end src target t s e - s ≤ length target - t
  unfolding copy_end
  copy_end-room src target t s e = ground arith

  length-window-le : (buf : List ℕ) (offset m : ℕ) → length (window buf offset m) ≤ m
  length-window-le buf offset m = omega (arith, length-take m (drop offset buf))

  copy_range-Kept :
      (src target : List ℕ) (t s e : ℕ)
      → IsBytes src
      → t ≤ length target
      → Kept n target
      → Kept n ((copy_range src target t s e).1)
  unfolding copy_range
  copy_range-Kept src target t s e h inside k =
      splice-Kept target (window src s (copy_end src target t s e - s)) t
        (window-IsBytes src s (copy_end src target t s e - s) h)
        (omega (
          arith,
          copy_end-room src target t s e,
          length-window-le src s (copy_end src target t s e - s),
        ))
        k

  copy_checked-Kept :
      (src target : List ℕ) (t s e : ℤ)
      → IsBytes src
      → ((m : ℕ) → t ≡ pos m → m ≤ length target)
      → Kept n target
      → KeptResult n (second_of (copy_checked src target t s e))
  unfolding copy_checked
  copy_checked-Kept src target (negsuc t) s e h inside k = tt
  copy_checked-Kept src target (pos t) (negsuc s) e h inside k = tt
  copy_checked-Kept src target (pos t) (pos s) (negsuc e) h inside k =
      elim (Bool-cases (leb (length src) s)) [ inl out ↦ rw out tt | inr within ↦ rw within tt ]
  copy_checked-Kept src target (pos t) (pos s) (pos e) h inside k =
      elim (Bool-cases (leb (length src) s)) [
        | inl out ↦ rw out tt
        | inr within ↦ rw within (copy_range-Kept src target t s e h (inside t refl) k)
      ]

  pub copy-Kept :
      (src target : List ℕ) (target_start start end : Option ℤ)
      → IsBytes src
      → Kept n target
      → KeptResult n (second_of (copy src target target_start start end))
  unfolding copy
  copy-Kept src target target_start start end h k =
      elim (Bool-cases (eq_ℤ e s || (length target == 0 || length src == 0))) [
        | inl idle ↦ rw idle k
        | inr busy ↦ rw busy (
            copy_checked-Kept src target (clamp_target (length target) target_start) s e h
              (λ m same. clamp_target-le (length target) m target_start same) k)
      ]
    where
      s : ℤ
      s = or_default (pos 0) start

      e : ℤ
      e = clamp_end s (or_default (pos (length src)) end)
