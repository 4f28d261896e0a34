-- ===== src/Buffer/Copy/Laws.antt =====
-- What `copy` moves, and what it returns.
use winterjs.Common.{ℕ, ◌+◌, ◌-◌, ◌<◌, ◌≤◌, ◌≡◌, sym, ap, ap₂, ◌⊎◌, inl, inr, arith, min}
use winterjs.Common.{none, List, suc, length, some}
use winterjs.Common.Int.{ℤ, pos, negsuc, sub_ℕ}
use winterjs.Js.{ok}
use winterjs.Buffer.Window.{window, splice, splice-nil}
use winterjs.Buffer.Copy.{copy, clamp_target, clamp_end, copy_checked, copy_range, copy_end}

clamp_end-of : (s e : ℕ) → s ≤ e → clamp_end (pos s) (pos e) ≡ pos e
unfolding clamp_end
clamp_end-of s e h = ground arith

clamp_target-of : (len t : ℕ) → t < len → clamp_target len (some (pos t)) ≡ pos t
unfolding clamp_target
clamp_target-of len t h = ground arith

-- How many bytes there are and fit.
abbrev pub copy_count : List ℕ → List ℕ → ℕ → ℕ → ℕ → ℕ
copy_count src target t s e = min (min e (length src) - s) (length target - t)

abbrev pub copied : List ℕ → List ℕ → ℕ → ℕ → ℕ → ℤ × List ℕ
copied src target t s n = (pos n, splice target t (window src s n))

copy_end-of :
    (src target : List ℕ) (t s e : ℕ)
    → t < length target
    → s < length src
    → s ≤ e
    → copy_end src target t s e ≡ s + copy_count src target t s e
unfolding copy_end
copy_end-of src target t s e ht hs h = ground arith

copied-of :
    (src target : List ℕ) (t s stop n : ℕ)
    → stop ≡ s + n
    → Path
        (ℤ × List ℕ)
        (sub_ℕ stop s, splice target t (window src s (stop - s)))
        (copied src target t s n)
copied-of src target t s stop n h =
    ap₂ (λ a b. (a, b)) count (ap (λ k. splice target t (window src s k)) left)
  where
    left : stop - s ≡ n
    left = omega arith

    count : sub_ℕ stop s ≡ pos n
    count = ground arith

copy_range-of :
    (src target : List ℕ) (t s e : ℕ)
    → t < length target
    → s < length src
    → s ≤ e
    → copy_range src target t s e ≡ copied src target t s (copy_count src target t s e)
unfolding copy_range
copy_range-of src target t s e ht hs h =
    copied-of src target t s (copy_end src target t s e) (copy_count src target t s e)
      (copy_end-of src target t s e ht hs h)

-- With indices in range, `copy` moves as many of the bytes from `start` to `end` as there are and as
-- fit, and returns how many.
pub copy-splice :
    (src target : List ℕ) (t s e : ℕ)
    → t < length target
    → s < length src
    → s ≤ e
    → copy src target (some (pos t)) (some (pos s)) (some (pos e))
      ≡ ok (copied src target t s (copy_count src target t s e))
unfolding copy
copy-splice src target t s e ht hs h =
    rw (clamp_end-of s e h, clamp_target-of (length target) t ht)
      (elim s_or_more [
        | inl same ↦ unfold copy_checked in ground (arith, nothing same)
        | inr more ↦ unfold copy_checked in ground (arith, copy_range-of src target t s e ht hs h)
      ])
  where
    s_or_more : (e ≡ s) ⊎ (s < e)
    s_or_more = omega arith

    nothing :
        e ≡ s
        → Path (ℤ × List ℕ) (pos 0, target) (copied src target t s (copy_count src target t s e))
    nothing same =
        let none_left : copy_count src target t s e ≡ 0 = omega arith in
        rw none_left (ap (λ r. (pos 0, r)) (sym (splice-nil target t)))

copy_end-zero :
    (src target : List ℕ) (t s : ℕ) → suc s < length src → copy_end src target t (suc s) 0 ≡ 0
unfolding copy_end
copy_end-zero src target t s hs = ground arith

copy_range-zero :
    (src target : List ℕ) (t s : ℕ)
    → t < length target
    → suc s < length src
    → copy_range src target t (suc s) 0 ≡ (negsuc s, target)
unfolding copy_range
copy_range-zero src target t s ht hs =
    rw (copy_end-zero src target t s hs) (ap₂ (λ a b. (a, b)) count bytes)
  where
    count : sub_ℕ 0 (suc s) ≡ negsuc s
    count = ground arith

    bytes : splice target t (window src (suc s) (0 - suc s)) ≡ target
    bytes = let e : 0 - suc s ≡ 0 = omega arith in rw e (splice-nil target t)

-- Where `end` is 0 and `start` is not, both starts being inside their buffers, `copy` moves nothing
-- and returns -`start`.
pub copy-end_zero :
    (src target : List ℕ) (t s : ℕ)
    → t < length target
    → suc s < length src
    → copy src target (some (pos t)) (some (pos (suc s))) (some (pos 0)) ≡ ok (negsuc s, target)
unfolding copy clamp_end copy_checked
copy-end_zero src target t s ht hs =
    rw (clamp_target-of (length target) t ht) (ground (arith, copy_range-zero src target t s ht hs))

copy_end-full : (src target : List ℕ) → copy_end src target (length target) 0 (length src) ≡ 0
unfolding copy_end
copy_end-full src target = ground arith

copy_range-full :
    (src target : List ℕ) → copy_range src target (length target) 0 (length src) ≡ (pos 0, target)
unfolding copy_range
copy_range-full src target =
    rw (copy_end-full src target) (ap (λ r. (pos 0, r)) (splice-nil target (length target)))

clamp_target-full : (len t : ℕ) → len ≤ t → clamp_target len (some (pos t)) ≡ pos len
unfolding clamp_target
clamp_target-full len t h = ground arith

-- With the whole buffer as its range `copy` moves nothing when the target ends before, or when there
-- is nothing to move.
pub copy-beyond :
    (src target : List ℕ) (t : ℕ)
    → (length target ≤ t) ⊎ (length src ≡ 0)
    → copy src target (some (pos t)) none none ≡ ok (pos 0, target)
unfolding copy
copy-beyond src target t (inl beyond) =
    rw (clamp_end-of 0 (length src) (omega arith), clamp_target-full (length target) t beyond)
      (unfold copy_checked in ground (arith, copy_range-full src target))
copy-beyond src target t (inr empty) = rw (clamp_end-of 0 (length src) (omega arith)) (ground arith)
