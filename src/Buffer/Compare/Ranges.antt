-- ===== src/Buffer/Compare/Ranges.antt =====
-- `compare` of the prototype on ranges, against `Buffer.compare`.
use winterjs.Common.{
  ℕ, zero, suc, ◌-◌, ◌^◌, ◌<◌, ◌≤◌, ◌≡◌, refl, sym, ap, ap₂, ◌∙◌, ◌⊎◌, inl, inr, arith, min, ◌==◌,
  if◌then◌else◌,
}
use winterjs.Common.{List, [], ◌∷◌, length, take, some}
use winterjs.Common.Int.{pos, negsuc}
use winterjs.Js.{ok}
use winterjs.Js.Int32.{to_uint32}
use winterjs.Buffer.Window.{window, length-window}
use winterjs.Buffer.Slice.Laws.{slice-window}
use winterjs.Buffer.Compare.{differ, compare_buffers, compare_views, compare_ranges, compare}

-- The loop does not look behind the shorter buffer.
differ-take :
    (n : ℕ) (a b : List ℕ) (x y : ℕ)
    → min (length a) (length b) ≤ n
    → differ (take n a) (take n b) x y ≡ differ a b x y
unfolding differ
differ-take zero [] b x y h = refl
differ-take zero (c ∷ a) [] x y h = refl
differ-take zero (c ∷ a) (d ∷ b) x y h = absurd (omega arith)
differ-take (suc n) [] b x y h = refl
differ-take (suc n) (c ∷ a) [] x y h = refl
differ-take (suc n) (c ∷ a) (d ∷ b) x y h =
    ap (λ r. if c == d then r else (c, d)) (differ-take n a b x y (omega arith))

compare_buffers-none : compare_buffers [] [] ≡ pos 0
unfolding compare_buffers
compare_buffers-none = refl

compare_buffers-left : (w : List ℕ) → 0 < length w → compare_buffers [] w ≡ negsuc 0
unfolding compare_buffers
compare_buffers-left w h = ground arith

compare_buffers-right : (w : List ℕ) → 0 < length w → compare_buffers w [] ≡ pos 1
unfolding compare_buffers
compare_buffers-right [] h = absurd (omega arith)
compare_buffers-right (b ∷ w) h = ground arith

-- A range that ends where it starts or before.
window_empty : (buf : List ℕ) (s e : ℕ) → e ≤ s → window buf s (e - s) ≡ []
window_empty buf s e h = let z : e - s ≡ 0 = omega arith in rw z

-- The four ways through `compare`.
module _ (this target : List ℕ) (s e ts te : ℕ)
    (inside : (e ≤ length target) × (te ≤ length this)) where
  ranges-none :
      (te ≤ ts) × (e ≤ s)
      → compare_ranges this target (pos s) (pos e) (pos ts) (pos te) ≡ ok (pos 0)
  unfolding compare_ranges
  ranges-none h = ground arith

  ranges-left :
      (te ≤ ts) × (s < e)
      → compare_ranges this target (pos s) (pos e) (pos ts) (pos te) ≡ ok (negsuc 0)
  unfolding compare_ranges
  ranges-left h = ground arith

  ranges-right :
      (ts < te) × (e ≤ s)
      → compare_ranges this target (pos s) (pos e) (pos ts) (pos te) ≡ ok (pos 1)
  unfolding compare_ranges
  ranges-right h = ground arith

  ranges-both :
      (ts < te) × (s < e)
      → compare_ranges this target (pos s) (pos e) (pos ts) (pos te)
        ≡ ok (
            compare_views this target
              (to_uint32 (pos s))
              (to_uint32 (pos e))
              (to_uint32 (pos ts))
              (to_uint32 (pos te)))
  unfolding compare_ranges
  ranges-both h = ground arith

module _ (this target : List ℕ) (s e ts te : ℕ) (inside : (e ≤ length target) × (te ≤ length this))
    (small : (e < 2 ^ 31) × (te < 2 ^ 31)) where
  compare_views-windows :
      s < e
      → ts < te
      → compare_views this target s e ts te
        ≡ compare_buffers (window this ts (te - ts)) (window target s (e - s))
  unfolding compare_views compare_buffers
  compare_views-windows hs ht =
      rw
        (
          slice-window this ts te (omega arith) inside.1 small.1,
          slice-window target s e (omega arith) inside.0 small.0,
          differ-take (min (te - ts) (e - s)) (window this ts (te - ts)) (window target s (e - s))
              (te - ts) (e - s) (omega (arith, this_length, target_length)),
          this_length,
          target_length,
        )
        refl
    where
      this_length : length (window this ts (te - ts)) ≡ te - ts
      this_length = length-window this ts (te - ts) (omega arith)

      target_length : length (window target s (e - s)) ≡ e - s
      target_length = length-window target s (e - s) (omega arith)

  this_empty : te ≤ ts → window this ts (te - ts) ≡ []
  this_empty h = window_empty this ts te h

  target_empty : e ≤ s → window target s (e - s) ≡ []
  target_empty h = window_empty target s e h

  this_some : ts < te → 0 < length (window this ts (te - ts))
  this_some h = omega (arith, length-window this ts (te - ts) (omega arith))

  target_some : s < e → 0 < length (window target s (e - s))
  target_some h = omega (arith, length-window target s (e - s) (omega arith))

  -- On ranges that end inside two buffers and below 2 ^ 31, empty ones too, `compare` answers what
  -- `Buffer.compare` answers on the bytes of the ranges.
  pub compare-windows :
      compare this target (some (pos s)) (some (pos e)) (some (pos ts)) (some (pos te))
      ≡ ok (compare_buffers (window this ts (te - ts)) (window target s (e - s)))
  unfolding compare
  compare-windows = elim cases [
    | inl (inl none_left) ↦
        ranges-none this target s e ts te inside none_left
        ∙ ap ok (sym (rw (this_empty none_left.0, target_empty none_left.1) compare_buffers-none))
    | inl (inr this_done) ↦
        ranges-left this target s e ts te inside this_done
        ∙ ap ok (
            sym (
              rw (this_empty this_done.0)
                (compare_buffers-left (window target s (e - s)) (target_some this_done.1))))
    | inr (inl target_done) ↦
        ranges-right this target s e ts te inside target_done
        ∙ ap ok (
            sym (
              rw (target_empty target_done.1)
                (compare_buffers-right (window this ts (te - ts)) (this_some target_done.0))))
    | inr (inr both) ↦
        ranges-both this target s e ts te inside both
        ∙ ap ok (
            ap₂ (λ a b. compare_views this target a b (to_uint32 (pos ts)) (to_uint32 (pos te)))
              (omega arith) (omega arith)
            ∙ ap₂ (λ a b. compare_views this target s e a b) (omega arith) (omega arith)
            ∙ compare_views-windows both.1 both.0)
  ]
    where
      cases :
          (((te ≤ ts) × (e ≤ s)) ⊎ ((te ≤ ts) × (s < e)))
          ⊎ (((ts < te) × (e ≤ s)) ⊎ ((ts < te) × (s < e)))
      cases = omega arith
