-- ===== src/Buffer/Copy.antt =====
-- buffer.js: `copy`. The result is the count returned and the target. An argument is `none` where it
-- is undefined. When the target is the buffer itself, both built-in calls read before they write.
pub mod Laws
use winterjs.Common.{ℕ, ◌+◌, ◌-◌, Bool, ◌&&◌, ◌||◌, ◌==◌, ltb, leb, if◌then◌else◌, min}
use winterjs.Common.{List, length, Option, none, some}
use winterjs.Common.Int.{ℤ, pos, negsuc, sub_ℕ, ltb_ℤ, pos_part, neg_part}
use winterjs.Js.{Result, ok, err, or_default, ◌>>=◌, ◌>>◌, throw_if}
use winterjs.Js.{target_start_out_of_bounds, index_out_of_range, source_end_out_of_bounds}
use winterjs.Buffer.Window.{window, splice}

-- `targetStart`, cut to the target's length.
unfoldable pub clamp_target : ℕ → Option ℤ → ℤ
clamp_target len none = pos 0
clamp_target len (some t) = if ltb_ℤ t (pos len) then t else pos len

-- `if (end > 0 && end < start) end = start`
unfoldable pub clamp_end : ℤ → ℤ → ℤ
clamp_end start end = if ltb_ℤ (pos 0) end && ltb_ℤ end start then start else end

-- "Are we oob?": the end, cut to what there is and to what fits.
unfoldable pub copy_end : List ℕ → List ℕ → ℕ → ℕ → ℕ → ℕ
copy_end src target t s e =
    let e1 = if ltb (length src) e then length src else e in
    if ltb (length target - t + s) e1 then length target - t + s else e1

-- The move, and the count.
unfoldable pub copy_range : List ℕ → List ℕ → ℕ → ℕ → ℕ → ℤ × List ℕ
unfolding copy_end
copy_range src target t s e =
    let stop = copy_end src target t s e in
    (sub_ℕ stop s, splice target t (window src s (stop - s)))

-- The "Fatal error conditions", in their order.
unfoldable pub copy_checked : List ℕ → List ℕ → ℤ → ℤ → ℤ → Result (ℤ × List ℕ)
unfolding copy_range
copy_checked src target (negsuc t) s e = err target_start_out_of_bounds
copy_checked src target (pos t) (negsuc s) e = err index_out_of_range
copy_checked src target (pos t) (pos s) (negsuc e) =
    if leb (length src) s then err index_out_of_range else err source_end_out_of_bounds
copy_checked src target (pos t) (pos s) (pos e) =
    if leb (length src) s then err index_out_of_range else ok (copy_range src target t s e)

-- `===` on numbers.
abbrev pub eq_ℤ : ℤ → ℤ → Bool
eq_ℤ a b = pos_part a + neg_part b == pos_part b + neg_part a

-- `copy`
unfoldable pub copy : List ℕ → List ℕ → Option ℤ → Option ℤ → Option ℤ → Result (ℤ × List ℕ)
unfolding clamp_target clamp_end copy_checked
copy src target target_start start end =
    let s = or_default (pos 0) start in
    let e = clamp_end s (or_default (pos (length src)) end) in
    if eq_ℤ e s || (length target == 0 || length src == 0)
    then ok (pos 0, target)
    else copy_checked src target (clamp_target (length target) target_start) s e
