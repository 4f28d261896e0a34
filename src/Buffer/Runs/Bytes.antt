-- ===== src/Buffer/Runs/Bytes.antt =====
-- The theorems on whole buffers and strings at concrete inputs.
use winterjs.Common.{drop, ℕ, ◌≡◌, ◌↔◌, arith, List, [], ◌∷◌, take, some, none, refl}
use winterjs.Common.Int.{pos, negsuc}
use winterjs.Js.{ok}
use winterjs.Common.{◌++◌}
use winterjs.Buffer.Concat.{concat}
use winterjs.Buffer.Concat.Overlay.{zeros}
use winterjs.Buffer.Concat.Laws.{joined, concat-take}
use winterjs.Buffer.Compare.{compare_buffers}
use winterjs.Buffer.Compare.Laws.{Precedes, compare_buffers_iff}
use winterjs.Buffer.Swap.{swap64}
use winterjs.Buffer.Swap.Laws.{swap64-reverse_eights, reverse_eights}
use winterjs.Buffer.Slice.{slice}
use winterjs.Buffer.Slice.Laws.{slice-drop-take}
use winterjs.Buffer.Copy.{copy}
use winterjs.Buffer.Copy.Laws.{copy-splice, copied, copy_count, copy-end_zero}

abbrev target : List ℕ
target = 10 ∷ 11 ∷ 12 ∷ 13 ∷ 14 ∷ 15 ∷ 16 ∷ 17 ∷ []

abbrev word_bytes : List ℕ
word_bytes = 104 ∷ 111 ∷ 105 ∷ []

compare_buffers_iff_example :
    ((compare_buffers word_bytes target ≡ negsuc 0) ↔ Precedes word_bytes target)
    × ((compare_buffers word_bytes target ≡ pos 1) ↔ Precedes target word_bytes)
    × ((compare_buffers word_bytes target ≡ pos 0) ↔ (word_bytes ≡ target))
compare_buffers_iff_example = compare_buffers_iff word_bytes target

swap64-reverse_eights_example : swap64 target ≡ ok (reverse_eights target)
swap64-reverse_eights_example = swap64-reverse_eights target (omega arith)

slice-drop-take_example :
    (slice target (negsuc 2) (some (negsuc 0)) ≡ drop 5 (take 7 target))
    × (slice target (negsuc 2) none ≡ drop 5 target)
slice-drop-take_example = slice-drop-take target (negsuc 2) (negsuc 0) refl refl

copy-splice_example :
    copy word_bytes target (some (pos 6)) (some (pos 0)) (some (pos 3))
    ≡ ok (copied word_bytes target 6 0 (copy_count word_bytes target 6 0 3))
copy-splice_example = copy-splice word_bytes target 6 0 3 (omega arith) (omega arith) (omega arith)

copy-end_zero_example :
    copy word_bytes target (some (pos 0)) (some (pos 2)) (some (pos 0)) ≡ ok (negsuc 1, target)
copy-end_zero_example = copy-end_zero word_bytes target 0 1 (omega arith) (omega arith)

concat-take_example :
    concat (word_bytes ∷ target ∷ []) (some (pos 9))
    ≡ ok (take 9 (joined (word_bytes ∷ target ∷ []) ++ zeros 9))
concat-take_example = concat-take word_bytes (target ∷ []) 9 (omega arith)
