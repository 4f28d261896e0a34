-- ===== src/Buffer/Runs/Search.antt =====
-- The theorems on the search in buffers at concrete inputs.
use winterjs.Common.{false, ◌↔◌, ◌≤◌, ℕ, ◌≡◌, arith, true, List, [], ◌∷◌, none, some}
use winterjs.Common.Int.{ℤ, pos, negsuc}
use winterjs.Js.{ok}
use winterjs.Buffer.Search.{array_index_of, bytes, index_of, last_index_of, includes}
use winterjs.Buffer.Search.Forward.{Occurs, First, array_index_of-First}
use winterjs.Buffer.Search.Backward.{Last}
use winterjs.Buffer.Search.Offsets.{includes_iff, index_of-First_from, last_index_of-Last_from}

-- The second try starts inside the first.
abbrev hay : List ℕ
hay = 1 ∷ 1 ∷ 2 ∷ 1 ∷ 1 ∷ 2 ∷ []

abbrev pin : List ℕ
pin = 1 ∷ 2 ∷ []

array_index_of-First_example :
    (z : ℤ) × (array_index_of hay pin 0 true ≡ some z) × First hay pin 0 z
array_index_of-First_example = array_index_of-First hay pin 0 (omega arith) (omega arith)

index_of-First_from_example :
    (z : ℤ) × (index_of none hay (bytes pin) (some (negsuc 8)) ≡ ok (some z)) × First hay pin 0 z
index_of-First_from_example =
    index_of-First_from none hay 1 (2 ∷ []) (omega arith) (omega arith) (some (negsuc 8))

last_index_of-Last_from_example :
    (z : ℤ) × (last_index_of none hay (bytes pin) (some (pos 9)) ≡ ok (some z)) × Last hay pin 5 z
last_index_of-Last_from_example =
    last_index_of-Last_from none hay 1 (2 ∷ []) (omega arith) (omega arith) (some (pos 9))

includes_iff_example :
    ((includes none hay (bytes pin) (some (pos 2)) ≡ ok (some true))
      ↔ ((i : ℕ) × (2 ≤ i) × Occurs hay pin i))
    × ((includes none hay (bytes pin) (some (pos 2)) ≡ ok (some false))
        ↔ ¬ ((i : ℕ) × (2 ≤ i) × Occurs hay pin i))
includes_iff_example = includes_iff none hay 1 (2 ∷ []) (omega arith) (omega arith) (some (pos 2))
