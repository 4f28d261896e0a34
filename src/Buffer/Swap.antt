-- ===== src/Buffer/Swap.antt =====
-- buffer.js: `swap16`, `swap32` and `swap64`.
pub mod Laws
use winterjs.Common.{ℕ, zero, suc, ◌+◌, ◌/◌, ◌%◌, not, ◌==◌, List, length, set, get_elem?}
use winterjs.Js.{Result, ok, err, ◌>>=◌, ◌>>◌, throw_if, not_multiple}
use winterjs.Js.Int32.{word}

-- `swap(b, n, m)` at two indices inside the buffer.
unfoldable pub swap : List ℕ → ℕ → ℕ → List ℕ
swap b n m = set (set b n (word (get_elem? b m))) m (word (get_elem? b n))

-- The loops: the rounds left, and `i`.
unfoldable pub swap16_loop : ℕ → ℕ → List ℕ → List ℕ
unfolding swap
swap16_loop zero i b = b
swap16_loop (suc rounds) i b = swap16_loop rounds (i + 2) (swap b i (i + 1))

unfoldable pub swap32_loop : ℕ → ℕ → List ℕ → List ℕ
unfolding swap
swap32_loop zero i b = b
swap32_loop (suc rounds) i b = swap32_loop rounds (i + 4) (swap (swap b i (i + 3)) (i + 1) (i + 2))

unfoldable pub swap64_loop : ℕ → ℕ → List ℕ → List ℕ
swap64_loop zero i b = b
swap64_loop (suc rounds) i b =
    let b1 = swap (swap b i (i + 7)) (i + 1) (i + 6) in
    swap64_loop rounds (i + 8) (swap (swap b1 (i + 2) (i + 5)) (i + 3) (i + 4))

-- `swap16`
unfoldable pub swap16 : List ℕ → Result (List ℕ)
unfolding swap16_loop
swap16 b = do throw_if (not (length b % 2 == 0)) not_multiple; ok (swap16_loop (length b / 2) 0 b)

-- `swap32`
unfoldable pub swap32 : List ℕ → Result (List ℕ)
unfolding swap32_loop
swap32 b = do throw_if (not (length b % 4 == 0)) not_multiple; ok (swap32_loop (length b / 4) 0 b)

-- `swap64`
unfoldable pub swap64 : List ℕ → Result (List ℕ)
unfolding swap64_loop
swap64 b = do throw_if (not (length b % 8 == 0)) not_multiple; ok (swap64_loop (length b / 8) 0 b)
