-- ===== src/Buffer/Swap/Laws.antt =====
-- The swaps reverse each group of bytes, and undo themselves.
use Prim.Native.Nat.add
use winterjs.Common.{ℕ, zero, suc, ◌+◌, ◌*◌, ◌/◌, ◌%◌, ◌≡◌, refl, ap, ◌∙◌, arith}
use winterjs.Common.{List, [], ◌∷◌, length}
use winterjs.Js.{ok, ◌>>=◌}
use winterjs.Buffer.Swap.{swap, swap16_loop, swap32_loop, swap64_loop, swap16, swap32, swap64}

-- Groups of two, four and eight bytes, each reversed; what is left over stays.
pub reverse_twos : List ℕ → List ℕ
reverse_twos (a ∷ b ∷ r) = b ∷ a ∷ reverse_twos r
reverse_twos r = r

pub reverse_fours : List ℕ → List ℕ
reverse_fours (a ∷ b ∷ c ∷ d ∷ r) = d ∷ c ∷ b ∷ a ∷ reverse_fours r
reverse_fours r = r

pub reverse_eights : List ℕ → List ℕ
reverse_eights (a ∷ b ∷ c ∷ d ∷ e ∷ f ∷ g ∷ h ∷ r) =
    h ∷ g ∷ f ∷ e ∷ d ∷ c ∷ b ∷ a ∷ reverse_eights r
reverse_eights r = r

swap-suc : (x : ℕ) (b : List ℕ) (n m : ℕ) → swap (x ∷ b) (suc n) (suc m) ≡ x ∷ swap b n m
unfolding swap
swap-suc x b n m = refl

swap16_loop-suc :
    (rounds i x : ℕ) (b : List ℕ) → swap16_loop rounds (suc i) (x ∷ b) ≡ x ∷ swap16_loop rounds i b
unfolding swap16_loop
swap16_loop-suc zero i x b = refl
swap16_loop-suc (suc rounds) i x b =
    rw (add.suc, add.suc, swap-suc x b i (i + 1))
      (swap16_loop-suc rounds (i + 2) x (swap b i (i + 1)))

swap16_loop-reverse_twos :
    (rounds : ℕ) (b : List ℕ) → length b ≡ 2 * rounds → swap16_loop rounds 0 b ≡ reverse_twos b
unfolding swap16_loop reverse_twos
swap16_loop-reverse_twos zero [] h = refl
swap16_loop-reverse_twos zero (x ∷ b) h = absurd (omega arith)
swap16_loop-reverse_twos (suc rounds) [] h = absurd (omega arith)
swap16_loop-reverse_twos (suc rounds) (x ∷ []) h = absurd (omega arith)
swap16_loop-reverse_twos (suc rounds) (x ∷ y ∷ b) h =
    swap16_loop-suc rounds 1 y (x ∷ b)
    ∙ ap (y ∷◌)
        (swap16_loop-suc rounds 0 x b ∙ ap (x ∷◌) (swap16_loop-reverse_twos rounds b (omega arith)))

swap32_loop-suc :
    (rounds i x : ℕ) (b : List ℕ) → swap32_loop rounds (suc i) (x ∷ b) ≡ x ∷ swap32_loop rounds i b
unfolding swap32_loop
swap32_loop-suc zero i x b = refl
swap32_loop-suc (suc rounds) i x b =
    rw
      (
        add.suc,
        add.suc,
        add.suc,
        add.suc,
        swap-suc x b i (i + 3),
        swap-suc x (swap b i (i + 3)) (i + 1) (i + 2),
      )
      (swap32_loop-suc rounds (i + 4) x (swap (swap b i (i + 3)) (i + 1) (i + 2)))

swap32_loop-reverse_fours :
    (rounds : ℕ) (b : List ℕ) → length b ≡ 4 * rounds → swap32_loop rounds 0 b ≡ reverse_fours b
unfolding swap32_loop reverse_fours
swap32_loop-reverse_fours zero [] h = refl
swap32_loop-reverse_fours zero (x ∷ b) h = absurd (omega arith)
swap32_loop-reverse_fours (suc rounds) [] k = absurd (omega arith)
swap32_loop-reverse_fours (suc rounds) (a ∷ []) k = absurd (omega arith)
swap32_loop-reverse_fours (suc rounds) (a ∷ b ∷ []) k = absurd (omega arith)
swap32_loop-reverse_fours (suc rounds) (a ∷ b ∷ c ∷ []) k = absurd (omega arith)
swap32_loop-reverse_fours (suc rounds) (a ∷ b ∷ c ∷ d ∷ z) k =
    swap32_loop-suc rounds 3 d (c ∷ b ∷ a ∷ z)
    ∙ ap (d ∷◌) (
        swap32_loop-suc rounds 2 c (b ∷ a ∷ z)
        ∙ ap (c ∷◌) (
            swap32_loop-suc rounds 1 b (a ∷ z)
            ∙ ap (b ∷◌) (
                swap32_loop-suc rounds 0 a (z)
                ∙ ap (a ∷◌) (swap32_loop-reverse_fours rounds z (omega arith)))))

swap64_loop-suc :
    (rounds i x : ℕ) (b : List ℕ) → swap64_loop rounds (suc i) (x ∷ b) ≡ x ∷ swap64_loop rounds i b
unfolding swap64_loop
swap64_loop-suc zero i x b = refl
swap64_loop-suc (suc rounds) i x b =
    rw
      (
        add.suc,
        add.suc,
        add.suc,
        add.suc,
        add.suc,
        add.suc,
        add.suc,
        add.suc,
        swap-suc x b i (i + 7),
        swap-suc x (swap b i (i + 7)) (i + 1) (i + 6),
        swap-suc x (swap (swap b i (i + 7)) (i + 1) (i + 6)) (i + 2) (i + 5),
        swap-suc x (swap (swap (swap b i (i + 7)) (i + 1) (i + 6)) (i + 2) (i + 5)) (i + 3) (i + 4),
      )
      (swap64_loop-suc rounds (i + 8) x
        (swap (swap (swap (swap b i (i + 7)) (i + 1) (i + 6)) (i + 2) (i + 5)) (i + 3) (i + 4)))

swap64_loop-reverse_eights :
    (rounds : ℕ) (b : List ℕ) → length b ≡ 8 * rounds → swap64_loop rounds 0 b ≡ reverse_eights b
unfolding swap64_loop reverse_eights swap
swap64_loop-reverse_eights zero [] h = refl
swap64_loop-reverse_eights zero (x ∷ b) h = absurd (omega arith)
swap64_loop-reverse_eights (suc rounds) [] k = absurd (omega arith)
swap64_loop-reverse_eights (suc rounds) (a ∷ []) k = absurd (omega arith)
swap64_loop-reverse_eights (suc rounds) (a ∷ b ∷ []) k = absurd (omega arith)
swap64_loop-reverse_eights (suc rounds) (a ∷ b ∷ c ∷ []) k = absurd (omega arith)
swap64_loop-reverse_eights (suc rounds) (a ∷ b ∷ c ∷ d ∷ []) k = absurd (omega arith)
swap64_loop-reverse_eights (suc rounds) (a ∷ b ∷ c ∷ d ∷ e ∷ []) k = absurd (omega arith)
swap64_loop-reverse_eights (suc rounds) (a ∷ b ∷ c ∷ d ∷ e ∷ f ∷ []) k = absurd (omega arith)
swap64_loop-reverse_eights (suc rounds) (a ∷ b ∷ c ∷ d ∷ e ∷ f ∷ g ∷ []) k = absurd (omega arith)
swap64_loop-reverse_eights (suc rounds) (a ∷ b ∷ c ∷ d ∷ e ∷ f ∷ g ∷ h ∷ z) k =
    swap64_loop-suc rounds 7 h (g ∷ f ∷ e ∷ d ∷ c ∷ b ∷ a ∷ z)
    ∙ ap (h ∷◌) (
        swap64_loop-suc rounds 6 g (f ∷ e ∷ d ∷ c ∷ b ∷ a ∷ z)
        ∙ ap (g ∷◌) (
            swap64_loop-suc rounds 5 f (e ∷ d ∷ c ∷ b ∷ a ∷ z)
            ∙ ap (f ∷◌) (
                swap64_loop-suc rounds 4 e (d ∷ c ∷ b ∷ a ∷ z)
                ∙ ap (e ∷◌) (
                    swap64_loop-suc rounds 3 d (c ∷ b ∷ a ∷ z)
                    ∙ ap (d ∷◌) (
                        swap64_loop-suc rounds 2 c (b ∷ a ∷ z)
                        ∙ ap (c ∷◌) (
                            swap64_loop-suc rounds 1 b (a ∷ z)
                            ∙ ap (b ∷◌) (
                                swap64_loop-suc rounds 0 a (z)
                                ∙ ap (a ∷◌)
                                    (swap64_loop-reverse_eights rounds z (omega arith)))))))))

reverse_twos-reverse_twos : (b : List ℕ) → reverse_twos (reverse_twos b) ≡ b
unfolding reverse_twos
reverse_twos-reverse_twos [] = refl
reverse_twos-reverse_twos (a ∷ []) = refl
reverse_twos-reverse_twos (a ∷ b ∷ z) = ap (a ∷◌) (ap (b ∷◌) (reverse_twos-reverse_twos z))

length-reverse_twos : (b : List ℕ) → length (reverse_twos b) ≡ length b
unfolding reverse_twos
length-reverse_twos [] = refl
length-reverse_twos (a ∷ []) = refl
length-reverse_twos (a ∷ b ∷ z) = omega (arith, length-reverse_twos z)

-- `swap16` reverses every group of 2 bytes in a buffer of a whole number of groups.
pub swap16-reverse_twos : (b : List ℕ) → length b % 2 ≡ 0 → swap16 b ≡ ok (reverse_twos b)
unfolding swap16
swap16-reverse_twos b h = ground (arith, swap16_loop-reverse_twos (length b / 2) b (omega arith))

-- `swap16` twice gives a buffer of a whole number of groups back.
pub swap16-swap16 : (b : List ℕ) → length b % 2 ≡ 0 → (swap16 b >>= swap16) ≡ ok b
swap16-swap16 b h = rw (
  swap16-reverse_twos b h,
  swap16-reverse_twos (reverse_twos b) (rw (length-reverse_twos b) h),
  reverse_twos-reverse_twos b,
)

reverse_fours-reverse_fours : (b : List ℕ) → reverse_fours (reverse_fours b) ≡ b
unfolding reverse_fours
reverse_fours-reverse_fours [] = refl
reverse_fours-reverse_fours (a ∷ []) = refl
reverse_fours-reverse_fours (a ∷ b ∷ []) = refl
reverse_fours-reverse_fours (a ∷ b ∷ c ∷ []) = refl
reverse_fours-reverse_fours (a ∷ b ∷ c ∷ d ∷ z) =
    ap (a ∷◌) (ap (b ∷◌) (ap (c ∷◌) (ap (d ∷◌) (reverse_fours-reverse_fours z))))

length-reverse_fours : (b : List ℕ) → length (reverse_fours b) ≡ length b
unfolding reverse_fours
length-reverse_fours [] = refl
length-reverse_fours (a ∷ []) = refl
length-reverse_fours (a ∷ b ∷ []) = refl
length-reverse_fours (a ∷ b ∷ c ∷ []) = refl
length-reverse_fours (a ∷ b ∷ c ∷ d ∷ z) = omega (arith, length-reverse_fours z)

-- `swap32` reverses every group of 4 bytes in a buffer of a whole number of groups.
pub swap32-reverse_fours : (b : List ℕ) → length b % 4 ≡ 0 → swap32 b ≡ ok (reverse_fours b)
unfolding swap32
swap32-reverse_fours b h = ground (arith, swap32_loop-reverse_fours (length b / 4) b (omega arith))

-- `swap32` twice gives a buffer of a whole number of groups back.
pub swap32-swap32 : (b : List ℕ) → length b % 4 ≡ 0 → (swap32 b >>= swap32) ≡ ok b
swap32-swap32 b h = rw (
  swap32-reverse_fours b h,
  swap32-reverse_fours (reverse_fours b) (rw (length-reverse_fours b) h),
  reverse_fours-reverse_fours b,
)

reverse_eights-reverse_eights : (b : List ℕ) → reverse_eights (reverse_eights b) ≡ b
unfolding reverse_eights
reverse_eights-reverse_eights [] = refl
reverse_eights-reverse_eights (a ∷ []) = refl
reverse_eights-reverse_eights (a ∷ b ∷ []) = refl
reverse_eights-reverse_eights (a ∷ b ∷ c ∷ []) = refl
reverse_eights-reverse_eights (a ∷ b ∷ c ∷ d ∷ []) = refl
reverse_eights-reverse_eights (a ∷ b ∷ c ∷ d ∷ e ∷ []) = refl
reverse_eights-reverse_eights (a ∷ b ∷ c ∷ d ∷ e ∷ f ∷ []) = refl
reverse_eights-reverse_eights (a ∷ b ∷ c ∷ d ∷ e ∷ f ∷ g ∷ []) = refl
reverse_eights-reverse_eights (a ∷ b ∷ c ∷ d ∷ e ∷ f ∷ g ∷ h ∷ z) = ap (a ∷◌) (
    ap (b ∷◌) (
      ap (c ∷◌) (
        ap (d ∷◌)
          (ap (e ∷◌) (ap (f ∷◌) (ap (g ∷◌) (ap (h ∷◌) (reverse_eights-reverse_eights z))))))))

length-reverse_eights : (b : List ℕ) → length (reverse_eights b) ≡ length b
unfolding reverse_eights
length-reverse_eights [] = refl
length-reverse_eights (a ∷ []) = refl
length-reverse_eights (a ∷ b ∷ []) = refl
length-reverse_eights (a ∷ b ∷ c ∷ []) = refl
length-reverse_eights (a ∷ b ∷ c ∷ d ∷ []) = refl
length-reverse_eights (a ∷ b ∷ c ∷ d ∷ e ∷ []) = refl
length-reverse_eights (a ∷ b ∷ c ∷ d ∷ e ∷ f ∷ []) = refl
length-reverse_eights (a ∷ b ∷ c ∷ d ∷ e ∷ f ∷ g ∷ []) = refl
length-reverse_eights (a ∷ b ∷ c ∷ d ∷ e ∷ f ∷ g ∷ h ∷ z) = omega (arith, length-reverse_eights z)

-- `swap64` reverses every group of 8 bytes in a buffer of a whole number of groups.
pub swap64-reverse_eights : (b : List ℕ) → length b % 8 ≡ 0 → swap64 b ≡ ok (reverse_eights b)
unfolding swap64
swap64-reverse_eights b h =
    ground (arith, swap64_loop-reverse_eights (length b / 8) b (omega arith))

-- `swap64` twice gives a buffer of a whole number of groups back.
pub swap64-swap64 : (b : List ℕ) → length b % 8 ≡ 0 → (swap64 b >>= swap64) ≡ ok b
swap64-swap64 b h = rw (
  swap64-reverse_eights b h,
  swap64-reverse_eights (reverse_eights b) (rw (length-reverse_eights b) h),
  reverse_eights-reverse_eights b,
)
