-- ===== src/Buffer/Window.antt =====
-- The bytes of a buffer from an offset on, the numbers that they stand for, and a buffer in which
-- they are replaced: what the accessors are specified by.
use Prim.Native.Nat.add
use native.Mathlib.Nat.{pow-suc}
use native.Mathlib.Numerals.{add-one, towards_suc}
use winterjs.Common.{
  ℕ, zero, suc, ◌+◌, ◌-◌, ◌*◌, ◌/◌, ◌%◌, ◌^◌, ◌<◌, ◌≤◌, ◌≡◌, refl, ap, ◌∙◌, arith,
}
use winterjs.Common.Int.{ℤ, pos, negsuc}
use winterjs.Js.{store, IsByte, IsBytes}
use winterjs.Common.{
  ltb, if◌then◌else◌, All-take, All-drop, List, [], ◌∷◌, ◌++◌, some, length, length-append, take,
  drop, set,
}
use winterjs.Common.{get_elem?, get_elem?-drop, length-drop, length-take, take-append-drop}

-- `n` bytes from `offset` on.
abbrev pub window : List ℕ → ℕ → ℕ → List ℕ
window buf offset n = take n (drop offset buf)

-- The buffer with the bytes from `offset` on replaced by `ds`.
abbrev pub splice : List ℕ → ℕ → List ℕ → List ℕ
splice buf offset ds = take offset buf ++ (ds ++ drop (length ds) (drop offset buf))

-- The number that bytes stand for, the lowest byte first, and the highest first.
abbrev pub le_num : List ℕ → ℕ
le_num [] = 0
le_num (b ∷ bs) = b + 256 * le_num bs

abbrev pub be_num : List ℕ → ℕ
be_num [] = 0
be_num (b ∷ bs) = b * 256 ^ length bs + be_num bs

-- The `n` low bytes of a number, the lowest first, and the highest first.
abbrev pub le_bytes : ℕ → ℕ → List ℕ
le_bytes zero v = []
le_bytes (suc n) v = (v % 256) ∷ le_bytes n (v / 256)

abbrev pub be_bytes : ℕ → ℕ → List ℕ
be_bytes zero v = []
be_bytes (suc n) v = be_bytes n (v / 256) ++ (v % 256) ∷ []

-- The integer that `n` bytes stand for in two's complement.
abbrev pub signed_num : ℕ → ℕ → ℤ
signed_num n w = if ltb (2 * w) (256 ^ n) then pos w else negsuc (256 ^ n - 1 - w)

pub length-le_bytes : (n v : ℕ) → length (le_bytes n v) ≡ n
length-le_bytes zero v = refl
length-le_bytes (suc n) v = ap suc (length-le_bytes n (v / 256))

pub length-be_bytes : (n v : ℕ) → length (be_bytes n v) ≡ n
length-be_bytes zero v = refl
length-be_bytes (suc n) v =
    omega
      (arith, length-append (be_bytes n (v / 256)) ((v % 256) ∷ []), length-be_bytes n (v / 256))

pub le_num-le_bytes : (n v : ℕ) → v < 256 ^ n → le_num (le_bytes n v) ≡ v
le_num-le_bytes zero v h = omega arith
le_num-le_bytes (suc n) v h =
    omega (arith, le_num-le_bytes n (v / 256) (omega (arith, pow-suc 256 n)))

pub be_num-append : (xs : List ℕ) (b : ℕ) → be_num (xs ++ b ∷ []) ≡ be_num xs * 256 + b
be_num-append [] b = omega arith
be_num-append (x ∷ xs) b =
    rw (length-append xs (b ∷ []), add-one, pow-suc) (omega (arith, be_num-append xs b))

pub be_num-be_bytes : (n v : ℕ) → v < 256 ^ n → be_num (be_bytes n v) ≡ v
be_num-be_bytes zero v h = omega arith
be_num-be_bytes (suc n) v h = omega (
  arith,
  be_num-append (be_bytes n (v / 256)) (v % 256),
  be_num-be_bytes n (v / 256) (omega (arith, pow-suc 256 n)),
)

take-append_length {ℓ} : {A : Type ℓ} (xs ys : List A) → take (length xs) (xs ++ ys) ≡ xs
take-append_length [] ys = refl
take-append_length (x ∷ xs) ys = ap (x ∷◌) (take-append_length xs ys)

-- What was put in is found again.
pub window-splice :
    (buf : List ℕ) (offset : ℕ) (ds : List ℕ)
    → offset + length ds ≤ length buf
    → window (splice buf offset ds) offset (length ds) ≡ ds
window-splice buf zero ds h = take-append_length ds (drop (length ds) buf)
window-splice [] (suc offset) ds h = absurd (omega arith)
window-splice (b ∷ buf) (suc offset) ds h = window-splice buf offset ds (omega arith)

pub length-splice :
    (buf : List ℕ) (offset : ℕ) (ds : List ℕ)
    → offset + length ds ≤ length buf
    → length (splice buf offset ds) ≡ length buf
length-splice buf offset ds h = omega (
  arith,
  length-append (take offset buf) (ds ++ drop (length ds) (drop offset buf)),
  length-append ds (drop (length ds) (drop offset buf)),
  length-take offset buf,
  length-drop offset buf,
  length-drop (length ds) (drop offset buf),
)

-- A write at `offset` and then behind it.
pub splice-set :
    (buf : List ℕ) (offset d : ℕ) (ds : List ℕ)
    → offset < length buf
    → splice (set buf offset d) (offset + 1) ds ≡ splice buf offset (d ∷ ds)
splice-set [] offset d ds h = absurd (omega arith)
splice-set (b ∷ buf) zero d ds h = refl
splice-set (b ∷ buf) (suc offset) d ds h =
    rw add.suc (ap (b ∷◌) (splice-set buf offset d ds (omega arith)))

-- A write of the last byte, and then of those before it.
pub splice-set_last :
    (buf : List ℕ) (offset d : ℕ) (ds : List ℕ)
    → offset + length ds < length buf
    → splice (set buf (offset + length ds) d) offset ds ≡ splice buf offset (ds ++ d ∷ [])
splice-set_last [] offset d ds h = absurd (omega arith)
splice-set_last (b ∷ buf) zero d [] h = refl
splice-set_last (b ∷ buf) zero d (e ∷ ds) h =
    rw add.zero (ap (e ∷◌) (rw add.zero at (splice-set_last buf 0 d ds (omega arith))))
splice-set_last (b ∷ buf) (suc offset) d ds h =
    rw add.suc (ap (b ∷◌) (splice-set_last buf offset d ds (omega arith)))

-- A splice of nothing.
pub splice-nil : (buf : List ℕ) (offset : ℕ) → splice buf offset [] ≡ buf
splice-nil buf offset = take-append-drop offset buf

take_snoc :
    (zs : List ℕ) (n b : ℕ) → get_elem? zs n ≡ some b → take (suc n) zs ≡ take n zs ++ b ∷ []
take_snoc [] n b h = cc
take_snoc (z ∷ zs) zero b h = cc
take_snoc (z ∷ zs) (suc n) b h = ap (z ∷◌) (take_snoc zs n b h)

-- One more byte at the end of a window.
pub window_snoc :
    (buf : List ℕ) (offset n b : ℕ)
    → get_elem? buf (offset + n) ≡ some b
    → window buf offset (suc n) ≡ window buf offset n ++ b ∷ []
window_snoc buf offset n b h = take_snoc (drop offset buf) n b (get_elem?-drop offset n buf ∙ h)

-- Two and four stores behind one another, and four with the last byte first.
pub set_two :
    (buf : List ℕ) (offset a b : ℕ)
    → offset + 2 ≤ length buf
    → set (set buf offset a) (offset + 1) b ≡ splice buf offset (a ∷ b ∷ [])
set_two [] offset a b h = absurd (omega arith)
set_two (x ∷ []) zero a b h = absurd (omega arith)
set_two (x ∷ y ∷ buf) zero a b h = refl
set_two (x ∷ buf) (suc offset) a b h = rw add.suc (ap (x ∷◌) (set_two buf offset a b (omega arith)))

pub set_four :
    (buf : List ℕ) (offset a b c d : ℕ)
    → offset + 4 ≤ length buf
    → set (set (set (set buf offset a) (offset + 1) b) (offset + 2) c) (offset + 3) d
      ≡ splice buf offset (a ∷ b ∷ c ∷ d ∷ [])
set_four [] offset a b c d h = absurd (omega arith)
set_four (x ∷ []) zero a b c d h = absurd (omega arith)
set_four (x ∷ y ∷ []) zero a b c d h = absurd (omega arith)
set_four (x ∷ y ∷ z ∷ []) zero a b c d h = absurd (omega arith)
set_four (x ∷ y ∷ z ∷ w ∷ buf) zero a b c d h = refl
set_four (x ∷ buf) (suc offset) a b c d h =
    rw (add.suc, add.suc, add.suc) (ap (x ∷◌) (set_four buf offset a b c d (omega arith)))

pub set_four_down :
    (buf : List ℕ) (offset a b c d : ℕ)
    → offset + 4 ≤ length buf
    → set (set (set (set buf (offset + 3) d) (offset + 2) c) (offset + 1) b) offset a
      ≡ splice buf offset (a ∷ b ∷ c ∷ d ∷ [])
set_four_down [] offset a b c d h = absurd (omega arith)
set_four_down (x ∷ []) zero a b c d h = absurd (omega arith)
set_four_down (x ∷ y ∷ []) zero a b c d h = absurd (omega arith)
set_four_down (x ∷ y ∷ z ∷ []) zero a b c d h = absurd (omega arith)
set_four_down (x ∷ y ∷ z ∷ w ∷ buf) zero a b c d h = refl
set_four_down (x ∷ buf) (suc offset) a b c d h =
    rw (add.suc, add.suc, add.suc) (ap (x ∷◌) (set_four_down buf offset a b c d (omega arith)))

-- The last byte of a known number of bytes.
pub splice-set_end :
    (buf : List ℕ) (offset n d : ℕ) (ds : List ℕ)
    → length ds ≡ n
    → offset + n < length buf
    → splice (set buf (offset + n) d) offset ds ≡ splice buf offset (ds ++ d ∷ [])
splice-set_end buf offset n d ds e h = rw (← e) (splice-set_last buf offset d ds (omega arith))

-- `2 ^ (8 * n)` is a power of 256.
pub pow-bits : (n : ℕ) → 2 ^ (8 * n) ≡ 256 ^ n
pow-bits zero = refl
pow-bits (suc n) = rw (eight_more, pow-suc 256 n, ← pow-bits n) (simp towards_suc (omega arith))
  where
    eight_more : 8 * suc n ≡ 8 * n + 8
    eight_more = omega arith

-- Bytes stand for a number below the power of 256.
pub le_num-lt : (bs : List ℕ) → IsBytes bs → le_num bs < 256 ^ length bs
le_num-lt [] h = omega arith
le_num-lt (b ∷ bs) (hb, hs) = omega (arith, le_num-lt bs hs, pow-suc 256 (length bs))

pub be_num-lt : (bs : List ℕ) → IsBytes bs → be_num bs < 256 ^ length bs
be_num-lt [] h = omega arith
be_num-lt (b ∷ bs) (hb, hs) = grind (arith, be_num-lt bs hs, pow-suc 256 (length bs))

pub window-IsBytes : (buf : List ℕ) (offset n : ℕ) → IsBytes buf → IsBytes (window buf offset n)
window-IsBytes buf offset n h = All-take IsByte n (drop offset buf) (All-drop IsByte offset buf h)

pub length-window :
    (buf : List ℕ) (offset n : ℕ) → offset + n ≤ length buf → length (window buf offset n) ≡ n
length-window buf offset n h =
    omega (arith, length-take n (drop offset buf), length-drop offset buf)

pub le_num-window-lt :
    (buf : List ℕ) (offset n : ℕ)
    → IsBytes buf
    → offset + n ≤ length buf
    → le_num (window buf offset n) < 256 ^ n
le_num-window-lt buf offset n h k =
    rw (length-window buf offset n k) at
      (le_num-lt (window buf offset n) (window-IsBytes buf offset n h))

pub be_num-window-lt :
    (buf : List ℕ) (offset n : ℕ)
    → IsBytes buf
    → offset + n ≤ length buf
    → be_num (window buf offset n) < 256 ^ n
be_num-window-lt buf offset n h k =
    rw (length-window buf offset n k) at
      (be_num-lt (window buf offset n) (window-IsBytes buf offset n h))

-- Two splices side by side, in either order.
pub splice-splice_up :
    (buf : List ℕ) (offset : ℕ) (ds es : List ℕ)
    → offset + length ds ≤ length buf
    → splice (splice buf offset ds) (offset + length ds) es ≡ splice buf offset (ds ++ es)
splice-splice_up buf zero [] es h = refl
splice-splice_up [] zero (d ∷ ds) es h = absurd (omega arith)
splice-splice_up (b ∷ buf) zero (d ∷ ds) es h =
    rw add.zero (ap (d ∷◌) (rw add.zero at (splice-splice_up buf 0 ds es (omega arith))))
splice-splice_up [] (suc offset) ds es h = absurd (omega arith)
splice-splice_up (b ∷ buf) (suc offset) ds es h =
    rw add.suc (ap (b ∷◌) (splice-splice_up buf offset ds es (omega arith)))

pub splice-splice_down :
    (buf : List ℕ) (offset : ℕ) (ds es : List ℕ)
    → offset + length ds ≤ length buf
    → splice (splice buf (offset + length ds) es) offset ds ≡ splice buf offset (ds ++ es)
splice-splice_down buf zero [] es h = refl
splice-splice_down [] zero (d ∷ ds) es h = absurd (omega arith)
splice-splice_down (b ∷ buf) zero (d ∷ ds) es h =
    rw add.zero (ap (d ∷◌) (rw add.zero at (splice-splice_down buf 0 ds es (omega arith))))
splice-splice_down [] (suc offset) ds es h = absurd (omega arith)
splice-splice_down (b ∷ buf) (suc offset) ds es h =
    rw add.suc (ap (b ∷◌) (splice-splice_down buf offset ds es (omega arith)))

-- Stores keep bytes.
pub store-IsBytes : (arr : List ℕ) (i v : ℕ) → IsBytes arr → IsBytes (store arr i v)
store-IsBytes [] i v h = tt
store-IsBytes (x ∷ arr) zero v (hx, h) = (omega arith, h)
store-IsBytes (x ∷ arr) (suc i) v (hx, h) = (hx, store-IsBytes arr i v h)
