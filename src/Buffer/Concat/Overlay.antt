-- ===== src/Buffer/Concat/Overlay.antt =====
-- Bytes laid over a buffer, as far as it reaches.

use winterjs.Common.{ℕ, zero, suc, ◌+◌, ◌-◌, ◌≤◌, ◌≡◌, refl, ap, arith, min}
use winterjs.Common.{List, [], ◌∷◌, ◌++◌, length, take, replicate}
use winterjs.Buffer.Window.{splice}

abbrev pub overlay : List ℕ → ℕ → List ℕ → List ℕ
overlay [] at ds = []
overlay (x ∷ buffer) (suc at) ds = x ∷ overlay buffer at ds
overlay (x ∷ buffer) zero [] = x ∷ buffer
overlay (x ∷ buffer) zero (d ∷ ds) = d ∷ overlay buffer zero ds

pub overlay-nil : (buffer : List ℕ) (at : ℕ) → overlay buffer at [] ≡ buffer
overlay-nil [] at = refl
overlay-nil (x ∷ buffer) zero = refl
overlay-nil (x ∷ buffer) (suc at) = ap (x ∷◌) (overlay-nil buffer at)

-- One after another is one behind the other.
pub overlay-overlay :
    (buffer : List ℕ) (at : ℕ) (ds es : List ℕ)
    → overlay (overlay buffer at ds) (at + length ds) es ≡ overlay buffer at (ds ++ es)
overlay-overlay [] at ds es = refl
overlay-overlay (x ∷ buffer) (suc at) ds es =
    let e : suc at + length ds ≡ suc (at + length ds) = omega arith in
    rw e (ap (x ∷◌) (overlay-overlay buffer at ds es))
overlay-overlay (x ∷ buffer) zero [] es = refl
overlay-overlay (x ∷ buffer) zero (d ∷ ds) es =
    let e : 0 + suc (length ds) ≡ suc (0 + length ds) = omega arith in
    rw e (ap (d ∷◌) (overlay-overlay buffer zero ds es))

pub overlay-beyond :
    (buffer : List ℕ) (at : ℕ) (ds : List ℕ) → length buffer ≤ at → overlay buffer at ds ≡ buffer
overlay-beyond [] at ds h = refl
overlay-beyond (x ∷ buffer) zero ds h = absurd (omega arith)
overlay-beyond (x ∷ buffer) (suc at) ds h = ap (x ∷◌) (overlay-beyond buffer at ds (omega arith))

-- A splice of as much as fits.
pub splice-overlay :
    (buffer : List ℕ) (at n : ℕ) (ds : List ℕ)
    → n ≡ min (length ds) (length buffer - at)
    → at ≤ length buffer
    → splice buffer at (take n ds) ≡ overlay buffer at ds
splice-overlay [] zero zero ds e h = refl
splice-overlay [] zero (suc n) ds e h = absurd (omega arith)
splice-overlay [] (suc at) n ds e h = absurd (omega arith)
splice-overlay (x ∷ buffer) (suc at) n ds e h =
    ap (x ∷◌) (splice-overlay buffer at n ds (omega arith) (omega arith))
splice-overlay (x ∷ buffer) zero zero [] e h = refl
splice-overlay (x ∷ buffer) zero (suc n) [] e h = absurd (omega arith)
splice-overlay (x ∷ buffer) zero zero (d ∷ ds) e h = absurd (omega arith)
splice-overlay (x ∷ buffer) zero (suc n) (d ∷ ds) e h =
    ap (d ∷◌) (splice-overlay buffer zero n ds (omega arith) (omega arith))

abbrev pub zeros : ℕ → List ℕ
zeros n = replicate n 0

take-zeros : (n m : ℕ) → n ≤ m → zeros n ≡ take n (zeros m)
take-zeros zero m h = refl
take-zeros (suc n) zero h = absurd (omega arith)
take-zeros (suc n) (suc m) h = ap (0 ∷◌) (take-zeros n m (omega arith))

pub overlay-zeros :
    (n m : ℕ) (ds : List ℕ) → n ≤ m → overlay (zeros n) 0 ds ≡ take n (ds ++ zeros m)
overlay-zeros zero m ds h = refl
overlay-zeros (suc n) m [] h = take-zeros (suc n) m h
overlay-zeros (suc n) m (d ∷ ds) h = ap (d ∷◌) (overlay-zeros n m ds (omega arith))
