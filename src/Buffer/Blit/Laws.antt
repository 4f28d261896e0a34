-- ===== src/Buffer/Blit/Laws.antt =====
-- What `blitBuffer` writes, and the characters that come back.
use winterjs.Common.{
  ℕ, zero, suc, ◌+◌, ◌-◌, ◌%◌, ◌≤◌, ◌<◌, ◌≡◌, sym, ap, ap₂, ◌∙◌, ◌⊎◌, inl, inr, arith, min,
}
use winterjs.Common.{leb, ◌||◌, true, false}
use winterjs.Common.{
  List, [], ◌∷◌, length, take, drop, get_elem?, get_elem?-some, All, some, set, length-set,
}
use winterjs.Js.{store, IsByte, IsBytes}
use winterjs.Js.Int32.{word}
use winterjs.Buffer.Window.{splice, splice-nil, splice-set}
use winterjs.Buffer.Blit.{blit_loop, blit_buffer}

-- How many bytes a copy of `src` at `offset` moves.
abbrev pub blit_count : List ℕ → List ℕ → ℕ → ℕ → ℕ
blit_count src dst offset len = min len (min (length src) (length dst - offset))

pub drop-some {ℓ} :
    {A : Type ℓ} (xs : List A) (i : ℕ) (x : A)
    → get_elem? xs i ≡ some x
    → drop i xs ≡ x ∷ drop (suc i) xs
drop-some [] i x h = absurd (cc h)
drop-some (y ∷ xs) zero x h = cc
drop-some (y ∷ xs) (suc i) x h = drop-some xs i x h

pub All-get_elem? {ℓ κ} :
    {A : Type ℓ} (P : A → Type κ) (xs : List A) (i : ℕ) (x : A)
    → All P xs
    → get_elem? xs i ≡ some x
    → P x
All-get_elem? P [] i x h e = absurd (cc e)
All-get_elem? P (y ∷ xs) zero x (p, h) e = let s : y ≡ x = cc in rw s at p
All-get_elem? P (y ∷ xs) (suc i) x (p, h) e = All-get_elem? P xs i x h e

blit_loop-splice :
    (src : List ℕ) (offset rounds i : ℕ) (dst : List ℕ) (m : ℕ)
    → IsBytes src
    → i + offset ≤ length dst
    → m ≡ min rounds (min (length src - i) (length dst - (i + offset)))
    → blit_loop src offset rounds i dst ≡ (i + m, splice dst (i + offset) (take m (drop i src)))
unfolding blit_loop
blit_loop-splice src offset zero i dst m hs h hm =
    let none_left : m ≡ 0 = omega arith in
    rw none_left (ap₂ (λ a b. (a, b)) (omega arith) (sym (splice-nil dst (i + offset))))
blit_loop-splice src offset (suc rounds) i dst m hs h hm = elim (stop_or_go m hm) [
  | inl stop ↦
      rw (stop.1, stop.0) (ap₂ (λ a b. (a, b)) (omega arith) (sym (splice-nil dst (i + offset))))
  | inr go ↦
      let found = get_elem?-some src i (omega arith) in
      rw go.1 (
        rw go.0 (
          step found.0 found.1 (omega arith) (m - 1) (
            blit_loop-splice src offset rounds (i + 1) (set dst (i + offset) found.0) (m - 1) hs
              (omega (arith, length-set dst (i + offset) found.0))
              (omega (arith, length-set dst (i + offset) found.0)))))
]
  where
    stop_or_go :
        (m : ℕ)
        → m ≡ min (suc rounds) (min (length src - i) (length dst - (i + offset)))
        → ((m ≡ 0) × ((leb (length dst) (i + offset) || leb (length src) i) ≡ true))
          ⊎ ((m ≡ suc (m - 1)) × ((leb (length dst) (i + offset) || leb (length src) i) ≡ false))
    stop_or_go m hm = ground arith

    step :
        (x : ℕ)
        → get_elem? src i ≡ some x
        → i + offset < length dst
        → (k : ℕ)
        → blit_loop src offset rounds (i + 1) (set dst (i + offset) x) ≡ (
          i + 1 + k,
          splice (set dst (i + offset) x) (i + 1 + offset) (take k (drop (i + 1) src)),
        )
        → blit_loop src offset rounds (i + 1) (store dst (i + offset) (word (get_elem? src i)))
          ≡ (i + suc k, splice dst (i + offset) (take (suc k) (drop i src)))
    step x e room k ih = rw (e, small) (ih ∙ ap₂ (λ a b. (a, b)) (omega arith) bytes)
      where
        small : x % 256 ≡ x
        small = omega (arith, All-get_elem? IsByte src i x hs e)

        bytes :
            splice (set dst (i + offset) x) (i + 1 + offset) (take k (drop (i + 1) src))
            ≡ splice dst (i + offset) (take (suc k) (drop i src))
        bytes =
            let p : i + 1 + offset ≡ i + offset + 1 = omega arith in
            let q : i + 1 ≡ suc i = omega arith in
            rw (p, drop-some src i x e, q)
              (splice-set dst (i + offset) x (take k (drop (suc i) src)) room)

-- At an offset inside the target `blitBuffer` moves as many bytes as there are, as fit and as `length`
-- allows, and returns how many.
pub blit_buffer-splice :
    (src dst : List ℕ) (offset len : ℕ)
    → IsBytes src
    → offset ≤ length dst
    → blit_buffer src dst offset len ≡ (
      blit_count src dst offset len,
      splice dst offset (take (blit_count src dst offset len) src),
    )
unfolding blit_buffer
blit_buffer-splice src dst offset len hs h =
    blit_loop-splice src offset len 0 dst (blit_count src dst offset len) hs (omega arith)
      (omega arith)
    ∙ ap₂ (λ a b. (a, b)) (omega arith)
        (let e : 0 + offset ≡ offset = omega arith in
          ap (λ o. splice dst o (take (blit_count src dst offset len) src)) e)
