-- ===== src/Buffer/Compare/Laws.antt =====
-- `Buffer.compare` is the lexicographic order of the bytes.
use winterjs.Common.{ℕ, ◌+◌, ◌<◌, ◌≡◌, ◌⊎◌, ◌↔◌, inl, inr, refl, ap₂, arith, dec_lt}
use winterjs.Common.{true, List, [], ◌∷◌, length}
use winterjs.Common.Int.{pos, negsuc}
use winterjs.Buffer.Compare.{differ, three_way, compare_buffers, equals}

-- The order of the bytes at the first difference, with a proper prefix before what it begins.
pub data Precedes : List ℕ → List ℕ → Type 0 where
  prefix : (b : ℕ) (bs : List ℕ) → Precedes [] (b ∷ bs)
  byte : (a b : ℕ) (xs ys : List ℕ) → a < b → Precedes (a ∷ xs) (b ∷ ys)
  rest : (a : ℕ) {xs ys : List ℕ} → Precedes xs ys → Precedes (a ∷ xs) (a ∷ ys)

-- Any two lists are in order one way or the other, or equal.
trichotomy : (xs ys : List ℕ) → Precedes xs ys ⊎ (Precedes ys xs ⊎ (xs ≡ ys))
trichotomy [] [] = inr (inr refl)
trichotomy [] (y ∷ ys) = inl (prefix y ys)
trichotomy (x ∷ xs) [] = inr (inl (prefix x xs))
trichotomy (x ∷ xs) (y ∷ ys) = elim (dec_lt x y) [
  | yes below ↦ inl (byte x y xs ys below)
  | no not_below ↦ elim (dec_lt y x) [
    | yes above ↦ inr (inl (byte y x ys xs above))
    | no not_above ↦ same (omega arith) (trichotomy xs ys)
  ]
]
  where
    same :
        x ≡ y
        → Precedes xs ys ⊎ (Precedes ys xs ⊎ (xs ≡ ys))
        → Precedes (x ∷ xs) (y ∷ ys) ⊎ (Precedes (y ∷ ys) (x ∷ xs) ⊎ (x ∷ xs ≡ y ∷ ys))
    same e (inl h) = inl (rw e (rest y h))
    same e (inr (inl h)) = inr (inl (rw e (rest y h)))
    same e (inr (inr h)) = inr (inr (ap₂ ◌∷◌ e h))

-- The loop, after equally many equal bytes on both sides: `m` and `n` are the two lengths.
differ-below :
    {xs ys : List ℕ}
    → Precedes xs ys
    → (m n : ℕ) → m + length ys ≡ n + length xs
    → three_way (differ xs ys m n) ≡ negsuc 0
unfolding differ three_way
differ-below (prefix b bs) m n h = ground arith
differ-below (byte a b xs ys below) m n h = ground arith
differ-below (rest a r) m n h = ground (arith, differ-below r m n)

differ-above :
    {xs ys : List ℕ}
    → Precedes ys xs
    → (m n : ℕ) → m + length ys ≡ n + length xs
    → three_way (differ xs ys m n) ≡ pos 1
unfolding differ three_way
differ-above (prefix b bs) m n h = ground arith
differ-above (byte a b xs ys below) m n h = ground arith
differ-above (rest a r) m n h = ground (arith, differ-above r m n)

differ-same : (xs : List ℕ) (m : ℕ) → three_way (differ xs xs m m) ≡ pos 0
unfolding differ three_way
differ-same [] m = ground arith
differ-same (x ∷ xs) m = ground (arith, differ-same xs m)

compare_below : {a b : List ℕ} → Precedes a b → compare_buffers a b ≡ negsuc 0
unfolding compare_buffers
compare_below {a} {b} h = differ-below h (length a) (length b) (omega arith)

compare_above : {a b : List ℕ} → Precedes b a → compare_buffers a b ≡ pos 1
unfolding compare_buffers
compare_above {a} {b} h = differ-above h (length a) (length b) (omega arith)

compare_same : {a b : List ℕ} → a ≡ b → compare_buffers a b ≡ pos 0
unfolding compare_buffers
compare_same {a} {b} h = rw (← h) (differ-same a (length a))

-- `Buffer.compare` answers -1, 1 or 0 exactly when the first buffer is before the second, behind
-- it, or equal to it, in the lexicographic order of the bytes.
pub compare_buffers_iff :
    (a b : List ℕ)
    → ((compare_buffers a b ≡ negsuc 0) ↔ Precedes a b)
      × ((compare_buffers a b ≡ pos 1) ↔ Precedes b a)
      × ((compare_buffers a b ≡ pos 0) ↔ (a ≡ b))
compare_buffers_iff a b = elim (trichotomy a b) [
  | inl below ↦
      let r = compare_below below in
      ((λ _. below, λ h. r), (λ e. cc, compare_above), (λ e. cc, compare_same))
  | inr (inl above) ↦
      let r = compare_above above in
      ((λ e. cc, compare_below), (λ _. above, λ h. r), (λ e. cc, compare_same))
  | inr (inr same) ↦
      let r = compare_same same in
      ((λ e. cc, compare_below), (λ e. cc, compare_above), (λ _. same, λ h. r))
]

-- `equals` answers true exactly on equal bytes.
pub equals_iff : (a b : List ℕ) → (equals a b ≡ true) ↔ (a ≡ b)
unfolding equals
equals_iff a b = elim (trichotomy a b) [
  | inl below ↦
      (λ e. absurd (ground (arith, compare_below below)), λ h. ground (arith, compare_same h))
  | inr (inl above) ↦
      (λ e. absurd (ground (arith, compare_above above)), λ h. ground (arith, compare_same h))
  | inr (inr same) ↦ (λ _. same, λ h. ground (arith, compare_same h))
]
