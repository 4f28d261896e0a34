-- ===== src/Buffer/Search/Backward.antt =====
-- The backward search finds the last place where the value stands.
use winterjs.Common.{
  ℕ, zero, suc, ◌+◌, ◌-◌, ◌≤◌, ◌<◌, ◌≡◌, refl, ap, ◌∙◌, inl, inr, arith, true, false, ltb, List, [],
  ◌∷◌, length, get_elem?, some, Bool-cases, dec_lt,
}
use mathlib.Core.Path.{subst}
use winterjs.Common.Int.{ℤ, pos, negsuc}
use winterjs.Buffer.Search.{same_elem, match_from, backward, array_index_of}
use winterjs.Buffer.Search.Forward.{Occurs, same_elem-eq, same_elem_refl, too_late}

-- The answer of a search downwards from an index: the last place, or -1.
pub data Last (arr val : List ℕ) (start : ℕ) : ℤ → Type 0 where
  found :
      (i : ℕ)
      → i ≤ start
      → Occurs arr val i
      → ((k : ℕ) → i < k → k ≤ start → ¬ Occurs arr val k)
      → Last arr val start (pos i)
  missing : ((k : ℕ) → k ≤ start → ¬ Occurs arr val k) → Last arr val start (negsuc 0)

Occurs-cons :
    (arr bs : List ℕ) (b i : ℕ)
    → get_elem? arr i ≡ some b
    → Occurs arr bs (i + 1)
    → Occurs arr (b ∷ bs) i
Occurs-cons arr bs b i e o zero h = ap (get_elem? arr) (omega arith) ∙ e
Occurs-cons arr bs b i e o (suc k) h = ap (get_elem? arr) (omega arith) ∙ o k (omega arith)

Occurs-tail : (arr bs : List ℕ) (b i : ℕ) → Occurs arr (b ∷ bs) i → Occurs arr bs (i + 1)
Occurs-tail arr bs b i o k h = ap (get_elem? arr) (omega arith) ∙ o (suc k) (omega arith)

Occurs-head : (arr bs : List ℕ) (b i : ℕ) → Occurs arr (b ∷ bs) i → get_elem? arr i ≡ some b
Occurs-head arr bs b i o = ap (get_elem? arr) (omega arith) ∙ o 0 (omega arith)

match_from-Occurs : (arr bs : List ℕ) (i : ℕ) → match_from arr i bs ≡ true → Occurs arr bs i
unfolding match_from
match_from-Occurs arr [] i h = λ k lt. absurd (omega arith)
match_from-Occurs arr (b ∷ bs) i h = elim (Bool-cases (same_elem (get_elem? arr i) (some b))) [
  | inl same ↦
      Occurs-cons arr bs b i (same_elem-eq (get_elem? arr i) (some b) same)
        (match_from-Occurs arr bs (i + 1) (rw same at h))
  | inr other ↦ absurd (cc (rw other at h))
]

match_from_not : (arr bs : List ℕ) (i : ℕ) → match_from arr i bs ≡ false → ¬ Occurs arr bs i
unfolding match_from
match_from_not arr [] i h o = cc h
match_from_not arr (b ∷ bs) i h o =
    let same : same_elem (get_elem? arr i) (some b) ≡ true =
      ap (λ x. same_elem x (some b)) (Occurs-head arr bs b i o) ∙ same_elem_refl (some b) in
    match_from_not arr bs (i + 1) (rw same at h) (Occurs-tail arr bs b i o)

-- A search that starts above, where the value does not stand in between.
Last-lower :
    (arr val : List ℕ) (start lower : ℕ) (z : ℤ)
    → lower ≤ start
    → ((k : ℕ) → lower < k → k ≤ start → ¬ Occurs arr val k)
    → Last arr val lower z
    → Last arr val start z
Last-lower arr val start lower z le above (found i inside o after) =
    found i (omega arith) o (λ k a b. split k b (λ c. after k a c))
  where
    split : (k : ℕ) → k ≤ start → (k ≤ lower → ¬ Occurs arr val k) → ¬ Occurs arr val k
    split k b below = elim (dec_lt lower k) [
      | yes higher ↦ above k higher b
      | no not_higher ↦ below (omega arith)
    ]
Last-lower arr val start lower z le above (missing none_at) =
    missing (λ k b. split k b (λ c. none_at k c))
  where
    split : (k : ℕ) → k ≤ start → (k ≤ lower → ¬ Occurs arr val k) → ¬ Occurs arr val k
    split k b below = elim (dec_lt lower k) [
      | yes higher ↦ above k higher b
      | no not_higher ↦ below (omega arith)
    ]

only_suc :
    (arr val : List ℕ) (i k : ℕ) → i < k → k ≤ suc i → ¬ Occurs arr val (suc i) → ¬ Occurs arr val k
only_suc arr val i k a b no_i =
    let e : suc i ≡ k = omega arith in subst (λ j. ¬ Occurs arr val j) e no_i

-- All starts from an index downwards.
backward-Last : (arr val : List ℕ) (i : ℕ) → Last arr val i (backward arr val i)
unfolding backward
backward-Last arr val zero = elim (Bool-cases (match_from arr 0 val)) [
  | inl there ↦
      rw there
        (found 0 (omega arith) (match_from-Occurs arr val 0 there) (λ k a b. absurd (omega arith)))
  | inr gone ↦ rw gone (missing (λ k b. at_zero k b (match_from_not arr val 0 gone)))
]
  where
    at_zero : (k : ℕ) → k ≤ 0 → ¬ Occurs arr val 0 → ¬ Occurs arr val k
    at_zero k b no_zero = let e : 0 ≡ k = omega arith in subst (λ j. ¬ Occurs arr val j) e no_zero
backward-Last arr val (suc i) = elim (Bool-cases (match_from arr (suc i) val)) [
  | inl there ↦ rw there (
      found (suc i) (omega arith) (match_from-Occurs arr val (suc i) there)
        (λ k a b. absurd (omega arith)))
  | inr gone ↦ rw gone (
      Last-lower arr val (suc i) i (backward arr val i) (omega arith)
        (λ k a b. only_suc arr val i k a b (match_from_not arr val (suc i) gone))
        (backward-Last arr val i))
]

-- The backward search for a value that is not empty gives the last place at or before the start where
-- the value stands, or -1 where there is none.
pub array_index_of-Last :
    (arr val : List ℕ) (start : ℕ)
    → 0 < length val
    → (z : ℤ) × (array_index_of arr val start false ≡ some z) × Last arr val start z
unfolding array_index_of
array_index_of-Last arr val start h = elim (Bool-cases (ltb (length arr) (length val))) [
  | inl longer ↦ (negsuc 0, rw longer refl, missing (λ k b. too_late arr val k h (ground arith)))
  | inr fits ↦ elim (Bool-cases (ltb (length arr) (start + length val))) [
    | inl over ↦ (
      backward arr val (length arr - length val),
      rw (fits, over) refl,
      Last-lower arr val start (length arr - length val) _ (ground arith)
          (λ k a b. too_late arr val k h (ground arith))
          (backward-Last arr val (length arr - length val)),
    )
    | inr inside ↦ (backward arr val start, rw (fits, inside) refl, backward-Last arr val start)
  ]
]
