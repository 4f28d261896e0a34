-- ===== src/Buffer/Search/Forward.antt =====
-- The forward search ends, and finds the first place where the value stands.
use winterjs.Common.{
  ℕ, zero, suc, ◌+◌, ◌-◌, ◌≤◌, ◌<◌, ◌≡◌, refl, sym, ap, ◌∙◌, ◌⊎◌, inl, inr, arith, true, false,
  ◌==◌, ltb, List, length, get_elem?, get_elem?-none, get_elem?-some, Option, none, some,
  Bool-cases, dec_lt,
}
use winterjs.Common.Int.{ℤ, pos, negsuc}
use winterjs.Buffer.Search.{same_elem, or_index, forward, enough, array_index_of}

-- The value stands in the array at an index.
abbrev pub Occurs : List ℕ → List ℕ → ℕ → Type 0
Occurs arr val i = (k : ℕ) → k < length val → get_elem? arr (i + k) ≡ get_elem? val k

-- The answer of a search from an index on: the first place, or -1.
pub data First (arr val : List ℕ) (start : ℕ) : ℤ → Type 0 where
  found :
      (i : ℕ)
      → start ≤ i
      → Occurs arr val i
      → ((k : ℕ) → start ≤ k → k < i → ¬ Occurs arr val k)
      → First arr val start (pos i)
  missing : ((k : ℕ) → start ≤ k → ¬ Occurs arr val k) → First arr val start (negsuc 0)

pub same_elem-eq : (a b : Option ℕ) → same_elem a b ≡ true → a ≡ b
same_elem-eq none none h = refl
same_elem-eq none (some b) h = absurd (cc h)
same_elem-eq (some a) none h = absurd (cc h)
same_elem-eq (some a) (some b) h = ap (λ x. some x) (ground arith)

pub same_elem_refl : (a : Option ℕ) → same_elem a a ≡ true
same_elem_refl none = refl
same_elem_refl (some a) = ground arith

module _ (arr val : List ℕ) where
  -- The first `d` bytes of the value stand at an index.
  abbrev Prefix : ℕ → ℕ → Type 0
  Prefix f d = (k : ℕ) → k < d → get_elem? arr (f + k) ≡ get_elem? val k

  abbrev state : ℕ → ℕ → Option ℕ
  state f zero = none
  state f (suc d) = some f

  or_index-state : (f d : ℕ) → or_index (f + d) (state f d) ≡ f
  or_index-state f zero = omega arith
  or_index-state f (suc d) = refl

  Prefix_suc : (f d : ℕ) → Prefix f d → get_elem? arr (f + d) ≡ get_elem? val d → Prefix f (suc d)
  Prefix_suc f d h e k lt = elim below_or_at [
    | inl below ↦ h k below
    | inr at ↦ ap (λ j. get_elem? arr (f + j)) at ∙ e ∙ ap (get_elem? val) (sym at)
  ]
    where
      below_or_at : (k < d) ⊎ (k ≡ d)
      below_or_at = omega arith

  -- No value stands where it would reach behind the end.
  pub too_late : (i : ℕ) → 0 < length val → length arr < i + length val → ¬ Occurs arr val i
  too_late i some_left h o = elim (dec_lt i (length arr)) [
    | yes inside ↦
        let k : ℕ = length arr - i in
        let there = get_elem?-some val k (omega arith) in
        absurd (cc (sym (get_elem?-none arr (i + k) (omega arith)) ∙ o k (omega arith) ∙ there.1))
    | no outside ↦
        let there = get_elem?-some val 0 some_left in
        absurd (cc (sym (get_elem?-none arr (i + 0) (omega arith)) ∙ o 0 some_left ∙ there.1))
  ]

  First-next : (f : ℕ) (z : ℤ) → ¬ Occurs arr val f → First arr val (suc f) z → First arr val f z
  First-next f z no_f (found i le o before) =
      found i (omega arith) o (λ k a b. split k a (λ c. before k c b))
    where
      split : (k : ℕ) → f ≤ k → (suc f ≤ k → ¬ Occurs arr val k) → ¬ Occurs arr val k
      split k a later = elim at_or_behind [ inl at ↦ rw (sym at) no_f | inr behind ↦ later behind ]
        where
          at_or_behind : (f ≡ k) ⊎ (suc f ≤ k)
          at_or_behind = omega arith
  First-next f z no_f (missing none_at) = missing (λ k a. split k a (λ c. none_at k c))
    where
      split : (k : ℕ) → f ≤ k → (suc f ≤ k → ¬ Occurs arr val k) → ¬ Occurs arr val k
      split k a later = elim at_or_behind [ inl at ↦ rw (sym at) no_f | inr behind ↦ later behind ]
        where
          at_or_behind : (f ≡ k) ⊎ (suc f ≤ k)
          at_or_behind = omega arith

  left_cases : (left : ℕ) → (left ≡ 0) ⊎ ((l : ℕ) × (left ≡ suc l))
  left_cases zero = inl refl
  left_cases (suc l) = inr (l, refl)

  shift : (f d : ℕ) → f + d + 1 ≡ f + suc d
  shift f d = omega arith

  next : (f : ℕ) → f + 1 ≡ suc f + 0
  next f = omega arith

  add_sub : (f d : ℕ) → f + d - f ≡ d
  add_sub f d = omega arith

  pub forward-First :
      (rounds left f d : ℕ)
      → f + left ≡ length arr
      → d < length val
      → Prefix f d
      → enough arr val left ≤ rounds + d
      → (z : ℤ) × (forward arr val rounds (f + d) (state f d) ≡ some z) × First arr val f z
  unfolding forward
  forward-First zero zero f d e lt h room = absurd (omega arith)
  forward-First zero (suc left) f d e lt h room = absurd (omega arith)
  forward-First (suc rounds) left f d e lt h room = elim (Bool-cases (ltb (f + d) (length arr))) [
    | inr out ↦ (
      negsuc 0,
      rw (out, forward) refl,
      missing (λ k a. too_late k (omega arith) (end k a (ground arith))),
    )
    | inl inside ↦ elim (Bool-cases (same_elem (get_elem? arr (f + d)) (get_elem? val d))) [
      | inl same ↦
          let more =
            Prefix_suc f d h (same_elem-eq (get_elem? arr (f + d)) (get_elem? val d) same) in
          elim (Bool-cases (d + 1 == length val)) [
            | inl whole ↦ (
              pos f,
              rw
                  (
                    inside,
                    or_index-state f d,
                    add_sub f d,
                    same,
                    or_index-state f d,
                    add_sub f d,
                    whole,
                    forward,
                  )
                  (ap (λ x. some (pos x)) (or_index-state f d)),
              found f (omega arith) (λ k a. more k (ground arith)) (λ k a b. absurd (omega arith)),
            )
            | inr part ↦
                let r = forward-First rounds left f (suc d) e (ground arith) more (omega arith) in
                (
                  r.0,
                  rw
                      (
                        inside,
                        or_index-state f d,
                        add_sub f d,
                        same,
                        or_index-state f d,
                        add_sub f d,
                        part,
                        forward,
                      )
                      (ap (λ x. forward arr val rounds (f + d + 1) (some x)) (or_index-state f d)
                        ∙ ap (λ i. forward arr val rounds i (some f)) (shift f d)
                        ∙ r.1),
                  r.2,
                )
          ]
      | inr other ↦ elim (left_cases left) [
        | inl none_left ↦ absurd (ground arith)
        | inr (l, es) ↦
            let room' : suc (length val) + enough arr val l ≤ suc rounds + d = rw es at room in
            let r =
              forward-First rounds l (suc f) 0 (omega (arith, es, e)) (omega arith)
                (λ k a. absurd (omega arith)) (omega arith) in
            (
              r.0,
              rw (inside, or_index-state f d, add_sub f d, other, forward)
                  (ap (λ x. forward arr val rounds (x + 1) none) (or_index-state f d)
                    ∙ ap (λ i. forward arr val rounds i none) (next f)
                    ∙ r.1),
              First-next f r.0 (λ o. differ o other) r.2,
            )
      ]
    ]
  ]
    where
      end : (k : ℕ) → f ≤ k → length arr ≤ f + d → length arr < k + length val
      end k a b = omega arith

      differ : Occurs arr val f → same_elem (get_elem? arr (f + d)) (get_elem? val d) ≡ false → ⊥
      differ o other = cc (
          sym (same_elem_refl (get_elem? val d))
          ∙ ap (λ x. same_elem x (get_elem? val d)) (sym (o d lt))
          ∙ other)

  -- From a start inside the array the search for a value that is not empty ends, with the first
  -- place at or behind the start where the value stands, or with -1 where there is none.
  pub array_index_of-First :
      (start : ℕ)
      → 0 < length val
      → start ≤ length arr
      → (z : ℤ) × (array_index_of arr val start true ≡ some z) × First arr val start z
  unfolding array_index_of
  array_index_of-First start h inside =
      let r =
        forward-First (enough arr val (length arr - start)) (length arr - start) start 0
          (omega arith) h (λ k a. absurd (omega arith)) (omega arith) in
      (
        r.0,
        ap (λ i. forward arr val (enough arr val (length arr - start)) i none) (plus_zero start)
            ∙ r.1,
        r.2,
      )
    where
      plus_zero : (n : ℕ) → n ≡ n + 0
      plus_zero n = omega arith
