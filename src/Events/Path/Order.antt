-- ===== src/Events/Path/Order.antt =====
-- `composedPath` keeps the order of the path and the target, in a path of any trees.
use winterjs.Common.{
  ℕ, zero, suc, ◌≤◌, ◌≡◌, refl, sym, ap, ◌∙◌, ◌⊎◌, inl, inr, arith, Bool, true, false,
  if◌then◌else◌, List, [], ◌∷◌, ◌++◌, append-nil, append_assoc, take, drop, length, get_elem?,
  get_elem?-some, some,
}
use winterjs.Common.Int.{ℤ, pos}
use winterjs.Js.{ok}
use winterjs.Events.{PathItem, Event}
use winterjs.Events.Path.{
  locate, Walk, start_walk, leave_tree, climb_item, climb, descend_item, descend, walk_path,
  compose, composed_path,
}
use winterjs.Events.Path.Laws.{
  items, Stands, locate-Stands, take_snoc, climb-some, items-split, Stands-lt,
}

-- Items in order, some of them left out.
pub data Subsequence : List ℕ → List ℕ → Type 0 where
  done : Subsequence [] []
  keep : (x : ℕ) {xs ys : List ℕ} → Subsequence xs ys → Subsequence (x ∷ xs) (x ∷ ys)
  skip : (y : ℕ) {xs ys : List ℕ} → Subsequence xs ys → Subsequence xs (y ∷ ys)

Subsequence-append :
    {xs ys us vs : List ℕ}
    → Subsequence xs ys
    → Subsequence us vs
    → Subsequence (xs ++ us) (ys ++ vs)
Subsequence-append done s = s
Subsequence-append (keep x r) s = keep x (Subsequence-append r s)
Subsequence-append (skip y r) s = skip y (Subsequence-append r s)

Subsequence-self : (xs : List ℕ) → Subsequence xs xs
Subsequence-self [] = done
Subsequence-self (x ∷ xs) = keep x (Subsequence-self xs)

-- What the second loop puts in front and the third behind, in a path of any trees.
leave_tree-out : (flag : Bool) (w : Walk) → (leave_tree flag w).out ≡ w.out
unfolding leave_tree
leave_tree-out true w = refl
leave_tree-out false w = refl

either : (b : Bool) (xs ys : List ℕ) → ((if b then xs else ys) ≡ ys) ⊎ ((if b then xs else ys) ≡ xs)
either true xs ys = inr refl
either false xs ys = inl refl

climb_item-out :
    (p : PathItem) (w : Walk)
    → ((climb_item p w).out ≡ w.out) ⊎ ((climb_item p w).out ≡ p.item ∷ w.out)
unfolding climb_item
climb_item-out p w = rw (leave_tree-out p.slot_in_closed_tree) (either _ (p.item ∷ w.out) w.out)

descend_item-out :
    (p : PathItem) (w : Walk)
    → ((descend_item p w).out ≡ w.out) ⊎ ((descend_item p w).out ≡ w.out ++ p.item ∷ [])
unfolding descend_item
descend_item-out p w =
    rw (leave_tree-out p.root_of_closed_tree) (either _ (w.out ++ p.item ∷ []) w.out)

-- In a path of any trees the second loop puts some of the items before the target in front, in
-- order, and the third some of those behind it at the end.
climb-Subsequence :
    (path : List PathItem) (i : ℕ) (w : Walk)
    → i ≤ length path
    → (xs : List ℕ) × ((climb path i w).out ≡ xs ++ w.out) × Subsequence xs (items (take i path))
climb-Subsequence path zero w h = unfold climb in ([], refl, done)
climb-Subsequence path (suc i) w h =
    step (get_elem?-some path i (omega arith)) (λ v. climb-Subsequence path i v (omega arith))
  where
    step :
        (p : PathItem) × (get_elem? path i ≡ some p)
        → ((v : Walk)
            → (xs : List ℕ) × ((climb path i v).out ≡ xs ++ v.out)
              × Subsequence xs (items (take i path)))
        → (xs : List ℕ) × ((climb path (suc i) w).out ≡ xs ++ w.out)
          × Subsequence xs (items (take (suc i) path))
    step (p, e) ih =
        let r = ih (climb_item p w) in
        rw (climb-some path i w p e, take_snoc path i p e)
          (elim (climb_item-out p w) [
            | inl left ↦ (
              r.0,
              r.1 ∙ ap (r.0 ++◌) left,
              rw (append-nil r.0) at (Subsequence-append r.2 (skip p.item done)),
            )
            | inr put ↦ (
              r.0 ++ p.item ∷ [],
              r.1 ∙ ap (r.0 ++◌) put ∙ sym (append_assoc r.0 (p.item ∷ []) w.out),
              Subsequence-append r.2 (keep p.item done),
            )
          ])

descend-Subsequence :
    (path : List PathItem) (w : Walk)
    → (xs : List ℕ) × ((descend path w).out ≡ w.out ++ xs) × Subsequence xs (items path)
unfolding descend
descend-Subsequence [] w = ([], sym (append-nil w.out), done)
descend-Subsequence (p ∷ path) w =
    let r = descend-Subsequence path (descend_item p w) in
    elim (descend_item-out p w) [
      | inl left ↦ (r.0, r.1 ∙ ap (λ us. us ++ r.0) left, skip p.item r.2)
      | inr put ↦ (
        p.item ∷ r.0,
        r.1 ∙ ap (λ us. us ++ r.0) put ∙ append_assoc w.out (p.item ∷ []) r.0,
        keep p.item r.2,
      )
    ]

-- With the target in the path, whatever the trees: the walk has the target in it, and it is the items
-- of the path in order with some left out.
pub walk_path-Subsequence :
    (path : List PathItem) (target j : ℕ)
    → Stands path target j
    → (xs ys : List ℕ) × (walk_path path target ≡ xs ++ target ∷ ys)
      × Subsequence (xs ++ target ∷ ys) (items path)
unfolding walk_path
walk_path-Subsequence path target j s =
    parts (locate path target (length path) (pos 0)) (
      locate-Stands path target (length path) (pos 0) j (Stands-lt path target j s) (omega arith) s)
  where
    parts :
        (found : ℕ × ℤ)
        → Stands path target found.0
        → (xs ys : List ℕ) × ((descend
              (drop (suc found.0) path)
              (start_walk (climb path found.0 (start_walk (target ∷ []) found.1)).out found.1)).out
            ≡ xs ++ target ∷ ys)
          × Subsequence (xs ++ target ∷ ys) (items path)
    parts (i, level) at =
        let up =
          climb-Subsequence path i (start_walk (target ∷ []) level)
            (omega (arith, Stands-lt path target i at)) in
        let down =
          descend-Subsequence (drop (suc i) path)
            (start_walk (climb path i (start_walk (target ∷ []) level)).out level) in
        (
          up.0,
          down.0,
          down.1 ∙ ap (λ us. us ++ down.0) up.1 ∙ append_assoc up.0 (target ∷ []) down.0,
          rw (← items-split path i target at) (Subsequence-append up.2 (keep target down.2)),
        )

compose-Subsequence :
    (path : List PathItem) (target j : ℕ)
    → Stands path target j
    → (xs ys : List ℕ) × (compose path (some target) ≡ ok (xs ++ target ∷ ys))
      × Subsequence (xs ++ target ∷ ys) (items path)
unfolding compose
compose-Subsequence [] target j s = absurd (cc s.1)
compose-Subsequence (q ∷ path) target j s =
    let r = walk_path-Subsequence (q ∷ path) target j s in (r.0, r.1, ap ok r.2, r.3)

-- With the target in the path, whatever the trees, `composedPath` has the target in it and is items
-- of the path in order, some of them left out.
pub composed_path-Subsequence :
    (e : Event) (target j : ℕ)
    → e.current_target ≡ some target
    → Stands e.path target j
    → (xs ys : List ℕ) × (composed_path e ≡ ok (xs ++ target ∷ ys))
      × Subsequence (xs ++ target ∷ ys) (items e.path)
unfolding composed_path
composed_path-Subsequence e target j ht s = rw ht (compose-Subsequence e.path target j s)
