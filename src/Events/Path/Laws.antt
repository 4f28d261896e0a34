-- ===== src/Events/Path/Laws.antt =====
-- What `composedPath` answers.
use winterjs.Common.{
  ℕ, zero, suc, ◌<◌, ◌≤◌, ◌≡◌, refl, sym, ap, ◌∙◌, ◌⊎◌, inl, inr, arith, false, ◌==◌, if◌then◌else◌,
  List, [], ◌∷◌, ◌++◌, append-nil, append_assoc, map, take, drop, length, get_elem?, get_elem?-some,
  All, All-drop, some, Bool-cases,
}
use winterjs.Common.Int.{ℤ, pos}
use winterjs.Js.{ok}
use winterjs.Events.{PathItem, Event}
use winterjs.Events.Path.{
  raise_if, lower_if, locate, Walk, start_walk, leave_tree, climb_item, climb, descend_item,
  descend, compose, composed_path,
}

-- The items of a path.
abbrev pub items : List PathItem → List ℕ
items = map (λ p. p.item)

-- An index at which the target stands.
abbrev pub Stands : List PathItem → ℕ → ℕ → Type 0
Stands path target i = (p : PathItem) × (get_elem? path i ≡ some p) × (p.item ≡ target)

locate-some :
    (path : List PathItem) (target n : ℕ) (level : ℤ) (p : PathItem)
    → get_elem? path n ≡ some p
    → locate path target (suc n) level ≡ (
        if p.item == target
        then (n, raise_if p.root_of_closed_tree level)
        else locate path target n
            (lower_if p.slot_in_closed_tree (raise_if p.root_of_closed_tree level)))
unfolding locate
locate-some path target n level p e = rw (e, locate)

before :
    (path : List PathItem) (target j n : ℕ)
    → Stands path target j
    → (p : PathItem) → get_elem? path n ≡ some p
    → j < suc n
    → (p.item == target) ≡ false
    → j < n
before path target j n (q, eq, hq) p ep h other = elim below_or_at [
  | inl below ↦ below
  | inr at ↦ absurd (ground (arith, same at))
]
  where
    below_or_at : (j < n) ⊎ (j ≡ n)
    below_or_at = omega arith

    same : j ≡ n → q ≡ p
    same at = let e = rw at at (eq) in cc (e)

-- The first loop finds a place of a target that stands in the path.
pub locate-Stands :
    (path : List PathItem) (target n : ℕ) (level : ℤ) (j : ℕ)
    → j < n
    → n ≤ length path
    → Stands path target j
    → Stands path target (locate path target n level).0
locate-Stands path target zero level j h k s = absurd (omega arith)
locate-Stands path target (suc n) level j h k s =
    step (get_elem?-some path n (omega arith))
      (λ z hj. locate-Stands path target n z j hj (omega arith) s)
  where
    step :
        (p : PathItem) × (get_elem? path n ≡ some p)
        → ((z : ℤ) → j < n → Stands path target (locate path target n z).0)
        → Stands path target (locate path target (suc n) level).0
    step (p, e) ih = elim (Bool-cases (p.item == target)) [
      | inl same ↦ rw (locate-some path target n level p e, same) (p, e, ground arith)
      | inr other ↦
          rw (locate-some path target n level p e, other)
            (ih _ (before path target j n s p e h other))
    ]

-- Without a closed tree the level stays as it is.
abbrev pub IsOpen : PathItem → Type 0
IsOpen p = (p.root_of_closed_tree ≡ false) × (p.slot_in_closed_tree ≡ false)

All-get_elem? :
    (path : List PathItem) (i : ℕ) (p : PathItem)
    → All IsOpen path
    → get_elem? path i ≡ some p
    → IsOpen p
All-get_elem? [] i p h e = absurd (cc e)
All-get_elem? (q ∷ path) zero p h e = let s : q ≡ p = cc in rw s at (h.0)
All-get_elem? (q ∷ path) (suc i) p h e = All-get_elem? path i p h.1 e

pub take_snoc :
    (path : List PathItem) (i : ℕ) (p : PathItem)
    → get_elem? path i ≡ some p
    → items (take (suc i) path) ≡ items (take i path) ++ p.item ∷ []
take_snoc [] i p e = absurd (cc e)
take_snoc (q ∷ path) zero p e = let s : q ≡ p = cc in rw s
take_snoc (q ∷ path) (suc i) p e = ap (q.item ∷◌) (take_snoc path i p e)

climb_item-IsOpen :
    (p : PathItem) (out : List ℕ) (level : ℤ)
    → IsOpen p
    → climb_item p (start_walk out level) ≡ start_walk (p.item ∷ out) level
unfolding climb_item leave_tree
climb_item-IsOpen p out level h = ground arith

descend_item-IsOpen :
    (p : PathItem) (out : List ℕ) (level : ℤ)
    → IsOpen p
    → descend_item p (start_walk out level) ≡ start_walk (out ++ p.item ∷ []) level
unfolding descend_item leave_tree
descend_item-IsOpen p out level h = ground arith

pub climb-some :
    (path : List PathItem) (i : ℕ) (w : Walk) (p : PathItem)
    → get_elem? path i ≡ some p
    → climb path (suc i) w ≡ climb path i (climb_item p w)
unfolding climb
climb-some path i w p e = rw (e, climb)

-- The loops on an open path.
climb-IsOpen :
    (path : List PathItem) (i : ℕ) (out : List ℕ) (level : ℤ)
    → i ≤ length path
    → All IsOpen path
    → climb path i (start_walk out level) ≡ start_walk (items (take i path) ++ out) level
climb-IsOpen path zero out level h k = unfold climb in refl
climb-IsOpen path (suc i) out level h k =
    step (get_elem?-some path i (omega arith)) (λ us. climb-IsOpen path i us level (omega arith) k)
  where
    step :
        (p : PathItem) × (get_elem? path i ≡ some p)
        → ((us : List ℕ)
            → climb path i (start_walk us level) ≡ start_walk (items (take i path) ++ us) level)
        → climb path (suc i) (start_walk out level)
          ≡ start_walk (items (take (suc i) path) ++ out) level
    step (p, e) ih =
        rw
          (
            climb-some path i (start_walk out level) p e,
            climb_item-IsOpen p out level (All-get_elem? path i p k e),
            take_snoc path i p e,
            append_assoc,
          )
          (ih (p.item ∷ out))

descend-IsOpen :
    (path : List PathItem) (out : List ℕ) (level : ℤ)
    → All IsOpen path
    → descend path (start_walk out level) ≡ start_walk (out ++ items path) level
unfolding descend
descend-IsOpen [] out level h = ap (λ us. start_walk us level) (sym (append-nil out))
descend-IsOpen (p ∷ path) out level (hp, h) = rw (descend_item-IsOpen p out level hp) (
    descend-IsOpen path (out ++ p.item ∷ []) level h
    ∙ ap (λ us. start_walk us level) (append_assoc out (p.item ∷ []) (items path)))

-- Where the target stands, it splits the items.
pub items-split :
    (path : List PathItem) (i target : ℕ)
    → Stands path target i
    → items (take i path) ++ target ∷ items (drop (suc i) path) ≡ items path
items-split [] i target (p, e, h) = absurd (cc e)
items-split (q ∷ path) zero target (p, e, h) = let s : q ≡ p = cc in rw (s, h)
items-split (q ∷ path) (suc i) target s = ap (q.item ∷◌) (items-split path i target s)

pub Stands-lt : (path : List PathItem) (target i : ℕ) → Stands path target i → i < length path
Stands-lt [] target i (p, e, h) = absurd (cc e)
Stands-lt (q ∷ path) target zero s = omega arith
Stands-lt (q ∷ path) target (suc i) s = omega (arith, Stands-lt path target i s)

walk_path-items :
    (path : List PathItem) (target : ℕ) (found : ℕ × ℤ)
    → Stands path target found.0
    → All IsOpen path
    → (descend
        (drop (suc found.0) path)
        (start_walk (climb path found.0 (start_walk (target ∷ []) found.1)).out found.1)).out
      ≡ items path
walk_path-items path target (i, level) s h =
    rw
      (
        climb-IsOpen path i (target ∷ []) level (omega (arith, Stands-lt path target i s)) h,
        descend-IsOpen (drop (suc i) path) (items (take i path) ++ target ∷ []) level
            (All-drop IsOpen (suc i) path h),
        append_assoc,
      )
      (items-split path i target s)

compose-items :
    (path : List PathItem) (target j : ℕ)
    → Stands path target j
    → All IsOpen path
    → compose path (some target) ≡ ok (items path)
unfolding compose
compose-items [] target j s h = refl
compose-items (q ∷ path) target j s h = ap ok (
    walk_path-items (q ∷ path) target (locate (q ∷ path) target (length (q ∷ path)) (pos 0))
      (locate-Stands (q ∷ path) target (length (q ∷ path)) (pos 0) j
        (Stands-lt (q ∷ path) target j s) (omega arith) s)
      h)

-- With the target in the path and no closed tree, `composedPath` is all items of the path in order.
pub composed_path-items :
    (e : Event) (target j : ℕ)
    → e.current_target ≡ some target
    → Stands e.path target j
    → All IsOpen e.path
    → composed_path e ≡ ok (items e.path)
unfolding composed_path
composed_path-items e target j ht s h = rw ht (compose-items e.path target j s h)
