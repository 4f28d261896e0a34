-- ===== src/Events/Path.antt =====
-- event.js: `composedPath`. The hidden levels go below 0 where a slot has no root before it.
pub mod Laws
pub mod Order
use winterjs.Common.{
  ℕ, zero, suc, ◌+◌, Bool, true, false, ◌==◌, if◌then◌else◌, List, [], ◌∷◌, ◌++◌, map, drop, length,
  get_elem?, Option, none, some,
}
use winterjs.Common.Int.{ℤ, pos, ◌+ℤ◌, ◌-ℤ◌, leb_ℤ, ltb_ℤ}
use winterjs.Js.{Result, ok, err, no_current_target}
use winterjs.Events.{PathItem, Event}

-- `if (flag) level++` and `if (flag) level--`
abbrev pub raise_if : Bool → ℤ → ℤ
raise_if flag level = if flag then level +ℤ pos 1 else level

abbrev pub lower_if : Bool → ℤ → ℤ
lower_if flag level = if flag then level -ℤ pos 1 else level

-- The first loop, downwards: the indices left, and `currentTargetHiddenSubtreeLevel`. It returns
-- `currentTargetIndex`, which stays 0 where no item is the current target, and the level.
unfoldable pub locate : List PathItem → ℕ → ℕ → ℤ → ℕ × ℤ
locate path target zero level = (0, level)
locate path target (suc i) level = elim (get_elem? path i) [
  | none ↦ (0, level)
  | some p ↦
      let level1 = raise_if p.root_of_closed_tree level in
      let rest = locate path target i (lower_if p.slot_in_closed_tree level1) in
      if p.item == target then (i, level1) else rest
]

-- The variables of the other two loops: `composedPath`, `currentHiddenLevel`, `maxHiddenLevel`.
pub record Walk : Type 0 where
  pub out : List ℕ
  pub current : ℤ
  pub greatest : ℤ

-- `if (flag) { currentHiddenLevel--; if (currentHiddenLevel < maxHiddenLevel) … }`
unfoldable pub leave_tree : Bool → Walk → Walk
leave_tree flag w =
    let current = w.current -ℤ pos 1 in
    if flag
    then record w {
      current = current;
      greatest = (if ltb_ℤ current w.greatest then current else w.greatest);
    }
    else w

-- A round of the second loop, which prepends, and the loop: the indices left.
unfoldable pub climb_item : PathItem → Walk → Walk
climb_item p w =
    let current = raise_if p.root_of_closed_tree w.current in
    leave_tree p.slot_in_closed_tree (record w {
      current = current;
      out = (if leb_ℤ current w.greatest then p.item ∷ w.out else w.out);
    })

unfoldable pub climb : List PathItem → ℕ → Walk → Walk
climb path zero w = w
climb path (suc i) w = elim (get_elem? path i) [ none ↦ w | some p ↦ climb path i (climb_item p w) ]

-- A round of the third loop, which appends, and the loop: the items left.
unfoldable pub descend_item : PathItem → Walk → Walk
descend_item p w =
    let current = raise_if p.slot_in_closed_tree w.current in
    leave_tree p.root_of_closed_tree (record w {
      current = current;
      out = (if leb_ℤ current w.greatest then w.out ++ p.item ∷ [] else w.out);
    })

unfoldable pub descend : List PathItem → Walk → Walk
descend [] w = w
descend (p ∷ items) w = descend items (descend_item p w)

-- The levels are set back between the loops.
abbrev pub start_walk : List ℕ → ℤ → Walk
start_walk out level = record { out = out; current = level; greatest = level }

unfoldable pub walk_path : List PathItem → ℕ → List ℕ
unfolding locate climb descend
walk_path path target =
    let found = locate path target (length path) (pos 0) in
    let climbed = climb path found.0 (start_walk (target ∷ []) found.1) in
    (descend (drop (suc found.0) path) (start_walk climbed.out found.1)).out

-- `composedPath` on `path` and `currentTarget`.
unfoldable pub compose : List PathItem → Option ℕ → Result (List ℕ)
unfolding walk_path
compose [] current_target = ok []
compose (p ∷ path) none = err no_current_target
compose (p ∷ path) (some target) = ok (walk_path (p ∷ path) target)

-- `composedPath`
unfoldable pub composed_path : Event → Result (List ℕ)
unfolding compose
composed_path e = compose e.path e.current_target
