-- ===== src/Events/Target/Dispatch.antt =====
-- `dispatchEvent`: which callbacks run, in which order, and what they keep.
use winterjs.Common.{
  ℕ, zero, suc, ◌+◌, ◌≡◌, refl, sym, ap, ◌∙◌, inl, inr, arith, true, false, ◌||◌, not, ◌==◌, List,
  [], ◌∷◌, length, get_elem?, get_elem?_front, length_snoc, ◌++◌, append-nil, append_assoc, none,
  some, Bool-cases, Option-cases,
}
use winterjs.Js.{Error, err, property_of_null, invalid_event_state}
use winterjs.Js.Action.{Action, pure, ◌>>◌, >>-Keeps, >>-cong}
use winterjs.Events.{Event, none_phase}
use winterjs.Events.Target.{
  Listener, find, list_or_empty, World, for_each, dispatch, dispatch_event,
}

-- Each callback of a list once, in its order, up to the first that throws.
pub run_all :
    {O : Type 0} → (ℕ → Action (World O) (Unit {0})) → List Listener → Action (World O) (Unit {0})
run_all run [] = pure tt
run_all run (l ∷ list) = run l.callback >> run_all run list

-- The listeners that a round finds.
abbrev pub listed : {O : Type 0} → ℕ → World O → List Listener
listed type w = list_or_empty (find type w.target.listeners)

-- An event that may be dispatched.
abbrev pub IsReady : Event → Type 0
IsReady e = (e.dispatch_flag ≡ false) × (e.initialized_flag ≡ true) × (e.event_phase ≡ none_phase)

module _ {O : Type 0} (run : ℕ → Action (World O) (Unit {0})) where
  for_each-Keeps :
      (P : World O → Type 0) (type rounds k : ℕ) (w : World O)
      → ((callback : ℕ) (u : World O) → P u → P ((run callback u).1))
      → P w
      → P ((for_each run type rounds k w).1)
  unfolding for_each
  for_each-Keeps P type zero k w keeps h = h
  for_each-Keeps P type (suc rounds) k w keeps h =
      elim (Option-cases (get_elem? (listed type w) k)) [
        | inl gone ↦ rw (gone, for_each) (for_each-Keeps P type rounds (k + 1) w keeps h)
        | inr (l, there) ↦
            rw (there, for_each)
              (>>-Keeps P (run l.callback) (λ _. for_each run type rounds (k + 1)) w
                (keeps l.callback w h) (λ _ u. for_each-Keeps P type rounds (k + 1) u keeps))
      ]

  -- The callbacks only add listeners to the end of the type's list.
  abbrev pub Extends : ℕ → Type 0
  Extends type =
      (callback : ℕ) (u : World O)
      → (more : List Listener) × (listed type ((run callback u).1) ≡ listed type u ++ more)

  for_each-run_all :
      (type : ℕ) (front list back : List Listener) (w : World O)
      → Extends type
      → listed type w ≡ front ++ (list ++ back)
      → for_each run type (length list) (length front) w ≡ run_all run list w
  unfolding for_each run_all
  for_each-run_all type front [] back w h e = refl
  for_each-run_all type front (l ∷ list) back w h e =
      let grown = h l.callback w in
      let next =
        for_each-run_all type (front ++ l ∷ []) list (back ++ grown.0) ((run l.callback w).1) h
          (grown.1 ∙ ap (◌++ grown.0) e ∙ shift front l list back grown.0) in
      let got = ap (λ ls. get_elem? ls (length front)) e ∙ get_elem?_front front (list ++ back) l in
      rw (got, for_each)
        (>>-cong (run l.callback) (λ _. for_each run type (length list) (length front + 1))
          (λ _. run_all run list) w
          (λ _.
            ap (λ n. for_each run type (length list) n ((run l.callback w).1))
              (grow (length_snoc front l))
            ∙ next))
    where
      grow : {n : ℕ} → n ≡ suc (length front) → length front + 1 ≡ n
      grow e = omega arith

      shift :
          (xs : List Listener) (x : Listener) (ys zs more : List Listener)
          → (xs ++ x ∷ (ys ++ zs)) ++ more ≡ (xs ++ x ∷ []) ++ (ys ++ (zs ++ more))
      shift [] x ys zs more = ap (x ∷◌) (append_assoc ys zs more)
      shift (y ∷ xs) x ys zs more = ap (y ∷◌) (shift xs x ys zs more)

  dispatch_event-dispatch : (w : World O) → IsReady w.event → dispatch_event run w ≡ dispatch run w
  unfolding dispatch_event
  dispatch_event-dispatch w (d, i, p) = rw (d, i, p) refl

  -- For a ready event whose type has a list, and callbacks that only add listeners to the end of that
  -- list: the listeners that are there run in order, each once, up to the first that throws, and those
  -- that are added meanwhile do not run.
  pub dispatch_event-run_all :
      (w : World O) (list : List Listener)
      → IsReady w.event
      → Extends w.event.type
      → find w.event.type w.target.listeners ≡ some list
      → dispatch_event run w ≡ (run_all run list >> pure true) w
  unfolding dispatch
  dispatch_event-run_all w list ready h e =
      dispatch_event-dispatch w ready
      ∙ rw (e, dispatch)
          (ap (λ r. ((λ _. r) >> pure true) w)
            (for_each-run_all w.event.type [] list [] w h
              (ap list_or_empty e ∙ sym (append-nil list))))

  -- What every callback keeps, also where it throws, a dispatch keeps, also where it throws.
  pub dispatch_event-Keeps :
      (P : World O → Type 0) (w : World O)
      → ((callback : ℕ) (u : World O) → P u → P ((run callback u).1))
      → P w
      → P ((dispatch_event run w).1)
  unfolding dispatch_event dispatch
  dispatch_event-Keeps P w keeps h =
      elim (Bool-cases (w.event.dispatch_flag || not w.event.initialized_flag)) [
        | inl bad ↦ rw bad h
        | inr good ↦ rw good (elim (Bool-cases (w.event.event_phase == none_phase)) [
          | inr bad ↦ rw bad h
          | inl good ↦ rw good (elim (Option-cases (find w.event.type w.target.listeners)) [
            | inl missing ↦ rw (missing, dispatch) h
            | inr (list, there) ↦
                rw (there, dispatch)
                  (>>-Keeps P (for_each run w.event.type (length list) 0) (λ _. pure true) w
                    (for_each-Keeps P w.event.type (length list) 0 w keeps h) (λ _ u hu. hu))
          ])
        ])
      ]

  -- The conditions under which nothing is dispatched, with the error of each.
  pub data Refuses (w : World O) : Error → Type 0 where
    in_dispatch : w.event.dispatch_flag ≡ true → Refuses w invalid_event_state
    not_initialized : w.event.initialized_flag ≡ false → Refuses w invalid_event_state
    in_phase : w.event.event_phase == none_phase ≡ false → Refuses w invalid_event_state
    no_list :
        IsReady w.event → find w.event.type w.target.listeners ≡ none → Refuses w property_of_null

  -- `dispatchEvent` throws an invalid state for an event that is being dispatched, that is not
  -- initialized or that is in a phase, and a type error for a type that never had a listener; no
  -- callback runs then, and nothing changes.
  pub dispatch_event-Refuses :
      (w : World O) (error : Error) → Refuses w error → dispatch_event run w ≡ (err error, w)
  unfolding dispatch_event
  dispatch_event-Refuses w error (in_dispatch d) = rw d refl
  dispatch_event-Refuses w error (not_initialized i) = elim (Bool-cases w.event.dispatch_flag) [
    | inl d ↦ rw (d, i) refl
    | inr d ↦ rw (d, i) refl
  ]
  dispatch_event-Refuses w error (in_phase p) =
      elim (Bool-cases (w.event.dispatch_flag || not w.event.initialized_flag)) [
        | inl bad ↦ rw bad refl
        | inr good ↦ rw (good, p) refl
      ]
  dispatch_event-Refuses w error (no_list ready missing) =
      dispatch_event-dispatch w ready ∙ rw (missing, dispatch) refl
