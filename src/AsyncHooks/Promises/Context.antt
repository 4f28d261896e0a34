-- ===== src/AsyncHooks/Promises/Context.antt =====
-- The context of a promise from its making to its reactions.
use winterjs.Common.{
  ℕ, ◌≡◌, refl, sym, ap, ◌∙◌, inl, inr, arith, true, false, ◌==◌, List, [], ◌∷◌, Option, none, some,
  Bool-cases,
}
use mathlib.Core.Path.{subst}
use winterjs.Js.{ok}
use winterjs.AsyncHooks.{
  World, push_async_frame, is_dead, root_or_new, get_root_async_context, top_or_root, current,
  enter, attach_context,
}
use winterjs.AsyncHooks.View.{content, view, IsValid, Grows}
use winterjs.AsyncHooks.Growth.{Grows-trans}
use winterjs.AsyncHooks.Frames.{Same-new_frame, root-Got, current-Got, current-view}
use winterjs.AsyncHooks.Api.Laws.{}
use winterjs.AsyncHooks.Promises.{init, before}

==_refl : (n : ℕ) → n == n ≡ true
==_refl n = ground arith

module _ {V O : Type 0} where
  -- The root is known once it was asked for, and asking again gives it.
  root_after :
      (w : World V O)
      → ((get_root_async_context w).1).root_async_frame ≡ some ((get_root_async_context w).0)
  unfolding get_root_async_context
  root_after w = cases w.root_async_frame refl
    where
      cases :
          (o : Option ℕ)
          → w.root_async_frame ≡ o
          → ((root_or_new o w).1).root_async_frame ≡ some ((root_or_new o w).0)
      cases none e = refl
      cases (some r) e = e

  root_known :
      (r : ℕ) (w : World V O) → w.root_async_frame ≡ some r → get_root_async_context w ≡ (r, w)
  unfolding get_root_async_context
  root_known r w e = ap (λ o. root_or_new o w) e

  before-some :
      (p frame : ℕ) (w : World V O)
      → w.async_context p ≡ some frame
      → before p w ≡ push_async_frame frame w
  unfolding before
  before-some p frame w e = ap (λ o. enter o w) e

  before-none :
      (p r : ℕ) (w : World V O)
      → w.async_context p ≡ none
      → w.root_async_frame ≡ some r
      → before p w ≡ push_async_frame r w
  unfolding before
  before-none p r w e root =
      ap (λ o. enter o w) e ∙ ap (λ c. push_async_frame c.0 c.1) (root_known r w root)

  stack-root :
      (w : World V O) → ((get_root_async_context w).1).async_context_stack ≡ w.async_context_stack
  unfolding get_root_async_context
  stack-root w = cases w.root_async_frame
    where
      cases : (o : Option ℕ) → ((root_or_new o w).1).async_context_stack ≡ w.async_context_stack
      cases none = (Same-new_frame w).stack_same
      cases (some r) = refl

  -- A current frame that is not the root is on the stack, and stays current when the root is made.
  current_stays :
      (w : World V O)
      → (get_root_async_context ((current w).1)).0 == (current w).0 ≡ false
      → (current ((get_root_async_context ((current w).1)).1)).0 ≡ (current w).0
  unfolding current
  current_stays w other = by_stack w.async_context_stack refl other
    where
      by_stack :
          (stack : List ℕ)
          → w.async_context_stack ≡ stack
          → (get_root_async_context ((top_or_root stack w).1)).0 == (top_or_root stack w).0 ≡ false
          → (current ((get_root_async_context ((top_or_root stack w).1)).1)).0
            ≡ (top_or_root stack w).0
      by_stack [] e h =
          let r = (get_root_async_context w).0 in
          let known = root_known r ((get_root_async_context w).1) (root_after w) in
          let differs : r == r ≡ false = sym (ap (λ c. c.0 == r) known) ∙ h in
          absurd (cc (sym (==_refl r) ∙ differs))
      by_stack (f ∷ stack) e h =
          ap (λ s. (top_or_root s ((get_root_async_context w).1)).0) (stack-root w ∙ e)

  -- What the hook `init` leaves for a promise without a context.
  pub data Attached (w : World V O) (p : ℕ) (u : World V O) : Type 0 where
    to_promise : u.async_context p ≡ some ((current w).0) → Attached w p u
    to_root : u.async_context p ≡ none → u.root_async_frame ≡ some ((current w).0) → Attached w p u

  attached_self :
      (p : ℕ) (w : World V O) → (attach_context p w).async_context p ≡ some ((current w).0)
  attached_self p w = rw (==_refl p) refl

  attached : (w u : World V O) (p : ℕ) → Grows w u → IsValid u → Grows w (attach_context p u)
  attached w u p g v =
      let t = Grows-trans g ((current-Got u v).grows) in
      record {
        more_frames = t.more_frames;
        dead_stays = t.dead_stays;
        root_stays = t.root_stays;
        content_stays = t.content_stays;
      }

  init_lem :
      (w : World V O) (p : ℕ) (w1 : World V O)
      → IsValid w
      → w.async_context p ≡ none
      → init p w ≡ (ok tt, w1)
      → Grows ((current w).1) w1 × Attached w p w1
  unfolding init
  init_lem w p w1 v empty e =
      let wa = (current w).1 in
      let wb = (get_root_async_context wa).1 in
      let c = current-Got w v in
      let g = root-Got wa c.valid in
      let blank : wb.async_context p ≡ none =
        ap (λ f. f p) (g.same.context_same ∙ c.same.context_same) ∙ empty in
      elim (Bool-cases ((get_root_async_context wa).0 == (current w).0)) [
        | inl same ↦
            let w1e : wb ≡ w1 = ap (λ r. r.1) (rw same at e) in
            let here : (get_root_async_context wa).0 ≡ (current w).0 = ground arith in
            subst (λ x. Grows wa x × Attached w p x) w1e
              (g.grows, to_root blank (root_after wa ∙ ap (λ r. some r) here))
        | inr other ↦
            let w1e : attach_context p wb ≡ w1 = ap (λ r. r.1) (rw (other, blank) at e) in
            subst (λ x. Grows wa x × Attached w p x) w1e
              (
                attached wa wb p g.grows g.valid,
                to_promise (attached_self p wb ∙ ap (λ r. some r) (current_stays w other)),
              )
      ]

  -- A promise that is made in a valid world without a context has its reactions run with the values that
  -- were visible there, for keys that are alive: in any world that grew from it and in which its context
  -- is still that of the hook `init`, the hook `before` makes them visible.
  pub before-init :
      (w w1 u : World V O) (p k : ℕ)
      → IsValid w
      → w.async_context p ≡ none
      → init p w ≡ (ok tt, w1)
      → Grows w1 u
      → u.async_context p ≡ w1.async_context p
      → is_dead u k ≡ false
      → view (before p u) k ≡ view w k
  before-init w w1 u p k v empty e g same live =
      let i = init_lem w p w1 v empty e in
      let frame = (current w).0 in
      let c = current-Got w v in
      let kept = Grows-trans i.0 g in
      let seen : content frame u k ≡ view w k =
        kept.content_stays frame k c.on_heap live ∙ current-view w k in
      ap (λ x. view x k) (entered_frame i.1) ∙ seen
    where
      entered_frame : Attached w p w1 → before p u ≡ push_async_frame ((current w).0) u
      entered_frame (to_promise there) = before-some p ((current w).0) u (same ∙ there)
      entered_frame (to_root no_context root) =
          before-none p ((current w).0) u (same ∙ no_context) (g.root_stays ((current w).0) root)
