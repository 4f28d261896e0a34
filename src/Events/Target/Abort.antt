-- ===== src/Events/Target/Abort.antt =====
-- What the abort of a signal does to a listener that was added with it.
use winterjs.Common.{
  ℕ, ◌≡◌, refl, ap, ◌∙◌, arith, inl, inr, Bool, false, ◌==◌, List, [], ◌∷◌, ◌++◌, some, Bool-cases,
}
use winterjs.Js.{ok}
use winterjs.Events.Target.{
  Options, object, Target, Hook, find, list_or_empty, add_listener, push_listener, fire_hook,
}
use winterjs.Events.Target.Registry.{
  Key, Registry, same_key, has_key, remove_key, append_key, at_type, registry, has_match-has_key,
  registry-add_listener, registry-remove_event_listener,
}
use winterjs.Events.Target.Invariant.{same_key_refl}

remove_key_snoc :
    (key : Key) (keys : List Key)
    → has_key key keys ≡ false
    → remove_key key (keys ++ key ∷ []) ≡ keys
remove_key_snoc key [] h = rw (same_key_refl key) refl
remove_key_snoc key (k ∷ keys) h = elim (Bool-cases (same_key k key)) [
  | inl same ↦ absurd (cc (rw same at h))
  | inr other ↦ rw other (ap (k ∷◌) (remove_key_snoc key keys (rw other at h)))
]

remove_key-append_key :
    (key : Key) (keys : List Key)
    → has_key key keys ≡ false
    → remove_key key (append_key key keys) ≡ keys
remove_key-append_key key keys h = rw h (remove_key_snoc key keys h)

-- A second change at a type that undoes the first there.
at_type_undo :
    (type ty : ℕ) (f g : List Key → List Key) (r r' : Registry)
    → ((k : ℕ) → r' k ≡ at_type type g r k)
    → f (g (r type)) ≡ r type
    → at_type type f r' ty ≡ r ty
at_type_undo type ty f g r r' h back = elim (Bool-cases (type == ty)) [
  | inl same ↦
      let e : type ≡ ty = ground arith in
      let there : r' ty ≡ g (r type) = h ty ∙ (rw same refl) in
      rw same (ap f (ap r' e ∙ there) ∙ back ∙ ap r e)
  | inr other ↦ rw other (h ty ∙ (rw other refl))
]

-- The same with the hook written out.
fire-added :
    (aborted : ℕ → Bool) (type callback s : ℕ) (options : Options) (t : Target)
    → options.signal ≡ some s
    → aborted s ≡ false
    → has_key (callback, options.capture) (registry t type) ≡ false
    → (u : Target) × (fire_hook
          (record { signal = s; type = type; callback = callback; options = options })
          (add_listener aborted type callback options t)
        ≡ ok u)
      × ((ty : ℕ) → registry u ty ≡ registry t ty)
unfolding fire_hook
fire-added aborted type callback s options t given free new =
    let key : Key = (callback, options.capture) in
    let removed =
      registry-remove_event_listener type callback (object options) options.capture
        (add_listener aborted type callback options t) refl in
    (
      removed.0,
      removed.1,
      λ ty.
          removed.2 ty
          ∙ at_type_undo type ty (remove_key key) (append_key key) (registry t)
              (registry (add_listener aborted type callback options t))
              (λ k. registry-add_listener aborted type callback options t k (rw given free))
              (remove_key-append_key key (registry t type) new),
    )

-- A new listener that is added with a signal that is not aborted leaves one more hook, of that signal,
-- behind those that were there. When it fires, the registry is as it was before the listener.
pub fire_hook-add_listener :
    (aborted : ℕ → Bool) (type callback s : ℕ) (options : Options) (t : Target)
    → options.signal ≡ some s
    → aborted s ≡ false
    → has_key (callback, options.capture) (registry t type) ≡ false
    → (h : Hook) × ((add_listener aborted type callback options t).hooks ≡ t.hooks ++ h ∷ [])
      × (h.signal ≡ s)
      × (u : Target) × (fire_hook h (add_listener aborted type callback options t) ≡ ok u)
      × ((ty : ℕ) → registry u ty ≡ registry t ty)
unfolding add_listener push_listener
fire_hook-add_listener aborted type callback s options t given free new =
    let fresh =
      has_match-has_key callback options.capture (list_or_empty (find type t.listeners)) ∙ new in
    let fired = fire-added aborted type callback s options t given free new in
    (
      record { signal = s; type = type; callback = callback; options = options },
      rw (fresh, given, free) refl,
      refl,
      fired.0,
      fired.1,
      fired.2,
    )
