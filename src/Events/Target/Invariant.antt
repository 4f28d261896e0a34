-- ===== src/Events/Target/Invariant.antt =====
-- Over every sequence of calls no callback is registered twice for a type and a capture.
use winterjs.Common.{
  ℕ, ◌≡◌, ◌≢◌, refl, sym, ap, ◌∙◌, ◌⊎◌, inl, inr, arith, Bool, true, false, ◌==◌, List, [], ◌∷◌,
  ◌++◌, Option, none, some, Bool-cases, All,
}
use winterjs.Js.{Error, Result, ok, err}
use winterjs.Events.Target.{
  OptionsArg, object, Hook, Target, new_target, find, same_capture, add_options, add_event_listener,
  remove_capture, remove_event_listener, fire_hook,
}
use winterjs.Events.Target.Registry.{
  Key, Registry, same_key, has_key, remove_key, append_key, at_type, registry, Admits,
  registry-add_listener, registry-add_listener_aborted, registry-remove_event_listener,
}

-- Keys that differ in pairs.
abbrev pub NoDup : List Key → Type 0
NoDup [] = Unit {0}
NoDup (k ∷ keys) = All (λ x. x ≢ k) keys × NoDup keys

same_capture_refl : (c : Option Bool) → same_capture c c ≡ true
same_capture_refl none = refl
same_capture_refl (some true) = refl
same_capture_refl (some false) = refl

pub same_key_refl : (k : Key) → same_key k k ≡ true
same_key_refl (callback, capture) = ground (arith, same_capture_refl capture)

same_key-ne : (k key : Key) → same_key k key ≡ false → k ≢ key
same_key-ne k key h e = cc (ap (λ x. same_key x key) e ∙ same_key_refl key)

has_key-ne : (key : Key) (keys : List Key) → has_key key keys ≡ false → All (λ x. x ≢ key) keys
has_key-ne key [] h = tt
has_key-ne key (k ∷ keys) h = elim (Bool-cases (same_key k key)) [
  | inl same ↦ absurd (cc (rw same at h))
  | inr other ↦ (same_key-ne k key other, has_key-ne key keys (rw other at h))
]

All-remove_key :
    (P : Key → Type 0) (key : Key) (keys : List Key) → All P keys → All P (remove_key key keys)
All-remove_key P key [] h = tt
All-remove_key P key (k ∷ keys) (hk, h) = elim (Bool-cases (same_key k key)) [
  | inl same ↦ rw same h
  | inr other ↦ rw other (hk, All-remove_key P key keys h)
]

NoDup-remove_key : (key : Key) (keys : List Key) → NoDup keys → NoDup (remove_key key keys)
NoDup-remove_key key [] h = tt
NoDup-remove_key key (k ∷ keys) (hk, h) = elim (Bool-cases (same_key k key)) [
  | inl same ↦ rw same h
  | inr other ↦ rw other (All-remove_key (λ x. x ≢ k) key keys hk, NoDup-remove_key key keys h)
]

NoDup-snoc :
    (key : Key) (keys : List Key) → NoDup keys → All (λ x. x ≢ key) keys → NoDup (keys ++ key ∷ [])
NoDup-snoc key [] h a = (tt, tt)
NoDup-snoc key (k ∷ keys) (hk, h) (a, as') = (ends keys hk, NoDup-snoc key keys h as')
  where
    ends : (ks : List Key) → All (λ x. x ≢ k) ks → All (λ x. x ≢ k) (ks ++ key ∷ [])
    ends [] tt = ((λ e. a (sym e)), tt)
    ends (x ∷ ks) (hx, hs) = (hx, ends ks hs)

NoDup-append_key : (key : Key) (keys : List Key) → NoDup keys → NoDup (append_key key keys)
NoDup-append_key key keys h = elim (Bool-cases (has_key key keys)) [
  | inl known ↦ rw known h
  | inr new ↦ rw new (NoDup-snoc key keys h (has_key-ne key keys new))
]

abbrev pub IsUnique : Target → Type 0
IsUnique t = (ty : ℕ) → NoDup (registry t ty)

-- One call from outside, or of a hook by its signal; whether a signal is aborted may change between.
pub data Step : Target → Target → Type 0 where
  add :
      (aborted : ℕ → Bool) (type : ℕ) (callback : Option ℕ) (options : OptionsArg) (t : Target)
      → Step t (add_event_listener aborted type callback options t)
  remove :
      (type callback : ℕ) (options : OptionsArg) {t u : Target}
      → remove_event_listener type callback options t ≡ ok u
      → Step t u
  fire : (h : Hook) {t u : Target} → fire_hook h t ≡ ok u → Step t u

pub data Reach (t : Target) : Target → Type 0 where
  started : Reach t t
  stepped : {u v : Target} → Reach t u → Step u v → Reach t v

at_type-NoDup :
    (type : ℕ) (change : List Key → List Key) (r : Registry)
    → ((keys : List Key) → NoDup keys → NoDup (change keys))
    → ((ty : ℕ) → NoDup (r ty))
    → (ty : ℕ) → NoDup (at_type type change r ty)
at_type-NoDup type change r keep h ty = elim (Bool-cases (type == ty)) [
  | inl same ↦ rw same (keep (r type) (h type))
  | inr other ↦ rw other (h ty)
]

-- A signal admits a listener, or it is aborted.
Admits-cases :
    (aborted : ℕ → Bool) (signal : Option ℕ)
    → Admits aborted signal ⊎ ((s : ℕ) × (signal ≡ some s) × (aborted s ≡ true))
Admits-cases aborted none = inl tt
Admits-cases aborted (some s) = elim (Bool-cases (aborted s)) [
  | inl done ↦ inr (s, refl, done)
  | inr free ↦ inl free
]

add-IsUnique :
    (aborted : ℕ → Bool) (type : ℕ) (callback : Option ℕ) (options : OptionsArg) (t : Target)
    → IsUnique t
    → IsUnique (add_event_listener aborted type callback options t)
unfolding add_event_listener
add-IsUnique aborted type none options t h ty = h ty
add-IsUnique aborted type (some callback) options t h ty =
    elim (Admits-cases aborted (add_options options).signal) [
      | inl free ↦
          rw (registry-add_listener aborted type callback (add_options options) t ty free) (
            at_type-NoDup type (append_key (callback, (add_options options).capture)) (registry t)
              (NoDup-append_key (callback, (add_options options).capture)) h ty)
      | inr (s, given, done) ↦
          rw
            (registry-add_listener_aborted aborted type callback (add_options options) t ty s given
              done)
            (h ty)
    ]

-- An argument without properties makes `removeEventListener` throw, or there is nothing to look at.
remove_capture_err :
    (type callback : ℕ) (arg : OptionsArg) (e : Error) (t u : Target)
    → remove_capture arg ≡ err e
    → remove_event_listener type callback arg t ≡ ok u
    → u ≡ t
unfolding remove_event_listener
remove_capture_err type callback arg e t u h k = ground arith

remove-IsUnique :
    (type callback : ℕ) (arg : OptionsArg) (t u : Target)
    → remove_event_listener type callback arg t ≡ ok u
    → IsUnique t
    → IsUnique u
remove-IsUnique type callback arg t u k h = cases (remove_capture arg) refl
  where
    cases : (r : Result (Option Bool)) → remove_capture arg ≡ r → IsUnique u
    cases (err e) er ty = rw (remove_capture_err type callback arg e t u er k) (h ty)
    cases (ok capture) er ty =
        let r = registry-remove_event_listener type callback arg capture t er in
        let same : u ≡ r.0 = cc (sym k ∙ r.1) in
        rw (same, r.2 ty)
          (at_type-NoDup type (remove_key (callback, capture)) (registry t)
            (NoDup-remove_key (callback, capture)) h ty)

fire_hook-IsUnique :
    (hook : Hook) (t u : Target) → fire_hook hook t ≡ ok u → IsUnique t → IsUnique u
unfolding fire_hook
fire_hook-IsUnique hook t u = remove-IsUnique hook.type hook.callback (object hook.options) t u

Step-IsUnique : {t u : Target} → Step t u → IsUnique t → IsUnique u
Step-IsUnique (add aborted type callback options t) h =
    add-IsUnique aborted type callback options t h
Step-IsUnique (remove type callback options k) h = remove-IsUnique type callback options _ _ k h
Step-IsUnique (fire hook k) h = fire_hook-IsUnique hook _ _ k h

-- After any calls on a new target, no type has a callback twice with the same capture.
pub Reach-IsUnique : {t : Target} → Reach new_target t → IsUnique t
Reach-IsUnique started = λ ty. unfold find in tt
Reach-IsUnique (stepped r st) = Step-IsUnique st (Reach-IsUnique r)
