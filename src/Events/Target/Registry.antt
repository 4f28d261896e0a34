-- ===== src/Events/Target/Registry.antt =====
-- An `EventTarget` as a registry: for each type, callbacks and captures in order, none twice.
use winterjs.Common.{
  ℕ, ◌≡◌, refl, sym, ap, ap₂, ◌∙◌, inl, inr, arith, Bool, true, false, ◌&&◌, ◌==◌, if◌then◌else◌,
  List, [], ◌∷◌, ◌++◌, map, Option, none, some, Bool-cases, Option-cases,
}
use winterjs.Js.{ok}
use winterjs.Events.Target.{
  Options, OptionsArg, Listener, Target, find, put, same_capture, matches, has_match, push_listener,
  list_or_empty, add_listener, remove_match, remove_capture, remove_event_listener,
}

abbrev pub Key : Type 0
Key = ℕ × Option Bool

abbrev pub Registry : Type 0
Registry = ℕ → List Key

-- The specification: a key is appended unless it is there, and removed where it is.
abbrev pub same_key : Key → Key → Bool
same_key k key = same_capture k.1 key.1 && k.0 == key.0

abbrev pub has_key : Key → List Key → Bool
has_key key [] = false
has_key key (k ∷ keys) = if same_key k key then true else has_key key keys

abbrev pub remove_key : Key → List Key → List Key
remove_key key [] = []
remove_key key (k ∷ keys) = if same_key k key then keys else k ∷ remove_key key keys

abbrev pub append_key : Key → List Key → List Key
append_key key keys = if has_key key keys then keys else keys ++ key ∷ []

abbrev pub at_type : ℕ → (List Key → List Key) → Registry → Registry
at_type type change r ty = if type == ty then change (r type) else r ty

-- What is registered in a target.
abbrev pub key_of : Listener → Key
key_of l = (l.callback, l.options.capture)

abbrev pub keys_of : Option (List Listener) → List Key
keys_of o = map key_of (list_or_empty o)

abbrev pub registry : Target → Registry
registry t ty = keys_of (find ty t.listeners)

pub find-put :
    (type ty : ℕ) (list : List Listener) (m : List (ℕ × List Listener))
    → find ty (put type list m) ≡ (if type == ty then some list else find ty m)
unfolding find put
find-put type ty list [] = refl
find-put type ty list ((k, old) ∷ m) = ground (arith, find-put type ty list m)

pub has_match-has_key :
    (callback : ℕ) (capture : Option Bool) (list : List Listener)
    → has_match callback capture list ≡ has_key (callback, capture) (map key_of list)
unfolding has_match
has_match-has_key callback capture [] = refl
has_match-has_key callback capture (l ∷ list) =
    ap (λ b. if matches callback capture l then true else b)
      (has_match-has_key callback capture list)

remove_match-remove_key :
    (callback : ℕ) (capture : Option Bool) (list : List Listener)
    → map key_of (remove_match callback capture list)
      ≡ remove_key (callback, capture) (map key_of list)
unfolding remove_match
remove_match-remove_key callback capture [] = refl
remove_match-remove_key callback capture (l ∷ list) =
    elim (Bool-cases (matches callback capture l)) [
      | inl same ↦ rw same
      | inr other ↦ rw other (ap (key_of l ∷◌) (remove_match-remove_key callback capture list))
    ]

-- A signal that is missing, or not aborted.
abbrev pub Admits : (ℕ → Bool) → Option ℕ → Type 0
Admits aborted none = Unit {0}
Admits aborted (some s) = aborted s ≡ false

map_snoc :
    (list : List Listener) (l : Listener)
    → map key_of (list ++ l ∷ []) ≡ map key_of list ++ key_of l ∷ []
map_snoc [] l = refl
map_snoc (k ∷ list) l = ap (key_of k ∷◌) (map_snoc list l)

-- One list is written, and the other types keep theirs.
registry-put :
    (type ty : ℕ) (list : List Listener) (m : List (ℕ × List Listener))
    → keys_of (find ty (put type list m))
      ≡ (if type == ty then map key_of list else keys_of (find ty m))
registry-put type ty list m = rw (find-put type ty list m) (branch (type == ty))
  where
    branch :
        (b : Bool)
        → keys_of (if b then some list else find ty m)
          ≡ (if b then map key_of list else keys_of (find ty m))
    branch true = refl
    branch false = refl

at_self :
    (type ty : ℕ) (r : Registry) (keys : List Key)
    → (type ≡ ty → keys ≡ r type)
    → (if type == ty then keys else r ty) ≡ r ty
at_self type ty r keys h = elim (Bool-cases (type == ty)) [
  | inl same ↦ let e : type ≡ ty = ground arith in rw same (h e ∙ ap r e)
  | inr other ↦ rw other
]

-- Writing the list that is there already registers nothing.
registry_started :
    (type ty : ℕ) (t : Target)
    → keys_of (find ty (put type (list_or_empty (find type t.listeners)) t.listeners))
      ≡ registry t ty
registry_started type ty t =
    registry-put type ty (list_or_empty (find type t.listeners)) t.listeners
    ∙ at_self type ty (registry t) (registry t type) (λ _. refl)

-- What is pushed when the signal admits it.
push_listener-Admits :
    (aborted : ℕ → Bool) (type callback : ℕ) (options : Options) (list : List Listener) (t : Target)
    → Admits aborted options.signal
    → (push_listener aborted type callback options list t).listeners
      ≡ put type (list ++ record { callback = callback; options = options } ∷ []) t.listeners
unfolding push_listener
push_listener-Admits aborted type callback options list t h = elim (Option-cases options.signal) [
  | inl missing ↦ rw missing
  | inr (s, given) ↦ let free : aborted s ≡ false = rw given at h in ground arith
]

module _ (aborted : ℕ → Bool) (type callback : ℕ) (options : Options) (t : Target) (ty : ℕ) where
  -- The list of the type, and the key that is added.
  abbrev list : List Listener
  list = list_or_empty (find type t.listeners)

  abbrev key : Key
  key = (callback, options.capture)

  add_known :
      has_match callback options.capture list ≡ true
      → registry (add_listener aborted type callback options t) ty
        ≡ at_type type (append_key key) (registry t) ty
  unfolding add_listener
  add_known h =
      let known = sym (has_match-has_key callback options.capture list) ∙ h in
      rw h (
        registry_started type ty t
        ∙ sym (at_self type ty (registry t) (append_key key (registry t type)) (λ _. rw known)))

  add_new :
      has_match callback options.capture list ≡ false
      → Admits aborted options.signal
      → registry (add_listener aborted type callback options t) ty
        ≡ at_type type (append_key key) (registry t) ty
  unfolding add_listener
  add_new h a =
      let new = sym (has_match-has_key callback options.capture list) ∙ h in
      rw
        (
          h,
          push_listener-Admits aborted type callback options list
              (record t { listeners = put type list t.listeners }) a,
        )
        (registry-put type ty (list ++ record { callback = callback; options = options } ∷ [])
            (put type list t.listeners)
          ∙ ap₂ (λ us vs. if type == ty then us else vs)
              (map_snoc list (record { callback = callback; options = options }) ∙ (rw new))
              (registry_started type ty t))

  -- Where the signal admits it, `addEventListener` appends the callback with its capture to those of
  -- the type, unless it is there, and leaves the other types as they are.
  pub registry-add_listener :
      Admits aborted options.signal
      → registry (add_listener aborted type callback options t) ty
        ≡ at_type type (append_key key) (registry t) ty
  registry-add_listener a = elim (Bool-cases (has_match callback options.capture list)) [
    | inl known ↦ add_known known
    | inr new ↦ add_new new a
  ]

-- An aborted signal keeps `addEventListener` from registering anything.
pub registry-add_listener_aborted :
    (aborted : ℕ → Bool) (type callback : ℕ) (options : Options) (t : Target) (ty s : ℕ)
    → options.signal ≡ some s
    → aborted s ≡ true
    → registry (add_listener aborted type callback options t) ty ≡ registry t ty
unfolding add_listener push_listener
registry-add_listener_aborted aborted type callback options t ty s given done =
    ground (arith, registry_started type ty t)

-- `removeEventListener` with an argument that has a capture takes the callback with that capture
-- from those of the type, where it is there, leaves the other types as they are, and does not throw.
pub registry-remove_event_listener :
    (type callback : ℕ) (arg : OptionsArg) (capture : Option Bool) (t : Target)
    → remove_capture arg ≡ ok capture
    → (u : Target) × (remove_event_listener type callback arg t ≡ ok u)
      × ((ty : ℕ) → registry u ty ≡ at_type type (remove_key (callback, capture)) (registry t) ty)
unfolding remove_event_listener
registry-remove_event_listener type callback arg capture t h = cases (find type t.listeners) refl
  where
    cases :
        (o : Option (List Listener))
        → find type t.listeners ≡ o
        → (u : Target) × (remove_event_listener type callback arg t ≡ ok u)
          × ((ty : ℕ)
              → registry u ty ≡ at_type type (remove_key (callback, capture)) (registry t) ty)
    cases none e =
        (t, rw (e, remove_event_listener), λ ty. sym (at_self type ty (registry t) _ (λ _. rw e)))
    cases (some []) e =
        (t, rw (e, remove_event_listener), λ ty. sym (at_self type ty (registry t) _ (λ _. rw e)))
    cases (some (l ∷ rest)) e = (
      record t { listeners = put type (remove_match callback capture (l ∷ rest)) t.listeners },
      rw (e, h, remove_event_listener),
      λ ty.
          registry-put type ty (remove_match callback capture (l ∷ rest)) t.listeners
          ∙ ap (λ us. if type == ty then us else registry t ty)
              (remove_match-remove_key callback capture (l ∷ rest) ∙ (rw e)),
    )
