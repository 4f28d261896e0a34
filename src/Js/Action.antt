-- ===== src/Js/Action.antt =====
-- Code that changes state and may throw. What was written before a throw stays written.
use winterjs.Common.{◌≡◌, refl}
use winterjs.Js.{Error, Result, ok, err}

abbrev pub Action : Type 0 → Type 0 → Type 0
Action S A = S → Result A × S

module _ {S : Type 0} {A : Type 0} where
  abbrev pub pure : A → Action S A
  pure a s = (ok a, s)

  abbrev pub raise : Error → Action S A
  raise e s = (err e, s)

  -- `try { return m() } finally { f() }`, where the block of `finally` throws nothing.
  abbrev pub finally : Action S A → (S → S) → Action S A
  finally m f s = let (r, s') = m s in (r, f s')

  abbrev pub gets : (S → A) → Action S A
  gets f s = (ok (f s), s)

abbrev pub modify : {S : Type 0} → (S → S) → Action S (Unit {0})
modify f s = (ok tt, f s)

infixl 5 ◌>>=◌ ◌>>◌
abbrev pub ◌>>=◌ : {S A B : Type 0} → Action S A → (A → Action S B) → Action S B
◌>>=◌ m f s = let (r, s') = m s in elim r [ ok a ↦ f a s' | err e ↦ raise e s' ]

abbrev pub ◌>>◌ : {S B : Type 0} → Action S (Unit {0}) → Action S B → Action S B
m >> k = m >>= λ _. k

-- A predicate on states that both parts keep, where the first may throw.
pub >>-Keeps :
    {S A B : Type 0} (P : S → Type 0) (m : Action S A) (f : A → Action S B) (s : S)
    → P ((m s).1)
    → ((a : A) (u : S) → P u → P ((f a u).1))
    → P (((m >>= f) s).1)
>>-Keeps {A} P m f s h k = cases ((m s).0) k
  where
    cases :
        (r : Result A)
        → ((a : A) (u : _) → P u → P ((f a u).1))
        → P ((((λ _. (r, (m s).1)) >>= f) s).1)
    cases (ok a) keep = keep a ((m s).1) h
    cases (err e) keep = h

pub >>-cong :
    {S A B : Type 0} (m : Action S A) (f g : A → Action S B) (s : S)
    → ((a : A) → f a ((m s).1) ≡ g a ((m s).1))
    → (m >>= f) s ≡ (m >>= g) s
>>-cong {A} m f g s h = cases ((m s).0) h
  where
    cases :
        (r : Result A)
        → ((a : A) → f a ((m s).1) ≡ g a ((m s).1))
        → ((λ _. (r, (m s).1)) >>= f) s ≡ ((λ _. (r, (m s).1)) >>= g) s
    cases (ok a) same = same a
    cases (err e) same = refl
