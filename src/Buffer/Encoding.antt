-- ===== src/Buffer/Encoding.antt =====
-- buffer.js: the names of the encodings, in the switches and in `isEncoding`. `toLowerCase` is the
-- argument `lower`.
pub mod Clean
pub mod Write
pub mod Text
pub mod Construct
pub mod Spec
use winterjs.Common.{
  ℕ, Bool, true, false, ◌&&◌, ◌||◌, ◌==◌, ltb, if◌then◌else◌, ◌≡◌, refl, sym, ap, ap₂, ◌∙◌, ◌⊎◌,
  inl, inr, List, [], ◌∷◌, Option, none, some, arith, Option-cases, Bool-cases,
}
use winterjs.Base64.{codes}
use winterjs.Js.{Result, ok, err, unknown_encoding}

-- The groups of labels that the switches tell apart.
pub data Encoding : Type 0 where
  hex utf8 ascii latin1 base64 utf16le : Encoding

abbrev pub labels : List (List ℕ × Encoding)
labels =
    (codes "hex", hex)
    ∷ (codes "utf8", utf8)
    ∷ (codes "utf-8", utf8)
    ∷ (codes "ascii", ascii)
    ∷ (codes "latin1", latin1)
    ∷ (codes "binary", latin1)
    ∷ (codes "base64", base64)
    ∷ (codes "ucs2", utf16le)
    ∷ (codes "ucs-2", utf16le)
    ∷ (codes "utf16le", utf16le)
    ∷ (codes "utf-16le", utf16le)
    ∷ []

-- `===` on strings.
abbrev pub same_string : List ℕ → List ℕ → Bool
same_string [] [] = true
same_string [] (d ∷ ds) = false
same_string (c ∷ cs) [] = false
same_string (c ∷ cs) (d ∷ ds) = (c == d) && same_string cs ds

find_label : List (List ℕ × Encoding) → List ℕ → Option Encoding
find_label [] name = none
find_label (l ∷ ls) name = if same_string l.0 name then some l.1 else find_label ls name

-- The case of a switch that a string selects.
unfoldable pub named : List ℕ → Option Encoding
unfolding find_label
named name = find_label labels name

abbrev pub known : Option Encoding → Result Encoding
known none = err unknown_encoding
known (some e) = ok e

abbrev pub or_lowered : Option Encoding → Option Encoding → Option Encoding
or_lowered none second = second
or_lowered (some e) second = some e

-- The case that the loop of a switch ends in, with the string in lower case in its second round.
unfoldable pub select : (List ℕ → List ℕ) → List ℕ → Option Encoding
select lower name = or_lowered (named name) (named (lower name))

abbrev pub is_some {ℓ} : {A : Type ℓ} → Option A → Bool
is_some none = false
is_some (some a) = true

-- `Buffer.isEncoding`
unfoldable pub is_encoding : (List ℕ → List ℕ) → List ℕ → Bool
is_encoding lower name = is_some (named (lower name))

-- `if (!encoding) encoding = 'utf8'`
abbrev pub or_utf8 : Option (List ℕ) → List ℕ
or_utf8 none = codes "utf8"
or_utf8 (some []) = codes "utf8"
or_utf8 (some (c ∷ name)) = c ∷ name

-- ASCII without the capital letters.
abbrev pub is_small : List ℕ → Bool
is_small [] = true
is_small (c ∷ cs) = (ltb c 65 || ltb 90 c && ltb c 128) && is_small cs

-- `toLowerCase` has nothing to change in such a string.
abbrev pub KeepsSmall : (List ℕ → List ℕ) → Type 0
KeepsSmall lower = (s : List ℕ) → is_small s ≡ true → lower s ≡ s

and-left : (a b : Bool) → (a && b) ≡ true → a ≡ true
and-left true b h = refl
and-left false b h = absurd (cc h)

and-right : (a b : Bool) → (a && b) ≡ true → b ≡ true
and-right true b h = h
and-right false b h = absurd (cc h)

same_string-eq : (s t : List ℕ) → same_string s t ≡ true → s ≡ t
same_string-eq [] [] h = refl
same_string-eq [] (d ∷ ds) h = absurd (cc h)
same_string-eq (c ∷ cs) [] h = absurd (cc h)
same_string-eq (c ∷ cs) (d ∷ ds) h =
    let first = and-left (c == d) (same_string cs ds) h in
    ap₂ ◌∷◌ (ground arith) (same_string-eq cs ds (and-right (c == d) (same_string cs ds) h))

small_labels : List (List ℕ × Encoding) → Bool
small_labels [] = true
small_labels (l ∷ ls) = is_small l.0 && small_labels ls

find_label-small :
    (ls : List (List ℕ × Encoding)) (name : List ℕ) (e : Encoding)
    → small_labels ls ≡ true
    → find_label ls name ≡ some e
    → is_small name ≡ true
unfolding small_labels find_label
find_label-small [] name e h found = absurd (cc found)
find_label-small (l ∷ ls) name e h found = elim (Bool-cases (same_string l.0 name)) [
  | inl same ↦
      ap is_small (sym (same_string-eq l.0 name same)) ∙ and-left (is_small l.0) (small_labels ls) h
  | inr other ↦
      find_label-small ls name e (and-right (is_small l.0) (small_labels ls) h) (rw other at found)
]

named-small : (name : List ℕ) (e : Encoding) → named name ≡ some e → is_small name ≡ true
unfolding named small_labels
named-small name e found = find_label-small labels name e refl found

-- A name that is known in lower case selects the same encoding however it is spelled.
pub select-lowered :
    (lower : List ℕ → List ℕ) (name : List ℕ) (e : Encoding)
    → KeepsSmall lower
    → named (lower name) ≡ some e
    → select lower name ≡ some e
unfolding select
select-lowered lower name e keeps found = elim (Option-cases (named name)) [
  | inl unknown ↦ rw (unknown, found)
  | inr (e', direct) ↦
      let small = keeps name (named-small name e' direct) in
      let here : named name ≡ some e = rw small at found in rw here
]
