-- ===== src/Base64/Table.antt =====
-- The two tables of the base64 alphabet, and the bits of a triplet.
use winterjs.Common.{ℕ, suc, ◌+◌, ◌*◌, ◌^◌, ◌<◌, bit_or, arith}
use winterjs.Common.{◌≡◌, ◌≢◌, refl, sym, ap, List, [], ◌∷◌, ◌==◌, if◌then◌else◌}
use winterjs.Common.Bits.{agree_below, agree_below-eq, bit_or-add}
use winterjs.Base64.{lookup, sextet, quantum}

-- The value of a character of the alphabet is its position.
pub sextet-lookup : (i : ℕ) (rest : List ℕ) → i < 64 → sextet (lookup i ∷ rest) 0 ≡ i
unfolding sextet lookup agree_below
sextet-lookup i rest h = agree_below-eq (λ i. sextet (lookup i ∷ []) 0) (λ i. i) 64 i refl h

-- No character of the alphabet is `=`.
pub lookup-ne-pad : (i : ℕ) → i < 64 → lookup i ≢ b'='
unfolding lookup agree_below
lookup-ne-pad i h e =
    ground (arith, agree_below-eq (λ i. if lookup i == b'=' then 1 else 0) (λ i. 0) 64 i refl h)

pub sextet-suc : (c : ℕ) (b64 : List ℕ) (j : ℕ) → sextet (c ∷ b64) (suc j) ≡ sextet b64 j
unfolding sextet
sextet-suc c b64 j = refl

-- Three fields of six bits below a fourth one.
pub join_fields :
    (a b c d : ℕ)
    → b < 64
    → c < 64
    → d < 64
    → bit_or (bit_or (bit_or (a * 2 ^ 18) (b * 2 ^ 12)) (c * 2 ^ 6)) d
      ≡ a * 2 ^ 18 + b * 2 ^ 12 + c * 2 ^ 6 + d
join_fields a b c d hb hc hd = omega (
  arith,
  bit_or-add 18 a (b * 2 ^ 12) (omega arith),
  ap (λ (t : ℕ). bit_or (bit_or t (c * 2 ^ 6)) d) (bit_or-add 18 a (b * 2 ^ 12) (omega arith)),
  ap (λ (t : ℕ). bit_or (bit_or t (c * 2 ^ 6)) d) (sym (regroup_12)),
  ap (λ (t : ℕ). bit_or t d) (bit_or-add 12 (a * 2 ^ 6 + b) (c * 2 ^ 6) (omega arith)),
  ap (λ (t : ℕ). bit_or t d) (sym regroup_6),
  bit_or-add 6 (a * 2 ^ 12 + b * 2 ^ 6 + c) d (omega arith),
)
  where
    regroup_12 : (a * 2 ^ 6 + b) * 2 ^ 12 ≡ a * 2 ^ 18 + b * 2 ^ 12
    regroup_12 = omega arith

    regroup_6 : (a * 2 ^ 12 + b * 2 ^ 6 + c) * 2 ^ 6 ≡ (a * 2 ^ 6 + b) * 2 ^ 12 + c * 2 ^ 6
    regroup_6 = omega arith

pub quantum-lookup :
    (a b c d : ℕ) (rest : List ℕ)
    → a < 64
    → b < 64
    → c < 64
    → d < 64
    → quantum (lookup a ∷ lookup b ∷ lookup c ∷ lookup d ∷ rest)
      ≡ a * 2 ^ 18 + b * 2 ^ 12 + c * 2 ^ 6 + d
quantum-lookup a b c d rest ha hb hc hd =
    rw
      (
        sextet-suc,
        sextet-suc,
        sextet-suc,
        sextet-suc,
        sextet-suc,
        sextet-suc,
        sextet-lookup a _ ha,
        sextet-lookup b _ hb,
        sextet-lookup c _ hc,
        sextet-lookup d _ hd,
      )
      (join_fields a b c d hb hc hd)
