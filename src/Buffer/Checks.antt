-- ===== src/Buffer/Checks.antt =====
-- buffer.js: the outcome of the shared checks, and elements at a distance from an offset.
use winterjs.Common.{◌+◌, ◌<◌, ◌≤◌, ◌≡◌, refl, sym, ap, ◌∙◌, arith, Bool, false, List, [], ◌∷◌, ℕ}
use winterjs.Common.{length, drop, get_elem?, get_elem?-drop}
use winterjs.Js.{ok, err, beyond_length, IsBytes}
use winterjs.Buffer.{assert_offset}

-- An access inside the buffer passes the check.
pub assert_offset-ok :
    (no_assert : Bool) (o ext len : ℕ) → o + ext ≤ len → assert_offset no_assert o ext len ≡ ok tt
unfolding assert_offset
assert_offset-ok no_assert o ext len h = ground arith

-- An access that passes the end is an error, unless `noAssert` is set.
pub assert_offset-err :
    (o ext len : ℕ) → len < o + ext → assert_offset false o ext len ≡ err beyond_length
unfolding assert_offset
assert_offset-err o ext len h = ground arith

pub elem_at : (buf : List ℕ) (o i : ℕ) → get_elem? buf (o + i) ≡ get_elem? (drop o buf) i
elem_at buf o i = sym (get_elem?-drop o i buf)

pub elem_at_zero : (buf : List ℕ) (o : ℕ) → get_elem? buf o ≡ get_elem? (drop o buf) 0
elem_at_zero buf o = ap (get_elem? buf) (let e : o ≡ o + 0 = omega arith in e) ∙ elem_at buf o 0

-- A list of bytes that is long enough, taken apart.
pub record Two (zs : List ℕ) : Type 0 where
  pub a : ℕ
  pub b : ℕ
  pub rest : List ℕ
  pub shape : zs ≡ a ∷ b ∷ rest
  pub fits : (a < 256) × (b < 256)
  pub rest_bytes : IsBytes rest

pub Two-bytes : (zs : List ℕ) → IsBytes zs → 2 ≤ length zs → Two zs
Two-bytes [] h k = absurd (omega arith)
Two-bytes (a ∷ []) h k = absurd (omega arith)
Two-bytes (a ∷ b ∷ zs) (ha, (hb, hs)) k = record {
  a = a;
  b = b;
  rest = zs;
  shape = refl;
  fits = (ha, hb);
  rest_bytes = hs;
}

pub record Four (zs : List ℕ) : Type 0 where
  pub a : ℕ
  pub b : ℕ
  pub c : ℕ
  pub d : ℕ
  pub rest : List ℕ
  pub shape : zs ≡ a ∷ b ∷ c ∷ d ∷ rest
  pub fits : (a < 256) × (b < 256) × (c < 256) × (d < 256)
  pub rest_bytes : IsBytes rest

pub Four-bytes : (zs : List ℕ) → IsBytes zs → 4 ≤ length zs → Four zs
Four-bytes zs h k =
    let u = Two-bytes zs h (omega arith) in
    let v = Two-bytes u.rest u.rest_bytes (omega (arith, ap length u.shape)) in
    record {
      a = u.a;
      b = u.b;
      c = v.a;
      d = v.b;
      rest = v.rest;
      shape = u.shape ∙ ap (λ r. u.a ∷ u.b ∷ r) v.shape;
      fits = (u.fits.0, u.fits.1, v.fits.0, v.fits.1);
      rest_bytes = v.rest_bytes;
    }

pub uncons {ℓ} : {A : Type ℓ} (zs : List A) → 1 ≤ length zs → (z : A) × (r : List A) × (zs ≡ z ∷ r)
uncons [] h = absurd (omega arith)
uncons (z ∷ zs) h = (z, zs, refl)

pub record Eight (zs : List ℕ) : Type 0 where
  pub lo : Four zs
  pub hi : Four lo.rest

pub Eight-bytes : (zs : List ℕ) → IsBytes zs → 8 ≤ length zs → Eight zs
Eight-bytes zs h k =
    let z = Four-bytes zs h (omega arith) in
    record { lo = z; hi = Four-bytes z.rest z.rest_bytes (omega (arith, ap length z.shape)) }
