-- ===== src/Buffer/Float/Laws.antt =====
-- Numbers that are written one behind the other are read back, in either byte order.
use winterjs.Common.{
  ℕ, zero, suc, ◌+◌, ◌^◌, ◌<◌, ◌≤◌, ◌%◌, ◌≡◌, refl, sym, ap, ap₂, ◌∙◌, arith, ◌⊎◌, inl, inr, Bool,
  true, false, ltb, List, [], ◌∷◌, ◌++◌, length, length-append, take, drop, take_all,
}
use winterjs.Common.Int.{ℤ, pos}
use winterjs.Js.{Result, ok}
use winterjs.Buffer.{check_offset, assert_offset}
use winterjs.Buffer.Window.{window, splice, window-splice, length-splice, splice-splice_up}
use winterjs.Buffer.Slice.Laws.{window-window}
use winterjs.Buffer.Float.{
  Ieee754, check_ieee754, read_float_le, read_float_be, read_double_le, read_double_be, write_float,
  write_double,
}

-- The two formats, by `mLen` and `nBytes`.
abbrev IsFormat : ℕ → ℕ → Type 0
IsFormat m n = ((m ≡ 23) × (n ≡ 4)) ⊎ ((m ≡ 52) × (n ≡ 8))

-- What `ieee754` documents: `write` puts the bytes of a number at the offset, and `read` takes a number
-- from the bytes there.
pub record Ieee754Laws {ℓ} {Num : Type ℓ} (lib : Ieee754 Num) : Type ℓ where
  pub encode : Num → Bool → ℕ → ℕ → List ℕ
  pub decode : List ℕ → Bool → ℕ → ℕ → Num
  pub encode-size : (v : Num) (le : Bool) (m n : ℕ) → IsFormat m n → length (encode v le m n) ≡ n
  pub write-encode :
      (buf : List ℕ) (v : Num) (o : ℕ) (le : Bool) (m n : ℕ)
      → IsFormat m n
      → o + n ≤ length buf
      → lib.write buf v o le m n ≡ splice buf o (encode v le m n)
  pub read-decode :
      (buf : List ℕ) (o : ℕ) (le : Bool) (m n : ℕ)
      → IsFormat m n
      → o + n ≤ length buf
      → lib.read buf o le m n ≡ decode (window buf o n) le m n

abbrev pub read_float_in {ℓ} : {Num : Type ℓ} → Bool → Ieee754 Num → List ℕ → ℤ → Bool → Result Num
read_float_in true lib = read_float_le lib
read_float_in false lib = read_float_be lib

abbrev pub read_double_in {ℓ} : {Num : Type ℓ} → Bool → Ieee754 Num → List ℕ → ℤ → Bool → Result Num
read_double_in true lib = read_double_le lib
read_double_in false lib = read_double_be lib

take_front : (xs ys : List ℕ) (n : ℕ) → length xs ≡ n → take n (xs ++ ys) ≡ xs
take_front [] ys zero h = refl
take_front [] ys (suc n) h = absurd (omega arith)
take_front (x ∷ xs) ys zero h = absurd (omega arith)
take_front (x ∷ xs) ys (suc n) h = ap (x ∷◌) (take_front xs ys n (omega arith))

drop_front : (xs ys : List ℕ) (n : ℕ) → length xs ≡ n → drop n (xs ++ ys) ≡ ys
drop_front [] ys zero h = refl
drop_front [] ys (suc n) h = absurd (omega arith)
drop_front (x ∷ xs) ys zero h = absurd (omega arith)
drop_front (x ∷ xs) ys (suc n) h = drop_front xs ys n (omega arith)

-- Two parts that are written as one are seen each at its place.
module _ (buf ds es : List ℕ) (o m n : ℕ) (first : length ds ≡ m) (second : length es ≡ n)
    (room : o + (m + n) ≤ length buf) where
  both : length (ds ++ es) ≡ m + n
  both = omega (arith, length-append ds es)

  all_seen : window (splice buf o (ds ++ es)) o (m + n) ≡ ds ++ es
  all_seen = rw (sym both) (window-splice buf o (ds ++ es) (omega (arith, both)))

  first_seen : window (splice buf o (ds ++ es)) o m ≡ ds
  first_seen =
      ap (λ p. window (splice buf o (ds ++ es)) p m) (let e : o ≡ o + 0 = omega arith in e)
      ∙ sym (window-window (splice buf o (ds ++ es)) o (m + n) 0 m (omega arith))
      ∙ ap (take m) all_seen
      ∙ take_front ds es m first

  second_seen : window (splice buf o (ds ++ es)) (o + m) n ≡ es
  second_seen =
      sym (window-window (splice buf o (ds ++ es)) o (m + n) m n (omega arith))
      ∙ ap (λ xs. take n (drop m xs)) all_seen
      ∙ ap (take n) (drop_front ds es m first)
      ∙ take_all n es (omega (arith, second))

module _ {ℓ} {Num : Type ℓ} (lib : Ieee754 Num) (laws : Ieee754Laws lib) where
  read_float_in-of :
      (le : Bool) (buf : List ℕ) (o : ℕ)
      → o + 4 ≤ length buf
      → o < 2 ^ 32
      → read_float_in le lib buf (pos o) false ≡ ok (laws.decode (window buf o 4) le 23 4)
  unfolding read_float_le read_float_be assert_offset check_offset
  read_float_in-of true buf o h small =
      let w : o % 2 ^ 32 ≡ o = omega arith in
      let fits : ltb (length buf) (o + 4) ≡ false = ground arith in
      rw (w, fits) (ap ok (laws.read-decode buf o true 23 4 (inl (refl, refl)) h))
  read_float_in-of false buf o h small =
      let w : o % 2 ^ 32 ≡ o = omega arith in
      let fits : ltb (length buf) (o + 4) ≡ false = ground arith in
      rw (w, fits) (ap ok (laws.read-decode buf o false 23 4 (inl (refl, refl)) h))

  read_double_in-of :
      (le : Bool) (buf : List ℕ) (o : ℕ)
      → o + 8 ≤ length buf
      → o < 2 ^ 32
      → read_double_in le lib buf (pos o) false ≡ ok (laws.decode (window buf o 8) le 52 8)
  unfolding read_double_le read_double_be assert_offset check_offset
  read_double_in-of true buf o h small =
      let w : o % 2 ^ 32 ≡ o = omega arith in
      let fits : ltb (length buf) (o + 8) ≡ false = ground arith in
      rw (w, fits) (ap ok (laws.read-decode buf o true 52 8 (inr (refl, refl)) h))
  read_double_in-of false buf o h small =
      let w : o % 2 ^ 32 ≡ o = omega arith in
      let fits : ltb (length buf) (o + 8) ≡ false = ground arith in
      rw (w, fits) (ap ok (laws.read-decode buf o false 52 8 (inr (refl, refl)) h))

  write_float-of :
      (le : Bool) (buf : List ℕ) (v : Num) (o : ℕ)
      → o + 4 ≤ length buf
      → o < 2 ^ 32
      → write_float lib buf v (pos o) le false ≡ ok (splice buf o (laws.encode v le 23 4), o + 4)
  unfolding write_float check_ieee754
  write_float-of le buf v o h small =
      let w : o % 2 ^ 32 ≡ o = omega arith in
      let fits : ltb (length buf) (o + 4) ≡ false = ground arith in
      rw (w, fits)
        (ap (λ b. ok (b, o + 4)) (laws.write-encode buf v o le 23 4 (inl (refl, refl)) h))

  write_double-of :
      (le : Bool) (buf : List ℕ) (v : Num) (o : ℕ)
      → o + 8 ≤ length buf
      → o < 2 ^ 32
      → write_double lib buf v (pos o) le false ≡ ok (splice buf o (laws.encode v le 52 8), o + 8)
  unfolding write_double check_ieee754
  write_double-of le buf v o h small =
      let w : o % 2 ^ 32 ≡ o = omega arith in
      let fits : ltb (length buf) (o + 8) ≡ false = ground arith in
      rw (w, fits)
        (ap (λ b. ok (b, o + 8)) (laws.write-encode buf v o le 52 8 (inr (refl, refl)) h))

  -- With a library that encodes a number in place and decodes the bytes at an offset: a float is
  -- written, and a double behind it at the offset that this returned, each in either byte order. Where
  -- both fit below the offset 2 ^ 32, each is read back as what the library decodes from the bytes that
  -- it encoded the number as, in the format of the number and its byte order.
  pub read-write_float_double :
      (buf : List ℕ) (v w : Num) (o : ℕ) (le le' : Bool)
      → o + 12 ≤ length buf
      → o + 12 < 2 ^ 32
      → (buf1 : List ℕ) × (buf2 : List ℕ) × (write_float lib buf v (pos o) le false
          ≡ ok (buf1, o + 4))
        × (write_double lib buf1 w (pos (o + 4)) le' false ≡ ok (buf2, o + 12))
        × (read_float_in le lib buf2 (pos o) false
            ≡ ok (laws.decode (laws.encode v le 23 4) le 23 4))
        × (read_double_in le' lib buf2 (pos (o + 4)) false
            ≡ ok (laws.decode (laws.encode w le' 52 8) le' 52 8))
  read-write_float_double buf v w o le le' room small =
      let ds = laws.encode v le 23 4 in
      let es = laws.encode w le' 52 8 in
      let m : length ds ≡ 4 = laws.encode-size v le 23 4 (inl (refl, refl)) in
      let n : length es ≡ 8 = laws.encode-size w le' 52 8 (inr (refl, refl)) in
      let buf1 = splice buf o ds in
      let buf2 = splice buf o (ds ++ es) in
      let size1 : length buf1 ≡ length buf = length-splice buf o ds (omega (arith, m)) in
      let size2 : length buf2 ≡ length buf =
        length-splice buf o (ds ++ es) (omega (arith, m, n, length-append ds es)) in
      let next : splice buf1 (o + 4) es ≡ buf2 =
        ap (λ k. splice buf1 (o + k) es) (sym m)
        ∙ splice-splice_up buf o ds es (omega (arith, m)) in
      let behind : o + 4 + 8 ≡ o + 12 = omega arith in
      (
        buf1,
        buf2,
        write_float-of le buf v o (omega arith) (omega arith),
        write_double-of le' buf1 w (o + 4) (omega (arith, size1)) (omega arith)
            ∙ ap₂ (λ b k. ok (b, k)) next behind,
        read_float_in-of le buf2 o (omega (arith, size2)) (omega arith)
            ∙ ap (λ xs. ok (laws.decode xs le 23 4)) (first_seen buf ds es o 4 8 m n (omega arith)),
        read_double_in-of le' buf2 (o + 4) (omega (arith, size2)) (omega arith)
            ∙ ap (λ xs. ok (laws.decode xs le' 52 8))
                (second_seen buf ds es o 4 8 m n (omega arith)),
      )
