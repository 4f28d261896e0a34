-- ===== src/Buffer/Fill/Keeps.antt =====
-- `fill` and `alloc` keep bytes and lengths.
use winterjs.Common.{
  ℕ, zero, suc, ◌+◌, ◌-◌, ◌≡◌, refl, ap, arith, inl, inr, true, false, ◌==◌, ltb, Bool-cases, List,
  length, replicate, length-replicate, Option, none, some,
}
use winterjs.Common.Int.{ℤ, pos, negsuc}
use winterjs.Js.{Result, ok, err, ◌>>=◌, invalid_size, store, IsBytes}
use winterjs.Buffer.Concat.{create_buffer, assert_size, k_max_length}
use winterjs.Buffer.Encoding.Construct.{from_string}
use winterjs.Buffer.Encoding.Construct.Laws.{ok_inj}
use winterjs.Buffer.Fill.{
  FillValue, FillArg, FillArgs, Filler, byte, spelled, pattern_of, view_of, fill_view, repeat_view,
  prepare, fill_range, fill_byte, fill_bytes, repeat_bytes, fill_with, fill, fill_new,
  encoding_args, alloc,
}
use winterjs.Buffer.Kept.{Kept, KeptResult, store-Kept}

fill_byte-Kept :
    (n value rounds i : ℕ) (buf : List ℕ) → Kept n buf → Kept n (fill_byte value rounds i buf)
unfolding fill_byte
fill_byte-Kept n value zero i buf h = h
fill_byte-Kept n value (suc rounds) i buf h =
    fill_byte-Kept n value rounds (i + 1) (store buf i value) (store-Kept n buf i value h)

fill_bytes-Kept :
    (n : ℕ) (bytes : List ℕ) (start rounds i : ℕ) (buf : List ℕ)
    → Kept n buf
    → Kept n (fill_bytes bytes start rounds i buf)
unfolding fill_bytes
fill_bytes-Kept n bytes start zero i buf h = h
fill_bytes-Kept n bytes start (suc rounds) i buf h =
    fill_bytes-Kept n bytes start rounds (i + 1) _ (store-Kept n buf (i + start) _ h)

fill_view-Kept :
    (n offset size start rounds i : ℕ) (buf : List ℕ)
    → Kept n buf
    → Kept n (fill_view offset size start rounds i buf)
unfolding fill_view
fill_view-Kept n offset size start zero i buf h = h
fill_view-Kept n offset size start (suc rounds) i buf h =
    fill_view-Kept n offset size start rounds (i + 1) _ (store-Kept n buf (i + start) _ h)

repeat_view-Kept :
    (n offset size start end : ℕ) (buf : List ℕ)
    → Kept n buf
    → KeptResult n (repeat_view offset size start end buf)
unfolding repeat_view
repeat_view-Kept n offset size start end buf h = elim (Bool-cases (size == 0)) [
  | inl none_left ↦ rw none_left tt
  | inr some_left ↦ rw some_left (fill_view-Kept n offset size start (end - start) 0 buf h)
]

repeat_bytes-Kept :
    (n : ℕ) (bytes : List ℕ) (start end : ℕ) (buf : List ℕ)
    → Kept n buf
    → KeptResult n (repeat_bytes bytes start end buf)
unfolding repeat_bytes
repeat_bytes-Kept n bytes start end buf h = elim (Bool-cases (length bytes == 0)) [
  | inl none_left ↦ rw none_left tt
  | inr some_left ↦ rw some_left (fill_bytes-Kept n bytes start (end - start) 0 buf h)
]

after_bytes :
    (n start end : ℕ) (buf : List ℕ) (bytes : Result (List ℕ))
    → Kept n buf
    → KeptResult n (bytes >>= λ bs. repeat_bytes bs start end buf)
after_bytes n start end buf (err e) h = tt
after_bytes n start end buf (ok bytes) h = repeat_bytes-Kept n bytes start end buf h

fill_with-Kept :
    (n : ℕ) (lower : List ℕ → List ℕ) (filler : Filler) (range : Option (ℕ × ℕ)) (buf : List ℕ)
    → Kept n buf
    → KeptResult n (fill_with lower filler range buf)
unfolding fill_with
fill_with-Kept n lower filler none buf h = h
fill_with-Kept n lower (byte value) (some (start, end)) buf h =
    fill_byte-Kept n value (end - start) start buf h
fill_with-Kept n lower (spelled string encoding) (some (start, end)) buf h =
    after_bytes n start end buf (from_string lower string encoding) h
fill_with-Kept n lower (pattern_of bytes) (some (start, end)) buf h =
    repeat_bytes-Kept n bytes start end buf h
fill_with-Kept n lower (view_of offset size) (some (start, end)) buf h =
    repeat_view-Kept n offset size start end buf h

after_range :
    (n : ℕ) (lower : List ℕ → List ℕ) (filler : Filler) (buf : List ℕ)
    (range : Result (Option (ℕ × ℕ)))
    → Kept n buf
    → KeptResult n (range >>= λ r. fill_with lower filler r buf)
after_range n lower filler buf (err e) h = tt
after_range n lower filler buf (ok range) h = fill_with-Kept n lower filler range buf h

after_prepare :
    (n : ℕ) (lower : List ℕ → List ℕ) (buf : List ℕ)
    (prepared : Result (Filler × FillArg × FillArg))
    → Kept n buf
    → KeptResult n
        (prepared >>= λ p. fill_range (length buf) p.1 p.2 >>= λ r. fill_with lower p.0 r buf)
after_prepare n lower buf (err e) h = tt
after_prepare n lower buf (ok (filler, first, last)) h =
    after_range n lower filler buf (fill_range (length buf) first last) h

pub fill-Kept :
    (lower : List ℕ → List ℕ) (buf : List ℕ) (value : FillValue) (args : FillArgs)
    → IsBytes buf
    → KeptResult (length buf) (fill lower buf value args)
unfolding fill
fill-Kept lower buf value args h =
    after_prepare (length buf) lower buf (prepare lower (length buf) value args)
      (record { bytes = h; size = refl })

replicate-Kept : (n : ℕ) → Kept n (replicate n 0)
replicate-Kept n = record { bytes = zeros n; size = length-replicate n 0 }
  where
    zeros : (n : ℕ) → IsBytes (replicate n 0)
    zeros zero = tt
    zeros (suc n) = (omega arith, zeros n)

fill_new-Kept :
    (n : ℕ) (lower : List ℕ → List ℕ) (buf : List ℕ) (value : Option FillValue) (encoding : FillArg)
    → Kept n buf
    → KeptResult n (fill_new lower buf value encoding)
fill_new-Kept n lower buf none encoding h = h
fill_new-Kept n lower buf (some value) encoding k =
    rw k.size at (fill-Kept lower buf value (encoding_args encoding) k.bytes)

created-Kept :
    (n : ℕ) (next : List ℕ → Result (List ℕ))
    → ((buf : List ℕ) → Kept n buf → KeptResult n (next buf))
    → KeptResult n (create_buffer n >>= next)
unfolding create_buffer
created-Kept n next h = elim (Bool-cases (ltb k_max_length n)) [
  | inl large ↦ rw large tt
  | inr small ↦ rw small (h (replicate n 0) (replicate-Kept n))
]

result-Kept :
    (n : ℕ) (r : Result (List ℕ)) (buf : List ℕ) → KeptResult n r → r ≡ ok buf → Kept n buf
result-Kept n (err error) buf k e = absurd (cc e)
result-Kept n (ok other) buf k e = let same : other ≡ buf = ok_inj other buf e in rw same at k

same_size : (n : ℕ) (buf : List ℕ) → Kept n buf → IsBytes buf × (pos (length buf) ≡ pos n)
same_size n buf k = (k.bytes, ap pos k.size)

pub assert_size-pos : (n : ℕ) → assert_size (pos n) ≡ ok tt
unfolding assert_size
assert_size-pos n = let fine : ltb (n + 0) (0 + 0) ≡ false = ground arith in rw fine refl

assert_size-negsuc : (n : ℕ) → assert_size (negsuc n) ≡ err invalid_size
unfolding assert_size
assert_size-negsuc n = let bad : ltb (0 + 0) (0 + suc n) ≡ true = ground arith in rw bad refl

-- Where `alloc` returns a buffer, however it is filled, the buffer is made of bytes, and its length is
-- the size.
pub alloc-IsBytes :
    (lower : List ℕ → List ℕ) (size : ℤ) (value : Option FillValue) (encoding : FillArg)
    (buf : List ℕ)
    → alloc lower size value encoding ≡ ok buf
    → IsBytes buf × (pos (length buf) ≡ size)
unfolding alloc
alloc-IsBytes lower (pos zero) value encoding buf e = same_size zero buf (
    result-Kept zero (create_buffer 0) buf
      (unfold create_buffer in record { bytes = tt; size = refl }) e)
alloc-IsBytes lower (pos (suc n)) value encoding buf e = same_size (suc n) buf (
    result-Kept (suc n) (create_buffer (suc n) >>= λ b. fill_new lower b value encoding) buf
      (created-Kept (suc n) (λ b. fill_new lower b value encoding)
        (λ b k. fill_new-Kept (suc n) lower b value encoding k))
      (rw (assert_size-pos (suc n)) at e))
alloc-IsBytes lower (negsuc n) value encoding buf e =
    let bad : Path (Result (List ℕ)) (err invalid_size) (ok buf) = rw (assert_size-negsuc n) at e in
    absurd (cc bad)
