-- ===== src/Buffer/Fill/Laws.antt =====
-- What `fill` puts into the buffer.
use winterjs.Common.{
  ℕ, zero, suc, ◌+◌, ◌-◌, ◌%◌, ◌<◌, ◌≤◌, ◌≡◌, refl, sym, ap, ◌∙◌, arith, false, ◌==◌, List, [], ◌∷◌,
  length, length-set, set, get_elem?, get_elem?-some, some,
}
use native.Mathlib.Nat.{mod-lt}
use winterjs.Js.{Result, ok, err, invalid_value, IsByte, IsBytes}
use winterjs.Buffer.Window.{splice, splice-nil, splice-set}
use winterjs.Buffer.Blit.Laws.{All-get_elem?}
use winterjs.Buffer.Encoding.Construct.{from_string}
use winterjs.Buffer.Encoding.Construct.Laws.{ok_inj}
use winterjs.Buffer.Fill.{
  FillValue, FillArg, FillArgs, Filler, byte, spelled, pattern_of, view_of, prepare, fill_range,
  fill_byte, fill_bytes, repeat_bytes, fill_with, fill,
}

-- The bytes that a filler repeats; those of a view of the buffer itself change meanwhile.
abbrev pub filler_bytes : (List ℕ → List ℕ) → Filler → Result (List ℕ)
filler_bytes lower (byte value) = ok (value % 256 ∷ [])
filler_bytes lower (spelled string encoding) = from_string lower string encoding
filler_bytes lower (pattern_of bytes) = ok bytes
filler_bytes lower (view_of offset size) = err invalid_value

-- `ds` is `bytes` over and over again, from its element `i` on.
abbrev pub Repeats : List ℕ → ℕ → List ℕ → Type 0
Repeats bytes i ds =
    (k : ℕ) → k < length ds → get_elem? ds k ≡ get_elem? bytes ((i + k) % length bytes)

-- The bytes from `start` on are replaced by `n` bytes that repeat `bytes` from `i` on.
abbrev Filled : List ℕ → List ℕ → ℕ → ℕ → ℕ → List ℕ → Type 0
Filled buf bytes i start n result =
    (ds : List ℕ) × (result ≡ splice buf start ds) × (length ds ≡ n) × Repeats bytes i ds

Repeats-cons :
    (bytes : List ℕ) (i d : ℕ) (ds : List ℕ)
    → get_elem? bytes (i % length bytes) ≡ some d
    → Repeats bytes (i + 1) ds
    → Repeats bytes i (d ∷ ds)
Repeats-cons bytes i d ds first rest zero h = let e : i + 0 ≡ i = omega arith in rw e (sym first)
Repeats-cons bytes i d ds first rest (suc k) h =
    let e : i + suc k ≡ i + 1 + k = omega arith in rw e (rest k (omega arith))

-- One round, and the others.
Filled-step :
    (buf bytes : List ℕ) (i start n d : ℕ) (result : List ℕ)
    → start < length buf
    → get_elem? bytes (i % length bytes) ≡ some d
    → Filled (set buf start d) bytes (i + 1) (start + 1) n result
    → Filled buf bytes i start (suc n) result
Filled-step buf bytes i start n d result inside first (ds, same, size, rest) = (
  d ∷ ds,
  same ∙ splice-set buf start d ds inside,
  ap suc size,
  Repeats-cons bytes i d ds first rest,
)

Filled-none : (buf bytes : List ℕ) (i start : ℕ) → Filled buf bytes i start 0 buf
Filled-none buf bytes i start = ([], sym (splice-nil buf start), refl, λ k h. absurd (omega arith))

fill_byte-Filled :
    (value rounds i k : ℕ) (buf : List ℕ)
    → i + rounds ≤ length buf
    → Filled buf (value % 256 ∷ []) k i rounds (fill_byte value rounds i buf)
unfolding fill_byte
fill_byte-Filled value zero i k buf h = Filled-none buf (value % 256 ∷ []) k i
fill_byte-Filled value (suc rounds) i k buf h =
    Filled-step buf (value % 256 ∷ []) k i rounds (value % 256) _ (omega arith)
      (let e : k % 1 ≡ 0 = omega arith in rw e refl)
      (fill_byte-Filled value rounds (i + 1) (k + 1) (set buf i (value % 256))
        (omega (arith, length-set buf i (value % 256))))

fill_bytes-Filled :
    (bytes : List ℕ) (start rounds i : ℕ) (buf : List ℕ)
    → IsBytes bytes
    → 0 < length bytes
    → i + start + rounds ≤ length buf
    → Filled buf bytes i (i + start) rounds (fill_bytes bytes start rounds i buf)
unfolding fill_bytes
fill_bytes-Filled bytes start zero i buf hb some_bytes h = Filled-none buf bytes i (i + start)
fill_bytes-Filled bytes start (suc rounds) i buf hb some_bytes h =
    let (d, found) = get_elem?-some bytes (i % length bytes) (mod-lt i some_bytes) in
    let small : d % 256 ≡ d =
      omega (arith, All-get_elem? IsByte bytes (i % length bytes) d hb found) in
    let next : i + 1 + start ≡ i + start + 1 = omega arith in
    rw (found, small)
      (Filled-step buf bytes i (i + start) rounds d _ (omega arith) found (
        rw next at (
          fill_bytes-Filled bytes start rounds (i + 1) (set buf (i + start) d) hb some_bytes
            (omega (arith, length-set buf (i + start) d)))))

repeat_bytes-Filled :
    (bytes : List ℕ) (start end : ℕ) (buf : List ℕ)
    → IsBytes bytes
    → 0 < length bytes
    → start ≤ end
    → end ≤ length buf
    → (result : List ℕ) × (repeat_bytes bytes start end buf ≡ ok result)
      × Filled buf bytes 0 start (end - start) result
unfolding repeat_bytes
repeat_bytes-Filled bytes start end buf hb some_bytes order inside =
    let some_left : (length bytes == 0) ≡ false = ground arith in
    (
      fill_bytes bytes start (end - start) 0 buf,
      rw some_left refl,
      rw (let e : 0 + start ≡ start = omega arith in e) at
          (fill_bytes-Filled bytes start (end - start) 0 buf hb some_bytes (omega arith)),
    )

fill_with-Filled :
    (lower : List ℕ → List ℕ) (filler : Filler) (start end : ℕ) (buf bytes : List ℕ)
    → filler_bytes lower filler ≡ ok bytes
    → IsBytes bytes
    → 0 < length bytes
    → start ≤ end
    → end ≤ length buf
    → (result : List ℕ) × (fill_with lower filler (some (start, end)) buf ≡ ok result)
      × Filled buf bytes 0 start (end - start) result
unfolding fill_with
fill_with-Filled lower (byte value) start end buf bytes e hb some_bytes order inside =
    let same : bytes ≡ value % 256 ∷ [] = sym (ok_inj (value % 256 ∷ []) bytes e) in
    (
      fill_byte value (end - start) start buf,
      refl,
      rw same (fill_byte-Filled value (end - start) start 0 buf (omega arith)),
    )
fill_with-Filled lower (spelled string encoding) start end buf bytes e hb some_bytes order inside =
    rw e (repeat_bytes-Filled bytes start end buf hb some_bytes order inside)
fill_with-Filled lower (pattern_of source) start end buf bytes e hb some_bytes order inside =
    let same : source ≡ bytes = ok_inj source bytes e in
    rw same (repeat_bytes-Filled bytes start end buf hb some_bytes order inside)
fill_with-Filled lower (view_of offset size) start end buf bytes e hb some_bytes order inside =
    absurd (cc e)

-- `fill` with the value and the range that the code makes of its arguments.
pub fill-prepared :
    (lower : List ℕ → List ℕ) (buf bytes : List ℕ) (value : FillValue) (args : FillArgs)
    (filler : Filler) (first last : FillArg) (start end : ℕ)
    → prepare lower (length buf) value args ≡ ok (filler, first, last)
    → fill_range (length buf) first last ≡ ok (some (start, end))
    → start ≤ end
    → end ≤ length buf
    → filler_bytes lower filler ≡ ok bytes
    → IsBytes bytes
    → 0 < length bytes
    → (ds : List ℕ) × (fill lower buf value args ≡ ok (splice buf start ds))
      × (length ds ≡ end - start)
      × Repeats bytes 0 ds
unfolding fill
fill-prepared lower buf bytes value args filler first last start end prepared range order inside e
      hb some_bytes =
    let (result, returned, (ds, same, size, repeats)) =
      fill_with-Filled lower filler start end buf bytes e hb some_bytes order inside in
    (ds, rw (prepared, range) (returned ∙ ap ok same), size, repeats)
