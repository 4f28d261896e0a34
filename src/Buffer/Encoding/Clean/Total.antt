-- ===== src/Buffer/Encoding/Clean/Total.antt =====
-- `base64ToBytes` returns bytes for every string.
use winterjs.Common.{
  ℕ, zero, suc, ◌+◌, ◌-◌, ◌*◌, ◌/◌, ◌%◌, ◌≤◌, ◌<◌, true, ◌==◌, ltb, ◌≡◌, ◌≢◌, refl, sym, List, [],
  ◌∷◌, ◌++◌, length, length-append, append-nil, replicate, length-replicate, All, arith, inl, inr,
  Bool-cases,
}
use winterjs.Js.{IsBytes, ok}
use winterjs.Base64.{decode_loop, decode_tail, get_lens, to_byte_array}
use winterjs.Base64.Encode.{NoPad}
use winterjs.Base64.RoundTrip.{get_lens-NoPad, get_lens-pad}
use winterjs.Base64.Decode.{to_byte_array-lens}
use winterjs.Buffer.Window.{store-IsBytes}
use winterjs.Buffer.Encoding.Clean.{
  before_pad, trim_start, trim_end, is_base64, drop_invalid, base64_clean, base64_to_bytes,
}
use winterjs.Buffer.Encoding.Clean.Laws.{IsKept, pad_loop-replicate}

decode_loop-IsBytes :
    (rounds : ℕ) (b64 : List ℕ) (cur : ℕ) (arr : List ℕ)
    → IsBytes arr
    → IsBytes ((decode_loop rounds b64 cur arr).2)
unfolding decode_loop
decode_loop-IsBytes zero b64 cur arr h = h
decode_loop-IsBytes (suc rounds) b64 cur arr h =
    decode_loop-IsBytes rounds _ _ _
      (store-IsBytes _ (cur + 2) _ (store-IsBytes _ (cur + 1) _ (store-IsBytes arr cur _ h)))

decode_tail-IsBytes :
    (place_holders : ℕ) (b64 : List ℕ) (cur : ℕ) (arr : List ℕ)
    → IsBytes arr
    → IsBytes (decode_tail place_holders (b64, cur, arr))
unfolding decode_tail
decode_tail-IsBytes place_holders b64 cur arr h = elim (Bool-cases (place_holders == 2)) [
  | inl two ↦ rw two (store-IsBytes arr cur _ h)
  | inr other ↦ elim (Bool-cases (place_holders == 1)) [
    | inl one ↦ rw (other, one) (store-IsBytes _ (cur + 1) _ (store-IsBytes arr cur _ h))
    | inr none ↦ rw (other, none) h
  ]
]

replicate-IsBytes : (n : ℕ) → IsBytes (replicate n 0)
replicate-IsBytes zero = tt
replicate-IsBytes (suc n) = (omega arith, replicate-IsBytes n)

drop_invalid-IsKept : (cs : List ℕ) → All IsKept (drop_invalid cs)
drop_invalid-IsKept [] = tt
drop_invalid-IsKept (c ∷ cs) = elim (Bool-cases (is_base64 c)) [
  | inl good ↦ rw good (good, drop_invalid-IsKept cs)
  | inr bad ↦ rw bad (drop_invalid-IsKept cs)
]

IsKept-NoPad : (cs : List ℕ) → All IsKept cs → NoPad cs
IsKept-NoPad [] h = tt
IsKept-NoPad (c ∷ cs) (hc, h) = (
  λ e. true_ne_false (sym (let here : is_base64 b'=' ≡ true = rw e at hc in here)),
  IsKept-NoPad cs h,
)
  where
    true_ne_false : true ≢ is_base64 b'='
    true_ne_false e = absurd (cc e)

-- Whatever decoder's lengths the text has, it is decoded to bytes.
decoded :
    (text : List ℕ) (v p : ℕ)
    → get_lens text ≡ ok (v, p)
    → p ≤ (v + p) * 3 / 4
    → (bs : List ℕ) × (to_byte_array text ≡ ok bs) × IsBytes bs
decoded text v p lens below = (
  _,
  to_byte_array-lens text v p lens below,
  decode_tail-IsBytes p _ _ _
      (decode_loop-IsBytes _ text 0 _ (replicate-IsBytes ((v + p) * 3 / 4 - p))),
)

padded :
    (cs : List ℕ) (p : ℕ)
    → All IsKept cs
    → 2 ≤ length cs
    → p < 4
    → (length cs + p) % 4 ≡ 0
    → (bs : List ℕ) × (to_byte_array (cs ++ replicate p b'=') ≡ ok bs) × IsBytes bs
padded cs zero kept long few whole = rw append-nil (
    decoded cs (length cs) 0 (get_lens-NoPad cs (IsKept-NoPad cs kept) (omega arith)) (omega arith))
padded cs (suc p) kept long few whole =
    decoded (cs ++ b'=' ∷ replicate p b'=') (length cs) (4 - length cs % 4)
      (get_lens-pad cs (replicate p b'=') (IsKept-NoPad cs kept) (
        omega (arith, length-append cs (b'=' ∷ replicate p b'='), length-replicate {A = ℕ} p b'=')))
      (omega arith)

-- Every string is decoded as base64 without an error, and what comes out are bytes.
pub base64_to_bytes_total :
    (str : List ℕ) → (bs : List ℕ) × (base64_to_bytes str ≡ ok bs) × IsBytes bs
unfolding base64_to_bytes base64_clean
base64_to_bytes_total str = elim (Bool-cases (ltb (length kept) 2)) [
  | inl short ↦ rw short ([], (unfold to_byte_array in refl), tt)
  | inr long ↦
      let p = (4 - length kept % 4) % 4 in
      rw (long, pad_loop-replicate 3 p kept (omega arith) (omega arith) (omega arith))
        (padded kept p (drop_invalid-IsKept (trim_end (trim_start (before_pad str)))) (ground arith)
          (omega arith) (omega arith))
]
  where
    kept : List ℕ
    kept = drop_invalid (trim_end (trim_start (before_pad str)))
