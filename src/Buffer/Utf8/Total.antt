-- ===== src/Buffer/Utf8/Total.antt =====
-- `utf8ToBytes` on any string of code units: it returns, with and without a limit.
use winterjs.Common.{
  ℕ, zero, suc, ◌+◌, ◌-◌, ◌*◌, ◌/◌, ◌%◌, ◌^◌, ◌≤◌, ◌<◌, ◌≡◌, refl, ap, inl, inr, arith, true, ◌||◌,
  ltb, List, [], ◌∷◌, ◌++◌, length, length-append, All, All-append, Option, none, some, Bool-cases,
}
use winterjs.Common.Bits.{bit_or-add}
use winterjs.Common.Int.{ℤ, pos, ◌-ℤ◌, ltb_ℤ, ◌≤ℤ◌}
use winterjs.Js.{Result, ok, IsBytes}
use winterjs.Js.Int32.{shl}
use winterjs.Buffer.Utf8.{
  code_point_bytes, emit_bytes, push_replacement, is_surrogate, is_empty, surrogate_pair, encode,
  utf8_to_bytes,
}
use winterjs.Buffer.Utf8.Bytes.{lead_two, lead_three, lead_four, cont_byte}

-- A code unit.
abbrev pub IsUnit : ℕ → Type 0
IsUnit c = c < 65536

code_point_bytes-IsBytes :
    (c : ℕ) → c < 0x110000 → (bs : List ℕ) × (code_point_bytes c ≡ some bs) × IsBytes bs
unfolding code_point_bytes
code_point_bytes-IsBytes c h = elim (Bool-cases (ltb c 0x80)) [
  | inl one ↦ (c ∷ [], (rw one refl), (ground arith, tt))
  | inr more ↦ elim (Bool-cases (ltb c 0x800)) [
    | inl two ↦ (
      (192 + c / 64) ∷ (128 + c % 64) ∷ [],
      rw (more, two, lead_two (c / 64) (ground arith), cont_byte c) refl,
      (ground arith, (omega arith, tt)),
    )
    | inr more2 ↦ elim (Bool-cases (ltb c 0x10000)) [
      | inl three ↦ (
        (224 + c / 4096) ∷ (128 + c / 64 % 64) ∷ (128 + c % 64) ∷ [],
        rw
            (
              more,
              more2,
              three,
              lead_three (c / 4096) (ground arith),
              cont_byte (c / 64),
              cont_byte c,
            )
            refl,
        (ground arith, (omega arith, (omega arith, tt))),
      )
      | inr more3 ↦
          let below : ltb c 0x110000 ≡ true = ground arith in
          (
            (240 + c / 262144) ∷ (128 + c / 4096 % 64) ∷ (128 + c / 64 % 64) ∷ (128 + c % 64) ∷ [],
            rw
                (
                  more,
                  more2,
                  more3,
                  below,
                  lead_four (c / 262144) (omega arith),
                  cont_byte (c / 4096),
                  cont_byte (c / 64),
                  cont_byte c,
                )
                refl,
            (omega arith, (omega arith, (omega arith, (omega arith, tt)))),
          )
    ]
  ]
]

-- With a limit: bytes, and all of `whole` where it fits.
abbrev Limited : (Option ℤ → Result (List ℕ)) → List ℕ → ℤ → Type 0
Limited next whole units =
    (bs : List ℕ) × (next (some units) ≡ ok bs)
    × IsBytes bs
    × (pos (length whole) ≤ℤ units → bs ≡ whole)

-- A step that returns bytes, whatever its limit.
record Encoded (next : Option ℤ → Result (List ℕ)) : Type 0 where
  whole : List ℕ
  returned : next none ≡ ok whole
  bytes : IsBytes whole
  limited : (units : ℤ) → Limited next whole units

spend-fits : (a b : ℕ) (units : ℤ) → pos (a + b) ≤ℤ units → pos b ≤ℤ units -ℤ pos a
unfolding ◌-ℤ◌
spend-fits a b units h = ground arith

over-fits : (a b : ℕ) (units : ℤ) → ltb_ℤ (units -ℤ pos a) (pos 0) ≡ true → ¬ (pos (a + b) ≤ℤ units)
unfolding ◌-ℤ◌
over-fits a b units over h = ground arith

Encoded-emit :
    (bytes : List ℕ) (next : Option ℤ → Result (List ℕ))
    → IsBytes bytes
    → Encoded next
    → Encoded (λ units. emit_bytes (some bytes) units next)
Encoded-emit bytes next hb k = record {
  whole = bytes ++ k.whole;
  returned = rw k.returned refl;
  bytes = All-append _ bytes k.whole hb k.bytes;
  limited = λ units. elim (Bool-cases (ltb_ℤ (units -ℤ pos (length bytes)) (pos 0))) [
    | inl over ↦ (
      [],
      rw over refl,
      tt,
      λ fits. absurd (
          over-fits (length bytes) (length k.whole) units over
            (rw (length-append bytes k.whole) at fits)),
    )
    | inr within ↦
        let rest = k.limited (units -ℤ pos (length bytes)) in
        (
          bytes ++ rest.0,
          rw (within, rest.1) refl,
          All-append _ bytes rest.0 hb rest.2,
          λ fits. ap (bytes ++◌) (
              rest.3 (
                spend-fits (length bytes) (length k.whole) units
                  (rw (length-append bytes k.whole) at fits))),
        )
  ];
}

Encoded-replacement :
    (next : Option ℤ → Result (List ℕ))
    → Encoded next
    → Encoded (λ units. push_replacement units next)
Encoded-replacement next k = record {
  whole = 0xEF ∷ 0xBF ∷ 0xBD ∷ k.whole;
  returned = rw k.returned refl;
  bytes = (omega arith, (omega arith, (omega arith, k.bytes)));
  limited = λ units.
      let rest = k.limited (units -ℤ pos 3) in
      elim (Bool-cases (ltb_ℤ (units -ℤ pos 3) (pos 0))) [
        | inl over ↦ (
          rest.0,
          rw (rest.1, over) refl,
          rest.2,
          λ fits. absurd (over-fits 3 (length k.whole) units over (omega arith)),
        )
        | inr within ↦ (
          0xEF ∷ 0xBF ∷ 0xBD ∷ rest.0,
          rw (rest.1, within) refl,
          (omega arith, (omega arith, (omega arith, rest.2))),
          λ fits.
              ap (λ bs. 0xEF ∷ 0xBF ∷ 0xBD ∷ bs)
                (rest.3 (spend-fits 3 (length k.whole) units (omega arith))),
        )
      ];
}

-- What `leadSurrogate` holds.
abbrev IsLead : Option ℕ → Type 0
IsLead none = Unit {0}
IsLead (some l) = (0xD7FF < l) × (l < 0xDC00)

pair-lt :
    (l c : ℕ) → 0xD7FF < l → l < 0xDC00 → 0xDBFF < c → c < 0xE000 → surrogate_pair l c < 0x110000
pair-lt l c h h' k k' =
    let small : shl (l - 0xD800) 10 ≡ (l - 0xD800) * 2 ^ 10 = omega arith in
    rw (small, bit_or-add 10 (l - 0xD800) (c - 0xDC00) (omega arith)) (omega arith)

encode-Encoded :
    (string : List ℕ) (lead : Option ℕ)
    → All IsUnit string
    → IsLead lead
    → Encoded (λ units. encode string lead units)
unfolding encode
encode-Encoded [] lead h hl = record {
  whole = [];
  returned = refl;
  bytes = tt;
  limited = λ units. ([], refl, tt, λ fits. refl);
}
encode-Encoded (c ∷ rest) none (hc, h) hl = elim (Bool-cases (is_surrogate c)) [
  | inl surrogate ↦ elim (Bool-cases (ltb 0xDBFF c || is_empty rest)) [
    | inl alone ↦
        rw (surrogate, alone)
          (Encoded-replacement (encode rest none) (encode-Encoded rest none h tt))
    | inr lead ↦ rw (surrogate, lead) (encode-Encoded rest (some c) h (ground arith, grind arith))
  ]
  | inr plain ↦
      let one = code_point_bytes-IsBytes c (omega arith) in
      rw (plain, one.1)
        (Encoded-emit one.0 (encode rest none) one.2 (encode-Encoded rest none h tt))
]
encode-Encoded (c ∷ rest) (some l) (hc, h) (low, high) = elim (Bool-cases (is_surrogate c)) [
  | inl surrogate ↦ elim (Bool-cases (ltb c 0xDC00)) [
    | inl again ↦
        rw (surrogate, again)
          (Encoded-replacement (encode rest (some c))
            (encode-Encoded rest (some c) h (ground arith, ground arith)))
    | inr pair ↦
        let two =
          code_point_bytes-IsBytes (surrogate_pair l c)
            (pair-lt l c low high (ground arith) (ground arith)) in
        rw (surrogate, pair, two.1)
          (Encoded-emit two.0 (encode rest none) two.2 (encode-Encoded rest none h tt))
  ]
  | inr plain ↦
      let one = code_point_bytes-IsBytes c (omega arith) in
      rw (plain, one.1)
        (Encoded-replacement (λ left. emit_bytes (some one.0) left (encode rest none))
          (Encoded-emit one.0 (encode rest none) one.2 (encode-Encoded rest none h tt)))
]

-- Every string of code units is encoded: without a limit, and with one of `limit` bytes, where the
-- result is the same when that has the room.
pub utf8_to_bytes_total :
    (string : List ℕ)
    → All IsUnit string
    → (whole : List ℕ) × (utf8_to_bytes string none ≡ ok whole)
      × IsBytes whole
      × ((limit : ℕ)
          → (bs : List ℕ) × (utf8_to_bytes string (some limit) ≡ ok bs)
            × IsBytes bs
            × (length whole ≤ limit → bs ≡ whole))
unfolding utf8_to_bytes
utf8_to_bytes_total string h = (k.whole, k.returned, k.bytes, at_limit)
  where
    k : Encoded (encode string none)
    k = encode-Encoded string none h tt

    at_limit :
        (limit : ℕ)
        → (bs : List ℕ) × (utf8_to_bytes string (some limit) ≡ ok bs)
          × IsBytes bs
          × (length k.whole ≤ limit → bs ≡ k.whole)
    at_limit zero = (k.whole, k.returned, k.bytes, λ fits. refl)
    at_limit (suc n) = let r = k.limited (pos (suc n)) in (r.0, r.1, r.2, λ fits. r.3 (omega arith))
