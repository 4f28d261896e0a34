-- ===== src/Buffer/Utf8/Bounds.antt =====
-- The limit of the encoder, and the rounds of the decoder.
use winterjs.Common.{
  ℕ, zero, suc, ◌+◌, ◌-◌, ◌≤◌, ◌≡◌, refl, sym, ap, inl, inr, arith, false, ◌||◌, ltb, if◌then◌else◌,
  List, [], ◌∷◌, ◌++◌, length, length-append, length-drop, drop, Option, none, some, Bool-cases,
  Option-cases,
}
use winterjs.Common.Int.{ℤ, pos, pos_part, ◌-ℤ◌, ltb_ℤ}
use winterjs.Js.{Result, ok, err, ◌>>=◌}
use winterjs.Buffer.Utf8.{
  code_point_bytes, emit_bytes, push_replacement, is_surrogate, is_empty, surrogate_pair, encode,
  utf8_to_bytes, bytes_per_sequence, code_point, code_units, decode,
}

-- A step that keeps to the limit that it is given.
abbrev KeepsLimit : (Option ℤ → Result (List ℕ)) → Type 0
KeepsLimit next = (units : ℤ) (bs : List ℕ) → next (some units) ≡ ok bs → length bs ≤ pos_part units

ok_inj : (a b : List ℕ) → Path (Result (List ℕ)) (ok a) (ok b) → a ≡ b
ok_inj a b e = cc e

spent :
    (n m : ℕ) (units : ℤ)
    → ltb_ℤ (units -ℤ pos n) (pos 0) ≡ false
    → m ≤ pos_part (units -ℤ pos n)
    → n + m ≤ pos_part units
unfolding ◌-ℤ◌
spent n m units h le = ground arith

spent_over : (n m : ℕ) (units : ℤ) → m ≤ pos_part (units -ℤ pos n) → m ≤ pos_part units
unfolding ◌-ℤ◌
spent_over n m units le = ground arith

emit_bytes-limit :
    (code : Option (List ℕ)) (next : Option ℤ → Result (List ℕ))
    → KeepsLimit next
    → KeepsLimit (λ units. emit_bytes code units next)
emit_bytes-limit none next h units bs e = absurd (cc e)
emit_bytes-limit (some bytes) next h units bs e =
    elim (Bool-cases (ltb_ℤ (units -ℤ pos (length bytes)) (pos 0))) [
      | inl over ↦
          let none_left : [] ≡ bs = ok_inj [] bs (rw over at e) in rw (sym none_left) (omega arith)
      | inr fits ↦ after (next (some (units -ℤ pos (length bytes)))) refl fits (rw fits at e)
    ]
  where
    after :
        (r : Result (List ℕ))
        → next (some (units -ℤ pos (length bytes))) ≡ r
        → ltb_ℤ (units -ℤ pos (length bytes)) (pos 0) ≡ false
        → (r >>= λ more. ok (bytes ++ more)) ≡ ok bs
        → length bs ≤ pos_part units
    after (err error) e1 fits e2 = absurd (cc e2)
    after (ok more) e1 fits e2 =
        rw (sym (ok_inj (bytes ++ more) bs e2), length-append bytes more)
          (spent (length bytes) (length more) units fits (h (units -ℤ pos (length bytes)) more e1))

push_replacement-limit :
    (next : Option ℤ → Result (List ℕ))
    → KeepsLimit next
    → KeepsLimit (λ units. push_replacement units next)
push_replacement-limit next h units bs e = after (next (some (units -ℤ pos 3))) refl e
  where
    after :
        (r : Result (List ℕ))
        → next (some (units -ℤ pos 3)) ≡ r
        → (r >>= λ more.
            ok (if ltb_ℤ (units -ℤ pos 3) (pos 0) then more else 0xEF ∷ 0xBF ∷ 0xBD ∷ more))
          ≡ ok bs
        → length bs ≤ pos_part units
    after (err error) e1 e2 = absurd (cc e2)
    after (ok more) e1 e2 =
        let le = h (units -ℤ pos 3) more e1 in
        elim (Bool-cases (ltb_ℤ (units -ℤ pos 3) (pos 0))) [
          | inl over ↦
              rw (sym (ok_inj more bs (rw over at e2))) (spent_over 3 (length more) units le)
          | inr fits ↦
              let all = spent 3 (length more) units fits le in
              rw (sym (ok_inj (0xEF ∷ 0xBF ∷ 0xBD ∷ more) bs (rw fits at e2))) (omega (arith, all))
        ]

encode-limit : (string : List ℕ) (lead : Option ℕ) → KeepsLimit (encode string lead)
unfolding encode
encode-limit [] lead units bs e = let same = ok_inj [] bs e in rw (sym same) (omega arith)
encode-limit (c ∷ rest) none units bs e = elim (Bool-cases (is_surrogate c)) [
  | inl surrogate ↦ elim (Bool-cases (ltb 0xDBFF c || is_empty rest)) [
    | inl alone ↦
        push_replacement-limit (encode rest none) (encode-limit rest none) units bs
          (rw (surrogate, alone) at e)
    | inr lead ↦ encode-limit rest (some c) units bs (rw (surrogate, lead) at e)
  ]
  | inr plain ↦
      emit_bytes-limit (code_point_bytes c) (encode rest none) (encode-limit rest none) units bs
        (rw plain at e)
]
encode-limit (c ∷ rest) (some l) units bs e = elim (Bool-cases (is_surrogate c)) [
  | inl surrogate ↦ elim (Bool-cases (ltb c 0xDC00)) [
    | inl again ↦
        push_replacement-limit (encode rest (some c)) (encode-limit rest (some c)) units bs
          (rw (surrogate, again) at e)
    | inr pair ↦
        emit_bytes-limit (code_point_bytes (surrogate_pair l c)) (encode rest none)
          (encode-limit rest none) units bs (rw (surrogate, pair) at e)
  ]
  | inr plain ↦
      push_replacement-limit (λ left. emit_bytes (code_point_bytes c) left (encode rest none))
        (emit_bytes-limit (code_point_bytes c) (encode rest none) (encode-limit rest none)) units bs
        (rw plain at e)
]

-- With a limit that is not 0, the encoder gives no more bytes than the limit.
pub length-utf8_to_bytes :
    (string : List ℕ) (n : ℕ) (bs : List ℕ)
    → utf8_to_bytes string (some (suc n)) ≡ ok bs
    → length bs ≤ suc n
unfolding utf8_to_bytes
length-utf8_to_bytes string n bs e = encode-limit string none (pos (suc n)) bs e

-- The decoder has enough rounds: one for each byte, and more change nothing.
decode_enough :
    (r r' : ℕ) (bs : List ℕ) → length bs ≤ r → length bs ≤ r' → decode r bs ≡ decode r' bs
unfolding decode
decode_enough zero zero bs h h' = refl
decode_enough zero (suc r') [] h h' = refl
decode_enough zero (suc r') (b ∷ bs) h h' = absurd (omega arith)
decode_enough (suc r) zero [] h h' = refl
decode_enough (suc r) zero (b ∷ bs) h h' = absurd (omega arith)
decode_enough (suc r) (suc r') [] h h' = refl
decode_enough (suc r) (suc r') (b ∷ bs) h h' = elim (Option-cases (code_point b bs)) [
  | inl bad ↦ rw (bad, decode) (ap (0xFFFD ∷◌) (decode_enough r r' bs (omega arith) (omega arith)))
  | inr (c, good) ↦
      let rest = drop (bytes_per_sequence b - 1) bs in
      let shorter = length-drop (bytes_per_sequence b - 1) bs in
      rw (good, decode)
        (ap (code_units c ++◌)
          (decode_enough r r' rest (omega (arith, shorter)) (omega (arith, shorter))))
]
