-- ===== src/Query/Escapes.antt =====
-- src/query.cpp: `percent_decode` reads back any percent encoding.
use mathlib.Core.Option
use network_arc_rajasurya.Prelude.{
  ℕ, ◌+◌, ◌-◌, ◌*◌, ◌/◌, ◌%◌, ◌<◌, ◌≡◌, refl, ap, ◌∙◌, Bool, true, false, [], ◌∷◌, some, Bytes, ltb,
  ◌==◌, if◌then◌else◌, arith, either_case, all_of,
}
use network_arc_rajasurya.Query.{hex_value, percent_decode}

abbrev pub hex_digit : ℕ → ℕ
hex_digit n = if ltb n 10 then b'0' + n else b'A' + (n - 10)

-- The text with the bytes that `reserved` names written as escapes, and perhaps others.
unfoldable pub encode : (ℕ → Bool) → Bytes → Bytes
encode reserved [] = []
encode reserved (b ∷ bs) =
    let rest = encode reserved bs in
    if reserved b then b'%' ∷ hex_digit (b / 16) ∷ hex_digit (b % 16) ∷ rest else b ∷ rest

abbrev pub are_bytes : Bytes → Bool
are_bytes = all_of (λ b. ltb b 256)

hex_value-hex_digit : (n : ℕ) → n < 16 → hex_value (hex_digit n) ≡ some n
unfolding hex_value
hex_value-hex_digit n h = ground arith

percent_decode-plain :
    (c : ℕ) (rest : Bytes)
    → (c == b'%') ≡ false
    → percent_decode (c ∷ rest) ≡ Option.map (◌∷◌ c) (percent_decode rest)
unfolding percent_decode
percent_decode-plain c [] h = rw h refl
percent_decode-plain c (d ∷ []) h = rw h refl
percent_decode-plain c (d ∷ e ∷ rest) h = rw h refl

percent_decode-escape :
    (high low : ℕ) (rest text : Bytes)
    → high < 16
    → low < 16
    → percent_decode rest ≡ some text
    → percent_decode (b'%' ∷ hex_digit high ∷ hex_digit low ∷ rest)
      ≡ some ((high * 16 + low) ∷ text)
unfolding percent_decode
percent_decode-escape high low rest text h l e =
    rw (hex_value-hex_digit high h, hex_value-hex_digit low l, e) refl

-- Whichever bytes are written as escapes, as long as '%' is one of them, decoding gives the text,
-- where the text is one of bytes.
pub percent_decode-encode :
    (reserved : ℕ → Bool) (text : Bytes)
    → reserved b'%' ≡ true
    → are_bytes text ≡ true
    → percent_decode (encode reserved text) ≡ some text
unfolding encode all_of
percent_decode-encode reserved [] percent bytes = unfold percent_decode in refl
percent_decode-encode reserved (b ∷ bs) percent bytes =
    let rest = percent_decode-encode reserved bs percent (ground arith) in
    either_case (λ t. percent_decode t ≡ some (b ∷ bs)) (reserved b) _ _
      (λ escaped.
        percent_decode-escape (b / 16) (b % 16) _ bs (ground arith) (ground arith) rest
        ∙ ap (λ x. some (x ∷ bs)) (omega arith))
      (λ plain.
        percent_decode-plain b _ (not_percent reserved b percent plain)
        ∙ ap (Option.map (◌∷◌ b)) rest)
  where
    not_percent :
        (reserved : ℕ → Bool) (b : ℕ)
        → reserved b'%' ≡ true
        → reserved b ≡ false
        → (b == b'%') ≡ false
    not_percent reserved b h k = ground arith
