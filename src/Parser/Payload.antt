-- ===== src/Parser/Payload.antt =====
-- src/request_parser.cpp, `determine_body_length`: the length that a message with a body declares.
use network_arc_rajasurya.Prelude.{
  ℕ, ◌+◌, ◌-◌, ◌*◌, ◌≤◌, ◌<◌, ◌^◌, ◌≡◌, refl, ap, ◌∙◌, true, false, List, [], ◌∷◌, ◌++◌, Option,
  none, some, Bytes, codes, length, le→ltb, ◌==◌, all_of, is_digit, u64, to_string, arith,
}
use network_arc_rajasurya.Text.{iequals, trim_whitespace, trim_front, trim_back}
use network_arc_rajasurya.Request.{Header}
use network_arc_rajasurya.Calculator.{decimal}
use network_arc_rajasurya.Calculator.RoundTrip.{to_string-Written}
use network_arc_rajasurya.Parser.Result.{ok}
use network_arc_rajasurya.Parser.RequestLine.{is_token}
use network_arc_rajasurya.Parser.HeaderLine.{is_value_char}
use network_arc_rajasurya.Parser.Fields.{AreHeaders}
use network_arc_rajasurya.Parser.BodyLength.{
  Framing, note_framing, scan_framing, read_digits, parse_length, determine_body_length,
}

-- No header of the list declares how the body is framed.
abbrev pub AreUnframed : List Header → Type 0
AreUnframed [] = Unit {0}
AreUnframed (h ∷ hs) =
    (iequals h.name (codes "Content-Length") ≡ false)
    × (iequals h.name (codes "Transfer-Encoding") ≡ false)
    × AreUnframed hs

-- The header that goes with a body, if there is one.
abbrev pub framing_of : Option Bytes → List Header
framing_of none = []
framing_of (some bytes) =
    record { name = codes "Content-Length"; value = to_string (length bytes) } ∷ []

abbrev pub payload_of : Option Bytes → Bytes
payload_of none = []
payload_of (some bytes) = bytes

note_framing-unframed :
    (h : Header) (f : Framing)
    → iequals h.name (codes "Content-Length") ≡ false
    → iequals h.name (codes "Transfer-Encoding") ≡ false
    → note_framing h f ≡ f
unfolding note_framing
note_framing-unframed h f c t = rw (c, t) refl

scan_framing-unframed :
    (hs gs : List Header) (f : Framing)
    → AreUnframed hs
    → scan_framing (hs ++ gs) f ≡ scan_framing gs f
unfolding scan_framing
scan_framing-unframed [] gs f u = refl
scan_framing-unframed (h ∷ hs) gs f (c, t, u) =
    ap (scan_framing (hs ++ gs)) (note_framing-unframed h f c t) ∙ scan_framing-unframed hs gs f u

decimal-le : (v : ℕ) (text : Bytes) → v ≤ decimal v text
unfolding decimal
decimal-le v [] = omega arith
decimal-le v (c ∷ cs) = omega (arith, decimal-le (v * 10 + (c - b'0')) cs)

read_digits-fits :
    (max v : ℕ) (text : Bytes)
    → max < 2 ^ 64
    → all_of is_digit text ≡ true
    → decimal v text ≤ max
    → read_digits max text (record { value = v; too_large = false })
      ≡ some (record { value = decimal v text; too_large = false })
unfolding read_digits all_of decimal
read_digits-fits max v [] m h b = refl
read_digits-fits max v (c ∷ cs) m h b =
    let next : ℕ = v * 10 + (c - b'0') in
    let small : next ≤ max = omega (arith, decimal-le next cs) in
    let same : u64 next ≡ next = omega arith in
    let digit : is_digit c ≡ true = ground arith in
    let rest : all_of is_digit cs ≡ true = ground arith in
    rw (digit, same, le→ltb max next small) (read_digits-fits max next cs m rest b)

to_string-digits : (n : ℕ) → all_of is_digit (to_string n) ≡ true
to_string-digits n = (to_string-Written n).digits ∙ (unfold all_of in refl)

parse_length-to_string :
    (max n : ℕ) → max < 2 ^ 64 → n ≤ max → parse_length max (to_string n) ≡ ok n
unfolding parse_length
parse_length-to_string max n m h =
    let value : decimal 0 (to_string n) ≡ n =
      (to_string-Written n).value ∙ (unfold decimal in refl) in
    let read = read_digits-fits max 0 (to_string n) m (to_string-digits n) (omega (arith, value)) in
    ground (arith, read) ∙ ap ok value

abbrev no_framing : Framing
no_framing = record { length_headers = 0; length_text = []; has_transfer_encoding = false }

scan_framing-length :
    (n : ℕ)
    → scan_framing (record { name = codes "Content-Length"; value = to_string n } ∷ []) no_framing
      ≡ record { length_headers = 1; length_text = to_string n; has_transfer_encoding = false }
unfolding scan_framing iequals codes
scan_framing-length n = refl

-- The declared length is that of the payload.
pub determine-framing_of :
    (hs : List Header) (p : Option Bytes) (max : ℕ)
    → AreUnframed hs
    → max < 2 ^ 64
    → length (payload_of p) ≤ max
    → determine_body_length (hs ++ framing_of p) max ≡ ok (length (payload_of p))
unfolding determine_body_length
determine-framing_of hs none max u m h = rw (scan_framing-unframed hs [] no_framing u) refl
determine-framing_of hs (some bytes) max u m h =
    rw
      (
        scan_framing-unframed hs (framing_of (some bytes)) no_framing u,
        scan_framing-length (length bytes),
        (to_string-Written (length bytes)).nonempty,
        parse_length-to_string max (length bytes) m h,
      )
      refl

trim_back-kept : (c d : ℕ) (cs ds : Bytes) → trim_back cs ≡ d ∷ ds → trim_back (c ∷ cs) ≡ c ∷ d ∷ ds
unfolding trim_back
trim_back-kept c d cs ds e = ground (arith, e)

trim_back-digits : (text : Bytes) → all_of is_digit text ≡ true → trim_back text ≡ text
unfolding trim_back all_of is_digit
trim_back-digits [] h = refl
trim_back-digits (c ∷ []) h = ground arith
trim_back-digits (c ∷ d ∷ ds) h =
    trim_back-kept c d (d ∷ ds) ds (trim_back-digits (d ∷ ds) (ground arith))

trim-digits : (text : Bytes) → all_of is_digit text ≡ true → trim_whitespace text ≡ text
unfolding trim_whitespace all_of is_digit
trim-digits [] h = refl
trim-digits (c ∷ cs) h =
    let (no_space, no_tab) = not_blank c cs h in
    (unfold trim_front in rw (no_space, no_tab) (trim_back-digits (c ∷ cs) h))
  where
    not_blank :
        (c : ℕ) (cs : Bytes)
        → all_of is_digit (c ∷ cs) ≡ true
        → ((c == b' ') ≡ false) × ((c == b'\t') ≡ false)
    not_blank c cs h = (ground arith, ground arith)

value-digits : (text : Bytes) → all_of is_digit text ≡ true → all_of is_value_char text ≡ true
unfolding all_of is_digit
value-digits [] h = refl
value-digits (c ∷ cs) h = ground (arith, value-digits cs)

pub framing_of-AreHeaders : (p : Option Bytes) → AreHeaders (framing_of p)
unfolding codes is_token
framing_of-AreHeaders none = tt
framing_of-AreHeaders (some bytes) =
    let digits = to_string-digits (length bytes) in
    (
      record {
        is_name = refl;
        is_value = value-digits _ digits;
        is_trimmed = trim-digits _ digits;
      },
      tt,
    )
