-- ===== src/DemoClient/Heads.antt =====
-- tools/demo_client.cpp, `ResponseReader`: the parse of a head made of a status line and of fields.
use network_arc_rajasurya.Prelude.{
  all_of-append, lines_text, drop-line, ℕ, zero, suc, ◌+◌, ◌≡◌, ◌≤◌, ◌<◌, ◌^◌, refl, ◌∙◌, true,
  false, List, [], ◌∷◌, ◌++◌, map, none, some, Bytes, cr, lf, codes, equal, find, take, length,
  is_empty, front_is, is_digit, to_string, all_of, length-append, take-length-append, arith,
}
use network_arc_rajasurya.Prelude.Int.{pos}
use network_arc_rajasurya.Calculator.RoundTrip.{to_string-Written}
use network_arc_rajasurya.Query.RoundTrip.{find-append, is_empty-append, drop-separator}
use network_arc_rajasurya.DemoClient.Numbers.{stoi-to_string}
use network_arc_rajasurya.DemoClient.Reader.{
  Field, strip_spaces, parse_field, parse_fields, parse_status, with_length, first_value, read_head,
}
use network_arc_rajasurya.DemoClient.Lines.{not_cr, AreLines, find_crlf-line}

abbrev pub field_line : Field → Bytes
field_line f = f.key ++ b':' ∷ b' ' ∷ f.value

-- The name holds no colon, name and value no CR, and the value begins with no blank.
pub record IsPlain (f : Field) : Type 0 where
  pub no_colon : find b':' f.key ≡ none
  pub key_line : all_of not_cr f.key ≡ true
  pub value_line : all_of not_cr f.value ≡ true
  pub no_space : front_is b' ' f.value ≡ false

abbrev pub ArePlain : List Field → Type 0
ArePlain [] = Unit {0}
ArePlain (f ∷ fs) = IsPlain f × ArePlain fs

strip_spaces-plain : (v : Bytes) → front_is b' ' v ≡ false → strip_spaces v ≡ v
unfolding strip_spaces
strip_spaces-plain [] h = refl
strip_spaces-plain (c ∷ cs) h = rw h refl

parse_field-line : (f : Field) → IsPlain f → parse_field (field_line f) ≡ f
parse_field-line f p =
    let colon = find-append b':' f.key (b' ' ∷ f.value) p.no_colon in
    let value : strip_spaces (b' ' ∷ f.value) ≡ f.value =
      (unfold strip_spaces in strip_spaces-plain f.value p.no_space) in
    rw (colon, take-length-append, drop-separator, value) refl

field_line-IsLine : (f : Field) → IsPlain f → all_of not_cr (field_line f) ≡ true
field_line-IsLine f p = all_of-append not_cr f.key _ p.key_line (unfold all_of in p.value_line)

pub field_lines-AreLines : (fs : List Field) → ArePlain fs → AreLines (map field_line fs)
field_lines-AreLines [] h = tt
field_lines-AreLines (f ∷ fs) (p, h) =
    (is_empty-append f.key _ b':', field_line-IsLine f p, field_lines-AreLines fs h)

parse_fields-line :
    (fuel : ℕ) (l text : Bytes)
    → is_empty l ≡ false
    → all_of not_cr l ≡ true
    → parse_fields (suc fuel) (l ++ cr ∷ lf ∷ text) ≡ parse_field l ∷ parse_fields fuel text
unfolding parse_fields
parse_fields-line fuel [] text e h = cc
parse_fields-line fuel (c ∷ cs) text e h =
    rw (find_crlf-line (c ∷ cs) text h, take-length-append cs (cr ∷ lf ∷ text), drop-line cs text)
      refl

-- Every field is read back.
pub parse_fields-lines :
    (fuel : ℕ) (fs : List Field)
    → ArePlain fs
    → length (lines_text (map field_line fs)) ≤ fuel
    → parse_fields fuel (lines_text (map field_line fs)) ≡ fs
parse_fields-lines zero [] h b = unfold parse_fields in refl
parse_fields-lines (suc fuel) [] h b = unfold parse_fields in refl
parse_fields-lines zero (f ∷ fs) h b =
    absurd (omega (arith, length-append (field_line f) (cr ∷ lf ∷ lines_text (map field_line fs))))
parse_fields-lines (suc fuel) (f ∷ fs) (p, h) b =
    parse_fields-line fuel (field_line f) _ (is_empty-append f.key _ b':') (field_line-IsLine f p)
    ∙ rw
        (
          parse_field-line f p,
          parse_fields-lines fuel fs h (
              omega
                (arith, length-append (field_line f) (cr ∷ lf ∷ lines_text (map field_line fs)))),
        )
        refl

find-digits : (text : Bytes) → all_of is_digit text ≡ true → find b' ' text ≡ none
unfolding find all_of is_digit
find-digits [] h = refl
find-digits (c ∷ cs) h = ground (arith, find-digits cs)

pub digits-not_cr : (text : Bytes) → all_of is_digit text ≡ true → all_of not_cr text ≡ true
unfolding all_of is_digit
digits-not_cr [] h = refl
digits-not_cr (c ∷ cs) h = ground (arith, digits-not_cr cs)

pub to_string-digits : (n : ℕ) → all_of is_digit (to_string n) ≡ true
to_string-digits n = (to_string-Written n).digits ∙ (unfold all_of in refl)

abbrev pub status_line : ℕ → Bytes → Bytes
unfolding codes
status_line n phrase = codes "HTTP/1.1 " ++ (to_string n ++ b' ' ∷ phrase)

find-status_line : (n : ℕ) (phrase : Bytes) → find b' ' (status_line n phrase) ≡ some 8
unfolding find codes
find-status_line n phrase = refl

-- The status and the reason are read back.
pub parse_status-line :
    (n : ℕ) (phrase : Bytes)
    → n < 2 ^ 31
    → parse_status (status_line n phrase) ≡ some (record { code = pos n; phrase = phrase })
unfolding parse_status codes
parse_status-line n phrase h =
    rw
      (
        find-status_line n phrase,
        find-append b' ' (to_string n) phrase (find-digits _ (to_string-digits n)),
        take-length-append (to_string n) (b' ' ∷ phrase),
        drop-separator (to_string n) phrase b' ',
        stoi-to_string n h,
      )
      (unfold equal in refl)

pub digits-front : (text : Bytes) → all_of is_digit text ≡ true → front_is b' ' text ≡ false
unfolding all_of is_digit
digits-front [] h = refl
digits-front (c ∷ cs) h = ground arith

-- The head is cut into its status line and its fields.
pub read_head-lines :
    (found : ℕ) (buffer l : Bytes) (fs : List Field)
    → all_of not_cr l ≡ true
    → ArePlain fs
    → take (found + 2) buffer ≡ l ++ cr ∷ lf ∷ lines_text (map field_line fs)
    → read_head found buffer
      ≡ with_length (first_value (codes "Content-Length") fs) fs (parse_status l)
unfolding read_head
read_head-lines found buffer l fs h p e =
    let text = lines_text (map field_line fs) in
    let fits : length text ≤ length (l ++ cr ∷ lf ∷ text) =
      omega (arith, length-append l (cr ∷ lf ∷ text)) in
    rw
      (
        e,
        find_crlf-line l text h,
        take-length-append l (cr ∷ lf ∷ text),
        drop-line l text,
        parse_fields-lines (length (l ++ cr ∷ lf ∷ text)) fs p fits,
      )
      refl
