-- ===== src/Parser/Fields.antt =====
-- src/request_parser.cpp: the request line, the header lines and the length of the body, as they are
-- printed and read back.
use network_arc_rajasurya.Prelude.{
  ℕ, suc, ◌+◌, ◌-◌, ◌≡◌, refl, sym, ap, subst, inl, inr, ==_iff, Bool-cases, ◌∙◌, Bool, true, false,
  List, [], ◌∷◌, ◌++◌, append_assoc, append-nil, map, byte_is, equal, none, some, Bytes, codes,
  is_empty, front_is, find, find_from, substr, take, drop, length, ◌==◌, if◌then◌else◌, all_of,
  is_digit, length-append, take-length-append, arith,
}
use network_arc_rajasurya.Text.{trim_whitespace}
use network_arc_rajasurya.Request.{HttpVersion, http10, http11, Header, Request}
use network_arc_rajasurya.Query.RoundTrip.{find-append, drop-separator}
use network_arc_rajasurya.Parser.Result.{ok}
use network_arc_rajasurya.Parser.RequestLine.{
  is_token_char, is_token, is_target_char, is_http_version, check_parts, parse_request_line,
}
use network_arc_rajasurya.Parser.HeaderLine.{is_value_char, check_field, parse_header_line}
use network_arc_rajasurya.Parser.Head.{parse_header_lines}

abbrev pub version_text : HttpVersion → Bytes
version_text http10 = codes "HTTP/1.0"
version_text http11 = codes "HTTP/1.1"

abbrev pub request_line : Bytes → Bytes → HttpVersion → Bytes
request_line method target version = method ++ b' ' ∷ (target ++ b' ' ∷ version_text version)

abbrev pub header_line : Header → Bytes
header_line h = h.name ++ b':' ∷ b' ' ∷ h.value

differs : (p : ℕ → Bool) (c x : ℕ) → p c ≡ false → p x ≡ true → (x == c) ≡ false
differs p c x h k = elim (Bool-cases (x == c)) [
  | inl e ↦ let same = (==_iff x c).0 e in absurd (not_both p c x same h k)
  | inr e ↦ e
]
  where
    not_both : (p : ℕ → Bool) (c x : ℕ) → x ≡ c → p c ≡ false → p x ≡ true → ⊥
    not_both p c x e h k = cc

find-all :
    (p : ℕ → Bool) (c : ℕ) (text : Bytes) → p c ≡ false → all_of p text ≡ true → find c text ≡ none
unfolding find all_of
find-all p c [] h k = refl
find-all p c (x ∷ xs) h k =
    let (other, rest) = parts p c x xs h k in rw (other, find-all p c xs h rest) refl
  where
    parts :
        (p : ℕ → Bool) (c x : ℕ) (xs : Bytes)
        → p c ≡ false
        → all_of p (x ∷ xs) ≡ true
        → ((x == c) ≡ false) × (all_of p xs ≡ true)
    parts p c x xs h k = (differs p c x h (ground arith), ground arith)

find-version : (v : HttpVersion) → find b' ' (version_text v) ≡ none
unfolding find codes
find-version http10 = refl
find-version http11 = refl

-- A method is a token, and a target begins with '/' and holds no blank and no control byte.
pub record IsLine (method target : Bytes) : Type 0 where
  pub is_method : is_token method ≡ true
  pub has_slash : front_is b'/' target ≡ true
  pub is_target : all_of is_target_char target ≡ true

token-chars : (text : Bytes) → is_token text ≡ true → all_of is_token_char text ≡ true
unfolding is_token
token-chars text h = ground arith

version-IsVersion : (v : HttpVersion) → is_http_version (version_text v) ≡ true
unfolding is_http_version codes equal is_digit
version-IsVersion http10 = refl
version-IsVersion http11 = refl

version_digits :
    (v : HttpVersion)
    → (byte_is (version_text v) 5 b'1' ≡ true)
      × ((if byte_is (version_text v) 7 b'0' then http10 else http11) ≡ v)
unfolding codes
version_digits http10 = (refl, refl)
version_digits http11 = (refl, refl)

check_parts-line :
    (method target : Bytes) (v : HttpVersion) (r : Request)
    → IsLine method target
    → check_parts method target (version_text v) r
      ≡ ok (record r { method = method; target = target; version = v })
check_parts-line method target v r l =
    let (one, last) = version_digits v in
    let present = slash-nonempty target l.has_slash in
    (unfold check_parts in
      rw (l.is_method, present, l.has_slash, l.is_target, version-IsVersion v, one, last) refl)
  where
    slash-nonempty : (target : Bytes) → front_is b'/' target ≡ true → is_empty target ≡ false
    slash-nonempty [] h = cc
    slash-nonempty (c ∷ cs) h = refl

three_parts :
    (line : Bytes) (r : Request) (first second : ℕ)
    → find b' ' line ≡ some first
    → find_from b' ' (suc first) line ≡ some second
    → find_from b' ' (suc second) line ≡ none
    → parse_request_line line r
      ≡ check_parts
          (take first line)
          (substr (suc first) (second - first - 1) line)
          (drop (suc second) line)
          r
unfolding parse_request_line
three_parts line r first second e1 e2 e3 = ground (arith, e1, e2, e3)

pub parse_request_line-line :
    (method target : Bytes) (v : HttpVersion) (r : Request)
    → IsLine method target
    → parse_request_line (request_line method target v) r
      ≡ ok (record r { method = method; target = target; version = v })
parse_request_line-line method target v r l =
    let line = request_line method target v in
    let a = length method in
    let second : ℕ = suc a + length target in
    let behind = drop-separator method (target ++ b' ' ∷ version_text v) b' ' in
    let e1 = find-append b' ' method (target ++ b' ' ∷ version_text v) (
      find-all is_token_char b' ' method (unfold is_token_char in refl)
        (token-chars method l.is_method)) in
    let in_target =
      find-append b' ' target (version_text v)
        (find-all is_target_char b' ' target refl l.is_target) in
    let e2 : find_from b' ' (suc a) line ≡ some second =
      unfold find_from in rw (behind, in_target) refl in
    let regroup : line ≡ (method ++ b' ' ∷ target) ++ b' ' ∷ version_text v =
      sym (append_assoc method (b' ' ∷ target) (b' ' ∷ version_text v)) in
    let size : length (method ++ b' ' ∷ target) ≡ second =
      omega (arith, length-append method (b' ' ∷ target)) in
    let last : drop (suc second) line ≡ version_text v =
      subst (λ n. drop (suc n) line ≡ version_text v) size
        (ap (drop (suc (length (method ++ b' ' ∷ target)))) regroup
          ∙ drop-separator (method ++ b' ' ∷ target) (version_text v) b' ') in
    let e3 : find_from b' ' (suc second) line ≡ none =
      unfold find_from in rw (last, find-version v) refl in
    let count : second - a - 1 ≡ length target = omega arith in
    let middle : substr (suc a) (second - a - 1) line ≡ target =
      rw (count, behind) (take-length-append target (b' ' ∷ version_text v)) in
    three_parts line r a second e1 e2 e3
    ∙ rw (take-length-append method (b' ' ∷ (target ++ b' ' ∷ version_text v)), middle, last)
        (check_parts-line method target v r l)

-- A name is a token, and a value holds no control byte and no blanks around it.
pub record IsHeader (h : Header) : Type 0 where
  pub is_name : is_token h.name ≡ true
  pub is_value : all_of is_value_char h.value ≡ true
  pub is_trimmed : trim_whitespace h.value ≡ h.value

abbrev pub AreHeaders : List Header → Type 0
AreHeaders [] = Unit {0}
AreHeaders (h ∷ hs) = IsHeader h × AreHeaders hs

token-front :
    (c : ℕ) (text more : Bytes)
    → is_token_char c ≡ false
    → is_token text ≡ true
    → front_is c (text ++ more) ≡ false
unfolding is_token all_of
token-front c [] more h k = cc
token-front c (x ∷ xs) more h k = differs is_token_char c x h (ground arith)

at_colon :
    (line : Bytes) (hs : List Header) (colon : ℕ)
    → front_is b' ' line ≡ false
    → front_is b'\t' line ≡ false
    → find b':' line ≡ some colon
    → parse_header_line line hs
      ≡ check_field (take colon line) (trim_whitespace (drop (suc colon) line)) hs
unfolding parse_header_line
at_colon line hs colon no_space no_tab e = ground (arith, no_space, no_tab, e)

check_field-header :
    (h : Header) (hs : List Header) → IsHeader h → check_field h.name h.value hs ≡ ok (hs ++ h ∷ [])
unfolding check_field
check_field-header h hs p = rw (p.is_name, p.is_value) refl

parse_header_line-line :
    (h : Header) (hs : List Header)
    → IsHeader h
    → parse_header_line (header_line h) hs ≡ ok (hs ++ h ∷ [])
parse_header_line-line h hs p =
    let no_space =
      token-front b' ' h.name (b':' ∷ b' ' ∷ h.value) (unfold is_token_char in refl) p.is_name in
    let no_tab =
      token-front b'\t' h.name (b':' ∷ b' ' ∷ h.value) (unfold is_token_char in refl) p.is_name in
    let colon = find-append b':' h.name (b' ' ∷ h.value) (
      find-all is_token_char b':' h.name (unfold is_token_char in refl)
        (token-chars h.name p.is_name)) in
    let trimmed : trim_whitespace (b' ' ∷ h.value) ≡ h.value =
      unfold trim_whitespace in p.is_trimmed in
    at_colon (header_line h) hs (length h.name) no_space no_tab colon
    ∙ rw
        (
          take-length-append h.name (b':' ∷ b' ' ∷ h.value),
          drop-separator h.name (b' ' ∷ h.value) b':',
          trimmed,
        )
        (check_field-header h hs p)

pub parse_header_lines-lines :
    (hs kept : List Header)
    → AreHeaders hs
    → parse_header_lines (map header_line hs) kept ≡ ok (kept ++ hs)
unfolding parse_header_lines
parse_header_lines-lines [] kept p = ap ok (sym (append-nil kept))
parse_header_lines-lines (h ∷ hs) kept (p, ps) =
    rw (parse_header_line-line h kept p)
      (parse_header_lines-lines hs (kept ++ h ∷ []) ps ∙ ap ok (append_assoc kept (h ∷ []) hs))
