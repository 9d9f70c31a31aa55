-- ===== src/Query/RoundTrip.antt =====
-- src/query.cpp: `parse_query` reads back any printed list of parameters.
use network_arc_rajasurya.Prelude.{
  ℕ, zero, suc, ◌/◌, ◌%◌, ◌<◌, ◌≡◌, ◌⊎◌, inl, inr, refl, ap, ◌∙◌, Bool, true, false, List, [], ◌∷◌,
  ◌++◌, none, some, Bytes, length, drop, ◌==◌, is_empty, arith, either_case, find, all_of,
  length-append, take-length-append, append_assoc,
}
use network_arc_rajasurya.Query.{parameter, parse_segment, parse_segments, parse_query}
use network_arc_rajasurya.Query.Escapes.{hex_digit, encode, are_bytes, percent_decode-encode}

-- '%', '=' and '&' are escaped, and perhaps others.
pub record Escapes (reserved : ℕ → Bool) : Type 0 where
  pub percent : reserved b'%' ≡ true
  pub equals : reserved b'=' ≡ true
  pub ampersand : reserved b'&' ≡ true

abbrev pub print_parameter : (ℕ → Bool) → Bytes × Bytes → Bytes
print_parameter reserved p = encode reserved p.0 ++ b'=' ∷ encode reserved p.1

abbrev pub print_query : (ℕ → Bool) → Bytes × Bytes → List (Bytes × Bytes) → Bytes
print_query reserved p [] = print_parameter reserved p
print_query reserved p (q ∷ qs) = print_parameter reserved p ++ b'&' ∷ print_query reserved q qs

-- Names and values are texts of bytes.
abbrev pub AreBytes : List (Bytes × Bytes) → Type 0
AreBytes [] = Unit {0}
AreBytes (p ∷ ps) = (are_bytes p.0 ≡ true) × (are_bytes p.1 ≡ true) × AreBytes ps

pub find-append :
    (c : ℕ) (xs ys : Bytes) → find c xs ≡ none → find c (xs ++ c ∷ ys) ≡ some (length xs)
unfolding find
find-append c [] ys h = ground arith
find-append c (x ∷ xs) ys h =
    let (other, rest) = skip c x xs h in rw (other, find-append c xs ys rest) refl
  where
    skip : (c x : ℕ) (xs : Bytes) → find c (x ∷ xs) ≡ none → ((x == c) ≡ false) × (find c xs ≡ none)
    skip c x xs h = ground arith

find-absent :
    (c : ℕ) (xs ys : Bytes) → find c xs ≡ none → find c ys ≡ none → find c (xs ++ ys) ≡ none
unfolding find
find-absent c [] ys h k = k
find-absent c (x ∷ xs) ys h k = ground (arith, find-absent c xs ys)

find-other : (c x : ℕ) (xs : Bytes) → (x == c) ≡ false → find c xs ≡ none → find c (x ∷ xs) ≡ none
unfolding find
find-other c x xs h k = rw (h, k) refl

no_digit : (c n : ℕ) → (c ≡ b'=') ⊎ (c ≡ b'&') → n < 16 → (hex_digit n == c) ≡ false
no_digit c n sep h = ground arith

find-encode :
    (reserved : ℕ → Bool) (c : ℕ) (text : Bytes)
    → (c ≡ b'=') ⊎ (c ≡ b'&')
    → reserved c ≡ true
    → are_bytes text ≡ true
    → find c (encode reserved text) ≡ none
unfolding encode all_of
find-encode reserved c [] sep r bytes = unfold find in refl
find-encode reserved c (b ∷ bs) sep r bytes =
    let (byte, rest) = both b bs bytes in
    let none_later = find-encode reserved c bs sep r rest in
    either_case (λ t. find c t ≡ none) (reserved b) _ _
      (λ escaped. find-other c b'%' _ (ground arith) (
        find-other c _ _ (no_digit c (b / 16) sep (ground arith))
          (find-other c _ _ (no_digit c (b % 16) sep (ground arith)) none_later)))
      (λ plain. find-other c b _ (no_separator reserved c b r plain) none_later)
  where
    both : (b : ℕ) (bs : Bytes) → are_bytes (b ∷ bs) ≡ true → (b < 256) × (are_bytes bs ≡ true)
    both b bs h = ground arith

    no_separator :
        (reserved : ℕ → Bool) (c b : ℕ) → reserved c ≡ true → reserved b ≡ false → (b == c) ≡ false
    no_separator reserved c b h k = ground arith

pub is_empty-append : (xs ys : Bytes) (c : ℕ) → is_empty (xs ++ c ∷ ys) ≡ false
is_empty-append [] ys c = refl
is_empty-append (x ∷ xs) ys c = refl

pub drop-separator : (xs ys : Bytes) (c : ℕ) → drop (suc (length xs)) (xs ++ c ∷ ys) ≡ ys
drop-separator [] ys c = refl
drop-separator (x ∷ xs) ys c = drop-separator xs ys c

module _ (reserved : ℕ → Bool) (escapes : Escapes reserved) where
  parse_segment-print :
      (p : Bytes × Bytes)
      → are_bytes p.0 ≡ true
      → are_bytes p.1 ≡ true
      → parse_segment (print_parameter reserved p) ≡ parameter p.0 p.1
  unfolding parse_segment
  parse_segment-print p name value =
      let n = encode reserved p.0 in
      let v = encode reserved p.1 in
      let eq =
        find-append b'=' n v (find-encode reserved b'=' p.0 (inl refl) escapes.equals name) in
      rw
        (
          is_empty-append n v b'=',
          eq,
          take-length-append n (b'=' ∷ v),
          drop-separator n v b'=',
          percent_decode-encode reserved p.0 escapes.percent name,
          percent_decode-encode reserved p.1 escapes.percent value,
        )
        refl

  find-print :
      (p : Bytes × Bytes)
      → are_bytes p.0 ≡ true
      → are_bytes p.1 ≡ true
      → find b'&' (print_parameter reserved p) ≡ none
  find-print p name value =
      find-absent b'&' (encode reserved p.0) _
        (find-encode reserved b'&' p.0 (inr refl) escapes.ampersand name)
        (find-other b'&' b'=' _ refl
          (find-encode reserved b'&' p.1 (inr refl) escapes.ampersand value))

  parse_segments-print :
      (fuel : ℕ) (p : Bytes × Bytes) (ps found : List (Bytes × Bytes))
      → AreBytes (p ∷ ps)
      → length (print_query reserved p ps) < fuel
      → parse_segments fuel (print_query reserved p ps) found
        ≡ record { parameters = found ++ p ∷ ps; error = [] }
  unfolding parse_segments
  parse_segments-print zero p ps found bytes enough = ground arith
  parse_segments-print (suc fuel) p [] found (name, value, _) enough =
      rw
        (
          parse_segments,
          find-print p name value,
          parse_segment-print p name value,
          find-print p name value,
        )
        refl
  parse_segments-print (suc fuel) p (q ∷ qs) found (name, value, rest) enough =
      let s = print_parameter reserved p in
      let later = print_query reserved q qs in
      rw
        (
          parse_segments,
          find-append b'&' s later (find-print p name value),
          take-length-append s (b'&' ∷ later),
          parse_segment-print p name value,
          find-append b'&' s later (find-print p name value),
          drop-separator s later b'&',
        )
        (parse_segments-print fuel q qs (found ++ p ∷ []) rest
            (omega (arith, length-append s (b'&' ∷ later)))
          ∙ ap (λ ps. record { parameters = ps; error = [] })
              (append_assoc found (p ∷ []) (q ∷ qs)))

  nonempty :
      (p : Bytes × Bytes) (ps : List (Bytes × Bytes)) → is_empty (print_query reserved p ps) ≡ false
  nonempty p [] = is_empty-append (encode reserved p.0) _ b'='
  nonempty p (q ∷ qs) = is_empty-append (print_parameter reserved p) _ b'&'

  -- A list of parameters that is printed with '%', '=' and '&' escaped, and perhaps other bytes, is
  -- read back by `parse_query`, without an error.
  pub parse_query-print :
      (p : Bytes × Bytes) (ps : List (Bytes × Bytes))
      → AreBytes (p ∷ ps)
      → parse_query (print_query reserved p ps) ≡ record { parameters = p ∷ ps; error = [] }
  unfolding parse_query
  parse_query-print p ps bytes =
      rw (nonempty p ps) (
        parse_segments-print (suc (length (print_query reserved p ps))) p ps [] bytes (omega arith))
