-- ===== src/DemoClient/Table.antt =====
-- tools/demo_client.cpp: the cells of the table that it prints.
use network_arc_rajasurya.Prelude.{
  ℕ, zero, suc, ◌+◌, ◌-◌, ◌%◌, ◌^◌, ◌≤◌, ◌<◌, ◌≡◌, refl, ap, ◌∙◌, [], ◌∷◌, ◌++◌, some, Bytes, codes,
  take, length, get_elem?, leb, length-append, length-take, take_all, Bool-cases, inl, inr,
  take-length-append, append_assoc, subst, if◌then◌else◌, arith,
}

abbrev pub spaces : ℕ → Bytes
spaces zero = []
spaces (suc n) = b' ' ∷ spaces n

-- `text.resize(width, ' ')`
abbrev pub resize : ℕ → Bytes → Bytes
resize width text = take width text ++ spaces (width - length text)

-- `width - 4` is a `std::size_t`, and wraps around for a width below 4.
unfoldable pub pad : Bytes → ℕ → Bytes
pad text width = resize width (
    if leb width (length text)
    then take ((width + 2 ^ 64 - 4) % 2 ^ 64) text ++ codes "..."
    else text)

-- A cell has its width and ends in a space. A text that is shorter stands in it whole; of another the
-- first `width - 4` bytes do.
pub record IsCell (text : Bytes) (width : ℕ) (cell : Bytes) : Type 0 where
  pub whole : length cell ≡ width
  pub gap : get_elem? cell (width - 1) ≡ some b' '
  pub kept : length text < width → take (length text) cell ≡ text
  pub cut : width ≤ length text → take (width - 4) cell ≡ take (width - 4) text

length-spaces : (n : ℕ) → length (spaces n) ≡ n
length-spaces zero = refl
length-spaces (suc n) = ap suc (length-spaces n)

get_elem?-spaces :
    (text : Bytes) (n i : ℕ)
    → length text ≤ i
    → i < length text + n
    → get_elem? (text ++ spaces n) i ≡ some b' '
get_elem?-spaces [] zero i h k = absurd (omega arith)
get_elem?-spaces [] (suc n) zero h k = refl
get_elem?-spaces [] (suc n) (suc i) h k = get_elem?-spaces [] n i (omega arith) (omega arith)
get_elem?-spaces (c ∷ cs) n zero h k = absurd (omega arith)
get_elem?-spaces (c ∷ cs) n (suc i) h k = get_elem?-spaces cs n i (omega arith) (omega arith)

resize-shorter :
    (width : ℕ) (text : Bytes)
    → length text < width
    → resize width text ≡ text ++ spaces (width - length text)
resize-shorter width text h =
    ap (λ t. t ++ spaces (width - length text)) (take_all width text (omega arith))

-- A text that leaves room, with the spaces behind it.
padded :
    (width : ℕ) (text : Bytes)
    → length text < width
    → (length (text ++ spaces (width - length text)) ≡ width)
      × (get_elem? (text ++ spaces (width - length text)) (width - 1) ≡ some b' ')
padded width text h = (
  omega (
    arith,
    length-append text (spaces (width - length text)),
    length-spaces (width - length text),
  ),
  get_elem?-spaces text (width - length text) (width - 1) (omega arith) (omega arith),
)

-- The beginning of a text that is too long.
abbrev cut_text : ℕ → Bytes → Bytes
cut_text width text = take (width - 4) text ++ b'.' ∷ b'.' ∷ b'.' ∷ []

short-IsCell :
    (text : Bytes) (width : ℕ) → length text < width → IsCell text width (resize width text)
short-IsCell text width h =
    let (whole, gap) = padded width text h in
    rw (resize-shorter width text h) (record {
      whole = whole;
      gap = gap;
      kept = λ _. take-length-append text (spaces (width - length text));
      cut = λ long. absurd (omega arith);
    })

long-IsCell :
    (text : Bytes) (width : ℕ)
    → 4 ≤ width
    → width ≤ length text
    → IsCell text width (resize width (cut_text width text))
long-IsCell text width h long =
    let front = take (width - 4) text in
    let size : length front ≡ width - 4 = omega (arith, length-take (width - 4) text) in
    let room : length (cut_text width text) < width =
      omega (arith, size, length-append front (b'.' ∷ b'.' ∷ b'.' ∷ [])) in
    let (whole, gap) = padded width (cut_text width text) room in
    let behind = spaces (width - length (cut_text width text)) in
    rw (resize-shorter width (cut_text width text) room) (record {
      whole = whole;
      gap = gap;
      kept = λ less. absurd (omega arith);
      cut = λ _.
          ap (take (width - 4)) (append_assoc front (b'.' ∷ b'.' ∷ b'.' ∷ []) behind)
          ∙ subst (λ n. take n (front ++ (b'.' ∷ b'.' ∷ b'.' ∷ [] ++ behind)) ≡ front) size
              (take-length-append front (b'.' ∷ b'.' ∷ b'.' ∷ [] ++ behind));
    })

-- For a width of at least 4, `pad` makes a cell with a space behind every text.
pub pad-IsCell :
    (text : Bytes) (width : ℕ) → 4 ≤ width → width < 2 ^ 64 → IsCell text width (pad text width)
unfolding pad codes
pad-IsCell text width h k =
    let wrap : (width + 2 ^ 64 - 4) % 2 ^ 64 ≡ width - 4 = omega arith in
    elim (Bool-cases (leb width (length text))) [
      | inl long ↦ rw (long, wrap) (long-IsCell text width h (ground arith))
      | inr short ↦ rw short (short-IsCell text width (ground arith))
    ]
