-- ===== src/Prelude/Strings.antt =====
-- Bytes, and the operations of `std::string` and `std::string_view` that the program calls.
use Prim.Native.Nat.{ℕ, suc, ◌+◌}
use Prim.Native.Char.{code}
use Prim.Native.String.{String}
use mathlib.Core.Bool.{Bool, true, false, ◌&&◌}
use mathlib.Core.Path.{◌≡◌, refl}
use mathlib.Core.Option
use mathlib.Core.Option.{Option, none, some}
use mathlib.Core.List.{List, [], ◌∷◌, ◌++◌}
use native.Mathlib.Omega.{arith}
use network_arc_rajasurya.Prelude.Tests.{◌==◌, if◌then◌else◌}
use network_arc_rajasurya.Prelude.Lists.{get_elem?, take, drop, length}

-- A text is its bytes, each a number below 256 (the value of the `unsigned char`).
abbrev pub Bytes : Type 0
Bytes = List ℕ

-- A literal of the source; all of them are ASCII.
unfoldable pub codes : String → Bytes
codes String.[] = []
codes (String.◌∷◌ c s) = code c ∷ codes s

abbrev pub lf : ℕ
lf = 0x0A

abbrev pub cr : ℕ
cr = 0x0D

-- `a == b` on strings.
unfoldable pub equal : Bytes → Bytes → Bool
equal [] [] = true
equal (x ∷ xs) (y ∷ ys) = x == y && equal xs ys
equal _ _ = false

abbrev pub is_empty : Bytes → Bool
is_empty [] = true
is_empty (x ∷ xs) = false

-- `front() == c`, on a text that may be empty.
abbrev pub front_is : ℕ → Bytes → Bool
front_is c [] = false
front_is c (x ∷ xs) = x == c

-- `text[i] == c`; false past the end, where the source has tested `i` already.
abbrev pub byte_is : Bytes → ℕ → ℕ → Bool
byte_is xs i c = elim (get_elem? xs i) [ none ↦ false | some b ↦ b == c ]

-- `text.find(c)`; `none` is `npos`.
unfoldable pub find : ℕ → Bytes → Option ℕ
find c [] = none
find c (x ∷ xs) = if x == c then some 0 else Option.map suc (find c xs)

-- `text.substr(0, count)` where the count is a result of `find`: `npos` takes the whole text.
abbrev pub upto : Option ℕ → Bytes → Bytes
upto none xs = xs
upto (some n) xs = take n xs

-- Every byte passes the test (a loop that returns at the first that does not, or `std::all_of`).
unfoldable pub all_of : (ℕ → Bool) → Bytes → Bool
all_of p [] = true
all_of p (x ∷ xs) = p x && all_of p xs

-- `text.find(c, pos)`: an index from the start of the text.
unfoldable pub find_from : ℕ → ℕ → Bytes → Option ℕ
unfolding find
find_from c pos xs = Option.map (λ i. pos + i) (find c (drop pos xs))

-- `text.substr(pos, count)`.
abbrev pub substr : ℕ → ℕ → Bytes → Bytes
substr pos count xs = take count (drop pos xs)

-- Each line is followed by CR LF.
abbrev pub lines_text : List Bytes → Bytes
lines_text [] = []
lines_text (l ∷ ls) = l ++ cr ∷ lf ∷ lines_text ls

pub drop-line : (l ys : Bytes) → drop (suc (suc (length l))) (l ++ cr ∷ lf ∷ ys) ≡ ys
drop-line [] ys = refl
drop-line (x ∷ l) ys = drop-line l ys

pub all_of-append :
    (p : ℕ → Bool) (xs ys : Bytes)
    → all_of p xs ≡ true
    → all_of p ys ≡ true
    → all_of p (xs ++ ys) ≡ true
unfolding all_of
all_of-append p [] ys h k = k
all_of-append p (x ∷ xs) ys h k = ground (arith, all_of-append p xs ys)

pub all_of_mono :
    (p q : ℕ → Bool) (text : Bytes)
    → ((c : ℕ) → p c ≡ true → q c ≡ true)
    → all_of p text ≡ true
    → all_of q text ≡ true
unfolding all_of
all_of_mono p q [] h k = refl
all_of_mono p q (c ∷ cs) h k = ground (arith, h c, all_of_mono p q cs h)
