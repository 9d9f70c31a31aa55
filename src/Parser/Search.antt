-- ===== src/Parser/Search.antt =====
-- The two loops over the buffer find what Framing describes: `skip_empty_lines_before_request` and
-- `find_end_of_head` of src/request_parser.cpp.
use network_arc_rajasurya.Prelude.{
  ℕ, zero, suc, ◌+◌, ◌^◌, ◌≤◌, ◌<◌, ◌≡◌, refl, sym, ap, ◌∙◌, true, false, ◌&&◌, [], ◌∷◌, Bytes, lf,
  cr, front_is, byte_is, drop, length, ltb, ◌==◌, if◌then◌else◌, arith, length-drop, drop-drop,
}
use network_arc_rajasurya.Parser.Framing.{skipped}
use network_arc_rajasurya.Parser.{RequestParser, consume, skip_loop}

-- A guarded look at a byte is a look at the front of what is left.
pub byte_is-drop : (xs : Bytes) (i c : ℕ) → byte_is xs i c ≡ front_is c (drop i xs)
byte_is-drop [] zero c = refl
byte_is-drop [] (suc i) c = refl
byte_is-drop (x ∷ xs) zero c = refl
byte_is-drop (x ∷ xs) (suc i) c = byte_is-drop xs i c

pub drop-suc : (xs : Bytes) (i : ℕ) {c : ℕ} {cs : Bytes} → drop i xs ≡ c ∷ cs → drop (suc i) xs ≡ cs
drop-suc [] zero h = cc
drop-suc [] (suc i) h = cc
drop-suc (x ∷ xs) zero h = cc
drop-suc (x ∷ xs) (suc i) h = drop-suc xs i h

consume-consume :
    (p : RequestParser) (m n k : ℕ) → m + n ≡ k → consume (consume p m) n ≡ consume p k
unfolding consume
consume-consume p m n k e = ground arith

consume_nothing :
    (p : RequestParser) → p.start ≤ p.scan_from → p.stream_offset < 2 ^ 64 → p ≡ consume p 0
unfolding consume
consume_nothing p h o = ground arith

-- The bytes that `start` has reached.
module _ (p : RequestParser) where
  at_end : drop p.start p.buffer ≡ [] → ltb p.start (length p.buffer) ≡ false
  at_end e = ground (arith, length-drop p.start p.buffer, ap length e)

  before_end :
      {c : ℕ} {cs : Bytes} → drop p.start p.buffer ≡ c ∷ cs → ltb p.start (length p.buffer) ≡ true
  before_end e = ground (arith, length-drop p.start p.buffer, ap length e)

-- A guarded look at the byte behind `i`.
pub look_ahead :
    (xs : Bytes) (i c : ℕ) → (ltb i (length xs) && byte_is xs i c) ≡ front_is c (drop i xs)
look_ahead [] zero c = ground arith
look_ahead [] (suc i) c = ground arith
look_ahead (x ∷ xs) zero c = ground arith
look_ahead (x ∷ xs) (suc i) c = ground (arith, look_ahead xs i c)

skip_loop-step :
    (fuel : ℕ) (p : RequestParser) {c : ℕ} {cs : Bytes}
    → drop p.start p.buffer ≡ c ∷ cs
    → skip_loop (suc fuel) p ≡ (
        if c == lf
        then skip_loop fuel (consume p 1)
        else if c == cr && front_is lf cs
        then skip_loop fuel (consume p 2)
        else p)
unfolding skip_loop
skip_loop-step fuel p {c} {cs} e = ground (
  arith,
  before_end p e,
  byte_is-drop p.buffer p.start lf,
  byte_is-drop p.buffer p.start cr,
  look_ahead p.buffer (p.start + 1) lf,
  drop-drop p.start 1 (p.start + 1) p.buffer refl,
  ap (front_is lf) e,
  ap (front_is cr) e,
  ap (drop 1) e,
)

behind_consumed :
    (p : RequestParser) (n : ℕ) {xs : Bytes}
    → drop p.start p.buffer ≡ xs
    → drop (consume p n).start (consume p n).buffer ≡ drop n xs
unfolding consume
behind_consumed p n e = sym (drop-drop p.start n (p.start + n) p.buffer refl) ∙ ap (drop n) e

consume-start_le : (p : RequestParser) (n : ℕ) → (consume p n).start ≤ (consume p n).scan_from
unfolding consume
consume-start_le p n = omega arith

consume-offset_lt : (p : RequestParser) (n : ℕ) → (consume p n).stream_offset < 2 ^ 64
unfolding consume
consume-offset_lt p n = omega arith

-- The loop consumes the empty lines in front.
pub skip_loop-consume :
    (fuel : ℕ) (p : RequestParser) (xs : Bytes)
    → drop p.start p.buffer ≡ xs
    → length xs ≤ fuel
    → p.start ≤ p.scan_from
    → p.stream_offset < 2 ^ 64
    → skip_loop fuel p ≡ consume p (skipped xs)
skip_loop-consume zero p [] e f h o = unfold skip_loop in consume_nothing p h o
skip_loop-consume zero p (c ∷ cs) e f h o = absurd (omega arith)
skip_loop-consume (suc fuel) p [] e f h o =
    unfold skip_loop in (rw (at_end p e) (consume_nothing p h o))
skip_loop-consume (suc fuel) p (c ∷ []) e f h o =
    let one =
      skip_loop-consume fuel (consume p 1) [] (behind_consumed p 1 e) (omega arith)
        (consume-start_le p 1) (consume-offset_lt p 1) in
    rw (skip_loop-step fuel p e)
      (ground (arith, one, consume-consume p 1 0 1 refl, consume_nothing p h o))
skip_loop-consume (suc fuel) p (c ∷ d ∷ ds) e f h o =
    let one =
      skip_loop-consume fuel (consume p 1) (d ∷ ds) (behind_consumed p 1 e) (omega arith)
        (consume-start_le p 1) (consume-offset_lt p 1) in
    let two =
      skip_loop-consume fuel (consume p 2) ds (behind_consumed p 2 e) (omega arith)
        (consume-start_le p 2) (consume-offset_lt p 2) in
    rw (skip_loop-step fuel p e) (
      ground (
        arith,
        one,
        two,
        consume-consume p 1 (skipped (d ∷ ds)) (suc (skipped (d ∷ ds))) (omega arith),
        consume-consume p 2 (skipped ds) (suc (suc (skipped ds))) (omega arith),
        consume_nothing p h o,
      ))
