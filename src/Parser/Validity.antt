-- ===== src/Parser/Validity.antt =====
-- The well-formedness of the parser of src/request_parser.cpp: its positions lie in the buffer, and
-- the bytes that the search for the head has passed need no second look.
use network_arc_rajasurya.Prelude.{
  ℕ, suc, ◌+◌, ◌-◌, ◌^◌, ◌≤◌, ◌<◌, ◌≡◌, inl, inr, refl, sym, ap, max, ◌++◌, Option, none, some,
  Bytes, drop, length, arith, length-drop, drop-drop, drop-append, length-append, drop_all,
}
use network_arc_rajasurya.Parser.Framing.{
  skipped, head_end, IsClear, IsClear-append, IsClear-drop, IsClear-le, skipped-le,
}
use network_arc_rajasurya.Parser.Search.{skip_loop-consume}
use network_arc_rajasurya.Parser.Newlines.{Finds, Finds-clear, search_loop-Finds}
use network_arc_rajasurya.Parser.Stream.{view, receive_in, advance_by, skip_empty_lines}
use network_arc_rajasurya.Parser.{
  State, head, body, failed, RequestParser, buffered_bytes, compact, feed_in, feed, consume,
  skip_empty_lines_before_request, HeadSearch, search_loop, note_search, find_end_of_head,
}

-- The positions are in order and in the buffer, and the head does not end before `scan_from`.
pub record IsValid (p : RequestParser) : Type 0 where
  pub start_le : p.start ≤ p.scan_from
  pub scan_le : p.scan_from ≤ length p.buffer
  pub offset_lt : p.stream_offset < 2 ^ 64
  pub clear : IsClear (p.scan_from - p.start) (drop p.start p.buffer)

compact-view : (p : RequestParser) → view (compact p) ≡ view p
unfolding compact
compact-view p = ground (arith, drop_all p.start p.buffer)

compact-IsValid : (p : RequestParser) → IsValid p → IsValid (compact p)
unfolding compact
compact-IsValid p v = ground (arith, length-drop p.start p.buffer)

append-view :
    (p : RequestParser) (bytes : Bytes)
    → IsValid p
    → drop p.start (p.buffer ++ bytes) ≡ drop p.start p.buffer ++ bytes
append-view p bytes v = drop-append p.start p.buffer bytes (omega arith)

append-IsValid :
    (p : RequestParser) (bytes : Bytes)
    → IsValid p
    → IsValid (record p { buffer = p.buffer ++ bytes })
append-IsValid p bytes v = record {
  start_le = v.start_le;
  scan_le = omega (arith, length-append p.buffer bytes, v.scan_le);
  offset_lt = v.offset_lt;
  clear =
      rw (append-view p bytes v)
        (IsClear-append (p.scan_from - p.start) (drop p.start p.buffer) bytes v.clear);
}

appended : (p : RequestParser) (bytes : Bytes) → RequestParser
appended p bytes = record (compact p) { buffer = (compact p).buffer ++ bytes }

appended-view :
    (p : RequestParser) (bytes : Bytes)
    → IsValid p
    → view (appended p bytes) ≡ record (view p) { unread = drop p.start p.buffer ++ bytes }
unfolding appended
appended-view p bytes v =
    ground (arith, append-view (compact p) bytes (compact-IsValid p v), compact-view p)

-- `feed` only appends what was received to the unread bytes.
feed_in-view :
    (s : State) (p : RequestParser) (bytes : Bytes)
    → IsValid p
    → view (feed_in s p bytes) ≡ receive_in s (view p) bytes
unfolding feed_in receive_in
feed_in-view failed p bytes v = refl
feed_in-view head p bytes v = unfold appended in appended-view p bytes v
feed_in-view body p bytes v = unfold appended in appended-view p bytes v

pub feed-view :
    (p : RequestParser) (bytes : Bytes)
    → IsValid p
    → view (feed p bytes) ≡ receive_in p.state (view p) bytes
feed-view p = feed_in-view p.state p

feed_in-IsValid :
    (s : State) (p : RequestParser) (bytes : Bytes) → IsValid p → IsValid (feed_in s p bytes)
unfolding feed_in
feed_in-IsValid failed p bytes v = v
feed_in-IsValid head p bytes v = append-IsValid (compact p) bytes (compact-IsValid p v)
feed_in-IsValid body p bytes v = append-IsValid (compact p) bytes (compact-IsValid p v)

pub feed-IsValid : (p : RequestParser) (bytes : Bytes) → IsValid p → IsValid (feed p bytes)
feed-IsValid p = feed_in-IsValid p.state p

pub consume-view : (p : RequestParser) (n : ℕ) → view (consume p n) ≡ advance_by n (view p)
unfolding consume
consume-view p n = ground (arith, drop-drop p.start n (p.start + n) p.buffer refl)

pub consume-IsValid :
    (p : RequestParser) (n : ℕ)
    → n ≤ length (drop p.start p.buffer)
    → IsValid p
    → IsValid (consume p n)
unfolding consume
consume-IsValid p n h v = record {
  start_le = omega arith;
  scan_le = omega (arith, length-drop p.start p.buffer, v.scan_le, v.start_le);
  offset_lt = omega arith;
  clear =
      let left : max p.scan_from (p.start + n) - (p.start + n) ≡ p.scan_from - p.start - n =
        omega arith in
      rw (left, ← drop-drop p.start n (p.start + n) p.buffer refl)
        (IsClear-drop n (p.scan_from - p.start) (drop p.start p.buffer) v.clear);
}

-- The empty lines in front are consumed.
skip-consume :
    (p : RequestParser)
    → IsValid p
    → skip_empty_lines_before_request p ≡ consume p (skipped (drop p.start p.buffer))
unfolding skip_empty_lines_before_request
skip-consume p v =
    skip_loop-consume (buffered_bytes p) p (drop p.start p.buffer) refl
      (omega (arith, length-drop p.start p.buffer)) v.start_le v.offset_lt

pub skip-view :
    (p : RequestParser)
    → IsValid p
    → view (skip_empty_lines_before_request p) ≡ skip_empty_lines (view p)
skip-view p v = rw (skip-consume p v) (consume-view p _)

pub skip-IsValid : (p : RequestParser) → IsValid p → IsValid (skip_empty_lines_before_request p)
skip-IsValid p v = rw (skip-consume p v) (consume-IsValid p _ (skipped-le _) v)

-- The outcome of the search for the end of the head.
pub data Search (p : RequestParser) : RequestParser × Option ℕ → Type 0 where
  found :
      {r : RequestParser × Option ℕ} (n : ℕ)
      → head_end (drop p.start p.buffer) ≡ some n
      → r ≡ (p, some (p.start + n))
      → Search p r
  missing :
      {r : RequestParser × Option ℕ} (q : ℕ)
      → head_end (drop p.start p.buffer) ≡ none
      → r ≡ (record p { scan_from = q }, none)
      → IsValid (record p { scan_from = q })
      → Search p r

Finds-Search :
    (p : RequestParser) (s : HeadSearch)
    → IsValid p
    → Finds (drop p.start p.buffer) p.start s
    → Search p (note_search p s)
Finds-Search p s v (inl (n, e, h)) = found n e (ap (note_search p) h)
Finds-Search p s v (inr (q, e, h, le, clear)) = missing q e (ap (note_search p) h) (record {
  start_le = le;
  scan_le = omega (
    arith,
    IsClear-le (q - p.start) (drop p.start p.buffer) clear,
    length-drop p.start p.buffer,
    v.start_le,
    v.scan_le,
  );
  offset_lt = v.offset_lt;
  clear = clear;
})

pub find_end_of_head-Search : (p : RequestParser) → IsValid p → Search p (find_end_of_head p)
unfolding find_end_of_head
find_end_of_head-Search p v =
    let from : max p.scan_from p.start ≡ p.scan_from = omega arith in
    let there : p.start + (p.scan_from - p.start) ≡ p.scan_from = omega arith in
    let s = search_loop (suc (length p.buffer)) p.buffer (max p.scan_from p.start) in
    Finds-Search p s v (
      Finds-clear (p.scan_from - p.start) p.start p.scan_from (drop p.start p.buffer) s (sym there)
        v.clear
        (rw (drop-drop p.start (p.scan_from - p.start) p.scan_from p.buffer there, from)
          (search_loop-Finds (suc (length p.buffer)) p.buffer p.scan_from v.scan_le (omega arith))))
