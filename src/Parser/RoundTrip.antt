-- ===== src/Parser/RoundTrip.antt =====
-- src/request_parser.cpp: a message that is printed is read back, and what follows it is left.
use network_arc_rajasurya.Prelude.{
  ℕ, suc, ◌+◌, ◌≤◌, ◌<◌, ◌^◌, ◌≡◌, refl, sym, ap, ◌∙◌, true, false, List, [], ◌∷◌, ◌++◌,
  append_assoc, map, Option, some, Bytes, codes, cr, lf, is_empty, drop, length, ltb, le→ltb,
  all_of, all_of-append, all_of_mono, lines_text, u64, length-append, take-length-append,
  drop-length-append, arith,
}
use network_arc_rajasurya.Config.{Limits}
use network_arc_rajasurya.Request.{HttpVersion, http10, http11, Header, Request, empty_request}
use network_arc_rajasurya.Parser.Result.{ok, complete}
use network_arc_rajasurya.Parser.RequestLine.{is_token_char, is_token, is_target_char}
use network_arc_rajasurya.Parser.HeaderLine.{is_value_char}
use network_arc_rajasurya.Parser.Head.{collect_lines, parse_lines, parse_head}
use network_arc_rajasurya.Parser.Framing.{skipped, head_end}
use network_arc_rajasurya.Parser.Stream.{
  Stream, view, next_request, next_of, read_head, accept_head, read_body, receive_in,
}
use network_arc_rajasurya.Parser.Validity.{IsValid, feed-view, feed-IsValid}
use network_arc_rajasurya.Parser.Refinement.{viewed, next-view}
use network_arc_rajasurya.Parser.Lines.{
  in_line, AreLines, head_end-text, skipped-line, collect_lines-text,
}
use network_arc_rajasurya.Parser.Fields.{
  version_text, request_line, header_line, IsLine, IsHeader, AreHeaders, parse_request_line-line,
  parse_header_lines-lines,
}
use network_arc_rajasurya.Parser.Payload.{
  AreUnframed, framing_of, payload_of, determine-framing_of, framing_of-AreHeaders,
}
use network_arc_rajasurya.Parser.{State, head, RequestParser, feed, next}

pub record Message : Type 0 where
  pub method : Bytes
  pub target : Bytes
  pub version : HttpVersion
  pub fields : List Header
  -- with a body goes its Content-Length
  pub payload : Option Bytes

abbrev pub all_fields : Message → List Header
all_fields m = m.fields ++ framing_of m.payload

abbrev pub first_line : Message → Bytes
first_line m = request_line m.method m.target m.version

abbrev pub field_text : Message → Bytes
field_text m = lines_text (map header_line (all_fields m))

abbrev pub print_head : Message → Bytes
print_head m = first_line m ++ cr ∷ lf ∷ (field_text m ++ cr ∷ lf ∷ [])

abbrev pub print_message : Message → Bytes
print_message m = print_head m ++ payload_of m.payload

-- The message is well formed and within the limits.
pub record IsPrintable (limits : Limits) (m : Message) : Type 0 where
  pub line : IsLine m.method m.target
  pub headers : AreHeaders m.fields
  pub unframed : AreUnframed m.fields
  pub few : length (all_fields m) ≤ limits.max_header_count
  pub short : length (print_head m) ≤ limits.max_header_bytes
  pub body_le : length (payload_of m.payload) ≤ limits.max_body_bytes
  pub body_lt : limits.max_body_bytes < 2 ^ 64

token-in_line : (c : ℕ) → is_token_char c ≡ true → in_line c ≡ true
unfolding is_token_char
token-in_line c h = ground arith

token-IsLine : (text : Bytes) → is_token text ≡ true → all_of in_line text ≡ true
token-IsLine text h = all_of_mono is_token_char in_line text token-in_line (chars text h)
  where
    chars : (text : Bytes) → is_token text ≡ true → all_of is_token_char text ≡ true
    chars text h = unfold is_token in ground arith

target-in_line : (c : ℕ) → is_target_char c ≡ true → in_line c ≡ true
target-in_line c h = ground arith

value-in_line : (c : ℕ) → is_value_char c ≡ true → in_line c ≡ true
value-in_line c h = ground arith

version-IsLine : (v : HttpVersion) → all_of in_line (b' ' ∷ version_text v) ≡ true
unfolding all_of codes
version-IsLine http10 = refl
version-IsLine http11 = refl

request_line-IsLine :
    (method target : Bytes) (v : HttpVersion)
    → IsLine method target
    → all_of in_line (request_line method target v) ≡ true
request_line-IsLine method target v l =
    let rest =
      all_of-append in_line target (b' ' ∷ version_text v)
        (all_of_mono is_target_char in_line target target-in_line l.is_target) (version-IsLine v) in
    all_of-append in_line method (b' ' ∷ (target ++ b' ' ∷ version_text v))
      (token-IsLine method l.is_method) (unfold all_of in rest)

header_line-IsLine : (h : Header) → IsHeader h → all_of in_line (header_line h) ≡ true
header_line-IsLine h p =
    let value = all_of_mono is_value_char in_line h.value value-in_line p.is_value in
    all_of-append in_line h.name (b':' ∷ b' ' ∷ h.value) (token-IsLine h.name p.is_name)
      (unfold all_of in value)

nonempty : (xs ys : Bytes) (c : ℕ) → is_empty (xs ++ c ∷ ys) ≡ false
nonempty [] ys c = refl
nonempty (x ∷ xs) ys c = refl

header_lines-AreLines : (hs : List Header) → AreHeaders hs → AreLines (map header_line hs)
header_lines-AreLines [] p = tt
header_lines-AreLines (h ∷ hs) (p, ps) =
    (nonempty h.name _ b':', header_line-IsLine h p, header_lines-AreLines hs ps)

AreHeaders-append : (hs gs : List Header) → AreHeaders hs → AreHeaders gs → AreHeaders (hs ++ gs)
AreHeaders-append [] gs p q = q
AreHeaders-append (h ∷ hs) gs (p, ps) q = (p, AreHeaders-append hs gs ps q)

-- The request that the parser has to make of it, at this offset in the stream.
abbrev pub request_of : Message → ℕ → Request
request_of m offset = record {
  method = m.method;
  target = m.target;
  version = m.version;
  headers = all_fields m;
  body = payload_of m.payload;
  stream_begin = offset;
  stream_end = u64 (u64 (offset + length (print_head m)) + length (payload_of m.payload));
  head_bytes = length (print_head m);
}

length-map : (hs : List Header) → length (map header_line hs) ≡ length hs
length-map [] = refl
length-map (h ∷ hs) = ap suc (length-map hs)

module _ (limits : Limits) (m : Message) (p : IsPrintable limits m) where
  all_fields-AreHeaders : AreHeaders (all_fields m)
  all_fields-AreHeaders =
      AreHeaders-append m.fields (framing_of m.payload) p.headers (framing_of-AreHeaders m.payload)

  lines-AreLines : AreLines (first_line m ∷ map header_line (all_fields m))
  lines-AreLines = (
    nonempty m.method _ b' ',
    request_line-IsLine m.method m.target m.version p.line,
    header_lines-AreLines (all_fields m) all_fields-AreHeaders,
  )

  parse_lines-print :
      parse_lines limits (first_line m ∷ map header_line (all_fields m))
      ≡ ok (
        record empty_request {
          method = m.method;
          target = m.target;
          version = m.version;
          headers = all_fields m;
        },
        length (payload_of m.payload),
      )
  unfolding parse_lines
  parse_lines-print =
      let few = le→ltb limits.max_header_count (length (all_fields m)) p.few in
      rw
        (
          length-map (all_fields m),
          few,
          parse_request_line-line m.method m.target m.version empty_request p.line,
          parse_header_lines-lines (all_fields m) [] all_fields-AreHeaders,
          determine-framing_of m.fields m.payload limits.max_body_bytes p.unframed p.body_lt
              p.body_le,
        )
        refl

  collected :
      collect_lines (length (print_head m)) (print_head m) (print_head m)
      ≡ first_line m ∷ map header_line (all_fields m)
  collected =
      let whole : print_head m
          ≡ lines_text (first_line m ∷ map header_line (all_fields m)) ++ cr ∷ lf ∷ [] =
        sym (append_assoc (first_line m) (cr ∷ lf ∷ field_text m) (cr ∷ lf ∷ [])) in
      let fuel = length (print_head m) in
      ap (collect_lines fuel (print_head m)) whole
      ∙ collect_lines-text fuel (print_head m) (first_line m ∷ map header_line (all_fields m))
          lines-AreLines
          (omega (
            arith,
            ap length whole,
            length-append (lines_text (first_line m ∷ map header_line (all_fields m)))
                (cr ∷ lf ∷ []),
          ))

  parse_head-print :
      parse_head limits (print_head m)
      ≡ ok (
        record empty_request {
          method = m.method;
          target = m.target;
          version = m.version;
          headers = all_fields m;
        },
        length (payload_of m.payload),
      )
  unfolding parse_head
  parse_head-print = ap (parse_lines limits) collected ∙ parse_lines-print

  head_end-print : (rest : Bytes) → head_end (print_head m ++ rest) ≡ some (length (print_head m))
  head_end-print rest =
      let regroup =
        append_assoc (first_line m) (cr ∷ lf ∷ (field_text m ++ cr ∷ lf ∷ [])) rest
        ∙ ap (λ t. first_line m ++ cr ∷ lf ∷ t) (append_assoc (field_text m) (cr ∷ lf ∷ []) rest) in
      ap head_end regroup
      ∙ head_end-text (first_line m) (map header_line (all_fields m)) rest lines-AreLines
      ∙ ap some (
          omega (
            arith,
            length-append (first_line m) (cr ∷ lf ∷ (field_text m ++ cr ∷ lf ∷ [])),
            length-append (field_text m) (cr ∷ lf ∷ []),
          ))

  skipped-print : (rest : Bytes) → skipped (print_head m ++ rest) ≡ 0
  skipped-print rest =
      let (filled, in_it, _) = lines-AreLines in
      ap skipped (append_assoc (first_line m) (cr ∷ lf ∷ (field_text m ++ cr ∷ lf ∷ [])) rest)
      ∙ skipped-line (first_line m) _ filled in_it

-- The stream behind the message.
abbrev pub behind_message : Message → Stream → Bytes → Stream
behind_message m s rest = record s {
  state = head;
  unread = rest;
  offset = u64 (u64 (s.offset + length (print_head m)) + length (payload_of m.payload));
  pending = empty_request;
  body_length = length (payload_of m.payload);
}

next_of-print :
    (m : Message) (s : Stream) (rest : Bytes)
    → s.offset < 2 ^ 64
    → IsPrintable s.limits m
    → next_of head (record s { unread = print_head m ++ (payload_of m.payload ++ rest) })
      ≡ (behind_message m s rest, complete (request_of m s.offset))
unfolding next_of read_head accept_head read_body
next_of-print m s rest lt p =
    let size = length (print_head m) in
    let payload = payload_of m.payload in
    let more = payload ++ rest in
    let same : u64 (s.offset + 0) ≡ s.offset = omega arith in
    let fits = le→ltb s.limits.max_header_bytes size p.short in
    let here : ltb (length (payload ++ rest)) (length payload) ≡ false =
      le→ltb _ _ (omega (arith, length-append payload rest)) in
    rw
      (
        skipped-print s.limits m p more,
        same,
        head_end-print s.limits m p more,
        fits,
        take-length-append (print_head m) more,
        parse_head-print s.limits m p,
        drop-length-append (print_head m) more,
        here,
        take-length-append payload rest,
        drop-length-append payload rest,
      )
      refl

-- Between requests, the parser that is fed a printed message, within its limits, and any bytes behind
-- it returns the request of that message, with its headers in order, its body and its place in the
-- stream, and leaves exactly the bytes behind it.
pub next-print :
    (p : RequestParser) (m : Message) (rest : Bytes)
    → IsValid p
    → p.state ≡ head
    → drop p.start p.buffer ≡ []
    → IsPrintable p.limits m
    → viewed (next (feed p (print_message m ++ rest)))
      ≡ (behind_message m (view p) rest, complete (request_of m p.stream_offset))
unfolding receive_in
next-print p m rest v between nothing printable =
    let bytes = print_message m ++ rest in
    let q = feed p bytes in
    let regroup : drop p.start p.buffer ++ bytes ≡ print_head m ++ (payload_of m.payload ++ rest) =
      rw nothing (append_assoc (print_head m) (payload_of m.payload) rest) in
    let received : view q ≡ record (view p) {
      state = head;
      unread = print_head m ++ (payload_of m.payload ++ rest);
    } =
      feed-view p bytes v ∙ received_in p.state (view p) bytes _ between between regroup in
    next-view q (feed-IsValid p bytes v)
    ∙ ap next_request received
    ∙ next_of-print m (record (view p) { state = head }) rest v.offset_lt printable
  where
    received_in :
        (st : State) (s : Stream) (bytes whole : Bytes)
        → st ≡ head
        → s.state ≡ head
        → s.unread ++ bytes ≡ whole
        → receive_in st s bytes ≡ record s { state = head; unread = whole }
    received_in st s bytes whole e k u =
        ap (λ x. receive_in x s bytes) e ∙ (λ i. record s { state = k i; unread = u i })
