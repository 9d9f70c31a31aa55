-- ===== src/DemoClient/Texts.antt =====
-- src/response.cpp as tools/demo_client.cpp reads it: the lines of a serialized response.
use network_arc_rajasurya.Prelude.{
  all_of-append, lines_text, ℕ, ◌+◌, ◌≡◌, ◌<◌, ◌^◌, refl, ap, ◌∙◌, inl, inr, true, false, List, [],
  ◌∷◌, ◌++◌, map, append_assoc, Bytes, codes, cr, lf, find, length, to_string, if◌then◌else◌,
  all_of, Bool-cases, length-append, arith,
}
use network_arc_rajasurya.Prelude.Int.{pos}
use network_arc_rajasurya.Request.{Header}
use network_arc_rajasurya.Response.{
  Response, reason_phrase, header_lines, serialize_head, serialize,
}
use network_arc_rajasurya.DemoClient.Reader.{Field, HttpResponse}
use network_arc_rajasurya.DemoClient.Lines.{not_cr}
use network_arc_rajasurya.DemoClient.Heads.{
  field_line, ArePlain, digits-front, digits-not_cr, to_string-digits, status_line,
}

abbrev pub to_field : Header → Field
to_field h = record { key = h.name; value = h.value }

abbrev pub response_fields : Response → List Field
unfolding codes
response_fields r =
    record { key = codes "Content-Length"; value = to_string (length r.body) }
    ∷ record { key = codes "Content-Type"; value = codes "text/plain" }
    ∷ record {
      key = codes "Connection";
      value = if r.close_connection then codes "close" else codes "keep-alive";
    }
    ∷ map to_field r.headers

-- The response as the client has to see it.
abbrev pub received : Response → HttpResponse
received r = record {
  status = pos r.status;
  reason = reason_phrase r.status;
  headers = response_fields r;
  body = r.body;
  raw = serialize r;
}

-- The body is sent, the status is an `int`, the whole fits a `std::size_t`, and the response's own
-- headers are plain.
pub record IsReadable (r : Response) : Type 0 where
  pub sends_body : r.omit_body ≡ false
  pub status_int : r.status < 2 ^ 31
  pub total : length (serialize r) < 2 ^ 64
  pub plain : ArePlain (map to_field r.headers)

pub header_lines-text :
    (hs : List Header) → header_lines hs ≡ lines_text (map field_line (map to_field hs))
unfolding header_lines codes
header_lines-text [] = refl
header_lines-text (h ∷ hs) = simp (header_lines-text hs, append_assoc)

abbrev pub head_lines : Response → Bytes
head_lines r = lines_text (map field_line (response_fields r))

-- The head is a status line, the fields and a blank line.
pub serialize_head-lines :
    (r : Response)
    → serialize_head r
      ≡ status_line r.status (reason_phrase r.status) ++ cr ∷ lf ∷ (head_lines r ++ cr ∷ lf ∷ [])
unfolding serialize_head codes
serialize_head-lines r = elim (Bool-cases r.close_connection) [
  | inl e ↦ rw (e, header_lines-text r.headers) (simp append_assoc)
  | inr e ↦ rw (e, header_lines-text r.headers) (simp append_assoc)
]

abbrev pub first_line : Response → Bytes
first_line r = status_line r.status (reason_phrase r.status)

-- The head without its blank line.
abbrev pub head_text : Response → Bytes
head_text r = first_line r ++ cr ∷ lf ∷ head_lines r

-- Where the blank line begins.
abbrev pub blank_at : Response → ℕ
blank_at r = length (first_line r) + length (head_lines r)

pub reason_phrase-IsLine : (status : ℕ) → all_of not_cr (reason_phrase status) ≡ true
unfolding reason_phrase all_of codes
reason_phrase-IsLine status = ground arith

pub first_line-IsLine : (r : Response) → all_of not_cr (first_line r) ≡ true
unfolding codes
first_line-IsLine r =
    let reason : all_of not_cr (b' ' ∷ reason_phrase r.status) ≡ true =
      (unfold all_of in reason_phrase-IsLine r.status) in
    all_of-append not_cr (codes "HTTP/1.1 ") (to_string r.status ++ b' ' ∷ reason_phrase r.status)
      (unfold all_of in refl)
      (all_of-append not_cr (to_string r.status) _ (digits-not_cr _ (to_string-digits r.status))
        reason)

pub response_fields-ArePlain :
    (r : Response) → ArePlain (map to_field r.headers) → ArePlain (response_fields r)
unfolding codes all_of find
response_fields-ArePlain r h =
    let digits = to_string-digits (length r.body) in
    (
      record {
        no_colon = refl;
        key_line = refl;
        value_line = digits-not_cr _ digits;
        no_space = digits-front _ digits;
      },
      (
        record { no_colon = refl; key_line = refl; value_line = refl; no_space = refl },
        (
          record {
            no_colon = refl;
            key_line = refl;
            value_line = ground arith;
            no_space = ground arith;
          },
          h,
        ),
      ),
    )

pub serialize_head-append :
    (r : Response) (rest : Bytes)
    → serialize_head r ++ rest ≡ first_line r ++ cr ∷ lf ∷ (head_lines r ++ cr ∷ lf ∷ rest)
serialize_head-append r rest =
    ap (λ t. t ++ rest) (serialize_head-lines r)
    ∙ append_assoc (first_line r) (cr ∷ lf ∷ (head_lines r ++ cr ∷ lf ∷ [])) rest
    ∙ ap (λ t. first_line r ++ cr ∷ lf ∷ t) (append_assoc (head_lines r) (cr ∷ lf ∷ []) rest)

pub length-head_text : (r : Response) → length (head_text r) ≡ blank_at r + 2
length-head_text r = omega (arith, length-append (first_line r) (cr ∷ lf ∷ head_lines r))

pub length-serialize_head : (r : Response) → length (serialize_head r) ≡ blank_at r + 4
length-serialize_head r = rw (serialize_head-lines r) (
    omega (
      arith,
      length-append (first_line r) (cr ∷ lf ∷ (head_lines r ++ cr ∷ lf ∷ [])),
      length-append (head_lines r) (cr ∷ lf ∷ []),
    ))
