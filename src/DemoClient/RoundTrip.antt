-- ===== src/DemoClient/RoundTrip.antt =====
-- tools/demo_client.cpp, `ResponseReader`: what the server has written is read back.
use network_arc_rajasurya.Prelude.{
  ◌+◌, ◌≡◌, ◌≤◌, ◌<◌, ◌^◌, refl, subst, sym, ap, ◌∙◌, inl, inr, false, List, ◌∷◌, ◌++◌, map,
  append_assoc, some, Bytes, codes, cr, lf, take, drop, length, ltb, to_string, Option-cases,
  take-append, drop-append, length-append, take-length-append, drop-length-append, take-append-drop,
  substr, u64, le→ltb, ltb→le, arith,
}
use network_arc_rajasurya.Prelude.Int.{pos}
use network_arc_rajasurya.Text.{iequals}
use network_arc_rajasurya.Response.{Response, reason_phrase, serialize_head, serialize}
use network_arc_rajasurya.Connection.Socket.{RecvAnswer}
use network_arc_rajasurya.Calculator.RoundTrip.{to_string-Written}
use network_arc_rajasurya.DemoClient.Numbers.{stoul-to_string}
use network_arc_rajasurya.DemoClient.Reader.{
  Field, HttpResponse, StatusLine, Read, take_body, cut_body, full, got, find_text, blank_line,
  is_none, first_value, read_head, read_body, read_found, read_filled, read_one,
}
use network_arc_rajasurya.DemoClient.Lines.{find_blank-lines, find_text-append, find_text-bound}
use network_arc_rajasurya.DemoClient.Heads.{
  field_line, read_head-lines, field_lines-AreLines, parse_status-line,
}
use network_arc_rajasurya.DemoClient.Filling.{Delivers, arriving, fill_while-IsFilled}
use network_arc_rajasurya.DemoClient.Texts.{
  response_fields, received, IsReadable, head_lines, first_line, head_text, blank_at,
  first_line-IsLine, response_fields-ArePlain, serialize_head-append, length-head_text,
  length-serialize_head,
}

-- A read that returns the response and leaves what follows it.
pub record IsRead (result : Read) (r : HttpResponse) (rest : Bytes) : Type 0 where
  pub unread : Bytes
  pub left : List RecvAnswer
  pub returns : result ≡ got r unread left
  pub delivers : Delivers left
  pub same : unread ++ arriving left ≡ rest

-- A prefix of a stream that begins with `text`, and is long enough, begins with `text` too.
prefix_of_stream :
    (held behind text rest : Bytes)
    → held ++ behind ≡ text ++ rest
    → length text ≤ length held
    → take (length text) held ≡ text
prefix_of_stream held behind text rest e h =
    sym (take-append (length text) held behind h)
    ∙ ap (take (length text)) e
    ∙ take-length-append text rest

module _ (s : StatusLine) (fields : List Field) (head body rest : Bytes) where
  abbrev message : HttpResponse
  message = record {
    status = s.code;
    reason = s.phrase;
    headers = fields;
    body = body;
    raw = head ++ body;
  }

  cut_body-IsRead :
      (held : Bytes) (left : List RecvAnswer)
      → Delivers left
      → length (head ++ body) < 2 ^ 64
      → length (head ++ body) ≤ length held
      → held ++ arriving left ≡ (head ++ body) ++ rest
      → IsRead (cut_body s fields (length head) (length body) (full held left)) message rest
  cut_body-IsRead held left d bound long e =
      let size = length (head ++ body) in
      let end : u64 (length head + length body) ≡ size = omega (arith, length-append head body) in
      let raw = prefix_of_stream held (arriving left) (head ++ body) rest e long in
      let behind = drop size held in
      let whole : held ≡ head ++ (body ++ behind) =
        sym (take-append-drop size held)
        ∙ ap (λ t. t ++ behind) raw
        ∙ append_assoc head body behind in
      let cut : substr (length head) (length body) held ≡ body =
        ap (substr (length head) (length body)) whole
        ∙ ap (take (length body)) (drop-length-append head (body ++ behind))
        ∙ take-length-append body behind in
      record {
        unread = behind;
        left = left;
        returns = rw (end, cut, raw) refl;
        delivers = d;
        same =
            sym (drop-append size held (arriving left) long)
            ∙ ap (drop size) e
            ∙ drop-length-append (head ++ body) rest;
      }

  take_body-IsRead :
      (answers : List RecvAnswer) (buffer : Bytes)
      → Delivers answers
      → length (head ++ body) < 2 ^ 64
      → buffer ++ arriving answers ≡ (head ++ body) ++ rest
      → IsRead (take_body s fields (length head) (length body) answers buffer) message rest
  unfolding take_body
  take_body-IsRead answers buffer d bound e =
      let size = length (head ++ body) in
      let end : size ≡ u64 (length head + length body) = omega (arith, length-append head body) in
      let more = λ (b : Bytes). ltb (length b) (u64 (length head + length body)) in
      let enough : more (buffer ++ arriving answers) ≡ false =
        rw e (le→ltb _ _ (omega (arith, end, length-append (head ++ body) rest))) in
      let f = fill_while-IsFilled more answers buffer d enough in
      let long : size ≤ length f.held = omega (arith, ltb→le _ _ f.done, end) in
      subst (λ x. IsRead (cut_body s fields (length head) (length body) x) message rest)
        (sym f.fills) (cut_body-IsRead f.held f.left f.delivers bound long (f.same ∙ e))

module _ (r : Response) (readable : IsReadable r) where
  serialize-body : serialize r ≡ serialize_head r ++ r.body
  unfolding serialize
  serialize-body = rw readable.sends_body refl

  serialize_head-found :
      (rest : Bytes) → find_text blank_line (serialize_head r ++ rest) ≡ some (blank_at r)
  unfolding codes
  serialize_head-found rest =
      let lines =
        field_lines-AreLines (response_fields r) (response_fields-ArePlain r readable.plain) in
      rw (serialize_head-append r rest) (
        find_blank-lines b'H' _ (map field_line (response_fields r)) rest (first_line-IsLine r)
          lines)

  read_head-head_text :
      (buffer : Bytes)
      → take (blank_at r + 2) buffer ≡ head_text r
      → read_head (blank_at r) buffer
        ≡ some (
          record { code = pos r.status; phrase = reason_phrase r.status },
          response_fields r,
          length r.body,
        )
  read_head-head_text buffer e =
      let plain = response_fields-ArePlain r readable.plain in
      let first : first_value (codes "Content-Length") (response_fields r)
          ≡ to_string (length r.body) =
        (unfold first_value iequals codes in refl) in
      let total : length (serialize_head r ++ r.body) < 2 ^ 64 =
        subst (λ t. length t < 2 ^ 64) serialize-body readable.total in
      let short : length r.body < 2 ^ 64 =
        omega (arith, total, length-append (serialize_head r) r.body) in
      read_head-lines (blank_at r) buffer (first_line r) (response_fields r) (first_line-IsLine r)
        plain e
      ∙ rw
          (
            first,
            parse_status-line r.status (reason_phrase r.status) readable.status_int,
            (to_string-Written (length r.body)).nonempty,
            stoul-to_string (length r.body) short,
          )
          refl

  module _ (held rest : Bytes) (left : List RecvAnswer)
      (same : held ++ arriving left ≡ serialize_head r ++ rest)
      (done : is_none (find_text blank_line held) ≡ false) where
    found_in_held : find_text blank_line held ≡ some (blank_at r)
    found_in_held = elim (Option-cases (find_text blank_line held)) [
      | inl e ↦ cc
      | inr (n, e) ↦ cc (
        find_text-append blank_line held (arriving left) n e,
        ap (find_text blank_line) same,
        serialize_head-found rest,
      )
    ]

    head_in_held : take (blank_at r + 2) held ≡ head_text r
    head_in_held =
        let bound = find_text-bound blank_line held (blank_at r) found_in_held in
        let stream : held ++ arriving left ≡ head_text r ++ cr ∷ lf ∷ rest =
          same
          ∙ serialize_head-append r rest
          ∙ sym (append_assoc (first_line r) (cr ∷ lf ∷ head_lines r) (cr ∷ lf ∷ rest)) in
        subst (λ n. take n held ≡ head_text r) (length-head_text r)
          (prefix_of_stream held (arriving left) (head_text r) (cr ∷ lf ∷ rest) stream
            (omega (arith, bound, length-head_text r)))

    read_found-IsRead :
        (later : Bytes)
        → rest ≡ r.body ++ later
        → Delivers left
        → IsRead (read_found (find_text blank_line held) left held) (received r) later
    read_found-IsRead later split d =
        let s : StatusLine = record { code = pos r.status; phrase = reason_phrase r.status } in
        let fields = response_fields r in
        let total = subst (λ t. length t < 2 ^ 64) serialize-body readable.total in
        let stream : held ++ arriving left ≡ (serialize_head r ++ r.body) ++ later =
          same
          ∙ ap (λ t. serialize_head r ++ t) split
          ∙ sym (append_assoc (serialize_head r) r.body later) in
        let body =
          take_body-IsRead s fields (serialize_head r) r.body later left held d total stream in
        let parsed : read_body (blank_at r + 4) (read_head (blank_at r) held) left held
            ≡ take_body s fields (blank_at r + 4) (length r.body) left held =
          (unfold read_body in
            ap (λ o. read_body (blank_at r + 4) o left held)
              (read_head-head_text held head_in_held)) in
        let reads : read_found (find_text blank_line held) left held
            ≡ take_body s fields (length (serialize_head r)) (length r.body) left held =
          ap (λ o. read_found o left held) found_in_held
          ∙ parsed
          ∙ ap (λ n. take_body s fields n (length r.body) left held)
              (sym (length-serialize_head r)) in
        rw (reads, serialize-body) body

-- A response that the server has serialized with its body (not one to a HEAD), whose status is below
-- 2^31, whose text is shorter than 2^64 and whose own headers have no colon in the name, no CR, and no
-- space at the start of the value, is read back with its status, headers and body, however the stream
-- is cut into pieces of at most 4096 bytes, and what follows it is left for the next read.
pub read_one-serialize :
    (r : Response) (answers : List RecvAnswer) (buffer rest : Bytes)
    → IsReadable r
    → Delivers answers
    → buffer ++ arriving answers ≡ serialize r ++ rest
    → IsRead (read_one answers buffer) (received r) rest
unfolding read_one
read_one-serialize r answers buffer rest h d e =
    let more = λ (b : Bytes). is_none (find_text blank_line b) in
    let stream : buffer ++ arriving answers ≡ serialize_head r ++ (r.body ++ rest) =
      e ∙ ap (λ t. t ++ rest) (serialize-body r h) ∙ append_assoc (serialize_head r) r.body rest in
    let enough : more (buffer ++ arriving answers) ≡ false =
      ap more stream ∙ ap is_none (serialize_head-found r h (r.body ++ rest)) in
    let f = fill_while-IsFilled more answers buffer d enough in
    subst (λ x. IsRead (read_filled x) (received r) rest) (sym f.fills)
      (read_found-IsRead r h f.held (r.body ++ rest) f.left (f.same ∙ stream) f.done rest refl
        f.delivers)
