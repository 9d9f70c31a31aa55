-- ===== src/Router/Soundness.antt =====
-- src/router.cpp: what each status of `handle_request` means.
use network_arc_rajasurya.Prelude.{
  ℕ, zero, suc, ◌≡◌, ◌⊎◌, inl, inr, refl, Bool, true, false, ◌&&◌, not, [], ◌∷◌, ◌++◌, Option, none,
  some, Bytes, codes, equal, arith, ltb, ◌==◌, either_case, either_branch,
}
use network_arc_rajasurya.Prelude.Int.{ℤ}
use network_arc_rajasurya.Text.{excerpt}
use network_arc_rajasurya.Request.{Request, is_http11, header, header_count, path, query}
use network_arc_rajasurya.Response.{Response, text_response}
use network_arc_rajasurya.Calculator.{
  Operation, add, subtract, multiply, divide, operation_from_path, fits, calculate, to_string_ℤ,
}
use network_arc_rajasurya.Calculator.Exact.{Exact}
use network_arc_rajasurya.Router.Host.{is_valid_host}
use network_arc_rajasurya.Router.Operands.{Checked, valid, invalid, parse_operands}
use network_arc_rajasurya.Router.Slots.{equal-eq, Operands, parse_operands-Operands}
use network_arc_rajasurya.Router.Report.{
  Reports, reports_result, reports_reason, respond_result-Reports,
}
use network_arc_rajasurya.Router.EndToEnd.{path_of}
use network_arc_rajasurya.Router.{
  host_text, respond_result, respond_operands, respond_operation, respond_path, handle_request,
}

-- One Host header that is valid, or none, where the version needs none.
abbrev pub HasHost : Request → Type 0
HasHost request =
    ((header_count request (codes "Host") ≡ 1)
      × (is_valid_host (host_text (header request (codes "Host"))) ≡ true))
    ⊎ ((header_count request (codes "Host") ≡ 0) × (is_http11 request.version ≡ false))

-- All that a result rests on, behind the Host header.
pub record Earned (request : Request) (response : Response) : Type 0 where
  pub operation : Operation
  pub first : ℤ
  pub second : ℤ
  pub value : ℤ
  pub is_path : path request ≡ path_of operation
  pub is_get : request.method ≡ codes "GET"
  pub operands : Operands (query request) first second
  pub exact : Exact operation first second value
  pub in_range : fits value ≡ true
  pub body_lem : response.body ≡ to_string_ℤ value ++ b'\n' ∷ []

operation_from_path-path_of :
    (text : Bytes) (op : Operation) → operation_from_path text ≡ some op → text ≡ path_of op
unfolding operation_from_path
operation_from_path-path_of text add e = ground (arith, equal-eq text (codes "/add"))
operation_from_path-path_of text subtract e = ground (arith, equal-eq text (codes "/sub"))
operation_from_path-path_of text multiply e = ground (arith, equal-eq text (codes "/mul"))
operation_from_path-path_of text divide e = ground (arith, equal-eq text (codes "/div"))

result-Earned :
    (request : Request) (op : Operation) (a b : ℤ) (response : Response)
    → path request ≡ path_of op
    → request.method ≡ codes "GET"
    → Operands (query request) a b
    → Reports op a b response
    → response.status ≡ 200
    → Earned request response
result-Earned request op a b response p g q (reports_result v exact in_range ok body) h = record {
  operation = op;
  first = a;
  second = b;
  value = v;
  is_path = p;
  is_get = g;
  operands = q;
  exact = exact;
  in_range = in_range;
  body_lem = body;
}
result-Earned request op a b response p g q (reports_reason none_fits bad body) h =
    absurd (omega arith)

operands-Earned :
    (request : Request) (op : Operation) (c : Checked (ℤ × ℤ))
    → path request ≡ path_of op
    → request.method ≡ codes "GET"
    → parse_operands (query request) ≡ c
    → (respond_operands op c).status ≡ 200
    → Earned request (respond_operands op c)
unfolding respond_operands
operands-Earned request op (invalid message) p g q h = absurd (unfold text_response in omega arith)
operands-Earned request op (valid (a, b)) p g q h =
    let o = parse_operands-Operands (query request) a b q in
    result-Earned request op a b _ p g o
      (respond_result-Reports op a b o.first_value.1 o.second_value.1) h

abbrev IfOk : Request → Response → Type 0
IfOk request response = response.status ≡ 200 → Earned request response

refused-IfOk :
    (request : Request)
    → IfOk request
        (record (text_response 405
          (codes "method " ++ (excerpt request.method ++ codes " not allowed; use GET"))) {
            headers = record { name = codes "Allow"; value = codes "GET" } ∷ [];
          })
unfolding text_response
refused-IfOk request h = absurd (omega arith)

operation-IfOk :
    (request : Request) (op : Operation)
    → operation_from_path (path request) ≡ some op
    → IfOk request (respond_operation request op)
unfolding respond_operation
operation-IfOk request op p =
    either_case (IfOk request) (not (equal request.method (codes "GET"))) _ _
      (λ _. refused-IfOk request)
      (λ get.
        operands-Earned request op (parse_operands (query request))
          (operation_from_path-path_of (path request) op p)
          (equal-eq request.method (codes "GET") (ground arith)) refl)

path-IfOk :
    (request : Request) (o : Option Operation)
    → operation_from_path (path request) ≡ o
    → IfOk request (respond_path request o)
unfolding respond_path
path-IfOk request none p h = absurd (unfold text_response in omega arith)
path-IfOk request (some op) p h = operation-IfOk request op p h

-- Every response is a 400 of the Host checks, or that of the later steps.
handle_request-cases :
    (P : Response → Type 0) (request : Request)
    → ((message : Bytes) → P (text_response 400 message))
    → (HasHost request → P (respond_path request (operation_from_path (path request))))
    → P (handle_request request)
unfolding handle_request
handle_request-cases P request bad later =
    let host_headers = header_count request (codes "Host") in
    let host = host_text (header request (codes "Host")) in
    either_case P (ltb 1 host_headers) _ _ (λ _. bad (codes "multiple Host headers"))
      (λ few.
        either_case P (host_headers == 0 && is_http11 request.version) _ _
          (λ _. bad (codes "missing Host header (required in HTTP/1.1)"))
          (λ no_need.
            either_case P (host_headers == 1 && not (is_valid_host host)) _ _
              (λ _. bad (codes "invalid Host header '" ++ (excerpt host ++ codes "'")))
              (λ good. later (
                has_host host_headers (is_http11 request.version) (is_valid_host host) few no_need
                  good))))
  where
    has_host :
        (n : ℕ) (needed is_valid : Bool)
        → ltb 1 n ≡ false
        → (n == 0 && needed) ≡ false
        → (n == 1 && not is_valid) ≡ false
        → ((n ≡ 1) × (is_valid ≡ true)) ⊎ ((n ≡ 0) × (needed ≡ false))
    has_host zero needed is_valid few no_need good = inr (refl, ground arith)
    has_host (suc n) needed is_valid few no_need good = inl (ground arith, ground arith)

-- A response 200 is earned: the request has one valid Host header, or has none and is not HTTP/1.1;
-- the method is GET and the path that of an operation; the query is well formed and has one
-- parameter a and one parameter b and no other, which are read as 64-bit values; and the body is the
-- digits of the exact result, a 64-bit value.
pub handle_request-Earned :
    (request : Request)
    → (handle_request request).status ≡ 200
    → HasHost request × Earned request (handle_request request)
handle_request-Earned request =
    handle_request-cases (λ r. r.status ≡ 200 → HasHost request × Earned request r) request
      (λ m h. absurd (unfold text_response in omega arith))
      (λ host h. (host, path-IfOk request (operation_from_path (path request)) refl h))

-- What the router leaves open, and the header that a refused method needs.
pub record Plain (response : Response) : Type 0 where
  pub keeps : response.close_connection ≡ false
  pub has_body : response.omit_body ≡ false
  pub known :
      (response.status ≡ 200)
      ⊎ (response.status ≡ 400)
      ⊎ (response.status ≡ 404)
      ⊎ (response.status ≡ 405)
  pub allows :
      response.status ≡ 405
      → response.headers ≡ record { name = codes "Allow"; value = codes "GET" } ∷ []

text-Plain :
    (status : ℕ) (text : Bytes)
    → (status ≡ 200) ⊎ (status ≡ 400) ⊎ (status ≡ 404)
    → Plain (text_response status text)
unfolding text_response
text-Plain status text h = record {
  keeps = refl;
  has_body = refl;
  known = ground arith;
  allows = λ e. absurd (ground arith);
}

operands-Plain : (op : Operation) (c : Checked (ℤ × ℤ)) → Plain (respond_operands op c)
unfolding respond_operands respond_result
operands-Plain op (invalid message) = text-Plain 400 message (inr (inl refl))
operands-Plain op (valid (a, b)) =
    either_branch Plain (not (calculate op a b).ok) _ _ (text-Plain 400 _ (inr (inl refl)))
      (text-Plain 200 _ (inl refl))

path-Plain : (request : Request) (o : Option Operation) → Plain (respond_path request o)
unfolding respond_path respond_operation
path-Plain request none = text-Plain 404 _ (inr (inr refl))
path-Plain request (some op) =
    either_branch Plain (not (equal request.method (codes "GET"))) _ _
      (unfold text_response in
        record { keeps = refl; has_body = refl; known = inr (inr (inr refl)); allows = λ _. refl })
      (operands-Plain op (parse_operands (query request)))

-- Each response has one of four statuses and a body, keeps the connection, and a 405 allows GET.
pub handle_request-Plain : (request : Request) → Plain (handle_request request)
handle_request-Plain request =
    handle_request-cases Plain request (λ m. text-Plain 400 m (inr (inl refl)))
      (λ _. path-Plain request (operation_from_path (path request)))
