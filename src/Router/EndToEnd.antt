-- ===== src/Router/EndToEnd.antt =====
-- src/router.cpp: a well-formed request is answered with the result, from its bytes to its digits.
use network_arc_rajasurya.Prelude.{
  ℕ, ◌≡◌, refl, Bool, true, [], ◌∷◌, ◌++◌, none, some, Bytes, codes, equal, find, all_of,
  take-length-append,
}
use network_arc_rajasurya.Prelude.Int.{ℤ}
use network_arc_rajasurya.Request.{Request, header, header_count, path, query}
use network_arc_rajasurya.Calculator.{
  Operation, add, subtract, multiply, divide, operation_from_path, fits, to_string_ℤ,
}
use network_arc_rajasurya.Calculator.RoundTrip.{to_string_ℤ-bytes, parse_int64-to_string}
use network_arc_rajasurya.Query.RoundTrip.{
  Escapes, print_query, parse_query-print, find-append, drop-separator,
}
use network_arc_rajasurya.Router.Host.{is_valid_host}
use network_arc_rajasurya.Router.Operands.{valid, fill_slot, parse_operand, parse_operands}
use network_arc_rajasurya.Router.Report.{Reports, respond_result-Reports}
use network_arc_rajasurya.Router.{respond_operands, respond_operation, respond_path, handle_request}

abbrev pub path_of : Operation → Bytes
path_of add = codes "/add"
path_of subtract = codes "/sub"
path_of multiply = codes "/mul"
path_of divide = codes "/div"

-- The query string of two operands, with the escapes that the client chose.
abbrev pub operands_query : (ℕ → Bool) → ℤ → ℤ → Bytes
operands_query reserved a b =
    print_query reserved (codes "a", to_string_ℤ a) ((codes "b", to_string_ℤ b) ∷ [])

-- The request asks for the operation on two numbers, and names its host as it must.
pub record Asks (reserved : ℕ → Bool) (op : Operation) (a b : ℤ) (request : Request) : Type 0 where
  pub host : Bytes
  pub one_host : header_count request (codes "Host") ≡ 1
  pub has_host : header request (codes "Host") ≡ some host
  pub valid_host : is_valid_host host ≡ true
  pub is_get : request.method ≡ codes "GET"
  pub target : request.target ≡ path_of op ++ b'?' ∷ operands_query reserved a b

find-path_of : (op : Operation) → find b'?' (path_of op) ≡ none
unfolding find codes
find-path_of add = refl
find-path_of subtract = refl
find-path_of multiply = refl
find-path_of divide = refl

operation-path_of : (op : Operation) → operation_from_path (path_of op) ≡ some op
unfolding operation_from_path equal codes
operation-path_of add = refl
operation-path_of subtract = refl
operation-path_of multiply = refl
operation-path_of divide = refl

parse_operand-to_string :
    (name : Bytes) (a : ℤ) → fits a ≡ true → parse_operand name (to_string_ℤ a) ≡ valid a
unfolding parse_operand
parse_operand-to_string name a f = rw (parse_int64-to_string a f) refl

equal_get : (method : Bytes) → method ≡ codes "GET" → equal method (codes "GET") ≡ true
unfolding equal codes
equal_get method e = rw e refl

module _ {reserved : ℕ → Bool} (escapes : Escapes reserved) where
  parse_operands-query :
      (a b : ℤ)
      → fits a ≡ true
      → fits b ≡ true
      → parse_operands (operands_query reserved a b) ≡ valid (a, b)
  unfolding parse_operands fill_slot equal codes all_of
  parse_operands-query a b fa fb =
      rw
        (parse_query-print reserved escapes (codes "a", to_string_ℤ a)
          ((codes "b", to_string_ℤ b) ∷ [])
          (refl, to_string_ℤ-bytes a, (refl, to_string_ℤ-bytes b, tt)))
        (rw (parse_operand-to_string (codes "a") a fa, parse_operand-to_string (codes "b") b fb)
          refl)

  -- A GET request for an operation on two 64-bit numbers, with one valid Host header and any escapes
  -- that cover '%', '=' and '&', is answered with 200 and the digits of the exact result, where that is
  -- a 64-bit value (of a division the quotient that truncates toward zero); and with 400 and one of two
  -- messages, division by zero or integer overflow, where it is not.
  pub handle_request-Asks :
      (op : Operation) (a b : ℤ) (request : Request)
      → fits a ≡ true
      → fits b ≡ true
      → Asks reserved op a b request
      → Reports op a b (handle_request request)
  unfolding handle_request
  handle_request-Asks op a b request fa fb r =
      let q = operands_query reserved a b in
      let at = find-append b'?' (path_of op) q (find-path_of op) in
      let p : path request ≡ path_of op =
        unfold path in rw (r.target, at, take-length-append (path_of op) (b'?' ∷ q)) refl in
      let k : query request ≡ q =
        unfold query in rw (r.target, at, drop-separator (path_of op) q b'?') refl in
      rw (r.one_host, r.has_host, r.valid_host, p, operation-path_of op)
        (unfold respond_path respond_operation respond_operands in
          rw (equal_get request.method r.is_get, k, parse_operands-query a b fa fb)
            (respond_result-Reports op a b fa fb))
