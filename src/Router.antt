-- ===== src/Router.antt =====
-- include/calc/router.hpp and src/router.cpp: `handle_request`.
pub mod Host
pub mod Operands
pub mod Slots
pub mod Report
pub mod EndToEnd
pub mod Soundness
pub mod Printed
use network_arc_rajasurya.Prelude.{
  ℕ, Bool, ◌&&◌, not, List, [], ◌∷◌, ◌++◌, Option, none, some, Bytes, codes, equal, ltb, ◌==◌,
  if◌then◌else◌,
}
use network_arc_rajasurya.Prelude.Int.{ℤ}
use network_arc_rajasurya.Text.{excerpt}
use network_arc_rajasurya.Request.{Header, Request, is_http11, header, header_count, path, query}
use network_arc_rajasurya.Response.{Response, text_response}
use network_arc_rajasurya.Calculator.{
  Operation, operation_from_path, CalcResult, calculate, to_string_ℤ,
}
use Host.{is_valid_host}
use Operands.{Checked, valid, invalid, parse_operands}

-- The value of the Host header, which is there when it was counted.
abbrev host_text : Option Bytes → Bytes
host_text none = []
host_text (some value) = value

-- Steps 5 and 6, on the result of `calculate`.
unfoldable pub respond_result : CalcResult → Response
respond_result result =
    if not result.ok
    then text_response 400 result.error
    else text_response 200 (to_string_ℤ result.value)

-- Step 4, on the outcome of `parse_operands`.
unfoldable pub respond_operands : Operation → Checked (ℤ × ℤ) → Response
respond_operands operation (invalid message) = text_response 400 message
respond_operands operation (valid (a, b)) = respond_result (calculate operation a b)

-- Step 3.
unfoldable pub respond_operation : Request → Operation → Response
respond_operation request operation =
    if not (equal request.method (codes "GET"))
    then record (text_response 405
        (codes "method " ++ (excerpt request.method ++ codes " not allowed; use GET"))) {
          headers = record { name = codes "Allow"; value = codes "GET" } ∷ [];
        }
    else respond_operands operation (parse_operands (query request))

-- Step 2.
unfoldable pub respond_path : Request → Option Operation → Response
respond_path request none = text_response 404 (
    codes "unknown operation '"
    ++ (excerpt (path request) ++ codes "'; supported: /add /sub /mul /div"))
respond_path request (some operation) = respond_operation request operation

-- Step 1, and the others behind it.
unfoldable pub handle_request : Request → Response
handle_request request =
    let host_headers = header_count request (codes "Host") in
    let host = host_text (header request (codes "Host")) in
    if ltb 1 host_headers
    then text_response 400 (codes "multiple Host headers")
    else if host_headers == 0 && is_http11 request.version
    then text_response 400 (codes "missing Host header (required in HTTP/1.1)")
    else if host_headers == 1 && not (is_valid_host host)
    then text_response 400 (codes "invalid Host header '" ++ (excerpt host ++ codes "'"))
    else respond_path request (operation_from_path (path request))
