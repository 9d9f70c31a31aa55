-- ===== src/DemoClient.antt =====
-- tools/demo_client.cpp: the client that frames responses by their Content-Length. Its sockets' answers
-- are given; what it prints is not modelled.
pub mod Numbers
pub mod Reader
pub mod Lines
pub mod Heads
pub mod Filling
pub mod Texts
pub mod RoundTrip
pub mod Sockets
pub mod Table
pub mod Session
pub mod Pipeline
pub mod Wire
use network_arc_rajasurya.Prelude.{
  ℕ, zero, suc, ◌+◌, ◌-◌, Bool, true, false, ◌&&◌, ◌||◌, not, List, [], ◌∷◌, ◌++◌, Option, none,
  some, Bytes, codes, equal, is_empty, front_is, find, upto, take, drop, length, ltb, leb, ◌==◌,
  if◌then◌else◌, to_string,
}
use network_arc_rajasurya.Prelude.Int.{ℤ, pos, negsuc}
use Reader.{HttpResponse, response_header}

pub record Exchange : Type 0 where
  pub label : Bytes
  pub request : Bytes
  pub expected_status : ℕ
  pub expected_body : Bytes

unfoldable pub escape : Bytes → Bytes
escape [] = []
escape (c ∷ cs) =
    if c == b'\r'
    then codes "\\r" ++ escape cs
    else if c == b'\n'
    then codes "\\n" ++ escape cs
    else c ∷ escape cs

-- The requests of the demonstration.
unfoldable pub build_exchanges : Bytes → List Exchange
build_exchanges host_header =
    let host = codes "Host: " ++ (host_header ++ codes "\r\n") in
    record {
      label = codes "GET /add?a=2&b=3";
      request = codes "GET /add?a=2&b=3 HTTP/1.1\r\n" ++ (host ++ codes "\r\n");
      expected_status = 200;
      expected_body = codes "5\n";
    }
    ∷ record {
      label = codes "GET /sub?a=10&b=4";
      request = codes "GET /sub?a=10&b=4 HTTP/1.1\r\n" ++ (host ++ codes "\r\n");
      expected_status = 200;
      expected_body = codes "6\n";
    }
    ∷ record {
      label = codes "GET /mul?a=6&b=7";
      request = codes "GET /mul?a=6&b=7 HTTP/1.1\r\n" ++ (host ++ codes "\r\n");
      expected_status = 200;
      expected_body = codes "42\n";
    }
    ∷ record {
      label = codes "GET /div?a=1&b=0";
      request = codes "GET /div?a=1&b=0 HTTP/1.1\r\n" ++ (host ++ codes "\r\n");
      expected_status = 400;
      expected_body = [];
    }
    ∷ record {
      label = codes "GET /pow?a=2&b=8";
      request = codes "GET /pow?a=2&b=8 HTTP/1.1\r\n" ++ (host ++ codes "\r\n");
      expected_status = 404;
      expected_body = [];
    }
    ∷ record {
      label = codes "POST /add (7-byte body)";
      request =
          codes "POST /add HTTP/1.1\r\n" ++ (host ++ codes "Content-Length: 7\r\n\r\na=2&b=3");
      expected_status = 405;
      expected_body = [];
    }
    ∷ record {
      label = codes "GET /add (no Host header)";
      request = codes "GET /add?a=2&b=3 HTTP/1.1\r\n\r\n";
      expected_status = 400;
      expected_body = [];
    }
    ∷ []

-- `while (!text.empty() && …) text.pop_back();`: a byte goes when it is an end of line and all behind
-- it goes too.
unfoldable pub trim_newline : Bytes → Bytes
trim_newline [] = []
trim_newline (c ∷ cs) =
    let rest = trim_newline cs in
    if is_empty rest && (c == b'\n' || c == b'\r') then [] else c ∷ rest

abbrev pub has_status : ℤ → ℕ → Bool
has_status (pos n) expected = n == expected
has_status (negsuc n) expected = false

-- `pass` of `report`.
unfoldable pub is_pass : Exchange → HttpResponse → Bool
is_pass e r =
    has_status r.status e.expected_status
    && (is_empty e.expected_body || equal r.body e.expected_body)

-- `same_connection` of `main`: the loop over the responses, from number `i + 1` on.
unfoldable pub same_connection : Bytes → ℕ → List HttpResponse → Bool
same_connection connection_id i [] = true
same_connection connection_id i (r ∷ rs) =
    equal (response_header r (codes "X-Connection-Id")) connection_id
    && equal (response_header r (codes "X-Request-Number")) (to_string (i + 1))
    && same_connection connection_id (i + 1) rs
