-- ===== src/Response.antt =====
-- include/calc/response.hpp and src/response.cpp: responses and their wire bytes.
use network_arc_rajasurya.Prelude.{
  ℕ, Bool, false, not, List, [], ◌∷◌, ◌++◌, Bytes, codes, length, ◌==◌, if◌then◌else◌, to_string,
}
use network_arc_rajasurya.Request.{Header}

pub record Response : Type 0 where
  pub status : ℕ
  pub body : Bytes
  pub headers : List Header
  pub close_connection : Bool
  pub omit_body : Bool

unfoldable pub text_response : ℕ → Bytes → Response
text_response status text = record {
  status = status;
  body = text ++ b'\n' ∷ [];
  headers = [];
  close_connection = false;
  omit_body = false;
}

unfoldable pub reason_phrase : ℕ → Bytes
reason_phrase status =
    if status == 200
    then codes "OK"
    else if status == 400
    then codes "Bad Request"
    else if status == 404
    then codes "Not Found"
    else if status == 405
    then codes "Method Not Allowed"
    else if status == 408
    then codes "Request Timeout"
    else if status == 413
    then codes "Content Too Large"
    else if status == 431
    then codes "Request Header Fields Too Large"
    else if status == 500
    then codes "Internal Server Error"
    else if status == 501
    then codes "Not Implemented"
    else if status == 505
    then codes "HTTP Version Not Supported"
    else codes "Unknown"

-- The additional headers, a line each.
unfoldable pub header_lines : List Header → Bytes
header_lines [] = []
header_lines (h ∷ hs) = h.name ++ (codes ": " ++ (h.value ++ (codes "\r\n" ++ header_lines hs)))

-- Everything up to the blank line, and with it.
unfoldable pub serialize_head : Response → Bytes
unfolding header_lines reason_phrase
serialize_head r =
    codes "HTTP/1.1 "
    ++ (to_string r.status
        ++ (codes " "
            ++ (reason_phrase r.status
                ++ (codes "\r\nContent-Length: "
                    ++ (to_string (length r.body)
                        ++ (codes "\r\nContent-Type: text/plain\r\n"
                            ++ ((if r.close_connection
                                  then codes "Connection: close\r\n"
                                  else codes "Connection: keep-alive\r\n")
                                ++ (header_lines r.headers ++ codes "\r\n"))))))))

unfoldable pub serialize : Response → Bytes
serialize r = serialize_head r ++ (if not r.omit_body then r.body else [])
