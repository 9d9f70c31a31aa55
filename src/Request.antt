-- ===== src/Request.antt =====
-- include/calc/request.hpp and src/request.cpp: a framed request and the questions asked of it.
use network_arc_rajasurya.Prelude.{
  ℕ, suc, zero, ◌+◌, Bool, true, false, ◌||◌, not, List, [], ◌∷◌, Option, none, some, Bytes, codes,
  find, upto, drop, length, if◌then◌else◌,
}
use network_arc_rajasurya.Text.{iequals, trim_whitespace}

pub data HttpVersion : Type 0 where
  http10 http11 : HttpVersion

pub record Header : Type 0 where
  pub name : Bytes
  pub value : Bytes

pub record Request : Type 0 where
  pub method : Bytes
  pub target : Bytes
  pub version : HttpVersion
  pub headers : List Header
  pub body : Bytes
  pub stream_begin : ℕ
  pub stream_end : ℕ
  pub head_bytes : ℕ

abbrev pub is_http11 : HttpVersion → Bool
is_http11 http10 = false
is_http11 http11 = true

-- `Request{}`.
abbrev pub empty_request : Request
empty_request = record {
  method = [];
  target = [];
  version = http11;
  headers = [];
  body = [];
  stream_begin = 0;
  stream_end = 0;
  head_bytes = 0;
}

-- `Request::header`, over the list: the value of the first header of that name.
unfoldable pub header_in : Bytes → List Header → Option Bytes
header_in name [] = none
header_in name (h ∷ hs) = if iequals h.name name then some h.value else header_in name hs

abbrev pub header : Request → Bytes → Option Bytes
header r name = header_in name r.headers

unfoldable pub header_count_in : Bytes → List Header → ℕ
header_count_in name [] = 0
header_count_in name (h ∷ hs) = (if iequals h.name name then 1 else 0) + header_count_in name hs

abbrev pub header_count : Request → Bytes → ℕ
header_count r name = header_count_in name r.headers

unfoldable pub path : Request → Bytes
path r = upto (find b'?' r.target) r.target

abbrev pub behind : Option ℕ → Bytes → Bytes
behind none xs = []
behind (some n) xs = drop (suc n) xs

unfoldable pub query : Request → Bytes
query r = behind (find b'?' r.target) r.target

-- The two flags of `wants_keep_alive`.
pub record Options : Type 0 where
  pub close : Bool
  pub keep_alive : Bool

-- One option of a `Connection` header.
abbrev pub note_option : Bytes → Options → Options
note_option option o = record {
  close = if iequals option (codes "close") then true else o.close;
  keep_alive = if iequals option (codes "keep-alive") then true else o.keep_alive;
}

-- `while (!options.empty())`: each round takes at least a comma away, so fuel of the length of the
-- text is enough.
unfoldable pub scan_options : ℕ → Bytes → Options → Options
scan_options zero options o = o
scan_options (suc fuel) [] o = o
scan_options (suc fuel) (c ∷ cs) o =
    let comma = find b',' (c ∷ cs) in
    scan_options fuel (behind comma (c ∷ cs))
      (note_option (trim_whitespace (upto comma (c ∷ cs))) o)

unfoldable pub scan_connection : List Header → Options → Options
unfolding scan_options
scan_connection [] o = o
scan_connection (h ∷ hs) o = scan_connection hs (
    if not (iequals h.name (codes "Connection"))
    then o
    else scan_options (length h.value) h.value o)

unfoldable pub wants_keep_alive : Request → Bool
unfolding scan_connection
wants_keep_alive r =
    let o = scan_connection r.headers (record { close = false; keep_alive = false }) in
    if o.close then false else is_http11 r.version || o.keep_alive
