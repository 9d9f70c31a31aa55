-- ===== src/DemoClient/Session.antt =====
-- tools/demo_client.cpp: `main`, from its options to its exit status, on the answers of the system.
-- What it prints is not modelled.
use network_arc_rajasurya.Prelude.{
  ℕ, zero, suc, Bool, true, false, ◌&&◌, List, [], ◌∷◌, ◌++◌, Option, none, some, Bytes, codes,
  equal, length, if◌then◌else◌,
}
use network_arc_rajasurya.Prelude.Int.{ℤ}
use network_arc_rajasurya.Connection.Socket.{SendAnswer, RecvAnswer}
use network_arc_rajasurya.DemoClient.{
  Exchange, build_exchanges, has_status, is_pass, same_connection,
}
use network_arc_rajasurya.DemoClient.Reader.{
  HttpResponse, response_header, Read, got, threw, waits, read_one,
}
use network_arc_rajasurya.DemoClient.Sockets.{
  Resolution, Connected, connected, refused, connect_once, Sending, all_sent, send_threw,
  send_waits, send_all, Peeked, socket_is_open,
}

pub record Options : Type 0 where
  pub host : Bytes
  pub port : Bytes
  pub pipeline : Bool
  pub show_bytes : Bool

abbrev pub default_options : Options
default_options = record {
  host = codes "127.0.0.1";
  port = codes "8080";
  pipeline = false;
  show_bytes = false;
}

-- An option that stands alone; `none` is the usage text.
abbrev pub parse_switch : Bytes → Options → (Options → Option Options) → Option Options
parse_switch arg o again =
    if equal arg (codes "--pipeline")
    then again (record o { pipeline = true })
    else if equal arg (codes "--show-bytes")
    then again (record o { show_bytes = true })
    else none

-- The loop over the arguments.
unfoldable pub parse_options : List Bytes → Options → Option Options
parse_options [] o = some o
parse_options (arg ∷ []) o = parse_switch arg o (parse_options [])
parse_options (arg ∷ value ∷ rest) o =
    let at_host = parse_options rest (record o { host = value }) in
    let at_port = parse_options rest (record o { port = value }) in
    let otherwise = parse_switch arg o (parse_options (value ∷ rest)) in
    if equal arg (codes "--host")
    then at_host
    else if equal arg (codes "--port")
    then at_port
    else otherwise

-- A call that returns, throws, or waits for ever.
pub data Outcome (A : Type 0) : Type 0 where
  returns : A → Outcome A
  throws : Outcome A
  hangs : Outcome A

infixl 5 ◌>>=◌
abbrev pub ◌>>=◌ : {A B : Type 0} → Outcome A → (A → Outcome B) → Outcome B
returns a >>= f = f a
throws >>= f = throws
hangs >>= f = hangs

-- The socket and the reader's buffer.
pub record Channel : Type 0 where
  pub sends : List SendAnswer
  pub recvs : List RecvAnswer
  pub wire : Bytes
  pub buffer : Bytes

abbrev pub sent_on : Channel → Sending → Outcome Channel
sent_on c (all_sent wire left) = returns (record c { wire = wire; sends = left })
sent_on c (send_threw wire) = throws
sent_on c (send_waits wire) = hangs

unfoldable pub send : Bytes → Channel → Outcome Channel
send text c = sent_on c (send_all text c.sends c.wire)

abbrev pub read_on : Channel → Read → Outcome (HttpResponse × Channel)
read_on c (got r buffer left) = returns (r, record c { recvs = left; buffer = buffer })
read_on c threw = throws
read_on c waits = hangs

unfoldable pub receive : Channel → Outcome (HttpResponse × Channel)
receive c = read_on c (read_one c.recvs c.buffer)

-- So many calls of `read_one`, in the pipelined mode.
unfoldable pub receive_all : ℕ → Channel → Outcome (List HttpResponse × Channel)
receive_all zero c = returns ([], c)
receive_all (suc n) c = do (r, c1) ← receive c; (rs, c2) ← receive_all n c1; returns (r ∷ rs, c2)

-- Request after request, in the other.
unfoldable pub sequential : List Exchange → Channel → Outcome (List HttpResponse × Channel)
sequential [] c = returns ([], c)
sequential (e ∷ es) c = do
  c1 ← send e.request c
  (r, c2) ← receive c1
  (rs, c3) ← sequential es c2
  returns (r ∷ rs, c3)

-- `batch`
abbrev pub requests_of : List Exchange → Bytes
requests_of [] = []
requests_of (e ∷ es) = e.request ++ requests_of es

unfoldable pub exchange_all : Bool → List Exchange → Channel → Outcome (List HttpResponse × Channel)
exchange_all true es c = do c1 ← send (requests_of es) c; receive_all (length es) c1
exchange_all false es c = sequential es c

-- `all_pass`; a response for each exchange is there.
unfoldable pub all_pass : List Exchange → List HttpResponse → Bool
all_pass [] rs = true
all_pass (e ∷ es) [] = false
all_pass (e ∷ es) (r ∷ rs) = all_pass es rs && is_pass e r

abbrev pub front_header : Bytes → List HttpResponse → Bytes
front_header name [] = []
front_header name (r ∷ rs) = response_header r name

-- What the system answers to a session.
pub record Network : Type 0 where
  pub resolution : Resolution
  pub endpoint_before : Bytes
  pub endpoint_after : Bytes
  pub sends : List SendAnswer
  pub recvs : List RecvAnswer
  pub poll_ready : ℤ
  pub peeked : Peeked

abbrev pub probe_request : Options → Bytes
probe_request o =
    codes "GET /div?a=84&b=2 HTTP/1.1\r\nHost: "
    ++ (o.host ++ (codes ":" ++ (o.port ++ codes "\r\n\r\n")))

abbrev pub is_probe_ok : Bytes → HttpResponse → Bool
is_probe_ok connection_id r =
    has_status r.status 200
    && equal r.body (codes "42\n")
    && equal (response_header r (codes "X-Connection-Id")) connection_id

-- `probe_ok`, for a connection that is still open.
unfoldable pub probe : Options → Bytes → Channel → Outcome Bool
probe o connection_id c = do
  c1 ← send (probe_request o) c
  (r, c2) ← receive c1
  returns (is_probe_ok connection_id r)

-- `pass`, from the responses on.
abbrev pub judge : List Exchange → List HttpResponse → Network → Bool → Bool → Bool
judge es rs n is_open probe_ok =
    all_pass es rs
    && same_connection (front_header (codes "X-Connection-Id") rs) 0 rs
    && equal n.endpoint_before n.endpoint_after
    && is_open
    && probe_ok

module _ (errno_message gai_message : ℕ → Bytes) where
  -- The `try` block behind `connect_once`.
  unfoldable pub converse : Options → Network → Outcome Bool
  converse o n = do
    let es = build_exchanges (o.host ++ (codes ":" ++ o.port))
    (rs, c) ←
        exchange_all o.pipeline es
          (record { sends = n.sends; recvs = n.recvs; wire = []; buffer = [] })
    let is_open = (socket_is_open errno_message n.poll_ready n.peeked).0
    probe_ok ←
        if is_open then probe o (front_header (codes "X-Connection-Id") rs) c else returns false
    returns (judge es rs n is_open probe_ok)

  abbrev pub status_of : Outcome Bool → Outcome ℕ
  status_of (returns pass) = returns (if pass then 0 else 1)
  status_of throws = returns 1
  status_of hangs = hangs

  abbrev pub session : Options → Network → Connected → Outcome ℕ
  session o n (refused message) = returns 1
  session o n (connected fd) = status_of (converse o n)

  abbrev pub start : Option Options → Network → Outcome ℕ
  start none n = returns 2
  start (some o) n =
      session o n (connect_once errno_message gai_message o.host o.port n.resolution).0

  -- The exit status of the program, unless a call never returns.
  unfoldable pub client_main : List Bytes → Network → Outcome ℕ
  client_main args n = start (parse_options args default_options) n
