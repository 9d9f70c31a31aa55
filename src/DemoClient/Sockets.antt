-- ===== src/DemoClient/Sockets.antt =====
-- tools/demo_client.cpp: `connect_once`, `send_all` and `socket_is_open`, on the answers of the system.
-- `strerror` and `gai_strerror` are parameters.
use network_arc_rajasurya.Prelude.{
  ℕ, ◌≡◌, refl, sym, ap, subst, ◌∙◌, arith, inl, inr, ◌⊎◌, Bool, true, false, List, [], ◌∷◌, ◌++◌,
  append_assoc, append-nil, Option, none, some, Bytes, codes, is_empty, take, drop, length, min,
  ltb, take-append-drop, if◌then◌else◌,
}
use network_arc_rajasurya.Prelude.Int.{ℤ, pos, negsuc}
use network_arc_rajasurya.FileDescriptor.{no_fd, is_fd}
use network_arc_rajasurya.Connection.Socket.{
  SendAnswer, room_for, send_fails, eintr, eagain, other_error,
}

-- What `socket` and `connect` answer for one address; `none` is success.
pub record Peer : Type 0 where
  pub socket_fd : ℤ
  pub connect_errno : Option ℕ

pub data Resolution : Type 0 where
  unresolved : ℕ → Resolution
  peers : List Peer → Resolution

-- `fd` and `error`, and the calls of `close`.
pub record Attempts : Type 0 where
  pub fd : ℤ
  pub error : Bytes
  pub closes : List ℤ

pub data Connected : Type 0 where
  connected : ℤ → Connected
  refused : Bytes → Connected

module _ (errno_message : ℕ → Bytes) where
  -- Behind a call of `connect` on the socket `fd`.
  abbrev pub after_connect : Option ℕ → ℤ → (Attempts → Attempts) → Attempts → Attempts
  after_connect none fd again a = record a { fd = fd }
  after_connect (some errno) fd again a =
      again (record a { fd = no_fd; error = errno_message errno; closes = a.closes ++ fd ∷ [] })

  -- The body of the loop, with `continue` for a socket that was not made.
  abbrev pub try_peer : Peer → (Attempts → Attempts) → Attempts → Attempts
  try_peer p again a =
      if is_fd p.socket_fd
      then after_connect p.connect_errno p.socket_fd again a
      else again (record a { fd = p.socket_fd })

  unfoldable pub try_peers : List Peer → Attempts → Attempts
  try_peers [] a = a
  try_peers (p ∷ ps) a = try_peer p (try_peers ps) a

  module _ (gai_message : ℕ → Bytes) where
    unfoldable pub connect_once : Bytes → Bytes → Resolution → Connected × List ℤ
    connect_once host port (unresolved error) =
        (refused (codes "resolve " ++ (host ++ (codes ": " ++ gai_message error))), [])
    connect_once host port (peers ps) =
        let a = try_peers ps (record { fd = no_fd; error = codes "no address"; closes = [] }) in
        (
          if is_fd a.fd
              then connected a.fd
              else refused (
                  codes "connect to "
                  ++ (host ++ (codes ":" ++ (port ++ (codes " failed: " ++ a.error))))),
          a.closes,
        )

pub data Sending : Type 0 where
  all_sent : Bytes → List SendAnswer → Sending
  send_threw : Bytes → Sending
  send_waits : Bytes → Sending

-- `while (!data.empty())`; `wire` is what the system took so far.
unfoldable pub send_all : Bytes → List SendAnswer → Bytes → Sending
send_all text [] wire = if is_empty text then all_sent wire [] else send_waits wire
send_all text (send_fails eintr ∷ answers) wire =
    let later = send_all text answers wire in
    if is_empty text then all_sent wire (send_fails eintr ∷ answers) else later
send_all text (send_fails eagain ∷ answers) wire =
    if is_empty text then all_sent wire (send_fails eagain ∷ answers) else send_threw wire
send_all text (send_fails (other_error n) ∷ answers) wire =
    if is_empty text then all_sent wire (send_fails (other_error n) ∷ answers) else send_threw wire
send_all text (room_for n ∷ answers) wire =
    let sent = min n (length text) in
    let later = send_all (drop sent text) answers (wire ++ take sent text) in
    if is_empty text then all_sent wire (room_for n ∷ answers) else later

-- What the last `recv` of `socket_is_open` answers: bytes, the FIN, EAGAIN or EWOULDBLOCK, an error.
pub data Peeked : Type 0 where
  pending : Peeked
  fin : Peeked
  nothing_pending : Peeked
  peek_fails : ℕ → Peeked

abbrev pub peek_result : (ℕ → Bytes) → Peeked → Bool × Bytes
peek_result errno_message pending =
    (true, codes "unexpected unsolicited data pending, but the connection is open")
peek_result errno_message nothing_pending = (true, codes "no FIN or RST pending")
peek_result errno_message fin = (false, codes "server sent FIN (closed)")
peek_result errno_message (peek_fails errno) =
    (false, codes "socket error: " ++ errno_message errno)

-- Whether the connection is open, and `detail`. The first argument is what `poll` returns.
unfoldable pub socket_is_open : (ℕ → Bytes) → ℤ → Peeked → Bool × Bytes
socket_is_open errno_message (pos ready) peeked =
    if ltb 0 ready
    then peek_result errno_message peeked
    else (true, codes "poll(): no FIN, RST or data pending")
socket_is_open errno_message (negsuc n) peeked = peek_result errno_message peeked

-- The peer has a socket that is connected.
pub record Accepts (p : Peer) : Type 0 where
  pub is_made : is_fd p.socket_fd ≡ true
  pub is_connected : p.connect_errno ≡ none

-- The peer has no socket, or `connect` fails on it.
abbrev pub Refuses : Peer → Type 0
Refuses p = (is_fd p.socket_fd ≡ false) ⊎ ((n : ℕ) × (p.connect_errno ≡ some n))

abbrev pub AllRefuse : List Peer → Type 0
AllRefuse [] = Unit {0}
AllRefuse (p ∷ ps) = Refuses p × AllRefuse ps

-- The sockets that are made for the peers.
abbrev pub made : List Peer → List ℤ
made [] = []
made (p ∷ ps) = if is_fd p.socket_fd then p.socket_fd ∷ made ps else made ps

-- The first peer that accepts gives the descriptor, and the sockets of those before it are closed.
pub record Chooses (ps : List Peer) (fd : ℤ) (closes : List ℤ) : Type 0 where
  pub before : List Peer
  pub peer : Peer
  pub behind : List Peer
  pub split : ps ≡ before ++ peer ∷ behind
  pub refuse : AllRefuse before
  pub accepts : Accepts peer
  pub its_fd : fd ≡ peer.socket_fd
  pub closed : closes ≡ made before

abbrev pub Accounts : List Peer → Connected × List ℤ → Type 0
Accounts ps (connected fd, closes) = (is_fd fd ≡ true) × Chooses ps fd closes
Accounts ps (refused message, closes) = AllRefuse ps × (closes ≡ made ps)

-- The wire holds all of the text, or a part with something left.
abbrev pub Sends : Bytes → Sending → Type 0
Sends text (all_sent wire left) = wire ≡ text
Sends text (send_threw wire) = (rest : Bytes) × (is_empty rest ≡ false) × (wire ++ rest ≡ text)
Sends text (send_waits wire) = (rest : Bytes) × (is_empty rest ≡ false) × (wire ++ rest ≡ text)

-- What the loop makes of the peers from `a` on.
data Tried (ps : List Peer) (a a' : Attempts) : Type 0 where
  chosen :
      (closes : List ℤ)
      → is_fd a'.fd ≡ true
      → Chooses ps a'.fd closes
      → a'.closes ≡ a.closes ++ closes
      → Tried ps a a'
  none_left : is_fd a'.fd ≡ false → AllRefuse ps → a'.closes ≡ a.closes ++ made ps → Tried ps a a'

-- One more peer in front, which refuses.
Chooses-behind :
    (p : Peer) (ps : List Peer) (fd : ℤ) (closes : List ℤ)
    → Refuses p
    → Chooses ps fd closes
    → Chooses (p ∷ ps) fd (made (p ∷ []) ++ closes)
Chooses-behind p ps fd closes r c = record {
  before = p ∷ c.before;
  peer = c.peer;
  behind = c.behind;
  split = ap (λ l. p ∷ l) c.split;
  refuse = (r, c.refuse);
  accepts = c.accepts;
  its_fd = c.its_fd;
  closed = ap (λ l. made (p ∷ []) ++ l) c.closed ∙ made-cons p c.before;
}
  where
    made-cons : (p : Peer) (ps : List Peer) → made (p ∷ []) ++ made ps ≡ made (p ∷ ps)
    made-cons p ps = ground arith

Tried-behind :
    (p : Peer) (ps : List Peer) (a b a' : Attempts)
    → Refuses p
    → b.closes ≡ a.closes ++ made (p ∷ [])
    → Tried ps b a'
    → Tried (p ∷ ps) a a'
Tried-behind p ps a b a' r e (chosen closes is_open c more) =
    chosen (made (p ∷ []) ++ closes) is_open (Chooses-behind p ps a'.fd closes r c)
      (more ∙ ap (λ l. l ++ closes) e ∙ append_assoc a.closes (made (p ∷ [])) closes)
Tried-behind p ps a b a' r e (none_left free all more) =
    none_left free (r, all)
      (more
        ∙ ap (λ l. l ++ made ps) e
        ∙ append_assoc a.closes (made (p ∷ [])) (made ps)
        ∙ ap (λ l. a.closes ++ l) (ground arith))

module _ (errno_message : ℕ → Bytes) where
  try_peer-Tried :
      (fd : ℤ) (errno : Option ℕ) (ps : List Peer) (again : Attempts → Attempts) (a : Attempts)
      → ((b : Attempts) → is_fd b.fd ≡ false → Tried ps b (again b))
      → Tried
          (record { socket_fd = fd; connect_errno = errno } ∷ ps)
          a
          (try_peer errno_message (record { socket_fd = fd; connect_errno = errno }) again a)
  try_peer-Tried (negsuc n) errno ps again a later =
      let b : Attempts = record a { fd = negsuc n } in
      Tried-behind _ ps a b (again b) (inl refl) (sym (append-nil a.closes)) (later b refl)
  try_peer-Tried (pos n) none ps again a later =
      chosen [] refl
        (record {
          before = [];
          peer = record { socket_fd = pos n; connect_errno = none };
          behind = ps;
          split = refl;
          refuse = tt;
          accepts = record { is_made = refl; is_connected = refl };
          its_fd = refl;
          closed = refl;
        })
        (sym (append-nil a.closes))
  try_peer-Tried (pos n) (some errno) ps again a later =
      let b : Attempts = record a {
        fd = no_fd;
        error = errno_message errno;
        closes = a.closes ++ pos n ∷ [];
      } in
      Tried-behind _ ps a b (again b) (inr (errno, refl)) refl (later b refl)

  try_peers-Tried :
      (ps : List Peer) (a : Attempts)
      → is_fd a.fd ≡ false
      → Tried ps a (try_peers errno_message ps a)
  unfolding try_peers
  try_peers-Tried [] a h = none_left h tt (sym (append-nil a.closes))
  try_peers-Tried (p ∷ ps) a h =
      try_peer-Tried p.socket_fd p.connect_errno ps (try_peers errno_message ps) a
        (try_peers-Tried ps)

module _ (errno_message gai_message : ℕ → Bytes) where
  -- The result of the loop, as `connect_once` returns it.
  result :
      (ps : List Peer) (a : Attempts) (message : Bytes)
      → Tried ps (record { fd = no_fd; error = codes "no address"; closes = [] }) a
      → Accounts ps (if is_fd a.fd then connected a.fd else refused message, a.closes)
  result ps a message (chosen closes is_open c more) =
      rw is_open (is_open, subst (Chooses ps a.fd) (sym more) c)
  result ps a message (none_left free all more) = rw free (all, more)

  -- Where the host resolves, the descriptor that `connect_once` returns is the socket of the first peer
  -- that has one on which `connect` succeeded, and the sockets of the peers before it were closed, each
  -- once and in order; where it throws there is no such peer, and every socket was closed.
  pub connect_once-Accounts :
      (host port : Bytes) (ps : List Peer)
      → Accounts ps (connect_once errno_message gai_message host port (peers ps))
  unfolding connect_once
  connect_once-Accounts host port ps = result ps _ _ (
      try_peers-Tried errno_message ps
        (record { fd = no_fd; error = codes "no address"; closes = [] }) refl)

-- `send_all` returns when the system has taken the text, whole and in order; where it throws, or
-- waits for ever, a part was taken.
pub send_all-Sends :
    (text : Bytes) (answers : List SendAnswer) (wire whole : Bytes)
    → wire ++ text ≡ whole
    → Sends whole (send_all text answers wire)
unfolding send_all
send_all-Sends [] [] wire whole e = sym (append-nil wire) ∙ e
send_all-Sends (c ∷ cs) [] wire whole e = (c ∷ cs, refl, e)
send_all-Sends [] (send_fails eintr ∷ answers) wire whole e = sym (append-nil wire) ∙ e
send_all-Sends (c ∷ cs) (send_fails eintr ∷ answers) wire whole e =
    send_all-Sends (c ∷ cs) answers wire whole e
send_all-Sends [] (send_fails eagain ∷ answers) wire whole e = sym (append-nil wire) ∙ e
send_all-Sends (c ∷ cs) (send_fails eagain ∷ answers) wire whole e = (c ∷ cs, refl, e)
send_all-Sends [] (send_fails (other_error n) ∷ answers) wire whole e = sym (append-nil wire) ∙ e
send_all-Sends (c ∷ cs) (send_fails (other_error n) ∷ answers) wire whole e = (c ∷ cs, refl, e)
send_all-Sends [] (room_for n ∷ answers) wire whole e = sym (append-nil wire) ∙ e
send_all-Sends (c ∷ cs) (room_for n ∷ answers) wire whole e =
    let sent = min n (length (c ∷ cs)) in
    send_all-Sends (drop sent (c ∷ cs)) answers (wire ++ take sent (c ∷ cs)) whole (
      append_assoc wire (take sent (c ∷ cs)) (drop sent (c ∷ cs))
      ∙ ap (λ t. wire ++ t) (take-append-drop sent (c ∷ cs))
      ∙ e)
