-- ===== src/SocketUtils.antt =====
-- include/calc/socket_utils.hpp and src/socket_utils.cpp: the listening socket, and addresses as text.
-- What the system answers is given; `strerror` and `gai_strerror` are parameters.
pub mod Listening
use network_arc_rajasurya.Prelude.{
  ℕ, Bool, true, false, ◌&&◌, not, List, [], ◌∷◌, ◌++◌, Option, none, some, Bytes, codes, to_string,
  if◌then◌else◌,
}
use network_arc_rajasurya.Prelude.Int.{ℤ, pos, negsuc}
use network_arc_rajasurya.FileDescriptor.{FileDescriptor, new_descriptor, no_fd, valid, destroy}

-- What the calls for one address of `getaddrinfo` answer; `none` is success, and `some` the errno.
pub record Candidate : Type 0 where
  pub socket_fd : ℤ
  pub socket_errno : ℕ
  pub bind_errno : Option ℕ
  pub listen_errno : Option ℕ
  -- the flags, unless F_GETFL fails
  pub flags : Option ℕ
  pub set_flags_succeeds : Bool
  pub fcntl_errno : ℕ

pub data Resolved : Type 0 where
  resolve_fails : ℕ → Resolved
  candidates : List Candidate → Resolved

unfoldable pub set_nonblocking : Option ℕ → Bool → Bool
set_nonblocking none set_flags_succeeds = false
set_nonblocking (some flags) set_flags_succeeds = set_flags_succeeds

-- The loop's variables: `listener`, `last_error`, and the calls of `close` that its objects made.
pub record Listener : Type 0 where
  pub listener : FileDescriptor
  pub last_error : Bytes
  pub closes : List ℤ

pub data Created : Type 0 where
  listening : FileDescriptor → Created
  throws : Bytes → Created

module _ (errno_message : ℕ → Bytes) where
  -- The result of a call, or of those behind it.
  abbrev pub after : Option ℕ → Bytes → Option Bytes → Option Bytes
  after none call rest = rest
  after (some errno) call rest = some (call ++ errno_message errno)

  -- The body of the loop: the new `last_error`, or `none` where the socket listens.
  unfoldable pub attempt : Bytes → Candidate → Option Bytes
  attempt where_text c =
      if not (valid (new_descriptor c.socket_fd))
      then some (codes "socket: " ++ errno_message c.socket_errno)
      else after c.bind_errno (codes "bind " ++ (where_text ++ codes ": ")) (
          after c.listen_errno (codes "listen " ++ (where_text ++ codes ": ")) (
            if not (set_nonblocking c.flags c.set_flags_succeeds)
            then some (codes "fcntl(O_NONBLOCK): " ++ errno_message c.fcntl_errno)
            else none))

  -- Where the attempt fails, `fd` is destroyed and the next candidate is tried; where it does not,
  -- `listener = std::move(fd)` and `break`.
  abbrev pub next_attempt : Candidate → Option Bytes → (Listener → Listener) → Listener → Listener
  next_attempt c none again l = record l { listener = new_descriptor c.socket_fd }
  next_attempt c (some message) again l =
      again
        (record l { last_error = message; closes = destroy (new_descriptor c.socket_fd) l.closes })

  unfoldable pub try_candidates : Bytes → List Candidate → Listener → Listener
  try_candidates where_text [] l = l
  try_candidates where_text (c ∷ cs) l =
      next_attempt c (attempt where_text c) (try_candidates where_text cs) l

  module _ (gai_message : ℕ → Bytes) where
    unfoldable pub create_listening_socket : Bytes → ℕ → Resolved → Created × List ℤ
    create_listening_socket host port (resolve_fails error) = (
      throws (
          codes "resolve "
          ++ (host ++ (codes ":" ++ (to_string port ++ (codes ": " ++ gai_message error))))),
      [],
    )
    create_listening_socket host port (candidates cs) =
        let l = try_candidates (host ++ (codes ":" ++ to_string port)) cs (record {
          listener = new_descriptor no_fd;
          last_error = codes "no usable address";
          closes = [];
        }) in
        (if not (valid l.listener) then throws l.last_error else listening l.listener, l.closes)

pub data Family : Type 0 where
  inet inet6 other_family : Family

-- A socket address, with what `getnameinfo` makes of it, if anything.
pub record SocketAddress : Type 0 where
  pub family : Family
  pub port : ℕ
  pub names : Option (Bytes × Bytes)

abbrev format_names : Family → Bytes → Bytes → Bytes
format_names inet6 host service = codes "[" ++ (host ++ (codes "]:" ++ service))
format_names inet host service = host ++ (codes ":" ++ service)
format_names other_family host service = host ++ (codes ":" ++ service)

unfoldable pub format_address : SocketAddress → Bytes
format_address a = elim a.names [
  | none ↦ codes "<unknown>"
  | some (host, service) ↦ format_names a.family host service
]

-- The argument is the answer of `getsockname`.
unfoldable pub local_address : Option SocketAddress → Bytes
unfolding format_address
local_address none = codes "<unknown>"
local_address (some a) = format_address a

abbrev port_in : Family → ℕ → ℕ
port_in inet port = port
port_in inet6 port = port
port_in other_family port = 0

unfoldable pub local_port : Option SocketAddress → ℕ
local_port none = 0
local_port (some a) = port_in a.family a.port
