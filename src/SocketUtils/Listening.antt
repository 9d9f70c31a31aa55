-- ===== src/SocketUtils/Listening.antt =====
-- src/socket_utils.cpp: which candidate `create_listening_socket` takes, and what becomes of the others.
use network_arc_rajasurya.Prelude.{
  ℕ, ◌≡◌, refl, sym, ap, subst, ◌∙◌, true, false, not, List, [], ◌∷◌, ◌++◌, Option, none, some,
  Bytes, codes, to_string, arith, if◌then◌else◌, ◌⊎◌, inl, inr, Bool, either_case, append-nil,
  append_assoc,
}
use network_arc_rajasurya.Prelude.Int.{ℤ}
use network_arc_rajasurya.FileDescriptor.{
  FileDescriptor, new_descriptor, no_fd, is_fd, valid, reset, destroy,
}
use network_arc_rajasurya.SocketUtils.{
  Candidate, candidates, Listener, Created, listening, throws, after, set_nonblocking, attempt,
  next_attempt, try_candidates, create_listening_socket,
}

-- The sockets that were opened for the candidates.
abbrev pub opened : List Candidate → List ℤ
opened [] = []
opened (c ∷ cs) = if is_fd c.socket_fd then c.socket_fd ∷ opened cs else opened cs

-- Every call for the candidate succeeds.
pub record Listens (c : Candidate) : Type 0 where
  pub is_opened : is_fd c.socket_fd ≡ true
  pub is_bound : c.bind_errno ≡ none
  pub is_listening : c.listen_errno ≡ none
  pub old_flags : ℕ
  pub has_flags : c.flags ≡ some old_flags
  pub is_nonblocking : c.set_flags_succeeds ≡ true

module _ (errno_message : ℕ → Bytes) (where_text : Bytes) where
  -- The first call that fails, and the message about it.
  pub data Fails (c : Candidate) (message : Bytes) : Type 0 where
    no_socket :
        is_fd c.socket_fd ≡ false
        → message ≡ codes "socket: " ++ errno_message c.socket_errno
        → Fails c message
    not_bound :
        (errno : ℕ)
        → is_fd c.socket_fd ≡ true
        → c.bind_errno ≡ some errno
        → message ≡ (codes "bind " ++ (where_text ++ codes ": ")) ++ errno_message errno
        → Fails c message
    not_listening :
        (errno : ℕ)
        → is_fd c.socket_fd ≡ true
        → c.bind_errno ≡ none
        → c.listen_errno ≡ some errno
        → message ≡ (codes "listen " ++ (where_text ++ codes ": ")) ++ errno_message errno
        → Fails c message
    still_blocking :
        is_fd c.socket_fd ≡ true
        → c.bind_errno ≡ none
        → c.listen_errno ≡ none
        → (c.flags ≡ none) ⊎ (c.set_flags_succeeds ≡ false)
        → message ≡ codes "fcntl(O_NONBLOCK): " ++ errno_message c.fcntl_errno
        → Fails c message

  -- All candidates fail, the last one with the message `last` (`first` where there is none).
  pub data AllFail : Bytes → List Candidate → Bytes → Type 0 where
    no_more : {first last : Bytes} → last ≡ first → AllFail first [] last
    fails :
        {c : Candidate} {cs : List Candidate} {first message last : Bytes}
        → Fails c message
        → AllFail message cs last
        → AllFail first (c ∷ cs) last

  -- The first candidate that listens gives the descriptor, and those before it were closed.
  pub data Selects : List Candidate → FileDescriptor → List ℤ → Type 0 where
    picks :
        {c : Candidate} {cs : List Candidate} {closes : List ℤ}
        → Listens c
        → closes ≡ []
        → Selects (c ∷ cs) (new_descriptor c.socket_fd) closes
    passes :
        {c : Candidate} {cs : List Candidate} {d : FileDescriptor} {message : Bytes}
        {closes later : List ℤ}
        → Fails c message
        → Selects cs d later
        → closes ≡ opened (c ∷ []) ++ later
        → Selects (c ∷ cs) d closes

  abbrev pub Explains : List Candidate → Created × List ℤ → Type 0
  Explains cs (listening d, closes) = (valid d ≡ true) × Selects cs d closes
  Explains cs (throws message, closes) =
      AllFail (codes "no usable address") cs message × (closes ≡ opened cs)

-- What the loop leaves, from `l` on.
data Tried (errno_message : ℕ → Bytes) (where_text : Bytes) (cs : List Candidate) (l l' : Listener)
    : Type 0 where
  found :
      (closes : List ℤ)
      → valid l'.listener ≡ true
      → Selects errno_message where_text cs l'.listener closes
      → l'.closes ≡ l.closes ++ closes
      → Tried errno_message where_text cs l l'
  none_left :
      l'.listener ≡ l.listener
      → AllFail errno_message where_text l.last_error cs l'.last_error
      → l'.closes ≡ l.closes ++ opened cs
      → Tried errno_message where_text cs l l'

destroy-closes :
    (c : Candidate) (closes : List ℤ)
    → destroy (new_descriptor c.socket_fd) closes ≡ closes ++ opened (c ∷ [])
unfolding destroy reset
destroy-closes c closes = ground (arith, append-nil closes)

opened-cons : (c : Candidate) (cs : List Candidate) → opened (c ∷ cs) ≡ opened (c ∷ []) ++ opened cs
opened-cons c cs = ground arith

module _ (errno_message : ℕ → Bytes) (where_text : Bytes) where
  -- What `attempt` found, by the answers of the calls.
  abbrev Found : Candidate → Option Bytes → Type 0
  Found c none = Listens c
  Found c (some message) = Fails errno_message where_text c message

  fcntl-Found :
      (c : Candidate) (flags : Option ℕ) (done : Bool)
      → is_fd c.socket_fd ≡ true
      → c.bind_errno ≡ none
      → c.listen_errno ≡ none
      → c.flags ≡ flags
      → c.set_flags_succeeds ≡ done
      → Found c (
          if not (set_nonblocking flags done)
          then some (codes "fcntl(O_NONBLOCK): " ++ errno_message c.fcntl_errno)
          else none)
  unfolding set_nonblocking
  fcntl-Found c none done o b l f d = still_blocking o b l (inl f) refl
  fcntl-Found c (some flags) false o b l f d = still_blocking o b l (inr d) refl
  fcntl-Found c (some flags) true o b l f d = record {
    is_opened = o;
    is_bound = b;
    is_listening = l;
    old_flags = flags;
    has_flags = f;
    is_nonblocking = d;
  }

  listen-Found :
      (c : Candidate) (errno : Option ℕ)
      → is_fd c.socket_fd ≡ true
      → c.bind_errno ≡ none
      → c.listen_errno ≡ errno
      → Found c (
          after errno_message errno (codes "listen " ++ (where_text ++ codes ": ")) (
            if not (set_nonblocking c.flags c.set_flags_succeeds)
            then some (codes "fcntl(O_NONBLOCK): " ++ errno_message c.fcntl_errno)
            else none))
  listen-Found c none o b l = fcntl-Found c c.flags c.set_flags_succeeds o b l refl refl
  listen-Found c (some errno) o b l = not_listening errno o b l refl

  bind-Found :
      (c : Candidate) (errno : Option ℕ)
      → is_fd c.socket_fd ≡ true
      → c.bind_errno ≡ errno
      → Found c (
          after errno_message errno (codes "bind " ++ (where_text ++ codes ": ")) (
            after errno_message c.listen_errno (codes "listen " ++ (where_text ++ codes ": ")) (
              if not (set_nonblocking c.flags c.set_flags_succeeds)
              then some (codes "fcntl(O_NONBLOCK): " ++ errno_message c.fcntl_errno)
              else none)))
  bind-Found c none o b = listen-Found c c.listen_errno o b refl
  bind-Found c (some errno) o b = not_bound errno o b refl

  attempt-Found : (c : Candidate) → Found c (attempt errno_message where_text c)
  unfolding attempt valid
  attempt-Found c =
      either_case (Found c) (not (is_fd c.socket_fd)) _ _ (λ n. no_socket (ground arith) refl)
        (λ y. bind-Found c c.bind_errno (ground arith) refl)

  Listens-valid : (c : Candidate) → Listens c → valid (new_descriptor c.socket_fd) ≡ true
  unfolding valid
  Listens-valid c l = l.is_opened

  next_attempt-Tried :
      (c : Candidate) (cs : List Candidate) (again : Listener → Listener) (l : Listener)
      (r : Option Bytes)
      → Found c r
      → ((k : Listener) → Tried errno_message where_text cs k (again k))
      → Tried errno_message where_text (c ∷ cs) l (next_attempt errno_message c r again l)
  next_attempt-Tried c cs again l none e later =
      found [] (Listens-valid c e) (picks e refl) (sym (append-nil l.closes))
  next_attempt-Tried c cs again l (some message) e later =
      let k : Listener = record l {
        last_error = message;
        closes = destroy (new_descriptor c.socket_fd) l.closes;
      } in
      let closed = destroy-closes c l.closes in
      elim (later k) [
        | found closes v s more ↦
            found (opened (c ∷ []) ++ closes) v (passes e s refl)
              (more ∙ ap (λ x. x ++ closes) closed ∙ append_assoc l.closes (opened (c ∷ [])) closes)
        | none_left same fail more ↦ none_left same (fails e fail) (
            more
            ∙ ap (λ x. x ++ opened cs) closed
            ∙ append_assoc l.closes (opened (c ∷ [])) (opened cs)
            ∙ ap (λ x. l.closes ++ x) (sym (opened-cons c cs)))
      ]

  try_candidates-Tried :
      (cs : List Candidate) (l : Listener)
      → Tried errno_message where_text cs l (try_candidates errno_message where_text cs l)
  unfolding try_candidates
  try_candidates-Tried [] l = none_left refl (no_more refl) (sym (append-nil l.closes))
  try_candidates-Tried (c ∷ cs) l =
      next_attempt-Tried c cs (try_candidates errno_message where_text cs) l
        (attempt errno_message where_text c) (attempt-Found c) (try_candidates-Tried cs)

module _ (errno_message gai_message : ℕ → Bytes) where
  finish :
      (where_text : Bytes) (cs : List Candidate) (l l' : Listener)
      → l.listener ≡ new_descriptor no_fd
      → l.last_error ≡ codes "no usable address"
      → l.closes ≡ []
      → Tried errno_message where_text cs l l'
      → Explains errno_message where_text cs (
        if not (valid l'.listener) then throws l'.last_error else listening l'.listener,
        l'.closes,
      )
  finish where_text cs l l' a b c (found closes v s more) =
      let e : l'.closes ≡ closes = more ∙ ap (λ x. x ++ closes) c in
      rw v (v, subst (Selects errno_message where_text cs l'.listener) (sym e) s)
  finish where_text cs l l' a b c (none_left same fail more) =
      let v : valid l'.listener ≡ false = rw (same, a) (unfold valid in refl) in
      rw v (
        subst (λ m. AllFail errno_message where_text m cs l'.last_error) b fail,
        more ∙ ap (λ x. x ++ opened cs) c,
      )

  -- Where the host resolves, `create_listening_socket` gives the descriptor of the first candidate for
  -- which every call succeeds, and has closed exactly those opened before it; where there is none it
  -- throws the message of the last failure, and has closed all that it opened.
  pub create-Explains :
      (host : Bytes) (port : ℕ) (cs : List Candidate)
      → Explains errno_message
          (host ++ (codes ":" ++ to_string port))
          cs
          (create_listening_socket errno_message gai_message host port (candidates cs))
  unfolding create_listening_socket
  create-Explains host port cs =
      finish _ cs _ _ refl refl refl
        (try_candidates-Tried errno_message (host ++ (codes ":" ++ to_string port)) cs _)
