-- ===== src/Connection/Socket.antt =====
-- The operating system's side of one connection of src/connection.cpp: what `recv`, `send` and
-- `shutdown` answer, and what they have done. The answers are given in advance, in the order of the
-- calls, so that a theorem about all answers is one about every behaviour of the system.
use network_arc_rajasurya.Prelude.{ℕ, Bool, List, [], ◌∷◌, Bytes}

pub data Errno : Type 0 where
  eintr : Errno
  -- EAGAIN and EWOULDBLOCK
  eagain : Errno
  other_error : ℕ → Errno

-- `recv` copies as much as it was asked for of what has arrived; of nothing it returns 0, the FIN.
pub data RecvAnswer : Type 0 where
  arrives : Bytes → RecvAnswer
  recv_fails : Errno → RecvAnswer

-- `send` takes as much of the offered bytes as there is room for.
pub data SendAnswer : Type 0 where
  room_for : ℕ → SendAnswer
  send_fails : Errno → SendAnswer

pub record Socket : Type 0 where
  pub recvs : List RecvAnswer
  pub sends : List SendAnswer
  pub shutdown_succeeds : Bool
  -- the bytes that the system has accepted, all since the start
  pub wire : Bytes
  pub fin_queued : Bool
  pub descriptor_open : Bool

-- `do … while (received < 0 && errno == EINTR)`: the first answer that is no interruption, and
-- those behind it. A non-blocking socket with nothing more to say answers EAGAIN.
unfoldable pub recv_retrying : List RecvAnswer → RecvAnswer × List RecvAnswer
recv_retrying [] = (recv_fails eagain, [])
recv_retrying (recv_fails eintr ∷ answers) = recv_retrying answers
recv_retrying (recv_fails eagain ∷ answers) = (recv_fails eagain, answers)
recv_retrying (recv_fails (other_error n) ∷ answers) = (recv_fails (other_error n), answers)
recv_retrying (arrives bytes ∷ answers) = (arrives bytes, answers)
