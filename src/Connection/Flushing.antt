-- ===== src/Connection/Flushing.antt =====
-- `flush_output` of src/connection.cpp: what it leaves as it was, and what it uses up.
use network_arc_rajasurya.Prelude.{
  ℕ, suc, ◌≤◌, ◌<◌, ◌≡◌, ◌⊎◌, inl, inr, refl, ◌∙◌, Bool, true, false, List, [], ◌∷◌, length, ltb,
  arith, either_branch, length-drop, min,
}
use network_arc_rajasurya.Connection.Socket.{
  eintr, eagain, other_error, SendAnswer, room_for, send_fails,
}
use network_arc_rajasurya.Connection.State.{closed, Connection, pending_output_bytes, close_now}
use network_arc_rajasurya.Connection.Output.{
  set_sends, blocked, sent_some, Flushed, flush_loop, reclaim, flush_output,
}

-- From `c` on, with `n` answers of `send` left and the flag `b`, to `d` with the flag `sent`.
pub record Flushes (c : Connection) (b : Bool) (n : ℕ) (d : Connection) (sent : Bool) : Type 0 where
  pub same_parser : d.parser ≡ c.parser
  pub same_config : d.config ≡ c.config
  pub same_peer : d.peer_finished_sending ≡ c.peer_finished_sending
  pub state_or_closed : (d.state ≡ c.state) ⊎ (d.state ≡ closed)
  pub sends_le : length d.socket.sends ≤ n
  pub progress : sent ≡ true → (b ≡ true) ⊎ (length d.socket.sends < n)
  pub idle : sent ≡ false → (b ≡ false) × (pending_output_bytes d ≡ pending_output_bytes c)

abbrev FlushesTo : Connection → Bool → ℕ → Flushed → Type 0
FlushesTo c b n f = Flushes c b n f.connection f.sent_any

stop-Flushes : (c : Connection) (b : Bool) (n : ℕ) → length c.socket.sends ≤ n → Flushes c b n c b
stop-Flushes c b n h = record {
  same_parser = refl;
  same_config = refl;
  same_peer = refl;
  state_or_closed = inl refl;
  sends_le = h;
  progress = λ e. inl e;
  idle = λ e. (e, refl);
}

blocked-Flushes :
    (c : Connection) (b : Bool) (n : ℕ) → length c.socket.sends ≤ n → Flushes c b n (blocked c) b
blocked-Flushes c b n h =
    let w = stop-Flushes (blocked c) b n h in
    record {
      same_parser = refl;
      same_config = refl;
      same_peer = refl;
      state_or_closed = inl refl;
      sends_le = h;
      progress = w.progress;
      idle = w.idle;
    }

close_now-closed : (c : Connection) → (close_now c).state ≡ closed
unfolding close_now
close_now-closed c = ground arith

close_now-Flushes :
    (c : Connection) (b : Bool) (n : ℕ) → length c.socket.sends ≤ n → Flushes c b n (close_now c) b
close_now-Flushes c b n h =
    let w = stop-Flushes c b n h in
    record {
      same_parser = unfold close_now in ground arith;
      same_config = unfold close_now in ground arith;
      same_peer = unfold close_now in ground arith;
      state_or_closed = inr (close_now-closed c);
      sends_le = unfold close_now in ground arith;
      progress = λ e. inl e;
      idle = λ e. (e, (unfold close_now in ground arith));
    }

-- A `send` that took something.
sent-Flushes :
    (c d : Connection) (b s : Bool) (rest : List SendAnswer) (now count : ℕ)
    → Flushes (sent_some (set_sends c rest) now count) true (length rest) d s
    → Flushes c b (suc (length rest)) d s
unfolding sent_some
sent-Flushes c d b s rest now count w = record {
  same_parser = w.same_parser;
  same_config = w.same_config;
  same_peer = w.same_peer;
  state_or_closed = w.state_or_closed;
  sends_le = omega (arith, w.sends_le);
  progress = λ _. inr (omega (arith, w.sends_le));
  idle = λ e. impossible c d b (w.idle e).0;
}
  where
    impossible :
        (c d : Connection) (b : Bool)
        → true ≡ false
        → (b ≡ false) × (pending_output_bytes d ≡ pending_output_bytes c)
    impossible c d b h = ground arith

-- A `send` that was interrupted.
interrupted-Flushes :
    (c d : Connection) (b s : Bool) (rest : List SendAnswer)
    → Flushes (set_sends c rest) b (length rest) d s
    → Flushes c b (suc (length rest)) d s
interrupted-Flushes c d b s rest w = record {
  same_parser = w.same_parser;
  same_config = w.same_config;
  same_peer = w.same_peer;
  state_or_closed = w.state_or_closed;
  sends_le = omega (arith, w.sends_le);
  progress = λ e. elim (w.progress e) [ inl h ↦ inl h | inr h ↦ inr (omega arith) ];
  idle = w.idle;
}

-- A `send` after which the loop stops.
last-Flushes :
    (c d : Connection) (b : Bool) (rest : List SendAnswer)
    → Flushes (set_sends c rest) b (length rest) d b
    → Flushes c b (suc (length rest)) d b
last-Flushes c d b rest w = interrupted-Flushes c d b b rest w

flush_loop-Flushes :
    (sends : List SendAnswer) (c : Connection) (now : ℕ) (b : Bool)
    → c.socket.sends ≡ sends
    → FlushesTo c b (length sends) (flush_loop sends c now b)
unfolding flush_loop
flush_loop-Flushes [] c now b e =
    let le : length c.socket.sends ≤ 0 = rw e (omega arith) in
    either_branch (FlushesTo c b 0) (ltb 0 (pending_output_bytes c)) _ _ (blocked-Flushes c b 0 le)
      (stop-Flushes c b 0 le)
flush_loop-Flushes (room_for n ∷ rest) c now b e =
    let le : length c.socket.sends ≤ suc (length rest) = rw e (omega arith) in
    let count = min n (pending_output_bytes c) in
    either_branch (FlushesTo c b (suc (length rest))) (ltb 0 (pending_output_bytes c)) _ _
      (either_branch (FlushesTo c b (suc (length rest))) (ltb 0 count) _ _
        (sent-Flushes c _ b _ rest now count (
          flush_loop-Flushes rest (sent_some (set_sends c rest) now count) now true
            (sends_after c rest now count)))
        (last-Flushes c _ b rest
          (blocked-Flushes (set_sends c rest) b (length rest) (omega arith))))
      (stop-Flushes c b _ le)
  where
    sends_after :
        (c : Connection) (rest : List SendAnswer) (now count : ℕ)
        → (sent_some (set_sends c rest) now count).socket.sends ≡ rest
    sends_after c rest now count = unfold sent_some in refl
flush_loop-Flushes (send_fails eintr ∷ rest) c now b e =
    let le : length c.socket.sends ≤ suc (length rest) = rw e (omega arith) in
    either_branch (FlushesTo c b (suc (length rest))) (ltb 0 (pending_output_bytes c)) _ _
      (interrupted-Flushes c _ b _ rest (flush_loop-Flushes rest (set_sends c rest) now b refl))
      (stop-Flushes c b _ le)
flush_loop-Flushes (send_fails eagain ∷ rest) c now b e =
    let le : length c.socket.sends ≤ suc (length rest) = rw e (omega arith) in
    either_branch (FlushesTo c b (suc (length rest))) (ltb 0 (pending_output_bytes c)) _ _
      (last-Flushes c _ b rest (blocked-Flushes (set_sends c rest) b (length rest) (omega arith)))
      (stop-Flushes c b _ le)
flush_loop-Flushes (send_fails (other_error n) ∷ rest) c now b e =
    let le : length c.socket.sends ≤ suc (length rest) = rw e (omega arith) in
    either_branch (FlushesTo c b (suc (length rest))) (ltb 0 (pending_output_bytes c)) _ _
      (last-Flushes c _ b rest (close_now-Flushes (set_sends c rest) b (length rest) (omega arith)))
      (stop-Flushes c b _ le)

reclaim-Flushes :
    (c d : Connection) (b s : Bool) (n : ℕ) → Flushes c b n d s → Flushes c b n (reclaim d) s
unfolding reclaim
reclaim-Flushes c d b s n w = record {
  same_parser = ground (arith, w.same_parser);
  same_config = ground (arith, w.same_config);
  same_peer = ground (arith, w.same_peer);
  state_or_closed = ground (arith, w.state_or_closed);
  sends_le = ground (arith, w.sends_le);
  progress = ground (arith, w.progress);
  idle = λ e. ((w.idle e).0, same_pending d ∙ (w.idle e).1);
}
  where
    same_pending : (d : Connection) → pending_output_bytes (reclaim d) ≡ pending_output_bytes d
    same_pending d = ground (arith, length-drop d.output_sent d.output)

pub flush_output-Flushes :
    (c : Connection) (now : ℕ)
    → Flushes c false (length c.socket.sends) (flush_output c now).0 (flush_output c now).1
unfolding flush_output
flush_output-Flushes c now =
    let f = flush_loop c.socket.sends c now false in
    let w = flush_loop-Flushes c.socket.sends c now false refl in
    either_branch (λ d. Flushes c false (length c.socket.sends) d f.sent_any) f.returned _ _ w
      (reclaim-Flushes c _ false _ _ w)
