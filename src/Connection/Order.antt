-- ===== src/Connection/Order.antt =====
-- The bytes that a connection of src/connection.cpp sends are its responses, whole and in order.
use network_arc_rajasurya.Prelude.{
  ℕ, ◌+◌, ◌≤◌, ◌≡◌, refl, sym, ap, ◌∙◌, List, [], ◌∷◌, ◌++◌, Option, Bytes, length, leb, ◌==◌, ◌/◌,
  not, take, drop, ltb, arith, append-nil, append_assoc, subst, u64, take-append-drop, drop-append,
  drop_all, drop-drop, length-append, either_branch, either_case,
}
use network_arc_rajasurya.Request.{Request}
use network_arc_rajasurya.Response.{Response, serialize}
use network_arc_rajasurya.Parser.{RequestParser}
use network_arc_rajasurya.Config.{ServerConfig}
use network_arc_rajasurya.Connection.Socket.{Socket}
use network_arc_rajasurya.Connection.State.{Connection, new_connection, is_closed, close_now}
use network_arc_rajasurya.Connection.Input.{on_received, on_discarded}
use network_arc_rajasurya.Connection.Output.{numbered, queue_response, sent_some, reclaim}
use network_arc_rajasurya.Connection.{
  begin_lingering_close, closing_response, response_to, Event, run,
}
use network_arc_rajasurya.Connection.Steps.{
  Step, uses_recvs, uses_sends, receives, waits, answers, refuses, times_out, sends, blocks,
  reclaims, lingers, discards, closes, Reach, here, next_step,
}
use network_arc_rajasurya.Connection.Runs.{run-Leads}

-- What was sent and what still waits.
abbrev pub written : Connection → Bytes
written c = c.socket.wire ++ drop c.output_sent c.output

-- The responses as they are written, numbered from behind `number` on.
abbrev pub numbered_bytes : ℕ → ℕ → List Response → Bytes
numbered_bytes id number [] = []
numbered_bytes id number (r ∷ rs) =
    serialize (numbered id (u64 (number + 1)) r) ++ numbered_bytes id (u64 (number + 1)) rs

abbrev pub last_number : ℕ → List Response → ℕ
last_number number [] = number
last_number number (r ∷ rs) = last_number (u64 (number + 1)) rs

-- `d` has written, behind what `c` had, exactly these responses.
pub record Writes (c d : Connection) (rs : List Response) : Type 0 where
  pub same_id : d.id ≡ c.id
  pub in_order : written d ≡ written c ++ numbered_bytes c.id c.stats.requests rs
  pub counted : d.stats.requests ≡ last_number c.stats.requests rs
  pub sent_le : d.output_sent ≤ length d.output

Writes-unchanged :
    (c d : Connection)
    → d.id ≡ c.id
    → written d ≡ written c
    → d.stats.requests ≡ c.stats.requests
    → d.output_sent ≤ length d.output
    → Writes c d []
Writes-unchanged c d i w n l = record {
  same_id = i;
  in_order = w ∙ sym (append-nil (written c));
  counted = n;
  sent_le = l;
}

queue-Writes :
    (c : Connection) (r : Response)
    → c.output_sent ≤ length c.output
    → Writes c (queue_response c r) (r ∷ [])
unfolding queue_response
queue-Writes c r l = record {
  same_id = refl;
  in_order =
      ap (λ t. c.socket.wire ++ t) (drop-append c.output_sent c.output _ l)
      ∙ sym (append_assoc c.socket.wire (drop c.output_sent c.output) _)
      ∙ ap (λ t. written c ++ t) (sym (append-nil _));
  counted = refl;
  sent_le =
      omega
        (arith, length-append c.output (serialize (numbered c.id (u64 (c.stats.requests + 1)) r)));
}

sent_some-written : (c : Connection) (now n : ℕ) → written (sent_some c now n) ≡ written c
unfolding sent_some
sent_some-written c now n =
    let whole = drop c.output_sent c.output in
    append_assoc c.socket.wire (take n whole) _
    ∙ ap (λ t. c.socket.wire ++ t)
        (ap (λ t. take n whole ++ t)
            (sym (drop-drop c.output_sent n (c.output_sent + n) c.output refl))
          ∙ take-append-drop n whole)

reclaim-Writes : (c : Connection) → c.output_sent ≤ length c.output → Writes c (reclaim c) []
unfolding reclaim
reclaim-Writes c l =
    either_case (λ d. Writes c d []) (c.output_sent == length c.output) _ _
      (λ all.
        Writes-unchanged c _ refl
          (ap (λ t. c.socket.wire ++ t) (sym (drop_all c.output_sent c.output (ground arith)))) refl
          (omega arith))
      (λ some_left.
        either_branch (λ d. Writes c d []) (leb (length c.output / 2) c.output_sent) _ _
          (Writes-unchanged c _ refl refl refl (omega arith))
          (Writes-unchanged c c refl refl refl l))

close_now-Writes : (c : Connection) → c.output_sent ≤ length c.output → Writes c (close_now c) []
unfolding close_now
close_now-Writes c l =
    either_branch (λ d. Writes c d []) (is_closed c.state) _ _
      (Writes-unchanged c c refl refl refl l) (Writes-unchanged c _ refl refl refl l)

on_received-Writes :
    (c : Connection) (now : ℕ) (bytes : Bytes)
    → c.output_sent ≤ length c.output
    → Writes c (on_received c now bytes) []
unfolding on_received
on_received-Writes c now [] l = Writes-unchanged c _ refl refl refl l
on_received-Writes c now (b ∷ bs) l = Writes-unchanged c _ refl refl refl l

on_discarded-Writes :
    (c : Connection) (bytes : Bytes)
    → c.output_sent ≤ length c.output
    → Writes c (on_discarded c bytes) []
unfolding on_discarded
on_discarded-Writes c [] l = close_now-Writes c l
on_discarded-Writes c (b ∷ bs) l =
    let counted = record c { lingered_bytes = u64 (c.lingered_bytes + length (b ∷ bs)) } in
    let w = close_now-Writes counted l in
    either_branch (λ d. Writes c d []) (ltb c.config.max_linger_bytes counted.lingered_bytes)
      (close_now counted) counted
      (record {
        same_id = w.same_id;
        in_order = w.in_order;
        counted = w.counted;
        sent_le = w.sent_le;
      })
      (Writes-unchanged c counted refl refl refl l)

linger-Writes :
    (c : Connection) (now : ℕ)
    → c.output_sent ≤ length c.output
    → Writes c (begin_lingering_close c now) []
unfolding begin_lingering_close
linger-Writes c now l =
    either_branch (λ d. Writes c d []) (not c.socket.shutdown_succeeds) _ _ (close_now-Writes c l)
      (Writes-unchanged c _ refl refl refl l)

-- The parser and the clock have no part in it.
queue_parsed-Writes :
    (c : Connection) (q : RequestParser) (r : Response)
    → c.output_sent ≤ length c.output
    → Writes c (queue_response (record c { parser = q }) r) (r ∷ [])
queue_parsed-Writes c q r l =
    let w = queue-Writes (record c { parser = q }) r l in
    record { same_id = w.same_id; in_order = w.in_order; counted = w.counted; sent_le = w.sent_le }

module _ {handler : Request → Option Response} where
  Step-Writes :
      {c d : Connection} {rs : List Response}
      → Step handler c d rs
      → c.output_sent ≤ length c.output
      → Writes c d rs
  Step-Writes (uses_recvs c later) l = Writes-unchanged c _ refl refl refl l
  Step-Writes (uses_sends c later) l = Writes-unchanged c _ refl refl refl l
  Step-Writes (receives c now bytes h) l = on_received-Writes c now _ l
  Step-Writes (waits c q e) l = Writes-unchanged c _ refl refl refl l
  Step-Writes (answers c q r st room e) l = queue_parsed-Writes c q (response_to handler r) l
  Step-Writes (refuses c q x st room e) l =
      queue_parsed-Writes c q (closing_response x.status x.message) l
  Step-Writes (times_out c now st none_pending part) l =
      let w = queue-Writes c _ l in
      record {
        same_id = w.same_id;
        in_order = w.in_order;
        counted = w.counted;
        sent_le = w.sent_le;
      }
  Step-Writes (sends c now n h) l =
      Writes-unchanged c _ (unfold sent_some in refl) (sent_some-written c now n)
        (unfold sent_some in refl) (unfold sent_some in omega arith)
  Step-Writes (blocks c) l = Writes-unchanged c _ refl refl refl l
  Step-Writes (reclaims c) l = reclaim-Writes c l
  Step-Writes (lingers c now st none_pending peer) l = linger-Writes c now l
  Step-Writes (discards c bytes st) l = on_discarded-Writes c _ l
  Step-Writes (closes c) l = close_now-Writes c l

numbered_bytes-append :
    (id number : ℕ) (rs ss : List Response)
    → numbered_bytes id number (rs ++ ss)
      ≡ numbered_bytes id number rs ++ numbered_bytes id (last_number number rs) ss
numbered_bytes-append id number [] ss = refl
numbered_bytes-append id number (r ∷ rs) ss =
    ap (λ t. serialize (numbered id (u64 (number + 1)) r) ++ t)
      (numbered_bytes-append id (u64 (number + 1)) rs ss)
    ∙ sym (append_assoc (serialize (numbered id (u64 (number + 1)) r)) _ _)

last_number-append :
    (number : ℕ) (rs ss : List Response)
    → last_number number (rs ++ ss) ≡ last_number (last_number number rs) ss
last_number-append number [] ss = refl
last_number-append number (r ∷ rs) ss = last_number-append (u64 (number + 1)) rs ss

Writes-trans :
    (c d e : Connection) (rs ss : List Response)
    → Writes c d rs
    → Writes d e ss
    → Writes c e (rs ++ ss)
Writes-trans c d e rs ss v w = record {
  same_id = w.same_id ∙ v.same_id;
  in_order =
      w.in_order
      ∙ ap (λ t. t ++ numbered_bytes d.id d.stats.requests ss) v.in_order
      ∙ append_assoc (written c) (numbered_bytes c.id c.stats.requests rs) _
      ∙ ap (λ t. written c ++ t)
          ((λ i.
              numbered_bytes c.id c.stats.requests rs
              ++ numbered_bytes (v.same_id i) (v.counted i) ss)
            ∙ sym (numbered_bytes-append c.id c.stats.requests rs ss));
  counted =
      w.counted
      ∙ (λ i. last_number (v.counted i) ss)
      ∙ sym (last_number-append c.stats.requests rs ss);
  sent_le = w.sent_le;
}

module _ {handler : Request → Option Response} where
  pub Reach-Writes :
      {c d : Connection} {rs : List Response}
      → Reach handler c d rs
      → c.output_sent ≤ length c.output
      → Writes c d rs
  Reach-Writes {c} (here e) l =
      subst (λ d. Writes c d []) (sym e) (Writes-unchanged c c refl refl refl l)
  Reach-Writes {c} (next_step {d} {e} {rs} {ss} r s) l =
      let w = Reach-Writes r l in Writes-trans c d e rs ss w (Step-Writes s w.sent_le)

module _ (handler : Request → Option Response) where
  -- Whatever events and system answers a new connection meets on a wire that is empty, there are responses such that the
  -- bytes sent so far, followed by those that still wait, are these responses serialized whole and
  -- in order, each with the connection's id and its position from 1 on, and the counter of the
  -- connection says how many they are (modulo 2^64).
  pub run-in_order :
      (socket : Socket) (id now : ℕ) (config : ServerConfig) (es : List Event)
      → socket.wire ≡ []
      → (rs : List Response) × (written (run handler (new_connection socket id config now) es)
          ≡ numbered_bytes id 0 rs)
        × ((run handler (new_connection socket id config now) es).stats.requests ≡ last_number 0 rs)
  unfolding new_connection
  run-in_order socket id now config es empty_wire =
      let l = run-Leads handler (new_connection socket id config now) es in
      let w = Reach-Writes l.reach (omega arith) in
      (l.responses, w.in_order ∙ rw empty_wire refl, w.counted)
