-- ===== src/DemoClient/Filling.antt =====
-- tools/demo_client.cpp, `ResponseReader::fill`: the loops that wait for enough bytes.
use network_arc_rajasurya.Prelude.{
  ◌≡◌, ◌≤◌, refl, sym, ap, ◌∙◌, inl, inr, Bool, false, List, [], ◌∷◌, ◌++◌, append-nil,
  append_assoc, Bytes, length, Bool-cases, take_all,
}
use network_arc_rajasurya.Connection.Socket.{
  RecvAnswer, arrives, recv_fails, eintr, eagain, other_error,
}
use network_arc_rajasurya.DemoClient.Reader.{chunk_bytes, full, fill_while}

-- Only bytes, a chunk at most in a call, and interruptions: the server has not closed and no call has
-- failed.
abbrev pub Delivers : List RecvAnswer → Type 0
Delivers [] = Unit {0}
Delivers (arrives [] ∷ answers) = ⊥
Delivers (arrives (x ∷ xs) ∷ answers) = (length (x ∷ xs) ≤ chunk_bytes) × Delivers answers
Delivers (recv_fails eintr ∷ answers) = Delivers answers
Delivers (recv_fails eagain ∷ answers) = ⊥
Delivers (recv_fails (other_error n) ∷ answers) = ⊥

abbrev pub arriving : List RecvAnswer → Bytes
arriving [] = []
arriving (arrives bytes ∷ answers) = bytes ++ arriving answers
arriving (recv_fails e ∷ answers) = arriving answers

pub record IsFilled (more : Bytes → Bool) (answers : List RecvAnswer) (buffer : Bytes)
    : Type 0 where
  pub held : Bytes
  pub left : List RecvAnswer
  pub fills : fill_while more answers buffer ≡ full held left
  pub done : more held ≡ false
  pub delivers : Delivers left
  pub same : held ++ arriving left ≡ buffer ++ arriving answers

abbrev pub at_once :
    (more : Bytes → Bool) (answers : List RecvAnswer) (buffer : Bytes)
    → Delivers answers
    → more buffer ≡ false
    → fill_while more answers buffer ≡ full buffer answers
    → IsFilled more answers buffer
at_once more answers buffer d e f = record {
  held = buffer;
  left = answers;
  fills = f;
  done = e;
  delivers = d;
  same = refl;
}

-- The loop ends when what arrives is enough, and loses nothing.
pub fill_while-IsFilled :
    (more : Bytes → Bool) (answers : List RecvAnswer) (buffer : Bytes)
    → Delivers answers
    → more (buffer ++ arriving answers) ≡ false
    → IsFilled more answers buffer
unfolding fill_while
fill_while-IsFilled more [] buffer d e =
    let enough : more buffer ≡ false = ap more (sym (append-nil buffer)) ∙ e in
    at_once more [] buffer d enough (rw enough refl)
fill_while-IsFilled more (arrives [] ∷ answers) buffer d e = absurd d
fill_while-IsFilled more (recv_fails eagain ∷ answers) buffer d e = absurd d
fill_while-IsFilled more (recv_fails (other_error n) ∷ answers) buffer d e = absurd d
fill_while-IsFilled more (arrives (x ∷ xs) ∷ answers) buffer (fits_in, d) e =
    elim (Bool-cases (more buffer)) [
      | inl lacks ↦
          let whole = take_all chunk_bytes (x ∷ xs) fits_in in
          let r =
            fill_while-IsFilled more answers (buffer ++ x ∷ xs) d
              (ap more (append_assoc buffer (x ∷ xs) (arriving answers)) ∙ e) in
          record {
            held = r.held;
            left = r.left;
            fills = rw lacks (ap (λ t. fill_while more answers (buffer ++ t)) whole ∙ r.fills);
            done = r.done;
            delivers = r.delivers;
            same = r.same ∙ append_assoc buffer (x ∷ xs) (arriving answers);
          }
      | inr enough ↦
          at_once more (arrives (x ∷ xs) ∷ answers) buffer (fits_in, d) enough (rw enough refl)
    ]
fill_while-IsFilled more (recv_fails eintr ∷ answers) buffer d e = elim (Bool-cases (more buffer)) [
  | inl lacks ↦
      let r = fill_while-IsFilled more answers buffer d e in
      record {
        held = r.held;
        left = r.left;
        fills = rw lacks r.fills;
        done = r.done;
        delivers = r.delivers;
        same = r.same;
      }
  | inr enough ↦ at_once more (recv_fails eintr ∷ answers) buffer d enough (rw enough refl)
]
