-- ===== src/DemoClient/Wire.antt =====
-- tools/demo_client.cpp: what a session has put on the wire when its exchanges are over.
use network_arc_rajasurya.Prelude.{
  ℕ, zero, suc, ◌≡◌, refl, sym, ap, ◌∙◌, Bool, true, false, List, [], ◌∷◌, ◌++◌, append_assoc,
  append-nil, Bytes, length,
}
use network_arc_rajasurya.DemoClient.{Exchange}
use network_arc_rajasurya.DemoClient.Reader.{HttpResponse, Read, got, threw, waits, read_one}
use network_arc_rajasurya.DemoClient.Sockets.{
  Sending, all_sent, send_threw, send_waits, Sends, send_all, send_all-Sends,
}
use network_arc_rajasurya.DemoClient.Session.{
  Outcome, returns, throws, hangs, ◌>>=◌, Channel, sent_on, send, read_on, receive, receive_all,
  sequential, requests_of, exchange_all,
}

-- What is returned has the property.
abbrev pub Ends : {A : Type 0} → (A → Type 0) → Outcome A → Type 0
Ends P (returns a) = P a
Ends P throws = Unit {0}
Ends P hangs = Unit {0}

Ends-bind :
    {A B : Type 0} (P : A → Type 0) (Q : B → Type 0) (m : Outcome A) (f : A → Outcome B)
    → Ends P m
    → ((a : A) → P a → Ends Q (f a))
    → Ends Q (m >>= f)
Ends-bind P Q (returns a) f h k = k a h
Ends-bind P Q throws f h k = tt
Ends-bind P Q hangs f h k = tt

Ends-mono :
    {A : Type 0} (P Q : A → Type 0) (m : Outcome A) → Ends P m → ((a : A) → P a → Q a) → Ends Q m
Ends-mono P Q (returns a) h k = k a h
Ends-mono P Q throws h k = tt
Ends-mono P Q hangs h k = tt

sent_on-wire :
    (text : Bytes) (c : Channel) (s : Sending)
    → Sends (c.wire ++ text) s
    → Ends (λ d. d.wire ≡ c.wire ++ text) (sent_on c s)
sent_on-wire text c (all_sent wire left) h = h
sent_on-wire text c (send_threw wire) h = tt
sent_on-wire text c (send_waits wire) h = tt

send-wire : (text : Bytes) (c : Channel) → Ends (λ d. d.wire ≡ c.wire ++ text) (send text c)
unfolding send
send-wire text c =
    sent_on-wire text c (send_all text c.sends c.wire)
      (send_all-Sends text c.sends c.wire (c.wire ++ text) refl)

read_on-wire : (c : Channel) (r : Read) → Ends (λ p. p.1.wire ≡ c.wire) (read_on c r)
read_on-wire c (got r buffer left) = refl
read_on-wire c threw = tt
read_on-wire c waits = tt

receive-wire : (c : Channel) → Ends (λ p. p.1.wire ≡ c.wire) (receive c)
unfolding receive
receive-wire c = read_on-wire c (read_one c.recvs c.buffer)

-- So many responses, and this text more on the wire.
abbrev pub Answered : Channel → Bytes → ℕ → List HttpResponse × Channel → Type 0
Answered c text n p = (p.1.wire ≡ c.wire ++ text) × (length p.0 ≡ n)

receive_all-Answered : (n : ℕ) (c : Channel) → Ends (Answered c [] n) (receive_all n c)
unfolding receive_all
receive_all-Answered zero c = (sym (append-nil c.wire), refl)
receive_all-Answered (suc n) c =
    Ends-bind (λ p. p.1.wire ≡ c.wire) (Answered c [] (suc n)) (receive c) _ (receive-wire c)
      (λ p one.
        Ends-bind (Answered p.1 [] n) (Answered c [] (suc n)) (receive_all n p.1) _
          (receive_all-Answered n p.1) (λ q more. (more.0 ∙ ap (λ w. w ++ []) one, ap suc more.1)))

sequential-Answered :
    (es : List Exchange) (c : Channel)
    → Ends (Answered c (requests_of es) (length es)) (sequential es c)
unfolding sequential
sequential-Answered [] c = (sym (append-nil c.wire), refl)
sequential-Answered (e ∷ es) c =
    let Q = Answered c (requests_of (e ∷ es)) (suc (length es)) in
    Ends-bind (λ d. d.wire ≡ c.wire ++ e.request) Q (send e.request c) _ (send-wire e.request c)
      (λ d sent.
        Ends-bind (λ p. p.1.wire ≡ d.wire) Q (receive d) _ (receive-wire d)
          (λ p one.
            Ends-bind (Answered p.1 (requests_of es) (length es)) Q (sequential es p.1) _
              (sequential-Answered es p.1)
              (λ q more. (
                more.0
                    ∙ ap (λ w. w ++ requests_of es) (one ∙ sent)
                    ∙ append_assoc c.wire e.request (requests_of es),
                ap suc more.1,
              ))))

-- In both modes, when the exchanges return there is a response for each, and the system has taken all
-- requests, whole and in order, and nothing else.
pub exchange_all-Answered :
    (pipeline : Bool) (es : List Exchange) (c : Channel)
    → Ends (Answered c (requests_of es) (length es)) (exchange_all pipeline es c)
unfolding exchange_all
exchange_all-Answered false es c = sequential-Answered es c
exchange_all-Answered true es c =
    Ends-bind (λ d. d.wire ≡ c.wire ++ requests_of es) _ (send (requests_of es) c) _
      (send-wire (requests_of es) c)
      (λ d sent.
        Ends-mono (Answered d [] (length es)) (Answered c (requests_of es) (length es))
          (receive_all (length es) d) (receive_all-Answered (length es) d)
          (λ q more. (more.0 ∙ append-nil d.wire ∙ sent, more.1)))
