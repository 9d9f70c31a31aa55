-- ===== src/DemoClient/Pipeline.antt =====
-- tools/demo_client.cpp against src/connection.cpp: the client reads a whole pipeline of responses
-- that a connection has written.
use network_arc_rajasurya.Prelude.{
  ℕ, suc, ◌+◌, ◌≡◌, ◌<◌, ◌^◌, refl, ap, ◌∙◌, true, List, [], ◌∷◌, ◌++◌, map, append_assoc, none,
  Bytes, codes, equal, length, to_string, u64, ==_self, arith,
}
use network_arc_rajasurya.Text.{iequals}
use network_arc_rajasurya.Request.{Header, header_in}
use network_arc_rajasurya.Response.{Response, serialize}
use network_arc_rajasurya.Connection.Socket.{RecvAnswer}
use network_arc_rajasurya.Connection.Output.{numbered}
use network_arc_rajasurya.Connection.Order.{numbered_bytes}
use network_arc_rajasurya.DemoClient.{same_connection}
use network_arc_rajasurya.DemoClient.Session.{
  Outcome, returns, Channel, read_on, receive, receive_all,
}
use network_arc_rajasurya.DemoClient.Reader.{got, HttpResponse, first_value, read_one}
use network_arc_rajasurya.DemoClient.Filling.{Delivers, arriving}
use network_arc_rajasurya.DemoClient.Texts.{to_field, response_fields, received, IsReadable}
use network_arc_rajasurya.DemoClient.RoundTrip.{read_one-serialize}

-- The responses with their evidence headers, as a connection numbers them.
abbrev pub numbered_all : ℕ → ℕ → List Response → List Response
numbered_all id number [] = []
numbered_all id number (r ∷ rs) =
    numbered id (u64 (number + 1)) r ∷ numbered_all id (u64 (number + 1)) rs

abbrev pub AllReadable : List Response → Type 0
AllReadable [] = Unit {0}
AllReadable (r ∷ rs) = IsReadable r × AllReadable rs

-- The responses themselves carry no evidence headers.
abbrev pub AreBare : List Response → Type 0
AreBare [] = Unit {0}
AreBare (r ∷ rs) =
    (header_in (codes "X-Connection-Id") r.headers ≡ none)
    × (header_in (codes "X-Request-Number") r.headers ≡ none)
    × AreBare rs

-- Responses that were received, with what follows them left on the channel.
pub record IsReceived (result : Outcome (List HttpResponse × Channel)) (rs : List HttpResponse)
    (c : Channel) (rest : Bytes) : Type 0 where
  pub channel : Channel
  pub returned : result ≡ returns (rs, channel)
  pub delivers : Delivers channel.recvs
  pub same : channel.buffer ++ arriving channel.recvs ≡ rest
  pub same_wire : channel.wire ≡ c.wire

one_more :
    (n : ℕ) (c d e : Channel) (r : HttpResponse) (rs : List HttpResponse)
    → receive c ≡ returns (r, d)
    → receive_all n d ≡ returns (rs, e)
    → receive_all (suc n) c ≡ returns (r ∷ rs, e)
unfolding receive_all
one_more n c d e r rs h k = rw (h, k) refl

received_first :
    (c : Channel) (r : Response) (left : List RecvAnswer) (unread : Bytes)
    → read_one c.recvs c.buffer ≡ got (received r) unread left
    → receive c ≡ returns (received r, record c { recvs = left; buffer = unread })
unfolding receive
received_first c r left unread e = ap (read_on c) e

-- Each is read back, in order, and what follows stays for later.
receive_all-numbered :
    (id number : ℕ) (rs : List Response) (c : Channel) (rest : Bytes)
    → AllReadable (numbered_all id number rs)
    → Delivers c.recvs
    → c.buffer ++ arriving c.recvs ≡ numbered_bytes id number rs ++ rest
    → IsReceived (receive_all (length rs) c) (map received (numbered_all id number rs)) c rest
receive_all-numbered id number [] c rest h d e = record {
  channel = c;
  returned = unfold receive_all in refl;
  delivers = d;
  same = e;
  same_wire = refl;
}
receive_all-numbered id number (r ∷ rs) c rest (h, hs) d e =
    let now = numbered id (u64 (number + 1)) r in
    let later = numbered_bytes id (u64 (number + 1)) rs in
    let first =
      read_one-serialize now c.recvs c.buffer (later ++ rest) h d
        (e ∙ append_assoc (serialize now) later rest) in
    let next : Channel = record c { recvs = first.left; buffer = first.unread } in
    let others =
      receive_all-numbered id (u64 (number + 1)) rs next rest hs first.delivers first.same in
    record {
      channel = others.channel;
      returned =
          one_more (length rs) c next others.channel (received now) _
            (received_first c now first.left first.unread first.returns) others.returned;
      delivers = others.delivers;
      same = others.same;
      same_wire = others.same_wire;
    }

first_value-absent :
    (name : Bytes) (hs more : List Header)
    → header_in name hs ≡ none
    → first_value name (map to_field (hs ++ more)) ≡ first_value name (map to_field more)
unfolding first_value header_in
first_value-absent name [] more h = refl
first_value-absent name (x ∷ hs) more h = ground (arith, first_value-absent name hs more)

equal_self : (text : Bytes) → equal text text ≡ true
unfolding equal
equal_self [] = refl
equal_self (c ∷ cs) = rw (==_self c, equal_self cs) refl

abbrev own_fields : ℕ → ℕ → List Header
own_fields id number =
    record { name = codes "X-Connection-Id"; value = to_string id }
    ∷ record { name = codes "X-Request-Number"; value = to_string number }
    ∷ []

-- The fields that every response has are none of the two.
behind_fixed :
    (r : Response)
    → (first_value (codes "X-Connection-Id") (response_fields r)
        ≡ first_value (codes "X-Connection-Id") (map to_field r.headers))
      × (first_value (codes "X-Request-Number") (response_fields r)
          ≡ first_value (codes "X-Request-Number") (map to_field r.headers))
unfolding first_value iequals codes
behind_fixed r = (refl, refl)

own_values :
    (id number : ℕ)
    → (first_value (codes "X-Connection-Id") (map to_field (own_fields id number)) ≡ to_string id)
      × (first_value (codes "X-Request-Number") (map to_field (own_fields id number))
          ≡ to_string number)
unfolding first_value iequals codes
own_values id number = (refl, refl)

evidence :
    (id number : ℕ) (r : Response)
    → header_in (codes "X-Connection-Id") r.headers ≡ none
    → header_in (codes "X-Request-Number") r.headers ≡ none
    → (first_value (codes "X-Connection-Id") (response_fields (numbered id number r))
        ≡ to_string id)
      × (first_value (codes "X-Request-Number") (response_fields (numbered id number r))
          ≡ to_string number)
unfolding numbered
evidence id number r h k =
    let (fixed_id, fixed_number) = behind_fixed (numbered id number r) in
    let (own_id, own_number) = own_values id number in
    (
      fixed_id ∙ first_value-absent _ r.headers (own_fields id number) h ∙ own_id,
      fixed_number ∙ first_value-absent _ r.headers (own_fields id number) k ∙ own_number,
    )

same_connection-numbered :
    (id number : ℕ) (rs : List Response)
    → AreBare rs
    → number + length rs < 2 ^ 64
    → same_connection (to_string id) number (map received (numbered_all id number rs)) ≡ true
unfolding same_connection
same_connection-numbered id number [] h b = refl
same_connection-numbered id number (r ∷ rs) (h, k, hs) b =
    let (its_id, its_number) = evidence id (u64 (number + 1)) r h k in
    let next : u64 (number + 1) ≡ number + 1 = omega arith in
    rw
      (
        its_id,
        its_number,
        next,
        equal_self (to_string id),
        equal_self (to_string (number + 1)),
        same_connection-numbered id (number + 1) rs hs (omega arith),
      )
      refl

-- The client receives the pipeline of a connection of fewer than 2^64 responses, in pieces of at most
-- 4096 bytes, leaves what follows it, and finds that every response names the connection and that
-- their numbers count from 1; provided that each response has its body (no answer to a HEAD), a
-- status below 2^31, a text shorter than 2^64, headers that the client can take apart, and no evidence
-- header of its own.
pub receive_all-same_connection :
    (id : ℕ) (rs : List Response) (c : Channel) (rest : Bytes)
    → AllReadable (numbered_all id 0 rs)
    → AreBare rs
    → length rs < 2 ^ 64
    → Delivers c.recvs
    → c.buffer ++ arriving c.recvs ≡ numbered_bytes id 0 rs ++ rest
    → IsReceived (receive_all (length rs) c) (map received (numbered_all id 0 rs)) c rest
      × (same_connection (to_string id) 0 (map received (numbered_all id 0 rs)) ≡ true)
receive_all-same_connection id rs c rest h bare short d e =
    (receive_all-numbered id 0 rs c rest h d e, same_connection-numbered id 0 rs bare (omega arith))
