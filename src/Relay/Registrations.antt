-- ===== src/Relay/Registrations.antt =====
-- Whom the UDP rendezvous registers, and whom it tells whose address.
use mathlib.Core.List.{append_assoc, append-nil}
use medium.Common.{
  ℕ, ◌≡◌, inl, inr, refl, sym, ap, ◌∙◌, Bool, true, false, List, [], ◌∷◌, ◌++◌, Option, none, some,
  Bytes, bytes_eq, bytes_eq_iff, Bool-cases, if◌then◌else◌, Result, ok, err, All, All-append,
}
use medium.SessionToken.{SessionTokenClaims, Crypto, TokenError, verify_session_token}
use medium.UdpSession.Stream.{SocketAddr}
use medium.UdpSession.Handshake.{Message, node, client, registered, peer_at, punch}
use medium.Relay.Rendezvous.{
  Datagram, Rendezvous, Nodes, Outcome, node_addr, insert_node, transmit, send_udp_message,
  then_send, on_node, on_client, on_message, on_claims, introduce, handle_udp_rendezvous_message,
  run_udp_rendezvous,
}

-- The datagram registers this node: the secret is set, and the datagram has it.
abbrev registers : Bytes → Option Bytes → Option Message → Bool
registers node_id (some secret) (some (node id provided)) =
    if bytes_eq secret provided then bytes_eq id node_id else false
registers _ _ _ = false

-- Where the last datagram came from that registers this node, read off the datagrams alone.
unfoldable pub last_registration :
    (Bytes → Option Message)
    → Option Bytes
    → Bytes
    → List Datagram
    → Option SocketAddr
    → Option SocketAddr
last_registration parse_message secret node_id [] before = before
last_registration parse_message secret node_id (d ∷ received) before =
    last_registration parse_message secret node_id received
      (if registers node_id secret (parse_message d.payload) then some d.peer_addr else before)

-- A token that is good for this node at this time.
pub record IsTokenFor (crypto : Crypto) (now : ℕ) (secret : Option Bytes) (node_id token : Bytes)
    : Type 0 where
  known : Bytes
  configured : secret ≡ some known
  claims : SessionTokenClaims
  accepted : verify_session_token crypto now known token ≡ ok claims
  named : claims.node_id ≡ node_id

-- A message that the rendezvous may send: a node that knows the secret is told its own address; the
-- client of a token for a registered node, and that node, are told each other's.
pub data MaySend (crypto : Crypto) (to_string : SocketAddr → Bytes) (now : ℕ)
    (secret : Option Bytes) (nodes : Nodes) (peer_addr : SocketAddr)
    : Option Message → SocketAddr → Message → Type 0 where
  confirms :
      (node_id known : Bytes)
      → secret ≡ some known
      → MaySend crypto to_string now secret nodes peer_addr
          (some (node node_id known))
          peer_addr
          (registered (to_string peer_addr))
  tells_client :
      (node_id token : Bytes) (a : SocketAddr)
      → IsTokenFor crypto now secret node_id token
      → node_addr node_id nodes ≡ some a
      → MaySend crypto to_string now secret nodes peer_addr
          (some (client node_id token))
          peer_addr
          (peer_at (to_string a))
  tells_node :
      (node_id token : Bytes) (a : SocketAddr)
      → IsTokenFor crypto now secret node_id token
      → node_addr node_id nodes ≡ some a
      → MaySend crypto to_string now secret nodes peer_addr
          (some (client node_id token))
          a
          (peer_at (to_string peer_addr))

-- The messages that were sent between two states all satisfy P.
pub record Sent (P : SocketAddr → Message → Type 0) (s t : Rendezvous) : Type 0 where
  news : List (SocketAddr × Message)
  appended : t.outgoing ≡ s.outgoing ++ news
  allowed : All (λ x. P x.0 x.1) news

Sent-none :
    (P : SocketAddr → Message → Type 0) (s t : Rendezvous) → t.outgoing ≡ s.outgoing → Sent P s t
Sent-none P s t e = record { news = []; appended = e ∙ sym (append-nil s.outgoing); allowed = tt }

transmit-Sent :
    (P : SocketAddr → Message → Type 0) (a : SocketAddr) (m : Message) (sends : List Bool)
    (s : Rendezvous)
    → P a m
    → Sent P s (transmit a m sends s).1
transmit-Sent P a m [] s p = record { news = (a, m) ∷ []; appended = refl; allowed = (p, tt) }
transmit-Sent P a m (true ∷ sends) s p = record {
  news = (a, m) ∷ [];
  appended = refl;
  allowed = (p, tt);
}
transmit-Sent P a m (false ∷ sends) s p = Sent-none P s _ refl

then_send-Sent :
    (P : SocketAddr → Message → Type 0) (s : Rendezvous) (x : Outcome) (f : Rendezvous → Outcome)
    → Sent P s x.1
    → ((t : Rendezvous) → Sent P t (f t).1)
    → Sent P s (then_send x f).1
then_send-Sent P s (err e, t) f h k = h
then_send-Sent P s (ok _, t) f h k =
    let g = k t in
    record {
      news = h.news ++ g.news;
      appended =
          g.appended ∙ ap (λ l. l ++ g.news) h.appended ∙ append_assoc s.outgoing h.news g.news;
      allowed = All-append _ h.news g.news h.allowed g.allowed;
    }

transmit-nodes :
    (a : SocketAddr) (m : Message) (sends : List Bool) (s : Rendezvous)
    → (transmit a m sends s).1.nodes ≡ s.nodes
transmit-nodes a m [] s = refl
transmit-nodes a m (true ∷ sends) s = refl
transmit-nodes a m (false ∷ sends) s = refl

then_send-nodes :
    (nodes : Nodes) (x : Outcome) (f : Rendezvous → Outcome)
    → x.1.nodes ≡ nodes
    → ((t : Rendezvous) → (f t).1.nodes ≡ t.nodes)
    → (then_send x f).1.nodes ≡ nodes
then_send-nodes nodes (err e, t) f h k = h
then_send-nodes nodes (ok _, t) f h k = k t ∙ h

module _ (parse_message : Bytes → Option Message) (to_string : SocketAddr → Bytes)
    (crypto : Crypto) where
  introduce-Sent :
      (now : ℕ) (node_id token : Bytes) (peer_addr : SocketAddr) (secret : Option Bytes)
      (o : Option SocketAddr) (s : Rendezvous)
      → IsTokenFor crypto now secret node_id token
      → node_addr node_id s.nodes ≡ o
      → Sent
          (MaySend crypto to_string now secret s.nodes peer_addr (some (client node_id token)))
          s
          (introduce parse_message to_string crypto peer_addr o s).1
  unfolding send_udp_message
  introduce-Sent now node_id token peer_addr secret none s t e = Sent-none _ s s refl
  introduce-Sent now node_id token peer_addr secret (some a) s t e =
      then_send-Sent _ s (transmit peer_addr (peer_at (to_string a)) s.sends s) _
        (transmit-Sent _ peer_addr (peer_at (to_string a)) s.sends s
          (tells_client node_id token a t e))
        (λ u.
          transmit-Sent _ a (peer_at (to_string peer_addr)) u.sends u
            (tells_node node_id token a t e))

  claims-Sent :
      (now : ℕ) (node_id token known : Bytes) (peer_addr : SocketAddr) (secret : Option Bytes)
      (r : Result TokenError SessionTokenClaims) (s : Rendezvous)
      → secret ≡ some known
      → verify_session_token crypto now known token ≡ r
      → Sent
          (MaySend crypto to_string now secret s.nodes peer_addr (some (client node_id token)))
          s
          (on_claims parse_message to_string crypto node_id peer_addr r s).1
  claims-Sent now node_id token known peer_addr secret (err e) s k v = Sent-none _ s s refl
  claims-Sent now node_id token known peer_addr secret (ok claims) s k v =
      elim (Bool-cases (bytes_eq claims.node_id node_id)) [
        | inr other ↦ rw other (Sent-none _ s s refl)
        | inl same ↦
            let good : IsTokenFor crypto now secret node_id token = record {
              known = known;
              configured = k;
              claims = claims;
              accepted = v;
              named = (bytes_eq_iff claims.node_id node_id).0 same;
            } in
            rw same (introduce-Sent now node_id token peer_addr secret _ s good refl)
      ]

  on_message-Sent :
      (now : ℕ) (m : Option Message) (peer_addr : SocketAddr) (secret : Option Bytes)
      (s : Rendezvous)
      → Sent
          (MaySend crypto to_string now secret s.nodes peer_addr m)
          s
          (on_message parse_message to_string crypto now m peer_addr secret s).1
  unfolding on_message on_node on_client send_udp_message
  on_message-Sent now none peer_addr secret s = Sent-none _ s s refl
  on_message-Sent now (some (node node_id provided)) peer_addr none s = Sent-none _ s s refl
  on_message-Sent now (some (node node_id provided)) peer_addr (some known) s =
      elim (Bool-cases (bytes_eq known provided)) [
        | inr other ↦ rw other (Sent-none _ s s refl)
        | inl same ↦
            let equal : known ≡ provided = (bytes_eq_iff known provided).0 same in
            let may : MaySend crypto to_string now (some known) s.nodes peer_addr
                (some (node node_id provided)) peer_addr (registered (to_string peer_addr)) =
              confirms node_id provided (ap some equal) in
            let after : Rendezvous = record s { nodes = insert_node node_id peer_addr s.nodes } in
            let sent =
              transmit-Sent _ peer_addr (registered (to_string peer_addr)) s.sends after may in
            rw same (record { news = sent.news; appended = sent.appended; allowed = sent.allowed })
      ]
  on_message-Sent now (some (client node_id token)) peer_addr none s = Sent-none _ s s refl
  on_message-Sent now (some (client node_id token)) peer_addr (some known) s =
      claims-Sent now node_id token known peer_addr (some known) _ s refl refl
  on_message-Sent now (some (registered a)) peer_addr secret s = Sent-none _ s s refl
  on_message-Sent now (some (peer_at a)) peer_addr secret s = Sent-none _ s s refl
  on_message-Sent now (some punch) peer_addr secret s = Sent-none _ s s refl

  -- All that the rendezvous sends for a datagram is: to a node that sent the shared secret, its own
  -- address; and for a client with a token that is accepted and names a registered node, the node's
  -- address to the client and the client's to the node.
  pub handle_udp_rendezvous_message-Sent :
      (d : Datagram) (secret : Option Bytes) (s : Rendezvous)
      → Sent
          (MaySend crypto to_string d.now secret s.nodes d.peer_addr (parse_message d.payload))
          s
          (handle_udp_rendezvous_message parse_message to_string crypto d.now d.payload d.peer_addr
            secret s).1
  unfolding handle_udp_rendezvous_message
  handle_udp_rendezvous_message-Sent d secret s =
      on_message-Sent d.now (parse_message d.payload) d.peer_addr secret s

  introduce-nodes :
      (peer_addr : SocketAddr) (o : Option SocketAddr) (s : Rendezvous)
      → (introduce parse_message to_string crypto peer_addr o s).1.nodes ≡ s.nodes
  unfolding send_udp_message
  introduce-nodes peer_addr none s = refl
  introduce-nodes peer_addr (some a) s =
      then_send-nodes s.nodes (transmit peer_addr (peer_at (to_string a)) s.sends s) _
        (transmit-nodes peer_addr _ s.sends s)
        (λ t. transmit-nodes a (peer_at (to_string peer_addr)) t.sends t)

  claims-nodes :
      (node_id : Bytes) (peer_addr : SocketAddr) (r : Result TokenError SessionTokenClaims)
      (s : Rendezvous)
      → (on_claims parse_message to_string crypto node_id peer_addr r s).1.nodes ≡ s.nodes
  claims-nodes node_id peer_addr (err e) s = refl
  claims-nodes node_id peer_addr (ok claims) s =
      elim (Bool-cases (bytes_eq claims.node_id node_id)) [
        | inr other ↦ rw other refl
        | inl same ↦ rw same (introduce-nodes peer_addr (node_addr node_id s.nodes) s)
      ]

  on_message-node_addr :
      (now : ℕ) (id : Bytes) (m : Option Message) (peer_addr : SocketAddr) (secret : Option Bytes)
      (s : Rendezvous)
      → node_addr id (on_message parse_message to_string crypto now m peer_addr secret s).1.nodes
        ≡ (if registers id secret m then some peer_addr else node_addr id s.nodes)
  unfolding on_message on_node on_client send_udp_message insert_node node_addr
  on_message-node_addr now id none peer_addr none s = refl
  on_message-node_addr now id none peer_addr (some known) s = refl
  on_message-node_addr now id (some (node node_id provided)) peer_addr none s = refl
  on_message-node_addr now id (some (node node_id provided)) peer_addr (some known) s =
      elim (Bool-cases (bytes_eq known provided)) [
        | inr other ↦ rw other refl
        | inl same ↦
            rw
              (
                same,
                transmit-nodes peer_addr (registered (to_string peer_addr)) s.sends
                    (record s { nodes = (node_id, peer_addr) ∷ s.nodes }),
              )
              refl
      ]
  on_message-node_addr now id (some (client node_id token)) peer_addr none s = refl
  on_message-node_addr now id (some (client node_id token)) peer_addr (some known) s =
      ap (node_addr id)
        (claims-nodes node_id peer_addr (verify_session_token crypto now known token) s)
  on_message-node_addr now id (some (registered a)) peer_addr none s = refl
  on_message-node_addr now id (some (registered a)) peer_addr (some known) s = refl
  on_message-node_addr now id (some (peer_at a)) peer_addr none s = refl
  on_message-node_addr now id (some (peer_at a)) peer_addr (some known) s = refl
  on_message-node_addr now id (some punch) peer_addr none s = refl
  on_message-node_addr now id (some punch) peer_addr (some known) s = refl

  -- After any datagrams, the address that the rendezvous has for a node is where the last datagram
  -- came from that registers the node with the shared secret, whichever sends failed.
  pub run_udp_rendezvous-last_registration :
      (node_id : Bytes) (received : List Datagram) (secret : Option Bytes) (s : Rendezvous)
      → node_addr node_id
          (run_udp_rendezvous parse_message to_string crypto received secret s).nodes
        ≡ last_registration parse_message secret node_id received (node_addr node_id s.nodes)
  unfolding run_udp_rendezvous last_registration handle_udp_rendezvous_message
  run_udp_rendezvous-last_registration node_id [] secret s = refl
  run_udp_rendezvous-last_registration node_id (d ∷ received) secret s =
      run_udp_rendezvous-last_registration node_id received secret _
      ∙ ap (last_registration parse_message secret node_id received)
          (on_message-node_addr d.now node_id (parse_message d.payload) d.peer_addr secret s)
