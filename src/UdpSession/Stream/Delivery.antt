-- ===== src/UdpSession/Stream/Delivery.antt =====
-- Packets that arrive out of order, or more than once, are put back in order without a loss.
use medium.Common.{
  ℕ, ◌^◌, ◌<◌, ◌≡◌, refl, ap, ◌∙◌, inl, inr, List, [], ◌∷◌, map, arith, Bytes, some, All, Result,
  ok, err, Bool, true, false,
}
use native.Mathlib.Decide.{dec_lt}
use medium.UdpSession.Packet.{Packet, PacketError, ack, data_packet, encode_packet}
use medium.UdpSession.Session.{Direction, Cipher, new_state, nonce_bytes, peer, accept, lookup}
use medium.UdpSession.Session.Reassembly.{stream, InOrder, IsSettled}
use medium.UdpSession.Session.Delivery.{
  Has, accept_all, Arrives, accept_all-InOrder, accept_all-Has,
}
use medium.UdpSession.Stream.{
  Stream, transmit, send_encoded, send_packet, send_ack, on_plaintext, handle_data_packet,
}

-- What one call leaves alone.
record Same (s t : Stream) : Type 0 where
  cipher : t.cipher ≡ s.cipher
  direction : t.direction ≡ s.direction
  state : t.state ≡ s.state

send_encoded-Same :
    (r : Result PacketError Bytes) (p : Packet) (s : Stream) → Same s (send_encoded r p s).1
unfolding send_encoded
send_encoded-Same (err e) p s = record { cipher = refl; direction = refl; state = refl }
send_encoded-Same (ok _) p s = transmit-Same s.faults
  where
    transmit-Same : (fs : List Bool) → Same s (transmit p fs s).1
    transmit-Same [] = record { cipher = refl; direction = refl; state = refl }
    transmit-Same (true ∷ fs) = record { cipher = refl; direction = refl; state = refl }
    transmit-Same (false ∷ fs) = record { cipher = refl; direction = refl; state = refl }

send_ack-Same : (seq : ℕ) (s : Stream) → Same s (send_ack seq s).1
unfolding send_ack send_packet
send_ack-Same seq s =
    send_encoded-Same (encode_packet (record { kind = ack; seq = seq; payload = [] })) _ s

-- Each packet is handled; a send that fails is not tried again.
pub handle_all : List Packet → Stream → Stream
handle_all [] s = s
handle_all (p ∷ ps) s = handle_all ps (handle_data_packet p s).1

abbrev pub chunk_packet : (ℕ → Bytes) → ℕ → Packet
chunk_packet sealed k = record { kind = data_packet; seq = k; payload = sealed k }

-- `sealed k` is opened to `sent k` for all `k` below `n`.
abbrev pub Opens : (ℕ → Bytes) → (ℕ → Bytes) → ℕ → Cipher → Direction → Type 0
Opens sent sealed n c d =
    (k : ℕ) → k < n → c.decrypt (nonce_bytes (peer d) k) (sealed k) ≡ some (sent k)

module _ (sent sealed : ℕ → Bytes) (n : ℕ) where
  handle-accept :
      (k : ℕ) (s : Stream)
      → k < n
      → Opens sent sealed n s.cipher s.direction
      → ((handle_data_packet (chunk_packet sealed k) s).1.state ≡ accept k (sent k) s.state)
        × Opens sent sealed n
            (handle_data_packet (chunk_packet sealed k) s).1.cipher
            (handle_data_packet (chunk_packet sealed k) s).1.direction
  unfolding handle_data_packet on_plaintext
  handle-accept k s h opens =
      rw (opens k h, on_plaintext)
        (let same = send_ack-Same k (record s { state = accept k (sent k) s.state }) in
          (same.state, rw (same.cipher, same.direction) opens))

  handle_all-accept_all :
      (seqs : List ℕ) (s : Stream)
      → Opens sent sealed n s.cipher s.direction
      → All (λ k. k < n) seqs
      → (handle_all (map (chunk_packet sealed) seqs) s).state ≡ accept_all sent seqs s.state
  unfolding handle_all accept_all
  handle_all-accept_all [] s opens h = refl
  handle_all-accept_all (k ∷ ks) s opens h =
      let (state, opens') = handle-accept k s h.0 opens in
      handle_all-accept_all ks _ opens' h.1 ∙ ap (accept_all sent ks) state

-- Let the peer seal `n` chunks, and let packets with these chunks, and no others, reach a new
-- session in any order, each chunk at least once. Then, even if no acknowledgement can be sent, the
-- session holds all the chunks in the order of their numbers, ready to be read, and expects number
-- `n` next.
pub handle_all-stream :
    (sent sealed : ℕ → Bytes) (n : ℕ) (seqs : List ℕ) (s : Stream)
    → s.state ≡ new_state
    → n < 2 ^ 64
    → Opens sent sealed n s.cipher s.direction
    → All (λ k. k < n) seqs
    → ((k : ℕ) → k < n → Arrives k seqs)
    → ((handle_all (map (chunk_packet sealed) seqs) s).state.pending_read ≡ stream sent n)
      × ((handle_all (map (chunk_packet sealed) seqs) s).state.recv_seq ≡ n)
handle_all-stream sent sealed n seqs s e fits opens below all =
    rw (handle_all-accept_all sent sealed n seqs s opens below, e)
      (rw count at order.delivered, count)
  where
    start : InOrder sent n [] new_state
    start = record { delivered = refl; parked = tt; small = omega arith; fits = fits }

    settled : IsSettled new_state
    settled = unfold lookup in refl

    order : InOrder sent n [] (accept_all sent seqs new_state)
    order = (accept_all-InOrder sent n seqs [] new_state start settled below).0

    last : IsSettled (accept_all sent seqs new_state)
    last = (accept_all-InOrder sent n seqs [] new_state start settled below).1

    missing : Has (accept_all sent seqs new_state).recv_seq (accept_all sent seqs new_state) → ⊥
    missing (inl h) = omega arith
    missing (inr h) = h last

    count : (accept_all sent seqs new_state).recv_seq ≡ n
    count = elim (dec_lt (accept_all sent seqs new_state).recv_seq n) [
      | yes short ↦
          let has =
            accept_all-Has sent n (accept_all sent seqs new_state).recv_seq seqs [] new_state start
              settled below (inr (all (accept_all sent seqs new_state).recv_seq short)) in
          absurd (missing has)
      | no long ↦ omega (arith, order.small)
    ]
