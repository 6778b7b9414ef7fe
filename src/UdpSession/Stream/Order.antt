-- ===== src/UdpSession/Stream/Order.antt =====
-- Every call of a stream keeps what it has received in the order of the peer.
use medium.Common.{
  ℕ, zero, suc, ◌^◌, ◌<◌, ◌≡◌, refl, inl, inr, Bool, true, false, List, [], ◌==◌, ◌∷◌, Bytes,
  Option, none, some, Bool-cases, Result, ok, err, length,
}
use medium.UdpSession.Packet.{
  Packet, PacketError, PacketKind, data_packet, ack, close, encode_packet,
}
use medium.UdpSession.Session.{nonce_bytes, peer}
use medium.UdpSession.Session.Reassembly.{InOrder, IsSettled, accept-InOrder}
use medium.UdpSession.Stream.Wire.{Fits, IsWire, recv-Gets, Gets-parts}
use medium.UdpSession.Stream.{
  IoError, timed_out, retries, chunk_of, remaining, is_reply, Stream, send_encoded, on_plaintext,
  write_sealed, Io, continue, transmit, send_packet, send_ack, recv_session_packet,
  handle_data_packet, on_reply, ack_loop, wait_for_ack, is_timeout, on_acked, attempts, write,
}

-- The peer sealed no chunk but `sent seq` under the nonce of `seq`, for `seq` below `limit`: what the
-- cipher opens is such a chunk.
abbrev pub IsAuthentic : (ℕ → Bytes) → ℕ → Stream → Type 0
IsAuthentic sent limit s =
    (seq : ℕ) (ciphertext plaintext : Bytes)
    → seq < 2 ^ 64
    → s.cipher.decrypt (nonce_bytes (peer s.direction) seq) ciphertext ≡ some plaintext
    → (plaintext ≡ sent seq) × (seq < limit)

pub record Receives (sent : ℕ → Bytes) (limit : ℕ) (taken : Bytes) (s : Stream) : Type 0 where
  pub order : InOrder sent limit taken s.state
  pub settled : IsSettled s.state
  pub authentic : IsAuthentic sent limit s
  pub wire : IsWire s.source

module _ (I : Stream → Type 0) where
  abbrev pub Keeps : {A : Type 0} → Io A → Type 0
  Keeps m = (s : Stream) → I s → I (m s).1

  pub continue-keeps :
      {A B : Type 0} (x : Result IoError A × Stream) (f : A → Io B)
      → I x.1
      → ((a : A) → Keeps (f a))
      → I (continue x f).1
  continue-keeps (ok a, s) f h k = k a s h
  continue-keeps (err e, s) f h k = h

  continue-fits :
      {A B : Type 0} (x : Result IoError A × Stream) (f : A → Io B)
      → I x.1
      → ((a : A) → x.0 ≡ ok a → Keeps (f a))
      → I (continue x f).1
  continue-fits (ok a, s) f h k = k a refl s h
  continue-fits (err e, s) f h k = h

module _ (sent : ℕ → Bytes) (limit : ℕ) (taken : Bytes) where
  transmit-Receives :
      (p : Packet) (fs : List Bool) → Keeps (Receives sent limit taken) (transmit p fs)
  unfolding transmit
  transmit-Receives p [] s h = record {
    order = h.order;
    settled = h.settled;
    authentic = h.authentic;
    wire = h.wire;
  }
  transmit-Receives p (true ∷ fs) s h = record {
    order = h.order;
    settled = h.settled;
    authentic = h.authentic;
    wire = h.wire;
  }
  transmit-Receives p (false ∷ fs) s h = record {
    order = h.order;
    settled = h.settled;
    authentic = h.authentic;
    wire = h.wire;
  }

  send_encoded-Receives :
      (r : Result PacketError Bytes) (p : Packet)
      → Keeps (Receives sent limit taken) (send_encoded r p)
  unfolding send_encoded
  send_encoded-Receives (ok _) p s h = transmit-Receives p s.faults s h
  send_encoded-Receives (err e) p s h = h

  send_packet-Receives : (p : Packet) → Keeps (Receives sent limit taken) (send_packet p)
  unfolding send_packet
  send_packet-Receives p = send_encoded-Receives (encode_packet p) p

  -- What a receive call hands on fits, and it keeps the stream in order.
  pub recv-Receives :
      (w : Packet → Bool) (s : Stream)
      → Receives sent limit taken s
      → Receives sent limit taken (recv_session_packet w s).1
        × ((p : Packet) → (recv_session_packet w s).0 ≡ ok p → Fits p)
  unfolding recv_session_packet
  recv-Receives w s h =
      let (wire, fits) = Gets-parts _ (recv-Gets w s h.wire) in
      (record { order = h.order; settled = h.settled; authentic = h.authentic; wire = wire }, fits)

  on_plaintext-Receives :
      (o : Option Bytes) (seq : ℕ) (s : Stream)
      → Receives sent limit taken s
      → ((plaintext : Bytes) → o ≡ some plaintext → (plaintext ≡ sent seq) × (seq < limit))
      → Receives sent limit taken (on_plaintext o seq s).1
  unfolding on_plaintext send_ack
  on_plaintext-Receives none seq s h honest = h
  on_plaintext-Receives (some v) seq s h honest =
      let (e, bound) = honest v refl in
      let (order, settled) = accept-InOrder sent limit seq taken s.state h.order h.settled bound in
      rw e (
        send_packet-Receives _ _
          (record { order = order; settled = settled; authentic = h.authentic; wire = h.wire }))

  pub handle_data_packet-Receives :
      (p : Packet) → Fits p → Keeps (Receives sent limit taken) (handle_data_packet p)
  unfolding handle_data_packet
  handle_data_packet-Receives p fits s h =
      on_plaintext-Receives (s.cipher.decrypt (nonce_bytes (peer s.direction) p.seq) p.payload)
        p.seq s h (λ v e. h.authentic p.seq p.payload v fits e)

  on_reply-Receives :
      (again : Io (Unit {0})) (seq : ℕ) (p : Packet) (k : PacketKind)
      → Fits p
      → Keeps (Receives sent limit taken) again
      → Keeps (Receives sent limit taken) (on_reply again seq p k)
  unfolding on_reply
  on_reply-Receives again seq p ack fits next s h = elim (Bool-cases (p.seq == seq)) [
    | inl e ↦ rw e h
    | inr e ↦ rw e (next s h)
  ]
  on_reply-Receives again seq p data_packet fits next s h =
      continue-keeps (Receives sent limit taken) (handle_data_packet p s) (λ _. again)
        (handle_data_packet-Receives p fits s h) (λ _. next)
  on_reply-Receives again seq p close fits next s h = h
  on_reply-Receives again seq p _ fits next s h = next s h

  ack_loop-Receives : (fuel seq : ℕ) → Keeps (Receives sent limit taken) (ack_loop fuel seq)
  unfolding ack_loop
  ack_loop-Receives zero seq s h = h
  ack_loop-Receives (suc fuel) seq s h =
      let (got, fits) = recv-Receives is_reply s h in
      continue-fits (Receives sent limit taken) (recv_session_packet is_reply s)
        (λ p. on_reply (ack_loop fuel seq) seq p p.kind) got
        (λ p e.
          on_reply-Receives (ack_loop fuel seq) seq p p.kind (fits p e)
            (ack_loop-Receives fuel seq))

  on_acked-Receives :
      (again : IoError → Packet → ℕ → Io ℕ) (p : Packet) (n : ℕ)
      (x : Result IoError (Unit {0}) × Stream)
      → ((e : IoError) → Keeps (Receives sent limit taken) (again e p n))
      → Receives sent limit taken x.1
      → Receives sent limit taken (on_acked again p n x).1
  unfolding on_acked
  on_acked-Receives again p n (ok _, s) next h = record {
    order = record {
      delivered = h.order.delivered;
      parked = h.order.parked;
      small = h.order.small;
      fits = h.order.fits;
    };
    settled = h.settled;
    authentic = h.authentic;
    wire = h.wire;
  }
  on_acked-Receives again p n (err e, s) next h = elim (Bool-cases (is_timeout e)) [
    | inl t ↦ rw t (next e s h)
    | inr t ↦ rw t h
  ]

  attempts-Receives :
      (rounds : ℕ) (last : IoError) (p : Packet) (n : ℕ)
      → Keeps (Receives sent limit taken) (attempts rounds last p n)
  unfolding attempts wait_for_ack
  attempts-Receives zero last p n s h = h
  attempts-Receives (suc rounds) last p n s h =
      continue-keeps (Receives sent limit taken) (send_packet p s)
        (λ _ s. on_acked (attempts rounds) p n (wait_for_ack p.seq s)) (send_packet-Receives p s h)
        (λ _ s h.
          on_acked-Receives (attempts rounds) p n (wait_for_ack p.seq s)
            (λ e. attempts-Receives rounds e p n)
            (ack_loop-Receives (suc (remaining s.source)) p.seq s h))

  -- A `write` takes in the chunks that come while it waits, and loses none.
  pub write-Receives : (bytes : Bytes) → Keeps (Receives sent limit taken) (write bytes)
  unfolding write
  write-Receives bytes s h =
      sealed (s.cipher.encrypt (nonce_bytes s.direction s.state.send_seq) (chunk_of bytes))
    where
      sealed :
          (o : Option Bytes)
          → Receives sent limit taken
              (write_sealed o s.state.send_seq (length (chunk_of bytes)) s).1
      sealed none = h
      sealed (some ciphertext) = attempts-Receives retries timed_out _ _ s h
