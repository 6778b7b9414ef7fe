-- ===== src/UdpSession/Stream/Writes.antt =====
-- What a call of `write` sends, and what it does to the sequence number.
use medium.Common.{
  ℕ, zero, suc, ◌+◌, ◌<◌, ◌≡◌, refl, sym, ap, subst, ◌∙◌, inl, inr, [], ◌∷◌, ◌++◌, arith, Bytes,
  Option, some, Bool-cases, Result, ok, err, length, min, length-take,
}
use medium.UdpSession.Stream.Emits.{data_count}
use mathlib.Core.List.{append-nil}
use medium.UdpSession.Packet.{Packet, data_packet, ack, encode_packet}
use medium.UdpSession.Session.{nonce_bytes, peer, accept, next_seq}
use medium.UdpSession.Stream.{
  IoError, timed_out, Stream, Io, continue, transmit, send_packet, send_ack, on_plaintext,
  handle_data_packet, wait_for_ack, is_timeout, on_acked, attempts, write_sealed, write, retries,
  max_payload_len, chunk_of, remaining,
}
use medium.UdpSession.Stream.Emits.{
  Emits, Waits, Waits-trans, Emits-trans, Emits-mono, send_packet-Waits, ack_loop-Waits,
}

-- What `write` has done when it returns: `n` counts the bytes that it has taken.
abbrev pub Outcome : Packet → ℕ → ℕ → Stream → Result IoError ℕ × Stream → Type 0
Outcome p rounds n s (ok m, t) =
    Emits p rounds s t × (m ≡ n) × (t.state.send_seq ≡ next_seq s.state.send_seq)
Outcome p rounds n s (err e, t) = Emits p rounds s t × (t.state.send_seq ≡ s.state.send_seq)

module _ (p : Packet) (n : ℕ) where
  Outcome-after :
      (a b : ℕ) (s t : Stream) (x : Result IoError ℕ × Stream)
      → Waits p a s t
      → Outcome p b n t x
      → Outcome p (a + b) n s x
  Outcome-after a b s t (ok m, u) w (em, e, q) =
      (Emits-trans p w.emits em, e, q ∙ ap next_seq w.same)
  Outcome-after a b s t (err e, u) w (em, q) = (Emits-trans p w.emits em, q ∙ w.same)

  on_acked-Outcome :
      (rounds : ℕ) (s : Stream) (again : IoError → Packet → ℕ → Io ℕ)
      (x : Result IoError (Unit {0}) × Stream)
      → Waits p 1 s x.1
      → ((e : IoError) (t : Stream) → Outcome p rounds n t (again e p n t))
      → Outcome p (suc rounds) n s (on_acked again p n x)
  unfolding on_acked
  on_acked-Outcome rounds s again (ok _, t) w next = (
    record {
      news = w.emits.news;
      appended = w.emits.appended;
      only = w.emits.only;
      few = omega (arith, w.emits.few);
    },
    refl,
    ap next_seq w.same,
  )
  on_acked-Outcome rounds s again (err e, t) w next = elim (Bool-cases (is_timeout e)) [
    | inl h ↦
        let one : 1 + rounds ≡ suc rounds = omega arith in
        rw (h, ← one) (Outcome-after 1 rounds s t _ w (next e t))
    | inr h ↦ rw h (Emits-mono p (omega arith) w.emits, w.same)
  ]

  after_send :
      (rounds : ℕ) (s : Stream) (again : IoError → Packet → ℕ → Io ℕ)
      (x : Result IoError (Unit {0}) × Stream)
      → Waits p 1 s x.1
      → ((e : IoError) (t : Stream) → Outcome p rounds n t (again e p n t))
      → Outcome p (suc rounds) n s (continue x (λ _ s. on_acked again p n (wait_for_ack p.seq s)))
  unfolding wait_for_ack
  after_send rounds s again (err e, t) w next = (Emits-mono p (omega arith) w.emits, w.same)
  after_send rounds s again (ok _, t) w next =
      on_acked-Outcome rounds s again (wait_for_ack p.seq t)
        (Waits-trans p w (ack_loop-Waits p (suc (remaining t.source)) p.seq t)) next

  attempts-Outcome :
      (rounds : ℕ) (last : IoError) (s : Stream)
      → p.kind ≡ data_packet
      → Outcome p rounds n s (attempts rounds last p n s)
  unfolding attempts
  attempts-Outcome zero last s k = (
    record { news = []; appended = sym (append-nil s.outgoing); only = tt; few = omega arith },
    refl,
  )
  attempts-Outcome (suc rounds) last s k =
      after_send rounds s (attempts rounds) (send_packet p s)
        (send_packet-Waits p p 1 s (inl refl) (rw (k, data_count) (omega arith)))
        (λ e u. attempts-Outcome rounds e u k)

write_sealed-Outcome :
    (o : Option Bytes) (ciphertext : Bytes) (seq n : ℕ) (s : Stream)
    → o ≡ some ciphertext
    → Outcome
        (record { kind = data_packet; seq = seq; payload = ciphertext })
        5
        n
        s
        (write_sealed o seq n s)
unfolding write_sealed
write_sealed-Outcome o ciphertext seq n s e =
    rw (e, write_sealed) (attempts-Outcome _ n retries timed_out s refl)

-- One call of `write` whose chunk is sealed as `ciphertext` sends no packets but one data packet,
-- with the number `send_seq` and that payload, at most five times, and acknowledgements. If it
-- returns a count, this is the length of what it took, 1100 bytes at most, and `send_seq` has moved
-- on by one; if it fails, `send_seq` is what it was.
pub write-Outcome :
    (bytes ciphertext : Bytes) (s : Stream)
    → s.cipher.encrypt (nonce_bytes s.direction s.state.send_seq) (chunk_of bytes) ≡ some ciphertext
    → Outcome
        (record { kind = data_packet; seq = s.state.send_seq; payload = ciphertext })
        5
        (min (length bytes) 1100)
        s
        (write bytes s)
unfolding write
write-Outcome bytes ciphertext s e =
    subst
      (λ n.
        Outcome (record { kind = data_packet; seq = s.state.send_seq; payload = ciphertext }) 5 n s
          (write bytes s))
      (omega (arith, length-take (min (length bytes) max_payload_len) bytes))
      (write_sealed-Outcome _ ciphertext s.state.send_seq (length (chunk_of bytes)) s e)

-- A data packet whose number the session has passed, whatever it opens to, is acknowledged, and
-- nothing of it is kept.
stale_packet_is_acknowledged :
    (p : Packet) (plaintext : Bytes) (s : Stream)
    → s.cipher.decrypt (nonce_bytes (peer s.direction) p.seq) p.payload ≡ some plaintext
    → p.seq < s.state.recv_seq
    → s.faults ≡ []
    → handle_data_packet p s ≡ (
      ok tt,
      record s { outgoing = s.outgoing ++ record { kind = ack; seq = p.seq; payload = [] } ∷ [] },
    )
unfolding handle_data_packet accept send_ack send_packet transmit encode_packet
stale_packet_is_acknowledged p plaintext s e h f = rw (e, on_plaintext) (ground (arith, f))
