-- ===== src/UdpSession/Stream/Reads.antt =====
-- What `read` returns is what the peer wrote, in order, whatever the network does.
use medium.Common.{
  ℕ, zero, suc, ◌^◌, ◌<◌, ◌≡◌, refl, ap, ◌∙◌, inl, inr, List, [], ◌∷◌, ◌++◌, arith, Bytes,
  Bool-cases, Result, ok, err, length, if◌then◌else◌, take-append-drop, min,
}
use mathlib.Core.List.{append_assoc, append-nil}
use medium.UdpSession.Packet.{Packet, PacketKind, data_packet, close}
use medium.UdpSession.Session.{new_state, lookup, drain_pending}
use medium.UdpSession.Session.Reassembly.{stream}
use medium.UdpSession.Stream.{
  IoError, remaining, is_input, Stream, Io, continue, recv_session_packet, handle_data_packet,
  write, has_pending, drain, on_input, read_loop, read,
}
use medium.UdpSession.Stream.Wire.{Fits, IsWire}
use medium.UdpSession.Stream.Order.{
  IsAuthentic, Receives, recv-Receives, handle_data_packet-Receives, write-Receives,
}

abbrev pub bytes_of : Result IoError Bytes → Bytes
bytes_of (ok bytes) = bytes
bytes_of (err e) = []

-- After a call with this outcome the reader has had `taken`, and what the call returned.
abbrev pub Reads : (ℕ → Bytes) → ℕ → Bytes → Result IoError Bytes × Stream → Type 0
Reads sent limit taken x = Receives sent limit (taken ++ bytes_of x.0) x.1

module _ (sent : ℕ → Bytes) (limit : ℕ) (taken : Bytes) where
  Reads-nothing : (s : Stream) → Receives sent limit taken s → Receives sent limit (taken ++ []) s
  Reads-nothing s h = rw append-nil h

  drain-Reads :
      (size : ℕ) (s : Stream) → Receives sent limit taken s → Reads sent limit taken (drain size s)
  unfolding drain drain_pending
  drain-Reads size s h = record {
    order = record {
      delivered =
          append_assoc taken _ _
          ∙ ap (◌++◌ taken)
              (take-append-drop (min size (length s.state.pending_read)) s.state.pending_read)
          ∙ h.order.delivered;
      parked = h.order.parked;
      small = h.order.small;
      fits = h.order.fits;
    };
    settled = h.settled;
    authentic = h.authentic;
    wire = h.wire;
  }

  continue-Reads :
      {A : Type 0} (x : Result IoError A × Stream) (f : A → Io Bytes)
      → Receives sent limit taken x.1
      → ((a : A)
          → x.0 ≡ ok a
          → (s : Stream) → Receives sent limit taken s
          → Reads sent limit taken (f a s))
      → Reads sent limit taken (continue x f)
  continue-Reads (ok a, s) f h k = k a refl s h
  continue-Reads (err e, s) f h k = Reads-nothing s h

  on_input-Reads :
      (again : Io Bytes) (size : ℕ) (p : Packet) (k : PacketKind) (s : Stream)
      → Fits p
      → ((s : Stream) → Receives sent limit taken s → Reads sent limit taken (again s))
      → Receives sent limit taken s
      → Reads sent limit taken (on_input again size p k s)
  unfolding on_input
  on_input-Reads again size p data_packet s fits next h =
      continue-Reads (handle_data_packet p s)
        (λ _ s. if has_pending s then drain size s else again s)
        (handle_data_packet-Receives sent limit taken p fits s h)
        (λ _ _ s h. elim (Bool-cases (has_pending s)) [
          | inl e ↦ rw e (drain-Reads size s h)
          | inr e ↦ rw e (next s h)
        ])
  on_input-Reads again size p close s fits next h = Reads-nothing s h
  on_input-Reads again size p _ s fits next h = next s h

  read_loop-Reads :
      (fuel size : ℕ) (s : Stream)
      → Receives sent limit taken s
      → Reads sent limit taken (read_loop fuel size s)
  unfolding read_loop
  read_loop-Reads zero size s h = Reads-nothing s h
  read_loop-Reads (suc fuel) size s h =
      let (got, fits) = recv-Receives sent limit taken is_input s h in
      continue-Reads (recv_session_packet is_input s)
        (λ p. on_input (read_loop fuel size) size p p.kind) got
        (λ p e s h.
          on_input-Reads (read_loop fuel size) size p p.kind s (fits p e)
            (read_loop-Reads fuel size) h)

  pub read-Reads :
      (size : ℕ) (s : Stream) → Receives sent limit taken s → Reads sent limit taken (read size s)
  unfolding read
  read-Reads size s h = elim (Bool-cases (has_pending s)) [
    | inl e ↦ rw e (drain-Reads size s h)
    | inr e ↦ rw e (read_loop-Reads (suc (remaining s.source)) size s h)
  ]

pub data Op : Type 0 where
  reads : ℕ → Op
  writes : Bytes → Op

-- All that the calls of `read` return, and the stream after the last call.
pub run : List Op → Stream → Bytes × Stream
run [] s = ([], s)
run (reads size ∷ ops) s =
    let (r, s1) = read size s in let (rest, s2) = run ops s1 in (bytes_of r ++ rest, s2)
run (writes bytes ∷ ops) s = run ops (write bytes s).1

run-Receives :
    (sent : ℕ → Bytes) (limit : ℕ) (ops : List Op) (taken : Bytes) (s : Stream)
    → Receives sent limit taken s
    → Receives sent limit (taken ++ (run ops s).0) (run ops s).1
unfolding run
run-Receives sent limit [] taken s h = Reads-nothing sent limit taken s h
run-Receives sent limit (reads size ∷ ops) taken s h =
    rw (← append_assoc) (run-Receives sent limit ops _ _ (read-Reads sent limit taken size s h))
run-Receives sent limit (writes bytes ∷ ops) taken s h =
    run-Receives sent limit ops taken _ (write-Receives sent limit taken bytes s h)

-- From a new session on, in whatever order, however often and however late the packets of the peer
-- come, and with any calls of `read` and `write` in between: what the calls of `read` returned so
-- far, with what waits to be read, is the chunks of the peer from the first one on, as many as
-- `recv_seq` counts, in the order of their numbers.
pub run-stream :
    (sent : ℕ → Bytes) (limit : ℕ) (ops : List Op) (s : Stream)
    → s.state ≡ new_state
    → limit < 2 ^ 64
    → IsAuthentic sent limit s
    → IsWire s.source
    → (run ops s).0 ++ (run ops s).1.state.pending_read ≡ stream sent (run ops s).1.state.recv_seq
run-stream sent limit ops s e fits h wire =
    (run-Receives sent limit ops [] s (record {
      order = rw e (record { delivered = refl; parked = tt; small = omega arith; fits = fits });
      settled = rw e (unfold lookup in refl);
      authentic = h;
      wire = wire;
    })).order.delivered
