-- ===== src/UdpSession/Stream/Fuel.antt =====
-- The loops of `wait_for_ack`, `write` and `read` end: the fuel that the model gives them suffices.
use medium.Common.{
  ℕ, zero, suc, ◌+◌, ◌≤◌, ◌<◌, ◌≡◌, ◌≢◌, refl, ap, inl, inr, Bool, true, false, List, [], ◌∷◌, ◌++◌,
  ◌==◌, arith, Bytes, Option, none, some, Bool-cases, Result, ok, err, length, length-append,
  if◌then◌else◌,
}
use medium.UdpSession.Packet.{Packet, PacketKind, PacketError, data_packet, ack, close}
use medium.UdpSession.Session.{accept}
use medium.UdpSession.Stream.{
  IoError, timed_out, out_of_fuel, blocked, expired, failed, Received, datagram, fault, Source,
  socket, inbox, SocketAddr, Stream, Io, continue, transmit, send_encoded, send_packet, send_ack,
  recv_socket, take_matching, recv_matching, recv_source, recv_session_packet, total_packets,
  remaining, on_plaintext, handle_data_packet, put_back, taken_or, on_reply, ack_loop, wait_for_ack,
  is_reply, is_input, is_timeout, on_acked, attempts, write_sealed, write, retries, has_pending,
  drain, on_input, read_loop, read,
}

-- This outcome is one of the program's.
abbrev pub Ends : {A : Type 0} → Result IoError A × Stream → Type 0
Ends x = x.0 ≢ err out_of_fuel

continue-Ends :
    {A B : Type 0} (x : Result IoError A × Stream) (f : A → Io B)
    → Ends x
    → ((a : A) → x.0 ≡ ok a → Ends (f a x.1))
    → Ends (continue x f)
continue-Ends (ok a, s) f h k = k a refl
continue-Ends (err e, s) f h k = λ q. h (cc)

pub record Sends (s : Stream) (x : Result IoError (Unit {0}) × Stream) : Type 0 where
  pub ends : Ends x
  pub source : x.1.source ≡ s.source

send_encoded-Sends :
    (r : Result PacketError Bytes) (p : Packet) (s : Stream) → Sends s (send_encoded r p s)
unfolding send_encoded
send_encoded-Sends (err e) p s = record { ends = λ q. cc; source = refl }
send_encoded-Sends (ok _) p s = transmit-Sends s.faults
  where
    transmit-Sends : (fs : List Bool) → Sends s (transmit p fs s)
    transmit-Sends [] = record { ends = λ q. cc; source = refl }
    transmit-Sends (true ∷ fs) = record { ends = λ q. cc; source = refl }
    transmit-Sends (false ∷ fs) = record { ends = λ q. cc; source = refl }

send_packet-Sends : (p : Packet) (s : Stream) → Sends s (send_packet p s)
unfolding send_packet
send_packet-Sends p s = send_encoded-Sends _ p s

send_ack-Sends : (seq : ℕ) (s : Stream) → Sends s (send_ack seq s)
unfolding send_ack
send_ack-Sends seq s = send_packet-Sends _ s

on_plaintext-Sends : (o : Option Bytes) (seq : ℕ) (s : Stream) → Sends s (on_plaintext o seq s)
unfolding on_plaintext
on_plaintext-Sends none seq s = record { ends = λ q. cc; source = refl }
on_plaintext-Sends (some v) seq s =
    let sent = send_ack-Sends seq (record s { state = accept seq v s.state }) in
    record { ends = sent.ends; source = sent.source }

pub handle-Sends : (p : Packet) (s : Stream) → Sends s (handle_data_packet p s)
unfolding handle_data_packet
handle-Sends p s = on_plaintext-Sends _ p.seq s

-- A packet that is received is taken from the source.
pub record Takes (source : Source) (r : Result IoError Packet) (left : Source) : Type 0 where
  pub real : r ≢ err out_of_fuel
  pub fewer : (p : Packet) → r ≡ ok p → remaining left < remaining source

recv_socket-Takes :
    (w : Packet → Bool) (a : SocketAddr) (rs : List Received)
    → ((recv_socket w a rs).0 ≢ err out_of_fuel)
      × ((p : Packet) → (recv_socket w a rs).0 ≡ ok p → length (recv_socket w a rs).1 < length rs)
unfolding recv_socket
recv_socket-Takes w a [] = (λ q. cc, λ p q. cc)
recv_socket-Takes w a (fault blocked ∷ rs) = (λ q. cc, λ p q. cc)
recv_socket-Takes w a (fault expired ∷ rs) = (λ q. cc, λ p q. cc)
recv_socket-Takes w a (fault failed ∷ rs) = (λ q. cc, λ p q. cc)
recv_socket-Takes w a (datagram bytes from ∷ rs) =
    let (real, fewer) = recv_socket-Takes w a rs in
    (λ q. ground (arith, real), λ p q. ground (arith, fewer p))

abbrev Shorter : List Packet → Option (Packet × List Packet) → Type 0
Shorter ps none = Unit
Shorter ps (some (p, rest)) = length ps ≡ suc (length rest)

take_matching-Shorter : (w : Packet → Bool) (ps : List Packet) → Shorter ps (take_matching w ps)
unfolding take_matching
take_matching-Shorter w [] = tt
take_matching-Shorter w (q ∷ ps) = elim (Bool-cases (w q)) [
  | inl e ↦ rw e refl
  | inr e ↦ rw e (keep (take_matching w ps) (take_matching-Shorter w ps))
]
  where
    keep : (o : Option (Packet × List Packet)) → Shorter ps o → Shorter (q ∷ ps) (put_back q o)
    keep none h = tt
    keep (some (p, rest)) h = ap suc h

abbrev TakesFrom : Source → Result IoError Packet × Source → Type 0
TakesFrom src x = Takes src x.0 x.1

taken_or-Takes :
    (src : Source) (ps : List Packet) (later : List (List Packet))
    (o : Option (Packet × List Packet)) (instead : Result IoError Packet × Source)
    → Shorter ps o
    → length ps + total_packets later ≤ remaining src
    → TakesFrom src instead
    → TakesFrom src (taken_or o later instead)
unfolding remaining
taken_or-Takes src ps later none instead short le h = h
taken_or-Takes src ps later (some (p, rest)) instead short le h = record {
  real = λ q. cc;
  fewer = λ p q. omega arith;
}

recv_source-Takes :
    (w : Packet → Bool) (a : SocketAddr) (src : Source) → TakesFrom src (recv_source w a src)
unfolding recv_source recv_matching remaining
recv_source-Takes w a (socket rs) =
    let (real, fewer) = recv_socket-Takes w a rs in record { real = real; fewer = fewer }
recv_source-Takes w a (inbox ps []) =
    taken_or-Takes _ ps [] _ _ (take_matching-Shorter w ps) (omega arith)
      (record { real = λ q. cc; fewer = λ p q. cc })
recv_source-Takes w a (inbox ps (b ∷ bs)) =
    taken_or-Takes _ ps (b ∷ bs) _ _ (take_matching-Shorter w ps) (omega arith) (
      taken_or-Takes _ (ps ++ b) bs _ _ (take_matching-Shorter w (ps ++ b))
        (omega (arith, length-append ps b)) (record { real = λ q. cc; fewer = λ p q. cc }))

pub recv-Takes :
    (w : Packet → Bool) (s : Stream)
    → Takes s.source (recv_session_packet w s).0 (recv_session_packet w s).1.source
unfolding recv_session_packet
recv-Takes w s = recv_source-Takes w s.peer_addr s.source

on_reply-Ends :
    (again : Io (Unit {0})) (seq : ℕ) (p : Packet) (k : PacketKind) (s : Stream)
    → ((t : Stream) → t.source ≡ s.source → Ends (again t))
    → Ends (on_reply again seq p k s)
unfolding on_reply
on_reply-Ends again seq p ack s next = elim (Bool-cases (p.seq == seq)) [
  | inl e ↦ rw e (λ q. cc)
  | inr e ↦ rw e (next s refl)
]
on_reply-Ends again seq p data_packet s next =
    let sent = handle-Sends p s in
    continue-Ends (handle_data_packet p s) (λ _. again) sent.ends (λ _ _. next _ sent.source)
on_reply-Ends again seq p close s next = λ q. cc
on_reply-Ends again seq p _ s next = next s refl

ack_loop-Ends : (fuel seq : ℕ) (s : Stream) → remaining s.source < fuel → Ends (ack_loop fuel seq s)
unfolding ack_loop
ack_loop-Ends zero seq s h = elim h [ ]
ack_loop-Ends (suc fuel) seq s h =
    let got = recv-Takes is_reply s in
    continue-Ends (recv_session_packet is_reply s) (λ p. on_reply (ack_loop fuel seq) seq p p.kind)
      got.real
      (λ p e. on_reply-Ends (ack_loop fuel seq) seq p p.kind _ (λ t same.
        let less = got.fewer p e in ack_loop-Ends fuel seq t (rw same (omega (arith, less)))))

on_acked-Ends :
    (again : IoError → Packet → ℕ → Io ℕ) (p : Packet) (n : ℕ)
    (x : Result IoError (Unit {0}) × Stream)
    → ((e : IoError) (s : Stream) → e ≢ out_of_fuel → Ends (again e p n s))
    → Ends x
    → Ends (on_acked again p n x)
unfolding on_acked
on_acked-Ends again p n (ok _, s) next h = λ q. cc
on_acked-Ends again p n (err e, s) next h = elim (Bool-cases (is_timeout e)) [
  | inl t ↦ rw t (next e s (λ q. h (ap err q)))
  | inr t ↦ rw t (λ q. h (cc))
]

attempts-Ends :
    (rounds : ℕ) (last : IoError) (p : Packet) (n : ℕ) (s : Stream)
    → last ≢ out_of_fuel
    → Ends (attempts rounds last p n s)
unfolding attempts wait_for_ack
attempts-Ends zero last p n s h = λ q. h (cc)
attempts-Ends (suc rounds) last p n s h =
    continue-Ends (send_packet p s) (λ _ s. on_acked (attempts rounds) p n (wait_for_ack p.seq s))
      (send_packet-Sends p s).ends
      (λ _ _.
        on_acked-Ends (attempts rounds) p n _ (λ e s h. attempts-Ends rounds e p n s h)
          (ack_loop-Ends (suc (remaining (send_packet p s).1.source)) p.seq (send_packet p s).1
            (omega arith)))

write_sealed-Ends : (o : Option Bytes) (seq n : ℕ) (s : Stream) → Ends (write_sealed o seq n s)
unfolding write_sealed
write_sealed-Ends none seq n s = λ q. cc
write_sealed-Ends (some ciphertext) seq n s = attempts-Ends retries timed_out _ n s (λ q. cc)

on_input-Ends :
    (again : Io Bytes) (size : ℕ) (p : Packet) (k : PacketKind) (s : Stream)
    → ((t : Stream) → t.source ≡ s.source → Ends (again t))
    → Ends (on_input again size p k s)
unfolding on_input drain
on_input-Ends again size p data_packet s next =
    let sent = handle-Sends p s in
    continue-Ends (handle_data_packet p s) (λ _ s. if has_pending s then drain size s else again s)
      sent.ends
      (λ _ _. elim (Bool-cases (has_pending (handle_data_packet p s).1)) [
        | inl e ↦ rw e (λ q. cc)
        | inr e ↦ rw e (next _ sent.source)
      ])
on_input-Ends again size p close s next = λ q. cc
on_input-Ends again size p _ s next = next s refl

read_loop-Ends :
    (fuel size : ℕ) (s : Stream) → remaining s.source < fuel → Ends (read_loop fuel size s)
unfolding read_loop
read_loop-Ends zero size s h = elim h [ ]
read_loop-Ends (suc fuel) size s h =
    let got = recv-Takes is_input s in
    continue-Ends (recv_session_packet is_input s)
      (λ p. on_input (read_loop fuel size) size p p.kind) got.real
      (λ p e. on_input-Ends (read_loop fuel size) size p p.kind _ (λ t same.
        let less = got.fewer p e in read_loop-Ends fuel size t (rw same (omega (arith, less)))))

-- No loop of `write` or `read` runs out of its rounds.
pub no_call_out_of_fuel :
    (s : Stream) (bytes : Bytes) (size : ℕ)
    → ((write bytes s).0 ≢ err out_of_fuel) × ((read size s).0 ≢ err out_of_fuel)
unfolding write read drain
no_call_out_of_fuel s bytes size = (
  write_sealed-Ends _ _ _ s,
  elim (Bool-cases (has_pending s)) [
    | inl e ↦ rw e (λ q. cc)
    | inr e ↦ rw e (read_loop-Ends (suc (remaining s.source)) size s (omega arith))
  ],
)
