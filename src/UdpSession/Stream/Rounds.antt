-- ===== src/UdpSession/Stream/Rounds.antt =====
-- How many rounds the loops of `wait_for_ack`, `write` and `read` make.
use medium.Common.{
  ℕ, zero, suc, ◌<◌, ◌≡◌, ◌≢◌, refl, inl, inr, ◌==◌, arith, Bytes, Bool-cases, Result, ok, err,
  if◌then◌else◌,
}
use medium.UdpSession.Packet.{Packet, PacketKind, data_packet, ack, close}
use medium.UdpSession.Stream.{
  IoError, out_of_fuel, Stream, Io, continue, recv_session_packet, remaining, handle_data_packet,
  on_reply, ack_loop, wait_for_ack, is_reply, is_input, write, has_pending, drain, on_input,
  read_loop, read,
}
use medium.UdpSession.Stream.Fuel.{handle-Sends, recv-Takes, no_call_out_of_fuel}

continue-same :
    {A B : Type 0} (x : Result IoError A × Stream) (f g : A → Io B)
    → ((a : A) → x.0 ≡ ok a → f a x.1 ≡ g a x.1)
    → continue x f ≡ continue x g
continue-same (ok a, s) f g h = h a refl
continue-same (err e, s) f g h = refl

on_reply-same :
    (again more : Io (Unit {0})) (seq : ℕ) (p : Packet) (k : PacketKind) (s : Stream)
    → ((t : Stream) → t.source ≡ s.source → again t ≡ more t)
    → on_reply again seq p k s ≡ on_reply more seq p k s
unfolding on_reply
on_reply-same again more seq p ack s next = elim (Bool-cases (p.seq == seq)) [
  | inl e ↦ rw e refl
  | inr e ↦ rw e (next s refl)
]
on_reply-same again more seq p data_packet s next =
    continue-same (handle_data_packet p s) (λ _. again) (λ _. more)
      (λ _ _. next _ (handle-Sends p s).source)
on_reply-same again more seq p close s next = refl
on_reply-same again more seq p _ s next = next s refl

ack_loop-same :
    (f g seq : ℕ) (s : Stream)
    → remaining s.source < f
    → remaining s.source < g
    → ack_loop f seq s ≡ ack_loop g seq s
unfolding ack_loop
ack_loop-same zero g seq s h k = elim h [ ]
ack_loop-same (suc f) zero seq s h k = elim k [ ]
ack_loop-same (suc f) (suc g) seq s h k =
    let got = recv-Takes is_reply s in
    continue-same (recv_session_packet is_reply s) (λ p. on_reply (ack_loop f seq) seq p p.kind)
      (λ p. on_reply (ack_loop g seq) seq p p.kind)
      (λ p e. on_reply-same (ack_loop f seq) (ack_loop g seq) seq p p.kind _ (λ t same.
        let less = got.fewer p e in
        ack_loop-same f g seq t (rw same (omega (arith, less))) (rw same (omega (arith, less)))))

on_input-same :
    (again more : Io Bytes) (size : ℕ) (p : Packet) (k : PacketKind) (s : Stream)
    → ((t : Stream) → t.source ≡ s.source → again t ≡ more t)
    → on_input again size p k s ≡ on_input more size p k s
unfolding on_input
on_input-same again more size p data_packet s next =
    continue-same (handle_data_packet p s) (λ _ s. if has_pending s then drain size s else again s)
      (λ _ s. if has_pending s then drain size s else more s)
      (λ _ _. elim (Bool-cases (has_pending (handle_data_packet p s).1)) [
        | inl e ↦ rw e refl
        | inr e ↦ rw e (next _ (handle-Sends p s).source)
      ])
on_input-same again more size p close s next = refl
on_input-same again more size p _ s next = next s refl

read_loop-same :
    (f g size : ℕ) (s : Stream)
    → remaining s.source < f
    → remaining s.source < g
    → read_loop f size s ≡ read_loop g size s
unfolding read_loop
read_loop-same zero g size s h k = elim h [ ]
read_loop-same (suc f) zero size s h k = elim k [ ]
read_loop-same (suc f) (suc g) size s h k =
    let got = recv-Takes is_input s in
    continue-same (recv_session_packet is_input s) (λ p. on_input (read_loop f size) size p p.kind)
      (λ p. on_input (read_loop g size) size p p.kind)
      (λ p e. on_input-same (read_loop f size) (read_loop g size) size p p.kind _ (λ t same.
        let less = got.fewer p e in
        read_loop-same f g size t (rw same (omega (arith, less))) (rw same (omega (arith, less)))))

-- Let a finite number of packets, whatever they are, reach the stream before its socket times out, and let
-- any sends fail. Then every call of `write` and every call of `read` ends with a result of the program. The
-- loop of `wait_for_ack` and that of `read` need no more rounds than there are packets, and one more: with any
-- bound above the number of packets they come to the same result and the same stream.
pub calls_end :
    (s : Stream) (bytes : Bytes) (size seq bound : ℕ)
    → remaining s.source < bound
    → ((write bytes s).0 ≢ err out_of_fuel)
      × ((read size s).0 ≢ err out_of_fuel)
      × (ack_loop bound seq s ≡ wait_for_ack seq s)
      × (read size s ≡ (if has_pending s then drain size s else read_loop bound size s))
unfolding wait_for_ack read
calls_end s bytes size seq bound h =
    let (writes, reads) = no_call_out_of_fuel s bytes size in
    (
      writes,
      reads,
      ack_loop-same bound (suc (remaining s.source)) seq s h (omega arith),
      rw (read_loop-same bound (suc (remaining s.source)) size s h (omega arith)) refl,
    )
