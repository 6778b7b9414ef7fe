-- ===== src/Netstack/Streams.antt =====
-- The names of streams.
use medium.Common.{
  Bool, if◌then◌else◌, ◌%◌, ◌^◌, ℕ, suc, ◌+◌, ◌≤◌, ◌<◌, ◌≡◌, ◌≢◌, refl, sym, ap, ◌∙◌, inl, inr, not,
  ◌&&◌, List, [], ◌∷◌, ◌++◌, arith, Option, none, some, some_injective, Bytes, drop, All, ◌==◌,
  Bool-cases, show_nat, parse_unsigned, parse_unsigned-show_nat,
}
use medium.Netstack.Network.{Text, VirtualNetwork}
use medium.Netstack.Slots.{
  Sockets, http_port, https_port, TcpSlot, MediumStack, TcpPumpEvent, connected, received, closed,
  stream_name, is_some, ensure_tcp_listeners, new_stack,
}
use medium.Netstack.Pump.{
  poll_iface, poll_socket, name_stream, serve, ended, pump_named, pump_slots, pump_tcp, poll,
  close_tcp, send_tcp, in_slot, StackMove, with_slots, sent_in, polls, closes, sends, or_same,
  run_stack,
}

stream_name_injective : (a b : ℕ) → stream_name a ≡ stream_name b → a ≡ b
unfolding stream_name
stream_name_injective a b e =
    let same : show_nat a ≡ show_nat b = ap (drop 4) e in
    some_injective (
      sym (parse_unsigned-show_nat (a + b) a (omega arith))
      ∙ ap (parse_unsigned (a + b)) same
      ∙ parse_unsigned-show_nat (a + b) b (omega arith))

-- The streams that are announced are numbered upwards, above the first number and up to the last.
abbrev pub Rising : ℕ → List TcpPumpEvent → ℕ → Type 0
Rising low [] high = low ≤ high
Rising low (connected name id ∷ es) high =
    (j : ℕ) × (name ≡ stream_name j) × (low < j) × Rising j es high
Rising low (received name id bytes ∷ es) high = Rising low es high
Rising low (closed name id ∷ es) high = Rising low es high

Rising-lower :
    (low low' high : ℕ) (es : List TcpPumpEvent)
    → low ≤ low'
    → Rising low' es high
    → Rising low es high
Rising-lower low low' high [] h k = omega (arith, h, k)
Rising-lower low low' high (connected name id ∷ es) h (j, e, l, k) = (j, e, omega (arith, h, l), k)
Rising-lower low low' high (received name id bytes ∷ es) h k = Rising-lower low low' high es h k
Rising-lower low low' high (closed name id ∷ es) h k = Rising-lower low low' high es h k

Rising-append :
    (low mid high : ℕ) (es fs : List TcpPumpEvent)
    → Rising low es mid
    → Rising mid fs high
    → Rising low (es ++ fs) high
Rising-append low mid high [] fs h k = Rising-lower low mid high fs h k
Rising-append low mid high (connected name id ∷ es) fs (j, e, l, h) k =
    (j, e, l, Rising-append j mid high es fs h k)
Rising-append low mid high (received name id bytes ∷ es) fs h k =
    Rising-append low mid high es fs h k
Rising-append low mid high (closed name id ∷ es) fs h k = Rising-append low mid high es fs h k

module _ {S : Type 0} (k : Sockets S) where
  poll_socket-Rising :
      (n : VirtualNetwork) (next : ℕ) (name : Bytes) (id : Text) (socket : S)
      → Rising next (poll_socket k n name id socket).0 next
  unfolding poll_socket
  poll_socket-Rising n next name id socket = elim (Bool-cases (k.can_recv socket)) [
    | inl e ↦ rw e (omega arith)
    | inr e ↦ rw e (omega arith)
  ]

  serve-Rising :
      (n : VirtualNetwork) (next : ℕ) (name : Bytes) (slot : TcpSlot S)
      → Rising next (serve k n name slot).0 next
  serve-Rising n next name slot = elim (Bool-cases (slot.port == http_port)) [
    | inl e ↦ rw e (omega arith)
    | inr e ↦ rw e (poll_socket-Rising n next name slot.service_id slot.socket)
  ]

  ended-Rising :
      (next : ℕ) (name : Bytes) (slot : TcpSlot S) (r : List TcpPumpEvent × S)
      → Rising next r.0 next
      → Rising next (ended k name slot r).1 next
  ended-Rising next name slot (events, socket) h =
      elim (Bool-cases (not (k.is_active socket) && not (k.may_recv socket))) [
        | inl e ↦
            rw e (
              Rising-append next next next events (closed name slot.service_id ∷ []) h
                (omega arith))
        | inr e ↦ rw e h
      ]

  pump_named-Rising :
      (n : VirtualNetwork) (next : ℕ) (o : Option Bytes) (slot : TcpSlot S)
      → Rising next (pump_named k n o slot).1 next
  pump_named-Rising n next none slot = omega arith
  pump_named-Rising n next (some name) slot =
      ended-Rising next name slot (serve k n name slot) (serve-Rising n next name slot)

  -- How many streams a pump of the slots names.
  abbrev pub is_new : TcpSlot S → Bool
  is_new slot = k.is_established slot.socket && not (is_some slot.stream_id)

  abbrev pub new_streams : List (TcpSlot S) → ℕ
  new_streams [] = 0
  new_streams (slot ∷ slots) = (if is_new slot then 1 else 0) + new_streams slots

  name_stream-next :
      (next : ℕ) (slot : TcpSlot S)
      → next + (if is_new slot then 1 else 0) < 2 ^ 64
      → (name_stream k next slot).1 ≡ next + (if is_new slot then 1 else 0)
  unfolding name_stream
  name_stream-next next slot h = elim (Bool-cases (is_new slot)) [
    | inl e ↦ rw e (let h' : next + 1 < 2 ^ 64 = rw e at h in omega (arith, h'))
    | inr e ↦ rw e (omega arith)
  ]

  name_stream-Rising :
      (next : ℕ) (slot : TcpSlot S)
      → next + (if is_new slot then 1 else 0) < 2 ^ 64
      → Rising next (name_stream k next slot).2 (name_stream k next slot).1
  unfolding name_stream
  name_stream-Rising next slot h =
      elim (Bool-cases (k.is_established slot.socket && not (is_some slot.stream_id))) [
        | inl e ↦
            let h' : next + 1 < 2 ^ 64 = rw e at h in
            rw e (elim (Bool-cases (slot.port == https_port)) [
              | inl f ↦ rw f (suc next % 2 ^ 64, refl, omega (arith, h'), omega arith)
              | inr f ↦ rw f (omega (arith, h'))
            ])
        | inr e ↦ rw e (omega arith)
      ]

  pump_slots-next :
      (n : VirtualNetwork) (next : ℕ) (slots : List (TcpSlot S))
      → next + new_streams slots < 2 ^ 64
      → (pump_slots k n next slots).1 ≡ next + new_streams slots
  unfolding pump_slots
  pump_slots-next n next [] h = omega arith
  pump_slots-next n next (slot ∷ slots) h =
      let first = name_stream-next next slot (omega (arith, h)) in
      let rest = pump_slots-next n (name_stream k next slot).1 slots (omega (arith, first, h)) in
      omega (arith, first, rest)

  pump_slots-Rising :
      (n : VirtualNetwork) (next : ℕ) (slots : List (TcpSlot S))
      → next + new_streams slots < 2 ^ 64
      → Rising next (pump_slots k n next slots).2 (pump_slots k n next slots).1
  unfolding pump_slots
  pump_slots-Rising n next [] h = omega arith
  pump_slots-Rising n next (slot ∷ slots) h =
      let named = name_stream k next slot in
      let first = name_stream-next next slot (omega (arith, h)) in
      Rising-append next named.1 (pump_slots k n named.1 slots).1 named.2
        ((pump_named k n named.0.stream_id named.0).1 ++ (pump_slots k n named.1 slots).2)
        (name_stream-Rising next slot (omega (arith, h)))
        (Rising-append named.1 named.1 (pump_slots k n named.1 slots).1
          ((pump_named k n named.0.stream_id named.0).1) ((pump_slots k n named.1 slots).2)
          (pump_named-Rising n named.1 named.0.stream_id named.0)
          (pump_slots-Rising n named.1 slots (omega (arith, first, h))))

  -- The slots that a poll pumps.
  abbrev pub polled_slots : (ℕ → S → S) → MediumStack S → List (TcpSlot S)
  polled_slots before s = (poll_iface k before (ensure_tcp_listeners k s)).tcp_slots

  poll-next :
      (before after : ℕ → S → S) (s : MediumStack S)
      → s.next_tcp_stream + new_streams (polled_slots before s) < 2 ^ 64
      → (poll k before after s).1.next_tcp_stream
        ≡ s.next_tcp_stream + new_streams (polled_slots before s)
  unfolding poll pump_tcp ensure_tcp_listeners
  poll-next before after s h = pump_slots-next s.network s.next_tcp_stream _ h

  poll-Rising :
      (before after : ℕ → S → S) (s : MediumStack S)
      → s.next_tcp_stream + new_streams (polled_slots before s) < 2 ^ 64
      → Rising s.next_tcp_stream (poll k before after s).0 (poll k before after s).1.next_tcp_stream
  unfolding poll pump_tcp ensure_tcp_listeners
  poll-Rising before after s h = pump_slots-Rising s.network s.next_tcp_stream _ h

  with_slots-next :
      {A : Type 0} (s : MediumStack S) (r : Option (A × List (TcpSlot S)))
      → (or_same k s (with_slots k s r)).next_tcp_stream ≡ s.next_tcp_stream
  with_slots-next s none = refl
  with_slots-next s (some (a, slots)) = refl

  close_tcp-next :
      (stream_id : Bytes) (s : MediumStack S)
      → (or_same k s (close_tcp k stream_id s)).next_tcp_stream ≡ s.next_tcp_stream
  unfolding close_tcp
  close_tcp-next stream_id s = omega (
    arith,
    with_slots-next s (
        in_slot k stream_id
          (λ slot. some (tt, record slot { socket = k.shut slot.socket; stream_id = none }))
          s.tcp_slots),
  )

  send_tcp-next :
      (stream_id bytes : Bytes) (s : MediumStack S)
      → (or_same k s (send_tcp k stream_id bytes s)).next_tcp_stream ≡ s.next_tcp_stream
  unfolding send_tcp
  send_tcp-next stream_id bytes s =
      let r =
        in_slot k stream_id (λ slot. sent_in k slot (k.send_slice bytes slot.socket)) s.tcp_slots in
      omega (arith, with_slots-next s r)

  -- How many streams a run names.
  abbrev pub streams_named : List (StackMove k) → MediumStack S → ℕ
  streams_named [] s = 0
  streams_named (polls before after ∷ moves) s =
      new_streams (polled_slots before s) + streams_named moves (poll k before after s).1
  streams_named (closes stream_id ∷ moves) s =
      streams_named moves (or_same k s (close_tcp k stream_id s))
  streams_named (sends stream_id bytes ∷ moves) s =
      streams_named moves (or_same k s (send_tcp k stream_id bytes s))

  run_stack-Rising :
      (moves : List (StackMove k)) (s : MediumStack S)
      → s.next_tcp_stream + streams_named moves s < 2 ^ 64
      → Rising s.next_tcp_stream (run_stack k moves s).0 (run_stack k moves s).1.next_tcp_stream
  unfolding run_stack
  run_stack-Rising [] s h = omega arith
  run_stack-Rising (polls before after ∷ moves) s h =
      let polled = poll k before after s in
      let next = poll-next before after s (omega (arith, h)) in
      Rising-append s.next_tcp_stream polled.1.next_tcp_stream
        ((run_stack k moves polled.1).1.next_tcp_stream) polled.0 ((run_stack k moves polled.1).0)
        (poll-Rising before after s (omega (arith, h)))
        (run_stack-Rising moves polled.1 (omega (arith, next, h)))
  run_stack-Rising (closes stream_id ∷ moves) s h =
      let t = or_same k s (close_tcp k stream_id s) in
      let u = run_stack k moves t in
      let next = close_tcp-next stream_id s in
      Rising-lower s.next_tcp_stream t.next_tcp_stream u.1.next_tcp_stream u.0 (omega (arith, next))
        (run_stack-Rising moves t (omega (arith, next, h)))
  run_stack-Rising (sends stream_id bytes ∷ moves) s h =
      let t = or_same k s (send_tcp k stream_id bytes s) in
      let u = run_stack k moves t in
      let next = send_tcp-next stream_id bytes s in
      Rising-lower s.next_tcp_stream t.next_tcp_stream u.1.next_tcp_stream u.0 (omega (arith, next))
        (run_stack-Rising moves t (omega (arith, next, h)))

-- The names of the streams that are announced.
abbrev pub announced : List TcpPumpEvent → List Bytes
announced [] = []
announced (connected name id ∷ es) = name ∷ announced es
announced (received name id bytes ∷ es) = announced es
announced (closed name id ∷ es) = announced es

abbrev pub AllDifferent : List Bytes → Type 0
AllDifferent [] = Unit
AllDifferent (b ∷ bs) = All (λ c. b ≢ c) bs × AllDifferent bs

Rising-above :
    (i low high : ℕ) (es : List TcpPumpEvent)
    → i ≤ low
    → Rising low es high
    → All (λ name. stream_name i ≢ name) (announced es)
Rising-above i low high [] h k = tt
Rising-above i low high (connected name id ∷ es) h (j, e, l, k) = (
  λ same. omega (arith, h, l, stream_name_injective i j (same ∙ e)),
  Rising-above i j high es (omega (arith, h, l)) k,
)
Rising-above i low high (received name id bytes ∷ es) h k = Rising-above i low high es h k
Rising-above i low high (closed name id ∷ es) h k = Rising-above i low high es h k

Rising-AllDifferent :
    (low high : ℕ) (es : List TcpPumpEvent) → Rising low es high → AllDifferent (announced es)
Rising-AllDifferent low high [] h = tt
Rising-AllDifferent low high (connected name id ∷ es) (j, e, l, k) =
    (rw e (Rising-above j j high es (omega arith) k), Rising-AllDifferent j high es k)
Rising-AllDifferent low high (received name id bytes ∷ es) h = Rising-AllDifferent low high es h
Rising-AllDifferent low high (closed name id ∷ es) h = Rising-AllDifferent low high es h

-- Whatever happens to each of the sockets and whatever is called, as long as fewer than 2^64 streams are
-- named: the events of a stack that starts announce streams whose names all differ, numbered upwards from
-- 1 to at most the number of streams.
pub run_stack-AllDifferent :
    {S : Type 0} (k : Sockets S) (network : VirtualNetwork) (moves : List (StackMove k))
    → streams_named k moves (new_stack k network) < 2 ^ 64
    → Rising 0
        (run_stack k moves (new_stack k network)).0
        (run_stack k moves (new_stack k network)).1.next_tcp_stream
      × AllDifferent (announced (run_stack k moves (new_stack k network)).0)
unfolding new_stack
run_stack-AllDifferent k network moves few =
    let h = run_stack-Rising k moves (new_stack k network) (omega (arith, few)) in
    let r = run_stack k moves (new_stack k network) in
    (h, Rising-AllDifferent 0 r.1.next_tcp_stream r.0 h)
