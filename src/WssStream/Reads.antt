-- ===== src/WssStream/Reads.antt =====
-- The reads return the bytes that the socket gives, in order.
use mathlib.Core.List.{append_assoc}
use medium.Common.{
  ℕ, ◌≤◌, ◌≡◌, refl, sym, ap, ◌∙◌, Bool, true, false, List, [], ◌∷◌, ◌++◌, Option, none, some,
  Bytes, arith, min, length, take, drop, take-append-drop, length-take, Result, ok, err,
}
use medium.WssStream.{
  Message, binary, text, ping, pong, frame, closing, WssByteStream, Outcome, transmit, deliver,
  if_sent, read_socket, read_from, read,
}

-- The bytes of the messages.
unfoldable pub payloads : List (Option Message) → Bytes
payloads [] = []
payloads (some (binary bytes) ∷ ms) = bytes ++ payloads ms
payloads (some (text bytes) ∷ ms) = bytes ++ payloads ms
payloads (_ ∷ ms) = payloads ms

-- The bytes that were read.
abbrev pub got : {A : Type 0} → Result A Bytes → Bytes
got (ok bytes) = bytes
got (err e) = []

-- The bytes still to be read.
abbrev pub left : WssByteStream → Bytes
left s = s.pending_read ++ payloads s.incoming

-- A read takes what it returns off the front of what is left, and at most what its buffer holds.
pub record Reads (size : ℕ) (before : Bytes) (x : Outcome Bytes) : Type 0 where
  in_order : got x.0 ++ left x.1 ≡ before
  fits : length (got x.0) ≤ size

deliver-Reads :
    (size : ℕ) (bytes : Bytes) (ms : List (Option Message)) (s : WssByteStream)
    → Reads size (bytes ++ payloads ms) (deliver size bytes ms s)
unfolding deliver
deliver-Reads size bytes ms s = record {
  in_order =
      sym (append_assoc (take n bytes) (drop n bytes) (payloads ms))
      ∙ ap (λ l. l ++ payloads ms) (take-append-drop n bytes);
  fits = omega (arith, length-take n bytes);
}
  where
    n : ℕ
    n = min size (length bytes)

if_sent-Reads :
    (size : ℕ) (m : Message) (sends : List Bool) (s : WssByteStream)
    (again : WssByteStream → Outcome Bytes)
    → s.pending_read ≡ []
    → ((t : WssByteStream) → t.pending_read ≡ [] → Reads size (payloads s.incoming) (again t))
    → Reads size (payloads s.incoming) (if_sent (transmit m sends s) again)
if_sent-Reads size m [] s again e h = h _ e
if_sent-Reads size m (true ∷ sends) s again e h = h _ e
if_sent-Reads size m (false ∷ sends) s again e h = record {
  in_order = ap (λ l. l ++ payloads s.incoming) e;
  fits = omega arith;
}

read_socket-Reads :
    (size : ℕ) (ms : List (Option Message)) (s : WssByteStream)
    → s.pending_read ≡ []
    → Reads size (payloads ms) (read_socket size ms s)
unfolding read_socket payloads
read_socket-Reads size [] s e = record { in_order = ap (λ l. l ++ []) e; fits = omega arith }
read_socket-Reads size (none ∷ ms) s e = record {
  in_order = ap (λ l. l ++ payloads ms) e;
  fits = omega arith;
}
read_socket-Reads size (some (binary bytes) ∷ ms) s e = deliver-Reads size bytes ms s
read_socket-Reads size (some (text bytes) ∷ ms) s e = deliver-Reads size bytes ms s
read_socket-Reads size (some closing ∷ ms) s e = record {
  in_order = ap (λ l. l ++ payloads ms) e;
  fits = omega arith;
}
read_socket-Reads size (some (ping payload) ∷ ms) s e =
    if_sent-Reads size (pong payload) s.sends (record s { incoming = ms }) (read_socket size ms) e
      (λ t f. read_socket-Reads size ms t f)
read_socket-Reads size (some (pong payload) ∷ ms) s e = read_socket-Reads size ms s e
read_socket-Reads size (some frame ∷ ms) s e = read_socket-Reads size ms s e

read_from-Reads :
    (size : ℕ) (pending : Bytes) (s : WssByteStream)
    → s.pending_read ≡ pending
    → Reads size (pending ++ payloads s.incoming) (read_from size pending s)
read_from-Reads size [] s e = read_socket-Reads size s.incoming s e
read_from-Reads size (b ∷ pending) s e = deliver-Reads size (b ∷ pending) s.incoming s

-- Calls of `read` with buffers of these sizes: all the bytes that they return, and the stream after
-- them.
unfoldable pub read_all : List ℕ → WssByteStream → Bytes × WssByteStream
read_all [] s = ([], s)
read_all (size ∷ sizes) s =
    let one = read size s in let rest = read_all sizes one.1 in (got one.0 ++ rest.0, rest.1)

-- However large the buffers are, and whatever fails in between: what the calls of `read` return, and
-- after it what is left, is what was to be read, in order and without loss.
pub read_all-left :
    (sizes : List ℕ) (s : WssByteStream)
    → (read_all sizes s).0 ++ left (read_all sizes s).1 ≡ left s
unfolding read_all read
read_all-left [] s = refl
read_all-left (size ∷ sizes) s =
    let one = read_from-Reads size s.pending_read s refl in
    let next = (read_from size s.pending_read s).1 in
    append_assoc (got (read_from size s.pending_read s).0) (read_all sizes next).0
      (left (read_all sizes next).1)
    ∙ ap (λ l. got (read_from size s.pending_read s).0 ++ l) (read_all-left sizes next)
    ∙ one.in_order
