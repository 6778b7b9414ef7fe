-- ===== src/UdpSession/Session/Reassembly.antt =====
-- What the state holds is, byte for byte, what the peer sent, in the order of the sequence numbers.
use medium.Common.{
  ℕ, zero, suc, ◌+◌, ◌^◌, ◌≤◌, ◌<◌, ◌≡◌, refl, ap, ◌∙◌, inl, inr, false, [], ◌∷◌, ◌++◌, arith,
  Bytes, none, some, Option-cases, Bool-cases, All, length, ltb, ◌==◌,
}
use mathlib.Core.List.{append_assoc}
use medium.UdpSession.Session.{
  Pending, SessionState, lookup, or_insert, erase, extend, flush, accept, next_seq,
}

-- The first `n` chunks that the peer sent.
abbrev pub stream : (ℕ → Bytes) → ℕ → Bytes
stream sent zero = []
stream sent (suc n) = stream sent n ++ sent n

-- Entry `e` is a chunk of the peer with a number not below `low`, and below `limit`.
abbrev pub IsChunk : (ℕ → Bytes) → ℕ → ℕ → ℕ × Bytes → Type 0
IsChunk sent limit low e = (low ≤ e.0) × (e.1 ≡ sent e.0) × (e.0 < limit)

-- `taken` is what the reader has had so far; the peer sends fewer than `limit` chunks.
pub record InOrder (sent : ℕ → Bytes) (limit : ℕ) (taken : Bytes) (s : SessionState) : Type 0 where
  pub delivered : taken ++ s.pending_read ≡ stream sent s.recv_seq
  pub parked : All (IsChunk sent limit s.recv_seq) s.pending_packets
  pub small : s.recv_seq ≤ limit
  pub fits : limit < 2 ^ 64

-- One round of the loop.
pub flush-none :
    (fuel : ℕ) (s : SessionState)
    → lookup s.recv_seq s.pending_packets ≡ none
    → flush (suc fuel) s ≡ s
unfolding flush
flush-none fuel s e = rw (e, flush)

pub flush-some :
    (fuel : ℕ) (v : Bytes) (s : SessionState)
    → lookup s.recv_seq s.pending_packets ≡ some v
    → flush (suc fuel) s
      ≡ flush fuel (extend v (record s { pending_packets = erase s.recv_seq s.pending_packets }))
unfolding flush
flush-some fuel v s e = rw (e, flush)

module _ (sent : ℕ → Bytes) (limit : ℕ) where
  lookup-IsChunk :
      (low k : ℕ) (m : Pending) (v : Bytes)
      → All (IsChunk sent limit low) m
      → lookup k m ≡ some v
      → (v ≡ sent k) × (k < limit)
  unfolding lookup
  lookup-IsChunk low k [] v h e = cc
  lookup-IsChunk low k ((j, w) ∷ m) v h e = ground (arith, lookup-IsChunk low k m v h.1)

  erase-IsChunk :
      (low : ℕ) (m : Pending)
      → All (IsChunk sent limit low) m
      → All (IsChunk sent limit (low + 1)) (erase low m)
  unfolding erase
  erase-IsChunk low [] h = tt
  erase-IsChunk low ((j, w) ∷ m) h = ground (arith, erase-IsChunk low m h.1)

  or_insert-IsChunk :
      (low k : ℕ) (v : Bytes) (m : Pending)
      → IsChunk sent limit low (k, v)
      → All (IsChunk sent limit low) m
      → All (IsChunk sent limit low) (or_insert k v m)
  unfolding or_insert
  or_insert-IsChunk low k v [] h all = (h, tt)
  or_insert-IsChunk low k v ((j, w) ∷ m) h all = ground (arith, or_insert-IsChunk low k v m h all.1)

  erase-IsChunk_absent :
      (low : ℕ) (m : Pending)
      → All (IsChunk sent limit low) m
      → lookup low m ≡ none
      → All (IsChunk sent limit (low + 1)) m
  unfolding lookup
  erase-IsChunk_absent low [] h e = tt
  erase-IsChunk_absent low ((j, w) ∷ m) h e = ground (arith, erase-IsChunk_absent low m h.1)

  stream-suc : (n : ℕ) → stream sent (n + 1) ≡ stream sent n ++ sent n
  stream-suc n = let e : n + 1 ≡ suc n = omega arith in rw e

  extend-delivered :
      (taken v : Bytes) (s : SessionState)
      → taken ++ s.pending_read ≡ stream sent s.recv_seq
      → v ≡ sent s.recv_seq
      → s.recv_seq + 1 < 2 ^ 64
      → taken ++ (extend v s).pending_read ≡ stream sent (extend v s).recv_seq
  extend-delivered taken v s d e h =
      let n : next_seq s.recv_seq ≡ s.recv_seq + 1 = omega arith in
      rw (n, stream-suc s.recv_seq, ← d, e, append_assoc)

  -- One round keeps the stream in order.
  pub flush_parts :
      (taken v : Bytes) (s : SessionState)
      → InOrder sent limit taken s
      → lookup s.recv_seq s.pending_packets ≡ some v
      → InOrder sent limit taken
          (extend v (record s { pending_packets = erase s.recv_seq s.pending_packets }))
        × (next_seq s.recv_seq ≡ s.recv_seq + 1)
  flush_parts taken v s h e =
      let c = lookup-IsChunk s.recv_seq s.recv_seq s.pending_packets v h.parked e in
      let n : next_seq s.recv_seq ≡ s.recv_seq + 1 = omega (arith, c.1, h.fits) in
      (
        record {
          delivered = extend-delivered taken v s h.delivered c.0 (omega (arith, c.1, h.fits));
          parked = rw n (erase-IsChunk s.recv_seq s.pending_packets h.parked);
          small = omega arith;
          fits = h.fits;
        },
        n,
      )

  pub flush-InOrder :
      (fuel : ℕ) (taken : Bytes) (s : SessionState)
      → InOrder sent limit taken s
      → InOrder sent limit taken (flush fuel s)
  unfolding flush
  flush-InOrder zero taken s h = h
  flush-InOrder (suc fuel) taken s h = elim (Option-cases (lookup s.recv_seq s.pending_packets)) [
    | inl e ↦ rw (flush-none fuel s e) h
    | inr (v, e) ↦
        rw (flush-some fuel v s e) (flush-InOrder fuel taken _ (flush_parts taken v s h e).0)
  ]

or_insert-lookup_ne :
    (k j : ℕ) (v : Bytes) (m : Pending) → (j == k) ≡ false → lookup k (or_insert j v m) ≡ lookup k m
unfolding lookup or_insert
or_insert-lookup_ne k j v [] h = ground arith
or_insert-lookup_ne k j v ((i, w) ∷ m) h = ground (arith, or_insert-lookup_ne k j v m)

-- No chunk waits that could be appended.
abbrev pub IsSettled : SessionState → Type 0
IsSettled s = lookup s.recv_seq s.pending_packets ≡ none

length-erase-le : (k : ℕ) (m : Pending) → length (erase k m) ≤ length m
unfolding erase
length-erase-le k [] = omega arith
length-erase-le k ((j, w) ∷ m) = ground (arith, length-erase-le k m)

length-erase-lt :
    (k : ℕ) (m : Pending) (v : Bytes) → lookup k m ≡ some v → length (erase k m) < length m
unfolding lookup erase
length-erase-lt k [] v e = cc
length-erase-lt k ((j, w) ∷ m) v e = ground (arith, length-erase-lt k m v, length-erase-le k m)

-- The fuel that `accept` gives is enough.
pub flush-IsSettled :
    (fuel : ℕ) (s : SessionState) → length s.pending_packets < fuel → IsSettled (flush fuel s)
unfolding flush
flush-IsSettled zero s h = elim h [ ]
flush-IsSettled (suc fuel) s h = elim (Option-cases (lookup s.recv_seq s.pending_packets)) [
  | inl e ↦ rw (flush-none fuel s e) e
  | inr (v, e) ↦
      let shorter = length-erase-lt s.recv_seq s.pending_packets v e in
      rw (flush-some fuel v s e) (flush-IsSettled fuel _ (omega arith))
]

module _ (sent : ℕ → Bytes) (limit : ℕ) where
  -- The next chunk of the stream.
  pub extend-InOrder :
      (v taken : Bytes) (s : SessionState)
      → InOrder sent limit taken s
      → IsSettled s
      → v ≡ sent s.recv_seq
      → s.recv_seq < limit
      → InOrder sent limit taken (extend v s) × (next_seq s.recv_seq ≡ s.recv_seq + 1)
  extend-InOrder v taken s h settled e bound =
      let n : next_seq s.recv_seq ≡ s.recv_seq + 1 = omega (arith, h.fits) in
      (
        record {
          delivered = extend-delivered sent limit taken v s h.delivered e (omega (arith, h.fits));
          parked =
              rw n (erase-IsChunk_absent sent limit s.recv_seq s.pending_packets h.parked settled);
          small = omega arith;
          fits = h.fits;
        },
        n,
      )

  -- A chunk of the peer, whatever its number, keeps the stream in order.
  pub accept-InOrder :
      (seq : ℕ) (taken : Bytes) (s : SessionState)
      → InOrder sent limit taken s
      → IsSettled s
      → seq < limit
      → InOrder sent limit taken (accept seq (sent seq) s) × IsSettled (accept seq (sent seq) s)
  unfolding accept
  accept-InOrder seq taken s h settled bound = elim (Bool-cases (ltb seq s.recv_seq)) [
    | inl old ↦ rw old (h, settled)
    | inr new ↦ elim (Bool-cases (ltb s.recv_seq seq)) [
      | inl early ↦
          rw (new, early)
            (
              record {
                delivered = h.delivered;
                parked =
                    or_insert-IsChunk sent limit s.recv_seq seq (sent seq) s.pending_packets
                      (ground arith, refl, bound) h.parked;
                small = h.small;
                fits = h.fits;
              },
              or_insert-lookup_ne s.recv_seq seq (sent seq) s.pending_packets (ground arith)
                  ∙ settled,
            )
      | inr due ↦
          let e : seq ≡ s.recv_seq = ground arith in
          let (next, _) = extend-InOrder (sent seq) taken s h settled (ap sent e) (omega arith) in
          rw (new, due)
            (
              flush-InOrder sent limit (suc (length s.pending_packets)) taken (extend (sent seq) s)
                  next,
              flush-IsSettled (suc (length s.pending_packets)) (extend (sent seq) s) (omega arith),
            )
    ]
  ]
