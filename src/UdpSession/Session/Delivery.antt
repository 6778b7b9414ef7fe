-- ===== src/UdpSession/Session/Delivery.antt =====
-- No chunk that `accept` has taken is lost: it is in the stream, or waits for those before it.
use medium.Common.{
  ℕ, zero, suc, ◌<◌, ◌≡◌, ◌≢◌, refl, ap, ◌⊎◌, inl, inr, false, List, [], ◌∷◌, arith, Bytes, none,
  Option-cases, Bool-cases, All, length, ltb, ◌==◌,
}
use medium.UdpSession.Session.{
  Pending, SessionState, lookup, or_insert, erase, extend, flush, accept,
}
use medium.UdpSession.Session.Reassembly.{
  InOrder, IsSettled, flush-none, flush-some, flush_parts, extend-InOrder, accept-InOrder,
}

abbrev pub Has : ℕ → SessionState → Type 0
Has k s = (k < s.recv_seq) ⊎ (lookup k s.pending_packets ≢ none)

lookup-erase_ne : (k j : ℕ) (m : Pending) → (j == k) ≡ false → lookup k (erase j m) ≡ lookup k m
unfolding lookup erase
lookup-erase_ne k j [] h = refl
lookup-erase_ne k j ((i, w) ∷ m) h = ground (arith, lookup-erase_ne k j m h)

lookup-or_insert_self : (k : ℕ) (v : Bytes) (m : Pending) → lookup k (or_insert k v m) ≢ none
unfolding lookup or_insert
lookup-or_insert_self k v [] = ground arith
lookup-or_insert_self k v ((i, w) ∷ m) = ground (arith, lookup-or_insert_self k v m)

lookup-or_insert_keep :
    (k j : ℕ) (v : Bytes) (m : Pending) → lookup k m ≢ none → lookup k (or_insert j v m) ≢ none
unfolding lookup or_insert
lookup-or_insert_keep k j v [] h = absurd (h refl)
lookup-or_insert_keep k j v ((i, w) ∷ m) h = ground (arith, lookup-or_insert_keep k j v m)

module _ (sent : ℕ → Bytes) (limit k : ℕ) where
  flush-Has :
      (fuel : ℕ) (taken : Bytes) (s : SessionState)
      → InOrder sent limit taken s
      → Has k s
      → Has k (flush fuel s)
  unfolding flush
  flush-Has zero taken s h has = has
  flush-Has (suc fuel) taken s h has = elim (Option-cases (lookup s.recv_seq s.pending_packets)) [
    | inl e ↦ rw (flush-none fuel s e) has
    | inr (v, e) ↦
        let (next, n) = flush_parts sent limit taken v s h e in
        rw (flush-some fuel v s e) (
          flush-Has fuel taken _ next
            (ground (arith, n, lookup-erase_ne k s.recv_seq s.pending_packets)))
  ]

  accept-Has :
      (seq : ℕ) (taken : Bytes) (s : SessionState)
      → InOrder sent limit taken s
      → IsSettled s
      → seq < limit
      → Has k s ⊎ (seq ≡ k)
      → Has k (accept seq (sent seq) s)
  unfolding accept
  accept-Has seq taken s h settled bound has = elim (Bool-cases (ltb seq s.recv_seq)) [
    | inl old ↦ rw old (ground arith)
    | inr new ↦ elim (Bool-cases (ltb s.recv_seq seq)) [
      | inl early ↦
          rw (new, early)
            (ground (
              arith,
              lookup-or_insert_keep k seq (sent seq) s.pending_packets,
              lookup-or_insert_self k (sent seq) s.pending_packets,
            ))
      | inr due ↦
          let e : seq ≡ s.recv_seq = ground arith in
          let (next, n) =
            extend-InOrder sent limit (sent seq) taken s h settled (ap sent e) (omega arith) in
          rw (new, due)
            (flush-Has (suc (length s.pending_packets)) taken (extend (sent seq) s) next
              (ground (arith, n)))
    ]
  ]

-- The chunks numbered `seqs` arrive, in that order.
unfoldable pub accept_all : (ℕ → Bytes) → List ℕ → SessionState → SessionState
accept_all sent [] s = s
accept_all sent (k ∷ ks) s = accept_all sent ks (accept k (sent k) s)

abbrev pub Arrives : ℕ → List ℕ → Type 0
Arrives k [] = ⊥
Arrives k (j ∷ ks) = (j ≡ k) ⊎ Arrives k ks

pub accept_all-InOrder :
    (sent : ℕ → Bytes) (limit : ℕ) (seqs : List ℕ) (taken : Bytes) (s : SessionState)
    → InOrder sent limit taken s
    → IsSettled s
    → All (λ k. k < limit) seqs
    → InOrder sent limit taken (accept_all sent seqs s) × IsSettled (accept_all sent seqs s)
unfolding accept_all
accept_all-InOrder sent limit [] taken s h settled bound = (h, settled)
accept_all-InOrder sent limit (k ∷ ks) taken s h settled bound =
    let (h', settled') = accept-InOrder sent limit k taken s h settled bound.0 in
    accept_all-InOrder sent limit ks taken _ h' settled' bound.1

pub accept_all-Has :
    (sent : ℕ → Bytes) (limit k : ℕ) (seqs : List ℕ) (taken : Bytes) (s : SessionState)
    → InOrder sent limit taken s
    → IsSettled s
    → All (λ k. k < limit) seqs
    → Has k s ⊎ Arrives k seqs
    → Has k (accept_all sent seqs s)
unfolding accept_all
accept_all-Has sent limit k [] taken s h settled bound (inl has) = has
accept_all-Has sent limit k [] taken s h settled bound (inr a) = absurd a
accept_all-Has sent limit k (j ∷ ks) taken s h settled bound has =
    let (h', settled') = accept-InOrder sent limit j taken s h settled bound.0 in
    let arrived = accept-Has sent limit k j taken s h settled bound.0 in
    accept_all-Has sent limit k ks taken _ h' settled' bound.1 (later has arrived)
  where
    later :
        Has k s ⊎ Arrives k (j ∷ ks)
        → (Has k s ⊎ (j ≡ k) → Has k (accept j (sent j) s))
        → Has k (accept j (sent j) s) ⊎ Arrives k ks
    later (inl old) f = inl (f (inl old))
    later (inr (inl e)) f = inl (f (inr e))
    later (inr (inr a)) f = inr a

-- Receiving leaves the number of the next chunk to send as it is.
flush-send_seq : (fuel : ℕ) (s : SessionState) → (flush fuel s).send_seq ≡ s.send_seq
unfolding flush
flush-send_seq zero s = refl
flush-send_seq (suc fuel) s = elim (Option-cases (lookup s.recv_seq s.pending_packets)) [
  | inl e ↦ rw (flush-none fuel s e)
  | inr (v, e) ↦ rw (flush-some fuel v s e) (flush-send_seq fuel _)
]

pub accept-send_seq :
    (seq : ℕ) (v : Bytes) (s : SessionState) → (accept seq v s).send_seq ≡ s.send_seq
unfolding accept
accept-send_seq seq v s = elim (Bool-cases (ltb seq s.recv_seq)) [
  | inl old ↦ rw old
  | inr new ↦ elim (Bool-cases (ltb s.recv_seq seq)) [
    | inl early ↦ rw (new, early)
    | inr due ↦ rw (new, due) (flush-send_seq (suc (length s.pending_packets)) (extend v s))
  ]
]
