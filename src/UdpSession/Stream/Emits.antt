-- ===== src/UdpSession/Stream/Emits.antt =====
-- What the calls of a stream send.
use medium.Common.{
  ℕ, zero, suc, ◌+◌, ◌≤◌, ◌≡◌, refl, sym, ◌∙◌, ◌⊎◌, inl, inr, Bool, true, false, List, [], ◌∷◌,
  ◌++◌, ◌==◌, arith, Bytes, Option, none, some, Bool-cases, Result, ok, err, All, All-append,
}
use mathlib.Core.List.{append_assoc, append-nil}
use medium.UdpSession.Packet.{
  Packet, PacketKind, PacketError, data_packet, ack, close, encode_packet,
}
use medium.UdpSession.Session.{accept}
use medium.UdpSession.Session.Delivery.{accept-send_seq}
use medium.UdpSession.Stream.{
  IoError, Stream, Io, continue, transmit, send_encoded, send_packet, send_ack, recv_session_packet,
  on_plaintext, handle_data_packet, on_reply, ack_loop, is_reply,
}

abbrev pub data_count : List Packet → ℕ
data_count [] = 0
data_count (p ∷ ps) = elim p.kind [ data_packet ↦ suc (data_count ps) | _ ↦ data_count ps ]

-- From `s` to `t` packet `p` has been sent, at most `rounds` times, and else only acknowledgements.
pub record Emits (p : Packet) (rounds : ℕ) (s t : Stream) : Type 0 where
  pub news : List Packet
  pub appended : t.outgoing ≡ s.outgoing ++ news
  pub only : All (λ q. (q ≡ p) ⊎ (q.kind ≡ ack)) news
  pub few : data_count news ≤ rounds

-- The same, with the next number to send as it was.
pub record Waits (p : Packet) (rounds : ℕ) (s t : Stream) : Type 0 where
  pub emits : Emits p rounds s t
  pub same : t.state.send_seq ≡ s.state.send_seq

data_count-append : (ps qs : List Packet) → data_count (ps ++ qs) ≡ data_count ps + data_count qs
data_count-append [] qs = omega arith
data_count-append (p ∷ ps) qs = ground (arith, data_count-append ps qs)

module _ (p : Packet) where
  Waits-refl : (s : Stream) → Waits p 0 s s
  Waits-refl s = record {
    emits = record {
      news = [];
      appended = sym (append-nil s.outgoing);
      only = tt;
      few = omega arith;
    };
    same = refl;
  }

  pub Emits-trans : {a b : ℕ} {s t u : Stream} → Emits p a s t → Emits p b t u → Emits p (a + b) s u
  Emits-trans {s = s} g h = record {
    news = g.news ++ h.news;
    appended = h.appended ∙ rw g.appended (append_assoc s.outgoing g.news h.news);
    only = All-append (λ q. (q ≡ p) ⊎ (q.kind ≡ ack)) g.news h.news g.only h.only;
    few = omega (arith, data_count-append g.news h.news, g.few, h.few);
  }

  pub Emits-mono : {a b : ℕ} {s t : Stream} → a ≤ b → Emits p a s t → Emits p b s t
  Emits-mono le h = record {
    news = h.news;
    appended = h.appended;
    only = h.only;
    few = omega (arith, h.few);
  }

  transmit-Waits :
      (q : Packet) (rounds : ℕ) (fs : List Bool) (s : Stream)
      → (q ≡ p) ⊎ (q.kind ≡ ack)
      → data_count (q ∷ []) ≤ rounds
      → Waits p rounds s (transmit q fs s).1
  unfolding transmit
  transmit-Waits q rounds [] s h few = record {
    emits = record { news = q ∷ []; appended = refl; only = (h, tt); few = few };
    same = refl;
  }
  transmit-Waits q rounds (false ∷ fs) s h few = record {
    emits = record { news = q ∷ []; appended = refl; only = (h, tt); few = few };
    same = refl;
  }
  transmit-Waits q rounds (true ∷ fs) s h few = record {
    emits = record {
      news = [];
      appended = sym (append-nil s.outgoing);
      only = tt;
      few = omega arith;
    };
    same = refl;
  }

  pub send_packet-Waits :
      (q : Packet) (rounds : ℕ) (s : Stream)
      → (q ≡ p) ⊎ (q.kind ≡ ack)
      → data_count (q ∷ []) ≤ rounds
      → Waits p rounds s (send_packet q s).1
  unfolding send_packet
  send_packet-Waits q rounds s h few = encoded (encode_packet q)
    where
      encoded : (r : Result PacketError Bytes) → Waits p rounds s (send_encoded r q s).1
      encoded (ok _) = unfold send_encoded in transmit-Waits q rounds s.faults s h few
      encoded (err e) =
          unfold send_encoded in
          record {
            emits = record {
              news = [];
              appended = sym (append-nil s.outgoing);
              only = tt;
              few = omega arith;
            };
            same = refl;
          }

  send_ack-Waits : (seq : ℕ) (s : Stream) → Waits p 0 s (send_ack seq s).1
  unfolding send_ack
  send_ack-Waits seq s = send_packet-Waits _ 0 s (inr refl) (omega arith)

  on_plaintext-Waits :
      (o : Option Bytes) (seq : ℕ) (s : Stream) → Waits p 0 s (on_plaintext o seq s).1
  unfolding on_plaintext
  on_plaintext-Waits none seq s = Waits-refl s
  on_plaintext-Waits (some v) seq s =
      let sent = send_ack-Waits seq (record s { state = accept seq v s.state }) in
      record {
        emits = record {
          news = sent.emits.news;
          appended = sent.emits.appended;
          only = sent.emits.only;
          few = sent.emits.few;
        };
        same = sent.same ∙ accept-send_seq seq v s.state;
      }

  handle-Waits : (q : Packet) (s : Stream) → Waits p 0 s (handle_data_packet q s).1
  unfolding handle_data_packet
  handle-Waits q s = on_plaintext-Waits _ q.seq s

  recv-Waits : (w : Packet → Bool) (s : Stream) → Waits p 0 s (recv_session_packet w s).1
  unfolding recv_session_packet
  recv-Waits w s = record {
    emits = record {
      news = [];
      appended = sym (append-nil s.outgoing);
      only = tt;
      few = omega arith;
    };
    same = refl;
  }

  pub Waits-trans : {a : ℕ} {s t u : Stream} → Waits p a s t → Waits p 0 t u → Waits p a s u
  Waits-trans g h = record {
    emits = Emits-mono (omega arith) (Emits-trans g.emits h.emits);
    same = h.same ∙ g.same;
  }

  continue-Waits :
      {A B : Type 0} (s : Stream) (x : Result IoError A × Stream) (f : A → Io B)
      → Waits p 0 s x.1
      → ((a : A) (t : Stream) → Waits p 0 t (f a t).1)
      → Waits p 0 s (continue x f).1
  continue-Waits s (ok a, t) f h k = Waits-trans h (k a t)
  continue-Waits s (err e, t) f h k = h

  on_reply-Waits :
      (again : Io (Unit {0})) (seq : ℕ) (q : Packet) (k : PacketKind) (s : Stream)
      → ((t : Stream) → Waits p 0 t (again t).1)
      → Waits p 0 s (on_reply again seq q k s).1
  unfolding on_reply
  on_reply-Waits again seq q ack s next = elim (Bool-cases (q.seq == seq)) [
    | inl e ↦ rw e (Waits-refl s)
    | inr e ↦ rw e (next s)
  ]
  on_reply-Waits again seq q data_packet s next =
      continue-Waits s (handle_data_packet q s) (λ _. again) (handle-Waits q s) (λ _. next)
  on_reply-Waits again seq q close s next = Waits-refl s
  on_reply-Waits again seq q _ s next = next s

  pub ack_loop-Waits : (fuel seq : ℕ) (s : Stream) → Waits p 0 s (ack_loop fuel seq s).1
  unfolding ack_loop
  ack_loop-Waits zero seq s = Waits-refl s
  ack_loop-Waits (suc fuel) seq s =
      continue-Waits s (recv_session_packet is_reply s)
        (λ q. on_reply (ack_loop fuel seq) seq q q.kind) (recv-Waits is_reply s)
        (λ q t. on_reply-Waits (ack_loop fuel seq) seq q q.kind t (ack_loop-Waits fuel seq))
