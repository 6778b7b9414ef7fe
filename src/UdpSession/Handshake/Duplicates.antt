-- ===== src/UdpSession/Handshake/Duplicates.antt =====
-- A handshake that the listener has answered is known for a duplicate while it may be repeated.
use medium.Common.{
  ℕ, suc, ◌+◌, ◌-◌, ◌≤◌, ◌<◌, ◌≡◌, refl, sym, ap, ◌∙◌, inl, inr, true, false, List, [], ◌∷◌, ◌++◌,
  arith, bytes_eq_refl, Bool-cases, length, length-append, any, All, ltb,
}
use mathlib.Core.Bool.{false≢true}
use mathlib.Core.List.{append_assoc}
use medium.UdpSession.Stream.{addr_eq}
use medium.UdpSession.Handshake.{
  HandshakeKey, key_eq, Recent, duplicate_window, max_recent, drop_expired, trim,
  is_duplicate_handshake,
}

key_eq_refl : (k : HandshakeKey) → key_eq k k ≡ true
unfolding key_eq addr_eq
key_eq_refl k =
    rw (bytes_eq_refl k.peer_addr.ip, bytes_eq_refl k.token, bytes_eq_refl k.service_id)
      (ground arith)

pub trim-length : (r : Recent) → length (trim r) ≤ max_recent
unfolding trim
trim-length [] = omega arith
trim-length (x ∷ r) = ground (arith, trim-length r)

pub drop_expired-length : (now : ℕ) (r : Recent) → length (drop_expired now r) ≤ length r
unfolding drop_expired
drop_expired-length now [] = omega arith
drop_expired-length now ((k, t) ∷ r) = ground (arith, drop_expired-length now r)

-- The entry of `key` at `seen_at` is in `r`, and at most `behind` entries came after it.
record Holds (key : HandshakeKey) (seen_at behind : ℕ) (r : Recent) : Type 0 where
  before : Recent
  after : Recent
  splits : r ≡ before ++ (key, seen_at) ∷ after
  few : length after ≤ behind

module _ (key : HandshakeKey) (seen_at : ℕ) where
  drop_expired-Holds :
      (now behind : ℕ) (before after : Recent)
      → now ≤ seen_at + duplicate_window
      → length after ≤ behind
      → Holds key seen_at behind (drop_expired now (before ++ (key, seen_at) ∷ after))
  unfolding drop_expired
  drop_expired-Holds now behind [] after h few =
      let young : ltb duplicate_window (now - seen_at) ≡ false = ground arith in
      rw young (record { before = []; after = after; splits = refl; few = few })
  drop_expired-Holds now behind ((k, t) ∷ before) after h few =
      elim (Bool-cases (ltb duplicate_window (now - t))) [
        | inl old ↦ rw old (drop_expired-Holds now behind before after h few)
        | inr young ↦
            rw young (record { before = (k, t) ∷ before; after = after; splits = refl; few = few })
      ]

  trim-Holds :
      (behind : ℕ) (before after : Recent)
      → behind < max_recent
      → length after ≤ behind
      → Holds key seen_at behind (trim (before ++ (key, seen_at) ∷ after))
  unfolding trim
  trim-Holds behind [] after h few =
      let short : ltb max_recent (suc (length after)) ≡ false = ground arith in
      rw short (record { before = []; after = after; splits = refl; few = few })
  trim-Holds behind (x ∷ before) after h few =
      elim (Bool-cases (ltb max_recent (suc (length (before ++ (key, seen_at) ∷ after))))) [
        | inl long ↦ rw long (trim-Holds behind before after h few)
        | inr short ↦
            rw short (record { before = x ∷ before; after = after; splits = refl; few = few })
      ]

  Holds-any :
      (before after : Recent) → any (λ e. key_eq e.0 key) (before ++ (key, seen_at) ∷ after) ≡ true
  Holds-any [] after = rw (key_eq_refl key)
  Holds-any (x ∷ before) after = ground (arith, Holds-any before after)

  Holds-duplicate :
      {behind : ℕ} (now : ℕ) (r : Recent)
      → now ≤ seen_at + duplicate_window
      → Holds key seen_at behind r
      → (is_duplicate_handshake r key now).0 ≡ true
  unfolding is_duplicate_handshake
  Holds-duplicate now r h held =
      let kept = drop_expired-Holds now _ held.before held.after h held.few in
      let seen : any (λ e. key_eq e.0 key) (drop_expired now r) ≡ true =
        rw (held.splits, kept.splits) (Holds-any kept.before kept.after) in
      rw seen

  step-Holds :
      (behind now : ℕ) (k : HandshakeKey) (r : Recent)
      → now ≤ seen_at + duplicate_window
      → suc behind < max_recent
      → Holds key seen_at behind r
      → Holds key seen_at (suc behind) (is_duplicate_handshake r k now).1
  unfolding is_duplicate_handshake
  step-Holds behind now k r h room held =
      let kept = drop_expired-Holds now behind held.before held.after h held.few in
      let kept_is = ap (drop_expired now) held.splits ∙ kept.splits in
      elim (Bool-cases (any (λ e. key_eq e.0 k) (drop_expired now r))) [
        | inl same ↦ rw same (record {
          before = kept.before;
          after = kept.after;
          splits = kept_is;
          few = omega (arith, kept.few);
        })
        | inr new ↦
            rw (new, kept_is, append_assoc)
              (trim-Holds (suc behind) kept.before (kept.after ++ (k, now) ∷ []) room
                (omega (arith, length-append kept.after ((k, now) ∷ []), kept.few)))
      ]

-- The listener's memory after the handshakes of `events`, in turn.
unfoldable pub remember : Recent → List (HandshakeKey × ℕ) → Recent
remember r [] = r
remember r ((key, now) ∷ events) = remember (is_duplicate_handshake r key now).1 events

remember-Holds :
    (key : HandshakeKey) (seen_at behind : ℕ) (r : Recent) (events : List (HandshakeKey × ℕ))
    → behind + length events < max_recent
    → All (λ e. e.1 ≤ seen_at + duplicate_window) events
    → Holds key seen_at behind r
    → Holds key seen_at (behind + length events) (remember r events)
unfolding remember
remember-Holds key seen_at behind r [] room times held =
    let e : behind + 0 ≡ behind = omega arith in rw e held
remember-Holds key seen_at behind r ((k, now) ∷ events) room times held =
    let e : behind + suc (length events) ≡ suc behind + length events = omega arith in
    rw e (
      remember-Holds key seen_at (suc behind) _ events (omega arith) times.1
        (step-Holds key seen_at behind now k r times.0 (omega arith) held))

let_in-Holds :
    (r : Recent) (key : HandshakeKey) (now : ℕ)
    → (is_duplicate_handshake r key now).0 ≡ false
    → Holds key now 0 (is_duplicate_handshake r key now).1
unfolding is_duplicate_handshake
let_in-Holds r key now e = elim (Bool-cases (any (λ e. key_eq e.0 key) (drop_expired now r))) [
  | inl seen ↦ absurd (false≢true (sym (rw seen at e)))
  | inr new ↦ rw new (trim-Holds key now 0 (drop_expired now r) [] (omega arith) (omega arith))
]

-- Once a handshake has been let in, the same handshake is refused as a duplicate for thirty seconds,
-- as long as fewer than 256 other handshakes have come in between.
pub repeat_is_duplicate :
    (r : Recent) (key : HandshakeKey) (seen_at : ℕ) (events : List (HandshakeKey × ℕ)) (now : ℕ)
    → (is_duplicate_handshake r key seen_at).0 ≡ false
    → length events < 256
    → All (λ e. e.1 ≤ seen_at + duplicate_window) events
    → now ≤ seen_at + duplicate_window
    → (is_duplicate_handshake (remember (is_duplicate_handshake r key seen_at).1 events) key now).0
      ≡ true
repeat_is_duplicate r key seen_at events now let_in room times h =
    Holds-duplicate key seen_at now _ h (
      remember-Holds key seen_at 0 _ events (omega arith) times (let_in-Holds r key seen_at let_in))
