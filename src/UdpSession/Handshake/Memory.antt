-- ===== src/UdpSession/Handshake/Memory.antt =====
-- What the listener remembers of the handshakes it has had.
use medium.Common.{
  bytes_eq_iff, ℕ, suc, ◌+◌, ◌-◌, ◌≤◌, ◌≡◌, ◌⊎◌, inl, inr, true, List, [], ◌∷◌, ◌++◌, arith,
  Bool-cases, length, any, All, All-append, ltb,
}
use medium.UdpSession.Stream.{addr_eq}
use medium.UdpSession.Handshake.{
  HandshakeKey, key_eq, Recent, duplicate_window, max_recent, drop_expired, trim,
  is_duplicate_handshake,
}
use medium.UdpSession.Handshake.Duplicates.{remember, drop_expired-length, trim-length}

-- The two come from the same address and port, with the same token, for the same service.
abbrev pub SameHandshake : HandshakeKey → HandshakeKey → Type 0
SameHandshake a b =
    (a.peer_addr.ip ≡ b.peer_addr.ip)
    × (a.peer_addr.port ≡ b.peer_addr.port)
    × (a.token ≡ b.token)
    × (a.service_id ≡ b.service_id)

key_eq-SameHandshake : (a b : HandshakeKey) → key_eq a b ≡ true → SameHandshake a b
unfolding key_eq addr_eq
key_eq-SameHandshake a b e =
    let ips = bytes_eq_iff a.peer_addr.ip b.peer_addr.ip in
    let tokens = bytes_eq_iff a.token b.token in
    let services = bytes_eq_iff a.service_id b.service_id in
    (ground (arith, ips), ground arith, ground (arith, tokens), ground (arith, services))

-- Some entry of `r` is of the same handshake, and thirty seconds old at most.
abbrev pub WasSeen : HandshakeKey → ℕ → Recent → Type 0
WasSeen key now [] = ⊥
WasSeen key now (e ∷ r) = (SameHandshake e.0 key × (now ≤ e.1 + 30_000_000_000)) ⊎ WasSeen key now r

-- The entries are in the order of time, and none is from after `now`.
abbrev pub Ascends : ℕ → Recent → Type 0
Ascends now [] = Unit
Ascends now (e ∷ r) = (e.1 ≤ now) × All (λ f. e.1 ≤ f.1) r × Ascends now r

any-WasSeen :
    (key : HandshakeKey) (now t : ℕ) (r : Recent)
    → now ≤ t + duplicate_window
    → All (λ f. t ≤ f.1) r
    → any (λ e. key_eq e.0 key) r ≡ true
    → WasSeen key now r
any-WasSeen key now t [] h later e = cc
any-WasSeen key now t (x ∷ r) h later e = elim (Bool-cases (key_eq x.0 key)) [
  | inl same ↦ inl (key_eq-SameHandshake x.0 key same, omega (arith, h, later.0))
  | inr other ↦ inr (any-WasSeen key now t r h later.1 (rw other at e))
]

duplicate-WasSeen :
    (key : HandshakeKey) (now : ℕ) (r : Recent)
    → Ascends now r
    → any (λ e. key_eq e.0 key) (drop_expired now r) ≡ true
    → WasSeen key now r
unfolding drop_expired
duplicate-WasSeen key now [] h e = cc
duplicate-WasSeen key now ((k, t) ∷ r) h e = elim (Bool-cases (ltb duplicate_window (now - t))) [
  | inl old ↦ inr (duplicate-WasSeen key now r h.2 (rw old at e))
  | inr young ↦ any-WasSeen key now t ((k, t) ∷ r) (ground arith) (omega arith, h.1) (rw young at e)
]

-- What the listener keeps: 256 entries at most, in the order of time.
pub record IsMemory (now : ℕ) (r : Recent) : Type 0 where
  pub bounded : length r ≤ 256
  pub ascends : Ascends now r

Ascends-mono : (t now : ℕ) (r : Recent) → t ≤ now → Ascends t r → Ascends now r
Ascends-mono t now [] le h = tt
Ascends-mono t now (x ∷ r) le h = (omega arith, h.1, Ascends-mono t now r le h.2)

drop_expired-Ascends :
    (t now : ℕ) (r : Recent) → t ≤ now → Ascends t r → Ascends now (drop_expired now r)
unfolding drop_expired
drop_expired-Ascends t now [] le h = tt
drop_expired-Ascends t now ((k, u) ∷ r) le h = elim (Bool-cases (ltb duplicate_window (now - u))) [
  | inl old ↦ rw old (drop_expired-Ascends t now r le h.2)
  | inr young ↦ rw young (omega arith, h.1, Ascends-mono t now r le h.2)
]

Ascends-concat :
    (now : ℕ) (key : HandshakeKey) (r : Recent) → Ascends now r → Ascends now (r ++ (key, now) ∷ [])
Ascends-concat now key [] h = (omega arith, tt, tt)
Ascends-concat now key (x ∷ r) h = (
  h.0,
  All-append (λ f. x.1 ≤ f.1) r ((key, now) ∷ []) h.1 (h.0, tt),
  Ascends-concat now key r h.2,
)

trim-Ascends : (now : ℕ) (r : Recent) → Ascends now r → Ascends now (trim r)
unfolding trim
trim-Ascends now [] h = tt
trim-Ascends now (x ∷ r) h = elim (Bool-cases (ltb max_recent (suc (length r)))) [
  | inl long ↦ rw long (trim-Ascends now r h.2)
  | inr short ↦ rw short h
]

step-IsMemory :
    (t now : ℕ) (key : HandshakeKey) (r : Recent)
    → t ≤ now
    → IsMemory t r
    → IsMemory now (is_duplicate_handshake r key now).1
unfolding is_duplicate_handshake
step-IsMemory t now key r le h =
    let kept = drop_expired-Ascends t now r le h.ascends in
    elim (Bool-cases (any (λ e. key_eq e.0 key) (drop_expired now r))) [
      | inl seen ↦
          rw seen (record {
            bounded = omega (arith, drop_expired-length now r, h.bounded);
            ascends = kept;
          })
      | inr new ↦ rw new (record {
        bounded = trim-length (drop_expired now r ++ (key, now) ∷ []);
        ascends = trim-Ascends now _ (Ascends-concat now key _ kept);
      })
    ]

-- The handshakes come at these times, the last one at `now` or before.
abbrev pub IsClock : ℕ → List (HandshakeKey × ℕ) → ℕ → Type 0
IsClock t [] now = t ≤ now
IsClock t (e ∷ events) now = (t ≤ e.1) × IsClock e.1 events now

start : IsMemory 0 []
start = record { bounded = omega arith; ascends = tt }

remember-IsMemory :
    (t now : ℕ) (r : Recent) (events : List (HandshakeKey × ℕ))
    → IsClock t events now
    → IsMemory t r
    → (u : ℕ) × (u ≤ now) × IsMemory u (remember r events)
unfolding remember
remember-IsMemory t now r [] clock h = (t, clock, h)
remember-IsMemory t now r ((key, u) ∷ events) clock h =
    remember-IsMemory u now _ events clock.1 (step-IsMemory t u key r clock.0 h)

-- Whatever handshakes a listener has had, by a clock that does not run backwards, it remembers 256
-- of them at most.
pub remember-length :
    (events : List (HandshakeKey × ℕ)) (now : ℕ)
    → IsClock 0 events now
    → length (remember [] events) ≤ 256
remember-length events now clock =
    let (u, le, memory) = remember-IsMemory 0 now [] events clock start in memory.bounded

flagged :
    (r : Recent) (key : HandshakeKey) (now : ℕ)
    → (is_duplicate_handshake r key now).0 ≡ true
    → any (λ e. key_eq e.0 key) (drop_expired now r) ≡ true
unfolding is_duplicate_handshake
flagged r key now e = ground arith

-- Whatever handshakes a listener has had, by a clock that does not run backwards: it takes a handshake
-- for a duplicate only where it remembers one from the same address and port, with the same token and for
-- the same service, that came thirty seconds before at most.
pub is_duplicate_handshake-WasSeen :
    (events : List (HandshakeKey × ℕ)) (key : HandshakeKey) (now : ℕ)
    → IsClock 0 events now
    → (is_duplicate_handshake (remember [] events) key now).0 ≡ true
    → WasSeen key now (remember [] events)
is_duplicate_handshake-WasSeen events key now clock e =
    let (u, le, memory) = remember-IsMemory 0 now [] events clock start in
    duplicate-WasSeen key now _ (Ascends-mono u now _ le memory.ascends) (flagged _ key now e)
