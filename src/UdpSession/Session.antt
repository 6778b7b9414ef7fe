-- ===== src/UdpSession/Session.antt =====
-- The state of one session of crates/overlay-transport/src/udp_session.rs: the nonces of
-- `Direction` and the reassembly in `handle_data_packet`. `pending_packets` is a map with one
-- entry a key.
pub mod Reassembly
pub mod Delivery
use medium.Common.{
  ℕ, zero, suc, ◌+◌, ◌%◌, ◌^◌, List, [], ◌∷◌, ◌++◌, Bytes, be_bytes, Option, none, some, length,
  take, drop, min, ltb, ◌==◌, if◌then◌else◌,
}

-- ChaCha20Poly1305 under the key of the session, from the crate of that name: the nonce comes first.
pub record Cipher : Type 0 where
  pub encrypt : Bytes → Bytes → Option Bytes
  pub decrypt : Bytes → Bytes → Option Bytes

pub data Direction : Type 0 where
  client_to_node node_to_client : Direction

abbrev pub direction_byte : Direction → ℕ
direction_byte client_to_node = 0
direction_byte node_to_client = 1

abbrev pub peer : Direction → Direction
peer client_to_node = node_to_client
peer node_to_client = client_to_node

-- `seq.to_be_bytes()` in the last eight of twelve bytes, the direction in the first.
unfoldable pub nonce_bytes : Direction → ℕ → Bytes
nonce_bytes d seq = direction_byte d ∷ 0 ∷ 0 ∷ 0 ∷ be_bytes 8 seq

abbrev pub Pending : Type 0
Pending = List (ℕ × Bytes)

unfoldable pub lookup : ℕ → Pending → Option Bytes
lookup k [] = none
lookup k ((j, v) ∷ m) = if j == k then some v else lookup k m

-- `entry(k).or_insert(v)`.
unfoldable pub or_insert : ℕ → Bytes → Pending → Pending
or_insert k v [] = (k, v) ∷ []
or_insert k v ((j, w) ∷ m) = if j == k then (j, w) ∷ m else (j, w) ∷ or_insert k v m

-- What `remove(&k)` leaves.
unfoldable pub erase : ℕ → Pending → Pending
erase k [] = []
erase k ((j, w) ∷ m) = let rest = erase k m in if j == k then rest else (j, w) ∷ rest

pub record SessionState : Type 0 where
  pub send_seq : ℕ
  pub recv_seq : ℕ
  pub pending_read : Bytes
  pub pending_packets : Pending

abbrev pub new_state : SessionState
new_state = record { send_seq = 0; recv_seq = 0; pending_read = []; pending_packets = [] }

-- `+= 1` on a `u64`.
abbrev pub next_seq : ℕ → ℕ
next_seq n = (n + 1) % 2 ^ 64

-- `pending_read.extend(plaintext); recv_seq += 1`.
abbrev pub extend : Bytes → SessionState → SessionState
extend plaintext s = record s {
  pending_read = s.pending_read ++ plaintext;
  recv_seq = next_seq s.recv_seq;
}

-- The `while let` of `handle_data_packet`; each round removes an entry.
unfoldable pub flush : ℕ → SessionState → SessionState
flush zero s = s
flush (suc fuel) s = elim (lookup s.recv_seq s.pending_packets) [
  | none ↦ s
  | some payload ↦
      flush fuel
        (extend payload (record s { pending_packets = erase s.recv_seq s.pending_packets }))
]

-- `handle_data_packet` under its lock.
unfoldable pub accept : ℕ → Bytes → SessionState → SessionState
unfolding flush
accept seq plaintext s =
    if ltb seq s.recv_seq
    then s
    else if ltb s.recv_seq seq
    then record s { pending_packets = or_insert seq plaintext s.pending_packets }
    else flush (suc (length s.pending_packets)) (extend plaintext s)

-- `drain_pending`: what fits into a buffer of `size` bytes, and the state that is left.
unfoldable pub drain_pending : ℕ → SessionState → Bytes × SessionState
drain_pending size s =
    let n = min size (length s.pending_read) in
    (take n s.pending_read, record s { pending_read = drop n s.pending_read })
