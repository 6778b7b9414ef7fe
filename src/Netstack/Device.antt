-- ===== src/Netstack/Device.antt =====
-- The device between the tunnel of the app and the network stack: `PacketDevice` and its tokens,
-- module `tun` of crates/medium-netstack/src/lib.rs.
use medium.Common.{ℕ, zero, suc, List, [], ◌∷◌, ◌++◌, Option, none, some, Bytes}

pub record PacketDevice : Type 0 where
  pub rx : List Bytes
  pub tx : List Bytes
  pub mtu : ℕ

unfoldable pub new_device : ℕ → PacketDevice
new_device mtu = record { rx = []; tx = []; mtu = mtu }

-- `pop_front`.
abbrev pub front : List Bytes → Option Bytes
front [] = none
front (p ∷ ps) = some p

abbrev pub behind : List Bytes → List Bytes
behind [] = []
behind (p ∷ ps) = ps

unfoldable pub push_tun_packet : Bytes → PacketDevice → PacketDevice
push_tun_packet packet d = record d { rx = d.rx ++ packet ∷ [] }

unfoldable pub pop_tun_packet : PacketDevice → Option Bytes × PacketDevice
pop_tun_packet d = (front d.tx, record d { tx = behind d.tx })

-- `receive`, and what its token gives to its consumer.
unfoldable pub receive : PacketDevice → Option Bytes × PacketDevice
receive d = (front d.rx, record d { rx = behind d.rx })

abbrev pub zeros : ℕ → Bytes
zeros zero = []
zeros (suc n) = 0 ∷ zeros n

-- `transmit`, and what its token does with a consumer that fills a packet of `len` bytes.
unfoldable pub transmit_packet : ℕ → (Bytes → Bytes) → PacketDevice → PacketDevice
transmit_packet len fill d = record d { tx = d.tx ++ fill (zeros len) ∷ [] }
