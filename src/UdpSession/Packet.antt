-- ===== src/UdpSession/Packet.antt =====
-- The packets of crates/overlay-transport/src/udp_session.rs: `PacketKind`, `Packet`,
-- `encode_packet` and `decode_packet`.
pub mod Codec
use medium.Common.{
  ℕ, ◌+◌, ◌%◌, ◌^◌, Bool, not, ◌||◌, List, [], ◌∷◌, ◌++◌, Bytes, codes, bytes_eq, be_bytes, from_be,
  length, take, drop, get_or, ltb, ◌==◌, if◌then◌else◌, Result, ok, err, ◌>>=◌, ◌>>◌, ensure,
}

abbrev pub magic : Bytes
magic = codes "MDU1"

abbrev pub header_len : ℕ
header_len = 15

pub data PacketKind : Type 0 where
  hello hello_ack data_packet ack close : PacketKind

pub data PacketError : Type 0 where
  too_large invalid truncated : PacketError
  unknown_kind : ℕ → PacketError

pub record Packet : Type 0 where
  pub kind : PacketKind
  pub seq : ℕ
  pub payload : Bytes

-- The discriminant, `kind as u8`.
abbrev pub kind_byte : PacketKind → ℕ
kind_byte hello = 1
kind_byte hello_ack = 2
kind_byte data_packet = 3
kind_byte ack = 4
kind_byte close = 5

unfoldable pub from_byte : ℕ → Result PacketError PacketKind
from_byte b =
    if b == 1
    then ok hello
    else if b == 2
    then ok hello_ack
    else if b == 3
    then ok data_packet
    else if b == 4
    then ok ack
    else if b == 5
    then ok close
    else err (unknown_kind b)

unfoldable pub encode_packet : Packet → Result PacketError Bytes
encode_packet p =
    if ltb 65535 (length p.payload)
    then err too_large
    else ok (
        magic
        ++ (kind_byte p.kind
            ∷ (be_bytes 8 p.seq ++ (be_bytes 2 (length p.payload % 2 ^ 16) ++ p.payload))))

unfoldable pub decode_packet : Bytes → Result PacketError Packet
unfolding from_byte bytes_eq
decode_packet bytes = do
  ensure (not (ltb (length bytes) header_len || not (bytes_eq (take 4 bytes) magic))) invalid
  kind ← from_byte (get_or bytes 4 0)
  let seq = from_be (take 8 (drop 5 bytes))
  let len = from_be (take 2 (drop 13 bytes))
  ensure (length bytes == header_len + len) truncated
  ok (record { kind = kind; seq = seq; payload = drop header_len bytes })
