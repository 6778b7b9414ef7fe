-- ===== src/UdpSession/Packet/Codec.antt =====
-- `encode_packet` and `decode_packet` are inverse to each other.
use medium.Common.{
  ℕ, ◌+◌, ◌%◌, ◌^◌, ◌≤◌, ◌<◌, ◌≡◌, refl, sym, ap, ◌∙◌, ◌∷◌, ◌++◌, arith, Bytes, IsByte, All,
  bytes_eq_iff, be_bytes, from_be, from_be-be_bytes, be_bytes-from_be, from_be-lt, length,
  length-append, length-take, length-drop, take, drop, take-append-drop, get_or, ◌==◌, ok, ◌>>=◌,
  ensure, drop-drop, All-take, All-drop, drop-get_or, take-append, drop-append, length-be_bytes,
}
use medium.UdpSession.Packet.{
  truncated, Packet, PacketKind, hello, kind_byte, from_byte, magic, encode_packet, decode_packet,
}

from_byte-kind_byte : (k : PacketKind) → from_byte (kind_byte k) ≡ ok k
unfolding from_byte
from_byte-kind_byte hello = refl
from_byte-kind_byte _ = refl

kind_byte-from_byte : (b : ℕ) {k : PacketKind} → from_byte b ≡ ok k → kind_byte k ≡ b
unfolding from_byte
kind_byte-from_byte b h = ground arith

-- What `decode_packet` does with bytes laid out as `encode_packet` lays them out.
decode_parts :
    (k : ℕ) (s l payload : Bytes)
    → length s ≡ 8
    → length l ≡ 2
    → decode_packet (magic ++ (k ∷ (s ++ (l ++ payload)))) ≡ (
        from_byte k >>= λ kind. ensure (length payload == from_be l) truncated >>= λ _.
        ok (record { kind = kind; seq = from_be s; payload = payload }))
unfolding decode_packet
decode_parts k s l payload hs hl =
    let size : length (s ++ (l ++ payload)) ≡ 10 + length payload =
      omega (arith, length-append s (l ++ payload), length-append l payload) in
    let seq : take 8 (s ++ (l ++ payload)) ≡ s = take-append 8 s (l ++ payload) hs in
    let tail : drop 8 (s ++ (l ++ payload)) ≡ l ++ payload = drop-append 8 s (l ++ payload) hs in
    let len : take 2 (l ++ payload) ≡ l = take-append 2 l payload hl in
    let body : drop 10 (s ++ (l ++ payload)) ≡ payload =
      sym (drop-drop 8 2 (s ++ (l ++ payload))) ∙ rw tail (drop-append 2 l payload hl) in
    rw (seq, tail, len, body) (ground (arith, size))

abbrev packet_bytes : Packet → Bytes
packet_bytes p =
    magic
    ++ (kind_byte p.kind
        ∷ (be_bytes 8 p.seq ++ (be_bytes 2 (length p.payload % 2 ^ 16) ++ p.payload)))

-- Every packet whose fields fit is encoded, and is decoded back from its encoding.
pub decode-encode :
    (p : Packet)
    → p.seq < 2 ^ 64
    → length p.payload ≤ 65535
    → (bytes : Bytes) × (encode_packet p ≡ ok bytes) × (decode_packet bytes ≡ ok p)
unfolding encode_packet
decode-encode p h k = (packet_bytes p, ground arith, decoded)
  where
    len : from_be (be_bytes 2 (length p.payload % 2 ^ 16)) ≡ length p.payload
    len = from_be-be_bytes 2 (length p.payload % 2 ^ 16) (omega arith) ∙ omega arith

    decoded : decode_packet (packet_bytes p) ≡ ok p
    decoded =
        decode_parts (kind_byte p.kind) (be_bytes 8 p.seq) (be_bytes 2 (length p.payload % 2 ^ 16))
          p.payload (length-be_bytes 8 p.seq) (length-be_bytes 2 (length p.payload % 2 ^ 16))
        ∙ rw (from_byte-kind_byte p.kind, len, from_be-be_bytes 8 p.seq h) (ground arith)

header_parts :
    (bytes : Bytes)
    → 15 ≤ length bytes
    → bytes
      ≡ take 4 bytes
        ++ (get_or bytes 4 0 ∷ (take 8 (drop 5 bytes) ++ (take 2 (drop 13 bytes) ++ drop 15 bytes)))
header_parts bytes h =
    let last : take 2 (drop 13 bytes) ++ drop 15 bytes ≡ drop 13 bytes =
      rw (← drop-drop 13 2 bytes) (take-append-drop 2 (drop 13 bytes)) in
    let middle : take 8 (drop 5 bytes) ++ drop 13 bytes ≡ drop 5 bytes =
      rw (← drop-drop 5 8 bytes) (take-append-drop 8 (drop 5 bytes)) in
    let kind : drop 4 bytes ≡ get_or bytes 4 0 ∷ drop 5 bytes =
      drop-get_or 4 bytes 0 (omega arith) in
    sym (rw (last, middle, ← kind) (take-append-drop 4 bytes))

record Decoded (bytes : Bytes) (p : Packet) : Type 0 where
  long : 15 ≤ length bytes
  marked : take 4 bytes ≡ magic
  kind : kind_byte p.kind ≡ get_or bytes 4 0
  size : length bytes ≡ 15 + from_be (take 2 (drop 13 bytes))
  seq : p.seq ≡ from_be (take 8 (drop 5 bytes))
  payload : p.payload ≡ drop 15 bytes

decode-Decoded : (bytes : Bytes) {p : Packet} → decode_packet bytes ≡ ok p → Decoded bytes p
unfolding decode_packet from_byte
decode-Decoded bytes e = ground (arith, bytes_eq_iff (take 4 bytes) magic)

pub decode-seq :
    (bytes : Bytes) {p : Packet} → All IsByte bytes → decode_packet bytes ≡ ok p → p.seq < 2 ^ 64
decode-seq bytes h e =
    let d = decode-Decoded bytes e in
    let seq_bytes = All-take IsByte 8 (drop 5 bytes) (All-drop IsByte 5 bytes h) in
    let seq_length : length (take 8 (drop 5 bytes)) ≡ 8 =
      omega (arith, length-take 8 (drop 5 bytes), length-drop 5 bytes, d.long) in
    let small : from_be (take 8 (drop 5 bytes)) < 256 ^ 8 =
      rw seq_length at (from_be-lt (take 8 (drop 5 bytes)) seq_bytes) in
    omega (arith, d.seq, small)

-- `decode_packet` accepts only what `encode_packet` writes for the packet that it returns.
pub encode-decode :
    (bytes : Bytes) {p : Packet}
    → All IsByte bytes
    → decode_packet bytes ≡ ok p
    → encode_packet p ≡ ok bytes
unfolding encode_packet
encode-decode bytes {p} h e =
    let d = decode-Decoded bytes e in
    let seq_bytes = All-take IsByte 8 (drop 5 bytes) (All-drop IsByte 5 bytes h) in
    let len_bytes = All-take IsByte 2 (drop 13 bytes) (All-drop IsByte 13 bytes h) in
    let seq_length : length (take 8 (drop 5 bytes)) ≡ 8 =
      omega (arith, length-take 8 (drop 5 bytes), length-drop 5 bytes, d.long) in
    let len_length : length (take 2 (drop 13 bytes)) ≡ 2 =
      omega (arith, length-take 2 (drop 13 bytes), length-drop 13 bytes, d.long) in
    let small : from_be (take 2 (drop 13 bytes)) < 256 ^ 2 =
      rw len_length at (from_be-lt (take 2 (drop 13 bytes)) len_bytes) in
    let rest : length (drop 15 bytes) ≡ from_be (take 2 (drop 13 bytes)) =
      omega (arith, length-drop 15 bytes, d.size) in
    let len : length (drop 15 bytes) % 2 ^ 16 ≡ from_be (take 2 (drop 13 bytes)) =
      omega (arith, rest, small) in
    let seq_back : be_bytes 8 (from_be (take 8 (drop 5 bytes))) ≡ take 8 (drop 5 bytes) =
      rw seq_length at (be_bytes-from_be (take 8 (drop 5 bytes)) seq_bytes) in
    let len_back : be_bytes 2 (from_be (take 2 (drop 13 bytes))) ≡ take 2 (drop 13 bytes) =
      rw len_length at (be_bytes-from_be (take 2 (drop 13 bytes)) len_bytes) in
    let written : packet_bytes p ≡ bytes =
      simp (d.payload, d.kind, d.seq, len, seq_back, len_back)
        (rw d.marked at (sym (header_parts bytes d.long))) in
    ground (arith, written, ap length d.payload, rest, small)
