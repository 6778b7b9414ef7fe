-- ===== src/Netstack/Dns.antt =====
-- The DNS answers of the virtual network: module `dns` of crates/medium-netstack/src/lib.rs.
-- What `str::from_utf8` makes of bytes is a parameter.
use medium.Common.{
  ℕ, zero, suc, ◌+◌, Bool, true, ◌&&◌, ◌||◌, false, List, [], ◌∷◌, ◌++◌, map, Option, none, some,
  Bytes, be_bytes, from_be, length, get_elem?, take, drop, ltb, ◌==◌, not, if◌then◌else◌,
}
use medium.Netstack.Network.{
  Text, Ipv4Address, VirtualService, VirtualNetwork, resolve_hostname, to_ascii_lowercase, dot,
}

pub record DnsQuery : Type 0 where
  pub name : Text
  pub qtype : ℕ
  pub qclass : ℕ
  pub question_end : ℕ

abbrev pub type_a : ℕ
type_a = 1

abbrev pub class_in : ℕ
class_in = 1

abbrev pub no_error : ℕ
no_error = 33152

abbrev pub name_error : ℕ
name_error = 33155

-- `copy_from_slice` into a slice that starts at `i`.
unfoldable pub patch : ℕ → Bytes → Bytes → Bytes
patch i bs xs = take i xs ++ bs ++ drop (i + length bs) xs

-- `labels.join(".")`.
unfoldable pub join_dot : List Text → Text
join_dot [] = []
join_dot (l ∷ []) = l
join_dot (l ∷ m ∷ ls) = l ++ dot ∷ join_dot (m ∷ ls)

abbrev pub then_label : Option Text → (Text → Option (List Text × ℕ)) → Option (List Text × ℕ)
then_label none f = none
then_label (some l) f = f l

abbrev pub add_label : Text → Option (List Text × ℕ) → Option (List Text × ℕ)
add_label l none = none
add_label l (some (ls, offset)) = some (l ∷ ls, offset)

abbrev pub on_length :
    (Bytes → Option Text)
    → Bytes
    → ℕ
    → (ℕ → Option (List Text × ℕ))
    → Option ℕ
    → Option (List Text × ℕ)
on_length from_utf8 packet offset again none = none
on_length from_utf8 packet offset again (some len) =
    if len == 0
    then some ([], offset)
    else if ltb 63 len || ltb (length packet) (offset + len)
    then none
    else then_label (from_utf8 (take len (drop offset packet)))
        (λ l. add_label l (again (offset + len)))

-- The loop of `parse_query` from an offset on: the labels, and the offset after them.
unfoldable pub read_labels : (Bytes → Option Text) → ℕ → Bytes → ℕ → Option (List Text × ℕ)
read_labels from_utf8 zero packet offset = none
read_labels from_utf8 (suc fuel) packet offset =
    on_length from_utf8 packet (offset + 1) (read_labels from_utf8 fuel packet)
      (get_elem? packet offset)

abbrev pub question : Bytes → Option (List Text × ℕ) → Option DnsQuery
question packet none = none
question packet (some (labels, offset)) =
    if ltb (length packet) (offset + 4)
    then none
    else some (record {
      name = map to_ascii_lowercase (join_dot labels);
      qtype = from_be (take 2 (drop offset packet));
      qclass = from_be (take 2 (drop (offset + 2) packet));
      question_end = offset + 4;
    })

unfoldable pub parse_query : (Bytes → Option Text) → Bytes → Option DnsQuery
parse_query from_utf8 packet =
    if ltb (length packet) 12 || not (from_be (take 2 (drop 4 packet)) == 1)
    then none
    else question packet (read_labels from_utf8 (suc (length packet)) packet 12)

abbrev pub flags_of : Option Ipv4Address → ℕ
flags_of none = name_error
flags_of (some addr) = no_error

abbrev pub count_of : Option Ipv4Address → ℕ
count_of none = 0
count_of (some addr) = 1

unfoldable pub answer_record : Option Ipv4Address → Bytes
answer_record none = []
answer_record (some addr) =
    192 ∷ 12 ∷ be_bytes 2 type_a ++ be_bytes 2 class_in ++ be_bytes 4 30 ++ be_bytes 2 4 ++ addr

unfoldable pub emit_response : Bytes → DnsQuery → Option Ipv4Address → Bytes
emit_response request query addr =
    let echoed = take query.question_end request in
    let flagged = patch 2 (be_bytes 2 (flags_of addr)) echoed in
    let counted = patch 6 (be_bytes 2 (count_of addr)) flagged in
    let response = patch 10 (be_bytes 2 0) (patch 8 (be_bytes 2 0) counted) in
    response ++ answer_record addr

abbrev pub addr_of : Option VirtualService → Bool → Option Ipv4Address
addr_of (some s) true = some s.addr
addr_of _ _ = none

abbrev pub reply : VirtualNetwork → Bytes → Option DnsQuery → Option Bytes
reply network packet none = none
reply network packet (some query) =
    let addr =
      addr_of (resolve_hostname network query.name)
        (query.qtype == type_a && query.qclass == class_in) in
    some (emit_response packet query addr)

unfoldable pub answer_query : (Bytes → Option Text) → Bytes → VirtualNetwork → Option Bytes
answer_query from_utf8 packet network = reply network packet (parse_query from_utf8 packet)

module _ {E S : Type 0} (send : Bytes → E → S → Option S) where
  -- The reply to a sender: nothing is sent where there is none; `none` where the call fails.
  abbrev pub send_reply : E → Option Bytes → S → Option S
  send_reply remote none s = some s
  send_reply remote (some response) s = send response remote s

  -- Takes what waits, with its sender, till a reply cannot be sent: whether all went, what still waits,
  -- and the socket.
  unfoldable pub pump_dns :
      (Bytes → Option Text) → VirtualNetwork → List (Bytes × E) → S → Bool × List (Bytes × E) × S
  pump_dns from_utf8 network [] s = (true, [], s)
  pump_dns from_utf8 network ((packet, remote) ∷ waiting) s =
      elim (send_reply remote (answer_query from_utf8 packet network) s) [
        | none ↦ (false, waiting, s)
        | some t ↦ pump_dns from_utf8 network waiting t
      ]
