-- ===== src/Candidates.antt =====
-- The choice of a path to a node: the order of the candidates and `connect_session`, of
-- crates/medium-session/src/lib.rs, with the types of crates/overlay-protocol/src/messages.rs.
-- The attempts to connect to one candidate (sockets, TLS, WebSockets) are parameters with their
-- results, as are the parsers of addresses and the decimal form of a port.
pub mod Greeting
mod Orders
mod Sorting
mod Connecting
mod Examples
use Prim.Native.Nat.{compare, Ordering}
use medium.Netstack.Network.{to_ascii_lowercase}
use medium.Common.{
  ℤ, swapped, compare_int, then_with, compare_bytes, not_greater, insert, sort_by, retain, ℕ, ◌+◌,
  Bool, true, false, not, ◌&&◌, ◌||◌, List, [], ◌∷◌, ◌++◌, Option, none, some, Bytes, codes,
  bytes_eq, leb, ◌==◌, if◌then◌else◌, Result, ok, err, map,
}

pub data CandidateKind : Type 0 where
  direct_tcp relay_tcp wss_relay : CandidateKind

unfoldable pub kind_name : CandidateKind → Bytes
kind_name direct_tcp = codes "direct_tcp"
kind_name relay_tcp = codes "relay_tcp"
kind_name wss_relay = codes "wss_relay"

pub record PeerCandidate : Type 0 where
  pub kind : CandidateKind
  pub addr : Bytes
  pub priority : ℤ

pub data IceCandidateKind : Type 0 where
  host srflx relay : IceCandidateKind

unfoldable pub ice_kind_name : IceCandidateKind → Bytes
ice_kind_name host = codes "host"
ice_kind_name srflx = codes "srflx"
ice_kind_name relay = codes "relay"

unfoldable pub ice_kind_rank : IceCandidateKind → ℕ
ice_kind_rank host = 0
ice_kind_rank srflx = 1
ice_kind_rank relay = 2

pub record IceCandidate : Type 0 where
  pub foundation : Bytes
  pub component : ℕ
  pub transport : Bytes
  pub priority : ℕ
  pub addr : Bytes
  pub port : ℕ
  pub kind : IceCandidateKind
  pub related_addr : Option Bytes
  pub related_port : Option ℕ

-- What `connect_session` uses of a grant.
pub record SessionOpenGrant : Type 0 where
  pub candidates : List PeerCandidate
  pub ice : Option (List IceCandidate)

pub data TransportMode : Type 0 where
  automatic relay_only : TransportMode

unfoldable pub is_relay : PeerCandidate → Bool
is_relay c = elim c.kind [ direct_tcp ↦ false | _ ↦ true ]

unfoldable pub by_priority : PeerCandidate → PeerCandidate → Ordering
by_priority left right = compare_int right.priority left.priority

unfoldable pub ordered_legacy_candidates_for_mode :
    SessionOpenGrant → TransportMode → List PeerCandidate
ordered_legacy_candidates_for_mode grant automatic = sort_by by_priority grant.candidates
ordered_legacy_candidates_for_mode grant relay_only =
    sort_by by_priority (retain is_relay grant.candidates)

unfoldable pub eq_ignore_ascii_case : Bytes → Bytes → Bool
eq_ignore_ascii_case a b = bytes_eq (map to_ascii_lowercase a) (map to_ascii_lowercase b)

unfoldable pub same_ice_candidate : IceCandidate → IceCandidate → Bool
same_ice_candidate left right =
    eq_ignore_ascii_case left.transport right.transport
    && ice_kind_rank left.kind == ice_kind_rank right.kind
    && bytes_eq left.addr right.addr
    && left.port == right.port

unfoldable pub candidate_preference_rank : IceCandidate → Option IceCandidate → ℕ
candidate_preference_rank c none = 1
candidate_preference_rank c (some preferred) = if same_ice_candidate c preferred then 0 else 1

unfoldable pub by_preference : Option IceCandidate → IceCandidate → IceCandidate → Ordering
by_preference preferred left right =
    then_with
      (compare (candidate_preference_rank left preferred)
        (candidate_preference_rank right preferred))
      (then_with (compare (ice_kind_rank left.kind) (ice_kind_rank right.kind)) (
        then_with (compare right.priority left.priority)
          (compare_bytes left.foundation right.foundation)))

unfoldable pub is_udp : IceCandidate → Bool
is_udp c = eq_ignore_ascii_case c.transport (codes "udp")

unfoldable pub ice_checklist : SessionOpenGrant → Option IceCandidate → List IceCandidate
ice_checklist grant preferred = elim grant.ice [
  | none ↦ []
  | some candidates ↦ sort_by (by_preference preferred) (retain is_udp candidates)
]

pub data IpAddr : Type 0 where
  v4 : Bytes → IpAddr
  v6 : Bytes → IpAddr

abbrev pub is_benchmark : Bytes → Bool
is_benchmark (a ∷ b ∷ rest) = a == 198 && (b == 18 || b == 19)
is_benchmark _ = false

abbrev pub is_loopback_v4 : Bytes → Bool
is_loopback_v4 (a ∷ rest) = a == 127
is_loopback_v4 [] = false

unfoldable pub is_unusable_ip : IpAddr → Bool
is_unusable_ip (v4 octets) =
    bytes_eq octets (0 ∷ 0 ∷ 0 ∷ 0 ∷ []) || is_loopback_v4 octets || is_benchmark octets
is_unusable_ip (v6 octets) =
    bytes_eq octets (0 ∷ 0 ∷ 0 ∷ 0 ∷ 0 ∷ 0 ∷ 0 ∷ 0 ∷ 0 ∷ 0 ∷ 0 ∷ 0 ∷ 0 ∷ 0 ∷ 0 ∷ 0 ∷ [])
    || bytes_eq octets (0 ∷ 0 ∷ 0 ∷ 0 ∷ 0 ∷ 0 ∷ 0 ∷ 0 ∷ 0 ∷ 0 ∷ 0 ∷ 0 ∷ 0 ∷ 0 ∷ 0 ∷ 1 ∷ [])

pub record SelectedPath : Type 0 where
  pub kind : Bytes
  pub addr : Bytes

-- The network: the parsers of addresses, and what becomes of an attempt with a candidate.
pub record Network (E S : Type 0) : Type 0 where
  pub parse_ip : Bytes → Option IpAddr
  pub parse_socket_ip : Bytes → Option IpAddr
  pub show_port : ℕ → Bytes
  pub connect_ice : IceCandidate → Result E S
  pub connect_legacy : PeerCandidate → Result E S

pub data ConnectError (E : Type 0) : Type 0 where
  failed : E → ConnectError E
  no_relay_candidates no_candidates : ConnectError E

module _ {E S : Type 0} (n : Network E S) where
  unfoldable pub is_unusable_backend_candidate_addr : Bytes → Bool
  is_unusable_backend_candidate_addr addr = elim (n.parse_socket_ip addr) [
    | none ↦ false
    | some ip ↦ is_unusable_ip ip
  ]

  unfoldable pub ice_candidate_addr : IceCandidate → Bytes
  ice_candidate_addr c = elim (n.parse_ip c.addr) [
    | some (v6 octets) ↦ codes "[" ++ c.addr ++ codes "]:" ++ n.show_port c.port
    | _ ↦ c.addr ++ codes ":" ++ n.show_port c.port
  ]

  abbrev pub path_of_ice : IceCandidate → SelectedPath
  path_of_ice c = record {
    kind = codes "ice_udp/" ++ ice_kind_name c.kind;
    addr = ice_candidate_addr c;
  }

  abbrev pub path_of_legacy : PeerCandidate → SelectedPath
  path_of_legacy c = record { kind = kind_name c.kind; addr = c.addr }

  module _ {C : Type 0} (address : C → Bytes) (connect : C → Result E S)
      (path : C → SelectedPath) where
    abbrev pub attempt :
        Result E S
        → C
        → (E → Result (Option E) (S × SelectedPath))
        → Result (Option E) (S × SelectedPath)
    attempt (ok stream) c again = ok (stream, path c)
    attempt (err e) c again = again e

    -- The loop over candidates: the first that connects, or the error of the last that was tried.
    unfoldable pub first_connected : List C → Option E → Result (Option E) (S × SelectedPath)
    first_connected [] last_error = err last_error
    first_connected (c ∷ cs) last_error =
        let skipped = first_connected cs last_error in
        if is_unusable_backend_candidate_addr (address c)
        then skipped
        else attempt (connect c) c (λ e. first_connected cs (some e))

  abbrev pub or_none : Result (Option E) (S × SelectedPath) → Option (S × SelectedPath)
  or_none (ok connected) = some connected
  or_none (err last_error) = none

  unfoldable pub try_connect_ice_udp :
      SessionOpenGrant → Option IceCandidate → Option (S × SelectedPath)
  try_connect_ice_udp grant preferred = or_none (
      first_connected ice_candidate_addr n.connect_ice path_of_ice (ice_checklist grant preferred)
        none)

  abbrev pub error_for : TransportMode → Option E → ConnectError E
  error_for mode (some e) = failed e
  error_for relay_only none = no_relay_candidates
  error_for automatic none = no_candidates

  abbrev pub or_error :
      TransportMode
      → Result (Option E) (S × SelectedPath)
      → Result (ConnectError E) (S × SelectedPath)
  or_error mode (ok connected) = ok connected
  or_error mode (err last_error) = err (error_for mode last_error)

  unfoldable pub connect_legacy_candidate :
      SessionOpenGrant → TransportMode → Result (ConnectError E) (S × SelectedPath)
  connect_legacy_candidate grant mode = or_error mode (
      first_connected (λ c. c.addr) n.connect_legacy path_of_legacy
        (ordered_legacy_candidates_for_mode grant mode) none)

  abbrev pub or_legacy :
      Option (S × SelectedPath)
      → Result (ConnectError E) (S × SelectedPath)
      → Result (ConnectError E) (S × SelectedPath)
  or_legacy (some connected) legacy = ok connected
  or_legacy none legacy = legacy

  unfoldable pub connect_session :
      SessionOpenGrant
      → TransportMode
      → Option IceCandidate
      → Result (ConnectError E) (S × SelectedPath)
  connect_session grant automatic preferred =
      or_legacy (try_connect_ice_udp grant preferred) (connect_legacy_candidate grant automatic)
  connect_session grant relay_only preferred = connect_legacy_candidate grant relay_only
