-- ===== src/AndroidStack/Paths.antt =====
-- How a backend is connected: `connect_backend` and what it calls, the pin of the control plane and the
-- catalogue of services, in crates/medium-android-netstack/src/lib.rs. The sockets, the parsers of
-- addresses and serde_json are parameters.
use medium.Common.{
  ℕ, ◌+◌, ◌-◌, ◌*◌, ◌&&◌, List, [], ◌∷◌, ◌++◌, Option, none, some, Bytes, codes, length, drop, leb,
  ◌==◌, if◌then◌else◌, Result, ok, err, ◌>>=◌, ◌>>◌, ensure, ok_or, starts_with, sort_by, Map,
  map_insert,
}
use medium.Netstack.Network.{PublishedService}
use medium.Candidates.{
  CandidateKind, direct_tcp, relay_tcp, wss_relay, PeerCandidate, IceCandidateKind, host, srflx,
  relay, IceCandidate, ice_checklist, by_priority, IpAddr, Network, first_connected,
  ice_candidate_addr, path_of_ice, path_of_legacy,
}
use medium.Candidates as Candidates
use medium.ControlPlane.Grants.{IceSessionGrant, SessionOpenGrant}
use medium.AndroidStack.Backends.{BackendRoute, direct_target, session_grant}

pub record AndroidService : Type 0 where
  pub id : Bytes
  pub label : Option Bytes
  pub kind : Bytes
  pub target : Bytes
  pub grant : Option SessionOpenGrant
  pub control_pin : Option Bytes

pub record ServiceCatalog : Type 0 where
  pub services : List PublishedService
  pub routes : Map BackendRoute

abbrev pub route_by : Bytes → Option Bytes → Option SessionOpenGrant → BackendRoute
route_by target pin none = direct_target target
route_by target pin (some grant) = session_grant grant pin

-- The loop of `parse_services`, with the catalogue so far.
unfoldable pub add_services : List AndroidService → ServiceCatalog → ServiceCatalog
add_services [] c = c
add_services (s ∷ ss) c = add_services ss (record {
  services = c.services ++ record { id = s.id; label = s.label; kind = s.kind } ∷ [];
  routes = map_insert s.id (route_by s.target s.control_pin s.grant) c.routes;
})

unfoldable pub parse_services :
    (Bytes → Option (List AndroidService)) → Bytes → Option ServiceCatalog
parse_services from_json json = elim (from_json json) [
  | none ↦ none
  | some services ↦ some (add_services services (record { services = []; routes = [] }))
]

pub data PinError : Type 0 where
  no_prefix wrong_length invalid_hex : PinError

-- A hexadecimal digit.
unfoldable pub hex_digit : ℕ → Option ℕ
hex_digit c =
    if leb 48 c && leb c 57
    then some (c - 48)
    else if leb 97 c && leb c 102
    then some (c - 87)
    else if leb 65 c && leb c 70
    then some (c - 55)
    else none

abbrev pub two_digits : Option ℕ → Option ℕ → Option ℕ
two_digits (some a) (some b) = some (a * 16 + b)
two_digits (some a) none = none
two_digits none o = none

-- `u8::from_str_radix` of two characters, which takes a plus sign.
unfoldable pub hex_byte : ℕ → ℕ → Option ℕ
hex_byte a b = if a == 43 then hex_digit b else two_digits (hex_digit a) (hex_digit b)

unfoldable pub hex_bytes : Bytes → Result PinError Bytes
hex_bytes [] = ok []
hex_bytes (a ∷ []) = ok []
hex_bytes (a ∷ b ∷ hex) =
    ok_or (hex_byte a b) invalid_hex >>= λ byte. hex_bytes hex >>= λ rest. ok (byte ∷ rest)

unfoldable pub parse_sha256_pin : Bytes → Result PinError Bytes
parse_sha256_pin pin =
    ensure (starts_with pin (codes "sha256:")) no_prefix
    >> (ensure (length (drop 7 pin) == 64) wrong_length >> hex_bytes (drop 7 pin))

-- The parsers, and what becomes of an attempt to connect.
pub record Sockets (E S : Type 0) : Type 0 where
  pub parse_ip : Bytes → Option IpAddr
  pub parse_socket_ip : Bytes → Option IpAddr
  pub show_port : ℕ → Bytes
  pub connect_ice_udp_via_rendezvous : Bytes → Result E S
  pub connect_ice_udp_candidate : Bytes → Result E S
  pub connect_tcp : Bytes → Result E S
  pub connect_wss_relay : Bytes → Result E S

-- What a client writes first on a connection: its greeting to the relay, then that to the node.
unfoldable pub first_lines : Bytes → Bytes → CandidateKind → List Bytes
first_lines relay_hello session_hello direct_tcp = session_hello ∷ []
first_lines relay_hello session_hello relay_tcp = relay_hello ∷ session_hello ∷ []
first_lines relay_hello session_hello wss_relay = relay_hello ∷ session_hello ∷ []

module _ {E S : Type 0} (k : Sockets E S) where
  unfoldable pub connect_session_candidate : PeerCandidate → Result E S
  connect_session_candidate candidate = elim candidate.kind [
    | direct_tcp ↦ k.connect_tcp candidate.addr
    | relay_tcp ↦ k.connect_tcp candidate.addr
    | wss_relay ↦ k.connect_wss_relay candidate.addr
  ]

  abbrev pub connect_ice : Bytes → IceCandidateKind → Result E S
  connect_ice addr relay = k.connect_ice_udp_via_rendezvous addr
  connect_ice addr host = k.connect_ice_udp_candidate addr
  connect_ice addr srflx = k.connect_ice_udp_candidate addr

  -- For the functions of addresses; its attempts are not used.
  abbrev pub addresses : Network E S
  addresses = record {
    parse_ip = k.parse_ip;
    parse_socket_ip = k.parse_socket_ip;
    show_port = k.show_port;
    connect_ice = λ candidate. k.connect_ice_udp_candidate candidate.addr;
    connect_legacy = connect_session_candidate;
  }

  abbrev pub candidates_of : Option IceSessionGrant → Option (List IceCandidate)
  candidates_of none = none
  candidates_of (some ice) = some ice.candidates

  abbrev pub checklist : SessionOpenGrant → Option IceCandidate → List IceCandidate
  checklist grant preferred =
      ice_checklist
        (record {
          candidates = grant.authorization.candidates;
          ice = candidates_of grant.authorization.ice;
        })
        preferred

  -- The stream and the candidate that it was connected with.
  abbrev pub with_candidate :
      Result E S → IceCandidate → Option (S × IceCandidate) → Option (S × IceCandidate)
  with_candidate (ok stream) candidate later = some (stream, candidate)
  with_candidate (err e) candidate later = later

  unfoldable pub first_ice : List IceCandidate → Option (S × IceCandidate)
  first_ice [] = none
  first_ice (c ∷ cs) =
      let addr = ice_candidate_addr addresses c in
      let later = first_ice cs in
      if Candidates.is_unusable_backend_candidate_addr addresses addr
      then later
      else with_candidate (connect_ice addr c.kind) c later

  unfoldable pub try_connect_ice_udp :
      SessionOpenGrant → Option IceCandidate → Option (S × IceCandidate)
  try_connect_ice_udp grant preferred = first_ice (checklist grant preferred)

  abbrev pub attempt : Result E S → (E → Result (Option E) S) → Result (Option E) S
  attempt (ok stream) again = ok stream
  attempt (err e) again = again e

  -- The loop over the other candidates: the first that connects, or the last error.
  unfoldable pub first_candidate : List PeerCandidate → Option E → Result (Option E) S
  first_candidate [] last_error = err last_error
  first_candidate (c ∷ cs) last_error =
      let skipped = first_candidate cs last_error in
      if Candidates.is_unusable_backend_candidate_addr addresses c.addr
      then skipped
      else attempt (connect_session_candidate c) (λ e. first_candidate cs (some e))

  abbrev pub connected :
      Option (S × IceCandidate) → Result (Option E) S → Result (Option E) (S × Option IceCandidate)
  connected (some (stream, candidate)) legacy = ok (stream, some candidate)
  connected none (ok stream) = ok (stream, none)
  connected none (err e) = err e

  unfoldable pub connect_session_grant :
      SessionOpenGrant → Option IceCandidate → Result (Option E) (S × Option IceCandidate)
  connect_session_grant grant preferred =
      connected (try_connect_ice_udp grant preferred)
        (first_candidate (sort_by by_priority grant.authorization.candidates) none)

  abbrev pub direct : Result E S → Result (Option E) (S × Option IceCandidate)
  direct (ok stream) = ok (stream, none)
  direct (err e) = err (some e)

  unfoldable pub connect_route :
      BackendRoute → Option IceCandidate → Result (Option E) (S × Option IceCandidate)
  connect_route (direct_target target) preferred = direct (k.connect_tcp target)
  connect_route (session_grant grant pin) preferred = connect_session_grant grant preferred
