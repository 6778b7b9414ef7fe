-- ===== src/Candidates/Examples.antt =====
-- The theorems about the candidates at concrete inputs, and tests of the definitions.
use medium.Common.{
  pos, negsuc, sort_by, insert, retain, compare_int, count, Chain, ◌≢◌, ℕ, ◌≡◌, refl, Bool, ◌&&◌,
  [], ◌∷◌, none, some, Bytes, bytes_eq, codes, ok, if◌then◌else◌,
}
use medium.Netstack.Network.{to_ascii_lowercase}
use medium.Candidates.{
  PeerCandidate, direct_tcp, relay_tcp, IceCandidate, host, SessionOpenGrant, automatic, relay_only,
  v4, SelectedPath, Network, by_priority, is_relay, is_udp, eq_ignore_ascii_case, kind_name,
  ice_kind_name, path_of_legacy, ordered_legacy_candidates_for_mode, ice_checklist, connect_session,
  connect_legacy_candidate, try_connect_ice_udp, first_connected,
  is_unusable_backend_candidate_addr, is_unusable_ip, ice_candidate_addr,
}
use medium.Candidates.Orders.{Falls, InOrder}
use medium.Candidates.Sorting.{
  allowed, ice_candidates, over_udp, ordered_legacy_candidates_for_mode_lem, ice_checklist_lem,
}
use medium.Candidates.Connecting.{
  SessionOutcome, connect_session-SessionOutcome, connect_session_uses_relay,
}

abbrev direct : PeerCandidate
direct = record { kind = direct_tcp; addr = codes "d"; priority = pos 5 }

abbrev relayed : PeerCandidate
relayed = record { kind = relay_tcp; addr = codes "r"; priority = negsuc 0 }

abbrev ice_host : IceCandidate
ice_host = record {
  foundation = codes "h";
  component = 1;
  transport = codes "UDP";
  priority = 7;
  addr = codes "l";
  port = 9;
  kind = host;
  related_addr = none;
  related_port = none;
}

abbrev grant : SessionOpenGrant
grant = record { candidates = relayed ∷ direct ∷ []; ice = some (ice_host ∷ []) }

-- Every address but `l:9` can be used; a stream is the address that it is connected to.
abbrev network : Network ℕ Bytes
network = record {
  parse_ip = λ a. some (v4 (127 ∷ 0 ∷ 0 ∷ 1 ∷ []));
  parse_socket_ip =
      λ a. if bytes_eq a (codes "l:9") then some (v4 (127 ∷ 0 ∷ 0 ∷ 1 ∷ [])) else none;
  show_port = λ port. codes "9";
  connect_ice = λ c. ok c.addr;
  connect_legacy = λ c. ok c.addr;
}

ordered_legacy_candidates_for_mode_lem_example :
    Chain Falls (ordered_legacy_candidates_for_mode grant relay_only)
    × ((p : PeerCandidate → Bool)
        → count p (ordered_legacy_candidates_for_mode grant relay_only)
          ≡ count (λ c. allowed relay_only c && p c) grant.candidates)
ordered_legacy_candidates_for_mode_lem_example =
    ordered_legacy_candidates_for_mode_lem grant relay_only

ice_checklist_lem_example :
    Chain (InOrder (some ice_host)) (ice_checklist grant (some ice_host))
    × ((p : IceCandidate → Bool)
        → count p (ice_checklist grant (some ice_host))
          ≡ count (λ c. over_udp c && p c) (ice_candidates grant))
ice_checklist_lem_example = ice_checklist_lem grant (some ice_host)

connect_session-SessionOutcome_example :
    SessionOutcome network grant automatic none (connect_session network grant automatic none)
connect_session-SessionOutcome_example = connect_session-SessionOutcome network grant automatic none

-- The address of the ICE candidate cannot be used, and the direct one has the highest priority.
automatic_test :
    connect_session network grant automatic none
    ≡ ok (codes "d", record { kind = codes "direct_tcp"; addr = codes "d" })
unfolding connect_session connect_legacy_candidate try_connect_ice_udp first_connected
    ordered_legacy_candidates_for_mode ice_checklist sort_by insert retain by_priority compare_int
    is_udp eq_ignore_ascii_case to_ascii_lowercase bytes_eq is_unusable_backend_candidate_addr
    is_unusable_ip ice_candidate_addr kind_name ice_kind_name
automatic_test = refl

abbrev relayed_path : SelectedPath
relayed_path = record { kind = codes "relay_tcp"; addr = codes "r" }

relay_only_result : connect_session network grant relay_only none ≡ ok (codes "r", relayed_path)
unfolding connect_session connect_legacy_candidate first_connected
    ordered_legacy_candidates_for_mode sort_by insert retain is_relay by_priority compare_int
    is_unusable_backend_candidate_addr is_unusable_ip bytes_eq kind_name
relay_only_result = refl

connect_session_uses_relay_example :
    (c : PeerCandidate) × (c.kind ≢ direct_tcp)
    × (network.connect_legacy c ≡ ok (codes "r"))
    × (relayed_path ≡ path_of_legacy network c)
connect_session_uses_relay_example =
    connect_session_uses_relay network grant none (codes "r", relayed_path) relay_only_result
