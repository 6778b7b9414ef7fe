-- ===== src/Candidates/Sorting.antt =====
-- The order in which the candidates of a grant are tried.
use medium.Netstack.Network.{to_ascii_lowercase}
use medium.Candidates.Orders.{Falls, by_priority-Falls, InOrder, by_preference-InOrder}
use medium.Common.{
  Chain, IsSorted-Chain, count-same, ap, false, ◌≢◌, map, codes, bytes_eq, swapped, sort_by, retain,
  count, count-retain, All-retain, count-sort_by, sort_by-All, sort_by-IsSorted, compare-swapped,
  compare_int-swapped, then_with-swapped, compare_bytes-swapped, ◌≡◌, refl, ◌∙◌, Bool, true, ◌&&◌,
  List, [], Option, none, some, All,
}
use medium.Candidates.{
  CandidateKind, direct_tcp, relay_tcp, wss_relay, eq_ignore_ascii_case, PeerCandidate,
  IceCandidate, SessionOpenGrant, TransportMode, automatic, relay_only, is_relay, is_udp,
  by_priority, by_preference, candidate_preference_rank, ice_kind_rank,
  ordered_legacy_candidates_for_mode, ice_checklist,
}

by_priority-swapped : (a b : PeerCandidate) → by_priority b a ≡ swapped (by_priority a b)
unfolding by_priority
by_priority-swapped a b = compare_int-swapped b.priority a.priority

by_preference-swapped :
    (preferred : Option IceCandidate) (a b : IceCandidate)
    → by_preference preferred b a ≡ swapped (by_preference preferred a b)
unfolding by_preference
by_preference-swapped preferred a b =
    then_with-swapped _ _ _ _
      (compare-swapped (candidate_preference_rank a preferred)
        (candidate_preference_rank b preferred))
      (then_with-swapped _ _ _ _ (compare-swapped (ice_kind_rank a.kind) (ice_kind_rank b.kind)) (
        then_with-swapped _ _ _ _ (compare-swapped b.priority a.priority)
          (compare_bytes-swapped a.foundation b.foundation)))

-- Where only relays may be used, direct candidates may not.
abbrev pub allowed : TransportMode → PeerCandidate → Bool
allowed automatic c = true
allowed relay_only c = elim c.kind [ direct_tcp ↦ false | relay_tcp ↦ true | wss_relay ↦ true ]

is_relay-allowed : (c : PeerCandidate) → is_relay c ≡ allowed relay_only c
unfolding is_relay
is_relay-allowed c = by_kind c.kind
  where
    by_kind :
        (k : CandidateKind)
        → elim k [ direct_tcp ↦ false | _ ↦ true ]
          ≡ elim k [ direct_tcp ↦ false | relay_tcp ↦ true | wss_relay ↦ true ]
    by_kind direct_tcp = refl
    by_kind relay_tcp = refl
    by_kind wss_relay = refl

-- The legacy candidates are tried in the order of falling priority, each of the grant as often as
-- it stands there; where only relays may be used, only those that are not direct.
pub ordered_legacy_candidates_for_mode_lem :
    (grant : SessionOpenGrant) (mode : TransportMode)
    → Chain Falls (ordered_legacy_candidates_for_mode grant mode)
      × ((p : PeerCandidate → Bool)
          → count p (ordered_legacy_candidates_for_mode grant mode)
            ≡ count (λ c. allowed mode c && p c) grant.candidates)
unfolding ordered_legacy_candidates_for_mode
ordered_legacy_candidates_for_mode_lem grant automatic = (
  IsSorted-Chain by_priority Falls _ by_priority-Falls
      (sort_by-IsSorted by_priority by_priority-swapped grant.candidates),
  λ p. count-sort_by by_priority p grant.candidates,
)
ordered_legacy_candidates_for_mode_lem grant relay_only = (
  IsSorted-Chain by_priority Falls _ by_priority-Falls
      (sort_by-IsSorted by_priority by_priority-swapped (retain is_relay grant.candidates)),
  λ p.
      count-sort_by by_priority p (retain is_relay grant.candidates)
      ∙ count-retain p is_relay grant.candidates
      ∙ count-same (λ c. is_relay c && p c) (λ c. allowed relay_only c && p c) grant.candidates
          (λ c. ap (λ b. b && p c) (is_relay-allowed c)),
)

abbrev pub ice_candidates : SessionOpenGrant → List IceCandidate
ice_candidates grant = elim grant.ice [ none ↦ [] | some candidates ↦ candidates ]

-- The transport is `udp`, in any case of its letters.
abbrev pub over_udp : IceCandidate → Bool
over_udp c = bytes_eq (map to_ascii_lowercase c.transport) (codes "udp")

-- The ICE candidates for UDP are tried in order: the preferred one first, then those of the host, the
-- reflexive and the relayed ones, within a kind by falling priority and then by foundation; each of
-- the grant as often as it stands there.
pub ice_checklist_lem :
    (grant : SessionOpenGrant) (preferred : Option IceCandidate)
    → Chain (InOrder preferred) (ice_checklist grant preferred)
      × ((p : IceCandidate → Bool)
          → count p (ice_checklist grant preferred)
            ≡ count (λ c. over_udp c && p c) (ice_candidates grant))
unfolding ice_checklist count is_udp eq_ignore_ascii_case to_ascii_lowercase
ice_checklist_lem grant preferred = by_ice grant.ice
  where
    listed : Option (List IceCandidate) → List IceCandidate
    listed o = elim o [
      | none ↦ []
      | some candidates ↦ sort_by (by_preference preferred) (retain is_udp candidates)
    ]

    by_ice :
        (o : Option (List IceCandidate))
        → Chain (InOrder preferred) (listed o)
          × ((p : IceCandidate → Bool)
              → count p (listed o)
                ≡ count
                    (λ c. over_udp c && p c)
                    (elim o [ none ↦ [] | some candidates ↦ candidates ]))
    by_ice none = (tt, λ p. refl)
    by_ice (some candidates) = (
      IsSorted-Chain (by_preference preferred) (InOrder preferred) _
          (by_preference-InOrder preferred)
          (sort_by-IsSorted (by_preference preferred) (by_preference-swapped preferred)
            (retain is_udp candidates)),
      λ p.
          count-sort_by (by_preference preferred) p (retain is_udp candidates)
          ∙ count-retain p is_udp candidates,
    )

not_direct : (c : PeerCandidate) → is_relay c ≡ true → c.kind ≢ direct_tcp
unfolding is_relay
not_direct c e = by_kind c.kind e
  where
    by_kind : (k : CandidateKind) → elim k [ direct_tcp ↦ false | _ ↦ true ] ≡ true → k ≢ direct_tcp
    by_kind direct_tcp e f = cc
    by_kind relay_tcp e f = cc
    by_kind wss_relay e f = cc

pub relay_only-All :
    (grant : SessionOpenGrant)
    → All (λ c. c.kind ≢ direct_tcp) (ordered_legacy_candidates_for_mode grant relay_only)
unfolding ordered_legacy_candidates_for_mode
relay_only-All grant =
    sort_by-All by_priority _ (retain is_relay grant.candidates)
      (All-retain _ is_relay grant.candidates not_direct)
