-- ===== src/Candidates/Connecting.antt =====
-- Which candidate `connect_session` ends with.
use medium.Common.{
  ◌≡◌, ◌≢◌, ◌⊎◌, refl, ap, inl, inr, true, false, List, [], ◌∷◌, ◌++◌, Option, none, some, Bytes,
  All, Bool-cases, Result, ok, err,
}
use medium.Candidates.{
  PeerCandidate, IceCandidate, SessionOpenGrant, TransportMode, automatic, relay_only, SelectedPath,
  Network, ConnectError, is_unusable_backend_candidate_addr, ice_candidate_addr, path_of_ice,
  path_of_legacy, attempt, first_connected, or_none, try_connect_ice_udp, or_error,
  connect_legacy_candidate, or_legacy, connect_session, ordered_legacy_candidates_for_mode,
  ice_checklist, direct_tcp,
}
use medium.Candidates.Sorting.{relay_only-All}

module _ {E S : Type 0} (n : Network E S) where
  module _ {C : Type 0} (address : C → Bytes) (connect : C → Result E S)
      (path : C → SelectedPath) where
    -- The candidate is skipped, or the attempt with it fails.
    abbrev pub Fails : C → Type 0
    Fails c =
        (is_unusable_backend_candidate_addr n (address c) ≡ true) ⊎ ((e : E) × (connect c ≡ err e))

    -- This is the stream of the first candidate that can be connected to, and its path.
    pub record First (cs : List C) (x : S × SelectedPath) : Type 0 where
      before : List C
      c : C
      after : List C
      split : cs ≡ before ++ c ∷ after
      failed_before : All Fails before
      usable : is_unusable_backend_candidate_addr n (address c) ≡ false
      connects : connect c ≡ ok x.0
      of_path : x.1 ≡ path c

    abbrev pub Outcome : List C → Result (Option E) (S × SelectedPath) → Type 0
    Outcome cs (ok x) = First cs x
    Outcome cs (err last_error) = All Fails cs

    later :
        (c : C) (cs : List C) (r : Result (Option E) (S × SelectedPath))
        → Fails c
        → Outcome cs r
        → Outcome (c ∷ cs) r
    later c cs (ok x) f h = record {
      before = c ∷ h.before;
      c = h.c;
      after = h.after;
      split = ap (λ l. c ∷ l) h.split;
      failed_before = (f, h.failed_before);
      usable = h.usable;
      connects = h.connects;
      of_path = h.of_path;
    }
    later c cs (err e) f h = (f, h)

    attempt-Outcome :
        (c : C) (cs : List C) (r : Result E S) (again : E → Result (Option E) (S × SelectedPath))
        → is_unusable_backend_candidate_addr n (address c) ≡ false
        → connect c ≡ r
        → ((e : E) → Outcome cs (again e))
        → Outcome (c ∷ cs) (attempt n address connect path r c again)
    attempt-Outcome c cs (ok s) again usable got next = record {
      before = [];
      c = c;
      after = cs;
      split = refl;
      failed_before = tt;
      usable = usable;
      connects = got;
      of_path = refl;
    }
    attempt-Outcome c cs (err e) again usable got next =
        later c cs (again e) (inr (e, got)) (next e)

    first_connected-Outcome :
        (cs : List C) (last_error : Option E)
        → Outcome cs (first_connected n address connect path cs last_error)
    unfolding first_connected
    first_connected-Outcome [] last_error = tt
    first_connected-Outcome (c ∷ cs) last_error =
        elim (Bool-cases (is_unusable_backend_candidate_addr n (address c))) [
          | inl skip ↦ rw skip (later c cs _ (inl skip) (first_connected-Outcome cs last_error))
          | inr usable ↦ rw usable (
              attempt-Outcome c cs (connect c) _ usable refl
                (λ e. first_connected-Outcome cs (some e)))
        ]

  abbrev pub FirstIce : SessionOpenGrant → Option IceCandidate → S × SelectedPath → Type 0
  FirstIce grant preferred x =
      First (ice_candidate_addr n) n.connect_ice (path_of_ice n) (ice_checklist grant preferred) x

  abbrev pub NoIce : SessionOpenGrant → Option IceCandidate → Type 0
  NoIce grant preferred =
      All (Fails (ice_candidate_addr n) n.connect_ice (path_of_ice n))
        (ice_checklist grant preferred)

  abbrev pub FirstLegacy : SessionOpenGrant → TransportMode → S × SelectedPath → Type 0
  FirstLegacy grant mode x =
      First (λ c. c.addr) n.connect_legacy (path_of_legacy n)
        (ordered_legacy_candidates_for_mode grant mode) x

  abbrev pub NoLegacy : SessionOpenGrant → TransportMode → Type 0
  NoLegacy grant mode =
      All (Fails (λ c. c.addr) n.connect_legacy (path_of_legacy n))
        (ordered_legacy_candidates_for_mode grant mode)

  abbrev pub LegacyOutcome :
      SessionOpenGrant → TransportMode → Result (ConnectError E) (S × SelectedPath) → Type 0
  LegacyOutcome grant mode (ok x) = FirstLegacy grant mode x
  LegacyOutcome grant mode (err e) = NoLegacy grant mode

  -- What `connect_session` comes to.
  abbrev pub SessionOutcome :
      SessionOpenGrant
      → TransportMode
      → Option IceCandidate
      → Result (ConnectError E) (S × SelectedPath)
      → Type 0
  SessionOutcome grant relay_only preferred r = LegacyOutcome grant relay_only r
  SessionOutcome grant automatic preferred r =
      ((x : S × SelectedPath) × (r ≡ ok x) × FirstIce grant preferred x)
      ⊎ (NoIce grant preferred × LegacyOutcome grant automatic r)

  or_error-LegacyOutcome :
      (grant : SessionOpenGrant) (mode : TransportMode) (r : Result (Option E) (S × SelectedPath))
      → Outcome
          (λ c. c.addr)
          n.connect_legacy
          (path_of_legacy n)
          (ordered_legacy_candidates_for_mode grant mode)
          r
      → LegacyOutcome grant mode (or_error n mode r)
  or_error-LegacyOutcome grant mode (ok x) h = h
  or_error-LegacyOutcome grant mode (err e) h = h

  connect_legacy_candidate-LegacyOutcome :
      (grant : SessionOpenGrant) (mode : TransportMode)
      → LegacyOutcome grant mode (connect_legacy_candidate n grant mode)
  unfolding connect_legacy_candidate
  connect_legacy_candidate-LegacyOutcome grant mode = or_error-LegacyOutcome grant mode _ (
      first_connected-Outcome (λ c. c.addr) n.connect_legacy (path_of_legacy n)
        (ordered_legacy_candidates_for_mode grant mode) none)

  or_legacy-SessionOutcome :
      (grant : SessionOpenGrant) (preferred : Option IceCandidate)
      (r : Result (Option E) (S × SelectedPath))
      (legacy : Result (ConnectError E) (S × SelectedPath))
      → Outcome
          (ice_candidate_addr n)
          n.connect_ice
          (path_of_ice n)
          (ice_checklist grant preferred)
          r
      → LegacyOutcome grant automatic legacy
      → SessionOutcome grant automatic preferred (or_legacy n (or_none n r) legacy)
  or_legacy-SessionOutcome grant preferred (ok x) legacy h k = inl (x, refl, h)
  or_legacy-SessionOutcome grant preferred (err e) legacy h k = inr (h, k)

  -- `connect_session` ends with the first candidate that can be connected to, in the order of the ICE
  -- checklist and then of the legacy candidates, where those before it failed or have an address that
  -- cannot be used; it fails only if all of them do. ICE is not tried where only relays may be used.
  pub connect_session-SessionOutcome :
      (grant : SessionOpenGrant) (mode : TransportMode) (preferred : Option IceCandidate)
      → SessionOutcome grant mode preferred (connect_session n grant mode preferred)
  unfolding connect_session try_connect_ice_udp
  connect_session-SessionOutcome grant relay_only preferred =
      connect_legacy_candidate-LegacyOutcome grant relay_only
  connect_session-SessionOutcome grant automatic preferred =
      or_legacy-SessionOutcome grant preferred _ _
        (first_connected-Outcome (ice_candidate_addr n) n.connect_ice (path_of_ice n)
          (ice_checklist grant preferred) none)
        (connect_legacy_candidate-LegacyOutcome grant automatic)

  All-middle :
      {C : Type 0} (P : C → Type 0) (before after : List C) (c : C)
      → All P (before ++ c ∷ after)
      → P c
  All-middle P [] after c h = h.0
  All-middle P (x ∷ before) after c h = All-middle P before after c h.1

  -- Where only relays may be used, `connect_session` ends with a candidate that is not direct, if with
  -- any.
  pub connect_session_uses_relay :
      (grant : SessionOpenGrant) (preferred : Option IceCandidate) (x : S × SelectedPath)
      → connect_session n grant relay_only preferred ≡ ok x
      → (c : PeerCandidate) × (c.kind ≢ direct_tcp)
        × (n.connect_legacy c ≡ ok x.0)
        × (x.1 ≡ path_of_legacy n c)
  connect_session_uses_relay grant preferred x e =
      let first : FirstLegacy grant relay_only x =
        rw e at (connect_session-SessionOutcome grant relay_only preferred) in
      (
        first.c,
        All-middle (λ c. c.kind ≢ direct_tcp) first.before first.after first.c
            (rw first.split at (relay_only-All grant)),
        first.connects,
        first.of_path,
      )
