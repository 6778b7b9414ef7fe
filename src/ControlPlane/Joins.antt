-- ===== src/ControlPlane/Joins.antt =====
-- The pairs that the queries of services/control-plane/src/registry.rs join and choose from.
use mathlib.Core.List.{append-nil}
use medium.Common.{
  ◌≡◌, refl, ap, ◌∙◌, inl, inr, Bool, true, false, ◌&&◌, List, [], ◌∷◌, ◌++◌, map, Option, none,
  some, any, Bytes, bytes_eq, bytes_eq_iff, Bool-cases, if◌then◌else◌, retain, retain-append,
  retain-none, retain-map,
}
use medium.ControlPlane.Registry.{
  tcp_proxy, PublishedService, EndpointRow, ServiceRow, endpoint_of, service_of, service_row, join,
  is_endpoint,
}
use medium.ControlPlane.Registering.{distinct_ids}
use medium.ControlPlane.Requests.{published}

abbrev pub wanted : Bytes → Bytes → ServiceRow → Bool
wanted n v r = bytes_eq r.node_id n && bytes_eq r.id v

-- The pairs of a row of the service and an endpoint.
abbrev pub chosen : Bytes → List ServiceRow → List EndpointRow → List (ServiceRow × EndpointRow)
chosen v [] ts = []
chosen v (s ∷ ss) ts =
    if bytes_eq s.id v then map (λ e. (s, e)) ts ++ chosen v ss ts else chosen v ss ts

-- The part of the join for one row.
module _ (n v : Bytes) (es : List EndpointRow) where
  abbrev row_part : ServiceRow → List (ServiceRow × EndpointRow)
  row_part s =
      retain (λ r. wanted n v r.0 && is_endpoint tcp_proxy r.1)
        (map (λ e. (s, e)) (retain (endpoint_of s.node_id) es))

  row_part-skipped : (s : ServiceRow) → wanted n v s ≡ false → row_part s ≡ []
  row_part-skipped s h =
      retain-map (λ (e : EndpointRow). (s, e)) _ (retain (endpoint_of s.node_id) es)
      ∙ rw h (rw (retain-none (retain (endpoint_of s.node_id) es)) refl)

  row_part-wanted :
      (s : ServiceRow)
      → wanted n v s ≡ true
      → s.node_id ≡ n
      → row_part s ≡ map (λ e. (s, e)) (retain (is_endpoint tcp_proxy) (retain (endpoint_of n) es))
  row_part-wanted s h e =
      retain-map (λ (e : EndpointRow). (s, e)) _ (retain (endpoint_of s.node_id) es)
      ∙ rw h (
          ap
            (λ (m : Bytes).
              map (λ (e : EndpointRow). (s, e))
                (retain (is_endpoint tcp_proxy) (retain (endpoint_of m) es)))
            e)

  abbrev pub own_tcp : List EndpointRow
  own_tcp = retain (is_endpoint tcp_proxy) (retain (endpoint_of n) es)

  row_part-chosen :
      (s : ServiceRow) (ss : List ServiceRow)
      → row_part s ++ chosen v (retain (service_of n) ss) own_tcp
        ≡ chosen v (retain (service_of n) (s ∷ ss)) own_tcp
  unfolding service_of retain
  row_part-chosen s ss = elim (Bool-cases (bytes_eq s.node_id n)) [
    | inl e ↦ elim (Bool-cases (bytes_eq s.id v)) [
      | inl f ↦
          ap (λ l. l ++ chosen v (retain (service_of n) ss) own_tcp)
            (row_part-wanted s (rw (e, f) refl) ((bytes_eq_iff s.node_id n).0 e))
          ∙ rw (e, f) refl
      | inr f ↦
          ap (λ l. l ++ chosen v (retain (service_of n) ss) own_tcp)
            (row_part-skipped s (rw (e, f) refl))
          ∙ rw (e, f) refl
    ]
    | inr e ↦
        ap (λ l. l ++ chosen v (retain (service_of n) ss) own_tcp) (row_part-skipped s (rw e refl))
        ∙ rw e refl
  ]

  pub rows-chosen :
      (ss : List ServiceRow)
      → retain (λ r. wanted n v r.0 && is_endpoint tcp_proxy r.1) (join ss es)
        ≡ chosen v (retain (service_of n) ss) own_tcp
  unfolding join retain
  rows-chosen [] = refl
  rows-chosen (s ∷ ss) =
      retain-append _ (map (λ e. (s, e)) (retain (endpoint_of s.node_id) es)) (join ss es)
      ∙ ap (λ l. row_part s ++ l) (rows-chosen ss)
      ∙ row_part-chosen s ss

-- The rows of a request.
chosen-nothing :
    (n v id : Bytes) (ss : List PublishedService) (ts : List EndpointRow)
    → bytes_eq id v ≡ true
    → any (λ t. bytes_eq t.id id) ss ≡ false
    → chosen v (map (service_row n) ss) ts ≡ []
unfolding service_row
chosen-nothing n v id [] ts e h = refl
chosen-nothing n v id (s ∷ ss) ts e h = elim (Bool-cases (bytes_eq s.id id)) [
  | inl f ↦ let h' = rw f at h in cc
  | inr f ↦
      let other : bytes_eq s.id v ≡ false = rw (← (bytes_eq_iff id v).0 e) f in
      rw other (chosen-nothing n v id ss ts e (rw f at h))
]

abbrev pub pairs :
    Bytes → List EndpointRow → Option PublishedService → List (ServiceRow × EndpointRow)
pairs n ts none = []
pairs n ts (some s) = map (λ e. (service_row n s, e)) ts

pub chosen-published :
    (n v : Bytes) (ss : List PublishedService) (ts : List EndpointRow)
    → distinct_ids ss ≡ true
    → chosen v (map (service_row n) ss) ts ≡ pairs n ts (published v ss)
unfolding service_row
chosen-published n v [] ts h = refl
chosen-published n v (s ∷ ss) ts h = elim (Bool-cases (any (λ t. bytes_eq t.id s.id) ss)) [
  | inl d ↦ let h' = rw d at h in cc
  | inr d ↦ elim (Bool-cases (bytes_eq s.id v)) [
    | inl e ↦ rw e (
        ap (λ l. map (λ r. (service_row n s, r)) ts ++ l) (chosen-nothing n v s.id ss ts e d)
        ∙ append-nil (map (λ r. (service_row n s, r)) ts))
    | inr e ↦ rw e (chosen-published n v ss ts (rw d at h))
  ]
]
