-- ===== src/ControlPlane/Routes.antt =====
-- Routes from the tables of the registry are the routes from the last requests.
use medium.Common.{
  ℕ, ◌≡◌, refl, ap, ◌∙◌, subst, inl, inr, true, List, [], ◌∷◌, map, Option, none, some, All, Bytes,
  bytes_eq, bytes_eq_iff, Bool-cases, if◌then◌else◌, not_greater, sort_by, retain, retain-both,
  Compares, sort_by-map,
}
use medium.ControlPlane.Registry.{
  tcp_proxy, ice_udp, PublishedService, RegisterNodeRequest, EndpointRow, ServiceRow, RegistryStore,
  endpoint_of, service_row, register_node, by_endpoint, by_row, is_endpoint, endpoint, endpoints,
  first_row, route_of, route_rows, resolve_node_service_route,
}
use medium.ControlPlane.Registering.{numbered, distinct_ids}
use medium.ControlPlane.Rows.{
  own_services, own_endpoints, register_node-refused, register_node-own_services,
  register_node-own_endpoints, register_node-other_services, register_node-other_endpoints,
}
use medium.ControlPlane.Joins.{chosen, rows-chosen, pairs, chosen-published}
use medium.ControlPlane.Offers.{sorted-offered}
use medium.ControlPlane.Requests.{
  offered, published, route_from, published_route, or_else, is_last, last_request, route_of_last,
}

-- What the tables hold of a node whose last request is given.
abbrev pub Holds : Bytes → Option RegisterNodeRequest → RegistryStore → Type 0
Holds n none s = (own_services n s ≡ []) × (own_endpoints n s ≡ [])
Holds n (some q) s =
    (id : ℕ) × (own_services n s ≡ map (service_row n) q.services)
    × (own_endpoints n s ≡ numbered n q.endpoints id)
    × (q.node_id ≡ n)
    × (distinct_ids q.services ≡ true)

Holds-same :
    (n : Bytes) (o : Option RegisterNodeRequest) (s t : RegistryStore)
    → own_services n t ≡ own_services n s
    → own_endpoints n t ≡ own_endpoints n s
    → Holds n o s
    → Holds n o t
Holds-same n none s t e f h = (e ∙ h.0, f ∙ h.1)
Holds-same n (some q) s t e f (id, h, k, same, d) = (id, e ∙ h, f ∙ k, same, d)

-- A registration keeps the tables in step with the last requests.
register_node-Holds :
    (n : Bytes) (o : Option RegisterNodeRequest) (q : RegisterNodeRequest) (s : RegistryStore)
    → Holds n o s
    → Holds n (or_else (if is_last n q then some q else none) o) (register_node q s).1
register_node-Holds n o q s h = elim (Bool-cases (distinct_ids q.services)) [
  | inl d ↦ elim (Bool-cases (bytes_eq q.node_id n)) [
    | inl e ↦
        let same : q.node_id ≡ n = (bytes_eq_iff q.node_id n).0 e in
        rw (e, d)
          (subst (λ m. Holds m (some q) (register_node q s).1) same
            (
              s.next_id,
              register_node-own_services q s d,
              register_node-own_endpoints q s d,
              refl,
              d,
            ))
    | inr e ↦ rw e (
        Holds-same n o s (register_node q s).1 (register_node-other_services q s d n e)
          (register_node-other_endpoints q s d n e) h)
  ]
  | inr d ↦ elim (Bool-cases (bytes_eq q.node_id n)) [
    | inl e ↦ rw (e, d, register_node-refused q s d) h
    | inr e ↦ rw (e, register_node-refused q s d) h
  ]
]

unfoldable pub register_all : List RegisterNodeRequest → RegistryStore → RegistryStore
register_all [] s = s
register_all (q ∷ qs) s = register_all qs (register_node q s).1

or_else_assoc : {A : Type 0} (a b c : Option A) → or_else a (or_else b c) ≡ or_else (or_else a b) c
or_else_assoc none b c = refl
or_else_assoc (some a) b c = refl

or_else-none : {A : Type 0} (a : Option A) → or_else a none ≡ a
or_else-none none = refl
or_else-none (some a) = refl

register_all-Holds :
    (n : Bytes) (qs : List RegisterNodeRequest) (o : Option RegisterNodeRequest) (s : RegistryStore)
    → Holds n o s
    → Holds n (or_else (last_request n qs) o) (register_all qs s)
unfolding register_all
register_all-Holds n [] o s h = h
register_all-Holds n (q ∷ qs) o s h =
    subst (λ r. Holds n r (register_all qs (register_node q s).1))
      (or_else_assoc (last_request n qs) (if is_last n q then some q else none) o)
      (register_all-Holds n qs _ (register_node q s).1 (register_node-Holds n o q s h))

abbrev pub empty_store : RegistryStore
empty_store = record { nodes = []; endpoints = []; services = []; next_id = 1 }

always-All :
    (r : ServiceRow) (x : EndpointRow) (ts : List EndpointRow)
    → All
        (λ (y : EndpointRow). not_greater (by_row (r, x) (r, y)) ≡ not_greater (by_endpoint x y))
        ts
unfolding by_row
always-All r x [] = tt
always-All r x (t ∷ ts) = (refl, always-All r x ts)

pairs-Compares :
    (r : ServiceRow) (ts : List EndpointRow)
    → Compares (λ (e : EndpointRow). (r, e)) by_endpoint by_row ts
pairs-Compares r [] = tt
pairs-Compares r (t ∷ ts) = (always-All r t ts, pairs-Compares r ts)

module _ (n v : Bytes) (s : RegistryStore) where
  resolve-chosen :
      resolve_node_service_route n v s
      ≡ route_of s (
          first_row (
            sort_by by_row
              (chosen v (own_services n s) (retain (is_endpoint tcp_proxy) (own_endpoints n s)))))
  unfolding resolve_node_service_route route_rows
  resolve-chosen =
      ap (λ l. route_of s (first_row (sort_by by_row l))) (rows-chosen n v s.endpoints s.services)

  module _ (q : RegisterNodeRequest) (h : Holds n (some q) s) where
    ice_offered : endpoints n ice_udp s ≡ offered ice_udp q.endpoints
    unfolding endpoints
    ice_offered =
        ap (λ l. map endpoint (sort_by by_endpoint l))
          (retain-both (is_endpoint ice_udp) (endpoint_of n) s.endpoints
            ∙ ap (retain (is_endpoint ice_udp)) h.2)
        ∙ sorted-offered ice_udp n q.endpoints h.0

    route-sorted :
        (p : PublishedService) (l : List EndpointRow)
        → route_of s (first_row (map (λ (e : EndpointRow). (service_row n p, e)) l))
          ≡ route_from q (some p) (first_row (map endpoint l))
    unfolding endpoint service_row
    route-sorted p [] = refl
    route-sorted p (t ∷ l) = rw (ice_offered, h.3) refl

    -- The rows of the service that was found, or none.
    route-pairs :
        (o : Option PublishedService)
        → route_of s (
            first_row (
              sort_by by_row
                (pairs n (retain (is_endpoint tcp_proxy) (numbered n q.endpoints h.0)) o)))
          ≡ route_from q o (first_row (offered tcp_proxy q.endpoints))
    unfolding sort_by
    route-pairs none = refl
    route-pairs (some p) =
        ap (λ l. route_of s (first_row l))
          (sort_by-map (λ (e : EndpointRow). (service_row n p, e)) by_endpoint by_row _
            (pairs-Compares (service_row n p) _))
        ∙ route-sorted p _
        ∙ ap (λ l. route_from q (some p) (first_row l)) (sorted-offered tcp_proxy n q.endpoints h.0)

    resolve-some : resolve_node_service_route n v s ≡ published_route v q
    resolve-some =
        resolve-chosen
        ∙ ap
            (λ es. route_of s (
              first_row
                (sort_by by_row (chosen v (own_services n s) (retain (is_endpoint tcp_proxy) es)))))
            h.2
        ∙ ap (λ l. route_of s (first_row (sort_by by_row l)))
            (ap (λ ss. chosen v ss (retain (is_endpoint tcp_proxy) (numbered n q.endpoints h.0)))
                h.1
              ∙ chosen-published n v q.services _ h.4)
        ∙ route-pairs (published v q.services)

resolve-Holds :
    (n v : Bytes) (s : RegistryStore) (o : Option RegisterNodeRequest)
    → Holds n o s
    → resolve_node_service_route n v s ≡ route_of_last v o
unfolding sort_by
resolve-Holds n v s none h =
    resolve-chosen n v s
    ∙ ap
        (λ ss. route_of s (
          first_row
            (sort_by by_row (chosen v ss (retain (is_endpoint tcp_proxy) (own_endpoints n s))))))
        h.0
resolve-Holds n v s (some q) h = resolve-some n v s q h

-- After any requests to an empty registry, refused ones included, the route to a service of a node
-- is the one that the last request of the node without a repeated service id gives by itself: its
-- service, its `tcp_proxy` endpoint of the highest priority, the first of these where several have it,
-- its `ice_udp` endpoints by priority. A node without such a request, or whose request
-- lacks the service or the endpoint, has no route.
pub register_all-route_of_last :
    (n v : Bytes) (qs : List RegisterNodeRequest)
    → resolve_node_service_route n v (register_all qs empty_store)
      ≡ route_of_last v (last_request n qs)
unfolding retain
register_all-route_of_last n v qs =
    resolve-Holds n v (register_all qs empty_store) (last_request n qs) (
      subst (λ o. Holds n o (register_all qs empty_store)) (or_else-none (last_request n qs))
        (register_all-Holds n qs none empty_store (refl, refl)))
