-- ===== src/ControlPlane/Offers.antt =====
-- The endpoints of a node in the order of services/control-plane/src/registry.rs.
use Prim.Native.Nat.{compare, Ordering}
use medium.Common.{
  ℕ, suc, ◌<◌, ◌≡◌, refl, sym, ap, ◌∙◌, inl, inr, List, [], ◌∷◌, map, arith, All, Bytes, bytes_eq,
  Bool-cases, compare_int, then_with, not_greater, sort_by, retain, Compares, sort_by-map,
}
use medium.ControlPlane.Registry.{
  EndpointKind, tcp_proxy, ice_udp, endpoint_kind_name, NodeEndpoint, EndpointRow, endpoint_row,
  by_endpoint, is_endpoint, endpoint,
}
use medium.ControlPlane.Registering.{numbered}
use medium.ControlPlane.Requests.{same_kind, is_offered, offer, by_priority, offered}

same_kind-eq :
    (a b : EndpointKind) → bytes_eq (endpoint_kind_name a) (endpoint_kind_name b) ≡ same_kind a b
unfolding bytes_eq endpoint_kind_name
same_kind-eq tcp_proxy tcp_proxy = refl
same_kind-eq tcp_proxy ice_udp = refl
same_kind-eq ice_udp tcp_proxy = refl
same_kind-eq ice_udp ice_udp = refl

retain-numbered :
    (k : EndpointKind) (n : Bytes) (es : List NodeEndpoint) (id : ℕ)
    → map endpoint (retain (is_endpoint k) (numbered n es id))
      ≡ map offer (retain (is_offered k) es)
unfolding retain endpoint endpoint_row is_endpoint
retain-numbered k n [] id = refl
retain-numbered k n (e ∷ es) id = rw (same_kind-eq e.kind k) (elim (Bool-cases (is_offered k e)) [
  | inl h ↦ rw h (ap (λ l. offer e ∷ l) (retain-numbered k n es (suc id)))
  | inr h ↦ rw h (retain-numbered k n es (suc id))
])

-- The numbers grow along the table.
later :
    (k : EndpointKind) (n : Bytes) (es : List NodeEndpoint) (id low : ℕ)
    → low < id
    → All (λ r. low < r.id) (retain (is_endpoint k) (numbered n es id))
unfolding retain endpoint_row
later k n [] id low h = tt
later k n (e ∷ es) id low h = elim (Bool-cases (is_endpoint k (endpoint_row n id e))) [
  | inl f ↦ rw f (h, later k n es (suc id) low (omega arith))
  | inr f ↦ rw f (later k n es (suc id) low (omega arith))
]

stays :
    (x y : EndpointRow)
    → x.id < y.id
    → not_greater (by_priority (endpoint x) (endpoint y)) ≡ not_greater (by_endpoint x y)
unfolding by_priority by_endpoint endpoint
stays x y h = before (compare_int y.priority x.priority)
  where
    before : (o : Ordering) → not_greater o ≡ not_greater (then_with o (compare x.id y.id))
    before Ordering.lt = unfold then_with in refl
    before Ordering.eq = unfold then_with in ground arith
    before Ordering.gt = unfold then_with in refl

stays-All :
    (x : EndpointRow) (ys : List EndpointRow)
    → All (λ r. x.id < r.id) ys
    → All
        (λ y. not_greater (by_priority (endpoint x) (endpoint y)) ≡ not_greater (by_endpoint x y))
        ys
stays-All x [] h = tt
stays-All x (y ∷ ys) h = (stays x y h.0, stays-All x ys h.1)

numbered-Compares :
    (k : EndpointKind) (n : Bytes) (es : List NodeEndpoint) (id : ℕ)
    → Compares endpoint by_endpoint by_priority (retain (is_endpoint k) (numbered n es id))
unfolding retain
numbered-Compares k n [] id = tt
numbered-Compares k n (e ∷ es) id = elim (Bool-cases (is_endpoint k (endpoint_row n id e))) [
  | inl f ↦ rw f (
    stays-All (endpoint_row n id e) _
        (unfold endpoint_row in later k n es (suc id) id (omega arith)),
    numbered-Compares k n es (suc id),
  )
  | inr f ↦ rw f (numbered-Compares k n es (suc id))
]

-- The rows sorted by priority and number are the endpoints sorted by priority.
pub sorted-offered :
    (k : EndpointKind) (n : Bytes) (es : List NodeEndpoint) (id : ℕ)
    → map endpoint (sort_by by_endpoint (retain (is_endpoint k) (numbered n es id))) ≡ offered k es
unfolding offered
sorted-offered k n es id =
    sym (sort_by-map endpoint by_endpoint by_priority _ (numbered-Compares k n es id))
    ∙ ap (sort_by by_priority) (retain-numbered k n es id)
