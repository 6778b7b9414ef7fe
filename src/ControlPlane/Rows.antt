-- ===== src/ControlPlane/Rows.antt =====
-- The rows of one node, before and after `register_node`.
use medium.Common.{
  ℕ, suc, ◌≡◌, refl, sym, ap, ◌∙◌, inl, inr, Bool, true, false, not, List, [], ◌∷◌, ◌++◌, map, All,
  Bytes, bytes_eq, bytes_eq_iff, bytes_eq_refl, Bool-cases, ok, err, retain, retain-append,
  retain-weaker, retain-nothing, retain-everything,
}
use mathlib.Core.List.{append-nil}
use medium.ControlPlane.Registry.{
  NodeEndpoint, PublishedService, RegisterNodeRequest, EndpointRow, ServiceRow, RegistryStore,
  duplicate_service, endpoint_of, service_of, endpoint_row, service_row, insert_services,
  register_node,
}
use medium.ControlPlane.Registering.{
  numbered, insert_endpoints-numbered, distinct_ids, insert_services-ok, insert_services-err,
  kept-IsNew,
}

elsewhere : (x m n : Bytes) → bytes_eq m n ≡ false → bytes_eq x n ≡ true → not (bytes_eq x m) ≡ true
elsewhere x m n d e = elim (Bool-cases (bytes_eq x m)) [
  | inl f ↦
      let same : m ≡ n = sym ((bytes_eq_iff x m).0 f) ∙ (bytes_eq_iff x n).0 e in
      let d' = (bytes_eq_iff m n).1 same in cc
  | inr f ↦ rw f refl
]

-- Of the rows kept for other nodes and new rows of this node, those of this node are the new ones.
module _ {A : Type 0} (node : A → Bytes) where
  abbrev of : Bytes → A → Bool
  of n r = bytes_eq (node r) n

  others-own :
      (n : Bytes) (rows added : List A)
      → All (λ r. of n r ≡ true) added
      → retain (of n) (retain (λ r. not (of n r)) rows ++ added) ≡ added
  unfolding retain
  others-own n [] added h = retain-everything (of n) added h
  others-own n (r ∷ rows) added h = elim (Bool-cases (of n r)) [
    | inl e ↦ rw e (others-own n rows added h)
    | inr e ↦ rw (e, e) (others-own n rows added h)
  ]

  -- Those of another node are as before.
  others-other :
      (n m : Bytes) (rows added : List A)
      → bytes_eq m n ≡ false
      → All (λ r. of m r ≡ true) added
      → retain (of n) (retain (λ r. not (of m r)) rows ++ added) ≡ retain (of n) rows
  others-other n m rows added d h =
      retain-append (of n) (retain (λ r. not (of m r)) rows) added
      ∙ rw
          (
            retain-nothing (of n) added (away added h),
            append-nil (retain (of n) (retain (λ r. not (of m r)) rows)),
          )
          (retain-weaker (of n) (λ r. not (of m r)) rows (λ r e. elsewhere (node r) m n d e))
    where
      apart : (x : Bytes) → bytes_eq x m ≡ true → bytes_eq x n ≡ false
      apart x e = rw ((bytes_eq_iff x m).0 e) d

      away : (added : List A) → All (λ r. of m r ≡ true) added → All (λ r. of n r ≡ false) added
      away [] h = tt
      away (r ∷ added) h = (apart (node r) h.0, away added h.1)

-- The rows of a node.
abbrev pub own_services : Bytes → RegistryStore → List ServiceRow
own_services n s = retain (service_of n) s.services

abbrev pub own_endpoints : Bytes → RegistryStore → List EndpointRow
own_endpoints n s = retain (endpoint_of n) s.endpoints

map-own :
    (n : Bytes) (ss : List PublishedService)
    → All (λ r. service_of n r ≡ true) (map (service_row n) ss)
unfolding service_row service_of
map-own n [] = tt
map-own n (s ∷ ss) = (bytes_eq_refl n, map-own n ss)

numbered-own :
    (n : Bytes) (es : List NodeEndpoint) (id : ℕ)
    → All (λ r. endpoint_of n r ≡ true) (numbered n es id)
unfolding endpoint_row endpoint_of
numbered-own n [] id = tt
numbered-own n (e ∷ es) id = (bytes_eq_refl n, numbered-own n es (suc id))

pub register_node-refused :
    (q : RegisterNodeRequest) (s : RegistryStore)
    → distinct_ids q.services ≡ false
    → register_node q s ≡ (err duplicate_service, s)
unfolding register_node
register_node-refused q s h = rw (insert_services-err q.node_id q.services _ h) refl

module _ (q : RegisterNodeRequest) (s : RegistryStore) (h : distinct_ids q.services ≡ true) where
  stored :
      insert_services q.node_id q.services (retain (λ r. not (service_of q.node_id r)) s.services)
      ≡ ok (
          retain (λ r. not (service_of q.node_id r)) s.services
          ++ map (service_row q.node_id) q.services)
  stored = insert_services-ok q.node_id q.services _ h (kept-IsNew q.node_id s.services q.services)

  pub register_node-ok : (register_node q s).0 ≡ ok tt
  unfolding register_node
  register_node-ok = rw stored refl

  services_after :
      (register_node q s).1.services
      ≡ retain (λ r. not (service_of q.node_id r)) s.services
        ++ map (service_row q.node_id) q.services
  unfolding register_node
  services_after = rw stored refl

  endpoints_after :
      (register_node q s).1.endpoints
      ≡ retain (λ e. not (endpoint_of q.node_id e)) s.endpoints
        ++ numbered q.node_id q.endpoints s.next_id
  unfolding register_node
  endpoints_after = rw stored (insert_endpoints-numbered q.node_id q.endpoints _ s.next_id)

  pub register_node-own_services :
      own_services q.node_id (register_node q s).1 ≡ map (service_row q.node_id) q.services
  unfolding service_of
  register_node-own_services =
      ap (retain (service_of q.node_id)) services_after
      ∙ others-own (λ (r : ServiceRow). r.node_id) q.node_id s.services _
          (map-own q.node_id q.services)

  pub register_node-own_endpoints :
      own_endpoints q.node_id (register_node q s).1 ≡ numbered q.node_id q.endpoints s.next_id
  unfolding endpoint_of
  register_node-own_endpoints =
      ap (retain (endpoint_of q.node_id)) endpoints_after
      ∙ others-own (λ (r : EndpointRow). r.node_id) q.node_id s.endpoints _
          (numbered-own q.node_id q.endpoints s.next_id)

  module _ (n : Bytes) (d : bytes_eq q.node_id n ≡ false) where
    pub register_node-other_services : own_services n (register_node q s).1 ≡ own_services n s
    unfolding service_of
    register_node-other_services =
        ap (retain (service_of n)) services_after
        ∙ others-other (λ (r : ServiceRow). r.node_id) n q.node_id s.services _ d
            (map-own q.node_id q.services)

    pub register_node-other_endpoints : own_endpoints n (register_node q s).1 ≡ own_endpoints n s
    unfolding endpoint_of
    register_node-other_endpoints =
        ap (retain (endpoint_of n)) endpoints_after
        ∙ others-other (λ (r : EndpointRow). r.node_id) n q.node_id s.endpoints _ d
            (numbered-own q.node_id q.endpoints s.next_id)
