-- ===== src/ControlPlane/Registering.antt =====
-- What `register_node` does to the tables.
use medium.Common.{
  ℕ, suc, ◌≡◌, refl, sym, ap, ◌∙◌, inl, inr, Bool, true, false, not, ◌&&◌, List, [], ◌∷◌, ◌++◌, map,
  any, All, Bytes, bytes_eq, bytes_eq_refl, bytes_eq_comm, Bool-cases, Result, ok, err, retain,
}
use mathlib.Core.List.{append_assoc, append-nil}
use medium.ControlPlane.Registry.{
  NodeEndpoint, PublishedService, EndpointRow, ServiceRow, RegistryError, duplicate_service,
  service_of, endpoint_row, service_row, insert_endpoints, same_key, insert_services,
}

-- The rows of these endpoints, numbered from here on.
abbrev pub numbered : Bytes → List NodeEndpoint → ℕ → List EndpointRow
numbered node_id [] id = []
numbered node_id (e ∷ es) id = endpoint_row node_id id e ∷ numbered node_id es (suc id)

pub insert_endpoints-numbered :
    (node_id : Bytes) (es : List NodeEndpoint) (rows : List EndpointRow) (id : ℕ)
    → (insert_endpoints node_id es rows id).0 ≡ rows ++ numbered node_id es id
unfolding insert_endpoints
insert_endpoints-numbered node_id [] rows id = sym (append-nil rows)
insert_endpoints-numbered node_id (e ∷ es) rows id =
    insert_endpoints-numbered node_id es (rows ++ endpoint_row node_id id e ∷ []) (suc id)
    ∙ append_assoc rows (endpoint_row node_id id e ∷ []) (numbered node_id es (suc id))

abbrev pub Inserted :
    Bytes
    → List PublishedService
    → List ServiceRow
    → Result RegistryError (List ServiceRow)
    → Type 0
Inserted node_id ss rows (ok after) = after ≡ rows ++ map (service_row node_id) ss
Inserted node_id ss rows (err e) = e ≡ duplicate_service

Inserted-cons :
    (node_id : Bytes) (s : PublishedService) (ss : List PublishedService) (rows : List ServiceRow)
    (r : Result RegistryError (List ServiceRow))
    → Inserted node_id ss (rows ++ service_row node_id s ∷ []) r
    → Inserted node_id (s ∷ ss) rows r
Inserted-cons node_id s ss rows (ok after) h =
    h ∙ append_assoc rows (service_row node_id s ∷ []) (map (service_row node_id) ss)
Inserted-cons node_id s ss rows (err e) h = h

insert_services-Inserted :
    (node_id : Bytes) (ss : List PublishedService) (rows : List ServiceRow)
    → Inserted node_id ss rows (insert_services node_id ss rows)
unfolding insert_services
insert_services-Inserted node_id [] rows = sym (append-nil rows)
insert_services-Inserted node_id (s ∷ ss) rows =
    elim (Bool-cases (any (same_key (service_row node_id s)) rows)) [
      | inl e ↦ rw e refl
      | inr e ↦ rw e (
          Inserted-cons node_id s ss rows _
            (insert_services-Inserted node_id ss (rows ++ service_row node_id s ∷ [])))
    ]

-- No two of the services have the same id.
abbrev pub distinct_ids : List PublishedService → Bool
distinct_ids [] = true
distinct_ids (s ∷ ss) = not (any (λ t. bytes_eq t.id s.id) ss) && distinct_ids ss

-- None of the rows has the key of one of the services.
abbrev pub IsNew : Bytes → List ServiceRow → List PublishedService → Type 0
IsNew node_id rows ss = All (λ s. any (same_key (service_row node_id s)) rows ≡ false) ss

any-append :
    {A : Type 0} (p : A → Bool) (xs : List A) (y : A)
    → any p xs ≡ false
    → p y ≡ false
    → any p (xs ++ y ∷ []) ≡ false
any-append p [] y h k = rw k refl
any-append p (x ∷ xs) y h k = elim (Bool-cases (p x)) [
  | inl e ↦ let e' = rw e at h in cc
  | inr e ↦ rw e (any-append p xs y (rw e at h) k)
]

IsNew-append :
    (node_id : Bytes) (rows : List ServiceRow) (s : PublishedService) (ss : List PublishedService)
    → IsNew node_id rows ss
    → any (λ t. bytes_eq t.id s.id) ss ≡ false
    → IsNew node_id (rows ++ service_row node_id s ∷ []) ss
unfolding same_key service_row
IsNew-append node_id rows s [] h d = tt
IsNew-append node_id rows s (t ∷ ss) h d = elim (Bool-cases (bytes_eq t.id s.id)) [
  | inl e ↦ let d' = rw e at d in cc
  | inr e ↦ (
    any-append _ rows _ h.0 (rw (e, bytes_eq_refl node_id) refl),
    IsNew-append node_id rows s ss h.1 (rw e at d),
  )
]

pub insert_services-ok :
    (node_id : Bytes) (ss : List PublishedService) (rows : List ServiceRow)
    → distinct_ids ss ≡ true
    → IsNew node_id rows ss
    → insert_services node_id ss rows ≡ ok (rows ++ map (service_row node_id) ss)
unfolding insert_services
insert_services-ok node_id [] rows d h = rw (append-nil rows) refl
insert_services-ok node_id (s ∷ ss) rows d h =
    elim (Bool-cases (any (λ t. bytes_eq t.id s.id) ss)) [
      | inl e ↦ let d' = rw e at d in cc
      | inr e ↦ rw h.0 (
          insert_services-ok node_id ss (rows ++ service_row node_id s ∷ []) (rw e at d)
            (IsNew-append node_id rows s ss h.1 e)
          ∙ ap ok (append_assoc rows (service_row node_id s ∷ []) (map (service_row node_id) ss)))
    ]

pub kept-IsNew :
    (node_id : Bytes) (rows : List ServiceRow) (ss : List PublishedService)
    → IsNew node_id (retain (λ r. not (service_of node_id r)) rows) ss
unfolding retain same_key service_row service_of
kept-IsNew node_id rows [] = tt
kept-IsNew node_id rows (s ∷ ss) = (without rows, kept-IsNew node_id rows ss)
  where
    without :
        (rows : List ServiceRow)
        → any (same_key (service_row node_id s)) (retain (λ r. not (service_of node_id r)) rows)
          ≡ false
    without [] = refl
    without (r ∷ rows) = elim (Bool-cases (bytes_eq r.node_id node_id)) [
      | inl e ↦ rw e (without rows)
      | inr e ↦ rw (e, bytes_eq_comm node_id r.node_id, e) (without rows)
    ]

any-later :
    {A : Type 0} (p : A → Bool) (xs : List A) (y : A) → p y ≡ true → any p (xs ++ y ∷ []) ≡ true
any-later p [] y h = rw h refl
any-later p (x ∷ xs) y h = elim (Bool-cases (p x)) [
  | inl e ↦ rw e refl
  | inr e ↦ rw e (any-later p xs y h)
]

any-earlier :
    {A : Type 0} (p : A → Bool) (xs : List A) (y : A)
    → any p xs ≡ true
    → any p (xs ++ y ∷ []) ≡ true
any-earlier p [] y h = cc
any-earlier p (x ∷ xs) y h = elim (Bool-cases (p x)) [
  | inl e ↦ rw e refl
  | inr e ↦ rw e (any-earlier p xs y (rw e at h))
]

any-weaker :
    {A : Type 0} (p q : A → Bool) (xs : List A)
    → ((x : A) → p x ≡ true → q x ≡ true)
    → any p xs ≡ true
    → any q xs ≡ true
any-weaker p q [] k h = cc
any-weaker p q (x ∷ xs) k h = elim (Bool-cases (q x)) [
  | inl e ↦ rw e refl
  | inr e ↦ elim (Bool-cases (p x)) [
    | inl f ↦ let e' = k x f in cc
    | inr f ↦ rw e (any-weaker p q xs k (rw f at h))
  ]
]

-- One of the services is in the rows.
abbrev taken : Bytes → List ServiceRow → PublishedService → Bool
taken node_id rows s = any (same_key (service_row node_id s)) rows

insert_services-taken :
    (node_id : Bytes) (ss : List PublishedService) (rows : List ServiceRow)
    → any (taken node_id rows) ss ≡ true
    → insert_services node_id ss rows ≡ err duplicate_service
unfolding insert_services
insert_services-taken node_id [] rows h = cc
insert_services-taken node_id (s ∷ ss) rows h = elim (Bool-cases (taken node_id rows s)) [
  | inl e ↦ rw e refl
  | inr e ↦ rw e (
      insert_services-taken node_id ss (rows ++ service_row node_id s ∷ [])
        (any-weaker _ _ ss (λ t k. any-earlier _ rows _ k) (rw e at h)))
]

pub insert_services-err :
    (node_id : Bytes) (ss : List PublishedService) (rows : List ServiceRow)
    → distinct_ids ss ≡ false
    → insert_services node_id ss rows ≡ err duplicate_service
unfolding insert_services
insert_services-err node_id [] rows h = cc
insert_services-err node_id (s ∷ ss) rows h = elim (Bool-cases (taken node_id rows s)) [
  | inl e ↦ rw e refl
  | inr e ↦ rw e (elim (Bool-cases (any (λ t. bytes_eq t.id s.id) ss)) [
    | inl f ↦
        insert_services-taken node_id ss (rows ++ service_row node_id s ∷ [])
          (any-weaker _ _ ss (λ t k. any-later _ rows _ (repeated t k)) f)
    | inr f ↦ insert_services-err node_id ss (rows ++ service_row node_id s ∷ []) (rw f at h)
  ])
]
  where
    repeated :
        (t : PublishedService)
        → bytes_eq t.id s.id ≡ true
        → same_key (service_row node_id t) (service_row node_id s) ≡ true
    repeated t k = unfold same_key service_row in rw (k, bytes_eq_refl node_id) refl
