-- ===== src/Netstack/Addresses.antt =====
-- Every published service gets an address of its own in the virtual subnet.
use medium.Common.{
  ℕ, zero, suc, ◌+◌, ◌≤◌, ◌<◌, ◌≡◌, ◌≢◌, ◌⊎◌, refl, sym, ap, ◌∙◌, inl, inr, false, List, [], ◌∷◌,
  ◌++◌, arith, Bytes, bytes_eq, bytes_eq_iff, bytes_eq_refl, Bool-cases, Option, none, some, Result,
  ok, err, length, length-append, get_elem?, ltb,
}
use medium.Netstack.Network.{
  Text, Ipv4Address, PublishedService, VirtualService, VirtualNetwork, lookup, add_service,
  add_services, empty_network, new_network, NetworkError, too_many_services, service_addr,
  service_for_addr, service_at,
}

abbrev pub host_addr : ℕ → Ipv4Address
host_addr i = 10 ∷ 88 ∷ 0 ∷ (10 + i) ∷ []

service_addr-eq : (i : ℕ) → i ≤ 200 → service_addr i ≡ ok (host_addr i)
unfolding service_addr
service_addr-eq i h = ground arith

pub get_elem?-last :
    {A : Type 0} (xs : List A) (x : A) → get_elem? (xs ++ x ∷ []) (length xs) ≡ some x
get_elem?-last [] x = refl
get_elem?-last (y ∷ xs) x = get_elem?-last xs x

pub get_elem?-earlier :
    {A : Type 0} (xs : List A) (x : A) (i : ℕ)
    → i < length xs
    → get_elem? (xs ++ x ∷ []) i ≡ get_elem? xs i
get_elem?-earlier [] x i h = elim h [ ]
get_elem?-earlier (y ∷ xs) x zero h = refl
get_elem?-earlier (y ∷ xs) x (suc i) h = get_elem?-earlier xs x i (omega arith)

-- The services have the addresses of their places, and the map of addresses leads to them.
pub record IsAddressed (n : VirtualNetwork) : Type 0 where
  pub few : length n.services ≤ 201
  pub placed :
      (i : ℕ)
      → i < length n.services
      → (v : VirtualService) × (get_elem? n.services i ≡ some v) × (v.addr ≡ host_addr i)
  pub found : (i : ℕ) → i < length n.services → lookup (host_addr i) n.by_addr ≡ some i
  pub only :
      (a : Ipv4Address) (i : ℕ)
      → lookup a n.by_addr ≡ some i
      → (i < length n.services) × (a ≡ host_addr i)

empty-IsAddressed : IsAddressed empty_network
unfolding lookup
empty-IsAddressed = record {
  few = omega arith;
  placed = λ i h. elim h [ ];
  found = λ i h. elim h [ ];
  only = λ a i e. cc;
}

host_addr-differs : (i j : ℕ) → i ≢ j → bytes_eq (host_addr i) (host_addr j) ≡ false
unfolding bytes_eq
host_addr-differs i j h = ground arith

-- What the lookups give after one more insertion under the next address.
lookup-own : (k : ℕ) (m : List (Bytes × ℕ)) → lookup (host_addr k) ((host_addr k, k) ∷ m) ≡ some k
unfolding lookup
lookup-own k m = rw (bytes_eq_refl (host_addr k)) refl

lookup-other :
    (k i : ℕ) (m : List (Bytes × ℕ))
    → k ≢ i
    → lookup (host_addr i) ((host_addr k, k) ∷ m) ≡ lookup (host_addr i) m
unfolding lookup
lookup-other k i m h = rw (host_addr-differs k i h) refl

le-cases : (n : ℕ) → (201 < n) ⊎ (n ≤ 201)
le-cases n = ground arith

pub below-cases : (i n : ℕ) → i < suc n → (i < n) ⊎ (i ≡ n)
below-cases i n h = ground arith

module _ (to_lowercase : ℕ → Text) where
  module _ (s : PublishedService) (n : VirtualNetwork) (h : length n.services ≤ 200)
      (a : IsAddressed n) where
    abbrev next : VirtualNetwork
    unfolding add_service
    next = add_service to_lowercase s (host_addr (length n.services)) n

    next-length : length next.services ≡ suc (length n.services)
    unfolding add_service
    next-length = length-append n.services _ ∙ omega arith

    next-placed :
        (i : ℕ)
        → (i < length n.services) ⊎ (i ≡ length n.services)
        → (v : VirtualService) × (get_elem? next.services i ≡ some v) × (v.addr ≡ host_addr i)
    unfolding add_service
    next-placed i (inl less) =
        let (v, e, at) = a.placed i less in (v, get_elem?-earlier n.services _ i less ∙ e, at)
    next-placed i (inr e) =
        (_, ap (get_elem? next.services) e ∙ get_elem?-last n.services _, ap host_addr (sym e))

    next-found :
        (i : ℕ)
        → (i < length n.services) ⊎ (i ≡ length n.services)
        → lookup (host_addr i) next.by_addr ≡ some i
    unfolding add_service
    next-found i (inl less) =
        lookup-other (length n.services) i n.by_addr (omega arith) ∙ a.found i less
    next-found i (inr e) = rw e (lookup-own (length n.services) n.by_addr)

    next-only :
        (x : Ipv4Address) (i : ℕ)
        → lookup x next.by_addr ≡ some i
        → (i < suc (length n.services)) × (x ≡ host_addr i)
    unfolding add_service lookup
    next-only x i e = elim (Bool-cases (bytes_eq (host_addr (length n.services)) x)) [
      | inl same ↦ own (rw same at e) ((bytes_eq_iff _ x).0 same)
      | inr other ↦ let (less, at) = a.only x i (rw other at e) in (omega (arith, less), at)
    ]
      where
        own :
            some (length n.services) ≡ some i
            → host_addr (length n.services) ≡ x
            → (i < suc (length n.services)) × (x ≡ host_addr i)
        own e at = let k : length n.services ≡ i = cc in (omega (arith, k), rw (← at, k) refl)

    add-IsAddressed : IsAddressed next
    add-IsAddressed = record {
      few = rw next-length (omega arith);
      placed = λ i less. next-placed i (below-cases i _ (rw next-length at less));
      found = λ i less. next-found i (below-cases i _ (rw next-length at less));
      only = λ x i e. rw next-length (next-only x i e);
    }

  abbrev Added :
      List PublishedService → VirtualNetwork → Result NetworkError VirtualNetwork → Type 0
  Added ss n r =
      (m : VirtualNetwork) × (r ≡ ok m)
      × (length m.services ≡ length n.services + length ss)
      × IsAddressed m

  add_services-Added :
      (ss : List PublishedService) (n : VirtualNetwork)
      → IsAddressed n
      → length n.services + length ss ≤ 201
      → Added ss n (add_services to_lowercase (length n.services) ss n)
  unfolding add_services add_service next
  add_services-Added [] n a h = (n, refl, omega arith, a)
  add_services-Added (s ∷ ss) n a h =
      let less : length n.services ≤ 200 = omega arith in
      let few : ltb 200 (length n.services) ≡ false = ground arith in
      let len : length (next s n less a).services ≡ suc (length n.services) =
        next-length s n less a in
      let (m, e, size, b) =
        add_services-Added ss (next s n less a) (add-IsAddressed s n less a) (omega (arith, len)) in
      rw (few, service_addr-eq (length n.services) less)
        (m, rw len at e, omega (arith, size, len), b)

  add_services-refuses :
      (ss : List PublishedService) (i : ℕ) (n : VirtualNetwork)
      → i ≤ 201
      → 201 < i + length ss
      → add_services to_lowercase i ss n ≡ err too_many_services
  unfolding add_services
  add_services-refuses [] i n h k = ground arith
  add_services-refuses (s ∷ ss) i n h k = elim (Bool-cases (ltb 200 i)) [
    | inl many ↦ rw many refl
    | inr few ↦
        let le : i ≤ 200 = ground arith in
        rw (few, service_addr-eq i le)
          (add_services-refuses ss (suc i) _ (omega arith) (omega arith))
  ]

pub service_at-some :
    (n : VirtualNetwork) (o : Option ℕ) {v : VirtualService}
    → service_at n o ≡ some v
    → (i : ℕ) × (o ≡ some i) × (get_elem? n.services i ≡ some v)
service_at-some n none e = cc
service_at-some n (some i) e = (i, refl, e)

-- `VirtualNetwork::new` takes up to 201 services and refuses more. The service at place i gets the
-- address 10.88.0.(10+i), under which `service_for_addr` finds it.
pub new_network_addresses :
    (to_lowercase : ℕ → Text) (ss : List PublishedService)
    → (201 < length ss) × (new_network to_lowercase ss ≡ err too_many_services)
      ⊎ ((n : VirtualNetwork) × (new_network to_lowercase ss ≡ ok n)
          × (length n.services ≡ length ss)
          × ((i : ℕ)
              → i < length ss
              → (v : VirtualService) × (get_elem? n.services i ≡ some v)
                × (v.addr ≡ host_addr i)
                × (service_for_addr n (host_addr i) ≡ some v)))
unfolding new_network service_for_addr
new_network_addresses to_lowercase ss = elim (le-cases (length ss)) [
  | inl many ↦
      inl (many, add_services-refuses to_lowercase ss 0 empty_network (omega arith) (omega arith))
  | inr h ↦ inr (
      let (n, e, size, a) =
        add_services-Added to_lowercase ss empty_network empty-IsAddressed (omega arith) in
      (
        n,
        e,
        omega (arith, size),
        λ i less.
            let (v, got, at) = a.placed i (omega (arith, size, less)) in
            (v, got, at, ap (service_at n) (a.found i (omega (arith, size, less))) ∙ got),
      ))
]

-- Only the addresses from 10.88.0.10 on belong to a service, so neither the resolver's address nor
-- the client's, and an address belongs to the service that has it.
pub service_for_addr_only :
    (to_lowercase : ℕ → Text) (ss : List PublishedService) (n : VirtualNetwork) (a : Ipv4Address)
    (v : VirtualService)
    → length ss ≤ 201
    → new_network to_lowercase ss ≡ ok n
    → service_for_addr n a ≡ some v
    → (v.addr ≡ a) × (i : ℕ) × (i < length ss) × (a ≡ host_addr i)
unfolding new_network service_for_addr
service_for_addr_only to_lowercase ss n a v h e found =
    let (m, made, size, addressed) =
      add_services-Added to_lowercase ss empty_network empty-IsAddressed (omega arith) in
    let same : m ≡ n = cc in
    let (i, there, at) = service_at-some n (lookup a n.by_addr) found in
    let (less, e) = addressed.only a i (rw same there) in
    let (w, got, place) = addressed.placed i less in
    let v_is : w ≡ v = cc in (rw (← v_is, e) place, i, omega (arith, less, size), e)
