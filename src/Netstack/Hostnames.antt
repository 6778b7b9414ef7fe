-- ===== src/Netstack/Hostnames.antt =====
-- The host names of the services, and the services that `resolve_hostname` finds by them.
use medium.Common.{
  ℕ, zero, suc, ◌≤◌, ◌<◌, ◌≡◌, ◌≢◌, ◌⊎◌, refl, subst, inl, inr, true, false, Bool, List, [], ◌∷◌,
  ◌++◌, map, arith, codes, not, ◌&&◌, bytes_eq, bytes_eq_iff, bytes_eq_refl, Bool-cases, some,
  Result, ok, err, length, get_elem?, All, All-append, ltb, ◌==◌, ◌>>=◌,
}
use medium.Netstack.Network.{
  Text, Ipv4Address, PublishedService, VirtualService, VirtualNetwork, NetworkError, lookup,
  is_ascii_alphanumeric, dash, trim_end, keep_char, is_empty, push_char, push_chars, lower_chars,
  or_service, host_label, add_service, add_services, empty_network, new_network, service_addr,
  resolve_hostname, normalized, to_ascii_lowercase, service_hostname,
}
use medium.Netstack.Addresses.{get_elem?-last, service_at-some}

abbrev pub IsLowercase : ℕ → Type 0
IsLowercase c = (c < 65) ⊎ (90 < c)

-- a to z, 0 to 9 and the dash.
abbrev pub IsHostChar : ℕ → Type 0
IsHostChar c = ((48 ≤ c) × (c ≤ 57)) ⊎ ((97 ≤ c) × (c ≤ 122)) ⊎ (c ≡ dash)

abbrev pub StartsWell : Text → Type 0
StartsWell [] = Unit
StartsWell (x ∷ xs) = x ≢ dash

abbrev IsGood : Text → Type 0
IsGood out = All IsHostChar out × StartsWell out

starts-append :
    (out : Text) (c : ℕ) → StartsWell out → is_empty out ≡ false → StartsWell (out ++ c ∷ [])
starts-append [] c h e = cc
starts-append (x ∷ out) c h e = h

alphanumeric-starts : (out : Text) (c : ℕ) → StartsWell out → c ≢ dash → StartsWell (out ++ c ∷ [])
alphanumeric-starts [] c h e = e
alphanumeric-starts (x ∷ out) c h e = h

push_char-IsGood :
    (c : ℕ) (out : Text) (b : Bool) → IsLowercase c → IsGood out → IsGood (push_char c (out, b)).0
unfolding push_char is_ascii_alphanumeric
push_char-IsGood c out b l g = elim (Bool-cases (is_ascii_alphanumeric c)) [
  | inl e ↦
      let char : IsHostChar c = ground arith in
      let other : c ≢ dash = ground arith in
      rw e (All-append IsHostChar out (c ∷ []) g.0 (char, tt), alphanumeric-starts out c g.1 other)
  | inr e ↦ elim (Bool-cases (not b && not (is_empty out))) [
    | inl f ↦
        let full : is_empty out ≡ false = ground arith in
        rw (e, f)
          (
            All-append IsHostChar out (dash ∷ []) g.0 (inr (inr refl), tt),
            starts-append out dash g.1 full,
          )
    | inr f ↦ rw (e, f) g
  ]
]

push_chars-IsGood :
    (cs : Text) (out : Text) (b : Bool)
    → All IsLowercase cs
    → IsGood out
    → IsGood (push_chars cs (out, b)).0
unfolding push_chars
push_chars-IsGood [] out b l g = g
push_chars-IsGood (c ∷ cs) out b l g =
    push_chars-IsGood cs (push_char c (out, b)).0 (push_char c (out, b)).1 l.1
      (push_char-IsGood c out b l.0 g)

keep_char-All : (P : ℕ → Type 0) (c x : ℕ) (ys : Text) → P x → All P ys → All P (keep_char c x ys)
keep_char-All P c x [] h k = elim (Bool-cases (x == c)) [ inl e ↦ rw e tt | inr e ↦ rw e (h, tt) ]
keep_char-All P c x (y ∷ ys) h k = (h, k)

keep_char-starts : (c x : ℕ) (ys : Text) → x ≢ dash → StartsWell (keep_char c x ys)
keep_char-starts c x [] h = elim (Bool-cases (x == c)) [ inl e ↦ rw e tt | inr e ↦ rw e h ]
keep_char-starts c x (y ∷ ys) h = h

trim_end-All : (P : ℕ → Type 0) (c : ℕ) (xs : Text) → All P xs → All P (trim_end c xs)
unfolding trim_end
trim_end-All P c [] h = tt
trim_end-All P c (x ∷ xs) h = keep_char-All P c x (trim_end c xs) h.0 (trim_end-All P c xs h.1)

trim_end-starts : (c : ℕ) (xs : Text) → StartsWell xs → StartsWell (trim_end c xs)
unfolding trim_end
trim_end-starts c [] h = tt
trim_end-starts c (x ∷ xs) h = keep_char-starts c x (trim_end c xs) h

keep_char_trimmed :
    (c x : ℕ) (ys : Text) → trim_end c ys ≡ ys → trim_end c (keep_char c x ys) ≡ keep_char c x ys
unfolding trim_end
keep_char_trimmed c x [] h = elim (Bool-cases (x == c)) [
  | inl e ↦ rw e refl
  | inr e ↦ rw e (rw e refl)
]
keep_char_trimmed c x (y ∷ ys) h = rw h refl

pub trim_end_twice : (c : ℕ) (xs : Text) → trim_end c (trim_end c xs) ≡ trim_end c xs
unfolding trim_end
trim_end_twice c [] = refl
trim_end_twice c (x ∷ xs) = keep_char_trimmed c x (trim_end c xs) (trim_end_twice c xs)

lower_chars-IsLowercase :
    (to_lowercase : ℕ → Text) (value : Text)
    → ((c : ℕ) → All IsLowercase (to_lowercase c))
    → All IsLowercase (lower_chars to_lowercase value)
unfolding lower_chars
lower_chars-IsLowercase to_lowercase [] h = tt
lower_chars-IsLowercase to_lowercase (c ∷ cs) h =
    All-append IsLowercase (to_lowercase c) _ (h c) (lower_chars-IsLowercase to_lowercase cs h)

-- A label of the form that host names have: not empty, of the characters a to z, 0 to 9 and the
-- dash, with no dash at its start or at its end.
pub record IsLabel (label : Text) : Type 0 where
  pub chars : All IsHostChar label
  full : is_empty label ≡ false
  starts : StartsWell label
  ends : trim_end dash label ≡ label

or_service-IsLabel : (t : Text) → IsGood t → trim_end dash t ≡ t → IsLabel (or_service t)
unfolding trim_end
or_service-IsLabel [] g e = record {
  chars = ground arith;
  full = refl;
  starts = ground arith;
  ends = refl;
}
or_service-IsLabel (x ∷ t) g e = record { chars = g.0; full = refl; starts = g.1; ends = e }

pub service_hostname-IsLabel :
    (to_lowercase : ℕ → Text) (value : Text)
    → ((c : ℕ) → All IsLowercase (to_lowercase c))
    → (label : Text) × (service_hostname to_lowercase value ≡ label ++ codes ".medium")
      × IsLabel label
unfolding service_hostname host_label
service_hostname-IsLabel to_lowercase value h =
    let out = (push_chars (lower_chars to_lowercase value) ([], false)).0 in
    let good =
      push_chars-IsGood (lower_chars to_lowercase value) [] false
        (lower_chars-IsLowercase to_lowercase value h) (tt, tt) in
    (
      _,
      refl,
      or_service-IsLabel (trim_end dash out)
          (trim_end-All IsHostChar dash out good.0, trim_end-starts dash out good.1)
          (trim_end_twice dash out),
    )

map-lower : (xs : Text) → All IsLowercase xs → map to_ascii_lowercase xs ≡ xs
unfolding to_ascii_lowercase
map-lower [] h = refl
map-lower (x ∷ xs) h =
    let same : to_ascii_lowercase x ≡ x = ground arith in rw (same, map-lower xs h.1) refl

-- The services' names lead to services of that name.
pub record IsNamed (n : VirtualNetwork) : Type 0 where
  sound :
      (h : Text) (i : ℕ)
      → lookup h n.by_hostname ≡ some i
      → (v : VirtualService) × (get_elem? n.services i ≡ some v) × (v.hostname ≡ h)
  complete :
      (i : ℕ) (v : VirtualService)
      → get_elem? n.services i ≡ some v
      → (j : ℕ) × (lookup v.hostname n.by_hostname ≡ some j)

get_elem?-append :
    {A : Type 0} (xs : List A) (x : A) (i : ℕ) {v : A}
    → get_elem? (xs ++ x ∷ []) i ≡ some v
    → (get_elem? xs i ≡ some v) ⊎ (v ≡ x)
get_elem?-append [] x zero e = inr (cc)
get_elem?-append [] x (suc i) e = cc
get_elem?-append (y ∷ xs) x zero e = inl e
get_elem?-append (y ∷ xs) x (suc i) e = get_elem?-append xs x i e

get_elem?-kept :
    {A : Type 0} (xs : List A) (x : A) (i : ℕ) {v : A}
    → get_elem? xs i ≡ some v
    → get_elem? (xs ++ x ∷ []) i ≡ some v
get_elem?-kept [] x i e = cc
get_elem?-kept (y ∷ xs) x zero e = e
get_elem?-kept (y ∷ xs) x (suc i) e = get_elem?-kept xs x i e

-- The network with one more service.
module _ (n : VirtualNetwork) (w : VirtualService) (named : IsNamed n) where
  insert_sound :
      (h : Text) (i : ℕ)
      → lookup h ((w.hostname, length n.services) ∷ n.by_hostname) ≡ some i
      → (v : VirtualService) × (get_elem? (n.services ++ w ∷ []) i ≡ some v) × (v.hostname ≡ h)
  unfolding lookup
  insert_sound h i e = elim (Bool-cases (bytes_eq w.hostname h)) [
    | inl same ↦
        let at : length n.services ≡ i = own (rw same at e) in
        (w, rw (← at) (get_elem?-last n.services w), (bytes_eq_iff w.hostname h).0 same)
    | inr other ↦
        let (v, got, name) = named.sound h i (rw other at e) in
        (v, get_elem?-kept n.services w i got, name)
  ]
    where
      own : some (length n.services) ≡ some i → length n.services ≡ i
      own e = cc

  insert_complete :
      (i : ℕ) (v : VirtualService)
      → get_elem? (n.services ++ w ∷ []) i ≡ some v
      → (j : ℕ) × (lookup v.hostname ((w.hostname, length n.services) ∷ n.by_hostname) ≡ some j)
  unfolding lookup
  insert_complete i v e = elim (Bool-cases (bytes_eq w.hostname v.hostname)) [
    | inl same ↦ (length n.services, rw same refl)
    | inr other ↦ rw other (earlier other (get_elem?-append n.services w i e))
  ]
    where
      earlier :
          bytes_eq w.hostname v.hostname ≡ false
          → (get_elem? n.services i ≡ some v) ⊎ (v ≡ w)
          → (j : ℕ) × (lookup v.hostname n.by_hostname ≡ some j)
      earlier other (inl got) = named.complete i v got
      earlier other (inr new) =
          let same : bytes_eq w.hostname v.hostname ≡ true = rw new (bytes_eq_refl w.hostname) in cc

module _ (to_lowercase : ℕ → Text) where
  add-IsNamed :
      (s : PublishedService) (a : Ipv4Address) (n : VirtualNetwork)
      → IsNamed n
      → IsNamed (add_service to_lowercase s a n)
  unfolding add_service
  add-IsNamed s a n named = record {
    sound = insert_sound n _ named;
    complete = insert_complete n _ named;
  }

  then_added :
      (r : Result NetworkError Ipv4Address)
      (again : Ipv4Address → Result NetworkError VirtualNetwork) {m : VirtualNetwork}
      → ((a : Ipv4Address) → again a ≡ ok m → IsNamed m)
      → (r >>= again) ≡ ok m
      → IsNamed m
  then_added (ok a) again h e = h a e
  then_added (err x) again h e = cc

  ok_injective :
      (r : Result NetworkError VirtualNetwork) {a b : VirtualNetwork} → r ≡ ok a → r ≡ ok b → a ≡ b
  ok_injective r e f = cc

  add_services-IsNamed :
      (ss : List PublishedService) (index : ℕ) (n : VirtualNetwork) {m : VirtualNetwork}
      → IsNamed n
      → add_services to_lowercase index ss n ≡ ok m
      → IsNamed m
  unfolding add_services
  add_services-IsNamed [] index n named e = subst IsNamed (ok_injective (ok n) refl e) named
  add_services-IsNamed (s ∷ ss) index n named e = elim (Bool-cases (ltb 200 index)) [
    | inl many ↦ let no = rw many at e in cc
    | inr few ↦
        then_added (service_addr index) _
          (λ a. add_services-IsNamed ss (suc index) _ (add-IsNamed s a n named)) (rw few at e)
  ]

empty-IsNamed : IsNamed empty_network
unfolding lookup
empty-IsNamed = record { sound = λ h i e. cc; complete = λ i v e. cc }

-- What `resolve_hostname` finds for a name has the normalized name as its host name, and it finds a service
-- for a name that is normalized to the host name of one.
pub resolve_hostname_found :
    (to_lowercase : ℕ → Text) (ss : List PublishedService) (n : VirtualNetwork)
    → new_network to_lowercase ss ≡ ok n
    → ((name : Text) (v : VirtualService)
        → resolve_hostname n name ≡ some v
        → v.hostname ≡ normalized name)
      × ((i : ℕ) (w : VirtualService) (name : Text)
          → get_elem? n.services i ≡ some w
          → w.hostname ≡ normalized name
          → (v : VirtualService) × (resolve_hostname n name ≡ some v) × (v.hostname ≡ w.hostname))
unfolding new_network resolve_hostname
resolve_hostname_found to_lowercase ss n e = (sound, complete)
  where
    named : IsNamed n
    named = add_services-IsNamed to_lowercase ss 0 empty_network empty-IsNamed e

    sound :
        (name : Text) (v : VirtualService)
        → resolve_hostname n name ≡ some v
        → v.hostname ≡ normalized name
    sound name v e =
        let (i, at, got) = service_at-some n (lookup (normalized name) n.by_hostname) e in
        let (w, got', is) = named.sound (normalized name) i at in
        let same : w ≡ v = cc in rw (← same) is

    complete :
        (i : ℕ) (w : VirtualService) (name : Text)
        → get_elem? n.services i ≡ some w
        → w.hostname ≡ normalized name
        → (v : VirtualService) × (resolve_hostname n name ≡ some v) × (v.hostname ≡ w.hostname)
    complete i w name got is =
        let (j, at) = named.complete i w got in
        let (v, got', name') = named.sound w.hostname j at in (v, rw (← is, at) got', name')
