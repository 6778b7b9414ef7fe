-- ===== src/Netstack/Names.antt =====
-- Which names lead to a service: its host name in any case of its letters, with any number of dots
-- behind it.
use mathlib.Core.List.{append-nil}
use medium.Common.{
  some_injective, ok_injective, ℕ, zero, suc, ◌+◌, ◌≤◌, ◌<◌, ◌≡◌, ◌≢◌, ◌⊎◌, refl, sym, subst, inl,
  inr, false, List, [], ◌∷◌, ◌++◌, map, arith, codes, Bool-cases, some, Result, ok, err, get_elem?,
  All, All-append, ltb, ◌==◌, ◌>>=◌,
}
use medium.Netstack.Network.{
  Text, Ipv4Address, PublishedService, VirtualService, VirtualNetwork, NetworkError, dot, trim_end,
  keep_char, to_ascii_lowercase, normalized, add_service, add_services, service_addr, empty_network,
  new_network, resolve_hostname,
}
use medium.Netstack.Hostnames.{
  IsLowercase, IsHostChar, IsLabel, service_hostname-IsLabel, resolve_hostname_found,
}

abbrev pub dots : ℕ → Text
dots zero = []
dots (suc n) = 46 ∷ dots n

-- The second character is the first, where that is no capital of ASCII, or its small letter.
abbrev pub LowerOf : ℕ → ℕ → Type 0
LowerOf c d = (((c < 65) ⊎ (90 < c)) × (d ≡ c)) ⊎ ((65 ≤ c) × (c ≤ 90) × (d ≡ c + 32))

abbrev pub AllLowerOf : Text → Text → Type 0
AllLowerOf [] [] = Unit
AllLowerOf (c ∷ cs) (d ∷ ds) = LowerOf c d × AllLowerOf cs ds
AllLowerOf _ _ = ⊥

-- The name is this host name, in any case of its ASCII letters and with dots behind it.
abbrev pub Spells : Text → Text → Type 0
Spells name hostname = (base : Text) × (n : ℕ) × (name ≡ base ++ dots n) × AllLowerOf base hostname

lower-LowerOf : (c : ℕ) → LowerOf c (to_ascii_lowercase c)
unfolding to_ascii_lowercase
lower-LowerOf c = ground arith

map-AllLowerOf : (cs : Text) → AllLowerOf cs (map to_ascii_lowercase cs)
map-AllLowerOf [] = tt
map-AllLowerOf (c ∷ cs) = (lower-LowerOf c, map-AllLowerOf cs)

LowerOf-lower : (c d : ℕ) → LowerOf c d → to_ascii_lowercase c ≡ d
unfolding to_ascii_lowercase
LowerOf-lower c d h = ground arith

AllLowerOf-map : (cs ds : Text) → AllLowerOf cs ds → map to_ascii_lowercase cs ≡ ds
AllLowerOf-map [] [] h = refl
AllLowerOf-map (c ∷ cs) (d ∷ ds) h = rw (LowerOf-lower c d h.0, AllLowerOf-map cs ds h.1) refl
AllLowerOf-map [] (d ∷ ds) h = elim h [ ]
AllLowerOf-map (c ∷ cs) [] h = elim h [ ]

-- What `trim_end` takes off is dots.
trim_end-dots : (xs : Text) → (n : ℕ) × (xs ≡ trim_end dot xs ++ dots n)
unfolding trim_end
trim_end-dots [] = (0, refl)
trim_end-dots (x ∷ xs) = let (n, e) = trim_end-dots xs in kept n (trim_end dot xs) e
  where
    kept :
        (n : ℕ) (ys : Text) → xs ≡ ys ++ dots n → (m : ℕ) × (x ∷ xs ≡ keep_char dot x ys ++ dots m)
    kept n [] e = elim (Bool-cases (x == dot)) [
      | inl is ↦ let same : x ≡ 46 = ground (arith, is) in (suc n, rw (is, e, same) refl)
      | inr other ↦ (n, rw (other, e) refl)
    ]
    kept n (y ∷ ys) e = (n, rw e refl)

trim_end-dots-nil : (n : ℕ) → trim_end dot (dots n) ≡ []
unfolding trim_end
trim_end-dots-nil zero = refl
trim_end-dots-nil (suc n) = rw (trim_end-dots-nil n) refl

trim_end-append-dots : (xs : Text) (n : ℕ) → trim_end dot (xs ++ dots n) ≡ trim_end dot xs
unfolding trim_end
trim_end-append-dots [] n = trim_end-dots-nil n
trim_end-append-dots (x ∷ xs) n = rw (trim_end-append-dots xs n) refl

-- A text that ends in `m` or `M`, as every host name does.
abbrev EndsWell : Text → Type 0
EndsWell [] = ⊥
EndsWell (x ∷ []) = x ≢ dot
EndsWell (x ∷ y ∷ ys) = EndsWell (y ∷ ys)

EndsWell-trim : (xs : Text) → EndsWell xs → trim_end dot xs ≡ xs
unfolding trim_end
EndsWell-trim [] h = refl
EndsWell-trim (x ∷ []) h = let other : (x == dot) ≡ false = ground (arith, h) in rw other refl
EndsWell-trim (x ∷ y ∷ ys) h = rw (EndsWell-trim (y ∷ ys) h) refl

EndsWell-base :
    (base hostname : Text) → AllLowerOf base hostname → EndsWell hostname → EndsWell base
EndsWell-base [] [] a h = h
EndsWell-base [] (d ∷ ds) a h = a
EndsWell-base (c ∷ []) (d ∷ []) a h = ground (arith, h, a.0)
EndsWell-base (c ∷ e ∷ cs) (d ∷ f ∷ ds) a h = EndsWell-base (e ∷ cs) (f ∷ ds) a.1 h
EndsWell-base (c ∷ cs) [] a h = elim a [ ]
EndsWell-base (c ∷ []) (d ∷ f ∷ ds) a h = elim a.1 [ ]
EndsWell-base (c ∷ e ∷ cs) (d ∷ []) a h = elim a.1 [ ]

EndsWell-append : (xs : Text) (y : ℕ) (ys : Text) → EndsWell (y ∷ ys) → EndsWell (xs ++ y ∷ ys)
EndsWell-append [] y ys h = h
EndsWell-append (x ∷ []) y ys h = h
EndsWell-append (x ∷ z ∷ xs) y ys h = EndsWell-append (z ∷ xs) y ys h

Spells-normalized :
    (name hostname : Text) → EndsWell hostname → Spells name hostname → normalized name ≡ hostname
unfolding normalized
Spells-normalized name hostname h (base, n, e, a) =
    rw (e, trim_end-append-dots base n, EndsWell-trim base (EndsWell-base base hostname a h))
      (AllLowerOf-map base hostname a)

normalized-Spells : (name : Text) → Spells name (normalized name)
unfolding normalized
normalized-Spells name =
    let (n, e) = trim_end-dots name in (trim_end dot name, n, e, map-AllLowerOf (trim_end dot name))

-- The host name is a label and `.medium`.
abbrev IsHostname : VirtualService → Type 0
IsHostname w = (label : Text) × (w.hostname ≡ label ++ codes ".medium") × IsLabel label

module _ (to_lowercase : ℕ → Text) (lowers : (c : ℕ) → All IsLowercase (to_lowercase c)) where
  add-IsHostname :
      (s : PublishedService) (a : Ipv4Address) (n : VirtualNetwork)
      → All IsHostname n.services
      → All IsHostname (add_service to_lowercase s a n).services
  unfolding add_service
  add-IsHostname s a n h =
      All-append IsHostname n.services _ h (service_hostname-IsLabel to_lowercase _ lowers, tt)

  then_added :
      (r : Result NetworkError Ipv4Address)
      (again : Ipv4Address → Result NetworkError VirtualNetwork) {m : VirtualNetwork}
      → ((a : Ipv4Address) → again a ≡ ok m → All IsHostname m.services)
      → (r >>= again) ≡ ok m
      → All IsHostname m.services
  then_added (ok a) again h e = h a e
  then_added (err x) again h e = cc

  add_services-IsHostname :
      (ss : List PublishedService) (index : ℕ) (n : VirtualNetwork) {m : VirtualNetwork}
      → All IsHostname n.services
      → add_services to_lowercase index ss n ≡ ok m
      → All IsHostname m.services
  unfolding add_services
  add_services-IsHostname [] index n h e =
      subst (λ r. All IsHostname r.services) (ok_injective NetworkError e) h
  add_services-IsHostname (s ∷ ss) index n h e = elim (Bool-cases (ltb 200 index)) [
    | inl many ↦ let e' = rw many at e in cc
    | inr few ↦
        then_added (service_addr index) _
          (λ a. add_services-IsHostname ss (suc index) _ (add-IsHostname s a n h)) (rw few at e)
  ]

All-get_elem? :
    {A : Type 0} (P : A → Type 0) (xs : List A) (i : ℕ) {x : A}
    → All P xs
    → get_elem? xs i ≡ some x
    → P x
All-get_elem? P [] i h e = cc
All-get_elem? P (y ∷ xs) zero h e = subst P (some_injective e) h.0
All-get_elem? P (y ∷ xs) (suc i) h e = All-get_elem? P xs i h.1 e

AllLowerOf-label :
    (cs : Text) → All IsHostChar cs → AllLowerOf (cs ++ codes ".medium") (cs ++ codes ".medium")
unfolding to_ascii_lowercase
AllLowerOf-label [] h = map-AllLowerOf (codes ".medium")
AllLowerOf-label (c ∷ cs) h = (ground (arith, h.0), AllLowerOf-label cs h.1)

-- The host name of a service leads to itself.
Spells-itself : (w : VirtualService) → IsHostname w → Spells w.hostname w.hostname
Spells-itself w (label, e, l) = rw e (
  label ++ codes ".medium",
  0,
  sym (append-nil (label ++ codes ".medium")),
  AllLowerOf-label label l.chars,
)

hostname-EndsWell : (w : VirtualService) → IsHostname w → EndsWell w.hostname
hostname-EndsWell w (label, e, l) =
    rw e (EndsWell-append label 46 (codes "medium") (λ h. ground (arith, h)))

-- If `to_lowercase` leaves no ASCII capital: what `resolve_hostname` finds for a name is a service with
-- that host name, where the name may have ASCII capitals for the letters of the host name and dots behind
-- it. For every such name of every service it finds a service with the same host name, and so for the host
-- name itself.
pub resolve_hostname_lem :
    (to_lowercase : ℕ → Text) (ss : List PublishedService) (n : VirtualNetwork)
    → ((c : ℕ) → All IsLowercase (to_lowercase c))
    → new_network to_lowercase ss ≡ ok n
    → ((name : Text) (v : VirtualService)
        → resolve_hostname n name ≡ some v
        → Spells name v.hostname)
      × ((i : ℕ) (w : VirtualService) (name : Text)
          → get_elem? n.services i ≡ some w
          → Spells name w.hostname
          → (v : VirtualService) × (resolve_hostname n name ≡ some v) × (v.hostname ≡ w.hostname))
      × ((i : ℕ) (w : VirtualService)
          → get_elem? n.services i ≡ some w
          → (v : VirtualService) × (resolve_hostname n w.hostname ≡ some v)
            × (v.hostname ≡ w.hostname))
unfolding new_network
resolve_hostname_lem to_lowercase ss n lowers e =
    let (sound, complete) = resolve_hostname_found to_lowercase ss n e in
    let named = add_services-IsHostname to_lowercase lowers ss 0 empty_network tt e in
    let found : (i : ℕ) (w : VirtualService) (name : Text)
        → get_elem? n.services i ≡ some w
        → Spells name w.hostname
        → (v : VirtualService) × (resolve_hostname n name ≡ some v) × (v.hostname ≡ w.hostname) =
      λ i w name got spells. complete i w name got (
        sym (
          Spells-normalized name w.hostname
            (hostname-EndsWell w (All-get_elem? IsHostname n.services i named got)) spells)) in
    (
      λ name v r. rw (sound name v r) (normalized-Spells name),
      found,
      λ i w got.
          found i w w.hostname got
            (Spells-itself w (All-get_elem? IsHostname n.services i named got)),
    )
