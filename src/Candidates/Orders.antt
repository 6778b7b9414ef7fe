-- ===== src/Candidates/Orders.antt =====
-- What the comparisons of the candidates mean: falling priority, and the order of the checklist.
use Prim.Native.Nat.{compare, Ordering}
use medium.Netstack.Network.{to_ascii_lowercase}
use medium.Common.{
  ℤ, pos, negsuc, compare_int, then_with, compare_bytes, not_greater, ℕ, ◌≤◌, ◌<◌, ◌≡◌, ◌⊎◌, inl,
  inr, refl, sym, subst, true, [], ◌∷◌, map, arith, Option, none, some, Bytes, bytes_eq_iff,
  Bool-cases,
}
use medium.Candidates.{
  PeerCandidate, IceCandidate, IceCandidateKind, host, srflx, relay, by_priority, by_preference,
  candidate_preference_rank, ice_kind_rank, same_ice_candidate, eq_ignore_ascii_case,
}

-- The order of integers.
abbrev pub IntLe : ℤ → ℤ → Type 0
IntLe (pos a) (pos b) = a ≤ b
IntLe (pos a) (negsuc b) = ⊥
IntLe (negsuc a) (pos b) = Unit
IntLe (negsuc a) (negsuc b) = b ≤ a

compare_int-IntLe : (a b : ℤ) → not_greater (compare_int a b) ≡ true → IntLe a b
unfolding compare_int
compare_int-IntLe (pos a) (pos b) e = ground arith
compare_int-IntLe (pos a) (negsuc b) e = cc
compare_int-IntLe (negsuc a) (pos b) e = tt
compare_int-IntLe (negsuc a) (negsuc b) e = ground arith

-- The priority does not rise.
abbrev pub Falls : PeerCandidate → PeerCandidate → Type 0
Falls x y = IntLe y.priority x.priority

pub by_priority-Falls : (x y : PeerCandidate) → not_greater (by_priority x y) ≡ true → Falls x y
unfolding by_priority
by_priority-Falls x y e = compare_int-IntLe y.priority x.priority e

-- The order of texts.
abbrev pub BytesLe : Bytes → Bytes → Type 0
BytesLe [] ys = Unit
BytesLe (x ∷ xs) [] = ⊥
BytesLe (x ∷ xs) (y ∷ ys) = (x < y) ⊎ ((x ≡ y) × BytesLe xs ys)

data Compared (a b : ℕ) : Ordering → Type 0 where
  less : a < b → Compared a b Ordering.lt
  same : a ≡ b → Compared a b Ordering.eq
  more : b < a → Compared a b Ordering.gt

compare-Compared : (a b : ℕ) → Compared a b (compare a b)
compare-Compared a b = elim (order a b) [
  | inl h ↦
      let e : compare a b ≡ Ordering.lt = ground arith in subst (Compared a b) (sym e) (less h)
  | inr (inl h) ↦
      let e : compare a b ≡ Ordering.eq = ground arith in subst (Compared a b) (sym e) (same h)
  | inr (inr h) ↦
      let e : compare a b ≡ Ordering.gt = ground arith in subst (Compared a b) (sym e) (more h)
]
  where
    order : (a b : ℕ) → (a < b) ⊎ (a ≡ b) ⊎ (b < a)
    order a b = ground arith

compare_bytes-BytesLe : (a b : Bytes) → not_greater (compare_bytes a b) ≡ true → BytesLe a b
unfolding compare_bytes then_with
compare_bytes-BytesLe [] ys e = tt
compare_bytes-BytesLe (x ∷ xs) [] e = cc
compare_bytes-BytesLe (x ∷ xs) (y ∷ ys) e =
    by_first (compare x y) (compare-Compared x y) e (compare_bytes-BytesLe xs ys)
  where
    by_first :
        (o : Ordering)
        → Compared x y o
        → not_greater (then_with o (compare_bytes xs ys)) ≡ true
        → (not_greater (compare_bytes xs ys) ≡ true → BytesLe xs ys)
        → BytesLe (x ∷ xs) (y ∷ ys)
    by_first o (less h) e rest = inl h
    by_first o (same h) e rest = inr (h, rest e)
    by_first o (more h) e rest = cc

-- The host's own candidates come first, then the reflexive and then the relayed ones.
abbrev pub KindBefore : IceCandidateKind → IceCandidateKind → Type 0
KindBefore host srflx = Unit
KindBefore host relay = Unit
KindBefore srflx relay = Unit
KindBefore _ _ = ⊥

data KindCompared (a b : IceCandidateKind) : Ordering → Type 0 where
  earlier : KindBefore a b → KindCompared a b Ordering.lt
  alike : a ≡ b → KindCompared a b Ordering.eq
  later : KindCompared a b Ordering.gt

compare-KindCompared :
    (a b : IceCandidateKind) → KindCompared a b (compare (ice_kind_rank a) (ice_kind_rank b))
unfolding ice_kind_rank
compare-KindCompared host host = alike refl
compare-KindCompared host srflx = earlier tt
compare-KindCompared host relay = earlier tt
compare-KindCompared srflx host = later
compare-KindCompared srflx srflx = alike refl
compare-KindCompared srflx relay = earlier tt
compare-KindCompared relay host = later
compare-KindCompared relay srflx = later
compare-KindCompared relay relay = alike refl

rank_injective : (a b : IceCandidateKind) → ice_kind_rank a ≡ ice_kind_rank b → a ≡ b
unfolding ice_kind_rank
rank_injective host host e = refl
rank_injective srflx srflx e = refl
rank_injective relay relay e = refl
rank_injective host srflx e = cc
rank_injective host relay e = cc
rank_injective srflx host e = cc
rank_injective srflx relay e = cc
rank_injective relay host e = cc
rank_injective relay srflx e = cc

-- The candidate that was preferred: the same transport, in any case of its letters, kind, address and
-- port.
abbrev pub IsPreferred : Option IceCandidate → IceCandidate → Type 0
IsPreferred none c = ⊥
IsPreferred (some p) c =
    (map to_ascii_lowercase c.transport ≡ map to_ascii_lowercase p.transport)
    × (c.kind ≡ p.kind)
    × (c.addr ≡ p.addr)
    × (c.port ≡ p.port)

data RankOf (preferred : Option IceCandidate) (c : IceCandidate) : ℕ → Type 0 where
  first : IsPreferred preferred c → RankOf preferred c 0
  second : ¬ IsPreferred preferred c → RankOf preferred c 1

candidate_preference_rank-RankOf :
    (preferred : Option IceCandidate) (c : IceCandidate)
    → RankOf preferred c (candidate_preference_rank c preferred)
unfolding candidate_preference_rank same_ice_candidate eq_ignore_ascii_case
candidate_preference_rank-RankOf none c = second (λ h. h)
candidate_preference_rank-RankOf (some p) c =
    let transports =
      bytes_eq_iff (map to_ascii_lowercase c.transport) (map to_ascii_lowercase p.transport) in
    let addrs = bytes_eq_iff c.addr p.addr in
    elim (Bool-cases (same_ice_candidate c p)) [
      | inl e ↦ rw e (
          first (
            ground (arith, transports),
            rank_injective c.kind p.kind (ground arith),
            ground (arith, addrs),
            ground arith,
          ))
      | inr e ↦ rw e (
          second (λ (t, kind, a, port).
            let rank : ice_kind_rank c.kind ≡ ice_kind_rank p.kind = rw kind refl in
            ground (arith, transports, addrs, rank)))
    ]

-- Both are preferred, or none is.
abbrev pub Alike : Option IceCandidate → IceCandidate → IceCandidate → Type 0
Alike preferred x y =
    (IsPreferred preferred x × IsPreferred preferred y)
    ⊎ (¬ IsPreferred preferred x × ¬ IsPreferred preferred y)

-- x may stand before y: it is preferred, or its kind comes first, or its priority is higher, or the text
-- of its foundation comes first.
abbrev pub InOrder : Option IceCandidate → IceCandidate → IceCandidate → Type 0
InOrder preferred x y =
    (IsPreferred preferred x × ¬ IsPreferred preferred y)
    ⊎ (Alike preferred x y
        × (KindBefore x.kind y.kind
            ⊎ ((x.kind ≡ y.kind)
                × ((y.priority < x.priority)
                    ⊎ ((x.priority ≡ y.priority) × BytesLe x.foundation y.foundation)))))

module _ (preferred : Option IceCandidate) (x y : IceCandidate) where
  by_rest :
      (p q : Ordering)
      → KindCompared x.kind y.kind p
      → Compared y.priority x.priority q
      → not_greater (then_with p (then_with q (compare_bytes x.foundation y.foundation))) ≡ true
      → KindBefore x.kind y.kind
        ⊎ ((x.kind ≡ y.kind)
            × ((y.priority < x.priority)
                ⊎ ((x.priority ≡ y.priority) × BytesLe x.foundation y.foundation)))
  unfolding then_with
  by_rest p q (earlier h) k e = inl h
  by_rest p q later k e = cc
  by_rest p q (alike h) (less k) e = inr (h, inl k)
  by_rest p q (alike h) (more k) e = cc
  by_rest p q (alike h) (same k) e =
      inr (h, inr (sym k, compare_bytes-BytesLe x.foundation y.foundation e))

  by_ranks :
      (a b : ℕ) (rest : Ordering)
      → RankOf preferred x a
      → RankOf preferred y b
      → not_greater (then_with (compare a b) rest) ≡ true
      → (IsPreferred preferred x × ¬ IsPreferred preferred y)
        ⊎ (Alike preferred x y × (not_greater rest ≡ true))
  unfolding then_with
  by_ranks a b rest (first h) (first k) e = inr (inl (h, k), e)
  by_ranks a b rest (first h) (second k) e = inl (h, k)
  by_ranks a b rest (second h) (first k) e = cc
  by_ranks a b rest (second h) (second k) e = inr (inr (h, k), e)

  pub by_preference-InOrder :
      not_greater (by_preference preferred x y) ≡ true → InOrder preferred x y
  unfolding by_preference
  by_preference-InOrder e =
      elim (by_ranks _ _ _ (candidate_preference_rank-RankOf preferred x)
        (candidate_preference_rank-RankOf preferred y) e) [
          | inl h ↦ inl h
          | inr (h, rest) ↦ inr (
            h,
            by_rest _ _ (compare-KindCompared x.kind y.kind)
                (compare-Compared y.priority x.priority) rest,
          )
        ]
