-- ===== src/Netstack/Answers.antt =====
-- The DNS answers: the loop of `parse_query` ends, what a response holds, and what is left to answer.
use medium.Common.{
  ◌≢◌, ◌⊎◌, ℕ, zero, suc, ◌+◌, ◌≤◌, ◌<◌, ◌≡◌, refl, inl, inr, List, [], ◌∷◌, ◌++◌, arith, Bytes,
  Option, none, some, Option-cases, length, get_elem?, take, drop, true,
}
use medium.Netstack.Network.{Text, Ipv4Address, VirtualNetwork, VirtualService, resolve_hostname}
use medium.Netstack.Dns.{DnsQuery, on_length, read_labels, answer_query, send_reply, pump_dns}

get_elem?-beyond : {A : Type 0} (xs : List A) (i : ℕ) → length xs ≤ i → get_elem? xs i ≡ none
get_elem?-beyond [] i h = refl
get_elem?-beyond (x ∷ xs) zero h = elim h [ ]
get_elem?-beyond (x ∷ xs) (suc i) h = get_elem?-beyond xs i (omega arith)

module _ (from_utf8 : Bytes → Option Text) (packet : Bytes) where
  on_length-same :
      (offset : ℕ) (again again' : ℕ → Option (List Text × ℕ)) (o : Option ℕ)
      → ((next : ℕ) → offset ≤ next → again next ≡ again' next)
      → on_length from_utf8 packet offset again o ≡ on_length from_utf8 packet offset again' o
  on_length-same offset again again' none h = refl
  on_length-same offset again again' (some len) h = rw (h (offset + len) (omega arith)) refl

  -- The loop of `parse_query` ends: any fuel that exceeds the bytes left gives the same labels.
  pub read_labels_ends :
      (f g offset : ℕ)
      → length packet < offset + f
      → length packet < offset + g
      → read_labels from_utf8 f packet offset ≡ read_labels from_utf8 g packet offset
  unfolding read_labels
  read_labels_ends zero zero offset h k = refl
  read_labels_ends zero (suc g) offset h k = rw (get_elem?-beyond packet offset (omega arith)) refl
  read_labels_ends (suc f) zero offset h k = rw (get_elem?-beyond packet offset (omega arith)) refl
  read_labels_ends (suc f) (suc g) offset h k =
      on_length-same (offset + 1) (read_labels from_utf8 f packet) (read_labels from_utf8 g packet)
        (get_elem? packet offset) (λ next le. read_labels_ends f g next (omega arith) (omega arith))

  abbrev EndsAfter : ℕ → Option (List Text × ℕ) → Type 0
  EndsAfter offset none = Unit
  EndsAfter offset (some (ls, e)) = offset ≤ e

-- A response, given the query up to the end of its question, the flags, the count of the answers and
-- the answer: the number and the question of the query as they were, and no other records.
abbrev pub response_layout : Bytes → Bytes → Bytes → Bytes → Bytes
response_layout echoed flags count answer =
    take 2 echoed
    ++ flags
    ++ take 2 (drop 4 echoed)
    ++ count
    ++ (0 ∷ 0 ∷ [])
    ++ (0 ∷ 0 ∷ [])
    ++ drop 12 echoed
    ++ answer

-- The flags of a response without an error, one answer, and that answer: the name at offset 12, of
-- type A and class IN, valid for thirty seconds, with the four bytes of the address.
abbrev pub found_layout : Bytes → Ipv4Address → Bytes
found_layout echoed addr =
    response_layout echoed (129 ∷ 128 ∷ []) (0 ∷ 1 ∷ [])
      (192 ∷ 12 ∷ 0 ∷ 1 ∷ 0 ∷ 1 ∷ 0 ∷ 0 ∷ 0 ∷ 30 ∷ 0 ∷ 4 ∷ addr)

-- The flags of NXDOMAIN, and no answer.
abbrev pub not_found_layout : Bytes → Bytes
not_found_layout echoed = response_layout echoed (129 ∷ 131 ∷ []) (0 ∷ 0 ∷ []) []

abbrev layout_of : Bytes → Option Ipv4Address → Bytes
layout_of echoed none = not_found_layout echoed
layout_of echoed (some addr) = found_layout echoed addr

-- The answer to a query: the address of a service, where the name is a service's and the question is for an
-- IPv4 address (type 1, class 1), and otherwise NXDOMAIN.
abbrev pub IsAnswer : VirtualNetwork → DnsQuery → Bytes → Bytes → Type 0
IsAnswer network q echoed r =
    ((v : VirtualService) × (resolve_hostname network q.name ≡ some v)
      × (q.qtype ≡ 1)
      × (q.qclass ≡ 1)
      × (r ≡ found_layout echoed v.addr))
    ⊎ (((resolve_hostname network q.name ≡ none) ⊎ (q.qtype ≢ 1) ⊎ (q.qclass ≢ 1))
        × (r ≡ not_found_layout echoed))

module _ {E S : Type 0} (send : Bytes → E → S → Option S) where
  -- Where every reply can be sent, nothing is left to wait.
  pump_dns-empty :
      (from_utf8 : Bytes → Option Text) (network : VirtualNetwork) (waiting : List (Bytes × E))
      (s : S)
      → (pump_dns send from_utf8 network waiting s).0 ≡ true
      → (pump_dns send from_utf8 network waiting s).1 ≡ []
  unfolding pump_dns
  pump_dns-empty from_utf8 network [] s = λ h. refl
  pump_dns-empty from_utf8 network ((packet, remote) ∷ waiting) s =
      elim (Option-cases (send_reply send remote (answer_query from_utf8 packet network) s)) [
        | inl e ↦ rw (e, pump_dns) (λ h. cc)
        | inr (t, e) ↦ rw (e, pump_dns) (pump_dns-empty from_utf8 network waiting t)
      ]
