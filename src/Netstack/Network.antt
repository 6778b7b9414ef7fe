-- ===== src/Netstack/Network.antt =====
-- The virtual network: names and addresses of the published services. crates/medium-netstack/src/lib.rs.
-- A Rust string is here the list of its characters. What `char::to_lowercase` does with a character
-- is a parameter; a `BTreeMap` is the list of what was inserted into it, the latest first.
use medium.Common.{
  ℕ, suc, ◌+◌, ◌%◌, ◌^◌, Bool, true, false, not, ◌&&◌, ◌||◌, List, [], ◌∷◌, ◌++◌, map, Option, none,
  some, Bytes, codes, bytes_eq, length, get_elem?, ltb, leb, ◌==◌, if◌then◌else◌, Result, ok, err,
  ◌>>=◌,
}

abbrev pub Text : Type 0
Text = List ℕ

abbrev pub Ipv4Address : Type 0
Ipv4Address = Bytes

pub record PublishedService : Type 0 where
  pub id : Text
  pub label : Option Text
  pub kind : Text

pub record VirtualService : Type 0 where
  pub id : Text
  pub hostname : Text
  pub addr : Ipv4Address
  pub kind : Text

pub record VirtualNetwork : Type 0 where
  pub client_addr : Ipv4Address
  pub dns_addr : Ipv4Address
  pub prefix_len : ℕ
  pub services : List VirtualService
  pub by_hostname : List (Text × ℕ)
  pub by_addr : List (Ipv4Address × ℕ)

pub data NetworkError : Type 0 where
  too_many_services index_too_large outside_subnet : NetworkError

-- `BTreeMap::get`.
unfoldable pub lookup : Bytes → List (Bytes × ℕ) → Option ℕ
lookup k [] = none
lookup k ((l, v) ∷ m) = if bytes_eq l k then some v else lookup k m

unfoldable pub is_ascii_alphanumeric : ℕ → Bool
is_ascii_alphanumeric c =
    (leb 48 c && leb c 57) || (leb 65 c && leb c 90) || (leb 97 c && leb c 122)

abbrev pub dash : ℕ
dash = 45

abbrev pub dot : ℕ
dot = 46

abbrev pub keep_char : ℕ → ℕ → Text → Text
keep_char c x [] = if x == c then [] else x ∷ []
keep_char c x (y ∷ ys) = x ∷ y ∷ ys

-- A text without the characters `c` at its end: `trim_end_matches`, and the loop that pops dashes.
unfoldable pub trim_end : ℕ → Text → Text
trim_end c [] = []
trim_end c (x ∷ xs) = keep_char c x (trim_end c xs)

abbrev pub is_empty : Text → Bool
is_empty [] = true
is_empty (x ∷ xs) = false

-- One character of `service_hostname`: the text so far, and `last_dash`.
unfoldable pub push_char : ℕ → Text × Bool → Text × Bool
push_char c (out, last_dash) =
    if is_ascii_alphanumeric c
    then (out ++ c ∷ [], false)
    else if not last_dash && not (is_empty out)
    then (out ++ dash ∷ [], true)
    else (out, last_dash)

unfoldable pub push_chars : Text → Text × Bool → Text × Bool
push_chars [] s = s
push_chars (c ∷ cs) s = push_chars cs (push_char c s)

unfoldable pub lower_chars : (ℕ → Text) → Text → Text
lower_chars to_lowercase [] = []
lower_chars to_lowercase (c ∷ cs) = to_lowercase c ++ lower_chars to_lowercase cs

abbrev pub or_service : Text → Text
or_service [] = codes "service"
or_service (x ∷ xs) = x ∷ xs

unfoldable pub host_label : (ℕ → Text) → Text → Text
host_label to_lowercase value =
    or_service (trim_end dash (push_chars (lower_chars to_lowercase value) ([], false)).0)

unfoldable pub service_hostname : (ℕ → Text) → Text → Text
service_hostname to_lowercase value = host_label to_lowercase value ++ codes ".medium"

unfoldable pub service_addr : ℕ → Result NetworkError Ipv4Address
service_addr index =
    if ltb 65535 index
    then err index_too_large
    else (let host = (10 + index) % 2 ^ 16 in
        if ltb 254 host then err outside_subnet else ok (10 ∷ 88 ∷ 0 ∷ host % 256 ∷ []))

abbrev unwrap_or : Option Text → Text → Text
unwrap_or none d = d
unwrap_or (some t) d = t

-- What the loop of `VirtualNetwork::new` does with a service that has an address.
unfoldable pub add_service :
    (ℕ → Text) → PublishedService → Ipv4Address → VirtualNetwork → VirtualNetwork
add_service to_lowercase s addr n =
    let hostname = service_hostname to_lowercase (unwrap_or s.label s.id) in
    record n {
      services =
          n.services ++ record { id = s.id; hostname = hostname; addr = addr; kind = s.kind } ∷ [];
      by_hostname = (hostname, length n.services) ∷ n.by_hostname;
      by_addr = (addr, length n.services) ∷ n.by_addr;
    }

unfoldable pub add_services :
    (ℕ → Text) → ℕ → List PublishedService → VirtualNetwork → Result NetworkError VirtualNetwork
add_services to_lowercase index [] n = ok n
add_services to_lowercase index (s ∷ ss) n =
    if ltb 200 index
    then err too_many_services
    else (service_addr index >>= λ addr.
        add_services to_lowercase (suc index) ss (add_service to_lowercase s addr n))

abbrev pub empty_network : VirtualNetwork
empty_network = record {
  client_addr = 10 ∷ 88 ∷ 0 ∷ 2 ∷ [];
  dns_addr = 10 ∷ 88 ∷ 0 ∷ 1 ∷ [];
  prefix_len = 24;
  services = [];
  by_hostname = [];
  by_addr = [];
}

unfoldable pub new_network : (ℕ → Text) → List PublishedService → Result NetworkError VirtualNetwork
new_network to_lowercase services = add_services to_lowercase 0 services empty_network

-- `and_then(|index| self.services.get(*index))`.
abbrev pub service_at : VirtualNetwork → Option ℕ → Option VirtualService
service_at n none = none
service_at n (some i) = get_elem? n.services i

unfoldable pub to_ascii_lowercase : ℕ → ℕ
to_ascii_lowercase c = if leb 65 c && leb c 90 then c + 32 else c

-- The form of a name in which the network looks it up.
unfoldable pub normalized : Text → Text
normalized hostname = map to_ascii_lowercase (trim_end dot hostname)

unfoldable pub resolve_hostname : VirtualNetwork → Text → Option VirtualService
resolve_hostname n hostname = service_at n (lookup (normalized hostname) n.by_hostname)

unfoldable pub service_for_addr : VirtualNetwork → Ipv4Address → Option VirtualService
service_for_addr n addr = service_at n (lookup addr n.by_addr)
