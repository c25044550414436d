-- ===== src/Hosts/Lookup.antt =====
-- How `Parser::Host` of code/src/include/parser.hpp gets its address and its port. What the system knows
-- of addresses and names is a parameter.
pub mod Tests
use cs451_2020_project.Base.{
  ℕ, ◌+◌, ◌*◌, ◌/◌, ◌%◌, ◌^◌, ◌<◌, ◌≡◌, refl, sym, ap, ◌∙◌, inl, inr, Bool, true, false, List, [],
  ◌∷◌, ◌++◌, Option, none, some, arith, All, Bool-cases, if◌then◌else◌,
}
use cs451_2020_project.Hosts.{Host}

-- An entry of the list that `getaddrinfo` makes.
pub data Entry : Type 0 where
  inet : ℕ → Entry
  other : Entry

-- `inet_pton`, `inet_addr`, `inet_ntop` and `getaddrinfo`, of which the last may fail.
pub record Resolver {ℓ} (Name : Type ℓ) : Type ℓ where
  pub is_address : Name → Bool
  pub inet_addr : Name → ℕ
  pub inet_ntop : ℕ → Name
  pub getaddrinfo : Name → Option (List Entry)

-- A method that may throw.
pub data Found {ℓ} (A : Type ℓ) : Type ℓ where
  found : A → Found A
  not_resolved : Found A
  no_ipv4 : Found A

-- `htons` and `ntohs` on a little-endian machine, for 16 bits.
unfoldable pub swap_bytes : ℕ → ℕ
swap_bytes port = port % 256 * 256 + port / 256

-- A host at an address, if there is one.
unfoldable pub made : ℕ → ℕ → Found ℕ → Found Host
unfolding swap_bytes
made id port (found ip) = found (record { id = id; ip = ip; port = swap_bytes port })
made id port not_resolved = not_resolved
made id port no_ipv4 = no_ipv4

module _ {ℓ} {Name : Type ℓ} (system : Resolver Name) where
  -- The loop of `ipLookup`: the address of the first entry that has one.
  unfoldable pub first_inet : List Entry → Found ℕ
  first_inet [] = no_ipv4
  first_inet (inet ip ∷ res) = found (system.inet_addr (system.inet_ntop ip))
  first_inet (other ∷ res) = first_inet res

  unfoldable pub ip_lookup : Name → Found ℕ
  unfolding first_inet
  ip_lookup host = elim (system.getaddrinfo host) [
    | none ↦ not_resolved
    | some res ↦ first_inet res
  ]

  -- The address: written out, or looked up.
  unfoldable pub host_ip : Name → Found ℕ
  unfolding ip_lookup
  host_ip name = if system.is_address name then found (system.inet_addr name) else ip_lookup name

  -- The constructor.
  unfoldable pub new_host : ℕ → Name → ℕ → Found Host
  unfolding host_ip
  new_host id name port = made id port (host_ip name)

  -- `ipReadable()`
  unfoldable pub ip_readable : Host → Name
  ip_readable host = system.inet_ntop host.ip

  -- Entries without an address before the first one that has one are passed over.
  pub first_inet_lem :
      (others : List Entry) (ip : ℕ) (res : List Entry)
      → All (λ e. e ≡ other) others
      → first_inet (others ++ inet ip ∷ res) ≡ found (system.inet_addr (system.inet_ntop ip))
  unfolding first_inet
  first_inet_lem [] ip res h = refl
  first_inet_lem (inet x ∷ others) ip res h = absurd (ground (arith, h.0))
  first_inet_lem (other ∷ others) ip res h = first_inet_lem others ip res h.1

-- `portReadable()`
unfoldable pub port_readable : Host → ℕ
unfolding swap_bytes
port_readable host = swap_bytes host.port

swap_bytes_twice : (port : ℕ) → port < 2 ^ 16 → swap_bytes (swap_bytes port) ≡ port
unfolding swap_bytes
swap_bytes_twice port small = omega arith

made-readable :
    (id port : ℕ) (ip : Found ℕ) (h : Host)
    → port < 2 ^ 16
    → made id port ip ≡ found h
    → (port_readable h ≡ port) × (h.id ≡ id)
unfolding made port_readable
made-readable id port (found ip) h small e =
    let same : record { id = id; ip = ip; port = swap_bytes port } ≡ h = ground arith in
    (
      ap (λ (x : Host). swap_bytes x.port) (sym same) ∙ swap_bytes_twice port small,
      ap (λ (x : Host). x.id) (sym same),
    )
made-readable id port not_resolved h small e = absurd (ground arith)
made-readable id port no_ipv4 h small e = absurd (ground arith)

-- The readable port of a host is the port that it was made with, and its identifier the one.
pub port_readable-new_host {ℓ} :
    {Name : Type ℓ} (system : Resolver Name) (id port : ℕ) (name : Name) (h : Host)
    → port < 2 ^ 16
    → new_host system id name port ≡ found h
    → (port_readable h ≡ port) × (h.id ≡ id)
unfolding new_host
port_readable-new_host system id port name h small e =
    made-readable id port (host_ip system name) h small e
