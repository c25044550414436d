-- ===== src/Hosts/Lookup/Tests.antt =====
-- Examples for the look-up of a host. A name is a number here, and stands for itself as an address.
use cs451_2020_project.Base.{ℕ, ◌≡◌, refl, true, false, [], ◌∷◌, none, some, ltb}
use cs451_2020_project.Hosts.Lookup.{
  Resolver, inet, other, found, not_resolved, no_ipv4, new_host, first_inet, ip_lookup, host_ip,
  made, swap_bytes,
}

-- Names from 1000 on are looked up: 1000 has two addresses, 1001 none of IPv4, and others are unknown.
abbrev system : Resolver ℕ
system = record {
  is_address = λ name. ltb name 1000;
  inet_addr = λ name. name;
  inet_ntop = λ ip. ip;
  getaddrinfo = λ name. elim (ltb name 1001) [
    | true ↦ some (other ∷ inet 7 ∷ inet 8 ∷ [])
    | false ↦ elim (ltb name 1002) [ true ↦ some (other ∷ []) | false ↦ none ]
  ];
}

written_out : new_host system 1 5 11001 ≡ found (record { id = 1; ip = 5; port = 63786 })
unfolding new_host host_ip made swap_bytes
written_out = refl

looked_up : new_host system 2 1000 1 ≡ found (record { id = 2; ip = 7; port = 256 })
unfolding new_host host_ip made swap_bytes ip_lookup first_inet
looked_up = refl

without_ipv4 : new_host system 2 1001 1 ≡ no_ipv4
unfolding new_host host_ip made ip_lookup first_inet
without_ipv4 = refl

unknown : new_host system 2 1002 1 ≡ not_resolved
unfolding new_host host_ip made ip_lookup
unknown = refl
