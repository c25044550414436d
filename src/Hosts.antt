-- ===== src/Hosts.antt =====
-- The hosts file: `Parser::Host` and `Parser::hosts` of code/src/include/parser.hpp, and `local_port`
-- of code/src/src/main.cpp. Names are looked up by the system: an address is a number.
pub mod Order
pub mod Trim
pub mod Lookup
pub mod Tests
use cs451_2020_project.Base.{
  ℕ, suc, ◌+◌, ◌-◌, ◌%◌, Bool, true, false, ◌&&◌, List, [], ◌∷◌, Option, none, some, ltb, ◌==◌,
  if◌then◌else◌, length,
}
use cs451_2020_project.PriorityQueue

pub record Host : Type 0 where
  pub id : ℕ
  pub ip : ℕ
  pub port : ℕ

abbrev pub host_id : Host → ℕ
host_id h = h.id

-- `Host::index`, an `unsigned char`.
pub index : Host → ℕ
index h = (h.id + 255) % 256

-- The exceptions of `hosts`, on a file that could be opened.
pub data Hosts : Type 0 where
  read : List Host → Hosts
  failed_at : ℕ → Hosts
  too_few : Hosts
  not_compact : Hosts

-- The identifiers that `std::minmax_element` finds, in a list that starts with identifier `k`.
unfoldable pub least : ℕ → List Host → ℕ
least k [] = k
least k (h ∷ hs) = if ltb h.id k then least h.id hs else least k hs

unfoldable pub greatest : ℕ → List Host → ℕ
greatest k [] = k
greatest k (h ∷ hs) = if ltb h.id k then greatest k hs else greatest h.id hs

-- `std::sort` by identifier.
unfoldable pub sort : List Host → List Host
unfolding PriorityQueue.sort_by
sort = PriorityQueue.sort_by host_id

-- What `hosts` does once the lines are read.
unfoldable pub check_hosts : List Host → Hosts
unfolding least greatest sort
check_hosts [] = too_few
check_hosts (h ∷ hs) =
    if ltb (length (h ∷ hs)) 2
    then too_few
    else (if least h.id hs == 1 && greatest h.id hs == length (h ∷ hs)
        then read (sort (h ∷ hs))
        else not_compact)

-- What the standard streams make of a line: is it blank when trimmed, and does it start with an
-- identifier, a name that can be looked up, and a port?
module _ {ℓ} {Line : Type ℓ} (blank : Line → Bool) (scan : Line → Option Host) where
  -- The loop over the lines: the hosts read, or the number of the line that failed.
  unfoldable pub read_lines : ℕ → List Line → Hosts
  read_lines line_num [] = read []
  read_lines line_num (line ∷ lines) =
      let rest = read_lines (line_num + 1) lines in
      if blank line then rest else elim (scan line) [
        | none ↦ failed_at (line_num + 1)
        | some host ↦ elim rest [ read hosts ↦ read (host ∷ hosts) | e ↦ e ]
      ]

  unfoldable pub hosts : List Line → Hosts
  unfolding read_lines check_hosts
  hosts lines = elim (read_lines 0 lines) [ read found ↦ check_hosts found | e ↦ e ]

-- `none`: no host has the identifier, and the program throws.
pub local_port : List Host → ℕ → Option ℕ
local_port [] id = none
local_port (h ∷ hs) id = if h.id == id then some h.port else local_port hs id
