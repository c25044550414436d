-- ===== src/Hosts/Tests.antt =====
-- Examples for the hosts file.
use cs451_2020_project.Base.{
  ℕ, ◌+◌, ◌≡◌, refl, inl, inr, Bool, true, false, List, [], ◌∷◌, ◌++◌, Option, none, some, arith,
}
use cs451_2020_project.PriorityQueue
use cs451_2020_project.Hosts.{
  Host, index, read, least, greatest, sort, check_hosts, read_lines, hosts, local_port,
}
use cs451_2020_project.Hosts.Trim.{trim, all_spaces, starts_with_space, ends_with_space, trim_lem}
use cs451_2020_project.Hosts.Order.{IsDistinct, hosts-get_elem?}

abbrev host : ℕ → Host
host id = record { id = id; ip = 16777343; port = 11000 + id }

-- Lines of which the system has made what it can: `none` is a blank line.
abbrev blank : Option Host → Bool
blank none = true
blank (some h) = false

abbrev as_read : Option Host → Option Host
as_read l = l

abbrev three_lines : List (Option Host)
three_lines = some (host 2) ∷ none ∷ some (host 3) ∷ some (host 1) ∷ []

found_are : read_lines blank as_read 0 three_lines ≡ read (host 2 ∷ host 3 ∷ host 1 ∷ [])
unfolding read_lines
found_are = refl

found-IsDistinct : IsDistinct (host 2 ∷ host 3 ∷ host 1 ∷ [])
found-IsDistinct =
    ((inr (omega arith), (inl (omega arith), tt)), ((inl (omega arith), tt), (tt, tt)))

hosts_are : hosts blank as_read three_lines ≡ read (host 1 ∷ host 2 ∷ host 3 ∷ [])
unfolding hosts read_lines check_hosts least greatest sort PriorityQueue.sort_by PriorityQueue.push
hosts_are = refl

hosts-get_elem?_example :
    ((host 3).id ≡ 3)
    × (index (host 3) ≡ 2)
    × (local_port (host 1 ∷ host 2 ∷ host 3 ∷ []) 3 ≡ some 11003)
hosts-get_elem?_example =
    hosts-get_elem? blank as_read three_lines (host 2 ∷ host 3 ∷ host 1 ∷ [])
      (host 1 ∷ host 2 ∷ host 3 ∷ []) 2 (host 3) found_are found-IsDistinct hosts_are refl

-- Identifiers that are neither distinct nor without a gap.
doubles_pass : check_hosts (host 1 ∷ host 1 ∷ host 3 ∷ []) ≡ read (host 1 ∷ host 1 ∷ host 3 ∷ [])
unfolding check_hosts least greatest sort PriorityQueue.sort_by PriorityQueue.push
doubles_pass = refl

abbrev line : List ℕ
line = b' ' ∷ 9 ∷ b'1' ∷ b' ' ∷ b'a' ∷ 13 ∷ []

trim_example : trim line ≡ b'1' ∷ b' ' ∷ b'a' ∷ []
unfolding trim
trim_example = refl

trim_lem_example :
    (before after : List ℕ) × (line ≡ before ++ (trim line ++ after))
    × (all_spaces before ≡ true)
    × (all_spaces after ≡ true)
    × (starts_with_space (trim line) ≡ false)
    × (ends_with_space (trim line) ≡ false)
trim_lem_example = trim_lem line
