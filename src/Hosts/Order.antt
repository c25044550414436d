-- ===== src/Hosts/Order.antt =====
-- The order of the hosts that `Parser::hosts` of code/src/include/parser.hpp returns.
use cs451_2020_project.Base.{
  ℕ, zero, suc, sym, subst, ◌+◌, ◌%◌, ◌≤◌, ◌<◌, ◌≡◌, refl, ◌∙◌, Bool, ◌&&◌, List, [], ◌∷◌, Option,
  some, arith, ltb, ◌==◌, Bool-cases, inl, inr, length, get_elem?, All, All-get_elem?,
}
use cs451_2020_project.PriorityQueue.{Increasing}
use cs451_2020_project.PriorityQueue.Sort
use cs451_2020_project.PriorityQueue.Sort.{
  length-sort_by, All-sort_by, sort_by-Increasing, position,
}
use cs451_2020_project.Hosts.{
  Host, host_id, index, read, not_compact, least, greatest, sort, check_hosts, read_lines, hosts,
  local_port,
}

abbrev pub IsDistinct : List Host → Type 0
IsDistinct = Sort.IsDistinct host_id

sorted_up : (hs : List Host) → IsDistinct hs → Increasing host_id (sort hs)
unfolding sort
sorted_up hs d = sort_by-Increasing host_id hs d

length-sort : (hs : List Host) → length (sort hs) ≡ length hs
unfolding sort
length-sort hs = length-sort_by host_id hs

abbrev Within : ℕ → ℕ → Host → Type 0
Within lo hi h = (lo ≤ h.id) × (h.id < 1 + hi)

least-le : (k : ℕ) (hs : List Host) → least k hs ≤ k
unfolding least
least-le k [] = omega arith
least-le k (h ∷ hs) = ground (arith, least-le h.id hs, least-le k hs)

le-greatest : (k : ℕ) (hs : List Host) → k ≤ greatest k hs
unfolding greatest
le-greatest k [] = omega arith
le-greatest k (h ∷ hs) = ground (arith, le-greatest h.id hs, le-greatest k hs)

All-Within :
    (k l lo hi : ℕ) (hs : List Host) → lo ≤ least k hs → greatest l hs ≤ hi → All (Within lo hi) hs
unfolding least greatest
All-Within k l lo hi [] a b = tt
All-Within k l lo hi (h ∷ hs) a b = ground (
  arith,
  least-le h.id hs,
  least-le k hs,
  le-greatest h.id hs,
  le-greatest l hs,
  All-Within h.id l lo hi hs,
  All-Within k l lo hi hs,
  All-Within h.id h.id lo hi hs,
  All-Within k h.id lo hi hs,
)

read-injective : {a b : List Host} → read a ≡ read b → a ≡ b
read-injective e = ground arith

sort-Within :
    (x : Host) (xs : List Host)
    → least x.id xs ≡ 1
    → greatest x.id xs ≡ length (x ∷ xs)
    → All (Within 1 (length (sort (x ∷ xs)))) (sort (x ∷ xs))
unfolding sort
sort-Within x xs a b =
    let n = length (x ∷ xs) in
    rw (length-sort (x ∷ xs)) (
      All-sort_by host_id (Within 1 n) (x ∷ xs) (
        (omega (arith, least-le x.id xs), omega (arith, le-greatest x.id xs)),
        All-Within x.id x.id 1 n xs (omega arith) (omega arith),
      ))

check_hosts-read :
    (found hs : List Host)
    → check_hosts found ≡ read hs
    → (hs ≡ sort found) × All (Within 1 (length hs)) hs
unfolding check_hosts
check_hosts-read [] hs e = ground arith
check_hosts-read (x ∷ xs) hs e = elim (Bool-cases (ltb (length (x ∷ xs)) 2)) [
  | inl few ↦ cc (e, few)
  | inr many ↦ elim (Bool-cases (least x.id xs == 1 && greatest x.id xs == length (x ∷ xs))) [
    | inr bad ↦
        let run : check_hosts (x ∷ xs) ≡ not_compact = rw (many, bad) refl in
        absurd (ground (arith, run, e))
    | inl good ↦
        let same : sort (x ∷ xs) ≡ hs =
          (let run : check_hosts (x ∷ xs) ≡ read (sort (x ∷ xs)) = rw (many, good) refl in
            read-injective (sym run ∙ e)) in
        (
          sym same,
          subst (λ l. All (Within 1 (length l)) l) same
              (sort-Within x xs (ground arith) (ground arith)),
        )
  ]
]

local_port-get_elem? :
    (hs : List Host) (i : ℕ) (h : Host)
    → Increasing host_id hs
    → get_elem? hs i ≡ some h
    → local_port hs h.id ≡ some h.port
unfolding local_port
local_port-get_elem? [] i h inc e = ground arith
local_port-get_elem? (x ∷ xs) zero h inc e = ground arith
local_port-get_elem? (x ∷ xs) (suc i) h inc e =
    let later : x.id < h.id = All-get_elem? (λ (y : Host). x.id < y.id) xs i h inc.0 e in
    ground (arith, local_port-get_elem? xs i h inc.1 e)

module _ {ℓ} {Line : Type ℓ} (blank : Line → Bool) (scan : Line → Option Host) where
  -- In a hosts file that is accepted, and has no identifier twice, the host at position `i` of the
  -- result has the identifier `i + 1` and the index `i % 256`, and `local_port` finds its port.
  pub hosts-get_elem? :
      (lines : List Line) (found hs : List Host) (i : ℕ) (h : Host)
      → read_lines blank scan 0 lines ≡ read found
      → IsDistinct found
      → hosts blank scan lines ≡ read hs
      → get_elem? hs i ≡ some h
      → (h.id ≡ i + 1) × (index h ≡ i % 256) × (local_port hs h.id ≡ some h.port)
  unfolding hosts index
  hosts-get_elem? lines found hs i h r d e at =
      let checked : check_hosts found ≡ read hs =
        (let folded : hosts blank scan lines ≡ check_hosts found = rw (r, hosts) refl in
          sym folded ∙ e) in
      let (sorted, within) = check_hosts-read found hs checked in
      let inc : Increasing host_id hs =
        subst (Increasing host_id) (sym sorted) (sorted_up found d) in
      let here = position host_id 1 hs inc within i h at in
      (omega (arith, here), omega (arith, here), local_port-get_elem? hs i h inc at)
