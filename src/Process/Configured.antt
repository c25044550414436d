-- ===== src/Process/Configured.antt =====
-- The configuration file of code/src/src/config-parser.cpp gives each process its entry.
use cs451_2020_project.Base.{
  ℕ, ◌≤◌, ◌<◌, ◌≡◌, refl, sym, subst, List, [], ◌∷◌, arith, length, get_elem?-inside, All, All-imp,
  All-get_elem?, ok,
}
use cs451_2020_project.Message.{max_processes}
use cs451_2020_project.Config.{Config, first_number, other_numbers, parse}
use cs451_2020_project.Config.Lines.{from_zero}
use cs451_2020_project.Config.Order.{IsLine, parse_lem}
use cs451_2020_project.PriorityQueue.Sort
use cs451_2020_project.Process.Traffic.{IsConfigured}

-- A line of the file for `n` processes: one of them, and at most 128 that it depends on.
abbrev pub IsEntry : ℕ → List ℕ → Type 0
IsEntry n [] = ⊥
IsEntry n (p ∷ ps) =
    (0 < p) × (p ≤ n) × (length ps ≤ max_processes) × All (λ q. (0 < q) × (q ≤ n)) ps

IsEntry-IsLine :
    (n cap : ℕ) (line : List ℕ) → max_processes ≤ cap → IsEntry n line → IsLine n cap line
IsEntry-IsLine n cap [] room h = h
IsEntry-IsLine n cap (p ∷ ps) room h = (h.0, h.1, omega (arith, h.2))

from_zero-known :
    (n : ℕ) (ps : List ℕ)
    → n ≤ max_processes
    → All (λ q. (0 < q) × (q ≤ n)) ps
    → All (λ q. q < max_processes) (from_zero ps)
from_zero-known n [] few h = tt
from_zero-known n (p ∷ ps) few h = (omega (arith, h.0.0, h.0.1), from_zero-known n ps few h.1)

length-from_zero : (ps : List ℕ) → length (from_zero ps) ≡ length ps
length-from_zero [] = refl
length-from_zero (p ∷ ps) = omega (arith, length-from_zero ps)

IsEntry-known :
    (n : ℕ) (line : List ℕ)
    → n ≤ max_processes
    → IsEntry n line
    → All (λ q. q < max_processes) (from_zero (other_numbers line))
      × (length (from_zero (other_numbers line)) ≤ max_processes)
IsEntry-known n [] few h = absurd h
IsEntry-known n (p ∷ ps) few h =
    (from_zero-known n ps few h.3, omega (arith, length-from_zero ps, h.2))

-- From a file with one line for each of `n` processes, up to 128, in any order, each with at most 128
-- dependencies among them, the parser makes a configuration with an entry for each process, as the
-- layers need it: of at most 128 known processes.
pub parse-IsConfigured :
    (memory first : List ℕ) (n : ℕ) (lines : List (List ℕ))
    → n ≤ max_processes
    → max_processes ≤ length memory
    → length lines ≡ n
    → All (IsEntry n) lines
    → Sort.IsDistinct first_number lines
    → (c : Config) × (parse memory first lines ≡ ok c)
      × ((id : ℕ) → id < n → IsConfigured id c.deps)
parse-IsConfigured memory first n lines few room len good apart =
    let are_lines =
      All-imp (IsEntry n) (IsLine n (length memory)) lines
        (λ line h. IsEntry-IsLine n (length memory) line room h) good in
    let (c, run, size, entries) =
      parse_lem memory first n lines (omega arith) len are_lines apart in
    (
      c,
      run,
      λ id h.
          let (d, at) = get_elem?-inside c.deps id (omega (arith, size)) in
          let (process, from) = entries id d at in
          let (j, line, found, _, depends) = from in
          let (known, short) =
            IsEntry-known n line few (All-get_elem? (IsEntry n) lines j line good found) in
          record {
            dep = d;
            mine = at;
            known = subst (All (λ q. q < max_processes)) (sym depends) known;
            room = subst (λ l. length l ≤ max_processes) (sym depends) short;
          },
    )
