-- ===== src/Config.antt =====
-- code/src/include/config-parser.hpp and code/src/src/config-parser.cpp. A line is the list of the
-- numbers that the standard stream reads from it, none of them negative.
pub mod Lines
pub mod Order
pub mod Tests
use cs451_2020_project.Base.{
  ℕ, ◌+◌, ◌%◌, ◌^◌, List, [], ◌∷◌, Run, ok, fault, out_of_fuel, ◌>>=◌, access,
}
use cs451_2020_project.StaticVec.{StaticVec, push_back}
use cs451_2020_project.PriorityQueue

-- `ConfigParser::Dependency`
pub record Dependency : Type 0 where
  pub process : ℕ
  pub depends : StaticVec ℕ

pub record Config : Type 0 where
  pub m : ℕ
  pub deps : List Dependency

abbrev pub dep_process : Dependency → ℕ
dep_process d = d.process

-- A stream that cannot read a number leaves or makes the variable zero.
abbrev pub first_number : List ℕ → ℕ
first_number [] = 0
first_number (n ∷ ns) = n

abbrev pub other_numbers : List ℕ → List ℕ
other_numbers [] = []
other_numbers (n ∷ ns) = ns

-- The loop of `parse_dependency`; the numbers are stored as `ProcessId`.
unfoldable pub push_dependencies : List ℕ → StaticVec ℕ → Run (StaticVec ℕ)
unfolding push_back
push_dependencies [] depends = ok depends
push_dependencies (process ∷ processes) depends =
    access (push_back depends ((process + 255) % 256)) >>= push_dependencies processes

-- `memory` is what the array of the new vector held.
unfoldable pub parse_dependency : List ℕ → List ℕ → Run Dependency
unfolding push_dependencies
parse_dependency memory line =
    push_dependencies (other_numbers line) (record { storage = memory; sz = 0 }) >>= λ depends.
    ok (record { process = first_number line % 256; depends = depends })

-- The loop of `parse`; each new vector finds the same memory.
unfoldable pub parse_dependencies : List ℕ → List (List ℕ) → Run (List Dependency)
unfolding parse_dependency
parse_dependencies memory [] = ok []
parse_dependencies memory (line ∷ lines) = do
  dep ← parse_dependency memory line
  deps ← parse_dependencies memory lines
  ok (dep ∷ deps)

-- `std::sort` by process.
unfoldable pub sort_dependencies : List Dependency → List Dependency
unfolding PriorityQueue.sort_by
sort_dependencies = PriorityQueue.sort_by dep_process

-- `parse`, on the lines after the first one and the number of messages that the first one has.
unfoldable pub parse : List ℕ → List ℕ → List (List ℕ) → Run Config
unfolding parse_dependencies sort_dependencies
parse memory first lines = parse_dependencies memory lines >>= λ deps.
    ok (record { m = first_number first; deps = sort_dependencies deps })
