-- ===== src/Config/Order.antt =====
-- The order of the entries that `parse` of code/src/src/config-parser.cpp leaves: the layers above
-- look up the entry of a process at its index.
use cs451_2020_project.Base.{
  ℕ, suc, ◌+◌, ◌≤◌, ◌<◌, ◌≡◌, refl, sym, ap, subst, ◌∙◌, List, [], ◌∷◌, some, arith, length,
  get_elem?, All, All-imp, All-get_elem?, ok, ◌⊎◌,
}
use cs451_2020_project.StaticVec.{to_list}
use cs451_2020_project.PriorityQueue.{Fresh}
use cs451_2020_project.PriorityQueue.Sort
use cs451_2020_project.PriorityQueue.Sort.{
  length-sort_by, All-sort_by, sort_by-Increasing, position,
}
use cs451_2020_project.Config.{
  Dependency, Config, dep_process, first_number, other_numbers, parse_dependencies,
  sort_dependencies, parse,
}
use cs451_2020_project.Config.Lines.{from_zero, parse_dependency_lem}

-- A line with one of `n` processes and at most `cap` dependencies.
abbrev pub IsLine : ℕ → ℕ → List ℕ → Type 0
IsLine n cap [] = ⊥
IsLine n cap (p ∷ ps) = (0 < p) × (p ≤ n) × (length ps ≤ cap)

-- The entry of a line.
abbrev pub IsOf : List (List ℕ) → Dependency → Type 0
IsOf lines d =
    (j : ℕ) × (line : List ℕ) × (get_elem? lines j ≡ some line)
    × (first_number line ≡ d.process)
    × (to_list d.depends ≡ from_zero (other_numbers line))

record Parsed (n : ℕ) (lines : List (List ℕ)) (ds : List Dependency) : Type 0 where
  same_length : length ds ≡ length lines
  inside : All (Sort.Within dep_process 1 n) ds
  distinct : Sort.IsDistinct first_number lines → Sort.IsDistinct dep_process ds
  fresh : (k : ℕ) → Fresh first_number k lines → Fresh dep_process k ds
  of_lines : All (IsOf lines) ds

parse_dependencies_lem :
    (memory : List ℕ) (n : ℕ) (lines : List (List ℕ))
    → n < 256
    → All (IsLine n (length memory)) lines
    → (ds : List Dependency) × (parse_dependencies memory lines ≡ ok ds) × Parsed n lines ds
unfolding parse_dependencies
parse_dependencies_lem memory n [] small h = (
  [],
  refl,
  record { same_length = refl; inside = tt; distinct = λ _. tt; fresh = λ k _. tt; of_lines = tt },
)
parse_dependencies_lem memory n ([] ∷ lines) small h = absurd h.0
parse_dependencies_lem memory n ((p ∷ ps) ∷ lines) small h =
    let (d, run, process, depends) = parse_dependency_lem memory p ps h.0.2 in
    let (ds, run', rest) = parse_dependencies_lem memory n lines small h.1 in
    let p_is : d.process ≡ p = omega (arith, process, h.0.0, h.0.1) in
    (
      d ∷ ds,
      rw (run, run') refl,
      record {
        same_length = ap suc rest.same_length;
        inside = ((omega (arith, p_is, h.0.0), omega (arith, p_is, h.0.1)), rest.inside);
        distinct = λ u.
            (subst (λ k. Fresh dep_process k ds) (sym p_is) (rest.fresh p u.0), rest.distinct u.1);
        fresh = λ k u. (subst (λ x. (x < k) ⊎ (k < x)) (sym p_is) u.0, rest.fresh k u.1);
        of_lines = (
          (0, p ∷ ps, refl, sym p_is, depends),
          All-imp (IsOf lines) (IsOf ((p ∷ ps) ∷ lines)) ds
              (λ e (j, line, at, first, others). (suc j, line, at, first, others)) rest.of_lines,
        );
      },
    )

-- A configuration file with one line for each of `n` processes, fewer than 256, in any order, each with
-- at most as many dependencies as the vector has room for, is read without a fault, and the entry at
-- position `i` is that of process `i + 1`, with the dependencies of its line, counted from 0.
pub parse_lem :
    (memory first : List ℕ) (n : ℕ) (lines : List (List ℕ))
    → n < 256
    → length lines ≡ n
    → All (IsLine n (length memory)) lines
    → Sort.IsDistinct first_number lines
    → (c : Config) × (parse memory first lines ≡ ok c)
      × (length c.deps ≡ n)
      × ((i : ℕ) (d : Dependency)
          → get_elem? c.deps i ≡ some d
          → (d.process ≡ i + 1) × IsOf lines d)
unfolding parse sort_dependencies
parse_lem memory first n lines small len good apart =
    let (ds, run, parsed) = parse_dependencies_lem memory n lines small good in
    let sorted = sort_dependencies ds in
    let size : length sorted ≡ n = length-sort_by dep_process ds ∙ parsed.same_length ∙ len in
    let inc = sort_by-Increasing dep_process ds (parsed.distinct apart) in
    let inside = All-sort_by dep_process (Sort.Within dep_process 1 n) ds parsed.inside in
    let inside' = subst (λ k. All (Sort.Within dep_process 1 k) sorted) (sym size) inside in
    let of_lines = All-sort_by dep_process (IsOf lines) ds parsed.of_lines in
    (
      record { m = first_number first; deps = sorted },
      rw run refl,
      size,
      λ i d at.
          let here = position dep_process 1 sorted inc inside' i d at in
          (omega (arith, here), All-get_elem? (IsOf lines) sorted i d of_lines at),
    )
