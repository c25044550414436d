-- ===== src/Config/Tests.antt =====
-- Examples for the configuration file.
use cs451_2020_project.Base.{
  ℕ, ◌+◌, List, some, get_elem?, length, inl, inr, ◌≡◌, refl, [], ◌∷◌, replicate, arith, ok,
}
use cs451_2020_project.PriorityQueue
use cs451_2020_project.Config.{
  Config, Dependency, parse_dependency, parse, parse_dependencies, sort_dependencies,
  push_dependencies,
}
use cs451_2020_project.Config.Order.{IsOf, parse_lem}

-- A blank line counts as process 0, and comes first.
blank_line :
    parse [] (10 ∷ []) ((1 ∷ []) ∷ [] ∷ [])
    ≡ ok (record {
      m = 10;
      deps =
          record { process = 0; depends = record { storage = []; sz = 0 } }
          ∷ record { process = 1; depends = record { storage = []; sz = 0 } }
          ∷ [];
    })
unfolding parse parse_dependencies parse_dependency push_dependencies sort_dependencies
    PriorityQueue.sort_by PriorityQueue.push
blank_line = refl

-- The lines of three processes, out of order.
abbrev three_lines : List (List ℕ)
three_lines = (2 ∷ 1 ∷ []) ∷ (3 ∷ 2 ∷ 1 ∷ []) ∷ (1 ∷ []) ∷ []

parse_lem_example :
    (c : Config) × (parse (replicate 128 0) (10 ∷ []) three_lines ≡ ok c)
    × (length c.deps ≡ 3)
    × ((i : ℕ) (d : Dependency)
        → get_elem? c.deps i ≡ some d
        → (d.process ≡ i + 1) × IsOf three_lines d)
parse_lem_example =
    parse_lem (replicate 128 0) (10 ∷ []) 3 three_lines (omega arith) refl
      (
        (omega arith, omega arith, omega arith),
        ((omega arith, omega arith, omega arith), ((omega arith, omega arith, omega arith), tt)),
      )
      ((inr (omega arith), (inl (omega arith), tt)), ((inl (omega arith), tt), (tt, tt)))
