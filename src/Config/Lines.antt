-- ===== src/Config/Lines.antt =====
-- What `parse_dependency` of code/src/src/config-parser.cpp makes of a line.
use mathlib.Core.List.{append_assoc, append-nil}
use cs451_2020_project.Base.{
  ℕ, ◌+◌, ◌%◌, ◌≤◌, ◌≡◌, refl, sym, ap, ◌∙◌, List, [], ◌∷◌, ◌++◌, arith, suc, lt→ltb, length,
  length-set, take, take-set, set, ok,
}
use cs451_2020_project.StaticVec.{StaticVec, push_back, to_list}
use cs451_2020_project.Config.{Dependency, push_dependencies, parse_dependency}

-- Process identifiers of the file start from 1, those of the program from 0.
abbrev pub from_zero : List ℕ → List ℕ
from_zero [] = []
from_zero (p ∷ ps) = (p + 255) % 256 ∷ from_zero ps

push_dependencies_lem :
    (ps : List ℕ) (v : StaticVec ℕ)
    → v.sz + length ps ≤ length v.storage
    → (w : StaticVec ℕ) × (push_dependencies ps v ≡ ok w) × (to_list w ≡ to_list v ++ from_zero ps)
unfolding push_dependencies push_back
push_dependencies_lem [] v room = (v, refl, sym (append-nil (to_list v)))
push_dependencies_lem (p ∷ ps) v room =
    let item = (p + 255) % 256 in
    let next : StaticVec ℕ = record { storage = set v.storage v.sz item; sz = v.sz + 1 } in
    let (w, run, same) =
      push_dependencies_lem ps next (omega (arith, length-set v.storage v.sz item)) in
    let longer : v.sz + 1 ≡ suc v.sz = omega arith in
    let pushed : to_list next ≡ to_list v ++ item ∷ [] =
      ap (λ n. take n (set v.storage v.sz item)) longer
      ∙ take-set v.sz v.storage item (omega arith) in
    (
      w,
      rw (lt→ltb v.sz (length v.storage) (omega arith)) run,
      same
          ∙ ap (λ l. l ++ from_zero ps) pushed
          ∙ append_assoc (to_list v) (item ∷ []) (from_zero ps),
    )

-- A line with a process and at most as many dependencies as the vector has room for is read without
-- a fault: the process as it stands, on 8 bits, and the dependencies in their order, counted from 0.
pub parse_dependency_lem :
    (memory : List ℕ) (p : ℕ) (ps : List ℕ)
    → length ps ≤ length memory
    → (d : Dependency) × (parse_dependency memory (p ∷ ps) ≡ ok d)
      × (d.process ≡ p % 256)
      × (to_list d.depends ≡ from_zero ps)
unfolding parse_dependency
parse_dependency_lem memory p ps room =
    let (w, run, same) =
      push_dependencies_lem ps (record { storage = memory; sz = 0 }) (omega arith) in
    (record { process = p % 256; depends = w }, rw run refl, refl, same)
