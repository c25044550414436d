-- ===== src/RollingSet/Tests.antt =====
-- Examples for RollingSet.
use cs451_2020_project.Base.{◌≡◌, ◌≢◌, ◌≤◌, refl, true, not, [], ◌∷◌, arith, ◌==◌, length}
use cs451_2020_project.RollingSet.{RollingBitset, insert, contains, insert_all}
use cs451_2020_project.RollingSet.Chunks.{card}
use cs451_2020_project.RollingSet.Refine.{contains-insert_all, IsValid}
use cs451_2020_project.RollingSet.Window.{window_stuck, window_in_order, insert_new_all, below}

contains-insert_all_example : contains (insert_all (1000 ∷ 3 ∷ 1000 ∷ [])) 3 ≡ true
contains-insert_all_example =
    contains-insert_all (1000 ∷ 3 ∷ 1000 ∷ []) 3 (omega arith, (omega arith, (omega arith, tt)))
      (omega arith)

window_in_order_example :
    ((insert_all (below 600)).offset ≡ 1) × (length (insert_all (below 600)).chunks ≤ 1)
window_in_order_example = window_in_order 600 (omega arith)

-- All of the first two chunks but the number 0.
abbrev all_but_one : RollingBitset
all_but_one = record {
  offset = 0;
  chunks =
      record { bits = λ i. not (i == 0); count = 511 }
      ∷ record { bits = λ _. true; count = 512 }
      ∷ [];
}

all_but_one-IsValid : IsValid all_but_one
unfolding card
all_but_one-IsValid = (refl, (refl, tt))

all_but_one-moves : (insert all_but_one 0).offset ≢ all_but_one.offset
unfolding insert
all_but_one-moves e = ground arith

window_stuck_example : (insert_new_all (insert all_but_one 0) (5000 ∷ 2000 ∷ [])).offset ≡ 1
window_stuck_example =
    window_stuck all_but_one 0 (5000 ∷ 2000 ∷ []) (omega arith) (omega arith, (omega arith, tt))
      all_but_one-IsValid refl all_but_one-moves
