-- ===== src/StaticVec/Tests.antt =====
-- Examples for StaticVec.

use cs451_2020_project.Base.{ℕ, ◌≡◌, refl, [], ◌∷◌, some, arith}
use cs451_2020_project.StaticVec.{StaticVec, push_back, pop_back}
use cs451_2020_project.StaticVec.Laws.{pop_back-push_back}

abbrev two_of_four : StaticVec ℕ
two_of_four = record { storage = 5 ∷ 6 ∷ 7 ∷ 8 ∷ []; sz = 2 }

abbrev three_of_four : StaticVec ℕ
three_of_four = record { storage = 5 ∷ 6 ∷ 9 ∷ 8 ∷ []; sz = 3 }

abbrev two_of_four_after : StaticVec ℕ
two_of_four_after = record { storage = 5 ∷ 6 ∷ 9 ∷ 8 ∷ []; sz = 2 }

pushed : push_back two_of_four 9 ≡ some three_of_four
unfolding push_back
pushed = refl

-- The element pushed is 9, the one returned 8.
pop_back-push_back_example : pop_back three_of_four ≡ some (8, two_of_four_after)
pop_back-push_back_example = pop_back-push_back two_of_four three_of_four 9 pushed (omega arith)
