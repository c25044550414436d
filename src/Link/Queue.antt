-- ===== src/Link/Queue.antt =====
-- code/src/include/concurrent-queue.hpp. The lock makes each method one step; a blocking method is
-- modelled at the moment when it returns.
use cs451_2020_project.Base.{List, [], ◌∷◌, ◌++◌, Option, none, some, All, All-append}

module _ {ℓ} {A : Type ℓ} where
  unfoldable pub push : A → List A → List A
  push val inner = inner ++ val ∷ []

  unfoldable pub try_pop : List A → Option (A × List A)
  try_pop [] = none
  try_pop (item ∷ rest) = some (item, rest)

  -- Returns an item if one is there when the wait ends, and nothing after a timeout.
  unfoldable pub try_pop_until : List A → Option (A × List A)
  try_pop_until [] = none
  try_pop_until (item ∷ rest) = some (item, rest)

  -- `none`: `pop` goes on waiting.
  unfoldable pub pop : List A → Option (A × List A)
  pop [] = none
  pop (item ∷ rest) = some (item, rest)

  -- What holds of the items and of a new one holds of all.
  pub All-queued {κ} :
      (P : A → Type κ) (val : A) (inner : List A) → All P inner → P val → All P (push val inner)
  unfolding push
  All-queued P val inner h p = All-append P inner (val ∷ []) h (p, tt)
