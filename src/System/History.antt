-- ===== src/System/History.antt =====
-- The history of broadcasts: each process numbers its own one after the other.
use cs451_2020_project.Base.{
  ℕ, zero, suc, ◌≤◌, ◌<◌, ◌≡◌, ap, subst, List, [], ◌∷◌, some, arith, length, get_elem?,
}
use cs451_2020_project.StaticVec.{to_list}
use cs451_2020_project.Config.{Dependency}
use cs451_2020_project.Broadcast.Causal.Send.{counts}
use cs451_2020_project.System.{Said, number_said}

-- The clocks of a broadcast say what its originator had handed up.
pub record IsRecorded (deps : List Dependency) (x : Said) : Type 0 where
  pub dep : Dependency
  pub found : get_elem? deps x.message.originator ≡ some dep
  pub clocks : to_list x.message.vector_clock ≡ counts x.past (to_list dep.depends)
  pub size : x.message.vector_clock.sz ≡ length (to_list dep.depends)

-- Each process numbers its broadcasts one after the other.
abbrev pub IsHistory : List Dependency → List Said → Type 0
IsHistory deps [] = Unit {0}
IsHistory deps (x ∷ xs) =
    IsRecorded deps x
    × (x.message.bcast_seq_num ≡ number_said x.message.originator xs)
    × IsHistory deps xs

pub get_elem?-IsRecorded :
    (deps : List Dependency) (history : List Said) (at : ℕ) (x : Said)
    → IsHistory deps history
    → get_elem? history at ≡ some x
    → IsRecorded deps x
get_elem?-IsRecorded deps [] at x h e = absurd (cc)
get_elem?-IsRecorded deps (y ∷ ys) zero x h e =
    let same : y ≡ x = ground arith in subst (IsRecorded deps) same h.0
get_elem?-IsRecorded deps (y ∷ ys) (suc at) x h e = get_elem?-IsRecorded deps ys at x h.2 e

number_said-grows : (x : Said) (i : ℕ) (xs : List Said) → number_said i xs ≤ number_said i (x ∷ xs)
number_said-grows x i xs = ground arith

-- The number of a broadcast is below the number of its originator's broadcasts.
pub number_said-above :
    (deps : List Dependency) (history : List Said) (at : ℕ) (x : Said)
    → IsHistory deps history
    → get_elem? history at ≡ some x
    → x.message.bcast_seq_num < number_said x.message.originator history
number_said-above deps [] at x h e = absurd (cc)
number_said-above deps (y ∷ ys) zero x h e =
    let same : y ≡ x = ground arith in
    subst (λ (z : Said). z.message.bcast_seq_num < number_said z.message.originator (y ∷ ys)) same
      (ground (arith, h.1))
number_said-above deps (y ∷ ys) (suc at) x h e =
    omega (arith, number_said-above deps ys at x h.2 e, number_said-grows y x.message.originator ys)

-- No process gives two broadcasts one number.
pub said_unique :
    (deps : List Dependency) (history : List Said) (at at' : ℕ) (x x' : Said)
    → IsHistory deps history
    → get_elem? history at ≡ some x
    → get_elem? history at' ≡ some x'
    → x.message.originator ≡ x'.message.originator
    → x.message.bcast_seq_num ≡ x'.message.bcast_seq_num
    → x ≡ x'
said_unique deps [] at at' x x' h e e' o k = absurd (cc)
said_unique deps (y ∷ ys) zero zero x x' h e e' o k = cc
said_unique deps (y ∷ ys) zero (suc at') x x' h e e' o k =
    let same : y ≡ x = ground arith in
    let below = number_said-above deps ys at' x' h.2 e' in
    let number =
      subst (λ (z : Said). z.message.bcast_seq_num ≡ number_said z.message.originator ys) same
        h.1 in
    absurd (omega (arith, below, number, k, ap (λ p. number_said p ys) o))
said_unique deps (y ∷ ys) (suc at) zero x x' h e e' o k =
    let same : y ≡ x' = ground arith in
    let below = number_said-above deps ys at x h.2 e in
    let number =
      subst (λ (z : Said). z.message.bcast_seq_num ≡ number_said z.message.originator ys) same
        h.1 in
    absurd (omega (arith, below, number, k, ap (λ p. number_said p ys) o))
said_unique deps (y ∷ ys) (suc at) (suc at') x x' h e e' o k =
    said_unique deps ys at at' x x' h.2 e e' o k
