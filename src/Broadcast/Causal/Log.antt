-- ===== src/Broadcast/Causal/Log.antt =====
-- What the layer of code/src/src/localized-causal-broadcast.cpp promises of the messages that it
-- hands up, said of the log alone, and the invariant of its state.
use cs451_2020_project.Base.{
  ℕ, suc, ◌+◌, ◌^◌, ◌≤◌, ◌<◌, ◌≡◌, List, [], ◌∷◌, some, ◌==◌, if◌then◌else◌, length, get_elem?, All,
}
use cs451_2020_project.StaticVec.{index}
use cs451_2020_project.Message.{Message, max_processes}
use cs451_2020_project.Config.{Dependency}
use cs451_2020_project.PriorityQueue.{Increasing}
use cs451_2020_project.Broadcast.Causal.{Causal, seq_num}

-- How many messages of a process are in a log.
unfoldable pub count_from : ℕ → List Message → ℕ
count_from o [] = 0
count_from o (m ∷ ms) = if m.originator == o then suc (count_from o ms) else count_from o ms

-- A message that depends on `t` messages of `p` comes after as many.
abbrev pub Respects : List Dependency → Message → List Message → Type 0
Respects deps m earlier =
    (dep : Dependency) (i t p : ℕ)
    → get_elem? deps m.originator ≡ some dep
    → i < m.vector_clock.sz
    → index dep.depends i ≡ some p
    → index m.vector_clock i ≡ some t
    → t ≤ count_from p earlier

-- Each message has the number of its originator's messages before it, and comes after the messages
-- that it depends on. The last message stands first.
abbrev pub IsCausal : List Dependency → List Message → Type 0
IsCausal deps [] = Unit {0}
IsCausal deps (m ∷ earlier) =
    (m.bcast_seq_num ≡ count_from m.originator earlier)
    × Respects deps m earlier
    × IsCausal deps earlier

-- A vector clock within its array that reads only what the dependencies of the originator cover.
pub record IsCovered (deps : List Dependency) (m : Message) : Type 0 where
  pub dep : Dependency
  pub found : get_elem? deps m.originator ≡ some dep
  pub clock_fits : m.vector_clock.sz ≤ length m.vector_clock.storage
  pub depends_fit : m.vector_clock.sz ≤ length dep.depends.storage
  pub processes :
      (i p : ℕ) → i < m.vector_clock.sz → index dep.depends i ≡ some p → p < max_processes

-- A message in the heap of its originator, which has not gone up.
pub record IsPending (deps : List Dependency) (log : List Message) (o : ℕ) (m : Message)
    : Type 0 where
  pub from : m.originator ≡ o
  pub covered : IsCovered deps m
  pub later : count_from o log ≤ m.bcast_seq_num
  pub small : m.bcast_seq_num + 1 < 2 ^ 32

pub record IsValid (s : Causal) : Type 0 where
  pub few : length s.pending ≤ max_processes
  pub counted :
      (o : ℕ) → o < max_processes → get_elem? s.current_clock.storage o ≡ some (count_from o s.log)
  pub queued :
      (o : ℕ) (q : List Message)
      → get_elem? s.pending o ≡ some q
      → All (IsPending s.deps s.log o) q × Increasing seq_num q
  pub causal : IsCausal s.deps s.log
