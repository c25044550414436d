-- ===== src/Broadcast/Uniform/Crash.antt =====
-- How many neighbours code/src/src/uniform-reliable-broadcast.cpp needs, on the ring of
-- code/src/src/best-effort-broadcast.cpp.
use cs451_2020_project.Base.{
  ℕ, ◌+◌, ◌%◌, ◌≤◌, ◌<◌, ◌≡◌, Bool, true, false, ◌∷◌, arith, length, elem, update,
}
use cs451_2020_project.Message.{Message, max_processes}
use cs451_2020_project.RollingSet.Chunks.{card, card-update, card-le-length}
use cs451_2020_project.Broadcast.Ring.{create_n_connected_ring}
use cs451_2020_project.Broadcast.Ring.Neighbors.{length-create_n_connected_ring}
use cs451_2020_project.Broadcast.Uniform.{Uniform, has_quorum}
use cs451_2020_project.Broadcast.Uniform.Ack.{ack_bits, count}

-- Only the process and its connections have been counted.
abbrev pub IsFromNeighbors : ℕ → ℕ → (ℕ → Bool) → Type 0
IsFromNeighbors id n bits =
    (p : ℕ) → bits p ≡ true → elem p (id ∷ create_n_connected_ring id n) ≡ true

module _ (id n x : ℕ) (bits : ℕ → Bool) (near : IsFromNeighbors id n bits)
    (neighbor : elem x (create_n_connected_ring id n) ≡ true) (silent : bits x ≡ false)
    (inside : x < max_processes) where
  -- A connection that is silent leaves one vote less.
  count-silent : count bits < length (create_n_connected_ring id n) + 1
  unfolding count
  count-silent =
      let all : card max_processes (update bits x true)
          ≤ length (id ∷ create_n_connected_ring id n) =
        card-le-length (id ∷ create_n_connected_ring id n) max_processes (update bits x true)
          λ i e. ground (arith, near i, neighbor) in
      let more = card-update max_processes bits x inside in ground (arith, all, more, silent)

-- With a number of processes that is divisible by 4, from 4 to 128, a process at which only itself and
-- its connections have been counted for a message has no quorum for it while the vote of one of its
-- connections is missing.
pub silent-has_quorum :
    (u : Uniform) (m : Message) (id n x : ℕ)
    → u.num_processes ≡ n
    → 4 ≤ n
    → n ≤ max_processes
    → n % 4 ≡ 0
    → id < n
    → x < n
    → elem x (create_n_connected_ring id n) ≡ true
    → IsFromNeighbors id n (ack_bits u.ack m)
    → ack_bits u.ack m x ≡ false
    → has_quorum u m ≡ false
unfolding has_quorum
silent-has_quorum u m id n x num four small div hid hx neighbor near silent =
    let less = count-silent id n x (ack_bits u.ack m) near neighbor silent (omega arith) in
    let len = length-create_n_connected_ring id n (omega arith) (omega arith) in
    rw num (ground (arith, less, len))
