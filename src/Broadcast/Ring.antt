-- ===== src/Broadcast/Ring.antt =====
-- `create_n_connected_ring` of code/src/src/best-effort-broadcast.cpp: to whom a process sends.
pub mod Neighbors
pub mod Others
pub mod Tests
use cs451_2020_project.Base.{ℕ, zero, suc, ◌+◌, ◌-◌, ◌/◌, ◌%◌, List, [], ◌∷◌, ◌==◌, if◌then◌else◌}

-- A value stored in a `ProcessId`.
abbrev pub process_id : ℕ → ℕ
process_id x = x % 256

-- The loop, from `offset` on, for the rounds that are left. The `offset` of the code is a `ProcessId`,
-- and the same as here up to 254 rounds; with 255, from 1017 processes on, the loop would not end.
unfoldable pub ring_loop : ℕ → ℕ → ℕ → ℕ → List ℕ
ring_loop zero offset id n = []
ring_loop (suc rounds) offset id n =
    let right_neighbor = (id + offset) % n in
    let left_neighbor = (id + n - offset) % n in
    process_id right_neighbor ∷ process_id left_neighbor ∷ ring_loop rounds (offset + 1) id n

unfoldable pub neighbors_per_side : ℕ → ℕ
neighbors_per_side n = process_id ((n + 3) / 4)

unfoldable pub create_n_connected_ring : ℕ → ℕ → List ℕ
unfolding ring_loop neighbors_per_side
create_n_connected_ring id n =
    if n == 1
    then []
    else (if n == 2 then process_id (257 - id) ∷ [] else ring_loop (neighbors_per_side n) 1 id n)
