-- ===== src/Broadcast/Ring/Others.antt =====
-- The connections of code/src/src/best-effort-broadcast.cpp are other processes.
use cs451_2020_project.Base.{
  ℕ, zero, suc, ◌+◌, ◌-◌, ◌/◌, ◌%◌, ◌≤◌, ◌<◌, ◌≡◌, ◌≢◌, false, arith, ◌==◌, All,
}
use cs451_2020_project.Broadcast.Ring.{
  process_id, ring_loop, neighbors_per_side, create_n_connected_ring,
}
use cs451_2020_project.Broadcast.Ring.Neighbors.{wrap_once}

module _ (n id offset : ℕ) (small : n ≤ 256) (hid : id < n) (pos : 0 < offset)
    (fit : offset < n) where
  right_other :
      (process_id ((id + offset) % n) < n) × ((process_id ((id + offset) % n) == id) ≡ false)
  right_other = rw (wrap_once n (id + offset) (omega arith)) (ground arith)

  left_other :
      (process_id ((id + n - offset) % n) < n)
      × ((process_id ((id + n - offset) % n) == id) ≡ false)
  left_other = rw (wrap_once n (id + n - offset) (omega arith)) (ground arith)

ring_loop-others :
    (rounds offset id n : ℕ)
    → n ≤ 256
    → id < n
    → 0 < offset
    → offset + rounds ≤ n
    → All (λ x. (x < n) × (x ≢ id)) (ring_loop rounds offset id n)
unfolding ring_loop
ring_loop-others zero offset id n small hid pos fit = tt
ring_loop-others (suc rounds) offset id n small hid pos fit =
    let (right_in, right_away) = right_other n id offset small hid pos (omega arith) in
    let (left_in, left_away) = left_other n id offset small hid pos (omega arith) in
    (
      (right_in, λ e. ground arith),
      (
        (left_in, λ e. ground arith),
        ring_loop-others rounds (offset + 1) id n small hid (omega arith) (omega arith),
      ),
    )

-- With 3 to 256 processes the connections of a process are other processes.
pub create_n_connected_ring-others :
    (id n : ℕ)
    → 3 ≤ n
    → n ≤ 256
    → id < n
    → All (λ x. (x < n) × (x ≢ id)) (create_n_connected_ring id n)
unfolding create_n_connected_ring neighbors_per_side
create_n_connected_ring-others id n three small hid =
    let loop =
      ring_loop-others (process_id ((n + 3) / 4)) 1 id n small hid (omega arith) (omega arith) in
    let not_one : (n == 1) ≡ false = ground arith in
    let not_two : (n == 2) ≡ false = ground arith in rw (not_one, not_two) loop
