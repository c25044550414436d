-- ===== src/Broadcast/Ring/Tests.antt =====
-- Examples for the ring of Broadcast/Ring.
use cs451_2020_project.Base.{◌+◌, ◌<◌, ◌≡◌, true, arith, elem, length}
use cs451_2020_project.Broadcast.Ring.{create_n_connected_ring}
use cs451_2020_project.Broadcast.Ring.Neighbors.{
  IsDistinct, elem-create_n_connected_ring, ring_majority, ring_symmetric,
}

elem-create_n_connected_ring_example : elem 9 (create_n_connected_ring 1 10) ≡ true
elem-create_n_connected_ring_example =
    elem-create_n_connected_ring 1 10 9 (omega arith) (omega arith) (omega arith) (omega arith)

ring_majority_example :
    IsDistinct (create_n_connected_ring 1 10) × (5 < length (create_n_connected_ring 1 10) + 1)
ring_majority_example = ring_majority 1 10 (omega arith) (omega arith) (omega arith)

ring_symmetric_example :
    elem 9 (create_n_connected_ring 1 10) ≡ elem 1 (create_n_connected_ring 9 10)
ring_symmetric_example =
    ring_symmetric 1 9 10 (omega arith) (omega arith) (omega arith) (omega arith)
