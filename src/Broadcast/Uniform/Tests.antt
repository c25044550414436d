-- ===== src/Broadcast/Uniform/Tests.antt =====
-- Examples for the uniform reliable broadcast.
use cs451_2020_project.Base.{
  ◌≡◌, refl, zero, suc, ℕ, ◌<◌, true, false, ◌||◌, ◌==◌, [], replicate, arith, ok,
}
use cs451_2020_project.Message.{Message}
use cs451_2020_project.RollingSet.{empty, contains}
use cs451_2020_project.Link.Perfect.{new_peer}
use cs451_2020_project.Link.FairLoss.{Address}
use cs451_2020_project.Broadcast.Ring.{create_n_connected_ring}
use cs451_2020_project.Broadcast.Uniform.{Uniform, start, deliver, has_quorum}
use cs451_2020_project.Broadcast.Uniform.Ack.{ack_put, ack_bits}
use cs451_2020_project.Broadcast.Uniform.Meeting.{IsAmong, quorums_meet}
use cs451_2020_project.Broadcast.Uniform.Crash.{IsFromNeighbors, silent-has_quorum}
use cs451_2020_project.Broadcast.Uniform.Quorum.{Node, recorder}
use cs451_2020_project.Broadcast.Uniform.Majority.{IsReceivable, Outcome, deliver_quorum}

abbrev host : Address
host = record { ip = 1; port = 11001 }

-- Process 0 of three, before anything has come.
abbrev node : Node
node = record {
  perfect = record {
    id = 0;
    peers = replicate 3 new_peer;
    link = record { id = 0; addrs = replicate 3 host; sent = [] };
  };
  upper = record { urb = start 0 3; top = [] };
}

-- The first message of process 1, from process 2.
abbrev first : Message
first = record {
  link_seq_num = 0;
  bcast_seq_num = 0;
  originator = 1;
  sender = 2;
  vector_clock = record { storage = []; sz = 0 };
}

first-IsReceivable : IsReceivable 3 node first empty empty
unfolding start create_n_connected_ring contains
first-IsReceivable = record {
  linked = record { own = refl; peers = refl; addrs = refl };
  own = omega arith;
  few = omega arith;
  others = ((omega arith, λ e. omega arith), ((omega arith, λ e. omega arith), tt));
  sender_fits = omega arith;
  seq_num_fits = omega arith;
  pending_is = refl;
  pending_valid = tt;
  delivered_is = refl;
  delivered_valid = tt;
  new = refl;
}

deliver_quorum_example :
    (st' : Node) × (deliver recorder 2 first node ≡ ok st')
    × Outcome 3 node first empty empty first-IsReceivable st'
deliver_quorum_example = deliver_quorum 3 node first empty empty first-IsReceivable 0

-- Process 0 of four, with the first message of process 1 from itself and from process 1.
abbrev waiting : Uniform
waiting = record (start 0 4) { ack = ack_put [] first (λ p. p == 0 || p == 1) }

waiting-IsFromNeighbors : IsFromNeighbors 0 4 (ack_bits waiting.ack first)
unfolding start create_n_connected_ring ack_bits ack_put
waiting-IsFromNeighbors zero e = refl
waiting-IsFromNeighbors (suc zero) e = refl
waiting-IsFromNeighbors (suc (suc p)) e = absurd (ground arith)

silent-has_quorum_example : has_quorum waiting first ≡ false
unfolding start create_n_connected_ring ack_bits ack_put
silent-has_quorum_example =
    silent-has_quorum waiting first 0 4 3 refl (omega arith) (omega arith) refl (omega arith)
      (omega arith) refl waiting-IsFromNeighbors refl

-- Two processes of three, with the votes of processes 0 and 1, and of 1 and 2.
abbrev left : Uniform
left = record (start 0 3) { ack = ack_put [] first (λ p. p == 0 || p == 1) }

abbrev right : Uniform
right = record (start 2 3) { ack = ack_put [] first (λ p. p == 1 || p == 2) }

left-IsAmong : IsAmong 3 (ack_bits left.ack first)
unfolding start create_n_connected_ring ack_bits ack_put
left-IsAmong p e = ground arith

right-IsAmong : IsAmong 3 (ack_bits right.ack first)
unfolding start create_n_connected_ring ack_bits ack_put
right-IsAmong p e = ground arith

quorums_meet_example :
    (p : ℕ) × (p < 3) × (ack_bits left.ack first p ≡ true) × (ack_bits right.ack first p ≡ true)
unfolding start create_n_connected_ring ack_bits ack_put has_quorum
quorums_meet_example =
    quorums_meet left right first first 3 refl refl (omega arith) left-IsAmong right-IsAmong refl
      refl
