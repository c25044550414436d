-- ===== src/Broadcast/Fifo/Tests.antt =====
-- Examples for the first-in-first-out broadcast.
use cs451_2020_project.Base.{◌≡◌, refl, [], arith, fault}
use cs451_2020_project.Message.{Message}
use cs451_2020_project.Broadcast.Fifo.{start, new_queue, deliver}
use cs451_2020_project.Broadcast.Fifo.Deliver.{deliver_in_order}

abbrev first : Message
first = record {
  link_seq_num = 0;
  bcast_seq_num = 0;
  originator = 1;
  sender = 1;
  vector_clock = record { storage = []; sz = 0 };
}

-- The first message of process 1, in a system of three processes.
deliver_in_order_example : deliver (start 3) first ≡ fault
unfolding start
deliver_in_order_example = deliver_in_order (start 3) first new_queue refl refl refl (omega arith)
