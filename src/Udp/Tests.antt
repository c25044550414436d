-- ===== src/Udp/Tests.antt =====
-- Examples for the sockets.
use cs451_2020_project.Base.{
  ◌≡◌, ◌<◌, ◌^◌, refl, true, false, List, [], ◌∷◌, ◌++◌, none, ok, replicate, All-replicate, arith,
}
use cs451_2020_project.Message.{Message}
use cs451_2020_project.Message.Wire.{IsWellFormed}
use cs451_2020_project.Udp.{
  returned, thrown, would_block, broken, socket_address, open_socket, send, try_recv, recv,
  receiver,
}
use cs451_2020_project.Udp.Receiver.{Packet, all_arrived, AreSame, receiver-datagrams}

abbrev two : Message
two = record {
  link_seq_num = 2 ^ 63;
  bcast_seq_num = 70000;
  originator = 2;
  sender = 1;
  vector_clock = record { storage = 300 ∷ 2 ∷ replicate 126 0; sz = 2 };
}

two-IsWellFormed : IsWellFormed two
two-IsWellFormed = record {
  link_seq_num_fits = omega arith;
  bcast_seq_num_fits = omega arith;
  capacity = refl;
  size_fits = omega arith;
  clocks_fit = (omega arith, (omega arith, All-replicate (λ x. x < 2 ^ 32) 126 0 (omega arith)));
}

abbrev packets : List Packet
packets =
    record { message = two; padding = 0; padding' = 9 }
    ∷ record { message = two; padding = 1; padding' = 255 }
    ∷ []

receiver-datagrams_example :
    (got : List Message) × (receiver (all_arrived packets) (two ∷ [])
      ≡ ok ((two ∷ []) ++ got, true))
    × (receiver (all_arrived packets ++ broken ∷ []) (two ∷ []) ≡ ok ((two ∷ []) ++ got, false))
    × AreSame packets got
receiver-datagrams_example =
    receiver-datagrams packets (two ∷ []) (two-IsWellFormed, (two-IsWellFormed, tt))

try_recv_example : try_recv would_block ≡ returned none
unfolding try_recv
try_recv_example = refl

recv_example : recv would_block ≡ thrown
unfolding recv
recv_example = refl

send_example : send false ≡ thrown
unfolding send
send_example = refl

open_socket_example : open_socket true false ≡ thrown
unfolding open_socket
open_socket_example = refl

socket_address_example : (socket_address 1 11000).port ≡ 11000
unfolding socket_address
socket_address_example = refl
