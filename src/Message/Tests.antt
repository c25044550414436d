-- ===== src/Message/Tests.antt =====
-- Examples for messages.
use cs451_2020_project.Base.{
  ok, fault, [], ◌+◌, ◌≡◌, ◌<◌, ◌^◌, refl, ◌∷◌, replicate, All-replicate, arith,
}
use cs451_2020_project.Message.{
  Message, broadcast_message_compare, broadcast_message_hash, hash-compare,
}
use cs451_2020_project.Message.Wire.{
  datagram, receive, read_message, vector_size, receive-datagram, IsWellFormed, IsSame,
}

abbrev three : Message
three = record {
  link_seq_num = 2 ^ 63 + 5;
  bcast_seq_num = 70000;
  originator = 2;
  sender = 1;
  vector_clock = record { storage = 300 ∷ 2 ∷ 70001 ∷ replicate 125 0; sz = 3 };
}

three-IsWellFormed : IsWellFormed three
three-IsWellFormed = record {
  link_seq_num_fits = omega arith;
  bcast_seq_num_fits = omega arith;
  capacity = refl;
  size_fits = omega arith;
  clocks_fit = (
    omega arith,
    (omega arith, (omega arith, All-replicate (λ x. x < 2 ^ 32) 125 0 (omega arith))),
  );
}

receive-datagram_example : (r : Message) × (receive (datagram three 17 200) ≡ ok r) × IsSame three r
receive-datagram_example = receive-datagram three 17 200 three-IsWellFormed

-- A datagram shorter than the header makes a vector that is longer than its array.
receive_short : receive (1 ∷ 2 ∷ []) ≡ fault
unfolding receive read_message vector_size
receive_short = refl

abbrev acknowledged : Message
acknowledged = record three { link_seq_num = 9; sender = 0 }

hash-compare_example :
    broadcast_message_hash (λ x. x) (λ x. x) three
    ≡ broadcast_message_hash (λ x. x) (λ x. x) acknowledged
unfolding broadcast_message_compare
hash-compare_example = hash-compare (λ x. x) (λ x. x) three acknowledged refl
