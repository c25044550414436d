-- ===== src/Link/SeqNum.antt =====
-- The first functions of code/src/src/perfect-link.cpp: the top bit of a link sequence number tells
-- an "Ack" from a "Syn".
use cs451_2020_project.Base.{
  ℕ, ◌-◌, ◌/◌, ◌%◌, ◌^◌, ◌<◌, ◌≡◌, refl, Bool, false, bit_and, bit_or, arith, ◌==◌, [],
}
use cs451_2020_project.Base.Bits.{bit_and-msb, bit_or-msb, bit_and-mask}
use cs451_2020_project.StaticVec.{force_set_size, to_list}
use cs451_2020_project.Message.{Message}

abbrev pub seq_num_msb : ℕ
seq_num_msb = 2 ^ 63

-- `~SEQ_NUM_MSB` on 64 bits
abbrev pub seq_num_mask : ℕ
seq_num_mask = 2 ^ 64 - 1 - seq_num_msb

unfoldable pub is_syn : Message → Bool
is_syn msg = bit_and msg.link_seq_num seq_num_msb == 0

unfoldable pub set_ack : Message → Message
set_ack msg = record msg {
  link_seq_num = bit_or msg.link_seq_num seq_num_msb;
  vector_clock = force_set_size msg.vector_clock 0;
}

unfoldable pub seq_num : Message → ℕ
seq_num msg = bit_and msg.link_seq_num seq_num_mask

module _ (m : Message) (small : m.link_seq_num < 2 ^ 64) where
  pub is_syn_iff : is_syn m ≡ (m.link_seq_num / 2 ^ 63 == 0)
  unfolding is_syn
  is_syn_iff = rw (bit_and-msb m.link_seq_num small) (ground arith)

  pub seq_num-eq : seq_num m ≡ m.link_seq_num % 2 ^ 63
  unfolding seq_num
  seq_num-eq = bit_and-mask m.link_seq_num small

  -- Of a message with a 64-bit link number: its acknowledgement is not a "Syn", has the same number,
  -- a link number that fits 64 bits, no vector clock, and the same broadcast number and originator.
  pub set_ack_lem :
      (is_syn (set_ack m) ≡ false)
      × (seq_num (set_ack m) ≡ seq_num m)
      × ((set_ack m).link_seq_num < 2 ^ 64)
      × (to_list (set_ack m).vector_clock ≡ [])
      × ((set_ack m).bcast_seq_num ≡ m.bcast_seq_num)
      × ((set_ack m).originator ≡ m.originator)
  unfolding set_ack is_syn seq_num
  set_ack_lem =
      let e = bit_or-msb m.link_seq_num small in
      let fits : bit_or m.link_seq_num seq_num_msb < 2 ^ 64 = omega (arith, e) in
      let acked = bit_and-msb (bit_or m.link_seq_num seq_num_msb) fits in
      let number = bit_and-mask (bit_or m.link_seq_num seq_num_msb) fits in
      let own = bit_and-mask m.link_seq_num small in
      (ground (arith, acked, e), omega (arith, number, own, e), fits, refl, refl, refl)
