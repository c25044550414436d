-- ===== src/Message.antt =====
-- code/src/include/message.hpp: the message, its size in bytes, and the functors by which the
-- containers hash, compare and order messages.
pub mod Wire
pub mod Tests
use cs451_2020_project.Base.{
  ℕ, ◌+◌, ◌*◌, ◌%◌, ◌≡◌, ap₂, bit_xor, Bool, true, ◌&&◌, arith, ◌==◌, ltb, u64_mod,
}
use cs451_2020_project.StaticVec.{StaticVec}

abbrev pub max_processes : ℕ
max_processes = 128

-- `LinkSeqNum` has 64 bits, `BroadcastSeqNum` 32 and `ProcessId` 8.
pub record Message : Type 0 where
  pub link_seq_num : ℕ
  pub bcast_seq_num : ℕ
  pub originator : ℕ
  pub sender : ℕ
  pub vector_clock : StaticVec ℕ

-- `offsetof(Message, vector_clock)` and `sizeof(BroadcastSeqNum)`
abbrev pub vector_clock_offset : ℕ
vector_clock_offset = 16

abbrev pub seq_num_size : ℕ
seq_num_size = 4

pub size_bytes : Message → ℕ
size_bytes m = vector_clock_offset + seq_num_size * m.vector_clock.sz

-- `std::hash` of the two integer types is the library's.
pub broadcast_message_hash : (ℕ → ℕ) → (ℕ → ℕ) → Message → ℕ
broadcast_message_hash hash_seq_num hash_process_id m =
    let h1 = hash_seq_num m.bcast_seq_num in
    let h2 = hash_process_id m.originator in bit_xor h1 (h2 * 2 % u64_mod)

unfoldable pub broadcast_message_compare : Message → Message → Bool
broadcast_message_compare a b = a.bcast_seq_num == b.bcast_seq_num && a.originator == b.originator

-- The greater one comes out last.
unfoldable broadcast_message_order : Message → Message → Bool
broadcast_message_order a b = ltb b.bcast_seq_num a.bcast_seq_num

-- What the hash map needs of its functors: messages that compare equal have one hash.
pub hash-compare :
    (hash_seq_num hash_process_id : ℕ → ℕ) (a b : Message)
    → broadcast_message_compare a b ≡ true
    → broadcast_message_hash hash_seq_num hash_process_id a
      ≡ broadcast_message_hash hash_seq_num hash_process_id b
unfolding broadcast_message_compare broadcast_message_hash
hash-compare f g a b h = ground arith
