-- ===== src/Broadcast/Uniform/Ack.antt =====
-- `BroadcastMessageHashMap<std::bitset<MAX_PROCESSES>>` as the field `ack` of
-- code/src/include/uniform-reliable-broadcast.hpp: entries by sequence number and originator.
use cs451_2020_project.Base.{
  ℕ, ◌≡◌, refl, Bool, true, false, List, [], ◌∷◌, if◌then◌else◌, arith, Bool-cases, inl, inr,
}
use cs451_2020_project.Message.{Message, max_processes, broadcast_message_compare}
use cs451_2020_project.RollingSet.Chunks.{card, card-none}

pub record AckEntry : Type 0 where
  pub message : Message
  pub bits : ℕ → Bool

abbrev pub AckMap : Type 0
AckMap = List AckEntry

-- A `std::bitset` with no bit set, and the number of bits set.
abbrev pub no_bits : ℕ → Bool
no_bits _ = false

unfoldable pub count : (ℕ → Bool) → ℕ
unfolding card
count = card max_processes

unfoldable pub ack_bits : AckMap → Message → ℕ → Bool
unfolding broadcast_message_compare
ack_bits [] m = no_bits
ack_bits (e ∷ es) m = if broadcast_message_compare e.message m then e.bits else ack_bits es m

unfoldable pub ack_put : AckMap → Message → (ℕ → Bool) → AckMap
unfolding broadcast_message_compare
ack_put [] m bits = record { message = m; bits = bits } ∷ []
ack_put (e ∷ es) m bits =
    if broadcast_message_compare e.message m
    then record e { bits = bits } ∷ es
    else e ∷ ack_put es m bits

-- `operator[]`
unfoldable pub ack_touch : AckMap → Message → AckMap
unfolding broadcast_message_compare
ack_touch [] m = record { message = m; bits = no_bits } ∷ []
ack_touch (e ∷ es) m = if broadcast_message_compare e.message m then e ∷ es else e ∷ ack_touch es m

unfoldable pub ack_erase : AckMap → Message → AckMap
unfolding broadcast_message_compare
ack_erase [] m = []
ack_erase (e ∷ es) m =
    if broadcast_message_compare e.message m then ack_erase es m else e ∷ ack_erase es m

-- The same broadcast: the same entry of the map.
abbrev pub SameBroadcast : Message → Message → Type 0
SameBroadcast a b = (a.bcast_seq_num ≡ b.bcast_seq_num) × (a.originator ≡ b.originator)

pub ack_bits-same :
    (a : AckMap) (m m' : Message) → SameBroadcast m m' → ack_bits a m ≡ ack_bits a m'
unfolding ack_bits
ack_bits-same [] m m' h = refl
ack_bits-same (e ∷ es) m m' h = ground (arith, ack_bits-same es m m' h)

pub ack_bits-put :
    (a : AckMap) (m : Message) (bits : ℕ → Bool) → ack_bits (ack_put a m bits) m ≡ bits
unfolding ack_bits ack_put
ack_bits-put [] m bits = ground arith
ack_bits-put (e ∷ es) m bits = elim (Bool-cases (broadcast_message_compare e.message m)) [
  | inl same ↦ rw (same, same) refl
  | inr other ↦ rw (other, other) (ack_bits-put es m bits)
]

pub ack_bits-touch : (a : AckMap) (m m' : Message) → ack_bits (ack_touch a m) m' ≡ ack_bits a m'
unfolding ack_bits ack_touch
ack_bits-touch [] m m' = elim (Bool-cases (broadcast_message_compare m m')) [
  | inl same ↦ rw same refl
  | inr other ↦ rw other refl
]
ack_bits-touch (e ∷ es) m m' = elim (Bool-cases (broadcast_message_compare e.message m)) [
  | inl same ↦ rw same refl
  | inr other ↦ elim (Bool-cases (broadcast_message_compare e.message m')) [
    | inl at ↦ rw (other, at) refl
    | inr away ↦ rw (other, away) (ack_bits-touch es m m')
  ]
]

-- Other broadcasts have other entries.
compare-apart :
    (a b c : Message)
    → broadcast_message_compare b c ≡ false
    → broadcast_message_compare a b ≡ true
    → broadcast_message_compare a c ≡ false
unfolding broadcast_message_compare
compare-apart a b c other same = ground arith

pub ack_bits-put_other :
    (a : AckMap) (m m' : Message) (bits : ℕ → Bool)
    → broadcast_message_compare m m' ≡ false
    → ack_bits (ack_put a m bits) m' ≡ ack_bits a m'
unfolding ack_bits ack_put
ack_bits-put_other [] m m' bits h = rw h refl
ack_bits-put_other (e ∷ es) m m' bits h =
    elim (Bool-cases (broadcast_message_compare e.message m)) [
      | inl same ↦ let apart = compare-apart e.message m m' h same in rw (same, apart) refl
      | inr other ↦ elim (Bool-cases (broadcast_message_compare e.message m')) [
        | inl at ↦ rw (other, at) refl
        | inr away ↦ rw (other, away) (ack_bits-put_other es m m' bits h)
      ]
    ]

pub ack_bits-erase_other :
    (a : AckMap) (m m' : Message)
    → broadcast_message_compare m m' ≡ false
    → ack_bits (ack_erase a m) m' ≡ ack_bits a m'
unfolding ack_bits ack_erase
ack_bits-erase_other [] m m' h = refl
ack_bits-erase_other (e ∷ es) m m' h = elim (Bool-cases (broadcast_message_compare e.message m)) [
  | inl same ↦
      let apart = compare-apart e.message m m' h same in
      rw (same, apart) (ack_bits-erase_other es m m' h)
  | inr other ↦ elim (Bool-cases (broadcast_message_compare e.message m')) [
    | inl at ↦ rw (other, at) refl
    | inr away ↦ rw (other, away) (ack_bits-erase_other es m m' h)
  ]
]

pub ack_bits-erase : (a : AckMap) (m : Message) → ack_bits (ack_erase a m) m ≡ no_bits
unfolding ack_bits ack_erase
ack_bits-erase [] m = refl
ack_bits-erase (e ∷ es) m = elim (Bool-cases (broadcast_message_compare e.message m)) [
  | inl same ↦ rw (same, ack_bits-erase es m) refl
  | inr other ↦ rw (other, other) (ack_bits-erase es m)
]

pub count-none : count no_bits ≡ 0
unfolding count
count-none = card-none max_processes
