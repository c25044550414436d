-- ===== src/Message/Wire.antt =====
-- How a message travels: `FairLossLink::send` of code/src/src/fair-loss-link.cpp sends the first
-- `size_bytes` bytes of the struct as it lies in memory, and the receiver task of
-- code/src/src/main.cpp reads the datagram back into a zeroed struct.
use native.Mathlib.Nat.{pow-suc}
use cs451_2020_project.Base.{
  leb, le→leb, Run, ok, fault, true, if◌then◌else◌, ℕ, zero, suc, ◌+◌, ◌-◌, ◌*◌, ◌/◌, ◌%◌, ◌^◌, ◌≤◌,
  ◌<◌, ◌≡◌, refl, ap, ap₂, List, [], ◌∷◌, ◌++◌, arith, length, take, drop, get_or, u64_mod, All,
  All-take, take_all, length-take_le, subst,
}
use cs451_2020_project.StaticVec.{to_list, force_set_size}
use cs451_2020_project.Message.{
  Message, max_processes, vector_clock_offset, seq_num_size, size_bytes,
}

-- `w` bytes of a number, the lowest first.
unfoldable pub bytes_of : ℕ → ℕ → List ℕ
bytes_of zero n = []
bytes_of (suc w) n = (n % 256) ∷ bytes_of w (n / 256)

-- A byte that is missing counts as zero.
unfoldable pub number_of : List ℕ → ℕ
number_of [] = 0
number_of (b ∷ bs) = b + 256 * number_of bs

pub words_of : List ℕ → List ℕ
words_of [] = []
words_of (x ∷ xs) = bytes_of seq_num_size x ++ words_of xs

-- The bytes before the vector clock; `p` and `q` are the two bytes of padding.
pub header : Message → ℕ → ℕ → List ℕ
unfolding bytes_of
header m p q =
    bytes_of 8 m.link_seq_num ++ bytes_of 4 m.bcast_seq_num ++ m.originator ∷ m.sender ∷ p ∷ q ∷ []

-- The struct in memory: header, array, size.
pub image : Message → ℕ → ℕ → List ℕ
unfolding header words_of bytes_of
image m p q = header m p q ++ (words_of m.vector_clock.storage ++ bytes_of 8 m.vector_clock.sz)

-- What `FairLossLink::send` hands to the socket.
pub datagram : Message → ℕ → ℕ → List ℕ
unfolding image size_bytes
datagram m p q = take (size_bytes m) (image m p q)

abbrev sizeof_message : ℕ
sizeof_message = 536

pub read_words : ℕ → List ℕ → List ℕ
read_words zero bs = []
read_words (suc n) bs = number_of (take seq_num_size bs) ∷ read_words n (drop seq_num_size bs)

-- `vector_size` of the receiver: the subtraction is on `std::size_t`.
unfoldable pub vector_size : ℕ → ℕ
vector_size len = (len + u64_mod - vector_clock_offset) % u64_mod / seq_num_size

-- The message that the receiver makes of a datagram. `recvfrom` cuts it to the buffer.
unfoldable pub read_message : List ℕ → Message
unfolding number_of read_words vector_size
read_message packet =
    let buf = take sizeof_message packet in
    record {
      link_seq_num = number_of (take 8 buf);
      bcast_seq_num = number_of (take 4 (drop 8 buf));
      originator = get_or buf 12 0;
      sender = get_or buf 13 0;
      vector_clock =
          force_set_size
            (record { storage = read_words max_processes (drop vector_clock_offset buf); sz = 0 })
            (vector_size (length buf));
    }

-- The body of the receiver's loop. Putting the message into the queue copies as many clocks as the
-- vector says, which reads outside its array if they are more than that has.
unfoldable pub receive : List ℕ → Run Message
unfolding read_message
receive packet =
    let msg = read_message packet in if leb msg.vector_clock.sz max_processes then ok msg else fault

-- The values fit their types.
pub record IsWellFormed (m : Message) : Type 0 where
  pub link_seq_num_fits : m.link_seq_num < 2 ^ 64
  pub bcast_seq_num_fits : m.bcast_seq_num < 2 ^ 32
  pub capacity : length m.vector_clock.storage ≡ max_processes
  pub size_fits : m.vector_clock.sz ≤ max_processes
  pub clocks_fit : All (λ x. x < 2 ^ 32) m.vector_clock.storage

-- The same message, as far as the program looks: the array behind the size does not count.
abbrev pub IsSame : Message → Message → Type 0
IsSame m r =
    (r.link_seq_num ≡ m.link_seq_num)
    × (r.bcast_seq_num ≡ m.bcast_seq_num)
    × (r.originator ≡ m.originator)
    × (r.sender ≡ m.sender)
    × (r.vector_clock.sz ≡ m.vector_clock.sz)
    × (to_list r.vector_clock ≡ to_list m.vector_clock)

pub number_of-bytes_of : (w n : ℕ) → n < 256 ^ w → number_of (bytes_of w n) ≡ n
unfolding number_of bytes_of
number_of-bytes_of zero n h = omega arith
number_of-bytes_of (suc w) n h =
    omega (arith, pow-suc 256 w, number_of-bytes_of w (n / 256) (omega (arith, pow-suc 256 w)))

take-words_of :
    (n : ℕ) (xs tail : List ℕ)
    → n ≤ length xs
    → take (seq_num_size * n) (words_of xs ++ tail) ≡ words_of (take n xs)
unfolding words_of bytes_of
take-words_of zero xs tail h = refl
take-words_of (suc n) [] tail h = absurd (omega arith)
take-words_of (suc n) (x ∷ xs) tail h =
    let four : 4 * suc n ≡ suc (suc (suc (suc (4 * n)))) = omega arith in
    rw (four, take-words_of n xs tail (omega arith)) refl

length-words_of : (xs : List ℕ) → length (words_of xs) ≡ 4 * length xs
unfolding words_of bytes_of
length-words_of [] = refl
length-words_of (x ∷ xs) = omega (arith, length-words_of xs)

take-read_words :
    (n : ℕ) (ys : List ℕ)
    → length ys ≤ n
    → All (λ x. x < 2 ^ 32) ys
    → take (length ys) (read_words n (words_of ys)) ≡ ys
unfolding words_of read_words bytes_of
take-read_words n [] h a = refl
take-read_words zero (y ∷ ys) h a = absurd (omega arith)
take-read_words (suc n) (y ∷ ys) h a =
    ap₂ (λ b t. b ∷ t) (number_of-bytes_of 4 y a.0) (take-read_words n ys (omega arith) a.1)

module _ (m : Message) (p q : ℕ) (v : IsWellFormed m) where
  abbrev clocks : List ℕ
  clocks = to_list m.vector_clock

  -- The first `size_bytes` bytes are the header and the clocks in use.
  datagram-eq : datagram m p q ≡ header m p q ++ words_of clocks
  unfolding datagram
  datagram-eq =
      let sz = m.vector_clock.sz in
      let sixteen : 16 + 4 * sz
          ≡ suc (
              suc (
                suc (
                  suc (
                    suc (
                      suc
                        (suc (suc (suc (suc (suc (suc (suc (suc (suc (suc (4 * sz)))))))))))))))) =
        omega arith in
      rw sixteen (
        ap (λ t. header m p q ++ t)
          (take-words_of sz m.vector_clock.storage (bytes_of 8 sz)
            (omega (arith, v.size_fits, v.capacity))))

  length-clocks : length clocks ≡ m.vector_clock.sz
  length-clocks =
      length-take_le m.vector_clock.sz m.vector_clock.storage
        (omega (arith, v.size_fits, v.capacity))

  -- It fits the receiver's buffer.
  buffer-eq : take sizeof_message (datagram m p q) ≡ header m p q ++ words_of clocks
  unfolding header
  buffer-eq = rw datagram-eq (
      ap (λ t. header m p q ++ t)
        (take_all 520 (words_of clocks)
          (omega (arith, length-words_of clocks, length-clocks, v.size_fits))))

  vector_size-buffer : vector_size (length (header m p q ++ words_of clocks)) ≡ m.vector_clock.sz
  unfolding header vector_size
  vector_size-buffer = omega (arith, length-words_of clocks, length-clocks, v.size_fits)

  read-clocks : take m.vector_clock.sz (read_words max_processes (words_of clocks)) ≡ clocks
  read-clocks =
      subst (λ k. take k (read_words max_processes (words_of clocks)) ≡ clocks) length-clocks
        (take-read_words max_processes clocks (omega (arith, length-clocks, v.size_fits))
          (All-take (λ x. x < 2 ^ 32) m.vector_clock.sz m.vector_clock.storage v.clocks_fit))

  read_message-IsSame : IsSame m (read_message (datagram m p q))
  unfolding read_message header
  read_message-IsSame =
      rw (buffer-eq, vector_size-buffer)
        (
          number_of-bytes_of 8 m.link_seq_num v.link_seq_num_fits,
          number_of-bytes_of 4 m.bcast_seq_num v.bcast_seq_num_fits,
          refl,
          refl,
          refl,
          read-clocks,
        )

  -- `receive` undoes `send`: for a message whose values fit their types the receiver reads
  -- nothing outside an array, and has the fields
  -- and the clocks back from the datagram, whatever the padding bytes were.
  pub receive-datagram : (r : Message) × (receive (datagram m p q) ≡ ok r) × IsSame m r
  unfolding receive
  receive-datagram =
      let r = read_message (datagram m p q) in
      let same = read_message-IsSame in
      let fits : leb r.vector_clock.sz max_processes ≡ true =
        le→leb r.vector_clock.sz max_processes (omega (arith, same.4, v.size_fits)) in
      (r, rw (fits, receive) refl, same)
