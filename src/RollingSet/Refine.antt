-- ===== src/RollingSet/Refine.antt =====
-- `insert` and `contains` of code/src/src/rolling-set.cpp against plain sets of numbers.
use cs451_2020_project.Base.{
  ℕ, suc, ◌+◌, ◌-◌, ◌/◌, ◌%◌, ◌<◌, ◌≡◌, refl, inl, inr, Bool, true, false, ◌&&◌, ◌||◌, List, [],
  ◌∷◌, arith, ◌==◌, if◌then◌else◌, Bool-cases, length, get_or, get_or_beyond, get_or-set_self, elem,
  ap, ◌∙◌, set, u64_mod, All, All-set, All-get_or,
}
use cs451_2020_project.RollingSet.{
  RollingBitset, Chunk, new_chunk, set_bit, chunk_size, grow, empty, has_passed, chunk_index,
  rotate_chunks, insert, contains, insert_all,
}
use cs451_2020_project.RollingSet.Chunks.{
  card, card_full, IsCounted, new_chunk-IsCounted, set_bit-IsCounted, bit_at, get_or-grow,
  grow-length, grow-IsCounted, bit_at-set, bit_at-pop_front, pop_front-IsCounted,
}

-- Each chunk's counter is right.
abbrev pub IsValid : RollingBitset → Type 0
IsValid s = All IsCounted s.chunks

-- What `contains` answers, in terms of the bits.
abbrev has_number : RollingBitset → ℕ → Bool
has_number s x = has_passed s x || bit_at s.chunks (x / chunk_size - s.offset) (x % chunk_size)

pub chunk_index_lem :
    (s : RollingBitset) (x : ℕ)
    → x < u64_mod
    → has_passed s x ≡ false
    → chunk_index s x ≡ x / chunk_size - s.offset
unfolding chunk_index has_passed
chunk_index_lem s x small h = ground arith

contains-has_number : (s : RollingBitset) (x : ℕ) → x < u64_mod → contains s x ≡ has_number s x
unfolding contains
contains-has_number s x small = elim (Bool-cases (has_passed s x)) [
  | inl e ↦ rw e refl
  | inr e ↦
      rw (e, chunk_index_lem s x small e)
        (ground (arith, get_or_beyond s.chunks (x / chunk_size - s.offset) new_chunk))
]

module _ (s : RollingBitset) (x : ℕ) (small : x < u64_mod) (fresh : has_passed s x ≡ false) where
  abbrev pub index : ℕ
  index = x / chunk_size - s.offset

  abbrev pub grown : List Chunk
  grown = grow (index + 1) index s.chunks

  abbrev pub marked : Chunk
  marked = set_bit (get_or grown index new_chunk) (x % chunk_size)

  -- The set with the bit of `x`, before the first chunk may go.
  abbrev pub with_bit : RollingBitset
  with_bit = record { offset = s.offset; chunks = set grown index marked }

  pub room : index < length grown
  room = grow-length (index + 1) index s.chunks (omega arith)

  pub insert-eq :
      insert s x
      ≡ (if index == 0 && marked.count == chunk_size then rotate_chunks with_bit else with_bit)
  unfolding insert
  insert-eq = rw (fresh, chunk_index_lem s x small fresh) refl

  with_bit-has_number : (y : ℕ) → has_number with_bit y ≡ ((y == x) || has_number s y)
  unfolding has_passed
  with_bit-has_number y = ground (
    arith,
    fresh,
    room,
    bit_at-set grown index (x % chunk_size) (y / chunk_size - s.offset) (y % chunk_size),
    get_or-grow (index + 1) index s.chunks (y / chunk_size - s.offset),
  )

  pub with_bit-IsValid : IsValid s → IsValid with_bit
  with_bit-IsValid v =
      let old = grow-IsCounted (index + 1) index s.chunks v in
      let kept = All-get_or IsCounted grown index new_chunk old new_chunk-IsCounted in
      All-set IsCounted grown index marked old
        (set_bit-IsCounted (get_or grown index new_chunk) (x % chunk_size) (omega arith) kept)

module _ (s : RollingBitset) where
  rotate_chunks-IsValid : IsValid s → IsValid (rotate_chunks s)
  unfolding rotate_chunks
  rotate_chunks-IsValid v = pop_front-IsCounted s.chunks v

  -- A first chunk that is full may go: its numbers count as passed from then on.
  rotate_chunks-has_number :
      IsValid s
      → (get_or s.chunks 0 new_chunk).count ≡ chunk_size
      → s.offset + 1 < u64_mod
      → (y : ℕ) → has_number (rotate_chunks s) y ≡ has_number s y
  unfolding rotate_chunks has_passed
  rotate_chunks-has_number v full small y = ground (
    arith,
    All-get_or IsCounted s.chunks 0 new_chunk v new_chunk-IsCounted,
    card_full chunk_size (get_or s.chunks 0 new_chunk).bits filled (y % chunk_size) (omega arith),
    bit_at-pop_front s.chunks (y / chunk_size - suc s.offset) (y % chunk_size),
  )
    where
      filled : card chunk_size (get_or s.chunks 0 new_chunk).bits ≡ chunk_size
      filled = omega (arith, All-get_or IsCounted s.chunks 0 new_chunk v new_chunk-IsCounted)

module _ (s : RollingBitset) (x : ℕ) (small : x < u64_mod) where
  rotates :
      (fresh : has_passed s x ≡ false)
      → (index s x small fresh == 0 && (marked s x small fresh).count == chunk_size) ≡ true
      → (get_or (with_bit s x small fresh).chunks 0 new_chunk).count ≡ chunk_size
  rotates fresh e = ground (
    arith,
    room s x small fresh,
    get_or-set_self (grown s x small fresh) (index s x small fresh) (marked s x small fresh)
        new_chunk,
  )

  in_first :
      (fresh : has_passed s x ≡ false)
      → (index s x small fresh == 0 && (marked s x small fresh).count == chunk_size) ≡ true
      → x / chunk_size ≡ s.offset
  unfolding has_passed
  in_first fresh e = ground arith

  -- The three ways through `insert`: the number has passed, its bit is set, or its bit was the
  -- last one missing in the first chunk, which goes.
  pub insert_cases {ℓ} :
      (P : RollingBitset → Type ℓ)
      → (has_passed s x ≡ true → P s)
      → ((fresh : has_passed s x ≡ false)
          → (index s x small fresh == 0 && (marked s x small fresh).count == chunk_size) ≡ false
          → P (with_bit s x small fresh))
      → ((fresh : has_passed s x ≡ false)
          → (get_or (with_bit s x small fresh).chunks 0 new_chunk).count ≡ chunk_size
          → x / chunk_size ≡ s.offset
          → P (rotate_chunks (with_bit s x small fresh)))
      → P (insert s x)
  unfolding insert
  insert_cases P old one full = elim (Bool-cases (has_passed s x)) [
    | inl e ↦ rw e (old e)
    | inr e ↦
        rw (insert-eq s x small e)
          (elim (Bool-cases (index s x small e == 0 && (marked s x small e).count == chunk_size)) [
            | inl last ↦ rw last (full e (rotates e last) (in_first e last))
            | inr more ↦ rw more (one e more)
          ])
  ]

module _ (s : RollingBitset) (x : ℕ) (small : x < u64_mod) (v : IsValid s) where
  has_number_passed :
      has_passed s x ≡ true → (y : ℕ) → has_number s y ≡ ((y == x) || has_number s y)
  has_number_passed e y = elim (Bool-cases (y == x)) [
    | inl same ↦ ground arith
    | inr other ↦ ground arith
  ]

  -- Insertion adds exactly the number inserted.
  pub insert-has_number : (y : ℕ) → has_number (insert s x) y ≡ ((y == x) || has_number s y)
  insert-has_number y =
      insert_cases s x small (λ r. has_number r y ≡ ((y == x) || has_number s y))
        (λ e. has_number_passed e y) (λ e _. with_bit-has_number s x small e y)
        λ e full here.
          rotate_chunks-has_number (with_bit s x small e) (with_bit-IsValid s x small e v) full
            (omega arith) y
          ∙ with_bit-has_number s x small e y

  -- Insertion keeps the counters right.
  pub insert-IsValid : IsValid (insert s x)
  insert-IsValid =
      insert_cases s x small IsValid (λ _. v) (λ e _. with_bit-IsValid s x small e v)
        λ e _ _. rotate_chunks-IsValid (with_bit s x small e) (with_bit-IsValid s x small e v)

-- A number whose chunk is the first one, and full, is contained.
pub contains-first :
    (s : RollingBitset) (x : ℕ)
    → x < u64_mod
    → IsValid s
    → (get_or s.chunks 0 new_chunk).count ≡ chunk_size
    → x / chunk_size ≡ s.offset
    → contains s x ≡ true
unfolding has_passed
contains-first s x small v full e =
    let counted = All-get_or IsCounted s.chunks 0 new_chunk v new_chunk-IsCounted in
    let filled : card chunk_size (get_or s.chunks 0 new_chunk).bits ≡ chunk_size = omega arith in
    contains-has_number s x small
    ∙ ground (
      arith,
      card_full chunk_size (get_or s.chunks 0 new_chunk).bits filled (x % chunk_size) (omega arith),
    )

-- On a valid set insertion adds exactly the number inserted, as `contains` sees it.
pub contains-insert :
    (s : RollingBitset) (x y : ℕ)
    → x < u64_mod
    → y < u64_mod
    → IsValid s
    → contains (insert s x) y ≡ ((y == x) || contains s y)
contains-insert s x y hx hy v =
    rw (contains-has_number (insert s x) y hy, contains-has_number s y hy)
      (insert-has_number s x hx v y)

abbrev pub IsU64 : ℕ → Type 0
IsU64 x = x < u64_mod

pub insert_all-IsValid : (xs : List ℕ) → All IsU64 xs → IsValid (insert_all xs)
unfolding insert_all
insert_all-IsValid [] h = tt
insert_all-IsValid (x ∷ xs) h = insert-IsValid (insert_all xs) x h.0 (insert_all-IsValid xs h.1)

-- After any sequence of insertions of 64-bit numbers, in any order and with repetitions, `contains` answers true for
-- the inserted numbers and for no others, although whole chunks have been dropped on the way.
pub contains-insert_all :
    (xs : List ℕ) (y : ℕ) → All IsU64 xs → y < u64_mod → contains (insert_all xs) y ≡ elem y xs
unfolding insert_all has_passed
contains-insert_all [] y h hy = contains-has_number empty y hy ∙ ground arith
contains-insert_all (x ∷ xs) y h hy =
    contains-insert (insert_all xs) x y h.0 hy (insert_all-IsValid xs h.1)
    ∙ ap (λ b. (y == x) || b) (contains-insert_all xs y h.1 hy)
