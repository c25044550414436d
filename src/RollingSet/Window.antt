-- ===== src/RollingSet/Window.antt =====
-- How far the window of code/src/src/rolling-set.cpp moves.
use cs451_2020_project.Base.{
  ℕ, zero, suc, ◌+◌, ◌/◌, ◌%◌, ◌≤◌, ◌<◌, ◌≡◌, ◌≢◌, refl, ap, subst, ◌∙◌, inl, inr, false, ◌&&◌,
  List, [], ◌∷◌, arith, ◌==◌, if◌then◌else◌, Bool-cases, length, get_or, get_or-set_ne, length-set,
  u64_mod, All,
}
use cs451_2020_project.RollingSet.{
  RollingBitset, Chunk, new_chunk, set_bit, chunk_size, pop_front, empty, has_passed, rotate_chunks,
  insert, contains, insert_all,
}
use cs451_2020_project.RollingSet.Chunks.{
  get_or-grow, get_or-pop_front, get_or-set_first, pop_front_short, grow-length-le,
}
use cs451_2020_project.RollingSet.Refine.{
  IsValid, IsU64, index, grown, marked, with_bit, room, insert_cases, insert-IsValid,
  with_bit-IsValid, contains-first,
}

-- The use that `PerfectLink::deliver` makes of the set: a number is inserted when it is new.
pub insert_new : RollingBitset → ℕ → RollingBitset
insert_new s x = if contains s x then s else insert s x

pub insert_new_all : RollingBitset → List ℕ → RollingBitset
insert_new_all s [] = s
insert_new_all s (x ∷ xs) = insert_new_all (insert_new s x) xs

-- Chunk `k` has all its numbers.
abbrev pub IsFull : RollingBitset → ℕ → Type 0
IsFull s k = (get_or s.chunks k new_chunk).count ≡ chunk_size

index-ne-zero :
    (s : RollingBitset) (x : ℕ) (small : x < u64_mod) (fresh : has_passed s x ≡ false)
    → x / chunk_size ≢ s.offset
    → index s x small fresh ≢ 0
unfolding has_passed
index-ne-zero s x small fresh other = ground arith

-- Setting a bit elsewhere leaves the first chunk alone.
with_bit-first :
    (s : RollingBitset) (x : ℕ) (small : x < u64_mod) (fresh : has_passed s x ≡ false)
    → index s x small fresh ≢ 0
    → get_or (with_bit s x small fresh).chunks 0 new_chunk ≡ get_or s.chunks 0 new_chunk
with_bit-first s x small fresh other =
    let i = index s x small fresh in
    get_or-set_ne (grown s x small fresh) i 0 (marked s x small fresh) new_chunk other
    ∙ get_or-grow (i + 1) i s.chunks 0

-- A full first chunk stays when a new number comes.
insert_new-stuck :
    (s : RollingBitset) (x : ℕ)
    → x < u64_mod
    → IsValid s
    → IsFull s 0
    → ((insert_new s x).offset ≡ s.offset) × IsFull (insert_new s x) 0 × IsValid (insert_new s x)
unfolding insert_new
insert_new-stuck s x small v full = elim (Bool-cases (contains s x)) [
  | inl e ↦ rw e (refl, full, v)
  | inr e ↦
      let other : x / chunk_size ≢ s.offset = λ same. cc (contains-first s x small v full same) in
      rw e (
        insert_cases s x small (λ r. (r.offset ≡ s.offset) × IsFull r 0 × IsValid r)
          (λ old. (refl, full, v))
          (λ fresh _. (
            refl,
            ap (λ (c : Chunk). c.count)
                  (with_bit-first s x small fresh (index-ne-zero s x small fresh other))
                ∙ full,
            with_bit-IsValid s x small fresh v,
          ))
          λ fresh last here. absurd (other here))
]

insert_new_all-stuck :
    (s : RollingBitset) (xs : List ℕ)
    → All IsU64 xs
    → IsValid s
    → IsFull s 0
    → (insert_new_all s xs).offset ≡ s.offset
unfolding insert_new_all
insert_new_all-stuck s [] h v full = refl
insert_new_all-stuck s (x ∷ xs) h v full =
    let (same, still, valid) = insert_new-stuck s x h.0 v full in
    insert_new_all-stuck (insert_new s x) xs h.1 valid still ∙ same

module _ (s : RollingBitset) (x : ℕ) (small : x < u64_mod) (fresh : has_passed s x ≡ false) where
  rotated-offset :
      x / chunk_size ≡ s.offset → (rotate_chunks (with_bit s x small fresh)).offset ≡ s.offset + 1
  unfolding rotate_chunks
  rotated-offset here = omega arith

  -- The second chunk becomes the first.
  rotated-IsFull :
      x / chunk_size ≡ s.offset → IsFull s 1 → IsFull (rotate_chunks (with_bit s x small fresh)) 0
  unfolding rotate_chunks
  rotated-IsFull here full =
      let i = index s x small fresh in
      let same : get_or (with_bit s x small fresh).chunks 1 new_chunk
          ≡ get_or s.chunks 1 new_chunk =
        get_or-set_ne (grown s x small fresh) i 1 (marked s x small fresh) new_chunk (omega arith)
        ∙ get_or-grow (i + 1) i s.chunks 1 in
      get_or-pop_front (with_bit s x small fresh).chunks 0 ∙ ap (λ (c : Chunk). c.count) same ∙ full

-- In a set with right counters: if the second chunk is full when the first one fills up and goes, the window has moved by one
-- chunk, and never moves again, whatever new numbers come later.
pub window_stuck :
    (s : RollingBitset) (x : ℕ) (xs : List ℕ)
    → x < u64_mod
    → All IsU64 xs
    → IsValid s
    → IsFull s 1
    → (insert s x).offset ≢ s.offset
    → (insert_new_all (insert s x) xs).offset ≡ s.offset + 1
window_stuck s x xs small h v second moved =
    insert_cases s x small
      (λ r. r.offset ≢ s.offset → IsValid r → (insert_new_all r xs).offset ≡ s.offset + 1)
      (λ old m w. absurd (m refl)) (λ fresh _ m w. absurd (m refl))
      (λ fresh last here m w.
        let after = rotate_chunks (with_bit s x small fresh) in
        insert_new_all-stuck after xs h w (rotated-IsFull s x small fresh here second)
        ∙ rotated-offset s x small fresh here)
      moved (insert-IsValid s x small v)

-- What in-order insertion of the numbers below `n` leaves: the numbers of the chunk of `n`.
record IsTight (n : ℕ) (s : RollingBitset) : Type 0 where
  at : s.offset ≡ n / chunk_size
  short : length s.chunks ≤ 1
  counted : (get_or s.chunks 0 new_chunk).count ≡ n % chunk_size
  clear : (b : ℕ) → n % chunk_size ≤ b → (get_or s.chunks 0 new_chunk).bits b ≡ false

module _ (n : ℕ) (s : RollingBitset) (small : n < u64_mod) (t : IsTight n s) where
  not_passed : has_passed s n ≡ false
  unfolding has_passed
  not_passed = ground (arith, t.at)

  tight_index : index s n small not_passed ≡ 0
  tight_index = omega (arith, t.at)

  -- The counter goes up by one.
  tight_count : (marked s n small not_passed).count ≡ n % chunk_size + 1
  unfolding set_bit
  tight_count = ground (
    arith,
    tight_index,
    t.counted,
    t.clear (n % chunk_size) (omega arith),
    get_or-grow (index s n small not_passed + 1) (index s n small not_passed) s.chunks
        (index s n small not_passed),
  )

  first_marked :
      get_or (with_bit s n small not_passed).chunks 0 new_chunk ≡ marked s n small not_passed
  first_marked =
      get_or-set_first (grown s n small not_passed) (index s n small not_passed)
        (marked s n small not_passed) tight_index (room s n small not_passed)

  clear_marked : (b : ℕ) → n % chunk_size < b → (marked s n small not_passed).bits b ≡ false
  unfolding set_bit
  clear_marked b h = ground (
    arith,
    tight_index,
    t.clear b,
    get_or-grow (index s n small not_passed + 1) (index s n small not_passed) s.chunks
        (index s n small not_passed),
  )

  short_with_bit : length (with_bit s n small not_passed).chunks ≤ 1
  short_with_bit =
      let i = index s n small not_passed in
      omega (
        arith,
        tight_index,
        t.short,
        length-set (grown s n small not_passed) i (marked s n small not_passed),
        grow-length-le (i + 1) i s.chunks (omega (arith, t.short)),
      )

  no_more : pop_front (with_bit s n small not_passed).chunks ≡ []
  no_more = pop_front_short (with_bit s n small not_passed).chunks short_with_bit

  full_count :
      (get_or (with_bit s n small not_passed).chunks 0 new_chunk).count ≡ chunk_size
      → n % chunk_size + 1 ≡ chunk_size
  full_count last = omega (arith, tight_count, last, ap (λ (c : Chunk). c.count) first_marked)

  one-IsTight :
      (index s n small not_passed == 0 && (marked s n small not_passed).count == chunk_size) ≡ false
      → IsTight (n + 1) (with_bit s n small not_passed)
  one-IsTight more =
      let partial : n % chunk_size + 1 ≢ chunk_size = ground (arith, tight_index, tight_count) in
      record {
        at = omega (arith, t.at);
        short = short_with_bit;
        counted = ap (λ (c : Chunk). c.count) first_marked ∙ omega (arith, tight_count);
        clear = λ b h. ap (λ (c : Chunk). c.bits b) first_marked ∙ clear_marked b (omega arith);
      }

  last-IsTight :
      (get_or (with_bit s n small not_passed).chunks 0 new_chunk).count ≡ chunk_size
      → IsTight (n + 1) (rotate_chunks (with_bit s n small not_passed))
  unfolding rotate_chunks
  last-IsTight last =
      let whole = full_count last in
      record {
        at = omega (arith, t.at);
        short = rw no_more (omega arith);
        counted = rw no_more (omega arith);
        clear = λ b h. rw no_more refl;
      }

  insert-IsTight : IsTight (n + 1) (insert s n)
  insert-IsTight =
      insert_cases s n small (IsTight (n + 1)) (λ e. cc not_passed) (λ fresh more. one-IsTight more)
        λ fresh last here. last-IsTight last

empty-IsTight : IsTight 0 empty
empty-IsTight = record { at = refl; short = omega arith; counted = refl; clear = λ b h. refl }

-- The numbers below `n`, the largest first: `insert_all` takes them in increasing order.
abbrev pub below : ℕ → List ℕ
below zero = []
below (suc n) = n ∷ below n

insert_all-IsTight : (n : ℕ) → n ≤ u64_mod → IsTight n (insert_all (below n))
unfolding insert_all
insert_all-IsTight zero h = empty-IsTight
insert_all-IsTight (suc n) h =
    let step = insert-IsTight n (insert_all (below n)) h (insert_all-IsTight n (omega arith)) in
    subst (λ k. IsTight k (insert (insert_all (below n)) n)) (omega arith) step

-- The first `n` numbers, at most 2 ^ 64, in increasing order leave at most one chunk, and the window
-- stands at the chunk of the next number.
pub window_in_order :
    (n : ℕ)
    → n ≤ u64_mod
    → ((insert_all (below n)).offset ≡ n / chunk_size) × (length (insert_all (below n)).chunks ≤ 1)
window_in_order n h = let t = insert_all-IsTight n h in (t.at, t.short)
