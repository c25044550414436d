-- ===== src/RollingSet.antt =====
-- code/src/include/rolling-set.hpp and code/src/src/rolling-set.cpp: the set of sequence numbers
-- in chunks of 512, of which it drops the first one when that fills up. A `std::bitset` is a function from bit
-- positions, a `std::deque` a list; positions and chunk indices are 64-bit.
pub mod Chunks
pub mod Refine
pub mod Window
pub mod Tests
use cs451_2020_project.Base.{
  ℕ, zero, suc, ◌+◌, ◌-◌, ◌/◌, ◌%◌, ◌^◌, Bool, true, false, ◌&&◌, List, [], ◌∷◌, ◌++◌, ltb, leb,
  ◌==◌, if◌then◌else◌, length, get_or, set, u64_mod, update,
}

abbrev pub chunk_size : ℕ
chunk_size = 512

pub record Chunk : Type 0 where
  pub bits : ℕ → Bool
  pub count : ℕ  -- uint16_t

abbrev pub new_chunk : Chunk
new_chunk = record { bits = λ _. false; count = 0 }

-- `Chunk::set`
unfoldable pub set_bit : Chunk → ℕ → Chunk
set_bit c idx = record {
  bits = update c.bits idx true;
  count = if c.bits idx then c.count else (c.count + 1) % 2 ^ 16;
}

-- `Chunk::test`
unfoldable pub test_bit : Chunk → ℕ → Bool
test_bit c idx = c.bits idx

pub record RollingBitset : Type 0 where
  pub offset : ℕ
  pub chunks : List Chunk

abbrev pub empty : RollingBitset
empty = record { offset = 0; chunks = [] }

unfoldable pub has_passed : RollingBitset → ℕ → Bool
has_passed s elem = ltb (elem / chunk_size) s.offset

-- The subtraction is on `std::size_t`.
unfoldable pub chunk_index : RollingBitset → ℕ → ℕ
chunk_index s elem = (elem / chunk_size + u64_mod - s.offset) % u64_mod

-- `std::deque::pop_front`
unfoldable pub pop_front : List Chunk → List Chunk
pop_front [] = []
pop_front (c ∷ cs) = cs

unfoldable pub rotate_chunks : RollingBitset → RollingBitset
unfolding pop_front
rotate_chunks s = record { offset = (s.offset + 1) % u64_mod; chunks = pop_front s.chunks }

-- `while (chunk_idx >= chunks.size()) chunks.emplace_back();`, with fuel
unfoldable pub grow : ℕ → ℕ → List Chunk → List Chunk
grow zero chunk_idx chunks = chunks
grow (suc fuel) chunk_idx chunks = elim (leb (length chunks) chunk_idx) [
  | true ↦ grow fuel chunk_idx (chunks ++ new_chunk ∷ [])
  | false ↦ chunks
]

unfoldable pub insert : RollingBitset → ℕ → RollingBitset
unfolding has_passed chunk_index rotate_chunks grow set_bit
insert s elem =
    if has_passed s elem
    then s
    else (let chunk_idx = chunk_index s elem in
        let grown = grow (chunk_idx + 1) chunk_idx s.chunks in
        let chunk = set_bit (get_or grown chunk_idx new_chunk) (elem % chunk_size) in
        let s' : RollingBitset = record s { chunks = set grown chunk_idx chunk } in
        if chunk_idx == 0 && chunk.count == chunk_size then rotate_chunks s' else s')

unfoldable pub contains : RollingBitset → ℕ → Bool
unfolding has_passed chunk_index test_bit
contains s elem =
    if has_passed s elem
    then true
    else (let chunk_idx = chunk_index s elem in
        if leb (length s.chunks) chunk_idx
        then false
        else test_bit (get_or s.chunks chunk_idx new_chunk) (elem % chunk_size))

-- The set after a sequence of insertions, the last one first.
unfoldable pub insert_all : List ℕ → RollingBitset
insert_all [] = empty
insert_all (x ∷ xs) = insert (insert_all xs) x
