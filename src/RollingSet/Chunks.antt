-- ===== src/RollingSet/Chunks.antt =====
-- Lemmas about one chunk and the deque of chunks of code/src/src/rolling-set.cpp: how many bits are
-- set, reading a bit of the deque, and the loop that makes the deque long enough.
use cs451_2020_project.Base.{
  ℕ, zero, suc, ◌+◌, ◌≤◌, ◌<◌, ◌≡◌, refl, inl, inr, Bool, true, false, ◌&&◌, List, [], ◌∷◌, ◌++◌,
  arith, elem, fun_ext, leb, ◌==◌, if◌then◌else◌, Bool-cases, length, length-append, get_or,
  get_or-set_self, get_or-set_ne, set, update, All, All-append,
}
use cs451_2020_project.RollingSet.{Chunk, new_chunk, set_bit, chunk_size, grow, pop_front}

-- The number of set bits below `n`.
unfoldable pub card : ℕ → (ℕ → Bool) → ℕ
card zero f = 0
card (suc n) f = card n f + (if f n then 1 else 0)

pub card-le : (n : ℕ) (f : ℕ → Bool) → card n f ≤ n
unfolding card
card-le zero f = omega arith
card-le (suc n) f = ground (arith, card-le n f)

pub card-none : (n : ℕ) → card n (λ _. false) ≡ 0
unfolding card
card-none zero = refl
card-none (suc n) = omega (arith, card-none n)

card-update_above :
    (n : ℕ) (f : ℕ → Bool) (i : ℕ) (b : Bool) → n ≤ i → card n (update f i b) ≡ card n f
unfolding card
card-update_above zero f i b h = refl
card-update_above (suc n) f i b h = ground (arith, card-update_above n f i b)

pub card-update :
    (n : ℕ) (f : ℕ → Bool) (i : ℕ)
    → i < n
    → card n (update f i true) ≡ (if f i then card n f else card n f + 1)
unfolding card
card-update zero f i h = absurd (omega arith)
card-update (suc n) f i h = elim (Bool-cases (i == n)) [
  | inl e ↦ ground (arith, card-update_above n f i true)
  | inr e ↦ ground (arith, card-update n f i)
]

-- Clearing a bit takes at most one away.
card-clear : (n : ℕ) (f : ℕ → Bool) (i : ℕ) → card n f ≤ card n (update f i false) + 1
unfolding card
card-clear zero f i = omega arith
card-clear (suc n) f i = elim (Bool-cases (i == n)) [
  | inl e ↦ ground (arith, card-update_above n f i false)
  | inr e ↦ ground (arith, card-clear n f i)
]

-- There are at most as many set bits as a list that has them all is long.
pub card-le-length :
    (xs : List ℕ) (n : ℕ) (f : ℕ → Bool)
    → ((i : ℕ) → f i ≡ true → elem i xs ≡ true)
    → card n f ≤ length xs
card-le-length [] n f h =
    let empty_f : f ≡ (λ _. false) =
      fun_ext λ i. elim (Bool-cases (f i)) [ inl e ↦ absurd (cc (h i e)) | inr e ↦ e ] in
    rw empty_f (omega (arith, card-none n))
card-le-length (x ∷ xs) n f h =
    omega
      (arith, card-clear n f x, card-le-length xs n (update f x false) λ i e. ground (arith, h i))

-- A full chunk has every bit set.
pub card_full : (n : ℕ) (f : ℕ → Bool) → card n f ≡ n → (i : ℕ) → i < n → f i ≡ true
unfolding card
card_full zero f h i p = absurd (omega arith)
card_full (suc n) f h i p = elim (Bool-cases (i == n)) [
  | inl e ↦ ground (arith, card-le n f)
  | inr e ↦
      let rest : card n f ≡ n = ground (arith, card-le n f) in card_full n f rest i (ground arith)
]

-- The counter of a chunk is the number of its set bits.
abbrev pub IsCounted : Chunk → Type 0
IsCounted c = c.count ≡ card chunk_size c.bits

pub new_chunk-IsCounted : IsCounted new_chunk
new_chunk-IsCounted = omega (arith, card-none chunk_size)

pub set_bit-IsCounted : (c : Chunk) (i : ℕ) → i < chunk_size → IsCounted c → IsCounted (set_bit c i)
unfolding set_bit
set_bit-IsCounted c i h e = ground (
  arith,
  card-update chunk_size c.bits i h,
  card-le chunk_size (update c.bits i true),
  card-le chunk_size c.bits,
)

-- Bit `b` of chunk `k`; a chunk that is not there has no bit set.
abbrev pub bit_at : List Chunk → ℕ → ℕ → Bool
bit_at cs k b = (get_or cs k new_chunk).bits b

get_or-append_new :
    (cs : List Chunk) (k : ℕ) → get_or (cs ++ new_chunk ∷ []) k new_chunk ≡ get_or cs k new_chunk
get_or-append_new [] zero = refl
get_or-append_new [] (suc k) = refl
get_or-append_new (c ∷ cs) zero = refl
get_or-append_new (c ∷ cs) (suc k) = get_or-append_new cs k

-- The loop changes no chunk, and ends with chunk `i` present.
pub get_or-grow :
    (fuel i : ℕ) (cs : List Chunk) (k : ℕ)
    → get_or (grow fuel i cs) k new_chunk ≡ get_or cs k new_chunk
unfolding grow
get_or-grow zero i cs k = refl
get_or-grow (suc fuel) i cs k =
    ground (arith, get_or-grow fuel i (cs ++ new_chunk ∷ []) k, get_or-append_new cs k)

pub grow-length :
    (fuel i : ℕ) (cs : List Chunk) → i < fuel + length cs → i < length (grow fuel i cs)
unfolding grow
grow-length zero i cs h = omega arith
grow-length (suc fuel) i cs h =
    ground (arith, grow-length fuel i (cs ++ new_chunk ∷ []), length-append cs (new_chunk ∷ []))

-- It adds no more chunks than that.
pub grow-length-le :
    (fuel i : ℕ) (cs : List Chunk) → length cs ≤ i + 1 → length (grow fuel i cs) ≤ i + 1
unfolding grow
grow-length-le zero i cs h = h
grow-length-le (suc fuel) i cs h =
    ground (arith, grow-length-le fuel i (cs ++ new_chunk ∷ []), length-append cs (new_chunk ∷ []))

pub grow-IsCounted :
    (fuel i : ℕ) (cs : List Chunk) → All IsCounted cs → All IsCounted (grow fuel i cs)
unfolding grow
grow-IsCounted zero i cs h = h
grow-IsCounted (suc fuel) i cs h = elim (Bool-cases (leb (length cs) i)) [
  | inl e ↦
      rw (e, grow)
        (grow-IsCounted fuel i (cs ++ new_chunk ∷ [])
          (All-append IsCounted cs (new_chunk ∷ []) h (new_chunk-IsCounted, tt)))
  | inr e ↦ rw (e, grow) h
]

-- Once a chunk is there, the loop does nothing.
pub grow_enough : (fuel i : ℕ) (cs : List Chunk) → i < length cs → grow fuel i cs ≡ cs
unfolding grow
grow_enough zero i cs h = refl
grow_enough (suc fuel) i cs h = ground arith

pub bit_at-set :
    (cs : List Chunk) (i j k b : ℕ)
    → i < length cs
    → bit_at (set cs i (set_bit (get_or cs i new_chunk) j)) k b
      ≡ (if i == k && j == b then true else bit_at cs k b)
unfolding set_bit
bit_at-set cs i j k b h = elim (Bool-cases (i == k)) [
  | inl e ↦ ground (arith, get_or-set_self cs i (set_bit (get_or cs i new_chunk) j) new_chunk h)
  | inr e ↦ ground (arith, get_or-set_ne cs i k (set_bit (get_or cs i new_chunk) j) new_chunk)
]

pub get_or-set_first :
    (cs : List Chunk) (i : ℕ) (c : Chunk)
    → i ≡ 0
    → i < length cs
    → get_or (set cs i c) 0 new_chunk ≡ c
get_or-set_first cs i c e h = rw e (get_or-set_self cs 0 c new_chunk (omega arith))

pub bit_at-pop_front : (cs : List Chunk) (k b : ℕ) → bit_at (pop_front cs) k b ≡ bit_at cs (suc k) b
unfolding pop_front
bit_at-pop_front [] k b = refl
bit_at-pop_front (c ∷ cs) k b = refl

pub get_or-pop_front :
    (cs : List Chunk) (k : ℕ)
    → (get_or (pop_front cs) k new_chunk).count ≡ (get_or cs (suc k) new_chunk).count
unfolding pop_front
get_or-pop_front [] k = refl
get_or-pop_front (c ∷ cs) k = refl

pub pop_front-IsCounted : (cs : List Chunk) → All IsCounted cs → All IsCounted (pop_front cs)
unfolding pop_front
pop_front-IsCounted [] h = h
pop_front-IsCounted (c ∷ cs) h = h.1

pub pop_front_short : (cs : List Chunk) → length cs ≤ 1 → pop_front cs ≡ []
unfolding pop_front
pop_front_short [] h = refl
pop_front_short (c ∷ []) h = refl
pop_front_short (c ∷ d ∷ cs) h = absurd (omega arith)
