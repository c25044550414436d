-- ===== src/Broadcast/Ring/Neighbors.antt =====
-- Which processes are connected, and how many: the ring of code/src/src/best-effort-broadcast.cpp.
use native.Mathlib.Nat.{mod-eq_of_lt, mod-eq-sub-mod}
use cs451_2020_project.Base.{
  ℕ, zero, suc, ◌+◌, ◌-◌, ◌*◌, ◌/◌, ◌%◌, ◌≤◌, ◌<◌, ◌≡◌, refl, sym, ◌∙◌, inl, inr, Bool, true, false,
  ◌&&◌, ◌||◌, not, List, [], ◌∷◌, arith, ltb, leb, ◌==◌, if◌then◌else◌, Bool-cases, length, elem,
  ltb→lt, ltb→le, subst,
}
use cs451_2020_project.Broadcast.Ring.{
  process_id, ring_loop, neighbors_per_side, create_n_connected_ring,
}

-- The steps from `a` to `b` going up, modulo `n`.
abbrev pub steps : ℕ → ℕ → ℕ → ℕ
steps n a b = if leb a b then b - a else b + n - a

-- `lo ≤ s < hi`
abbrev within : ℕ → ℕ → ℕ → Bool
within lo hi s = leb lo s && ltb s hi

abbrev near : ℕ → ℕ → ℕ → ℕ → ℕ → Bool
near n lo hi a b = within lo hi (steps n a b) || within lo hi (steps n b a)

pub wrap_once : (n y : ℕ) → y < n + n → y % n ≡ (if ltb y n then y else y - n)
wrap_once n y h = elim (Bool-cases (ltb y n)) [
  | inl e ↦ rw e (mod-eq_of_lt (ltb→lt y n e))
  | inr e ↦ rw e (mod-eq-sub-mod (ltb→le y n e) ∙ mod-eq_of_lt (ground arith))
]

module _ (n id offset x : ℕ) (small : n ≤ 256) (hid : id < n) (hx : x < n) (pos : 0 < offset)
    (fit : offset < n) where
  right_is : (x == process_id ((id + offset) % n)) ≡ (steps n id x == offset)
  right_is = rw (wrap_once n (id + offset) (omega arith)) (ground arith)

  left_is : (x == process_id ((id + n - offset) % n)) ≡ (steps n x id == offset)
  left_is = rw (wrap_once n (id + n - offset) (omega arith)) (ground arith)

within_first : (lo hi s : ℕ) → lo < hi → within lo hi s ≡ (s == lo || within (lo + 1) hi s)
within_first lo hi s h = ground arith

within_none : (lo s : ℕ) → within lo (lo + 0) s ≡ false
within_none lo s = ground arith

or_shuffle : (a b c d : Bool) → ((a || c) || (b || d)) ≡ (a || (b || (c || d)))
or_shuffle true b c d = refl
or_shuffle false true true d = refl
or_shuffle false true false d = refl
or_shuffle false false c d = refl

elem-ring_loop :
    (rounds offset id n x : ℕ)
    → n ≤ 256
    → id < n
    → x < n
    → 0 < offset
    → offset + rounds ≤ n
    → elem x (ring_loop rounds offset id n) ≡ near n offset (offset + rounds) id x
unfolding ring_loop
elem-ring_loop zero offset id n x small hid hx pos fit =
    rw (within_none offset (steps n id x), within_none offset (steps n x id))
elem-ring_loop (suc rounds) offset id n x small hid hx pos fit =
    let hi = offset + suc rounds in
    let shift : offset + 1 + rounds ≡ hi = omega arith in
    let rest =
      subst (λ h. elem x (ring_loop rounds (offset + 1) id n) ≡ near n (offset + 1) h id x) shift
        (elem-ring_loop rounds (offset + 1) id n x small hid hx (omega arith) (omega arith)) in
    rw (
      right_is n id offset x small hid hx pos (omega arith),
      left_is n id offset x small hid hx pos (omega arith),
      rest,
      within_first offset hi (steps n id x) (omega arith),
      within_first offset hi (steps n x id) (omega arith),
      or_shuffle (steps n id x == offset) (steps n x id == offset)
          (within (offset + 1) hi (steps n id x)) (within (offset + 1) hi (steps n x id)),
    )

length-ring_loop : (rounds offset id n : ℕ) → length (ring_loop rounds offset id n) ≡ 2 * rounds
unfolding ring_loop
length-ring_loop zero offset id n = refl
length-ring_loop (suc rounds) offset id n = omega (arith, length-ring_loop rounds (offset + 1) id n)

pub length-create_n_connected_ring :
    (id n : ℕ) → 3 ≤ n → n ≤ 256 → length (create_n_connected_ring id n) ≡ 2 * ((n + 3) / 4)
unfolding create_n_connected_ring neighbors_per_side
length-create_n_connected_ring id n three small =
    ground (arith, length-ring_loop (process_id ((n + 3) / 4)) 1 id n)

-- The number of steps from one process to the other on the shorter side of the ring.
abbrev pub ring_distance : ℕ → ℕ → ℕ → ℕ
ring_distance n a b = if leb (steps n a b) (steps n b a) then steps n a b else steps n b a

-- With 3 to 256 processes, a process is connected to exactly the others that are at most
-- `(n + 3) / 4` steps away on the ring.
pub elem-create_n_connected_ring :
    (id n x : ℕ)
    → 3 ≤ n
    → n ≤ 256
    → id < n
    → x < n
    → elem x (create_n_connected_ring id n)
      ≡ (not (x == id) && leb (ring_distance n id x) ((n + 3) / 4))
unfolding create_n_connected_ring neighbors_per_side
elem-create_n_connected_ring id n x three small hid hx =
    let k = process_id ((n + 3) / 4) in
    let loop = elem-ring_loop k 1 id n x small hid hx (omega arith) (omega arith) in
    ground (arith, loop)

-- No process occurs twice.
abbrev pub IsDistinct : List ℕ → Type 0
IsDistinct [] = Unit {0}
IsDistinct (x ∷ xs) = (elem x xs ≡ false) × IsDistinct xs

-- The two neighbours at one offset are distinct, and neither is within a larger offset.
module _ (n id offset hi : ℕ) (small : n ≤ 256) (hid : id < n) (pos : 0 < offset)
    (below : offset < hi) (half : hi + hi ≤ n + 1) where
  abbrev right_of : ℕ
  right_of = process_id ((id + offset) % n)

  abbrev left_of : ℕ
  left_of = process_id ((id + n - offset) % n)

  right_apart : near n (offset + 1) hi id right_of ≡ false
  right_apart = rw (wrap_once n (id + offset) (omega arith)) (ground arith)

  left_apart : near n (offset + 1) hi id left_of ≡ false
  left_apart = rw (wrap_once n (id + n - offset) (omega arith)) (ground arith)

  sides_apart : (right_of == left_of) ≡ false
  sides_apart =
      rw (wrap_once n (id + offset) (omega arith), wrap_once n (id + n - offset) (omega arith))
        (ground arith)

  right_in : right_of < n
  right_in = rw (wrap_once n (id + offset) (omega arith)) (ground arith)

  left_in : left_of < n
  left_in = rw (wrap_once n (id + n - offset) (omega arith)) (ground arith)

ring_loop-IsDistinct :
    (rounds offset id n : ℕ)
    → n ≤ 256
    → id < n
    → 0 < offset
    → offset + rounds + (offset + rounds) ≤ n + 1
    → IsDistinct (ring_loop rounds offset id n)
unfolding ring_loop
ring_loop-IsDistinct zero offset id n small hid pos half = tt
ring_loop-IsDistinct (suc rounds) offset id n small hid pos half =
    let hi = offset + 1 + rounds in
    let later = elem-ring_loop rounds (offset + 1) id n in
    let right = right_of n id offset hi small hid pos (omega arith) (omega arith) in
    let left = left_of n id offset hi small hid pos (omega arith) (omega arith) in
    let right_later =
      later right small hid (right_in n id offset hi small hid pos (omega arith) (omega arith))
        (omega arith) (omega arith)
      ∙ right_apart n id offset hi small hid pos (omega arith) (omega arith) in
    let left_later =
      later left small hid (left_in n id offset hi small hid pos (omega arith) (omega arith))
        (omega arith) (omega arith)
      ∙ left_apart n id offset hi small hid pos (omega arith) (omega arith) in
    let sides = sides_apart n id offset hi small hid pos (omega arith) (omega arith) in
    (
      rw (sides, right_later) refl,
      (
        left_later,
        ring_loop-IsDistinct rounds (offset + 1) id n small hid (omega arith) (omega arith),
      ),
    )

-- With 3 to 256 processes the connections are distinct, and with the process itself they are more
-- than half of all, as many as an acknowledgement by majority needs.
pub ring_majority :
    (id n : ℕ)
    → 3 ≤ n
    → n ≤ 256
    → id < n
    → IsDistinct (create_n_connected_ring id n)
      × (n / 2 < length (create_n_connected_ring id n) + 1)
unfolding create_n_connected_ring neighbors_per_side
ring_majority id n three small hid =
    let k = process_id ((n + 3) / 4) in
    let distinct = ring_loop-IsDistinct k 1 id n small hid (omega arith) (omega arith) in
    ground (arith, distinct, length-ring_loop k 1 id n)

ring_of_two :
    (a b n : ℕ)
    → n ≡ 2
    → a < n
    → b < n
    → elem b (create_n_connected_ring a n) ≡ elem a (create_n_connected_ring b n)
unfolding create_n_connected_ring
ring_of_two a b n e ha hb = ground arith

-- Connections go both ways, with any number of processes from 2 to 256.
pub ring_symmetric :
    (a b n : ℕ)
    → 2 ≤ n
    → n ≤ 256
    → a < n
    → b < n
    → elem b (create_n_connected_ring a n) ≡ elem a (create_n_connected_ring b n)
ring_symmetric a b n two small ha hb = elim (Bool-cases (n == 2)) [
  | inl e ↦ ring_of_two a b n (ground arith) ha hb
  | inr e ↦
      elem-create_n_connected_ring a n b (ground arith) small ha hb
      ∙ ground arith
      ∙ sym (elem-create_n_connected_ring b n a (ground arith) small hb ha)
]
