-- ===== src/Broadcast/Uniform/Meeting.antt =====
-- Why code/src/src/uniform-reliable-broadcast.cpp asks for more than half of the processes.
use cs451_2020_project.Base.{
  ℕ, zero, suc, ◌+◌, ◌/◌, ◌≤◌, ◌<◌, ◌≡◌, inl, inr, Bool, true, ◌&&◌, arith, ltb, Bool-cases,
}
use cs451_2020_project.Message.{Message, max_processes}
use cs451_2020_project.RollingSet.Chunks.{card}
use cs451_2020_project.Broadcast.Uniform.{Uniform, has_quorum}
use cs451_2020_project.Broadcast.Uniform.Ack.{ack_bits, count}

card-both : (n : ℕ) (f g : ℕ → Bool) → card n f + card n g ≤ n + card n (λ p. f p && g p)
unfolding card
card-both zero f g = omega arith
card-both (suc n) f g = ground (arith, card-both n f g)

card-short :
    (n big : ℕ) (f : ℕ → Bool) → n ≤ big → ((p : ℕ) → f p ≡ true → p < n) → card big f ≤ card n f
unfolding card
card-short zero zero f le inside = omega arith
card-short (suc n) zero f le inside = absurd (omega arith)
card-short n (suc big) f le inside = elim (Bool-cases (ltb big n)) [
  | inl last ↦ let same : n ≡ suc big = ground arith in rw same (omega arith)
  | inr more ↦ ground (arith, card-short n big f (ground arith) inside, inside big)
]

card-some : (n : ℕ) (f : ℕ → Bool) → 0 < card n f → (p : ℕ) × (p < n) × (f p ≡ true)
unfolding card
card-some zero f h = absurd (omega arith)
card-some (suc n) f h = elim (Bool-cases (f n)) [
  | inl here ↦ (n, omega arith, here)
  | inr not_here ↦ let (p, low, e) = card-some n f (ground arith) in (p, omega arith, e)
]

quorum-many : (k n c : ℕ) → k ≡ n → ltb (k / 2) c ≡ true → n / 2 < c
quorum-many k n c e q = ground arith

parts : (a b : Bool) → (a && b) ≡ true → (a ≡ true) × (b ≡ true)
parts a b e = ground arith

-- Two majorities of the same `n` have a member in common.
majorities_meet : (n cf cg both : ℕ) → cf + cg ≤ n + both → n / 2 < cf → n / 2 < cg → 0 < both
majorities_meet n cf cg both h more more' = omega arith

-- Only the first `n` processes have been counted.
abbrev pub IsAmong : ℕ → (ℕ → Bool) → Type 0
IsAmong n bits = (p : ℕ) → bits p ≡ true → p < n

-- Two processes among the same `n`, up to 128, that both have a quorum, for the same message or for two, have
-- counted a process in common.
pub quorums_meet :
    (u v : Uniform) (m m' : Message) (n : ℕ)
    → u.num_processes ≡ n
    → v.num_processes ≡ n
    → n ≤ max_processes
    → IsAmong n (ack_bits u.ack m)
    → IsAmong n (ack_bits v.ack m')
    → has_quorum u m ≡ true
    → has_quorum v m' ≡ true
    → (p : ℕ) × (p < n) × (ack_bits u.ack m p ≡ true) × (ack_bits v.ack m' p ≡ true)
unfolding has_quorum count
quorums_meet u v m m' n nu nv few inside inside' q q' =
    let f = ack_bits u.ack m in
    let g = ack_bits v.ack m' in
    let first = card-short n max_processes f few inside in
    let second = card-short n max_processes g few inside' in
    let many = quorum-many u.num_processes n (card max_processes f) nu q in
    let many' = quorum-many v.num_processes n (card max_processes g) nv q' in
    let both : 0 < card n (λ i. f i && g i) =
      majorities_meet n (card n f) (card n g) (card n (λ i. f i && g i)) (card-both n f g)
        (lt-le_trans many first) (lt-le_trans many' second) in
    let (p, low, e) = card-some n (λ i. f i && g i) both in
    let (left, right) = parts (f p) (g p) e in (p, low, left, right)
  where
    lt-le_trans : {a b c : ℕ} → a < b → b ≤ c → a < c
    lt-le_trans h k = omega arith
