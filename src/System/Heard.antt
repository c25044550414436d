-- ===== src/System/Heard.antt =====
-- Which messages are copies of what has been broadcast.
use cs451_2020_project.Base.{
  ℕ, suc, ◌≡◌, refl, sym, ap, ◌∙◌, inl, inr, Bool, true, false, ◌&&◌, ◌||◌, List, [], ◌∷◌, some,
  arith, ◌==◌, Bool-cases, get_elem?,
}
use cs451_2020_project.StaticVec.{StaticVec, to_list}
use cs451_2020_project.Message.{Message}
use cs451_2020_project.Broadcast.Uniform.Ack.{SameBroadcast}
use cs451_2020_project.System.{Said}

abbrev pub same_list : List ℕ → List ℕ → Bool
same_list [] [] = true
same_list (x ∷ xs) (y ∷ ys) = x == y && same_list xs ys
same_list _ _ = false

-- The same broadcast, with the same clocks.
abbrev pub is_copy : Message → Message → Bool
is_copy a m =
    (a.bcast_seq_num == m.bcast_seq_num)
    && ((a.originator == m.originator)
        && ((a.vector_clock.sz == m.vector_clock.sz)
            && same_list (to_list a.vector_clock) (to_list m.vector_clock)))

unfoldable pub heard : List Said → Message → Bool
heard [] m = false
heard (x ∷ xs) m = is_copy x.message m || heard xs m

pub record IsCopy (a m : Message) : Type 0 where
  pub same : SameBroadcast a m
  pub size : a.vector_clock.sz ≡ m.vector_clock.sz
  pub clocks : to_list a.vector_clock ≡ to_list m.vector_clock

same_list-eq : (xs ys : List ℕ) → same_list xs ys ≡ true → xs ≡ ys
same_list-eq [] [] h = refl
same_list-eq [] (y ∷ ys) h = absurd (ground arith)
same_list-eq (x ∷ xs) [] h = absurd (ground arith)
same_list-eq (x ∷ xs) (y ∷ ys) h =
    let first : x ≡ y = ground arith in
    let rest : same_list xs ys ≡ true = ground arith in
    let tail = same_list-eq xs ys rest in cc (first, tail)

same_list_refl : (xs : List ℕ) → same_list xs xs ≡ true
same_list_refl [] = refl
same_list_refl (x ∷ xs) = ground (arith, same_list_refl xs)

fourfold :
    (a b c d : Bool)
    → (a && (b && (c && d))) ≡ true
    → (a ≡ true) × (b ≡ true) × (c ≡ true) × (d ≡ true)
fourfold a b c d h = ground arith

or_left : (a b : Bool) → a ≡ true → (a || b) ≡ true
or_left a b e = ground arith

or_right : (a b : Bool) → b ≡ true → (a || b) ≡ true
or_right a b e = ground arith

or_other : (a b : Bool) → a ≡ false → (a || b) ≡ true → b ≡ true
or_other a b e h = ground arith

is_copy-IsCopy : (a m : Message) → is_copy a m ≡ true → IsCopy a m
is_copy-IsCopy a m h =
    let (k, o, s, l) =
      fourfold (a.bcast_seq_num == m.bcast_seq_num) (a.originator == m.originator)
        (a.vector_clock.sz == m.vector_clock.sz)
        (same_list (to_list a.vector_clock) (to_list m.vector_clock)) h in
    record {
      same = (ground (arith, k), ground (arith, o));
      size = ground (arith, s);
      clocks = same_list-eq (to_list a.vector_clock) (to_list m.vector_clock) l;
    }

IsCopy-is_copy : (a m : Message) → IsCopy a m → is_copy a m ≡ true
IsCopy-is_copy a m c =
    let first : (a.bcast_seq_num == m.bcast_seq_num) ≡ true = ground (arith, c.same.0) in
    let second : (a.originator == m.originator) ≡ true = ground (arith, c.same.1) in
    let third : (a.vector_clock.sz == m.vector_clock.sz) ≡ true = ground (arith, c.size) in
    let last : same_list (to_list a.vector_clock) (to_list m.vector_clock) ≡ true =
      ap (same_list (to_list a.vector_clock)) (sym c.clocks)
      ∙ same_list_refl (to_list a.vector_clock) in
    rw (first, second, third, last) refl

-- A message that has been heard of is a copy of one in the history.
pub heard-IsCopy :
    (history : List Said) (m : Message)
    → heard history m ≡ true
    → (at : ℕ) × (x : Said) × (get_elem? history at ≡ some x) × IsCopy x.message m
unfolding heard
heard-IsCopy [] m h = absurd (ground arith)
heard-IsCopy (x ∷ xs) m h = elim (Bool-cases (is_copy x.message m)) [
  | inl copy ↦ (0, x, refl, is_copy-IsCopy x.message m copy)
  | inr other ↦
      let (at, y, found, copy) =
        heard-IsCopy xs m (or_other (is_copy x.message m) (heard xs m) other h) in
      (suc at, y, found, copy)
]

pub heard-same :
    (history : List Said) (m m' : Message)
    → SameBroadcast m' m
    → m'.vector_clock ≡ m.vector_clock
    → heard history m ≡ true
    → heard history m' ≡ true
unfolding heard
heard-same [] m m' same clock h = h
heard-same (x ∷ xs) m m' same clock h = elim (Bool-cases (is_copy x.message m)) [
  | inl copy ↦
      let c = is_copy-IsCopy x.message m copy in
      or_left (is_copy x.message m') (heard xs m') (
        IsCopy-is_copy x.message m' (record {
          same = (c.same.0 ∙ sym same.0, c.same.1 ∙ sym same.1);
          size = c.size ∙ ap (λ (v : StaticVec ℕ). v.sz) (sym clock);
          clocks = c.clocks ∙ ap (λ (v : StaticVec ℕ). to_list v) (sym clock);
        }))
  | inr other ↦
      or_right (is_copy x.message m') (heard xs m')
        (heard-same xs m m' same clock (or_other (is_copy x.message m) (heard xs m) other h))
]

-- What has been heard of stays so, and the last message is.
pub heard-later :
    (x : Said) (history : List Said) (m : Message)
    → heard history m ≡ true
    → heard (x ∷ history) m ≡ true
unfolding heard
heard-later x history m h = or_right (is_copy x.message m) (heard history m) h

pub heard-last : (x : Said) (history : List Said) → heard (x ∷ history) x.message ≡ true
unfolding heard
heard-last x history = or_left (is_copy x.message x.message) (heard history x.message) (
    IsCopy-is_copy x.message x.message (record { same = (refl, refl); size = refl; clocks = refl }))
