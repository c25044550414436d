-- ===== src/Broadcast/Uniform/Sets.antt =====
-- The file's `insert` and `contains` of code/src/src/uniform-reliable-broadcast.cpp, on one set for
-- each process.
use cs451_2020_project.Base.{
  ℕ, ◌<◌, ◌≡◌, refl, ap, ◌∙◌, inl, inr, Bool, true, false, ◌&&◌, ◌||◌, List, Option, none, some,
  arith, ◌==◌, Bool-cases, length, length-set, get_elem?, get_elem?-set, get_elem?-inside, set, All,
  All-set, All-get_elem?, ok, u64_mod,
}
use cs451_2020_project.Message.{Message}
use cs451_2020_project.RollingSet.{RollingBitset, insert, contains}
use cs451_2020_project.RollingSet.Refine.{IsValid, contains-insert, insert-IsValid}
use cs451_2020_project.Broadcast.Uniform.{insert_in, contains_in}

abbrev in_set : Option RollingBitset → ℕ → Bool
in_set none k = false
in_set (some s) k = contains s k

-- Is the number `k` in the set of process `o`?
abbrev pub has : List RollingBitset → ℕ → ℕ → Bool
has sets o k = in_set (get_elem? sets o) k

-- A valid set for each of `n` processes.
abbrev pub AreValid : ℕ → List RollingBitset → Type 0
AreValid n sets = (length sets ≡ n) × All IsValid sets

pub contains_in-has :
    (n : ℕ) (sets : List RollingBitset) (m : Message)
    → AreValid n sets
    → m.originator < n
    → contains_in sets m ≡ ok (has sets m.originator m.bcast_seq_num)
unfolding contains_in
contains_in-has n sets m v h =
    let (s, e) = get_elem?-inside sets m.originator (omega (arith, v.0)) in rw e refl

-- The same sets with one number more.
abbrev pub IsWith : Message → List RollingBitset → List RollingBitset → Type 0
IsWith m sets sets' =
    (o k : ℕ)
    → k < u64_mod
    → has sets' o k ≡ (((o == m.originator) && (k == m.bcast_seq_num)) || has sets o k)

pub insert_in_lem :
    (n : ℕ) (sets : List RollingBitset) (m : Message)
    → AreValid n sets
    → m.originator < n
    → m.bcast_seq_num < u64_mod
    → (sets' : List RollingBitset) × (insert_in sets m ≡ ok sets')
      × AreValid n sets'
      × IsWith m sets sets'
unfolding insert_in
insert_in_lem n sets m v h small =
    let (s, e) = get_elem?-inside sets m.originator (omega (arith, v.0)) in
    let s_valid : IsValid s = All-get_elem? IsValid sets m.originator s v.1 e in
    (
      set sets m.originator (insert s m.bcast_seq_num),
      rw e refl,
      (
        length-set sets m.originator _ ∙ v.0,
        All-set IsValid sets m.originator _ v.1 (insert-IsValid s m.bcast_seq_num small s_valid),
      ),
      λ o k hk.
          let at =
            get_elem?-set sets m.originator o (insert s m.bcast_seq_num) (omega (arith, v.0)) in
          let here = contains-insert s m.bcast_seq_num k small hk s_valid in
          elim (Bool-cases (m.originator == o)) [
            | inl same ↦
                let o_is : o ≡ m.originator = ground arith in
                let same' : (o == m.originator) ≡ true = ground arith in
                rw (at, same, same', ap (get_elem? sets) o_is, e) here
            | inr other ↦
                let other' : (o == m.originator) ≡ false = ground arith in
                rw (at, other, other') refl
          ],
    )
