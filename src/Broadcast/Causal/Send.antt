-- ===== src/Broadcast/Causal/Send.antt =====
-- The clocks that `send` of code/src/src/localized-causal-broadcast.cpp puts into a message, and what
-- they mean where the message is handed up.
pub mod Tests
use mathlib.Core.List.{append_assoc, append-nil}
use cs451_2020_project.Base.{
  ok-injective, ℕ, zero, suc, ◌+◌, ◌≤◌, ◌<◌, ◌≡◌, refl, sym, ap, subst, ◌∙◌, List, [], ◌∷◌, ◌++◌,
  some, arith, ltb, lt→ltb, length, length-set, length-take_le, get_elem?, get_elem?-lt, take,
  take-set, set, replicate, length-replicate, All, Run, ok, ◌>>=◌,
}
use cs451_2020_project.StaticVec.{StaticVec, index, to_list, new, push_back}
use cs451_2020_project.Message.{Message, max_processes}
use cs451_2020_project.Config.{Dependency}
use cs451_2020_project.Broadcast.Causal.{Causal, clocks_of, send}
use cs451_2020_project.Broadcast.Causal.Log.{count_from, Respects, IsCausal, IsValid}

-- How many messages of each process are in a log.
pub counts : List Message → List ℕ → List ℕ
counts log [] = []
counts log (p ∷ ps) = count_from p log ∷ counts log ps

length-counts : (log : List Message) (ps : List ℕ) → length (counts log ps) ≡ length ps
unfolding counts
length-counts log [] = refl
length-counts log (p ∷ ps) = ap suc (length-counts log ps)

get_elem?-counts :
    (log : List Message) (ps : List ℕ) (i p : ℕ)
    → get_elem? ps i ≡ some p
    → get_elem? (counts log ps) i ≡ some (count_from p log)
unfolding counts
get_elem?-counts log [] i p e = ground arith
get_elem?-counts log (x ∷ xs) zero p e =
    let same : x ≡ p = ground arith in ap (λ z. some (count_from z log)) same
get_elem?-counts log (x ∷ xs) (suc i) p e = get_elem?-counts log xs i p e

pub get_elem?-take {ℓ} :
    {A : Type ℓ} (n i : ℕ) (xs : List A) → i < n → get_elem? (take n xs) i ≡ get_elem? xs i
get_elem?-take zero i xs h = absurd (omega arith)
get_elem?-take (suc n) i [] h = refl
get_elem?-take (suc n) zero (x ∷ xs) h = refl
get_elem?-take (suc n) (suc i) (x ∷ xs) h = get_elem?-take n i xs (omega arith)

pub length-take-le {ℓ} : {A : Type ℓ} (n : ℕ) (xs : List A) → length (take n xs) ≤ n
length-take-le zero xs = omega arith
length-take-le (suc n) [] = omega arith
length-take-le (suc n) (x ∷ xs) = omega (arith, length-take-le n xs)

module _ (s : Causal) (valid : IsValid s) where
  clocks_of_lem :
      (ps : List ℕ) (v : StaticVec ℕ)
      → All (λ p. p < max_processes) ps
      → v.sz + length ps ≤ length v.storage
      → (w : StaticVec ℕ) × (clocks_of s.current_clock ps v ≡ ok w)
        × (to_list w ≡ to_list v ++ counts s.log ps)
        × (w.sz ≡ v.sz + length ps)
        × (length w.storage ≡ length v.storage)
  unfolding clocks_of push_back counts
  clocks_of_lem [] v h room = (v, refl, sym (append-nil (to_list v)), omega arith, refl)
  clocks_of_lem (p ∷ ps) v h room =
      let item = count_from p s.log in
      let next : StaticVec ℕ = record { storage = set v.storage v.sz item; sz = v.sz + 1 } in
      let (w, run, same, size, len) =
        clocks_of_lem ps next h.1 (omega (arith, length-set v.storage v.sz item)) in
      let longer : v.sz + 1 ≡ suc v.sz = omega arith in
      let pushed : to_list next ≡ to_list v ++ item ∷ [] =
        ap (λ n. take n (set v.storage v.sz item)) longer
        ∙ take-set v.sz v.storage item (omega arith) in
      (
        w,
        rw (valid.counted p h.0, lt→ltb v.sz (length v.storage) (omega arith)) run,
        same
            ∙ ap (λ l. l ++ counts s.log ps) pushed
            ∙ append_assoc (to_list v) (item ∷ []) (counts s.log ps),
        omega (arith, size),
        len ∙ length-set v.storage v.sz item,
      )

  module _ (dep : Dependency) (mine : get_elem? s.deps s.id ≡ some dep)
      (known : All (λ p. p < max_processes) (to_list dep.depends))
      (room : length (to_list dep.depends) ≤ max_processes) where
    -- In a valid state, with an entry of at most 128 known processes for the process itself, `send`
    -- does not fault, and the vector clock of the message has, for each process of the entry, the
    -- number of its messages that have been handed up.
    pub send_lem :
        (m : Message) × (send s ≡ ok m)
        × (to_list m.vector_clock ≡ counts s.log (to_list dep.depends))
        × (m.vector_clock.sz ≡ length (to_list dep.depends))
        × (length m.vector_clock.storage ≡ max_processes)
    unfolding send new
    send_lem =
        let (w, run, same, size, len) =
          clocks_of_lem (to_list dep.depends) (new max_processes 0 0) known
            (omega (arith, length-replicate {A = ℕ} max_processes 0)) in
        (
          record {
            link_seq_num = 0;
            bcast_seq_num = 0;
            originator = 0;
            sender = 0;
            vector_clock = w;
          },
          rw (mine, run) refl,
          same,
          omega (arith, size),
          len ∙ length-replicate {A = ℕ} max_processes 0,
        )

-- A log that is in causal order is so up to each of its messages.
pub IsCausal-suffix :
    (deps : List Dependency) (later : List Message) (m : Message) (earlier : List Message)
    → IsCausal deps (later ++ m ∷ earlier)
    → IsCausal deps (m ∷ earlier)
IsCausal-suffix deps [] m earlier c = c
IsCausal-suffix deps (x ∷ xs) m earlier c = IsCausal-suffix deps xs m earlier c.2

-- A message whose clocks are the counts of `past` comes after as many messages of each process.
pub Respects-counts :
    (deps : List Dependency) (dep : Dependency) (m : Message) (past earlier : List Message)
    (i p : ℕ)
    → Respects deps m earlier
    → get_elem? deps m.originator ≡ some dep
    → to_list m.vector_clock ≡ counts past (to_list dep.depends)
    → m.vector_clock.sz ≡ length (to_list dep.depends)
    → get_elem? (to_list dep.depends) i ≡ some p
    → count_from p past ≤ count_from p earlier
Respects-counts deps dep m past earlier i p respects mine clocks size at =
    let inside : i < length (to_list dep.depends) = get_elem?-lt (to_list dep.depends) i p at in
    let in_clock : get_elem? (to_list m.vector_clock) i ≡ some (count_from p past) =
      ap (λ l. get_elem? l i) clocks ∙ get_elem?-counts past (to_list dep.depends) i p at in
    let below : i < dep.depends.sz =
      omega (arith, inside, length-take-le dep.depends.sz dep.depends.storage) in
    let below' : i < m.vector_clock.sz = omega (arith, inside, size) in
    respects dep i (count_from p past) p mine below'
      (sym (get_elem?-take dep.depends.sz i dep.depends.storage below) ∙ at)
      (sym (get_elem?-take m.vector_clock.sz i m.vector_clock.storage below') ∙ in_clock)
