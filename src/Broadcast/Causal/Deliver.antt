-- ===== src/Broadcast/Causal/Deliver.antt =====
-- The whole of `deliver` in code/src/src/localized-causal-broadcast.cpp.
use cs451_2020_project.Base.{
  ℕ, zero, suc, ◌+◌, ◌*◌, ◌-◌, ◌^◌, ◌≤◌, ◌<◌, ◌≡◌, refl, ap, sym, subst, ◌∙◌, inl, inr, List, [],
  ◌∷◌, ◌++◌, some, arith, ◌==◌, Bool-cases, length, get_elem?, get_elem?-inside, get_elem?-set,
  length-set, subst₂, set, All, Run, ok, fault, out_of_fuel,
}
use mathlib.Core.List.{append_assoc}
use cs451_2020_project.Message.{Message}
use cs451_2020_project.PriorityQueue.{Increasing, Fresh, All-push, push-Increasing}
use cs451_2020_project.PriorityQueue
use cs451_2020_project.Broadcast.Causal.{
  Causal, Visit, finished, skipped, progressed, visit, scan, rounds_for, enqueue, deliver, weigh,
  weigh_all, seq_num,
}
use cs451_2020_project.Broadcast.Causal.Log.{IsCausal, count_from, IsCovered, IsPending, IsValid}
use cs451_2020_project.Broadcast.Causal.Loop.{
  weigh_all-set, Blocked, Extends, AfterVisit, visit-AfterVisit,
}

Extends-refl : (s : Causal) → IsValid s → Extends s s
unfolding weigh
Extends-refl s v = record {
  valid = v;
  id_kept = refl;
  deps_kept = refl;
  hosts_kept = refl;
  added = [];
  log_is = refl;
  moved = λ w. omega arith;
}

pub weigh-append :
    (w : Message → ℕ) (xs ys : List Message) → weigh w (xs ++ ys) ≡ weigh w xs + weigh w ys
unfolding weigh
weigh-append w [] ys = omega arith
weigh-append w (x ∷ xs) ys = omega (arith, weigh-append w xs ys)

Extends-trans : {s t u : Causal} → Extends s t → Extends t u → Extends s u
Extends-trans {s} {t} {u} a b = record {
  valid = b.valid;
  id_kept = b.id_kept ∙ a.id_kept;
  deps_kept = b.deps_kept ∙ a.deps_kept;
  hosts_kept = b.hosts_kept ∙ a.hosts_kept;
  added = b.added ++ a.added;
  log_is = b.log_is ∙ ap (λ l. b.added ++ l) a.log_is ∙ sym (append_assoc b.added a.added s.log);
  moved = λ w. omega (arith, a.moved w, b.moved w, weigh-append w b.added a.added);
}

-- A state in which the loop has ended: nothing more can go up.
pub record Settled (s s' : Causal) : Type 0 where
  pub extends : Extends s s'
  pub blocked : (j : ℕ) → j < length s'.pending → Blocked s' j

abbrev measure : ℕ → Causal → ℕ
measure it s = weigh_all (λ _. 1) s.pending * (length s.pending + 1) + (length s.pending - it)

-- With enough rounds the loop ends, if all heaps below the iterator are blocked.
abbrev Ends : ℕ → Type 0
Ends fuel =
    (it : ℕ) (s : Causal)
    → IsValid s
    → measure it s < fuel
    → it ≤ length s.pending
    → ((j : ℕ) → j < it → Blocked s j)
    → (s' : Causal) × (scan fuel it s ≡ ok s') × Settled s s'

-- Starting again costs less than the message that has gone up.
measure_falls :
    (it : ℕ) (s t : Causal)
    → length t.pending ≡ length s.pending
    → weigh_all (λ _. 1) t.pending + 1 ≡ weigh_all (λ _. 1) s.pending
    → measure 0 t < measure it s
measure_falls it s t same fewer = let n = length s.pending in rw (same, ← fewer) (omega arith)

module _ (fuel it : ℕ) (s : Causal) (again : Ends fuel) (v : IsValid s)
    (enough : measure it s < suc fuel) (low : (j : ℕ) → j < it → Blocked s j) where
  scan-next :
      (r : Run Visit)
      → visit s it ≡ r
      → AfterVisit s it r
      → (s' : Causal) × (scan (suc fuel) it s ≡ ok s') × Settled s s'
  unfolding scan
  scan-next fault e a = absurd a
  scan-next out_of_fuel e a = absurd a
  scan-next (ok finished) e a = (
    s,
    rw (e, scan) refl,
    record { extends = Extends-refl s v; blocked = λ j h. low j (omega arith) },
  )
  scan-next (ok skipped) e a =
      let (s', run, settled) = again (it + 1) s v (omega arith) (omega arith) λ j h.
        elim (Bool-cases (j == it)) [
          | inl last ↦ let same : it ≡ j = ground arith in subst (Blocked s) same a.1
          | inr old ↦ low j (ground arith)
        ] in
      (s', rw (e, scan) run, settled)
  scan-next (ok (progressed t)) e a =
      let (s', run, settled) =
        again 0 t a.0.valid (omega (arith, measure_falls it s t a.0.hosts_kept a.1)) (omega arith)
          λ j h. absurd (omega arith) in
      (
        s',
        rw (e, scan) run,
        record { extends = Extends-trans a.0 settled.extends; blocked = settled.blocked },
      )

scan-Settled : (fuel : ℕ) → Ends fuel
scan-Settled zero it s v enough inside low = absurd (omega arith)
scan-Settled (suc fuel) it s v enough inside low =
    scan-next fuel it s (scan-Settled fuel) v enough low (visit s it) refl (visit-AfterVisit s v it)

-- A message that the layer has not had before, in the shape in which it is sent.
pub record IsNew (s : Causal) (m : Message) : Type 0 where
  pub host : m.originator < length s.pending
  pub covered : IsCovered s.deps m
  pub later : count_from m.originator s.log ≤ m.bcast_seq_num
  pub small : m.bcast_seq_num + 1 < 2 ^ 32
  pub fresh :
      (q : List Message)
      → get_elem? s.pending m.originator ≡ some q
      → Fresh seq_num m.bcast_seq_num q

-- What holds after a message has come.
pub record Delivered (s : Causal) (m : Message) (s' : Causal) : Type 0 where
  pub valid : IsValid s'
  pub id_kept : s'.id ≡ s.id
  pub deps_kept : s'.deps ≡ s.deps
  pub hosts_kept : length s'.pending ≡ length s.pending
  pub causal : IsCausal s'.deps s'.log
  pub blocked : (j : ℕ) → j < length s'.pending → Blocked s' j
  pub added : List Message
  pub log_is : s'.log ≡ added ++ s.log
  pub moved :
      (w : Message → ℕ) → weigh_all w s'.pending + weigh w added ≡ weigh_all w s.pending + w m

module _ (s : Causal) (m : Message) (v : IsValid s) (new : IsNew s m) where
  abbrev queued_up : List Message → Causal
  queued_up q = record s { pending = set s.pending m.originator (PriorityQueue.push seq_num m q) }

  pushed-IsPending :
      (q : List Message)
      → get_elem? s.pending m.originator ≡ some q
      → All (IsPending s.deps s.log m.originator) (PriorityQueue.push seq_num m q)
        × Increasing seq_num (PriorityQueue.push seq_num m q)
  pushed-IsPending q e =
      let (all, inc) = v.queued m.originator q e in
      let this : IsPending s.deps s.log m.originator m = record {
        from = refl;
        covered = new.covered;
        later = new.later;
        small = new.small;
      } in
      (
        All-push seq_num (IsPending s.deps s.log m.originator) m q this all,
        push-Increasing seq_num m q (new.fresh q e) inc,
      )

  enqueue-IsValid :
      (q : List Message) → get_elem? s.pending m.originator ≡ some q → IsValid (queued_up q)
  enqueue-IsValid q e = record {
    few = omega (arith, length-set s.pending m.originator (PriorityQueue.push seq_num m q), v.few);
    counted = v.counted;
    queued = λ o r e'.
        let at = get_elem?-set s.pending m.originator o (PriorityQueue.push seq_num m q) new.host in
        elim (Bool-cases (m.originator == o)) [
          | inl same ↦
              let r_is : PriorityQueue.push seq_num m q ≡ r = ground (arith, at) in
              let o_is : m.originator ≡ o = ground arith in
              subst₂ (λ k x. All (IsPending s.deps s.log k) x × Increasing seq_num x) o_is r_is
                (pushed-IsPending q e)
          | inr other ↦ v.queued o r (ground (arith, at))
        ];
    causal = v.causal;
  }

  weigh-push :
      (w : Message → ℕ) (q : List Message)
      → weigh w (PriorityQueue.push seq_num m q) ≡ w m + weigh w q
  unfolding weigh PriorityQueue.push
  weigh-push w [] = refl
  weigh-push w (x ∷ xs) = ground (arith, weigh-push w xs)

  -- In a valid state `deliver` of a new message ends without a fault, in a valid state. It adds the
  -- message to its heap and hands up messages of the heaps, none lost or doubled; the log stays
  -- causal, with each originator's messages in the order of their numbers, and at the end no heap has
  -- a message on top that can go up.
  pub deliver_lem : (s' : Causal) × (deliver s m ≡ ok s') × Delivered s m s'
  unfolding deliver enqueue
  deliver_lem =
      let (q, e) = get_elem?-inside s.pending m.originator new.host in
      let (s', run, settled) =
        scan-Settled (rounds_for (queued_up q)) 0 (queued_up q) (enqueue-IsValid q e) (omega arith)
          (omega arith) λ j h. absurd (omega arith) in
      (
        s',
        rw (e, scan) run,
        record {
          valid = settled.extends.valid;
          id_kept = settled.extends.id_kept;
          deps_kept = settled.extends.deps_kept;
          hosts_kept =
              settled.extends.hosts_kept
              ∙ length-set s.pending m.originator (PriorityQueue.push seq_num m q);
          causal = settled.extends.valid.causal;
          blocked = settled.blocked;
          added = settled.extends.added;
          log_is = settled.extends.log_is;
          moved = λ w. omega (
            arith,
            settled.extends.moved w,
            weigh_all-set w s.pending m.originator q (PriorityQueue.push seq_num m q) e,
            weigh-push w q,
          );
        },
      )
