-- ===== src/Broadcast/Causal/Loop.antt =====
-- One round of the loop of `deliver` in code/src/src/localized-causal-broadcast.cpp.
use cs451_2020_project.Base.{
  ℕ, zero, suc, ◌+◌, ◌%◌, ◌^◌, ◌≤◌, ◌<◌, ◌≡◌, ◌≢◌, refl, ap, ◌∙◌, subst, inl, inr, Bool, true,
  false, List, [], ◌∷◌, ◌++◌, some, arith, ltb, ◌==◌, Bool-cases, Option-cases, length, get_elem?,
  get_elem?-inside, get_elem?-lt, get_elem?-none, get_elem?-set, length-set, All-imp, All-imp₂,
  ltb→le, set, All, Run, ok, fault, out_of_fuel,
}
use cs451_2020_project.StaticVec.{StaticVec, index}
use cs451_2020_project.Message.{Message, max_processes}
use cs451_2020_project.Config.{Dependency}
use cs451_2020_project.PriorityQueue.{Increasing}
use cs451_2020_project.Broadcast.Causal.{
  Causal, clocks_reached, can_deliver, commit, Visit, finished, skipped, progressed, visit_queue,
  visit, weigh, weigh_all, seq_num,
}
use cs451_2020_project.Broadcast.Causal.Log.{count_from, Respects, IsCovered, IsPending, IsValid}

module _ (depends vector_clock current_clock : StaticVec ℕ) where
  -- What the loop of `can_deliver` has checked when it answers true.
  abbrev Reached : ℕ → ℕ → Type 0
  Reached i hi =
      (j t p c : ℕ)
      → i ≤ j
      → j < hi
      → index depends j ≡ some p
      → index vector_clock j ≡ some t
      → index current_clock p ≡ some c
      → t ≤ c

  -- It reads inside the arrays, and answers.
  clocks_reached-total :
      (rounds i hi : ℕ)
      → i + rounds ≡ hi
      → hi ≤ length depends.storage
      → hi ≤ length vector_clock.storage
      → ((j p : ℕ) → j < hi → index depends j ≡ some p → p < length current_clock.storage)
      → (b : Bool) × (clocks_reached rounds i depends vector_clock current_clock ≡ ok b)
        × (b ≡ true → Reached i hi)
  unfolding clocks_reached
  clocks_reached-total zero i hi e hd hv inside =
      (true, refl, λ _ j t p c a b. absurd (omega arith))
  clocks_reached-total (suc rounds) i hi e hd hv inside =
      let (p, ep) = get_elem?-inside depends.storage i (omega arith) in
      let (t, et) = get_elem?-inside vector_clock.storage i (omega arith) in
      let (c, ec) = get_elem?-inside current_clock.storage p (inside i p (omega arith) ep) in
      let (b, eb, reached) = clocks_reached-total rounds (i + 1) hi (omega arith) hd hv inside in
      rw (ep, et, ec)
        (elim (Bool-cases (ltb c t)) [
          | inl short ↦ (false, rw short refl, λ f. cc)
          | inr enough ↦ (
            b,
            rw enough eb,
            λ f j t' p' c' lo up ej et' ec'. elim (Bool-cases (i == j)) [
              | inl same ↦ ground arith
              | inr other ↦ reached f j t' p' c' (ground arith) up ej et' ec'
            ],
          )
        ])

module _ (s : Causal) (v : IsValid s) where
  open v use {few, counted, queued, causal}

  clock-length : (o : ℕ) → o < max_processes → o < length s.current_clock.storage
  clock-length o h = get_elem?-lt s.current_clock.storage o (count_from o s.log) (counted o h)

  -- On a message that is covered, `can_deliver` answers; and true only if the log is ready for it.
  can_deliver-total :
      (m : Message)
      → m.originator < max_processes
      → IsCovered s.deps m
      → (b : Bool) × (can_deliver s m ≡ ok b)
        × (b ≡ true → (m.bcast_seq_num ≤ count_from m.originator s.log) × Respects s.deps m s.log)
  unfolding can_deliver
  can_deliver-total m small cov =
      let (b, eb, reached) =
        clocks_reached-total cov.dep.depends m.vector_clock s.current_clock m.vector_clock.sz 0
          m.vector_clock.sz (omega arith) cov.depends_fit cov.clock_fits
          λ j p lt e. clock-length p (cov.processes j p lt e) in
      rw (counted m.originator small, cov.found)
        (elim (Bool-cases (ltb (count_from m.originator s.log) m.bcast_seq_num)) [
          | inl early ↦ (false, rw early refl, λ f. cc)
          | inr ripe ↦ (
            b,
            rw ripe eb,
            λ f. (
              ltb→le _ _ ripe,
              λ dep i t p found lt ep et.
                  let same : dep ≡ cov.dep = cc in
                  let ep' = subst (λ (d : Dependency). index d.depends i ≡ some p) same ep in
                  reached f i t p (count_from p s.log) (omega arith) lt ep' et
                    (counted p (cov.processes i p lt ep')),
            ),
          )
        ])

  -- A message on top of its heap goes up when the log is ready for it.
  module _ (it : ℕ) (m : Message) (rest : List Message)
      (here : get_elem? s.pending it ≡ some (m ∷ rest))
      (ripe : m.bcast_seq_num ≤ count_from m.originator s.log)
      (respects : Respects s.deps m s.log) where
    abbrev pend : IsPending s.deps s.log it m
    pend = (queued it (m ∷ rest) here).0.0

    exact : m.bcast_seq_num ≡ count_from it s.log
    exact = ground (arith, pend.from, pend.later)

    abbrev pub committed : Causal
    committed = record s {
      current_clock = record s.current_clock {
        storage =
            set s.current_clock.storage m.originator ((count_from m.originator s.log + 1) % 2 ^ 32);
      };
      log = m ∷ s.log;
      pending = set s.pending it rest;
    }

    originator-small : m.originator < max_processes
    originator-small = omega (arith, few, pend.from, get_elem?-lt s.pending it (m ∷ rest) here)

    commit-eq : commit s it m rest ≡ ok committed
    unfolding commit
    commit-eq = rw (counted m.originator originator-small)

    commit-counted :
        (o : ℕ)
        → o < max_processes
        → get_elem? committed.current_clock.storage o ≡ some (count_from o committed.log)
    unfolding count_from
    commit-counted o h = ground (
      arith,
      get_elem?-set s.current_clock.storage m.originator o
          ((count_from m.originator s.log + 1) % 2 ^ 32)
          (clock-length m.originator originator-small),
      counted o h,
      exact,
      pend.from,
      pend.small,
    )

    commit-rest : All (IsPending s.deps (m ∷ s.log) it) rest
    unfolding count_from
    commit-rest =
        let (all, inc) = queued it (m ∷ rest) here in
        All-imp₂ (IsPending s.deps s.log it) (λ y. seq_num m < seq_num y)
          (IsPending s.deps (m ∷ s.log) it) rest
          (λ y p lt. record {
            from = p.from;
            covered = p.covered;
            later = ground (arith, exact, pend.from);
            small = p.small;
          })
          all.1 inc.0

    commit-other :
        (o : ℕ) (q : List Message)
        → o ≢ it
        → All (IsPending s.deps s.log o) q
        → All (IsPending s.deps (m ∷ s.log) o) q
    unfolding count_from
    commit-other o q ne all =
        All-imp (IsPending s.deps s.log o) (IsPending s.deps (m ∷ s.log) o) q
          (λ y p. record {
            from = p.from;
            covered = p.covered;
            later = ground (arith, p.later, pend.from);
            small = p.small;
          })
          all

    commit-IsValid : IsValid committed
    commit-IsValid = record {
      few = omega (arith, few, length-set s.pending it rest);
      counted = commit-counted;
      queued = λ o q e.
          let at = get_elem?-set s.pending it o rest (get_elem?-lt s.pending it (m ∷ rest) here) in
          elim (Bool-cases (it == o)) [
            | inl same ↦
                let (all, inc) = queued it (m ∷ rest) here in
                let rest_is : rest ≡ q = ground (arith, at) in
                let it_is : it ≡ o = ground arith in
                subst (λ r. All (IsPending s.deps (m ∷ s.log) o) r × Increasing seq_num r) rest_is
                  (subst (λ k. All (IsPending s.deps (m ∷ s.log) k) rest) it_is commit-rest, inc.1)
            | inr other ↦
                let old : get_elem? s.pending o ≡ some q = ground (arith, at) in
                let (all, inc) = queued o q old in (commit-other o q (ground arith) all, inc)
          ];
      causal = (ground (arith, exact, pend.from), respects, causal);
    }

pub weigh_all-set :
    (w : Message → ℕ) (qs : List (List Message)) (i : ℕ) (q r : List Message)
    → get_elem? qs i ≡ some q
    → weigh_all w (set qs i r) + weigh w q ≡ weigh_all w qs + weigh w r
unfolding weigh_all
weigh_all-set w [] i q r e = cc
weigh_all-set w (p ∷ qs) zero q r e =
    let same : p ≡ q = cc in
    subst (λ x. weigh_all w (r ∷ qs) + weigh w x ≡ weigh_all w (p ∷ qs) + weigh w r) same
      (omega arith)
weigh_all-set w (p ∷ qs) (suc i) q r e = omega (arith, weigh_all-set w qs i q r e)

-- The top of heap `j`, if there is one, cannot go up.
abbrev pub Blocked : Causal → ℕ → Type 0
Blocked s j =
    (top : Message) (rest : List Message)
    → get_elem? s.pending j ≡ some (top ∷ rest)
    → can_deliver s top ≡ ok false

-- The messages that one state adds to the log of another come from its heaps.
pub record Extends (s s' : Causal) : Type 0 where
  pub valid : IsValid s'
  pub id_kept : s'.id ≡ s.id
  pub deps_kept : s'.deps ≡ s.deps
  pub hosts_kept : length s'.pending ≡ length s.pending
  pub added : List Message
  pub log_is : s'.log ≡ added ++ s.log
  pub moved : (w : Message → ℕ) → weigh_all w s'.pending + weigh w added ≡ weigh_all w s.pending

abbrev pub AfterVisit : Causal → ℕ → Run Visit → Type 0
AfterVisit s it (ok finished) = length s.pending ≤ it
AfterVisit s it (ok skipped) = (it < length s.pending) × Blocked s it
AfterVisit s it (ok (progressed s')) =
    Extends s s' × (weigh_all (λ _. 1) s'.pending + 1 ≡ weigh_all (λ _. 1) s.pending)
AfterVisit s it fault = ⊥
AfterVisit s it out_of_fuel = ⊥

module _ (s : Causal) (v : IsValid s) (it : ℕ) where
  visit_queue-AfterVisit :
      (q : List Message) → get_elem? s.pending it ≡ some q → AfterVisit s it (visit_queue s it q)
  unfolding visit_queue weigh
  visit_queue-AfterVisit [] e = (get_elem?-lt s.pending it [] e, λ top rest e'. cc)
  visit_queue-AfterVisit (m ∷ rest) e =
      let p = (v.queued it (m ∷ rest) e).0.0 in
      let inside = get_elem?-lt s.pending it (m ∷ rest) e in
      let (b, eb, ready) =
        can_deliver-total s v m (omega (arith, p.from, v.few, inside)) p.covered in
      elim (Bool-cases b) [
        | inl up ↦
            rw (eb, up, commit-eq s v it m rest e (ready up).0 (ready up).1)
              (
                record {
                  valid = commit-IsValid s v it m rest e (ready up).0 (ready up).1;
                  id_kept = refl;
                  deps_kept = refl;
                  hosts_kept = length-set s.pending it rest;
                  added = m ∷ [];
                  log_is = refl;
                  moved = λ w. omega (arith, weigh_all-set w s.pending it (m ∷ rest) rest e);
                },
                omega (arith, weigh_all-set (λ _. 1) s.pending it (m ∷ rest) rest e),
              )
        | inr wait ↦
            rw (eb, wait)
              (
                inside,
                λ top rest' e'.
                    let same : m ≡ top = cc in
                    subst (λ x. can_deliver s x ≡ ok false) same (eb ∙ ap ok wait),
              )
      ]

  pub visit-AfterVisit : AfterVisit s it (visit s it)
  unfolding visit
  visit-AfterVisit = elim (Option-cases (get_elem? s.pending it)) [
    | inl e ↦ rw (e, visit) (get_elem?-none s.pending it e)
    | inr (q, e) ↦ rw (e, visit) (visit_queue-AfterVisit q e)
  ]
