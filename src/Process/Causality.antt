-- ===== src/Process/Causality.antt =====
-- The top layer as an observer of the uniform reliable broadcast: the messages of
-- code/src/src/localized-causal-broadcast.cpp are among those that have gone up below.
use mathlib.Core.List.{append_assoc}
use cs451_2020_project.Base.{
  ℕ, zero, suc, ◌+◌, ◌^◌, ◌≤◌, ◌<◌, ◌≡◌, refl, sym, ap, subst, subst₂, ◌∙◌, inl, inr, Bool, true,
  false, ◌&&◌, List, [], ◌∷◌, ◌++◌, some, arith, ltb, lt→ltb, ◌==◌, if◌then◌else◌, Bool-cases,
  length, get_elem?, All, ok, u64_mod,
}
use cs451_2020_project.Message.{Message, max_processes}
use cs451_2020_project.Config.{Dependency}
use cs451_2020_project.RollingSet.{RollingBitset}
use cs451_2020_project.PriorityQueue.{Fresh}
use cs451_2020_project.Broadcast.Causal.{Causal, weigh, weigh_all, seq_num}
use cs451_2020_project.Broadcast.Causal
use cs451_2020_project.Broadcast.Causal.Log.{count_from, IsCausal, IsCovered, IsPending, IsValid}
use cs451_2020_project.Broadcast.Causal.Deliver.{IsNew, deliver_lem, weigh-append}
use cs451_2020_project.Broadcast.Uniform.Ack.{SameBroadcast}
use cs451_2020_project.Broadcast.Uniform.Sets.{has, IsWith}

-- A message as processes with the configuration `deps` send it.
pub record IsSendable (n : ℕ) (deps : List Dependency) (m : Message) : Type 0 where
  pub host : m.originator < n
  pub small : m.bcast_seq_num + 1 < 2 ^ 32
  pub covered : IsCovered deps m

pub IsSendable-same :
    (n : ℕ) (deps : List Dependency) (m m' : Message)
    → SameBroadcast m' m
    → m'.vector_clock ≡ m.vector_clock
    → IsSendable n deps m
    → IsSendable n deps m'
IsSendable-same n deps m m' same clock s =
    let c = s.covered in
    record {
      host = omega (arith, same.1, s.host);
      small = omega (arith, same.0, s.small);
      covered = record {
        dep = c.dep;
        found = ap (get_elem? deps) same.1 ∙ c.found;
        clock_fits = subst (λ v. v.sz ≤ length v.storage) (sym clock) c.clock_fits;
        depends_fit = subst (λ v. v.sz ≤ length c.dep.depends.storage) (sym clock) c.depends_fit;
        processes = λ i p h e. c.processes i p (subst (λ v. i < v.sz) clock h) e;
      };
    }

abbrev absent : Bool → ℕ → ℕ
absent b k = if b && ltb k u64_mod then 0 else 1

-- 1 for a message that is not in the sets.
abbrev pub outside : List RollingBitset → Message → ℕ
outside d m = absent (has d m.originator m.bcast_seq_num) m.bcast_seq_num

-- 1 for a message that has not been heard of.
abbrev pub unheard : (Message → Bool) → Message → ℕ
unheard heard m = if heard m then 0 else 1

-- What the top layer keeps up: all its messages are in the sets `d`, and have been heard of, and
-- nothing of `base` is lost from the log.
pub record IsAbove (n id : ℕ) (deps : List Dependency) (heard : Message → Bool)
    (base : List Message) (d : List RollingBitset) (s : Causal) : Type 0 where
  pub valid : IsValid s
  pub id_is : s.id ≡ id
  pub deps_are : s.deps ≡ deps
  pub heaps : length s.pending ≡ n
  pub waiting : weigh_all (outside d) s.pending ≡ 0
  pub logged : weigh (outside d) s.log ≡ 0
  pub heard_waiting : weigh_all (unheard heard) s.pending ≡ 0
  pub heard_logged : weigh (unheard heard) s.log ≡ 0
  pub grown : (added : List Message) × (s.log ≡ added ++ base)

pub weigh-zero :
    (w w' : Message → ℕ) (ms : List Message)
    → ((m : Message) → w m ≡ 0 → w' m ≡ 0)
    → weigh w ms ≡ 0
    → weigh w' ms ≡ 0
unfolding weigh
weigh-zero w w' [] h z = refl
weigh-zero w w' (m ∷ ms) h z = omega (arith, h m (omega arith), weigh-zero w w' ms h (omega arith))

pub weigh_all-zero :
    (w w' : Message → ℕ) (qs : List (List Message))
    → ((m : Message) → w m ≡ 0 → w' m ≡ 0)
    → weigh_all w qs ≡ 0
    → weigh_all w' qs ≡ 0
unfolding weigh_all
weigh_all-zero w w' [] h z = refl
weigh_all-zero w w' (q ∷ qs) h z =
    omega (arith, weigh-zero w w' q h (omega arith), weigh_all-zero w w' qs h (omega arith))

weigh_all-at :
    (w : Message → ℕ) (qs : List (List Message)) (o : ℕ) (q : List Message)
    → get_elem? qs o ≡ some q
    → weigh w q ≤ weigh_all w qs
unfolding weigh_all
weigh_all-at w [] o q e = absurd (cc)
weigh_all-at w (x ∷ xs) zero q e =
    let same : x ≡ q = ground arith in omega (arith, ap (weigh w) same)
weigh_all-at w (x ∷ xs) (suc o) q e = omega (arith, weigh_all-at w xs o q e)

outside-zero : (b : Bool) (k : ℕ) → absent b k ≡ 0 → (b ≡ true) × (k < u64_mod)
outside-zero true k z = (refl, ground arith)
outside-zero false k z = absurd (ground arith)

zero-outside : (b : Bool) (k : ℕ) → b ≡ true → k < u64_mod → absent b k ≡ 0
zero-outside b k e h = rw (e, lt→ltb k u64_mod h) refl

inside-has :
    (d : List RollingBitset) (m : Message)
    → outside d m ≡ 0
    → has d m.originator m.bcast_seq_num ≡ true
inside-has d m z = (outside-zero (has d m.originator m.bcast_seq_num) m.bcast_seq_num z).0

-- The message is in the sets that have it in addition, with all that were in before.
inside-now :
    (m : Message) (d d' : List RollingBitset)
    → IsWith m d d'
    → m.bcast_seq_num < u64_mod
    → outside d' m ≡ 0
inside-now m d d' with_m fits =
    zero-outside (has d' m.originator m.bcast_seq_num) m.bcast_seq_num
      (with_m m.originator m.bcast_seq_num fits ∙ ground arith) fits

inside-with :
    (m : Message) (d d' : List RollingBitset)
    → IsWith m d d'
    → (x : Message) → outside d x ≡ 0
    → outside d' x ≡ 0
inside-with m d d' with_m x z =
    let (before, fits) = outside-zero (has d x.originator x.bcast_seq_num) x.bcast_seq_num z in
    zero-outside (has d' x.originator x.bcast_seq_num) x.bcast_seq_num
      (with_m x.originator x.bcast_seq_num fits ∙ rw before (ground arith)) fits

-- The numbers below the count of an originator are all in the sets.
logged-has :
    (deps : List Dependency) (d : List RollingBitset) (log : List Message) (o k : ℕ)
    → IsCausal deps log
    → weigh (outside d) log ≡ 0
    → k < count_from o log
    → has d o k ≡ true
unfolding weigh count_from
logged-has deps d [] o k c z h = absurd (omega arith)
logged-has deps d (m ∷ log) o k c z h = elim (Bool-cases (m.originator == o)) [
  | inl same ↦ elim (Bool-cases (k == count_from o log)) [
    | inl last ↦
        let o_is : m.originator ≡ o = ground arith in
        let k_is : m.bcast_seq_num ≡ k = c.0 ∙ ap (λ x. count_from x log) o_is ∙ ground arith in
        subst₂ (λ x y. has d x y ≡ true) o_is k_is (inside-has d m (omega arith))
    | inr below ↦ logged-has deps d log o k c.2 (omega arith) (ground arith)
  ]
  | inr other ↦ logged-has deps d log o k c.2 (omega arith) (ground arith)
]

waiting-Fresh :
    (deps : List Dependency) (log : List Message) (d : List RollingBitset) (o k : ℕ)
    (q : List Message)
    → All (IsPending deps log o) q
    → weigh (outside d) q ≡ 0
    → has d o k ≡ false
    → Fresh seq_num k q
unfolding weigh
waiting-Fresh deps log d o k [] all z new = tt
waiting-Fresh deps log d o k (x ∷ xs) all z new =
    let there = inside-has d x (omega arith) in
    let apart : (x.bcast_seq_num == k) ≡ false = elim (Bool-cases (x.bcast_seq_num == k)) [
      | inl same ↦
          let k_is : x.bcast_seq_num ≡ k = ground arith in
          absurd (cc (all.0.from, k_is, there, new))
      | inr other ↦ other
    ] in
    (ground (arith, apart), waiting-Fresh deps log d o k xs all.1 (omega arith) new)

module _ (n id : ℕ) (few : n ≤ max_processes) (deps : List Dependency) (heard : Message → Bool)
    (base : List Message) where
  sendable-IsNew :
      (m : Message) (d : List RollingBitset) (s : Causal)
      → IsSendable n deps m
      → IsAbove n id deps heard base d s
      → has d m.originator m.bcast_seq_num ≡ false
      → IsNew s m
  sendable-IsNew m d s good up new = record {
    host = omega (arith, good.host, up.heaps);
    covered = subst (λ x. IsCovered x m) (sym up.deps_are) good.covered;
    later = elim (Bool-cases (ltb m.bcast_seq_num (count_from m.originator s.log))) [
      | inl below ↦
          let there =
            logged-has s.deps d s.log m.originator m.bcast_seq_num up.valid.causal up.logged
              (ground arith) in
          absurd (cc (there, new))
      | inr reached ↦ ground arith
    ];
    small = good.small;
    fresh = λ q e.
        waiting-Fresh s.deps s.log d m.originator m.bcast_seq_num q
          (up.valid.queued m.originator q e).0
          (omega (arith, weigh_all-at (outside d) s.pending m.originator q e, up.waiting)) new;
  }

  -- A message that has not gone up below is new above, and is handled without a fault.
  pub hand_up-IsAbove :
      (m : Message) (d d' : List RollingBitset) (s : Causal)
      → IsSendable n deps m
      → heard m ≡ true
      → IsAbove n id deps heard base d s
      → has d m.originator m.bcast_seq_num ≡ false
      → IsWith m d d'
      → (s' : Causal) × (Causal.deliver s m ≡ ok s') × IsAbove n id deps heard base d' s'
  hand_up-IsAbove m d d' s good said up new with_m =
      let (s', run, done) = deliver_lem s m up.valid (sendable-IsNew m d s good up new) in
      let fits : m.bcast_seq_num < u64_mod = omega (arith, good.small) in
      let keep = inside-with m d d' with_m in
      let mine = inside-now m d d' with_m fits in
      let before = weigh_all-zero (outside d) (outside d') s.pending keep up.waiting in
      let old = weigh-zero (outside d) (outside d') s.log keep up.logged in
      let moved = done.moved (outside d') in
      let moved' = done.moved (unheard heard) in
      let mine' : unheard heard m ≡ 0 = rw said refl in
      let (added, grown) = up.grown in
      (
        s',
        run,
        record {
          valid = done.valid;
          id_is = done.id_kept ∙ up.id_is;
          deps_are = done.deps_kept ∙ up.deps_are;
          heaps = done.hosts_kept ∙ up.heaps;
          waiting = omega (arith, moved, before, mine);
          logged =
              ap (weigh (outside d')) done.log_is
              ∙ weigh-append (outside d') done.added s.log
              ∙ omega (arith, moved, before, mine, old);
          heard_waiting = omega (arith, moved', up.heard_waiting, mine');
          heard_logged =
              ap (weigh (unheard heard)) done.log_is
              ∙ weigh-append (unheard heard) done.added s.log
              ∙ omega (arith, moved', up.heard_waiting, up.heard_logged, mine');
          grown = (
            done.added ++ added,
            done.log_is
                ∙ ap (λ l. done.added ++ l) grown
                ∙ sym (append_assoc done.added added base),
          );
        },
      )
