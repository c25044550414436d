-- ===== src/System/Delivery.antt =====
-- What the processes of code/src/src/main.cpp promise together: no call faults, and what is handed up
-- has been broadcast, is in order, and comes after what it depends on.
use cs451_2020_project.Base.{
  ℕ, ◌+◌, ◌^◌, ◌≤◌, ◌<◌, ◌≡◌, sym, ap, subst, ◌∙◌, inl, inr, true, Bool, List, [], ◌∷◌, ◌++◌, some,
  arith, Bool-cases, ◌==◌, length, get_elem?, ok,
}
use cs451_2020_project.StaticVec.{to_list}
use cs451_2020_project.Message.{Message, max_processes}
use cs451_2020_project.Config.{Dependency}
use cs451_2020_project.Link.FairLoss.{Address}
use cs451_2020_project.Broadcast.Causal.{weigh}
use cs451_2020_project.Broadcast.Causal.Log.{count_from, IsCausal}
use cs451_2020_project.Broadcast.Causal.Send.{IsCausal-suffix, Respects-counts}
use cs451_2020_project.Process.{Layers, receive, broadcast}
use cs451_2020_project.Process.Causality.{unheard}
use cs451_2020_project.Process.Traffic.{IsConfigured}
use cs451_2020_project.Process.Steps.{own_clocks}
use cs451_2020_project.System.{Site, Said, System, Reach, work, number_said}
use cs451_2020_project.System.Heard.{heard, IsCopy, heard-IsCopy}
use cs451_2020_project.System.Sites.{IsSent, IsSent-IsTraffic}
use cs451_2020_project.System.Moves.{work-IsSite, receive-IsSite, broadcast-IsSite}
use cs451_2020_project.System.History.{
  IsHistory, get_elem?-IsRecorded, number_said-above, said_unique,
}
use cs451_2020_project.System.Reached.{IsSound, sent-IsSent, Reach-IsSound}

-- Whatever can happen next at a process happens without a fault: a round of a worker thread, the
-- arrival of something that has been sent, and a broadcast.
pub record CanGoOn (n : ℕ) (s : System) : Type 0 where
  pub works_on :
      (i j now later : ℕ) → i < n → j < n → (site : Site) × (work (s.sites i) j now later ≡ ok site)
  pub receives_on :
      (i j at : ℕ) (to : Address) (m : Message)
      → i < n
      → j < n
      → get_elem? (s.sites j).layers.perfect.link.sent at ≡ some (to, m)
      → (st : Layers) × (receive m (s.sites i).layers ≡ ok st)
  pub broadcasts_on :
      (i k : ℕ) → i < n → k + 1 < 2 ^ 32 → (st : Layers) × (broadcast k (s.sites i).layers ≡ ok st)

-- A message that is handed up after `earlier`.
pub record IsDelivery (deps : List Dependency) (history : List Said) (m : Message)
    (earlier : List Message) : Type 0 where
  pub at : ℕ
  pub said : Said
  pub found : get_elem? history at ≡ some said
  pub copy : IsCopy said.message m
  pub dep : Dependency
  pub entry : get_elem? deps m.originator ≡ some dep
  pub in_order : m.bcast_seq_num ≡ count_from m.originator earlier
  pub after :
      (q p : ℕ)
      → get_elem? (to_list dep.depends) q ≡ some p
      → count_from p said.past ≤ count_from p earlier

heard-logged :
    (heard : Message → Bool) (later : List Message) (m : Message) (earlier : List Message)
    → weigh (unheard heard) (later ++ m ∷ earlier) ≡ 0
    → heard m ≡ true
unfolding weigh
heard-logged heard [] m earlier z = elim (Bool-cases (heard m)) [
  | inl said ↦ said
  | inr new ↦ absurd (ground (arith, new))
]
heard-logged heard (x ∷ xs) m earlier z = heard-logged heard xs m earlier (omega arith)

-- A log of broadcasts in causal order has no more of a process than that has broadcast.
count_from-bounded :
    (deps : List Dependency) (history : List Said) (o : ℕ) (log : List Message)
    → IsHistory deps history
    → IsCausal deps log
    → weigh (unheard (heard history)) log ≡ 0
    → count_from o log ≤ number_said o history
unfolding weigh count_from
count_from-bounded deps history o [] h c z = omega arith
count_from-bounded deps history o (m ∷ log) h c z = elim (Bool-cases (m.originator == o)) [
  | inl same ↦
      let (at, x, found, copy) = heard-IsCopy history m (heard-logged (heard history) [] m log z) in
      let o_is : x.message.originator ≡ o = copy.same.1 ∙ ground arith in
      let k_is : x.message.bcast_seq_num ≡ count_from o log =
        copy.same.0 ∙ c.0 ∙ ap (λ p. count_from p log) (ground arith) in
      let above =
        subst (λ p. x.message.bcast_seq_num < number_said p history) o_is
          (number_said-above deps history at x h found) in
      rw same (omega (arith, above, k_is))
  | inr other ↦ rw other (count_from-bounded deps history o log h c.2 (omega arith))
]

IsDelivery-from :
    (deps : List Dependency) (history : List Said) (later : List Message) (m : Message)
    (earlier : List Message)
    → IsHistory deps history
    → IsCausal deps (later ++ m ∷ earlier)
    → weigh (unheard (heard history)) (later ++ m ∷ earlier) ≡ 0
    → IsDelivery deps history m earlier
IsDelivery-from deps history later m earlier h causal z =
    let (at, x, found, copy) =
      heard-IsCopy history m (heard-logged (heard history) later m earlier z) in
    let r = get_elem?-IsRecorded deps history at x h found in
    let c = IsCausal-suffix deps later m earlier causal in
    let mine : get_elem? deps m.originator ≡ some r.dep =
      ap (get_elem? deps) (sym copy.same.1) ∙ r.found in
    record {
      at = at;
      said = x;
      found = found;
      copy = copy;
      dep = r.dep;
      entry = mine;
      in_order = c.0;
      after = λ q p e.
          Respects-counts deps r.dep m x.past earlier q p c.1 mine (sym copy.clocks ∙ r.clocks)
            (sym copy.size ∙ r.size) e;
    }

module _ (deps : List Dependency) (addrs : List Address) (three : 3 ≤ length addrs)
    (few : length addrs ≤ max_processes)
    (configured : (i : ℕ) → i < length addrs → IsConfigured i deps) (s : System)
    (reached : Reach deps addrs s) where
  sound : IsSound deps addrs three few configured s
  sound = Reach-IsSound deps addrs three few configured s reached

  -- Take 3 to 128 processes with the same configuration, which has an entry of at most 128 known
  -- processes for each of them. In every state that they can reach, by broadcasts, by rounds of worker
  -- threads and by the arrival of anything sent at any process, in any order and any number of times,
  -- no next move faults: no round of a worker thread, no arrival, and no broadcast whose number leaves
  -- room for one more in 32 bits.
  pub Reach-CanGoOn : CanGoOn (length addrs) s
  Reach-CanGoOn = record {
    works_on = λ i j now later own known.
        let (site, run, h) =
          work-IsSite (length addrs) i own few deps s.history (s.sites i) j now later
            (sound.all i own) known in
        (site, run);
    receives_on = λ i j at to m own known e.
        let (st, run, h) =
          receive-IsSite (length addrs) i own few deps s.history (s.sites i) m (sound.all i own)
            (sent-IsSent deps addrs three few configured s j at to m sound known e) in
        (st, run);
    broadcasts_on = λ i k own small.
        let (m, sent, clocks, size, len) =
          own_clocks (length addrs) i own few deps (heard s.history) []
            (IsSent (length addrs) deps s.history) (IsSent-IsTraffic (length addrs) deps s.history)
            (configured i own) (s.sites i).layers (sound.all i own).live in
        let (st, run, h) =
          broadcast-IsSite (length addrs) i own few deps s.history (s.sites i) k m []
            (configured i own) (sound.all i own) small sent in
        (st, run);
  }

  -- Under the same conditions: what any of the processes has handed up is a copy of a message that its
  -- originator has broadcast, has the number of its originator's messages before it, and comes after at
  -- least as many messages of each process that the originator's entry names as the originator had
  -- handed up when it broadcast it.
  pub Reach-IsDelivery :
      (i : ℕ) (later : List Message) (m : Message) (earlier : List Message)
      → i < length addrs
      → (s.sites i).layers.upper.top.log ≡ later ++ m ∷ earlier
      → IsDelivery deps s.history m earlier
  Reach-IsDelivery i later m earlier own log_is =
      let up = (sound.all i own).live.calm.holds in
      let causal =
        subst (λ d. IsCausal d (s.sites i).layers.upper.top.log) up.deps_are up.valid.causal in
      IsDelivery-from deps s.history later m earlier sound.past
        (subst (IsCausal deps) log_is causal)
        (subst (λ l. weigh (unheard (heard s.history)) l ≡ 0) log_is up.heard_logged)

  -- Under the same conditions: two processes, or one, that have handed up messages of one originator
  -- with one number have handed up copies of the same message, and no process has handed up more of
  -- an originator's messages than that has broadcast.
  pub Reach-agreement :
      (i i' : ℕ) (later later' : List Message) (m m' : Message) (earlier earlier' : List Message)
      → i < length addrs
      → i' < length addrs
      → (s.sites i).layers.upper.top.log ≡ later ++ m ∷ earlier
      → (s.sites i').layers.upper.top.log ≡ later' ++ m' ∷ earlier'
      → m.originator ≡ m'.originator
      → m.bcast_seq_num ≡ m'.bcast_seq_num
      → IsCopy m m'
        × (count_from m.originator (s.sites i).layers.upper.top.log
            ≤ number_said m.originator s.history)
  Reach-agreement i i' later later' m m' earlier earlier' own own' log_is log_is' o k =
      let d = Reach-IsDelivery i later m earlier own log_is in
      let d' = Reach-IsDelivery i' later' m' earlier' own' log_is' in
      let same : d.said ≡ d'.said =
        said_unique deps s.history d.at d'.at d.said d'.said sound.past d.found d'.found
          (d.copy.same.1 ∙ o ∙ sym d'.copy.same.1) (d.copy.same.0 ∙ k ∙ sym d'.copy.same.0) in
      let copy = subst (λ x. IsCopy x.message m') (sym same) d'.copy in
      let up = (sound.all i own).live.calm.holds in
      let causal =
        subst (λ d. IsCausal d (s.sites i).layers.upper.top.log) up.deps_are up.valid.causal in
      (
        record {
          same = (k, o);
          size = sym d.copy.size ∙ copy.size;
          clocks = sym d.copy.clocks ∙ copy.clocks;
        },
        count_from-bounded deps s.history m.originator (s.sites i).layers.upper.top.log sound.past
            causal up.heard_logged,
      )
