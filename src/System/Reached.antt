-- ===== src/System/Reached.antt =====
-- What holds in every state that the system can reach.
use cs451_2020_project.Base.{
  ℕ, ◌≤◌, ◌<◌, ◌≡◌, sym, ap, subst, ◌∙◌, inl, inr, List, [], ◌∷◌, some, arith, Bool-cases, ◌==◌,
  length, get_elem?, update, All-get_elem?, ok-injective,
}
use cs451_2020_project.StaticVec.{to_list}
use cs451_2020_project.Message.{Message, max_processes}
use cs451_2020_project.Config.{Dependency}
use cs451_2020_project.Link.FairLoss.{Address}
use cs451_2020_project.Process.Traffic.{IsConfigured}
use cs451_2020_project.Process.Steps.{own_clocks}
use cs451_2020_project.System.{
  Site, Said, System, Step, broadcasts, works, receives, Reach, begins, goes_on,
}
use cs451_2020_project.System.Heard.{heard}
use cs451_2020_project.System.History.{IsHistory}
use cs451_2020_project.System.Sites.{
  IsSent, IsSent-IsTraffic, IsSite, IsSite-later, fresh_site-IsSite,
}
use cs451_2020_project.System.Moves.{work-IsSite, receive-IsSite, broadcast-IsSite}

module _ (deps : List Dependency) (addrs : List Address) (three : 3 ≤ length addrs)
    (few : length addrs ≤ max_processes)
    (configured : (i : ℕ) → i < length addrs → IsConfigured i deps) where
  abbrev SiteAt : List Said → ℕ → Site → Type 0
  SiteAt history i site =
      (own : i < length addrs) → IsSite (length addrs) i own few deps history site

  pub record IsSound (s : System) : Type 0 where
    pub all : (i : ℕ) → SiteAt s.history i (s.sites i)
    pub past : IsHistory deps s.history

  update-all :
      (history : List Said) (sites : ℕ → Site) (i : ℕ) (site : Site)
      → ((k : ℕ) → SiteAt history k (sites k))
      → SiteAt history i site
      → (k : ℕ) → SiteAt history k (update sites i site k)
  update-all history sites i site all one k = elim (Bool-cases (i == k)) [
    | inl same ↦
        let is : i ≡ k = ground arith in rw same (subst (λ z. SiteAt history z site) is one)
    | inr other ↦ rw other (all k)
  ]

  -- What is on its way from a process.
  pub sent-IsSent :
      (s : System) (j at : ℕ) (to : Address) (m : Message)
      → IsSound s
      → j < length addrs
      → get_elem? (s.sites j).layers.perfect.link.sent at ≡ some (to, m)
      → IsSent (length addrs) deps s.history m
  sent-IsSent s j at to m h known e =
      All-get_elem? (λ (x : Address × Message). IsSent (length addrs) deps s.history x.1)
        (s.sites j).layers.perfect.link.sent at (to, m) (h.all j known).live.carried.traffic e

  Step-IsSound : (s s' : System) → Step (length addrs) s s' → IsSound s → IsSound s'
  Step-IsSound s s' (broadcasts i k m st own is small sent run e) h =
      let x : Said = record {
        message = record m { originator = i; bcast_seq_num = k };
        past = (s.sites i).layers.upper.top.log;
      } in
      let site = s.sites i in
      let c = configured i own in
      let (m', run', clocks, size, len) =
        own_clocks (length addrs) i own few deps (heard s.history) []
          (IsSent (length addrs) deps s.history) (IsSent-IsTraffic (length addrs) deps s.history) c
          site.layers (h.all i own).live in
      let same : m' ≡ m = ok-injective (sym run' ∙ sent) in
      rw e (record {
        all =
            update-all (x ∷ s.history) s.sites i (record site { layers = st })
              (λ j own'.
                IsSite-later (length addrs) j own' few deps x s.history (s.sites j) (h.all j own'))
              (λ own'.
                let (st', there, done) =
                  broadcast-IsSite (length addrs) i own' few deps s.history site k m x.past c
                    (h.all i own') small sent in
                subst
                  (λ l.
                    IsSite (length addrs) i own' few deps (x ∷ s.history)
                      (record site { layers = l }))
                  (ok-injective (sym there ∙ run)) done);
        past = (
          record {
            dep = c.dep;
            found = c.mine;
            clocks = ap (λ (y : Message). to_list y.vector_clock) (sym same) ∙ clocks;
            size = ap (λ (y : Message). y.vector_clock.sz) (sym same) ∙ size;
          },
          is,
          h.past,
        );
      })
  Step-IsSound s s' (works i j now later site own known run e) h = rw e (record {
    all = update-all s.history s.sites i site h.all (λ own'.
        let (site', there, done) =
          work-IsSite (length addrs) i own' few deps s.history (s.sites i) j now later
            (h.all i own') known in
        subst (IsSite (length addrs) i own' few deps s.history) (ok-injective (sym there ∙ run))
          done);
    past = h.past;
  })
  Step-IsSound s s' (receives i j at to m st own known sent run e) h =
      let site = s.sites i in
      rw e (record {
        all =
            update-all s.history s.sites i (record site { layers = st }) h.all
              (λ own'.
                let (st', there, done) =
                  receive-IsSite (length addrs) i own' few deps s.history site m (h.all i own')
                    (sent-IsSent s j at to m h known sent) in
                subst
                  (λ l.
                    IsSite (length addrs) i own' few deps s.history (record site { layers = l }))
                  (ok-injective (sym there ∙ run)) done);
        past = h.past;
      })

  pub Reach-IsSound : (s : System) → Reach deps addrs s → IsSound s
  Reach-IsSound s (begins e) =
      rw e (record { all = λ i own. fresh_site-IsSite i deps addrs own few three; past = tt })
  Reach-IsSound s (goes_on {s = before} r step) =
      Step-IsSound before s step (Reach-IsSound before r)
