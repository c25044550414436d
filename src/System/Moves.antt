-- ===== src/System/Moves.antt =====
-- The moves of one process: none of them faults, and each keeps what the process keeps up.
use cs451_2020_project.Base.{
  ℕ, ◌+◌, ◌^◌, ◌≤◌, ◌<◌, ◌≡◌, refl, sym, ap, subst, ◌∙◌, inl, inr, true, List, [], ◌∷◌, arith,
  Bool-cases, ◌==◌, length, length-set, get_elem?-inside, update, All-set, All-get_elem?, ok,
  ok-injective, u64_mod,
}
use cs451_2020_project.Message.{Message, max_processes}
use cs451_2020_project.Config.{Dependency}
use cs451_2020_project.Link.FairLoss.{FairLossLink}
use cs451_2020_project.Link.Perfect.{Peer, set_peer}
use cs451_2020_project.Link.Worker.{Worker}
use cs451_2020_project.Link.Worker.Carries.{Carried, round-Carried}
use cs451_2020_project.Link.Thread.{Thread, run_round}
use cs451_2020_project.Broadcast.Causal
use cs451_2020_project.Process.{Layers, receive, broadcast}
use cs451_2020_project.Process.Traffic.{IsConfigured}
use cs451_2020_project.Process.Steps.{receive-Ended, broadcast-Ended}
use cs451_2020_project.System.{Site, Said, work}
use cs451_2020_project.System.Heard.{heard, heard-last}
use cs451_2020_project.System.Sites.{
  IsSent, IsSent-sender, IsSent-IsTraffic, IsLive, IsSite, IsSite-later,
}

module _ (n id : ℕ) (own : id < n) (few : n ≤ max_processes) (deps : List Dependency)
    (history : List Said) where
  after_round-IsLive :
      (st : Layers) (j : ℕ) (p : Peer) (w : Worker) (link : FairLossLink)
      → IsLive n id own few deps history st
      → p.next_seq_num < u64_mod
      → Carried (IsSent n deps history) st.perfect.link w link
      → IsLive n id own few deps history (
          set_peer
            (record st { perfect = record st.perfect { link = link } })
            j
            (record p { incoming = w.incoming }))
  unfolding set_peer
  after_round-IsLive st j p w link r low c = record {
    linked = record {
      own = r.linked.own;
      peers = length-set st.perfect.peers j (record p { incoming = w.incoming }) ∙ r.linked.peers;
      addrs = ap length c.addrs_kept ∙ r.linked.addrs;
    };
    carried = record {
      link_own = c.id_kept ∙ r.carried.link_own;
      queues =
          All-set _ st.perfect.peers j (record p { incoming = w.incoming }) r.carried.queues
            (low, c.all.incoming);
      traffic = c.all.sent;
    };
    calm = r.calm;
  }

  pub work-IsSite :
      (s : Site) (j now later : ℕ)
      → IsSite n id own few deps history s
      → j < n
      → (s' : Site) × (work s j now later ≡ ok s') × IsSite n id own few deps history s'
  unfolding work run_round
  work-IsSite s j now later h known =
      let r = h.live in
      let (p, here) =
        get_elem?-inside s.layers.perfect.peers j (omega (arith, known, r.linked.peers)) in
      let (low, incoming) = All-get_elem? _ s.layers.perfect.peers j p r.carried.queues here in
      let t = s.threads j in
      let w : Worker = record {
        scheduled = t.scheduled;
        acknowledged = t.acknowledged;
        incoming = p.incoming;
      } in
      let (q, run, c) =
        round-Carried (IsSent n deps history) w j now later s.layers.perfect.link
          (omega (arith, known, r.linked.addrs))
          (λ m sent.
            subst (λ i. IsSent n deps history (record m { sender = i })) (sym r.carried.link_own)
              (IsSent-sender n id deps history m own sent))
          (record { scheduled = h.waiting j; incoming = incoming; sent = r.carried.traffic }) in
      let t' : Thread = record { scheduled = q.0.scheduled; acknowledged = q.0.acknowledged } in
      (
        record {
          layers =
              set_peer (record s.layers { perfect = record s.layers.perfect { link = q.1 } }) j
                (record p { incoming = q.0.incoming });
          threads = update s.threads j t';
        },
        rw (here, run) refl,
        record {
          live = after_round-IsLive s.layers j p q.0 q.1 r low c;
          waiting = λ k. elim (Bool-cases (j == k)) [
            | inl same ↦ rw same c.all.scheduled
            | inr other ↦ rw other (h.waiting k)
          ];
        },
      )

  pub receive-IsSite :
      (s : Site) (m : Message)
      → IsSite n id own few deps history s
      → IsSent n deps history m
      → (st : Layers) × (receive m s.layers ≡ ok st)
        × IsSite n id own few deps history (record s { layers = st })
  receive-IsSite s m h sent =
      let (st, run, live) =
        receive-Ended n id own few deps (heard history) [] (IsSent n deps history)
          (IsSent-IsTraffic n deps history) m s.layers h.live sent in
      (st, run, record { live = live; waiting = h.waiting })

  pub broadcast-IsSite :
      (s : Site) (k : ℕ) (m : Message) (past : List Message)
      → IsConfigured id deps
      → IsSite n id own few deps history s
      → k + 1 < 2 ^ 32
      → Causal.send s.layers.upper.top ≡ ok m
      → (st : Layers) × (broadcast k s.layers ≡ ok st)
        × IsSite n id own few deps
            (record { message = record m { originator = id; bcast_seq_num = k }; past = past }
              ∷ history)
            (record s { layers = st })
  broadcast-IsSite s k m past c h small sent =
      let x : Said = record {
        message = record m { originator = id; bcast_seq_num = k };
        past = past;
      } in
      let h' = IsSite-later n id own few deps x history s h in
      let (st, run, live) =
        broadcast-Ended n id own few deps (heard (x ∷ history)) [] (IsSent n deps (x ∷ history))
          (IsSent-IsTraffic n deps (x ∷ history)) c k s.layers h'.live small
          (λ m' e.
            subst
              (λ (y : Message).
                heard (x ∷ history) (record y { originator = id; bcast_seq_num = k }) ≡ true)
              (ok-injective (sym sent ∙ e)) (heard-last x history)) in
      (st, run, record { live = live; waiting = h'.waiting })
