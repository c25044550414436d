-- ===== src/Link/Worker/Carries.antt =====
-- What holds of all messages that a worker thread of code/src/src/perfect-link.cpp has or has sent,
-- over a round of its loop.
use cs451_2020_project.Base.{ℕ, ◌<◌, ◌≡◌, refl, subst, length, All, ok}
use cs451_2020_project.Message.{Message}
use cs451_2020_project.PriorityQueue
use cs451_2020_project.Link.FairLoss.{Address, FairLossLink}
use cs451_2020_project.Link.Worker.{Entry, Worker, due, round}
use cs451_2020_project.Link.Worker.Cases.{
  Outcome, takes_syn, takes_ack, gives_up, repeats, nothing, round-Outcome,
}

module _ {κ} (P : Message → Type κ) where
  pub record Carries (w : Worker) (link : FairLossLink) : Type κ where
    pub scheduled : All (λ (e : Entry). P e.msg) w.scheduled
    pub incoming : All P w.incoming
    pub sent : All (λ (x : Address × Message). P x.1) link.sent

  -- The link stays that of the process.
  pub record Carried (link : FairLossLink) (w' : Worker) (link' : FairLossLink) : Type κ where
    pub all : Carries w' link'
    pub id_kept : link'.id ≡ link.id
    pub addrs_kept : link'.addrs ≡ link.addrs

  Outcome-Carried :
      (w w' : Worker) (link link' : FairLossLink)
      → ((m : Message) → P m → P (record m { sender = link.id }))
      → Carries w link
      → Outcome w link w' link'
      → Carried link w' link'
  Outcome-Carried w w' link link' renamed c (takes_syn m rest t e syn w_is link_is) =
      let (here, later) = subst (All P) e c.incoming in
      rw (w_is, link_is)
        (record {
          all = record {
            scheduled =
                PriorityQueue.All-push due _ (record { msg = m; backoff = t }) w.scheduled here
                  c.scheduled;
            incoming = later;
            sent = c.sent;
          };
          id_kept = refl;
          addrs_kept = refl;
        })
  Outcome-Carried w w' link link' renamed c (takes_ack m rest e ack w_is link_is) =
      rw (w_is, link_is)
        (record {
          all = record {
            scheduled = c.scheduled;
            incoming = (subst (All P) e c.incoming).1;
            sent = c.sent;
          };
          id_kept = refl;
          addrs_kept = refl;
        })
  Outcome-Carried w w' link link' renamed c (gives_up x xs e acked w_is link_is) =
      rw (w_is, link_is)
        (record {
          all = record {
            scheduled = (subst (All (λ (y : Entry). P y.msg)) e c.scheduled).1;
            incoming = c.incoming;
            sent = c.sent;
          };
          id_kept = refl;
          addrs_kept = refl;
        })
  Outcome-Carried w w' link link' renamed c (repeats x xs to t e w_is link_is) =
      let (here, later) = subst (All (λ (y : Entry). P y.msg)) e c.scheduled in
      let again = renamed x.msg here in
      rw (w_is, link_is)
        (record {
          all = record {
            scheduled =
                PriorityQueue.All-push due _
                  (record { msg = record x.msg { sender = link.id }; backoff = t }) xs again later;
            incoming = c.incoming;
            sent = (again, c.sent);
          };
          id_kept = refl;
          addrs_kept = refl;
        })
  Outcome-Carried w w' link link' renamed c (nothing w_is link_is) =
      rw (w_is, link_is) (record { all = c; id_kept = refl; addrs_kept = refl })

  pub round-Carried :
      (w : Worker) (receiver now later : ℕ) (link : FairLossLink)
      → receiver < length link.addrs
      → ((m : Message) → P m → P (record m { sender = link.id }))
      → Carries w link
      → (r : Worker × FairLossLink) × (round w receiver now later link ≡ ok r)
        × Carried link r.0 r.1
  round-Carried w receiver now later link known renamed c =
      let (r, run, o) = round-Outcome w receiver now later link known in
      (r, run, Outcome-Carried w r.0 link r.1 renamed c o)
