-- ===== src/Link/Worker/Cases.antt =====
-- What a round of the worker thread of code/src/src/perfect-link.cpp can do.
use cs451_2020_project.Base.{
  ℕ, ◌<◌, ◌≡◌, refl, true, false, List, ◌∷◌, [], inl, inr, Bool-cases, Option-cases, elem, length,
  get_elem?-inside, ok,
}
use cs451_2020_project.Message.{Message}
use cs451_2020_project.PriorityQueue
use cs451_2020_project.Link.SeqNum.{is_syn, seq_num}
use cs451_2020_project.Link.FairLoss.{Address, FairLossLink}
use cs451_2020_project.Link.Worker.{
  Entry, ExponentialBackoff, Worker, due, try_pop, handle_timeout, take_item, round, erase_number,
  insert_number, retry, new_backoff,
}
use cs451_2020_project.Link.Worker.Retry.{try_pop-incoming}

pub data Outcome (w : Worker) (link : FairLossLink) (w' : Worker) (link' : FairLossLink)
    : Type 0 where
  takes_syn :
      (m : Message) (rest : List Message) (t : ExponentialBackoff)
      → w.incoming ≡ m ∷ rest
      → is_syn m ≡ true
      → w' ≡ record w {
        incoming = rest;
        scheduled = PriorityQueue.push due (record { msg = m; backoff = t }) w.scheduled;
      }
      → link' ≡ link
      → Outcome w link w' link'
  takes_ack :
      (m : Message) (rest : List Message)
      → w.incoming ≡ m ∷ rest
      → is_syn m ≡ false
      → w' ≡ record w { incoming = rest; acknowledged = insert_number (seq_num m) w.acknowledged }
      → link' ≡ link
      → Outcome w link w' link'
  gives_up :
      (e : Entry) (es : List Entry)
      → w.scheduled ≡ e ∷ es
      → elem (seq_num e.msg) w.acknowledged ≡ true
      → w' ≡ record w { scheduled = es; acknowledged = erase_number (seq_num e.msg) w.acknowledged }
      → link' ≡ link
      → Outcome w link w' link'
  repeats :
      (e : Entry) (es : List Entry) (to : Address) (t : ExponentialBackoff)
      → w.scheduled ≡ e ∷ es
      → w' ≡ record w {
        scheduled =
            PriorityQueue.push due
              (record { msg = record e.msg { sender = link.id }; backoff = t })
              es;
      }
      → link' ≡ record link { sent = (to, record e.msg { sender = link.id }) ∷ link.sent }
      → Outcome w link w' link'
  nothing : w' ≡ w → link' ≡ link → Outcome w link w' link'

module _ (w : Worker) (receiver now later : ℕ) (link : FairLossLink)
    (known : receiver < length link.addrs) where
  abbrev pub Ends : Worker × FairLossLink → Type 0
  Ends r = Outcome w link r.0 r.1

  handle_timeout-Outcome :
      (es : List Entry)
      → w.scheduled ≡ es
      → (r : Worker × FairLossLink) × (handle_timeout w receiver later link ≡ ok r) × Ends r
  unfolding handle_timeout
  handle_timeout-Outcome [] e = ((w, link), simp (e, handle_timeout), nothing refl refl)
  handle_timeout-Outcome (x ∷ es) e =
      let (a, addr) = get_elem?-inside link.addrs receiver known in
      elim (Bool-cases (elem (seq_num x.msg) w.acknowledged)) [
        | inl acked ↦ (
          (
            record w { scheduled = es; acknowledged = erase_number (seq_num x.msg) w.acknowledged },
            link,
          ),
          rw (e, handle_timeout, acked) refl,
          gives_up x es e acked refl refl,
        )
        | inr due_again ↦ (
          (
            record w {
              scheduled =
                  PriorityQueue.push due
                    (record {
                      msg = record x.msg { sender = link.id };
                      backoff = retry x.backoff later;
                    })
                    es;
            },
            record link { sent = (a, record x.msg { sender = link.id }) ∷ link.sent },
          ),
          rw (e, handle_timeout, due_again, addr) refl,
          repeats x es a (retry x.backoff later) e refl refl,
        )
      ]

  take_item-Outcome :
      (m : Message) (rest : List Message)
      → w.incoming ≡ m ∷ rest
      → Ends (take_item (record w { incoming = rest }) m later, link)
  unfolding take_item
  take_item-Outcome m rest e = elim (Bool-cases (is_syn m)) [
    | inl syn ↦ takes_syn m rest (new_backoff later) e syn (rw (syn, take_item) refl) refl
    | inr ack ↦ takes_ack m rest e ack (rw (ack, take_item) refl) refl
  ]

  -- A round ends without a fault.
  pub round-Outcome :
      (r : Worker × FairLossLink) × (round w receiver now later link ≡ ok r) × Ends r
  unfolding round
  round-Outcome = elim (Option-cases (try_pop w now)) [
    | inl e ↦ let (r, run, o) = handle_timeout-Outcome w.scheduled refl in (r, rw (e, round) run, o)
    | inr ((m, rest), e) ↦ (
      (take_item (record w { incoming = rest }) m later, link),
      rw (e, round) refl,
      take_item-Outcome m rest (try_pop-incoming w now m rest e),
    )
  ]
