-- ===== src/Link/Session/Sending.antt =====
-- A message that is sent, and one that the worker thread schedules, keep the invariant.
use cs451_2020_project.Base.{
  ℕ, ◌+◌, ◌<◌, ◌^◌, ◌≡◌, ap, subst, inl, inr, true, List, ◌∷◌, arith, ◌==◌, Bool-cases, All,
  All-imp,
}
use cs451_2020_project.Message.{Message}
use cs451_2020_project.PriorityQueue.{All-push}
use cs451_2020_project.PriorityQueue
use cs451_2020_project.Link.SeqNum.{is_syn}
use cs451_2020_project.Link.FairLoss.{Address}
use cs451_2020_project.Link.Queue
use cs451_2020_project.Link.Worker.{Entry, ExponentialBackoff, due}
use cs451_2020_project.Link.Worker.Retry.{is_incoming, is_scheduled-push}
use cs451_2020_project.Link.Session.View.{View, IsOwn, IsQueued, IsRepeated, IsTruthful}
use cs451_2020_project.Link.Queue.{All-queued}
use cs451_2020_project.Link.Session.Both.{is_incoming-push, numbered, IsQueued-later, IsSession}

module _ (a b : ℕ) (v w : View) (s : IsSession a b v w) where
  pub sends-kept :
      (m : Message) (to : Address)
      → m.link_seq_num ≡ v.next
      → m.sender ≡ a
      → v.next < 2 ^ 63
      → IsSession a b
          (record v {
            next = v.next + 1;
            incoming = Queue.push m v.incoming;
            sent = (to, m) ∷ v.sent;
          })
          w
  sends-kept m to number from small =
      let (syn, n) = numbered m (omega arith) in
      record {
        near = record {
          own = (
            record {
              from = from;
              fits = omega arith;
              given = λ h. omega (arith, n);
              heard = λ h. absurd (cc (h, syn));
            },
            All-imp _ _ v.sent
                (λ (e : Address × Message) (o : IsOwn a v.next v.delivered e.1). record {
                  from = o.from;
                  fits = o.fits;
                  given = λ h. omega (arith, o.given h);
                  heard = o.heard;
                })
                s.near.own,
          );
          queued =
              All-queued (IsQueued (v.next + 1)) m v.incoming
                (IsQueued-later v.next v.incoming s.near.queued)
                (record { fits = omega arith; given = λ h. omega (arith, n) });
          repeated =
              All-imp _ _ v.scheduled
                (λ (e : Entry) (q : IsRepeated v.next e).
                  (record { fits = q.0.fits; given = λ h. omega (arith, q.0.given h) }, q.1))
                s.near.repeated;
          valid = s.near.valid;
          once = s.near.once;
          small = omega arith;
        };
        far = s.far;
        out = record {
          acked = s.out.acked;
          acks = All-queued _ m v.incoming s.out.acks (λ h. absurd (cc (h, syn)));
          heard = λ k hk h. omega (arith, s.out.heard k hk h);
          held = λ k h. elim (Bool-cases (k == v.next)) [
            | inl e ↦ inl (ground (arith, is_incoming-push k m v.incoming, syn, n))
            | inr e ↦ ground (arith, is_incoming-push k m v.incoming, s.out.held k (ground arith))
          ];
        };
        back = s.back;
      }

  pub schedules-kept :
      (m : Message) (rest : List Message) (t : ExponentialBackoff)
      → v.incoming ≡ m ∷ rest
      → is_syn m ≡ true
      → IsSession a b
          (record v {
            incoming = rest;
            scheduled = PriorityQueue.push due (record { msg = m; backoff = t }) v.scheduled;
          })
          w
  schedules-kept m rest t e syn =
      let queued : All (IsQueued v.next) (m ∷ rest) =
        subst (All (IsQueued v.next)) e s.near.queued in
      let acks = subst (All (IsTruthful w.delivered)) e s.out.acks in
      record {
        near = record {
          own = s.near.own;
          queued = queued.1;
          repeated = All-push due _ _ v.scheduled (queued.0, syn) s.near.repeated;
          valid = s.near.valid;
          once = s.near.once;
          small = s.near.small;
        };
        far = s.far;
        out = record {
          acked = s.out.acked;
          acks = acks.1;
          heard = s.out.heard;
          held = λ k h.
              let before = ap (is_incoming k) e in
              ground (
                arith,
                before,
                is_scheduled-push k (record { msg = m; backoff = t }) v.scheduled,
                s.out.held k h,
                syn,
              );
        };
        back = s.back;
      }
