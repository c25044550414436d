-- ===== src/Link/Session/Working.antt =====
-- The other rounds of the worker thread keep the invariant.
use cs451_2020_project.Base.{
  ℕ, ◌≡◌, refl, ap, subst, inl, inr, true, false, List, ◌∷◌, arith, ◌==◌, Bool-cases, elem, All,
}
use cs451_2020_project.Message.{Message}
use cs451_2020_project.PriorityQueue.{All-push}
use cs451_2020_project.PriorityQueue
use cs451_2020_project.Link.SeqNum.{is_syn, seq_num}
use cs451_2020_project.Link.FairLoss.{Address}
use cs451_2020_project.Link.Worker.{Entry, ExponentialBackoff, due, insert_number, erase_number}
use cs451_2020_project.Link.Worker.Retry.{is_scheduled, is_incoming, is_scheduled-push}
use cs451_2020_project.Link.Session.View.{View, IsQueued, IsRepeated, IsTruthful}
use cs451_2020_project.Link.Session.Both.{
  elem-insert_number, elem-erase_number, seq_num-small, IsSession,
}

module _ (a b : ℕ) (v w : View) (s : IsSession a b v w) where
  pub notes-kept :
      (m : Message) (rest : List Message)
      → v.incoming ≡ m ∷ rest
      → is_syn m ≡ false
      → IsSession a b
          (record v { incoming = rest; acknowledged = insert_number (seq_num m) v.acknowledged })
          w
  notes-kept m rest e ack =
      let queued : All (IsQueued v.next) (m ∷ rest) =
        subst (All (IsQueued v.next)) e s.near.queued in
      let acks = subst (All (IsTruthful w.delivered)) e s.out.acks in
      record {
        near = record {
          own = s.near.own;
          queued = queued.1;
          repeated = s.near.repeated;
          valid = s.near.valid;
          once = s.near.once;
          small = s.near.small;
        };
        far = s.far;
        out = record {
          acked = λ k h. elim (elem-insert_number k (seq_num m) v.acknowledged h) [
            | inl same ↦ rw same (seq_num-small m queued.0.fits, acks.0 ack)
            | inr old ↦ s.out.acked k old
          ];
          acks = acks.1;
          heard = s.out.heard;
          held = λ k h.
              let before = ap (is_incoming k) e in ground (arith, before, s.out.held k h, ack);
        };
        back = s.back;
      }

  pub gives_up-kept :
      (e : Entry) (es : List Entry)
      → v.scheduled ≡ e ∷ es
      → elem (seq_num e.msg) v.acknowledged ≡ true
      → IsSession a b
          (record v { scheduled = es; acknowledged = erase_number (seq_num e.msg) v.acknowledged })
          w
  gives_up-kept e es same acked =
      let repeated = subst (All (IsRepeated v.next)) same s.near.repeated in
      record {
        near = record {
          own = s.near.own;
          queued = s.near.queued;
          repeated = repeated.1;
          valid = s.near.valid;
          once = s.near.once;
          small = s.near.small;
        };
        far = s.far;
        out = record {
          acked = λ k h. s.out.acked k (elem-erase_number k (seq_num e.msg) v.acknowledged h);
          acks = s.out.acks;
          heard = s.out.heard;
          held = λ k h.
              let before = ap (is_scheduled k) same in
              elim (Bool-cases (seq_num e.msg == k)) [
                | inl own ↦
                    let k_is : seq_num e.msg ≡ k = ground arith in
                    inr (s.out.acked k (subst (λ n. elem n v.acknowledged ≡ true) k_is acked)).1
                | inr other ↦ ground (arith, before, other, s.out.held k h)
              ];
        };
        back = s.back;
      }

  pub repeats-kept :
      (e : Entry) (es : List Entry) (to : Address) (t : ExponentialBackoff)
      → v.scheduled ≡ e ∷ es
      → IsSession a b
          (record v {
            scheduled =
                PriorityQueue.push due
                  (record { msg = record e.msg { sender = a }; backoff = t })
                  es;
            sent = (to, record e.msg { sender = a }) ∷ v.sent;
          })
          w
  unfolding is_syn seq_num
  repeats-kept e es to t same =
      let repeated = subst (All (IsRepeated v.next)) same s.near.repeated in
      let this : IsRepeated v.next (record { msg = record e.msg { sender = a }; backoff = t }) =
        (record { fits = repeated.0.0.fits; given = repeated.0.0.given }, repeated.0.1) in
      record {
        near = record {
          own = (
            record {
              from = refl;
              fits = this.0.fits;
              given = this.0.given;
              heard = λ h. absurd (cc (h, this.1));
            },
            s.near.own,
          );
          queued = s.near.queued;
          repeated = All-push due (IsRepeated v.next) _ es this repeated.1;
          valid = s.near.valid;
          once = s.near.once;
          small = s.near.small;
        };
        far = s.far;
        out = record {
          acked = s.out.acked;
          acks = s.out.acks;
          heard = s.out.heard;
          held = λ k h.
              let before = ap (is_scheduled k) same in
              ground (
                arith,
                before,
                is_scheduled-push k (record { msg = record e.msg { sender = a }; backoff = t }) es,
                s.out.held k h,
              );
        };
        back = s.back;
      }
