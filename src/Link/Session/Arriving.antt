-- ===== src/Link/Session/Arriving.antt =====
-- What arrives keeps the invariant.
use cs451_2020_project.Base.{
  ℕ, All-get_elem?, ◌<◌, ◌≡◌, refl, ◌∙◌, true, false, ◌||◌, ◌∷◌, some, arith, ◌==◌, if◌then◌else◌,
  get_elem?, All-imp, All-imp₂, u64_mod,
}
use cs451_2020_project.Message.{Message}
use cs451_2020_project.RollingSet.{RollingBitset, insert, contains}
use cs451_2020_project.RollingSet.Refine.{contains-insert, insert-IsValid}
use cs451_2020_project.Link.SeqNum.{is_syn, seq_num, set_ack, set_ack_lem}
use cs451_2020_project.Link.FairLoss.{Address}
use cs451_2020_project.Link.Queue
use cs451_2020_project.Link.Perfect.Arrival.{times}
use cs451_2020_project.Link.Session.View.{View, IsOwn, IsQueued, IsTruthful}
use cs451_2020_project.Link.Queue.{All-queued}
use cs451_2020_project.Link.Session.Both.{is_incoming-push, seq_num-small, IsSession}

module _ (a b : ℕ) (v w : View) (s : IsSession a b v w) where
  module _ (i : ℕ) (from : Address) (m : Message) (here : get_elem? w.sent i ≡ some (from, m)) where
    arrived-IsOwn : IsOwn b w.next w.delivered m
    arrived-IsOwn =
        All-get_elem? (λ (e : Address × Message). IsOwn b w.next w.delivered e.1) w.sent i (from, m)
          s.far.own here

    pub gets_ack-kept :
        is_syn m ≡ false → IsSession a b (record v { incoming = Queue.push m v.incoming }) w
    gets_ack-kept ack =
        let o = arrived-IsOwn in
        record {
          near = record {
            own = s.near.own;
            queued =
                All-queued (IsQueued v.next) m v.incoming s.near.queued
                  (record { fits = o.fits; given = λ h. absurd (cc (h, ack)) });
            repeated = s.near.repeated;
            valid = s.near.valid;
            once = s.near.once;
            small = s.near.small;
          };
          far = s.far;
          out = record {
            acked = s.out.acked;
            acks = All-queued (IsTruthful w.delivered) m v.incoming s.out.acks o.heard;
            heard = s.out.heard;
            held = λ k h. ground (arith, is_incoming-push k m v.incoming, s.out.held k h);
          };
          back = s.back;
        }

    -- What is sent back is true of any set that has the number.
    ack-IsOwn :
        (d : RollingBitset)
        → contains d (seq_num m) ≡ true
        → IsOwn a v.next d (record (set_ack m) { sender = a })
    unfolding is_syn seq_num
    ack-IsOwn d has =
        let l = set_ack_lem m arrived-IsOwn.fits in
        record {
          from = refl;
          fits = l.2;
          given = λ h. absurd (cc (h, l.0));
          heard = λ h. rw l.1 has;
        }

    pub gets_old-kept :
        (to : Address)
        → contains v.delivered (seq_num m) ≡ true
        → IsSession a b (record v { sent = (to, record (set_ack m) { sender = a }) ∷ v.sent }) w
    gets_old-kept to old = record {
      near = record {
        own = (ack-IsOwn v.delivered old, s.near.own);
        queued = s.near.queued;
        repeated = s.near.repeated;
        valid = s.near.valid;
        once = s.near.once;
        small = s.near.small;
      };
      far = s.far;
      out = record {
        acked = s.out.acked;
        acks = s.out.acks;
        heard = s.out.heard;
        held = s.out.held;
      };
      back = s.back;
    }

    module _ (syn : is_syn m ≡ true) (new : contains v.delivered (seq_num m) ≡ false) where
      abbrev grown : RollingBitset
      grown = insert v.delivered (seq_num m)

      seq_small : seq_num m < u64_mod
      seq_small = seq_num-small m arrived-IsOwn.fits

      contains-grown :
          (k : ℕ) → k < u64_mod → contains grown k ≡ ((k == seq_num m) || contains v.delivered k)
      contains-grown k h = contains-insert v.delivered (seq_num m) k seq_small h s.near.valid

      times-grown :
          (k : ℕ) → k < u64_mod → times b k (m ∷ v.upper) ≡ (if contains grown k then 1 else 0)
      unfolding times
      times-grown k h =
          ground (arith, contains-grown k h, s.near.once k h, arrived-IsOwn.from, syn, new)

      pub gets_new-kept :
          (to : Address)
          → IsSession a b
              (record v {
                delivered = grown;
                upper = m ∷ v.upper;
                sent = (to, record (set_ack m) { sender = a }) ∷ v.sent;
              })
              w
      gets_new-kept to = record {
        near = record {
          own = (
            ack-IsOwn grown (contains-grown (seq_num m) seq_small ∙ ground arith),
            All-imp _ _ v.sent
                (λ (e : Address × Message) (o : IsOwn a v.next v.delivered e.1). record {
                  from = o.from;
                  fits = o.fits;
                  given = o.given;
                  heard = λ h.
                      contains-grown (seq_num e.1) (seq_num-small e.1 o.fits)
                      ∙ ground (arith, o.heard h);
                })
                s.near.own,
          );
          queued = s.near.queued;
          repeated = s.near.repeated;
          valid = insert-IsValid v.delivered (seq_num m) seq_small s.near.valid;
          once = times-grown;
          small = s.near.small;
        };
        far = s.far;
        out = record {
          acked = s.out.acked;
          acks = s.out.acks;
          heard = s.out.heard;
          held = s.out.held;
        };
        back = record {
          acked = λ k h.
              let (small, old) = s.back.acked k h in
              (small, contains-grown k small ∙ ground (arith, old));
          acks =
              All-imp₂ (IsTruthful v.delivered) (IsQueued w.next) (IsTruthful grown) w.incoming
                (λ x t q h.
                  contains-grown (seq_num x) (seq_num-small x q.fits) ∙ ground (arith, t h))
                s.back.acks s.far.queued;
          heard = λ k hk h.
              ground (arith, contains-grown k hk, s.back.heard k hk, arrived-IsOwn.given syn, h);
          held =
              λ k h. ground (arith, contains-grown k (omega (arith, s.far.small)), s.back.held k h);
        };
      }
