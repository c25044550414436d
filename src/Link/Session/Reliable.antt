-- ===== src/Link/Session/Reliable.antt =====
-- What every state of a session of code/src/src/perfect-link.cpp that can be reached has in common.
use cs451_2020_project.Base.{
  ℕ, ◌<◌, ◌≤◌, ◌≡◌, ◌≢◌, refl, sym, ap, ◌∙◌, subst, ◌⊎◌, inl, inr, true, List, some, arith, ltb,
  Bool-cases, if◌then◌else◌, length, get_elem?, get_elem?-replicate, All-imp, u64_mod,
}
use cs451_2020_project.Message.{Message}
use cs451_2020_project.RollingSet.{empty, contains}
use cs451_2020_project.Link.FairLoss.{Address}
use cs451_2020_project.Link.Perfect.{Peer, new_peer}
use cs451_2020_project.Link.Perfect.Arrival.{times}
use cs451_2020_project.Link.Perfect.Once.{empty_heard}
use cs451_2020_project.Link.Worker.Retry.{is_held}
use cs451_2020_project.Link.Session.{Side, fresh_side, Act, Reach, start, left, right}
use cs451_2020_project.Link.Session.View.{view, IsOwn, IsLocal, IsCrossed}
use cs451_2020_project.Link.Session.Both.{IsSession}
use cs451_2020_project.Link.Session.Kept.{Move-kept, IsSession-flip}
use cs451_2020_project.Link.Session.Simulate.{some_unique, IsReady, Act-Moved}

-- Two processes with the invariant.
record Linked (a b : ℕ) (x y : Side) : Type 0 where
  p : Peer
  q : Peer
  ready : IsReady a b x p
  ready' : IsReady b a y q
  session : IsSession a b (view x p) (view y q)

Linked-flip : (a b : ℕ) (x y : Side) → Linked a b x y → Linked b a y x
Linked-flip a b x y l = record {
  p = l.q;
  q = l.p;
  ready = l.ready';
  ready' = l.ready;
  session = IsSession-flip a b _ _ l.session;
}

Act-Linked : (a b : ℕ) (x y x' : Side) → a ≢ b → Linked a b x y → Act a b x y x' → Linked a b x' y
Act-Linked a b x y x' other l act =
    let from_b =
      All-imp _ _ y.log.perfect.link.sent
        (λ (e : Address × Message) (o : IsOwn b l.q.next_seq_num l.q.delivered e.1). o.from)
        l.session.far.own in
    let m = Act-Moved a b x y x' l.p l.q l.ready other from_b act in
    record {
      p = m.peer_after;
      q = l.q;
      ready = m.ready;
      ready' = l.ready';
      session = Move-kept a b _ _ _ l.session m.move;
    }

module _ (addrs : List Address) where
  fresh-IsReady : (a b : ℕ) → b < length addrs → IsReady a b (fresh_side a addrs) new_peer
  fresh-IsReady a b h = record {
    own = refl;
    link_own = refl;
    peer = get_elem?-replicate (length addrs) new_peer b h;
    addr = h;
  }

  fresh-IsLocal : (a b : ℕ) → IsLocal a b (view (fresh_side a addrs) new_peer)
  unfolding times
  fresh-IsLocal a b = record {
    own = tt;
    queued = tt;
    repeated = tt;
    valid = empty_heard.0;
    once = λ k small. rw (empty_heard.1 k small) refl;
    small = omega arith;
  }

  fresh-IsCrossed : (a : ℕ) → IsCrossed (view (fresh_side a addrs) new_peer) empty
  fresh-IsCrossed a = record {
    acked = λ k h. absurd (cc);
    acks = tt;
    heard = λ k small h. absurd (cc (h, empty_heard.1 k small));
    held = λ k h. absurd (omega arith);
  }

  Reach-Linked :
      (a b : ℕ) {x y : Side}
      → a ≢ b
      → a < length addrs
      → b < length addrs
      → Reach a b addrs x y
      → Linked a b x y
  Reach-Linked a b other ha hb (start e f) =
      rw (e, f)
        (record {
          p = new_peer;
          q = new_peer;
          ready = fresh-IsReady a b hb;
          ready' = fresh-IsReady b a ha;
          session = record {
            near = fresh-IsLocal a b;
            far = fresh-IsLocal b a;
            out = fresh-IsCrossed a;
            back = fresh-IsCrossed b;
          };
        })
  Reach-Linked a b {x} {y} other ha hb (left {w} r act) =
      Act-Linked a b w y x other (Reach-Linked a b other ha hb r) act
  Reach-Linked a b {x} {y} other ha hb (right {w} r act) = Linked-flip b a y x (
      Act-Linked b a w x y (λ e. other (sym e))
        (Linked-flip a b x w (Reach-Linked a b other ha hb r)) act)

-- In every state that two processes can reach from the start, by sending, by rounds of their worker
-- threads and by the arrival of anything that has been sent, in any order and any number of times: for
-- each 64-bit number `k`, either `b` has handed up the message `k` of `a` once, and `a` has sent it, or
-- `b` has not handed it up, and then `a` has not sent it or its worker thread still holds it.
pub link_reliable :
    (addrs : List Address) (a b : ℕ) (x y : Side) (p : Peer) (k : ℕ)
    → a ≢ b
    → a < length addrs
    → b < length addrs
    → Reach a b addrs x y
    → get_elem? x.log.perfect.peers b ≡ some p
    → k < u64_mod
    → ((times a k y.log.upper ≡ 1) × (k < p.next_seq_num))
      ⊎ ((times a k y.log.upper ≡ 0)
          × ((p.next_seq_num ≤ k)
              ⊎ (is_held k (record {
                scheduled = x.scheduled;
                acknowledged = x.acknowledged;
                incoming = p.incoming;
              })
                  ≡ true)))
link_reliable addrs a b x y p k other ha hb r here small =
    let l = Reach-Linked addrs a b other ha hb r in
    let p_is : l.p ≡ p = some_unique l.ready.peer here in
    let s = subst (λ z. IsSession a b (view x z) (view y l.q)) p_is l.session in
    let counted = s.far.once k small in
    elim (Bool-cases (contains l.q.delivered k)) [
      | inl has ↦ inl (counted ∙ ap (λ c. if c then 1 else 0) has, s.out.heard k small has)
      | inr not_yet ↦ inr (
        counted ∙ ap (λ c. if c then 1 else 0) not_yet,
        elim (Bool-cases (ltb k p.next_seq_num)) [
          | inl sent ↦ elim (s.out.held k (ground arith)) [
            | inl held ↦ inr held
            | inr has ↦ absurd (cc (has, not_yet))
          ]
          | inr later ↦ inl (ground arith)
        ],
      )
    ]
