-- ===== src/Link/Session/Simulate.antt =====
-- What happens at a process of a session, in terms of its view: the code refines the moves.
use cs451_2020_project.Base.{
  ok-injective, ℕ, ◌+◌, ◌%◌, ◌<◌, ◌^◌, ◌≡◌, ◌≢◌, refl, sym, ap, ◌∙◌, subst, inl, inr, false, ◌∷◌,
  Option, some, arith, ◌==◌, Bool-cases, length, get_elem?, get_elem?-set, get_elem?-lt,
  get_elem?-inside, set, ok, u64_mod, All, All-get_elem?,
}
use cs451_2020_project.Message.{Message}
use cs451_2020_project.RollingSet.{insert, contains}
use cs451_2020_project.Link.SeqNum.{is_syn, seq_num}
use cs451_2020_project.Link.FairLoss.{Address, FairLossLink}
use cs451_2020_project.Link.FairLoss
use cs451_2020_project.Link.Queue
use cs451_2020_project.Link.Perfect.{Peer, set_peer, send, send_raw, deliver}
use cs451_2020_project.Link.Perfect.Arrival.{Log, keep, deliver-old, deliver-fresh, deliver-ack}
use cs451_2020_project.Link.Worker.{Worker, round}
use cs451_2020_project.Link.Worker.Cases.{
  Outcome, takes_syn, takes_ack, gives_up, repeats, nothing, round-Outcome,
}
use cs451_2020_project.Link.Session.{Side, Act, work, sends, works, receives}
use cs451_2020_project.Link.Session.View.{View, view, Move, IsOwn}
use cs451_2020_project.Link.Session.View

-- Process `a` can send to `b`, whose peer it keeps as `p`.
pub record IsReady (a b : ℕ) (x : Side) (p : Peer) : Type 0 where
  pub own : x.log.perfect.id ≡ a
  pub link_own : x.log.perfect.link.id ≡ a
  pub peer : get_elem? x.log.perfect.peers b ≡ some p
  pub addr : b < length x.log.perfect.link.addrs

-- The state after, and the move.
pub record Moved (a b : ℕ) (x x' : Side) (w : View) (p : Peer) : Type 0 where
  pub peer_after : Peer
  pub ready : IsReady a b x' peer_after
  pub move : Move a (view x p) w (view x' peer_after)

pub some_unique {ℓ} : {A : Type ℓ} {o : Option A} {x y : A} → o ≡ some x → o ≡ some y → x ≡ y
some_unique e f = cc

module _ (a b : ℕ) (x : Side) (p : Peer) (w : View) (r : IsReady a b x p) (other : a ≢ b) where
  -- After a write to the peer of `b`.
  peer_set : (q : Peer) → get_elem? (set x.log.perfect.peers b q) b ≡ some q
  peer_set q =
      get_elem?-set x.log.perfect.peers b b q (get_elem?-lt x.log.perfect.peers b p r.peer)
      ∙ ground arith

  module _ (m : Message) (to : Address)
      (addr : get_elem? x.log.perfect.link.addrs b ≡ some to) where
    abbrev numbered : Message
    numbered = record m { link_seq_num = p.next_seq_num; sender = x.log.perfect.link.id }

    abbrev counted : Peer
    counted = record p {
      next_seq_num = (p.next_seq_num + 1) % u64_mod;
      incoming =
          Queue.push (record m { link_seq_num = p.next_seq_num; sender = x.log.perfect.id })
            p.incoming;
    }

    abbrev after_send : Log
    after_send = record x.log {
      perfect = record x.log.perfect {
        peers = set x.log.perfect.peers b counted;
        link = record x.log.perfect.link { sent = (to, numbered) ∷ x.log.perfect.link.sent };
      };
    }

    send-after : send keep b m x.log ≡ ok (numbered, after_send)
    unfolding send send_raw FairLoss.send set_peer
    send-after =
        let away : (x.log.perfect.id == b) ≡ false = ground (arith, r.own, other) in
        rw (r.peer, away, addr) refl

    send-Moved : p.next_seq_num < 2 ^ 63 → Moved a b x (record x { log = after_send }) w p
    send-Moved small =
        let wrapped : (p.next_seq_num + 1) % u64_mod ≡ p.next_seq_num + 1 = omega arith in
        record {
          peer_after = counted;
          ready = record {
            own = r.own;
            link_own = r.link_own;
            peer = peer_set counted;
            addr = r.addr;
          };
          move = View.sends numbered to refl r.link_own small (simp (wrapped, r.own, r.link_own));
        }

  sends-Moved :
      (m m' : Message) (log' : Log)
      → p.next_seq_num < 2 ^ 63
      → send keep b m x.log ≡ ok (m', log')
      → Moved a b x (record x { log = log' }) w p
  sends-Moved m m' log' small e =
      let (to, addr) = get_elem?-inside x.log.perfect.link.addrs b r.addr in
      subst (λ l. Moved a b x (record x { log = l }) w p)
        (ap (λ (q : Message × Log). q.1) (ok-injective (sym (send-after m to addr) ∙ e)))
        (send-Moved m to addr small)

  abbrev worker : Worker
  worker = record { scheduled = x.scheduled; acknowledged = x.acknowledged; incoming = p.incoming }

  abbrev after_work : Worker → FairLossLink → Side
  after_work t link' = record {
    log = record x.log {
      perfect = record x.log.perfect {
        peers = set x.log.perfect.peers b (record p { incoming = t.incoming });
        link = link';
      };
    };
    scheduled = t.scheduled;
    acknowledged = t.acknowledged;
  }

  work-after :
      (now later : ℕ) (t : Worker) (link' : FairLossLink)
      → round worker b now later x.log.perfect.link ≡ ok (t, link')
      → work x b now later ≡ ok (after_work t link')
  unfolding work set_peer
  work-after now later t link' e = rw (r.peer, e) refl

  IsReady-after :
      (t : Worker) (link' : FairLossLink)
      → link'.id ≡ x.log.perfect.link.id
      → link'.addrs ≡ x.log.perfect.link.addrs
      → IsReady a b (after_work t link') (record p { incoming = t.incoming })
  IsReady-after t link' same_id same_addrs = record {
    own = r.own;
    link_own = same_id ∙ r.link_own;
    peer = peer_set (record p { incoming = t.incoming });
    addr = rw same_addrs r.addr;
  }

  abbrev link : FairLossLink
  link = x.log.perfect.link

  work-Moved :
      (t : Worker) (link' : FairLossLink)
      → Outcome worker link t link'
      → Moved a b x (after_work t link') w p
  work-Moved t link' (takes_syn m rest u q syn e f) = record {
    peer_after = record p { incoming = t.incoming };
    ready = IsReady-after t link' (rw f refl) (rw f refl);
    move = View.schedules m rest u q syn (rw (e, f) refl);
  }
  work-Moved t link' (takes_ack m rest q ack e f) = record {
    peer_after = record p { incoming = t.incoming };
    ready = IsReady-after t link' (rw f refl) (rw f refl);
    move = View.notes m rest q ack (rw (e, f) refl);
  }
  work-Moved t link' (gives_up y ys q acked e f) = record {
    peer_after = record p { incoming = t.incoming };
    ready = IsReady-after t link' (rw f refl) (rw f refl);
    move = View.gives_up y ys q acked (rw (e, f) refl);
  }
  work-Moved t link' (repeats y ys to u q e f) = record {
    peer_after = record p { incoming = t.incoming };
    ready = IsReady-after t link' (rw f refl) (rw f refl);
    move = View.repeats y ys to u q (rw (e, f, ← r.link_own) refl);
  }
  work-Moved t link' (nothing e f) = record {
    peer_after = record p { incoming = t.incoming };
    ready = IsReady-after t link' (rw f refl) (rw f refl);
    move = View.idles (rw (e, f) refl);
  }

  works-Moved : (now later : ℕ) (x' : Side) → work x b now later ≡ ok x' → Moved a b x x' w p
  works-Moved now later x' e =
      let ((t, link'), run, o) = round-Outcome worker b now later link r.addr in
      subst (λ s. Moved a b x s w p) (ok-injective (sym (work-after now later t link' run) ∙ e))
        (work-Moved t link' o)

  module _ (i : ℕ) (from : Address) (m : Message) (here : get_elem? w.sent i ≡ some (from, m))
      (sender : m.sender ≡ b) where
    found : get_elem? x.log.perfect.peers m.sender ≡ some p
    found = rw sender r.peer

    peer_set_back : (q : Peer) → get_elem? (set x.log.perfect.peers m.sender q) b ≡ some q
    peer_set_back q =
        subst (λ k. get_elem? (set x.log.perfect.peers k q) b ≡ some q) (sym sender) (peer_set q)

    receives-Moved :
        (log' : Log) → deliver keep m x.log ≡ ok log' → Moved a b x (record x { log = log' }) w p
    unfolding set_peer
    receives-Moved log' e =
        let (to, addr) = get_elem?-inside x.log.perfect.link.addrs m.sender (rw sender r.addr) in
        elim (Bool-cases (is_syn m)) [
          | inr ack ↦
              subst (λ l. Moved a b x (record x { log = l }) w p)
                (ok-injective (sym (deliver-ack m x.log p to found addr ack) ∙ e))
                (record {
                  peer_after = record p { incoming = Queue.push m p.incoming };
                  ready = record {
                    own = r.own;
                    link_own = r.link_own;
                    peer = peer_set_back (record p { incoming = Queue.push m p.incoming });
                    addr = r.addr;
                  };
                  move = View.gets_ack i from m here ack refl;
                })
          | inl syn ↦ elim (Bool-cases (contains p.delivered (seq_num m))) [
            | inl old ↦
                subst (λ l. Moved a b x (record x { log = l }) w p)
                  (ok-injective (sym (deliver-old m x.log p to found addr syn old) ∙ e))
                  (record {
                    peer_after = p;
                    ready = record {
                      own = r.own;
                      link_own = r.link_own;
                      peer = r.peer;
                      addr = r.addr;
                    };
                    move = View.gets_old i from to m here syn old (rw (← r.link_own) refl);
                  })
            | inr new ↦
                let q : Peer = record p { delivered = insert p.delivered (seq_num m) } in
                subst (λ l. Moved a b x (record x { log = l }) w p)
                  (ok-injective (sym (deliver-fresh m x.log p to found addr syn new) ∙ e))
                  (record {
                    peer_after = q;
                    ready = record {
                      own = r.own;
                      link_own = r.link_own;
                      peer = peer_set_back q;
                      addr = r.addr;
                    };
                    move = View.gets_new i from to m here syn new (rw (← r.link_own) refl);
                  })
          ]
        ]

-- Each act of process `a` is a move of its view.
pub Act-Moved :
    (a b : ℕ) (x y x' : Side) (p q : Peer)
    → IsReady a b x p
    → a ≢ b
    → All (λ (e : Address × Message). e.1.sender ≡ b) y.log.perfect.link.sent
    → Act a b x y x'
    → Moved a b x x' (view y q) p
Act-Moved a b x y x' p q r other from_b (sends m m' p' log' e small run same) =
    let small' : p.next_seq_num < 2 ^ 63 =
      subst (λ (z : Peer). z.next_seq_num < 2 ^ 63) (some_unique e r.peer) small in
    subst (λ s. Moved a b x s (view y q) p) (sym same)
      (sends-Moved a b x p (view y q) r other m m' log' small' run)
Act-Moved a b x y x' p q r other from_b (works now later run) =
    works-Moved a b x p (view y q) r other now later x' run
Act-Moved a b x y x' p q r other from_b (receives i to m log' here run same) =
    let sender =
      All-get_elem? (λ (e : Address × Message). e.1.sender ≡ b) y.log.perfect.link.sent i (to, m)
        from_b here in
    subst (λ s. Moved a b x s (view y q) p) (sym same)
      (receives-Moved a b x p (view y q) r other i to m here sender log' run)
