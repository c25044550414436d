-- ===== src/Broadcast/Uniform/Links.antt =====
-- What the loop of `BestEffortBroadcast::send` in code/src/src/best-effort-broadcast.cpp leaves alone.
use cs451_2020_project.Base.{
  ℕ, ◌+◌, ◌%◌, ◌<◌, ◌≡◌, ◌≢◌, refl, sym, subst, ◌∙◌, true, false, List, [], ◌∷◌, arith, ◌==◌,
  length, length-set, get_elem?-inside, set, All, All-set, All-get_elem?, Run, ok, ◌>>=◌, u64_mod,
}
use cs451_2020_project.Message.{Message}
use cs451_2020_project.Link.FairLoss
use cs451_2020_project.Link.Queue
use cs451_2020_project.Link.Queue.{All-queued}
use cs451_2020_project.Link.Perfect.{Peer, PerfectLink, Stack}
use cs451_2020_project.Link.Perfect
use cs451_2020_project.Broadcast.BestEffort
use cs451_2020_project.Broadcast.Uniform.Ack.{SameBroadcast}

-- There is a peer and an address for each of `n` processes.
pub record IsLinked {ℓ} {U : Type ℓ} (n id : ℕ) (st : Stack U) : Type 0 where
  pub own : st.perfect.id ≡ id
  pub peers : length st.perfect.peers ≡ n
  pub addrs : length st.perfect.link.addrs ≡ n

-- `P` holds of all that waits for the worker threads, and of all that has been sent.
pub record IsCarried {κ} (P : Message → Type κ) (id : ℕ) (l : PerfectLink) : Type κ where
  pub link_own : l.link.id ≡ id
  pub queues : All (λ (p : Peer). (p.next_seq_num < u64_mod) × All P p.incoming) l.peers
  pub traffic : All (λ (x : FairLoss.Address × Message). P x.1) l.link.sent

-- `P` holds of a message once the process `id` has given it a number.
abbrev pub Stamps {κ} : (Message → Type κ) → ℕ → Message → Type κ
Stamps P id m =
    (m' : Message)
    → SameBroadcast m' m
    → m'.vector_clock ≡ m.vector_clock
    → m'.link_seq_num < u64_mod
    → m'.sender ≡ id
    → P m'

-- What sending changes neither of the message nor of the layers above.
pub record Sent {ℓ κ} {U : Type ℓ} (P : Message → Type κ) (n id : ℕ) (m : Message) (st : Stack U)
    (r : Message × Stack U) : Type (ℓ ⊔ κ) where
  pub same : SameBroadcast r.0 m
  pub clock : r.0.vector_clock ≡ m.vector_clock
  pub above : r.1.upper ≡ st.upper
  pub linked : IsLinked n id r.1
  pub carried : Stamps P id m → IsCarried P id st.perfect → IsCarried P id r.1.perfect

-- Processes other than the sender.
abbrev pub IsOther : ℕ → ℕ → ℕ → Type 0
IsOther n id receiver = (receiver < n) × (receiver ≢ id)

module _ {ℓ κ} {U : Type ℓ} (P : Message → Type κ) (observer : Message → Stack U → Run (Stack U))
    (n id : ℕ) where
  -- What `send` to another process returns.
  abbrev sent_away : ℕ → Message → Stack U → Peer → FairLoss.Address → Message × Stack U
  sent_away receiver m st p a =
      let m' : Message = record m { link_seq_num = p.next_seq_num; sender = st.perfect.id } in
      let m'' : Message = record m' { sender = st.perfect.link.id } in
      let p' : Peer = record p {
        next_seq_num = (p.next_seq_num + 1) % u64_mod;
        incoming = Queue.push m' p.incoming;
      } in
      (
        m'',
        record st {
          perfect = record st.perfect {
            peers = set st.perfect.peers receiver p';
            link = record st.perfect.link { sent = (a, m'') ∷ st.perfect.link.sent };
          };
        },
      )

  send-Sent :
      (receiver : ℕ) (m : Message) (st : Stack U)
      → IsOther n id receiver
      → IsLinked n id st
      → (r : Message × Stack U) × (Perfect.send observer receiver m st ≡ ok r) × Sent P n id m st r
  unfolding Perfect.send Perfect.send_raw Perfect.set_peer FairLoss.send
  send-Sent receiver m st other l =
      let (p, ep) = get_elem?-inside st.perfect.peers receiver (omega (arith, l.peers, other.0)) in
      let (a, ea) =
        get_elem?-inside st.perfect.link.addrs receiver (omega (arith, l.addrs, other.0)) in
      let away : (st.perfect.id == receiver) ≡ false = ground (arith, l.own, other.1) in
      (
        sent_away receiver m st p a,
        rw (ep, away, ea) refl,
        record {
          same = (refl, refl);
          clock = refl;
          above = refl;
          linked = record {
            own = l.own;
            peers = length-set st.perfect.peers receiver _ ∙ l.peers;
            addrs = l.addrs;
          };
          carried = λ stamp c. record {
            link_own = c.link_own;
            queues = All-set _ st.perfect.peers receiver _ c.queues (
              omega arith,
              All-queued P _ p.incoming (All-get_elem? _ st.perfect.peers receiver p c.queues ep).1
                  (stamp _ (refl, refl) refl
                    (All-get_elem? _ st.perfect.peers receiver p c.queues ep).0 l.own),
            );
            traffic = (
              stamp _ (refl, refl) refl (All-get_elem? _ st.perfect.peers receiver p c.queues ep).0
                  c.link_own,
              c.traffic,
            );
          };
        },
      )

  pub send_each-Sent :
      (receivers : List ℕ) (m : Message) (st : Stack U)
      → All (IsOther n id) receivers
      → IsLinked n id st
      → (r : Message × Stack U) × (BestEffort.send_each observer receivers m st ≡ ok r)
        × Sent P n id m st r
  unfolding BestEffort.send_each
  send_each-Sent [] m st h l = (
    (m, st),
    refl,
    record { same = (refl, refl); clock = refl; above = refl; linked = l; carried = λ stamp c. c },
  )
  send_each-Sent (c ∷ cs) m st h l =
      let (r, e, s) = send-Sent c m st h.0 l in
      let (r', e', s') = send_each-Sent cs r.0 r.1 h.1 s.linked in
      (
        r',
        rw e e',
        record {
          same = (s'.same.0 ∙ s.same.0, s'.same.1 ∙ s.same.1);
          clock = s'.clock ∙ s.clock;
          above = s'.above ∙ s.above;
          linked = s'.linked;
          carried = λ stamp c.
              s'.carried
                (λ m' same clock. stamp m' (same.0 ∙ s.same.0, same.1 ∙ s.same.1) (clock ∙ s.clock))
                (s.carried stamp c);
        },
      )

  -- The message that comes back to the process itself at the end of `send`, and the state it meets.
  pub record Returned (bc : BestEffort.BestEffort) (m : Message) (st : Stack U) : Type (ℓ ⊔ κ) where
    pub copy : Message
    pub back : Stack U
    pub same : SameBroadcast copy m
    pub clock : copy.vector_clock ≡ m.vector_clock
    pub from : copy.sender ≡ id
    pub above : back.upper ≡ st.upper
    pub linked : IsLinked n id back
    pub carried : Stamps P id m → IsCarried P id st.perfect → IsCarried P id back.perfect
    pub sent : BestEffort.send observer bc m st ≡ (observer copy back >>= λ st'. ok (copy, st'))

  pub send-Returned :
      id < n
      → (bc : BestEffort.BestEffort) → bc.id ≡ id
      → All (IsOther n id) bc.connections
      → (m : Message) (st : Stack U) → IsLinked n id st
      → Returned bc m st
  unfolding BestEffort.send Perfect.send Perfect.set_peer
  send-Returned own bc me others m st l =
      let (r, e, s) = send_each-Sent bc.connections m st others l in
      let inside : id < length r.1.perfect.peers = subst (λ k. id < k) (sym s.linked.peers) own in
      let (peer, ep) = get_elem?-inside r.1.perfect.peers id inside in
      let self : (r.1.perfect.id == id) ≡ true = ground (arith, s.linked.own) in
      record {
        copy = record r.0 { link_seq_num = peer.next_seq_num; sender = r.1.perfect.id };
        back =
            Perfect.set_peer r.1 id
              (record peer { next_seq_num = (peer.next_seq_num + 1) % u64_mod });
        same = s.same;
        clock = s.clock;
        from = s.linked.own;
        above = s.above;
        linked = record {
          own = s.linked.own;
          peers = length-set r.1.perfect.peers id _ ∙ s.linked.peers;
          addrs = s.linked.addrs;
        };
        carried = λ stamp c.
            let c' = s.carried stamp c in
            record {
              link_own = c'.link_own;
              queues =
                  All-set _ r.1.perfect.peers id _ c'.queues
                    (omega arith, (All-get_elem? _ r.1.perfect.peers id peer c'.queues ep).1);
              traffic = c'.traffic;
            };
        sent = rw (me, e, ep, self) refl;
      }
