-- ===== src/Link/Perfect/Arrival.antt =====
-- One message that arrives at `PerfectLink::deliver` of code/src/src/perfect-link.cpp, branch by
-- branch, under an observer that keeps what it is given.
use cs451_2020_project.Base.{
  ℕ, suc, ◌≡◌, refl, Bool, true, false, ◌&&◌, ◌||◌, List, [], ◌∷◌, some, ◌==◌, if◌then◌else◌,
  get_elem?, Run, ok,
}
use cs451_2020_project.Message.{Message}
use cs451_2020_project.RollingSet.{insert, contains}
use cs451_2020_project.Link.SeqNum.{is_syn, seq_num, set_ack}
use cs451_2020_project.Link.FairLoss.{Address}
use cs451_2020_project.Link.FairLoss
use cs451_2020_project.Link.Queue
use cs451_2020_project.Link.Perfect.{Peer, Stack, set_peer, send_raw, deliver_new, deliver}

abbrev pub Log : Type 0
Log = Stack (List Message)

-- An observer that keeps what it is given, the last message first.
abbrev pub keep : Message → Log → Run Log
keep m st = ok (record st { upper = m ∷ st.upper })

-- The "Syn" with number `k` of process `p`.
abbrev pub is_from : ℕ → ℕ → Message → Bool
is_from p k m = is_syn m && (m.sender == p && seq_num m == k)

unfoldable pub arrived : ℕ → ℕ → List Message → Bool
arrived p k [] = false
arrived p k (m ∷ ms) = is_from p k m || arrived p k ms

unfoldable pub times : ℕ → ℕ → List Message → ℕ
times p k [] = 0
times p k (m ∷ ms) = if is_from p k m then suc (times p k ms) else times p k ms

module _ (m : Message) (st : Log) (p : Peer) (a : Address)
    (here : get_elem? st.perfect.peers m.sender ≡ some p)
    (addr : get_elem? st.perfect.link.addrs m.sender ≡ some a) where
  abbrev pub ack_sent : Log → Log
  ack_sent s = record s {
    perfect = record s.perfect {
      link = record s.perfect.link {
        sent = (a, record (set_ack m) { sender = s.perfect.link.id }) ∷ s.perfect.link.sent;
      };
    };
  }

  pub deliver-old :
      is_syn m ≡ true
      → contains p.delivered (seq_num m) ≡ true
      → deliver keep m st ≡ ok (ack_sent st)
  unfolding deliver deliver_new send_raw FairLoss.send
  deliver-old syn old = rw (here, syn, old, addr) refl

  abbrev pub noted : Log
  noted = set_peer st m.sender (record p { delivered = insert p.delivered (seq_num m) })

  pub deliver-fresh :
      is_syn m ≡ true
      → contains p.delivered (seq_num m) ≡ false
      → deliver keep m st ≡ ok (ack_sent (record noted { upper = m ∷ st.upper }))
  unfolding deliver deliver_new send_raw FairLoss.send set_peer
  deliver-fresh syn new = rw (here, syn, new, addr) refl

  pub deliver-ack :
      is_syn m ≡ false
      → deliver keep m st
        ≡ ok (set_peer st m.sender (record p { incoming = Queue.push m p.incoming }))
  unfolding deliver
  deliver-ack ack = rw (here, ack) refl
