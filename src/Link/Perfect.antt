-- ===== src/Link/Perfect.antt =====
-- `PerfectLink` of code/src/include/perfect-link.hpp and code/src/src/perfect-link.cpp. Its observer
-- may call back into it, so the state of the layers above travels with it, as `upper`.
pub mod Arrival
pub mod Step
pub mod Once
use cs451_2020_project.Base.{
  ℕ, ◌+◌, ◌%◌, ◌^◌, Bool, true, false, List, [], ◌∷◌, ltb, ◌==◌, if◌then◌else◌, get_elem?, set,
  replicate, Run, ok, fault, out_of_fuel, ◌>>=◌, access, map, u64_mod,
}
use cs451_2020_project.Message.{Message}
use cs451_2020_project.RollingSet.{RollingBitset, insert, contains, empty}
use cs451_2020_project.Link.SeqNum.{is_syn, set_ack, seq_num}
use cs451_2020_project.Link.FairLoss.{FairLossLink}
use cs451_2020_project.Link.FairLoss
use cs451_2020_project.Link.Queue

-- The part of a peer that the main thread uses; its worker thread takes from `incoming`.
pub record Peer : Type 0 where
  pub next_seq_num : ℕ
  pub delivered : RollingBitset
  pub incoming : List Message

abbrev pub new_peer : Peer
new_peer = record { next_seq_num = 0; delivered = empty; incoming = [] }

pub record PerfectLink : Type 0 where
  pub id : ℕ
  pub peers : List Peer
  pub link : FairLossLink

pub record Stack {ℓ} (U : Type ℓ) : Type ℓ where
  pub perfect : PerfectLink
  pub upper : U

module _ {ℓ} {U : Type ℓ} where
  unfoldable pub set_peer : Stack U → ℕ → Peer → Stack U
  set_peer st i p = record st { perfect = record st.perfect { peers = set st.perfect.peers i p } }

  unfoldable pub send_raw : Stack U → ℕ → Message → Run (Message × Stack U)
  send_raw st receiver msg = FairLoss.send receiver msg st.perfect.link >>= λ (link', msg').
      ok (msg', record st { perfect = record st.perfect { link = link' } })

module _ {ℓ} {U : Type ℓ} (observer : Message → Stack U → Run (Stack U)) where
  -- The caller's message comes back as it has been changed.
  unfoldable pub send : ℕ → Message → Stack U → Run (Message × Stack U)
  send receiver msg st = do
    peer ← access (get_elem? st.perfect.peers receiver)
    let msg' : Message = record msg { link_seq_num = peer.next_seq_num; sender = st.perfect.id }
    let counted : Peer = record peer { next_seq_num = (peer.next_seq_num + 1) % u64_mod }
    if st.perfect.id == receiver
        then (observer msg' (set_peer st receiver counted) >>= λ st'. ok (msg', st'))
        else send_raw
            (set_peer st receiver (record counted { incoming = Queue.push msg' peer.incoming }))
            receiver msg'

  -- A "Syn" that is new goes up.
  unfoldable pub deliver_new : Peer → Message → Stack U → Run (Stack U)
  deliver_new peer msg st =
      if contains peer.delivered (seq_num msg)
      then ok st
      else observer msg
          (set_peer st msg.sender (record peer { delivered = insert peer.delivered (seq_num msg) }))

  unfoldable pub deliver : Message → Stack U → Run (Stack U)
  deliver msg st = do
    peer ← access (get_elem? st.perfect.peers msg.sender)
    if is_syn msg
        then (deliver_new peer msg st >>= λ st'.
            send_raw st' msg.sender (set_ack msg) >>= λ (_, st''). ok st'')
        else ok (set_peer st msg.sender (record peer { incoming = Queue.push msg peer.incoming }))
