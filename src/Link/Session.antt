-- ===== src/Link/Session.antt =====
-- Two processes that talk over perfect links, code/src/src/perfect-link.cpp: the main thread and the
-- worker thread of each side, and a network that may lose, repeat and reorder what is sent.
pub mod View
pub mod Simulate
pub mod Both
pub mod Sending
pub mod Working
pub mod Arriving
pub mod Kept
pub mod Reliable
pub mod Tests
use cs451_2020_project.Base.{
  ℕ, ◌<◌, ◌^◌, ◌≡◌, List, [], ◌∷◌, some, get_elem?, Run, ok, fault, out_of_fuel, ◌>>=◌, access,
}
use cs451_2020_project.Message.{Message}
use cs451_2020_project.Link.FairLoss.{Address}
use cs451_2020_project.Link.Perfect.{Peer, set_peer, send, deliver}
use cs451_2020_project.Link.Perfect.Arrival.{Log, keep}
use cs451_2020_project.Link.Perfect.Once.{started}
use cs451_2020_project.Link.Thread.{run_round}
use cs451_2020_project.Link.Worker.{Worker, Entry, round}

-- A process with the worker thread for the other one. The queue of the thread is the peer's.
pub record Side : Type 0 where
  pub log : Log
  pub scheduled : List Entry
  pub acknowledged : List ℕ

abbrev pub fresh_side : ℕ → List Address → Side
fresh_side id addrs = record { log = started id addrs; scheduled = []; acknowledged = [] }

-- A round of the thread that sends to `j`.
unfoldable pub work : Side → ℕ → ℕ → ℕ → Run Side
unfolding run_round
work s j now later =
    run_round s.log (record { scheduled = s.scheduled; acknowledged = s.acknowledged }) j now later
    >>= λ (log', t).
        ok (record { log = log'; scheduled = t.scheduled; acknowledged = t.acknowledged })

-- What happens at process `a`, the other being `b` in state `y`. Numbers have 63 bits. The network
-- may hand over what `b` has sent at any time, any number of times, or never.
pub data Act (a b : ℕ) (x y x' : Side) : Type 0 where
  sends :
      (m m' : Message) (p : Peer) (log' : Log)
      → get_elem? x.log.perfect.peers b ≡ some p
      → p.next_seq_num < 2 ^ 63
      → send keep b m x.log ≡ ok (m', log')
      → x' ≡ record x { log = log' }
      → Act a b x y x'
  works : (now later : ℕ) → work x b now later ≡ ok x' → Act a b x y x'
  receives :
      (i : ℕ) (to : Address) (m : Message) (log' : Log)
      → get_elem? y.log.perfect.link.sent i ≡ some (to, m)
      → deliver keep m x.log ≡ ok log'
      → x' ≡ record x { log = log' }
      → Act a b x y x'

pub data Reach (a b : ℕ) (addrs : List Address) : Side → Side → Type 0 where
  start : {x y : Side} → x ≡ fresh_side a addrs → y ≡ fresh_side b addrs → Reach a b addrs x y
  left : {w x y : Side} → Reach a b addrs w y → Act a b w y x → Reach a b addrs x y
  right : {w x y : Side} → Reach a b addrs x w → Act b a w x y → Reach a b addrs x y
