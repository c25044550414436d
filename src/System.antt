-- ===== src/System.antt =====
-- All processes of code/src/src/main.cpp with the network between them: the main thread of each, its
-- worker threads, and datagrams that may be lost, repeated, reordered and misdirected.
pub mod Heard
pub mod History
pub mod Sites
pub mod Moves
pub mod Reached
pub mod Delivery
pub mod Threads
pub mod Tests
use cs451_2020_project.Base.{
  ℕ, ◌+◌, ◌^◌, ◌<◌, ◌≡◌, ◌≢◌, List, [], ◌∷◌, some, length, get_elem?, update, Run, ok, ◌>>=◌, ◌==◌,
  if◌then◌else◌, suc,
}
use cs451_2020_project.Message.{Message}
use cs451_2020_project.Config.{Dependency}
use cs451_2020_project.Link.FairLoss.{Address}
use cs451_2020_project.Link.Thread.{Thread, fresh_thread, run_round}
use cs451_2020_project.Broadcast.Causal
use cs451_2020_project.Process.{Layers, start, receive, broadcast}

-- A process: its layers, and the worker thread for each peer.
pub record Site : Type 0 where
  pub layers : Layers
  pub threads : ℕ → Thread

abbrev pub fresh_site : ℕ → List Dependency → List Address → Site
fresh_site id deps addrs = record { layers = start id deps addrs; threads = λ _. fresh_thread }

-- A round of the worker thread for `j`.
unfoldable pub work : Site → ℕ → ℕ → ℕ → Run Site
unfolding run_round
work s j now later = run_round s.layers (s.threads j) j now later >>= λ (layers, t).
    ok (record { layers = layers; threads = update s.threads j t })

-- A message that has been broadcast, and what its originator had handed up by then.
pub record Said : Type 0 where
  pub message : Message
  pub past : List Message

pub record System : Type 0 where
  pub sites : ℕ → Site
  pub history : List Said  -- the last one first

-- How many messages a process has broadcast.
abbrev pub number_said : ℕ → List Said → ℕ
number_said i [] = 0
number_said i (x ∷ xs) =
    if x.message.originator == i then suc (number_said i xs) else number_said i xs

-- A step of the system, at process `i`.
pub data Step (n : ℕ) (s s' : System) : Type 0 where
  broadcasts :
      (i k : ℕ) (m : Message) (layers : Layers)
      → i < n
      → k ≡ number_said i s.history
      → k + 1 < 2 ^ 32
      → Causal.send (s.sites i).layers.upper.top ≡ ok m
      → broadcast k (s.sites i).layers ≡ ok layers
      → s' ≡ record {
        sites = update s.sites i (record (s.sites i) { layers = layers });
        history =
            record {
              message = record m { originator = i; bcast_seq_num = k };
              past = (s.sites i).layers.upper.top.log;
            }
            ∷ s.history;
      }
      → Step n s s'
  works :
      (i j now later : ℕ) (site : Site)
      → i < n
      → j < n
      → work (s.sites i) j now later ≡ ok site
      → s' ≡ record s { sites = update s.sites i site }
      → Step n s s'
  receives :
      (i j at : ℕ) (to : Address) (m : Message) (layers : Layers)
      → i < n
      → j < n
      → get_elem? (s.sites j).layers.perfect.link.sent at ≡ some (to, m)
      → receive m (s.sites i).layers ≡ ok layers
      → s' ≡ record s { sites = update s.sites i (record (s.sites i) { layers = layers }) }
      → Step n s s'

abbrev pub initial : List Dependency → List Address → System
initial deps addrs = record { sites = λ i. fresh_site i deps addrs; history = [] }

pub data Reach (deps : List Dependency) (addrs : List Address) : System → Type 0 where
  begins : {s : System} → s ≡ initial deps addrs → Reach deps addrs s
  goes_on : {s s' : System} → Reach deps addrs s → Step (length addrs) s s' → Reach deps addrs s'
