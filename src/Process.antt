-- ===== src/Process.antt =====
-- A process as code/src/src/main.cpp puts it together: the localized causal broadcast on top of the
-- uniform reliable, the best-effort broadcast and the perfect link.
pub mod Causality
pub mod Traffic
pub mod Steps
pub mod Loop
pub mod Configured
pub mod Output
pub mod Tests
use cs451_2020_project.Base.{ℕ, List, [], length, replicate, Run, ok, ◌>>=◌}
use cs451_2020_project.Message.{Message}
use cs451_2020_project.Config.{Dependency}
use cs451_2020_project.Link.FairLoss.{Address}
use cs451_2020_project.Link.Perfect.{Stack, new_peer}
use cs451_2020_project.Link.Perfect
use cs451_2020_project.Broadcast.BestEffort
use cs451_2020_project.Broadcast.Uniform.{Upper}
use cs451_2020_project.Broadcast.Uniform
use cs451_2020_project.Broadcast.Causal.{Causal}
use cs451_2020_project.Broadcast.Causal

abbrev pub Layers : Type 0
Layers = Stack (Upper Causal)

-- The constructors, one layer inside the other, for the hosts at `addrs`.
unfoldable pub start : ℕ → List Dependency → List Address → Layers
unfolding Uniform.start Causal.start
start id deps addrs = record {
  perfect = record {
    id = id;
    peers = replicate (length addrs) new_peer;
    link = record { id = id; addrs = addrs; sent = [] };
  };
  upper = record {
    urb = Uniform.start id (length addrs);
    top = Causal.start id deps (length addrs);
  };
}

-- `observer.deliver` of the uniform reliable broadcast.
abbrev pub hand_up : Message → Causal → Run Causal
hand_up msg top = Causal.deliver top msg

-- `deliver` of the uniform reliable broadcast, entered at most twice.
abbrev pub deliver : Message → Layers → Run Layers
deliver = Uniform.deliver hand_up 2

-- `FairLossLink::receive`: the perfect link is the observer of the link, and the best-effort broadcast
-- that of the perfect link.
unfoldable pub receive : Message → Layers → Run Layers
unfolding Perfect.deliver BestEffort.deliver
receive = Perfect.deliver (BestEffort.deliver deliver)

-- `LocalizedCausalBroadcast::send`
unfoldable pub broadcast : ℕ → Layers → Run Layers
broadcast seq_num st = do msg ← Causal.send st.upper.top; Uniform.send hand_up 2 seq_num msg st
