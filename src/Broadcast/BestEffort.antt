-- ===== src/Broadcast/BestEffort.antt =====
-- `BestEffortBroadcast` of code/src/src/best-effort-broadcast.cpp: a message goes to the connections,
-- then to the process itself. Its own `deliver` only passes on to the observer.
use cs451_2020_project.Base.{ℕ, List, [], ◌∷◌, Run, ok, ◌>>=◌}
use cs451_2020_project.Message.{Message}
use cs451_2020_project.Link.Perfect.{Stack}
use cs451_2020_project.Link.Perfect
use cs451_2020_project.Broadcast.Ring.{create_n_connected_ring}

pub record BestEffort : Type 0 where
  pub id : ℕ
  pub connections : List ℕ

-- The constructor.
unfoldable pub start : ℕ → ℕ → BestEffort
unfolding create_n_connected_ring
start id num_hosts = record { id = id; connections = create_n_connected_ring id num_hosts }

module _ {ℓ} {U : Type ℓ} (observer : Message → Stack U → Run (Stack U)) where
  unfoldable pub deliver : Message → Stack U → Run (Stack U)
  deliver msg st = observer msg st

  -- The loop of `send`. One message object is reused for all receivers.
  unfoldable pub send_each : List ℕ → Message → Stack U → Run (Message × Stack U)
  unfolding deliver
  send_each [] msg st = ok (msg, st)
  send_each (neighbor ∷ neighbors) msg st =
      Perfect.send deliver neighbor msg st >>= λ (msg', st'). send_each neighbors msg' st'

  unfoldable pub send : BestEffort → Message → Stack U → Run (Message × Stack U)
  unfolding deliver
  send bc msg st =
      send_each bc.connections msg st >>= λ (msg', st'). Perfect.send deliver bc.id msg' st'
