-- ===== src/Process/Output.antt =====
-- A process with its log: `Logger` of code/src/src/logger.cpp is the observer of the top layer in
-- code/src/src/main.cpp, and takes down what the process broadcasts.
pub mod Lines
pub mod Written
use cs451_2020_project.Base.{ℕ, ◌-◌, List, [], ◌∷◌, length, take, Run, ok, ◌>>=◌}
use cs451_2020_project.Message.{Message}
use cs451_2020_project.Config.{Dependency}
use cs451_2020_project.Link.FairLoss.{Address}
use cs451_2020_project.Logger.{Logger, new_logger, log_broadcast, flush}
use cs451_2020_project.Logger
use cs451_2020_project.Process.{Layers, start}
use cs451_2020_project.Process

pub record Output : Type 0 where
  pub layers : Layers
  pub logger : Logger

-- The calls of `observer.deliver` for the messages, of which the last one stands first.
unfoldable pub deliver_all : Logger → List Message → Logger
deliver_all l [] = l
deliver_all l (m ∷ ms) = Logger.deliver (deliver_all l ms) m

-- What the observer of the top layer has got since.
unfoldable pub handed_up : Layers → Layers → List Message
handed_up before after =
    take (length after.upper.top.log - length before.upper.top.log) after.upper.top.log

unfoldable pub begin : ℕ → List Dependency → List Address → Output
begin id deps addrs = record { layers = start id deps addrs; logger = new_logger }

-- `link.receive(*maybe_msg);`
unfoldable pub receive : Message → Output → Run Output
unfolding deliver_all handed_up
receive msg o = Process.receive msg o.layers >>= λ st.
    ok (record { layers = st; logger = deliver_all o.logger (handed_up o.layers st) })

-- `broadcast.send(next_msg); log.log_broadcast(next_msg);`
unfoldable pub broadcast : ℕ → Output → Run Output
unfolding deliver_all handed_up
broadcast next_msg o = Process.broadcast next_msg o.layers >>= λ st. ok (record {
  layers = st;
  logger = log_broadcast (deliver_all o.logger (handed_up o.layers st)) next_msg;
})

-- What the file holds once the signal handler has run: it writes what is left, and exits.
unfoldable pub stop : Output → List ℕ
stop o = (flush o.logger).file
