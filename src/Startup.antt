-- ===== src/Startup.antt =====
-- `main` of code/src/src/main.cpp. Before its first loop: the command line, the hosts and configuration
-- files, the log, the servers, the socket and the layers, in this order.
pub mod Ready
pub mod Through
pub mod Whole
pub mod Tests
use cs451_2020_project.Base.{
  ℕ, Bool, true, false, List, [], ◌∷◌, ◌++◌, Option, none, some, if◌then◌else◌, Run, ok, fault,
  out_of_fuel,
}
use cs451_2020_project.Hosts.{Host, Hosts, read, hosts, local_port}
use cs451_2020_project.Args.{Text, Parser}
use cs451_2020_project.Args.Checked.{Checked, Got, got, new_parser}
use cs451_2020_project.Args.Checked
use cs451_2020_project.Config.{Config, parse}
use cs451_2020_project.Barrier.{
  Network, Connection, open_with, Coordinator, new_coordinator, finished_broadcasting,
  connect_to_host, Waited, passed, wait_on_barrier,
}
use cs451_2020_project.Udp.{Called, returned, thrown, socket_address, open_socket}
use cs451_2020_project.Logger.{Logger, new_logger}
use cs451_2020_project.Link.FairLoss.{Address}
use cs451_2020_project.Message.{Message}
use cs451_2020_project.Main.{sending, receiving}
use cs451_2020_project.Process.{Layers, start}
use cs451_2020_project.Process.Output.{Output}
use cs451_2020_project.Process.Output

-- Why the program ends early: an exception that nothing catches.
pub data Reason : Type 0 where
  not_asked : Reason  -- a member of the parser before `parse`
  bad_hosts : Reason
  no_config_file : Reason
  no_log : Reason
  no_coordinator : Reason
  no_own_host : Reason
  no_socket : Reason
  no_barrier : Reason

pub data Outcome {ℓ} (A : Type ℓ) : Type ℓ where
  done : A → Outcome A
  shows_usage : Outcome A
  throws : Reason → Outcome A

infixl 5 ◌>>=◌
abbrev pub ◌>>=◌ {ℓ κ} :
    {A : Type ℓ} {B : Type κ} → Run (Outcome A) → (A → Run (Outcome B)) → Run (Outcome B)
ok (done a) >>= f = f a
ok shows_usage >>= f = ok shows_usage
ok (throws r) >>= f = ok (throws r)
fault >>= f = fault
out_of_fuel >>= f = out_of_fuel

-- Answers of the parts of the program, as outcomes.
abbrev pub or_usage {ℓ} : {A : Type ℓ} → Option A → Run (Outcome A)
or_usage (some a) = ok (done a)
or_usage none = ok shows_usage

abbrev pub or_throw {ℓ} : {A : Type ℓ} → Reason → Option A → Run (Outcome A)
or_throw r (some a) = ok (done a)
or_throw r none = ok (throws r)

abbrev pub asked {ℓ} : {A : Type ℓ} → Got A → Run (Outcome A)
asked (got a) = ok (done a)
asked other = ok (throws not_asked)

abbrev pub found : Hosts → Run (Outcome (List Host))
found (read hs) = ok (done hs)
found other = ok (throws bad_hosts)

abbrev pub configured : Run Config → Run (Outcome Config)
configured (ok c) = ok (done c)
configured fault = fault
configured out_of_fuel = out_of_fuel

abbrev pub signalled : Run Connection → Run (Outcome (List ℕ))
signalled (ok (open_with sent)) = ok (done sent)
signalled (ok other) = ok (throws no_coordinator)
signalled fault = fault
signalled out_of_fuel = out_of_fuel

abbrev pub let_go : Run Waited → Run (Outcome (List ℕ))
let_go (ok (passed sent)) = ok (done sent)
let_go (ok other) = ok (throws no_barrier)
let_go fault = fault
let_go out_of_fuel = out_of_fuel

abbrev pub opened : Called (Unit {0}) → Run (Outcome (Unit {0}))
opened (returned t) = ok (done t)
opened thrown = ok (throws no_socket)

-- What the system answers. A file that cannot be opened is `none`.
pub record Machine {ℓ} (Line : Type ℓ) : Type ℓ where
  pub read_host : Text → Host
  pub members : Parser
  pub hosts_file : Text → Option (List Line)
  pub blank : Line → Bool
  pub scan_line : Line → Option Host
  pub memory : List ℕ
  pub config_file : Text → Option (List ℕ × List (List ℕ))
  pub can_write : Text → Bool
  pub network : Host → Network
  pub heard : Bool
  pub socket_made : Bool
  pub bound : Bool

-- A process at its first loop.
pub record Program : Type 0 where
  pub id : ℕ
  pub num_messages : ℕ
  pub log : Logger
  pub port : ℕ
  pub layers : Layers
  pub coordinator : Coordinator
  pub barrier_sent : List ℕ

unfoldable pub host_addresses : List Host → List Address
unfolding socket_address
host_addresses [] = []
host_addresses (h ∷ hs) = socket_address h.ip h.port ∷ host_addresses hs

module _ {ℓ} {Line : Type ℓ} (machine : Machine Line) where
  -- `parser.hosts()`
  unfoldable pub read_hosts : Checked → Run (Outcome (List Host))
  unfolding Checked.hosts_path
  read_hosts parser = do
    path ← asked (Checked.hosts_path parser)
    lines ← or_throw bad_hosts (machine.hosts_file path)
    found (hosts machine.blank machine.scan_line lines)

  -- `ConfigParser config(parser.configPath())`
  unfoldable pub read_config : Checked → Run (Outcome Config)
  unfolding Checked.config_path
  read_config parser = do
    path ← asked (Checked.config_path parser)
    (first, lines) ← or_throw no_config_file (machine.config_file path)
    configured (parse machine.memory first lines)

  -- `logger(parser.outputPath())`
  unfoldable pub open_log : Checked → Run (Outcome Logger)
  unfolding Checked.output_path
  open_log parser = do
    path ← asked (Checked.output_path parser)
    if machine.can_write path then ok (done new_logger) else ok (throws no_log)

  -- From the constructor of the parser up to the barrier.
  unfoldable pub prepare : List Text → Run (Outcome Program)
  unfolding new_parser Checked.parse Checked.id Checked.barrier Checked.signal Checked.index
      read_hosts read_config open_log connect_to_host wait_on_barrier host_addresses new_coordinator
  prepare argv = do
    parser ← or_usage (Checked.parse machine.read_host argv (new_parser true machine.members))
    id ← asked (Checked.id parser)
    hs ← read_hosts parser
    barrier ← asked (Checked.barrier parser)
    signal ← asked (Checked.signal parser)
    config ← read_config parser
    log ← open_log parser
    signal_sent ← signalled (connect_to_host id (machine.network signal))
    port ← or_throw no_own_host (local_port hs id)
    socket ← opened (open_socket machine.socket_made machine.bound)
    index ← asked (Checked.index parser)
    barrier_sent ← let_go (wait_on_barrier id (machine.network barrier) machine.heard)
    ok (
        done (record {
          id = id;
          num_messages = config.m;
          log = log;
          port = port;
          layers = start index config.deps (host_addresses hs);
          coordinator = new_coordinator id signal_sent;
          barrier_sent = barrier_sent;
        }))

abbrev pub as_outcome {ℓ} : {A : Type ℓ} → Run A → Run (Outcome A)
as_outcome (ok a) = ok (done a)
as_outcome fault = fault
as_outcome out_of_fuel = out_of_fuel

-- The program when it has been stopped, by a signal that comes after all that it has received.
pub record Stopped : Type 0 where
  pub program : Program
  pub coordinator : Coordinator
  pub output : Output

-- After the barrier: the loop that broadcasts, for what comes in its rounds, then the message to the
-- signal server, and the loop that goes on receiving, for what is left in the queue and what comes.
unfoldable pub work_through :
    ℕ → (ℕ → List Message) → List Message → Program → Run (Outcome Stopped)
unfolding sending receiving Output.receive Output.broadcast finished_broadcasting
work_through rounds arrivals after p = do
  t ← as_outcome (
      sending Output.receive Output.broadcast p.num_messages rounds arrivals
        (record { layers = p.layers; logger = p.log }))
  o ←
      as_outcome (
        receiving Output.receive Output.broadcast p.num_messages (t.message_queue ++ after)
          t.layers)
  ok (done (record { program = p; coordinator = finished_broadcasting p.coordinator; output = o }))

unfoldable pub main {ℓ} :
    {Line : Type ℓ}
    → Machine Line
    → List Text
    → ℕ
    → (ℕ → List Message)
    → List Message
    → Run (Outcome Stopped)
unfolding prepare work_through
main machine argv rounds arrivals after =
    prepare machine argv >>= work_through rounds arrivals after
