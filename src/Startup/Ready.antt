-- ===== src/Startup/Ready.antt =====
-- How `main` of code/src/src/main.cpp gets to its first loop.
use cs451_2020_project.Base.{
  ℕ, suc, ◌+◌, ◌%◌, ◌<◌, ◌≡◌, refl, ap, subst, true, List, [], ◌∷◌, some, length, get_elem?,
  get_elem?-inside, ok, u64_mod,
}
use cs451_2020_project.Base.Decimal.{print_number}
use cs451_2020_project.Hosts.{Host, read, hosts, local_port}
use cs451_2020_project.Args.{
  Text, Parser, id_flag, hosts_flag, barrier_flag, signal_flag, output_flag, replace_colons,
  parse_internal,
}
use cs451_2020_project.Args
use cs451_2020_project.Args.Shape.{parse_internal-printed}
use cs451_2020_project.Args.Checked.{Checked, new_parser, check_parsed}
use cs451_2020_project.Args.Checked
use cs451_2020_project.Config.{Config, parse}
use cs451_2020_project.Barrier.{new_coordinator, open_with, connect_to_host, wait_on_barrier}
use cs451_2020_project.Udp.{open_socket}
use cs451_2020_project.Logger.{new_logger}
use cs451_2020_project.Process.{start}
use cs451_2020_project.Startup.{
  Machine, done, host_addresses, read_hosts, read_config, open_log, prepare,
}

pub length-host_addresses : (hs : List Host) → length (host_addresses hs) ≡ length hs
unfolding host_addresses
length-host_addresses [] = refl
length-host_addresses (h ∷ hs) = ap suc (length-host_addresses hs)

-- A server of the command line.
abbrev pub named {ℓ} : {Line : Type ℓ} → Machine Line → Text → Host
named machine text = record (machine.read_host (replace_colons text)) { id = 0 }

module _ {ℓ} {Line : Type ℓ} (machine : Machine Line) (id : ℕ)
    (program hosts_name barrier signal output config : Text) (rest : List Text) where
  -- The documented command line.
  abbrev pub documented : List Text
  documented =
      program
      ∷ id_flag
      ∷ print_number id
      ∷ hosts_flag
      ∷ hosts_name
      ∷ barrier_flag
      ∷ barrier
      ∷ signal_flag
      ∷ signal
      ∷ output_flag
      ∷ output
      ∷ config
      ∷ rest

  abbrev members : Parser
  members = record {
    id = id;
    hosts_path = hosts_name;
    barrier = named machine barrier;
    signal = named machine signal;
    output_path = output;
    config_path = config;
  }

  abbrev checked : Checked
  checked = record { members = members; with_config = true; parsed = true }

  parse-documented :
      id < u64_mod
      → Checked.parse machine.read_host documented (new_parser true machine.members) ≡ some checked
  unfolding Checked.parse new_parser
  parse-documented fits =
      rw
        (
          parse_internal-printed machine.read_host machine.members id program hosts_name barrier
              signal output config rest fits,
          Checked.parse,
        )
        refl

  pub prepare-done :
      (lines : List Line) (hs : List Host) (first : List ℕ) (entries : List (List ℕ)) (c : Config)
      (port : ℕ) (signal_sent barrier_sent : List ℕ)
      → id < u64_mod
      → machine.hosts_file hosts_name ≡ some lines
      → hosts machine.blank machine.scan_line lines ≡ read hs
      → machine.config_file config ≡ some (first, entries)
      → parse machine.memory first entries ≡ ok c
      → machine.can_write output ≡ true
      → connect_to_host id (machine.network (named machine signal)) ≡ ok (open_with signal_sent)
      → local_port hs id ≡ some port
      → machine.socket_made ≡ true
      → machine.bound ≡ true
      → connect_to_host id (machine.network (named machine barrier)) ≡ ok (open_with barrier_sent)
      → machine.heard ≡ true
      → prepare machine documented
        ≡ ok (
            done (record {
              id = id;
              num_messages = c.m;
              log = new_logger;
              port = port;
              layers = start ((id + 255) % 256) c.deps (host_addresses hs);
              coordinator = new_coordinator id signal_sent;
              barrier_sent = barrier_sent;
            }))
  unfolding prepare check_parsed Checked.id Checked.index Checked.barrier Checked.signal
      Checked.hosts_path Checked.config_path Checked.output_path Args.index read_hosts read_config
      open_log open_socket wait_on_barrier
  prepare-done lines hs first entries c port signal_sent barrier_sent fits file read_is file' parsed
        writes signals at made bound waits heard =
      rw
        (
          parse-documented fits,
          file,
          read_is,
          file',
          parsed,
          writes,
          signals,
          at,
          made,
          bound,
          waits,
          heard,
          prepare,
          read_hosts,
          read_config,
          open_log,
          open_socket,
          wait_on_barrier,
        )
        refl

pub own_port :
    (hs : List Host)
    (ports : (i : ℕ) (h : Host)
      → get_elem? hs i ≡ some h
      → (h.id ≡ i + 1) × (local_port hs h.id ≡ some h.port))
    (i : ℕ)
    → i < length hs
    → (port : ℕ) × (local_port hs (i + 1) ≡ some port)
own_port hs ports i own =
    let (h, at) = get_elem?-inside hs i own in
    let (id_is, port_is) = ports i h at in
    (h.port, subst (λ k. local_port hs k ≡ some h.port) id_is port_is)
