-- ===== src/Startup/Whole.antt =====
-- The program of code/src/src/main.cpp from its command line to the signal that stops it.
use cs451_2020_project.Base.{
  ℕ, ◌+◌, ◌%◌, ◌^◌, ◌≤◌, ◌<◌, ◌≡◌, refl, sym, ap, subst, ◌∙◌, true, none, List, some, arith, length,
  All, ok, ok-injective,
}
use cs451_2020_project.Message.{Message, max_processes}
use cs451_2020_project.PriorityQueue.Sort
use cs451_2020_project.Hosts.{Host, host_id, read, read_lines, hosts, local_port}
use cs451_2020_project.Hosts.Order.{hosts-get_elem?}
use cs451_2020_project.Args.{Text}
use cs451_2020_project.Config.{Config, first_number, parse}
use cs451_2020_project.Barrier.{
  open_with, connect_to_host, Coordinator, new_coordinator, finished_broadcasting,
}
use cs451_2020_project.Logger.{new_logger}
use cs451_2020_project.Main.Turns.{rounds_for}
use cs451_2020_project.Process.{start}
use cs451_2020_project.Process.Traffic.{IsConfigured, IsPacket}
use cs451_2020_project.Process.Configured.{IsEntry, parse-IsConfigured}
use cs451_2020_project.Startup.{Machine, Program, Stopped, done, host_addresses, main}
use cs451_2020_project.Startup.Through.{IsComplete, work_through-IsComplete}
use cs451_2020_project.Startup.Ready.{
  length-host_addresses, named, documented, prepare-done, own_port,
}

-- With the documented command line for process `i + 1` of 3 to 128; a hosts file that is accepted and
-- has `n` hosts and none twice; a configuration file with one line for each process, in any order, each
-- with at most 128 dependencies among them, and fewer than 2 ^ 32 messages to send; a log that can be
-- written, servers that take the connections and let go, and a socket. Whatever comes from known
-- processes, acknowledgements and messages in the shape in which processes with the same configuration
-- send them, in any order and any number of times, while `main` broadcasts and after that: it does not
-- fault, it has the port of its own host and the number of messages of the configuration, it closes the
-- connection to the signal server, and its log has the lines of events in which its own messages stand
-- in the order of their numbers, all of them and each once, and those handed up in causal order.
pub main-lines {ℓ} :
    {Line : Type ℓ} (machine : Machine Line) (i n : ℕ)
    (program hosts_name barrier signal output config : Text) (rest : List Text) (lines : List Line)
    (found hs : List Host) (first : List ℕ) (entries : List (List ℕ)) (c : Config)
    (signal_sent barrier_sent : List ℕ) (arrivals : ℕ → List Message) (after : List Message)
    → i < n
    → 3 ≤ n
    → n ≤ max_processes
    → machine.hosts_file hosts_name ≡ some lines
    → read_lines machine.blank machine.scan_line 0 lines ≡ read found
    → Sort.IsDistinct host_id found
    → hosts machine.blank machine.scan_line lines ≡ read hs
    → length hs ≡ n
    → machine.config_file config ≡ some (first, entries)
    → max_processes ≤ length machine.memory
    → length entries ≡ n
    → All (IsEntry n) entries
    → Sort.IsDistinct first_number entries
    → parse machine.memory first entries ≡ ok c
    → c.m < 2 ^ 32
    → machine.can_write output ≡ true
    → connect_to_host (i + 1) (machine.network (named machine signal)) ≡ ok (open_with signal_sent)
    → machine.socket_made ≡ true
    → machine.bound ≡ true
    → connect_to_host (i + 1) (machine.network (named machine barrier))
      ≡ ok (open_with barrier_sent)
    → machine.heard ≡ true
    → ((k : ℕ) → All (IsPacket n c.deps) (arrivals k))
    → All (IsPacket n c.deps) after
    → (s : Stopped) × (main machine
          (documented machine (i + 1) program hosts_name barrier signal output config rest)
          (rounds_for c.m)
          arrivals
          after
        ≡ ok (done s))
      × (local_port hs (i + 1) ≡ some s.program.port)
      × (s.program.num_messages ≡ c.m)
      × (s.coordinator.signal_fd ≡ none)
      × IsComplete c.deps c.m s.output
unfolding main finished_broadcasting
main-lines machine i n program hosts_name barrier signal output config rest lines found hs first
      entries c signal_sent barrier_sent arrivals after own three few file lines_are apart read_is
      count file' room len good apart' parsed small writes signals made bound waits heard packets
      packets' =
    let (port, at) =
      own_port hs
        (λ k h e.
          let (id_is, _, port_is) =
            hosts-get_elem? machine.blank machine.scan_line lines found hs k h lines_are apart
              read_is e in
          (id_is, port_is))
        i (omega (arith, own, count)) in
    let (c', run', entry) =
      parse-IsConfigured machine.memory first n entries few room len good apart' in
    let same : c' ≡ c = ok-injective (sym run' ∙ parsed) in
    let mine : IsConfigured i c.deps =
      subst (λ (x : Config). IsConfigured i x.deps) same (entry i own) in
    let addrs = host_addresses hs in
    let size : length addrs ≡ n = length-host_addresses hs ∙ count in
    let index_is : (i + 1 + 255) % 256 ≡ i = omega (arith, own, few) in
    let p : Program = record {
      id = i + 1;
      num_messages = c.m;
      log = new_logger;
      port = port;
      layers = start ((i + 1 + 255) % 256) c.deps addrs;
      coordinator = new_coordinator (i + 1) signal_sent;
      barrier_sent = barrier_sent;
    } in
    let ready =
      prepare-done machine (i + 1) program hosts_name barrier signal output config rest lines hs
        first entries c port signal_sent barrier_sent (omega (arith, own, few)) file read_is file'
        parsed writes signals at made bound waits heard in
    let (s, run, from, closed, complete) =
      work_through-IsComplete i c.deps addrs (omega (arith, own, size)) (omega (arith, three, size))
        (omega (arith, few, size)) mine p arrivals after small
        (ap (λ z. start z c.deps addrs) index_is) refl
        (λ k. subst (λ z. All (IsPacket z c.deps) (arrivals k)) (sym size) (packets k))
        (subst (λ z. All (IsPacket z c.deps) after) (sym size) packets') in
    (
      s,
      rw (ready, main) run,
      subst (λ (q : Program). local_port hs (i + 1) ≡ some q.port) (sym from) at,
      subst (λ (q : Program). q.num_messages ≡ c.m) (sym from) refl,
      ap (λ (x : Coordinator). x.signal_fd) closed,
      complete,
    )
