-- ===== src/Startup/Tests.antt =====
-- Examples for the start of the program.
use cs451_2020_project.Base.{
  ℕ, ◌+◌, ◌≡◌, refl, arith, true, false, List, [], ◌∷◌, some, none, replicate, ok,
}
use cs451_2020_project.StaticVec
use cs451_2020_project.StaticVec.{StaticVec}
use cs451_2020_project.PriorityQueue
use cs451_2020_project.Message.Wire
use cs451_2020_project.Hosts
use cs451_2020_project.Hosts.{Host, read, read_lines, hosts, local_port}
use cs451_2020_project.Args.{Text}
use cs451_2020_project.Config
use cs451_2020_project.Config.{Config, Dependency, parse}
use cs451_2020_project.Barrier
use cs451_2020_project.Barrier.{open_with, wrote, connect_to_host}
use cs451_2020_project.Main.Turns.{rounds_for}
use cs451_2020_project.Startup.{Machine, Stopped, done, main}
use cs451_2020_project.Startup.Through.{IsComplete}
use cs451_2020_project.Startup.Ready.{named, documented}
use cs451_2020_project.Startup.Whole.{main-lines}

abbrev host : ℕ → Host
host k = record { id = k; ip = 1; port = 11000 + k }

-- A line of the hosts file is a process, in the order 2, 1, 3; the servers take all bytes at once.
abbrev machine : Machine ℕ
machine = record {
  read_host = λ text. record { id = 0; ip = 1; port = 10000 };
  members = record {
    id = 0;
    hosts_path = [];
    barrier = host 0;
    signal = host 0;
    output_path = [];
    config_path = [];
  };
  hosts_file = λ path. some (2 ∷ 1 ∷ 3 ∷ []);
  blank = λ line. false;
  scan_line = λ line. some (host line);
  memory = replicate 128 0;
  config_file = λ path. some (2 ∷ [], (1 ∷ []) ∷ (3 ∷ 1 ∷ []) ∷ (2 ∷ 1 ∷ []) ∷ []);
  can_write = λ path. true;
  network = λ server. record { socket_made = true; connected = true; answers = wrote 8 ∷ [] };
  heard = true;
  socket_made = true;
  bound = true;
}

abbrev none_needed : StaticVec ℕ
none_needed = record { storage = replicate 128 0; sz = 0 }

abbrev one_needed : StaticVec ℕ
one_needed = record { storage = replicate 128 0; sz = 1 }

abbrev config : Config
config = record {
  m = 2;
  deps =
      record { process = 1; depends = none_needed }
      ∷ record { process = 2; depends = one_needed }
      ∷ record { process = 3; depends = one_needed }
      ∷ [];
}

abbrev id_bytes : List ℕ
id_bytes = 0 ∷ 0 ∷ 0 ∷ 0 ∷ 0 ∷ 0 ∷ 0 ∷ 3 ∷ []

lines_are :
    read_lines machine.blank machine.scan_line 0 (2 ∷ 1 ∷ 3 ∷ [])
    ≡ read (host 2 ∷ host 1 ∷ host 3 ∷ [])
unfolding Hosts.read_lines
lines_are = refl

hosts_are :
    hosts machine.blank machine.scan_line (2 ∷ 1 ∷ 3 ∷ []) ≡ read (host 1 ∷ host 2 ∷ host 3 ∷ [])
unfolding Hosts.read_lines Hosts.hosts Hosts.check_hosts Hosts.least Hosts.greatest Hosts.sort
    PriorityQueue.sort_by PriorityQueue.push
hosts_are = refl

config_is :
    parse (replicate 128 0) (2 ∷ []) ((1 ∷ []) ∷ (3 ∷ 1 ∷ []) ∷ (2 ∷ 1 ∷ []) ∷ []) ≡ ok config
unfolding Config.parse Config.parse_dependencies Config.parse_dependency Config.push_dependencies
    Config.sort_dependencies StaticVec.push_back PriorityQueue.sort_by PriorityQueue.push
config_is = refl

connects :
    (text : Text)
    → connect_to_host 3 (machine.network (named machine text)) ≡ ok (open_with id_bytes)
unfolding Barrier.connect_to_host Barrier.write_with_retry Barrier.hton Barrier.reverse_bytes
    Wire.bytes_of
connects text = refl

main-lines_example :
    (s : Stopped) × (main machine
        (documented machine 3 [] [] [] [] [] [] [])
        (rounds_for 2)
        (λ k. [])
        []
      ≡ ok (done s))
    × (local_port (host 1 ∷ host 2 ∷ host 3 ∷ []) 3 ≡ some s.program.port)
    × (s.program.num_messages ≡ 2)
    × (s.coordinator.signal_fd ≡ none)
    × IsComplete config.deps 2 s.output
main-lines_example =
    main-lines machine 2 3 [] [] [] [] [] [] [] (2 ∷ 1 ∷ 3 ∷ []) (host 2 ∷ host 1 ∷ host 3 ∷ [])
      (host 1 ∷ host 2 ∷ host 3 ∷ []) (2 ∷ []) ((1 ∷ []) ∷ (3 ∷ 1 ∷ []) ∷ (2 ∷ 1 ∷ []) ∷ []) config
      id_bytes id_bytes (λ k. []) [] (omega arith) (omega arith) (omega arith) refl lines_are
      (ground arith) hosts_are refl refl (omega arith) refl (ground arith) (ground arith) config_is
      (omega arith) refl (connects []) refl refl (connects []) refl (λ k. tt) tt
