-- ===== src/Process/Tests.antt =====
-- Examples for a process.
use cs451_2020_project.Base.{
  ℕ, ◌^◌, ◌<◌, ◌≡◌, refl, false, List, [], ◌∷◌, replicate, set, some, arith, ok,
  get_elem?-replicate_same,
}
use cs451_2020_project.StaticVec.{StaticVec, index}
use cs451_2020_project.Message.{Message, max_processes}
use cs451_2020_project.Config.{Dependency}
use cs451_2020_project.Link.FairLoss.{Address}
use cs451_2020_project.Link.SeqNum.{is_syn}
use cs451_2020_project.Broadcast.Causal.Log.{IsCausal}
use cs451_2020_project.Main.{Turn, sending}
use cs451_2020_project.Main.Turns.{rounds_for}
use cs451_2020_project.Process.{Layers, start, receive, broadcast}
use cs451_2020_project.Process.Traffic.{IsConfigured, IsPacket}
use cs451_2020_project.Logger.{Event, new_logger, run, lines}
use cs451_2020_project.Process.Output.{Output, begin}
use cs451_2020_project.Process.Output
use cs451_2020_project.Process.Output.Lines.{received_in, sent_in, below}
use cs451_2020_project.Process.Output.Written.{broadcast-lines}
use cs451_2020_project.Process.Loop.{process-IsCausal}

abbrev none_needed : StaticVec ℕ
none_needed = record { storage = replicate 128 0; sz = 0 }

abbrev one_needed : StaticVec ℕ
one_needed = record { storage = replicate 128 0; sz = 1 }

-- Processes 1 and 2 depend on process 0.
abbrev deps : List Dependency
deps =
    record { process = 1; depends = none_needed }
    ∷ record { process = 2; depends = one_needed }
    ∷ record { process = 3; depends = one_needed }
    ∷ []

abbrev addrs : List Address
addrs =
    record { ip = 1; port = 11001 }
    ∷ record { ip = 1; port = 11002 }
    ∷ record { ip = 1; port = 11003 }
    ∷ []

-- A message of process 1 that depends on one of process 0, and the acknowledgement of process 0 for
-- the first message to it.
abbrev effect : Message
effect = record {
  link_seq_num = 0;
  bcast_seq_num = 0;
  originator = 1;
  sender = 1;
  vector_clock = record { storage = set (replicate 128 0) 0 1; sz = 1 };
}

abbrev ack : Message
ack = record {
  link_seq_num = 2 ^ 63;
  bcast_seq_num = 0;
  originator = 2;
  sender = 0;
  vector_clock = none_needed;
}

one_needed-small : (i p : ℕ) → index one_needed i ≡ some p → p < max_processes
one_needed-small i p e = omega (arith, get_elem?-replicate_same 128 0 i p e)

effect-IsPacket : IsPacket 3 deps effect
effect-IsPacket = record {
  from = omega arith;
  sendable = λ syn. record {
    host = omega arith;
    small = omega arith;
    covered = record {
      dep = record { process = 2; depends = one_needed };
      found = refl;
      clock_fits = omega arith;
      depends_fit = omega arith;
      processes = λ i p h e. one_needed-small i p e;
    };
  };
}

ack-is_syn : is_syn ack ≡ false
unfolding is_syn
ack-is_syn = refl

ack-IsPacket : IsPacket 3 deps ack
ack-IsPacket = record { from = omega arith; sendable = λ syn. absurd (cc (syn, ack-is_syn)) }

configured : IsConfigured 2 deps
configured = record {
  dep = record { process = 3; depends = one_needed };
  mine = refl;
  known = (omega arith, tt);
  room = omega arith;
}

process-IsCausal_example :
    (t : Turn Layers) × (sending receive broadcast 5
        (rounds_for 5)
        (λ _. effect ∷ ack ∷ [])
        (start 2 deps addrs)
      ≡ ok t)
    × (t.next_msg ≡ 5)
    × IsCausal deps t.layers.upper.top.log
process-IsCausal_example =
    process-IsCausal 2 deps addrs (omega arith) (omega arith) (omega arith) 5
      (λ _. effect ∷ ack ∷ []) configured (omega arith) λ k. (effect-IsPacket, (ack-IsPacket, tt))

broadcast-lines_example :
    (t : Turn Output) × (es : List Event) × (sending Output.receive Output.broadcast 5
        (rounds_for 5)
        (λ _. effect ∷ ack ∷ [])
        (begin 2 deps addrs)
      ≡ ok t)
    × (t.next_msg ≡ 5)
    × (t.layers.logger ≡ run new_logger es)
    × (t.layers.logger.buffer ≡ lines es)
    × (sent_in es [] ≡ below 5)
    × (received_in es [] ≡ t.layers.layers.upper.top.log)
    × IsCausal deps (received_in es [])
broadcast-lines_example =
    broadcast-lines 2 deps addrs 5 (λ _. effect ∷ ack ∷ []) (omega arith) (omega arith)
      (omega arith) configured (omega arith) λ k. (effect-IsPacket, (ack-IsPacket, tt))
