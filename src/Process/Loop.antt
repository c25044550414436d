-- ===== src/Process/Loop.antt =====
-- The whole of a process: the loop of code/src/src/main.cpp over its layers.
use cs451_2020_project.Base.{
  ℕ, zero, suc, ◌^◌, ◌≤◌, ◌<◌, ◌≡◌, refl, ap, subst, true, false, Bool, List, [], length,
  length-replicate, replicate, arith, All, All-replicate, ok, u64_mod,
}
use cs451_2020_project.Message.{Message, max_processes}
use cs451_2020_project.Config.{Dependency}
use cs451_2020_project.RollingSet.{empty}
use cs451_2020_project.Link.FairLoss.{Address}
use cs451_2020_project.Link.Perfect.{new_peer}
use cs451_2020_project.Link.Perfect.Once.{empty_heard}
use cs451_2020_project.Broadcast.BestEffort
use cs451_2020_project.Broadcast.Ring.Others.{create_n_connected_ring-others}
use cs451_2020_project.Broadcast.Uniform
use cs451_2020_project.Broadcast.Uniform.Sets.{has, AreValid}
use cs451_2020_project.Broadcast.Causal.{weigh, weigh_all}
use cs451_2020_project.Broadcast.Causal
use cs451_2020_project.Broadcast.Causal.Log.{IsCausal}
use cs451_2020_project.Broadcast.Causal.Start.{start-IsValid}
use cs451_2020_project.Main.{Turn, sending}
use cs451_2020_project.Main.Turns.{rounds_for, sending-ends}
use cs451_2020_project.Process.{Layers, start, receive, broadcast}
use cs451_2020_project.Link.SeqNum.{set_ack}
use cs451_2020_project.Process.Causality.{outside, unheard, IsSendable, IsSendable-same}
use cs451_2020_project.Process.Traffic.{IsConfigured, IsPacket, IsTraffic}
use cs451_2020_project.Process.Steps.{IsRunning, receive-Ended, broadcast-Ended}

-- An acknowledgement has no clocks, and is in shape as its message is.
pub set_ack-IsSendable :
    (n id : ℕ) (deps : List Dependency) (m : Message)
    → IsSendable n deps m
    → IsSendable n deps (record (set_ack m) { sender = id })
unfolding set_ack
set_ack-IsSendable n id deps m s =
    let c = s.covered in
    record {
      host = s.host;
      small = s.small;
      covered = record {
        dep = c.dep;
        found = c.found;
        clock_fits = omega arith;
        depends_fit = omega arith;
        processes = λ i p h e. absurd (omega (arith, h));
      };
    }

pub IsPacket-IsTraffic :
    (n : ℕ) (deps : List Dependency) → IsTraffic n deps (λ _. true) (IsPacket n deps)
IsPacket-IsTraffic n deps = record {
  same = λ m m' same clock h. refl;
  from = λ m p. p.from;
  good = λ m p syn. (p.sendable syn, refl);
  stamps = λ id m own g m' same clock low from. record {
    from = omega (arith, from, own);
    sendable = λ syn. IsSendable-same n deps m m' same clock g.0;
  };
  acks = λ id m own p syn. record {
    from = own;
    sendable = λ _. set_ack-IsSendable n id deps m (p.sendable syn);
  };
}

empty-AreValid : (n : ℕ) → AreValid n (replicate n empty)
empty-AreValid zero = (refl, tt)
empty-AreValid (suc n) = let (len, all) = empty-AreValid n in (ap suc len, (empty_heard.0, all))

has-empty : (n o k : ℕ) → k < u64_mod → has (replicate n empty) o k ≡ false
has-empty zero o k h = refl
has-empty (suc n) zero k h = empty_heard.1 k h
has-empty (suc n) (suc o) k h = has-empty n o k h

weigh_all-empty : (w : Message → ℕ) (n : ℕ) → weigh_all w (replicate n []) ≡ 0
unfolding weigh_all weigh
weigh_all-empty w zero = refl
weigh_all-empty w (suc n) = omega (arith, weigh_all-empty w n)

module _ (id : ℕ) (deps : List Dependency) (addrs : List Address) (own : id < length addrs)
    (three : 3 ≤ length addrs) (few : length addrs ≤ max_processes) where
  -- The constructors make a process that is running.
  pub start-IsRunning :
      (heard : Message → Bool) (IsFine : Message → Type 0)
      (traffic : IsTraffic (length addrs) deps heard IsFine)
      → IsRunning (length addrs) id own few deps heard [] IsFine traffic (start id deps addrs)
  unfolding start Uniform.start Causal.start BestEffort.start weigh
  start-IsRunning heard IsFine traffic = record {
    linked = record { own = refl; peers = length-replicate (length addrs) new_peer; addrs = refl };
    carried = record {
      link_own = refl;
      queues = All-replicate _ (length addrs) new_peer (omega arith, tt);
      traffic = tt;
    };
    calm = record {
      id_is = refl;
      bc_is = refl;
      others = create_n_connected_ring-others id (length addrs) three (omega arith) own;
      pending = empty-AreValid (length addrs);
      delivered = empty-AreValid (length addrs);
      quiet = λ m small gone.
          let none' = has-empty (length addrs) m.originator m.bcast_seq_num small in
          absurd (cc (none', gone));
      holds = record {
        valid = start-IsValid id deps (length addrs) few;
        id_is = refl;
        deps_are = refl;
        heaps = length-replicate (length addrs) [];
        waiting = weigh_all-empty (outside (replicate (length addrs) empty)) (length addrs);
        logged = refl;
        heard_waiting = weigh_all-empty (unheard heard) (length addrs);
        heard_logged = refl;
        grown = ([], refl);
      };
    };
  }

  -- A process of 3 to 128, with an entry in the configuration for itself that names at most 128 known
  -- processes, and fewer than 2 ^ 32 messages to send. If what comes are acknowledgements, and messages
  -- in the shape in which processes with the same configuration send them, in any order, at any time and
  -- any number of times, then no layer faults, the loop ends with all messages sent, and the messages
  -- handed up are in causal order, each originator's in the order of their numbers and none twice.
  pub process-IsCausal :
      (num_messages : ℕ) (arrivals : ℕ → List Message)
      → IsConfigured id deps
      → num_messages < 2 ^ 32
      → ((k : ℕ) → All (IsPacket (length addrs) deps) (arrivals k))
      → (t : Turn Layers) × (sending receive broadcast num_messages
            (rounds_for num_messages)
            arrivals
            (start id deps addrs)
          ≡ ok t)
        × (t.next_msg ≡ num_messages)
        × IsCausal deps t.layers.upper.top.log
  process-IsCausal num_messages arrivals c small packets =
      let traffic = IsPacket-IsTraffic (length addrs) deps in
      let heard = λ (m : Message). true in
      let IsFine = IsPacket (length addrs) deps in
      let (t, run, all, r) =
        sending-ends receive broadcast num_messages (IsPacket (length addrs) deps)
          (λ _ st. IsRunning (length addrs) id own few deps heard [] IsFine traffic st) small
          (λ k st m r packet.
            receive-Ended (length addrs) id own few deps heard [] IsFine traffic m st r packet)
          (λ k st more r.
            broadcast-Ended (length addrs) id own few deps heard [] IsFine traffic c k st r
              (omega arith) λ m e. refl)
          arrivals (start id deps addrs) packets (start-IsRunning heard IsFine traffic) in
      (
        t,
        run,
        all,
        subst (λ d. IsCausal d t.layers.upper.top.log) r.calm.holds.deps_are
            r.calm.holds.valid.causal,
      )
