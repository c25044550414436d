-- ===== src/Process/Output/Written.antt =====
-- What a process of code/src/src/main.cpp has written down when it has sent all its messages.
use mathlib.Core.List.{append-nil}
use cs451_2020_project.Base.{
  ℕ, suc, ◌+◌, ◌^◌, ◌≤◌, ◌<◌, ◌≡◌, refl, sym, ap, subst, ◌∙◌, true, List, [], ◌++◌, arith, length,
  All, ok,
}
use cs451_2020_project.Message.{Message, max_processes}
use cs451_2020_project.Config.{Dependency}
use cs451_2020_project.Link.FairLoss.{Address}
use cs451_2020_project.Logger.{Logger, new_logger, Event, run, lines, log_broadcast}
use cs451_2020_project.Logger.Flush.{run-buffer}
use cs451_2020_project.Broadcast.Causal.Log.{IsCausal}
use cs451_2020_project.Main.{Turn, sending}
use cs451_2020_project.Main.Turns.{rounds_for, sending-ends}
use cs451_2020_project.Process.{Layers, start}
use cs451_2020_project.Process.Traffic.{IsConfigured, IsPacket}
use cs451_2020_project.Process.Steps.{IsRunning, receive-Ended, broadcast-Ended}
use cs451_2020_project.Process.Loop.{IsPacket-IsTraffic, start-IsRunning}
use cs451_2020_project.Process.Output.{Output, deliver_all, handed_up, begin, receive, broadcast}
use cs451_2020_project.Process.Output.Lines.{
  received_in, sent_in, below, IsLogged, deliver_all-IsLogged, log_broadcast-IsLogged,
  handed_up-grown,
}

module _ (n id : ℕ) (own : id < n) (few : n ≤ max_processes) (deps : List Dependency) where
  abbrev pub Live : List Message → Layers → Type 0
  Live base =
      IsRunning n id own few deps (λ _. true) base (IsPacket n deps) (IsPacket-IsTraffic n deps)

  rebase :
      (base base' : List Message) (st : Layers)
      → Live base st
      → (added : List Message) × (st.upper.top.log ≡ added ++ base')
      → Live base' st
  rebase base base' st r grown =
      let c = r.calm in
      let up = c.holds in
      record {
        linked = r.linked;
        carried = r.carried;
        calm = record {
          id_is = c.id_is;
          bc_is = c.bc_is;
          others = c.others;
          pending = c.pending;
          delivered = c.delivered;
          quiet = c.quiet;
          holds = record {
            valid = up.valid;
            id_is = up.id_is;
            deps_are = up.deps_are;
            heaps = up.heaps;
            waiting = up.waiting;
            logged = up.logged;
            heard_waiting = up.heard_waiting;
            heard_logged = up.heard_logged;
            grown = grown;
          };
        };
      }

  -- The layers are ready, and the log has what they have handed up.
  pub record IsWritten (k : ℕ) (o : Output) : Type 0 where
    pub live : Live [] o.layers
    pub logged : IsLogged k o.layers.upper.top.log o.logger

  after_call :
      (k : ℕ) (o : Output) (st : Layers)
      → IsWritten k o
      → Live o.layers.upper.top.log st
      → IsWritten k (record { layers = st; logger = deliver_all o.logger (handed_up o.layers st) })
  after_call k o st h r =
      let (added, is) = r.calm.holds.grown in
      record {
        live =
            rebase o.layers.upper.top.log [] st r
              (st.upper.top.log, sym (append-nil st.upper.top.log));
        logged =
            subst (λ ms. IsLogged k st.upper.top.log (deliver_all o.logger ms))
              (sym (handed_up-grown o.layers st added is))
              (subst (λ l. IsLogged k l (deliver_all o.logger added)) (sym is)
                (deliver_all-IsLogged k added o.layers.upper.top.log o.logger h.logged));
      }

  from_here : (st : Layers) → Live [] st → Live st.upper.top.log st
  from_here st r = rebase [] st.upper.top.log st r ([], refl)

  pub receive-IsWritten :
      (k : ℕ) (o : Output) (m : Message)
      → IsWritten k o
      → IsPacket n deps m
      → (o' : Output) × (receive m o ≡ ok o') × IsWritten k o'
  unfolding receive
  receive-IsWritten k o m h packet =
      let (st, run, r) =
        receive-Ended n id own few deps (λ _. true) o.layers.upper.top.log (IsPacket n deps)
          (IsPacket-IsTraffic n deps) m o.layers (from_here o.layers h.live) packet in
      (
        record { layers = st; logger = deliver_all o.logger (handed_up o.layers st) },
        rw run refl,
        after_call k o st h r,
      )

  pub broadcast-IsWritten :
      (k : ℕ) (o : Output)
      → IsConfigured id deps
      → k + 1 < 2 ^ 32
      → IsWritten k o
      → (o' : Output) × (broadcast k o ≡ ok o') × IsWritten (suc k) o'
  unfolding broadcast
  broadcast-IsWritten k o c small h =
      let (st, run, r) =
        broadcast-Ended n id own few deps (λ _. true) o.layers.upper.top.log (IsPacket n deps)
          (IsPacket-IsTraffic n deps) c k o.layers (from_here o.layers h.live) small
          (λ m e. refl) in
      let told = after_call k o st h r in
      (
        record {
          layers = st;
          logger = log_broadcast (deliver_all o.logger (handed_up o.layers st)) k;
        },
        rw run refl,
        record {
          live = told.live;
          logged =
              log_broadcast-IsLogged k st.upper.top.log
                (deliver_all o.logger (handed_up o.layers st)) told.logged;
        },
      )

pub begin-IsWritten :
    (id : ℕ) (deps : List Dependency) (addrs : List Address) (own : id < length addrs)
    (few : length addrs ≤ max_processes)
    → 3 ≤ length addrs
    → IsWritten (length addrs) id own few deps 0 (begin id deps addrs)
unfolding begin received_in sent_in below run start
begin-IsWritten id deps addrs own few three = record {
  live =
      start-IsRunning id deps addrs own three few (λ _. true) (IsPacket (length addrs) deps)
        (IsPacket-IsTraffic (length addrs) deps);
  logged = record { events = []; written = refl; heard = refl; told = refl };
}

-- A process of 3 to 128, with an entry in the configuration for itself that names at most 128 known
-- processes, and fewer than 2 ^ 32 messages to send, with the log on top of its layers. If what comes
-- are acknowledgements, and messages in the shape in which processes with the same configuration send
-- them, in any order, at any time and any number of times, then the loop ends without a fault and with
-- all messages sent, and what is in the log are the lines of a list of events in which the messages of
-- the process stand in the order of their numbers, each once, and the messages handed up stand in
-- causal order.
pub broadcast-lines :
    (id : ℕ) (deps : List Dependency) (addrs : List Address) (num_messages : ℕ)
    (arrivals : ℕ → List Message)
    → id < length addrs
    → 3 ≤ length addrs
    → length addrs ≤ max_processes
    → IsConfigured id deps
    → num_messages < 2 ^ 32
    → ((k : ℕ) → All (IsPacket (length addrs) deps) (arrivals k))
    → (t : Turn Output) × (es : List Event) × (sending receive broadcast num_messages
          (rounds_for num_messages)
          arrivals
          (begin id deps addrs)
        ≡ ok t)
      × (t.next_msg ≡ num_messages)
      × (t.layers.logger ≡ run new_logger es)
      × (t.layers.logger.buffer ≡ lines es)
      × (sent_in es [] ≡ below num_messages)
      × (received_in es [] ≡ t.layers.layers.upper.top.log)
      × IsCausal deps (received_in es [])
broadcast-lines id deps addrs num_messages arrivals own three few c small packets =
    let n = length addrs in
    let start_is = begin-IsWritten id deps addrs own few three in
    let (t, end, all, h) =
      sending-ends receive broadcast num_messages (IsPacket n deps) (IsWritten n id own few deps)
        small (λ k o m h packet. receive-IsWritten n id own few deps k o m h packet)
        (λ k o more h. broadcast-IsWritten n id own few deps k o c (omega arith) h) arrivals
        (begin id deps addrs) packets start_is in
    let up = h.live.calm.holds in
    let l = h.logged in
    (
      t,
      l.events,
      end,
      all,
      l.written,
      ap (λ (x : Logger). x.buffer) l.written ∙ run-buffer new_logger l.events,
      l.told,
      l.heard,
      subst (IsCausal deps) (sym l.heard)
          (subst (λ d. IsCausal d t.layers.layers.upper.top.log) up.deps_are up.valid.causal),
    )
