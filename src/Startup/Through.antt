-- ===== src/Startup/Through.antt =====
-- `main` of code/src/src/main.cpp from the barrier on.
use cs451_2020_project.Base.{
  ℕ, ◌^◌, ◌≤◌, ◌<◌, ◌≡◌, refl, sym, ap, subst, ◌∙◌, List, [], ◌++◌, arith, length, All, All-append,
  ok,
}
use cs451_2020_project.Message.{Message, max_processes}
use cs451_2020_project.Config.{Dependency}
use cs451_2020_project.Barrier.{finished_broadcasting}
use cs451_2020_project.Logger.{Logger, new_logger, Event, run, lines}
use cs451_2020_project.Logger.Flush.{run-buffer}
use cs451_2020_project.Link.FairLoss.{Address}
use cs451_2020_project.Broadcast.Causal.Log.{IsCausal}
use cs451_2020_project.Main.Turns.{rounds_for, sending-leaves, receiving-Holds}
use cs451_2020_project.Process.{start}
use cs451_2020_project.Process.Traffic.{IsConfigured, IsPacket}
use cs451_2020_project.Process.Output.{Output, begin}
use cs451_2020_project.Process.Output
use cs451_2020_project.Process.Output.Lines.{received_in, sent_in, below}
use cs451_2020_project.Process.Output.Written.{
  IsWritten, receive-IsWritten, broadcast-IsWritten, begin-IsWritten,
}
use cs451_2020_project.Startup.{Program, Stopped, done, work_through}

-- What a process has written down with `n` messages broadcast: the lines of events in which its own
-- messages stand in the order of their numbers, each once, and those handed up in causal order.
pub record IsComplete (deps : List Dependency) (n : ℕ) (o : Output) : Type 0 where
  pub events : List Event
  pub written : o.logger ≡ run new_logger events
  pub text : o.logger.buffer ≡ lines events
  pub told : sent_in events [] ≡ below n
  pub heard : received_in events [] ≡ o.layers.upper.top.log
  pub causal : IsCausal deps (received_in events [])

module _ (id : ℕ) (deps : List Dependency) (addrs : List Address) (own : id < length addrs)
    (three : 3 ≤ length addrs) (few : length addrs ≤ max_processes) (c : IsConfigured id deps) where
  IsWritten-IsComplete :
      (k : ℕ) (o : Output) → IsWritten (length addrs) id own few deps k o → IsComplete deps k o
  IsWritten-IsComplete k o h =
      let up = h.live.calm.holds in
      let l = h.logged in
      record {
        events = l.events;
        written = l.written;
        text = ap (λ (x : Logger). x.buffer) l.written ∙ run-buffer new_logger l.events;
        told = l.told;
        heard = l.heard;
        causal =
            subst (IsCausal deps) (sym l.heard)
              (subst (λ d. IsCausal d o.layers.upper.top.log) up.deps_are up.valid.causal);
      }

  pub work_through-IsComplete :
      (p : Program) (arrivals : ℕ → List Message) (after : List Message)
      → p.num_messages < 2 ^ 32
      → p.layers ≡ start id deps addrs
      → p.log ≡ new_logger
      → ((k : ℕ) → All (IsPacket (length addrs) deps) (arrivals k))
      → All (IsPacket (length addrs) deps) after
      → (s : Stopped) × (work_through (rounds_for p.num_messages) arrivals after p ≡ ok (done s))
        × (s.program ≡ p)
        × (s.coordinator ≡ finished_broadcasting p.coordinator)
        × IsComplete deps p.num_messages s.output
  unfolding work_through begin
  work_through-IsComplete p arrivals after small layers_are log_is packets packets' =
      let Good = IsPacket (length addrs) deps in
      let Held = IsWritten (length addrs) id own few deps in
      let receives = receive-IsWritten (length addrs) id own few deps in
      let begun : Held 0 (record { layers = p.layers; logger = p.log }) =
        rw (layers_are, log_is) (begin-IsWritten id deps addrs own few three) in
      let (t, run, all, held, rest) =
        sending-leaves Output.receive Output.broadcast p.num_messages Good Held small receives
          (λ k o more h.
            broadcast-IsWritten (length addrs) id own few deps k o c (omega (arith, more, small)) h)
          arrivals (record { layers = p.layers; logger = p.log }) packets begun in
      let (o, run', held') =
        receiving-Holds Output.receive Output.broadcast p.num_messages Good Held small receives
          (λ k o more h.
            broadcast-IsWritten (length addrs) id own few deps k o c (omega (arith, more, small)) h)
          p.num_messages (t.message_queue ++ after) t.layers
          (All-append Good t.message_queue after rest packets') held in
      (
        record { program = p; coordinator = finished_broadcasting p.coordinator; output = o },
        rw (run, run') refl,
        refl,
        refl,
        IsWritten-IsComplete p.num_messages o held',
      )
