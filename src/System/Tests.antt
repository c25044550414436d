-- ===== src/System/Tests.antt =====
-- Examples for all processes together: process 0 broadcasts, process 1 hands the message up and
-- broadcasts one that depends on it, and process 0 hands up both.
use cs451_2020_project.Base.{
  ℕ, zero, suc, ◌≤◌, ◌<◌, ◌≡◌, refl, arith, List, [], ◌∷◌, Bool, true, false, some, get_elem?,
  replicate, update, Run, ok, fault, out_of_fuel,
}
use cs451_2020_project.StaticVec
use cs451_2020_project.StaticVec.{StaticVec}
use cs451_2020_project.Message
use cs451_2020_project.Message.{Message, max_processes}
use cs451_2020_project.Config.{Dependency}
use cs451_2020_project.RollingSet
use cs451_2020_project.PriorityQueue
use cs451_2020_project.Link.Queue
use cs451_2020_project.Link.SeqNum
use cs451_2020_project.Link.FairLoss.{Address}
use cs451_2020_project.Link.FairLoss
use cs451_2020_project.Link.Perfect
use cs451_2020_project.Broadcast.Ring
use cs451_2020_project.Broadcast.BestEffort
use cs451_2020_project.Broadcast.Uniform
use cs451_2020_project.Broadcast.Uniform.Ack
use cs451_2020_project.Broadcast.Causal
use cs451_2020_project.Broadcast.Causal.Log.{count_from}
use cs451_2020_project.Process.{Layers, start, receive, broadcast}
use cs451_2020_project.Process.Traffic.{IsConfigured}
use cs451_2020_project.System.{
  System, Reach, begins, goes_on, broadcasts, receives, initial, number_said,
}
use cs451_2020_project.System.Heard.{IsCopy}
use cs451_2020_project.System.Delivery.{
  CanGoOn, IsDelivery, Reach-CanGoOn, Reach-IsDelivery, Reach-agreement,
}

abbrev none_needed : StaticVec ℕ
none_needed = record { storage = replicate 128 0; sz = 0 }

abbrev one_needed : StaticVec ℕ
one_needed = record { storage = replicate 128 0; sz = 1 }

-- Processes 1 and 2 depend on process 0.
abbrev pub deps : List Dependency
deps =
    record { process = 1; depends = none_needed }
    ∷ record { process = 2; depends = one_needed }
    ∷ record { process = 3; depends = one_needed }
    ∷ []

abbrev pub addrs : List Address
addrs =
    record { ip = 1; port = 11001 }
    ∷ record { ip = 1; port = 11002 }
    ∷ record { ip = 1; port = 11003 }
    ∷ []

pub configured : (i : ℕ) → i < 3 → IsConfigured i deps
configured zero h = record {
  dep = record { process = 1; depends = none_needed };
  mine = refl;
  known = tt;
  room = omega arith;
}
configured (suc zero) h = record {
  dep = record { process = 2; depends = one_needed };
  mine = refl;
  known = (omega arith, tt);
  room = omega arith;
}
configured (suc (suc zero)) h = record {
  dep = record { process = 3; depends = one_needed };
  mine = refl;
  known = (omega arith, tt);
  room = omega arith;
}
configured (suc (suc (suc i))) h = absurd (omega (arith, h))

abbrev result : Run Layers → Layers
result (ok st) = st
result fault = start 0 deps addrs
result out_of_fuel = start 0 deps addrs

abbrev has_ended : Run Layers → Bool
has_ended (ok st) = true
has_ended fault = false
has_ended out_of_fuel = false

ok-result : (r : Run Layers) → has_ended r ≡ true → r ≡ ok (result r)
ok-result (ok st) e = refl
ok-result fault e = absurd (ground arith)
ok-result out_of_fuel e = absurd (ground arith)

-- The messages as `send` of the top layer makes them, and as they go out.
abbrev blank : Message
blank = record {
  link_seq_num = 0;
  bcast_seq_num = 0;
  originator = 0;
  sender = 0;
  vector_clock = none_needed;
}

abbrev first : Message
first = record blank { sender = 1 }

abbrev clocked : Message
clocked = record blank { vector_clock = record { storage = 1 ∷ replicate 127 0; sz = 1 } }

abbrev second : Message
second = record clocked { originator = 1; sender = 1; link_seq_num = 1 }

-- The layers after each step.
abbrev zero_said : Layers
zero_said = result (broadcast 0 (start 0 deps addrs))

abbrev one_heard : Layers
one_heard = result (receive blank (start 1 deps addrs))

abbrev zero_heard : Layers
zero_heard = result (receive first zero_said)

abbrev one_said : Layers
one_said = result (broadcast 0 one_heard)

abbrev zero_last : Layers
zero_last = result (receive second zero_heard)

abbrev own_second : Message
own_second = record second { sender = 0 }

-- What the calls return, and what they send.
calls :
    (has_ended (broadcast 0 (start 0 deps addrs)) ≡ true)
    × (has_ended (receive blank (start 1 deps addrs)) ≡ true)
    × (has_ended (receive first zero_said) ≡ true)
    × (has_ended (broadcast 0 one_heard) ≡ true)
    × (has_ended (receive second zero_heard) ≡ true)
    × (Causal.send (start 0 deps addrs).upper.top ≡ ok blank)
    × (Causal.send one_heard.upper.top ≡ ok clocked)
    × (get_elem? zero_said.perfect.link.sent 1 ≡ some (record { ip = 1; port = 11002 }, blank))
    × (get_elem? one_heard.perfect.link.sent 1 ≡ some (record { ip = 1; port = 11001 }, first))
    × (get_elem? one_said.perfect.link.sent 0 ≡ some (record { ip = 1; port = 11001 }, second))
    × (zero_last.upper.top.log ≡ own_second ∷ first ∷ [])
    × (one_said.upper.top.log ≡ first ∷ [])
unfolding start receive broadcast Causal.start Causal.clocks_of Causal.send Causal.clocks_reached
    Causal.can_deliver Causal.commit Causal.visit_queue Causal.visit Causal.scan Causal.weigh
    Causal.weigh_all Causal.rounds_for Causal.enqueue Causal.deliver Uniform.start Uniform.insert_in
    Uniform.contains_in Uniform.record_ack Uniform.has_quorum Uniform.can_deliver
    Uniform.try_deliver Uniform.relay Uniform.deliver Uniform.send Ack.count Ack.ack_bits
    Ack.ack_put Ack.ack_touch Ack.ack_erase BestEffort.start BestEffort.deliver BestEffort.send_each
    BestEffort.send Ring.ring_loop Ring.neighbors_per_side Ring.create_n_connected_ring
    Perfect.set_peer Perfect.send_raw Perfect.send Perfect.deliver_new Perfect.deliver SeqNum.is_syn
    SeqNum.set_ack SeqNum.seq_num FairLoss.send Queue.push RollingSet.set_bit RollingSet.test_bit
    RollingSet.has_passed RollingSet.chunk_index RollingSet.pop_front RollingSet.rotate_chunks
    RollingSet.grow RollingSet.insert RollingSet.contains PriorityQueue.push StaticVec.new
    StaticVec.push_back Message.broadcast_message_compare
calls = (refl, refl, refl, refl, refl, refl, refl, refl, refl, refl, refl, refl)

-- The system after each step.
abbrev with_layers : ℕ → Layers → System → System
with_layers i st s = record s { sites = update s.sites i (record (s.sites i) { layers = st }) }

abbrev with_said : Message → List Message → System → System
with_said m past s = record s { history = record { message = m; past = past } ∷ s.history }

abbrev after_one : System
after_one = with_said blank [] (with_layers 0 zero_said (initial deps addrs))

abbrev after_two : System
after_two = with_layers 1 one_heard after_one

abbrev after_three : System
after_three = with_layers 0 zero_heard after_two

abbrev after_four : System
after_four =
    with_said (record clocked { originator = 1 }) one_heard.upper.top.log
      (with_layers 1 one_said after_three)

abbrev pub last : System
last = with_layers 0 zero_last after_four

pub last-Reach : Reach deps addrs last
unfolding start
last-Reach =
    let (b0, r1, r0, b1, r0', clocks, clocks', sent, sent', sent'', log, log') = calls in
    let one : Reach deps addrs after_one = goes_on (begins refl) (
      broadcasts 0 0 blank zero_said (omega arith) refl (omega arith) clocks
        (ok-result (broadcast 0 (start 0 deps addrs)) b0) refl) in
    let two : Reach deps addrs after_two = goes_on one (
      receives 1 0 1 (record { ip = 1; port = 11002 }) blank one_heard (omega arith) (omega arith)
        sent (ok-result (receive blank (start 1 deps addrs)) r1) refl) in
    let three : Reach deps addrs after_three = goes_on two (
      receives 0 1 1 (record { ip = 1; port = 11001 }) first zero_heard (omega arith) (omega arith)
        sent' (ok-result (receive first zero_said) r0) refl) in
    let four : Reach deps addrs after_four = goes_on three (
      broadcasts 1 0 clocked one_said (omega arith) refl (omega arith) clocks'
        (ok-result (broadcast 0 one_heard) b1) refl) in
    goes_on four (
      receives 0 1 0 (record { ip = 1; port = 11001 }) second zero_last (omega arith) (omega arith)
        sent'' (ok-result (receive second zero_heard) r0') refl)

Reach-CanGoOn_example : CanGoOn 3 last
Reach-CanGoOn_example =
    Reach-CanGoOn deps addrs (omega arith) (omega arith) configured last last-Reach

Reach-IsDelivery_example : IsDelivery deps last.history own_second (first ∷ [])
Reach-IsDelivery_example =
    Reach-IsDelivery deps addrs (omega arith) (omega arith) configured last last-Reach 0 []
      own_second (first ∷ []) (omega arith) calls.10

Reach-agreement_example :
    IsCopy first first × (count_from 0 zero_last.upper.top.log ≤ number_said 0 last.history)
Reach-agreement_example =
    Reach-agreement deps addrs (omega arith) (omega arith) configured last last-Reach 0 1
      (own_second ∷ []) [] first first [] [] (omega arith) (omega arith) calls.10 calls.11 refl refl
