-- ===== src/Broadcast/Causal.antt =====
-- code/src/src/localized-causal-broadcast.cpp. The messages handed to the observer are kept in
-- `log`, the last one first; a read outside an array or a vector is a fault.
pub mod Log
pub mod Loop
pub mod Deliver
pub mod Start
pub mod Send
pub mod Tests
use cs451_2020_project.Base.{
  ℕ, zero, suc, ◌+◌, ◌*◌, ◌%◌, ◌^◌, Bool, true, false, List, [], ◌∷◌, Option, none, some, ltb,
  if◌then◌else◌, length, get_elem?, set, replicate, Run, ok, fault, out_of_fuel, ◌>>=◌, access,
}
use cs451_2020_project.StaticVec.{StaticVec, index, to_list, new, push_back}
use cs451_2020_project.Message.{Message, max_processes}
use cs451_2020_project.Config.{Dependency}
use cs451_2020_project.PriorityQueue

pub record Causal : Type 0 where
  pub id : ℕ
  pub deps : List Dependency
  pub pending : List (List Message)  -- a heap for each originator
  pub current_clock : StaticVec ℕ
  pub log : List Message

-- The constructor, for `n` hosts.
unfoldable pub start : ℕ → List Dependency → ℕ → Causal
unfolding new
start id deps n = record {
  id = id;
  deps = deps;
  pending = replicate n [];
  current_clock = new max_processes 0 n;
  log = [];
}

-- The loop of `send`: the clocks of the processes that ours depends on.
unfoldable pub clocks_of : StaticVec ℕ → List ℕ → StaticVec ℕ → Run (StaticVec ℕ)
unfolding push_back
clocks_of current_clock [] vector_clock = ok vector_clock
clocks_of current_clock (process ∷ processes) vector_clock = do
  t ← access (index current_clock process)
  longer ← access (push_back vector_clock t)
  clocks_of current_clock processes longer

-- `send`, up to the call of the layer below: the message that it hands over.
unfoldable pub send : Causal → Run Message
unfolding clocks_of new
send s = do
  my_deps ← access (get_elem? s.deps s.id)
  clock ← clocks_of s.current_clock (to_list my_deps.depends) (new max_processes 0 0)
  ok (record {
    link_seq_num = 0;
    bcast_seq_num = 0;
    originator = 0;
    sender = 0;
    vector_clock = clock;
  })

-- The loop of `can_deliver` from index `i` on, for the rounds that are left.
unfoldable pub clocks_reached : ℕ → ℕ → StaticVec ℕ → StaticVec ℕ → StaticVec ℕ → Run Bool
clocks_reached zero i depends vector_clock current_clock = ok true
clocks_reached (suc rounds) i depends vector_clock current_clock =
    let rest = clocks_reached rounds (i + 1) depends vector_clock current_clock in
    access (index depends i) >>= λ process_id. access (index vector_clock i) >>= λ wanted.
    access (index current_clock process_id) >>= λ reached.
    if ltb reached wanted then ok false else rest

unfoldable pub can_deliver : Causal → Message → Run Bool
unfolding clocks_reached
can_deliver s msg = do
  next ← access (index s.current_clock msg.originator)
  if ltb next msg.bcast_seq_num
      then ok false
      else (access (get_elem? s.deps msg.originator) >>= λ dep.
          clocks_reached msg.vector_clock.sz 0 dep.depends msg.vector_clock s.current_clock)

-- `current_clock[msg.originator]++; observer.deliver(msg); queue.pop();`, with `rest` what the pop
-- leaves in the queue at `it`
unfoldable pub commit : Causal → ℕ → Message → List Message → Run Causal
commit s it msg rest = do
  t ← access (index s.current_clock msg.originator)
  ok (record s {
    current_clock = record s.current_clock {
      storage = set s.current_clock.storage msg.originator ((t + 1) % 2 ^ 32);
    };
    log = msg ∷ s.log;
    pending = set s.pending it rest;
  })

-- What one round of the loop of `deliver` does: the iterator is at the end, it moves on, or a
-- message goes up and it starts again.
pub data Visit : Type 0 where
  finished : Visit
  skipped : Visit
  progressed : Causal → Visit

unfoldable pub visit_queue : Causal → ℕ → List Message → Run Visit
unfolding can_deliver commit
visit_queue s it [] = ok skipped
visit_queue s it (top ∷ rest) = do
  deliverable ← can_deliver s top
  if deliverable then (commit s it top rest >>= λ s'. ok (progressed s')) else ok skipped

unfoldable pub visit : Causal → ℕ → Run Visit
unfolding visit_queue
visit s it = elim (get_elem? s.pending it) [
  | none ↦ ok finished
  | some queue ↦ visit_queue s it queue
]

-- The loop of `deliver`, with fuel.
unfoldable pub scan : ℕ → ℕ → Causal → Run Causal
scan zero it s = out_of_fuel
scan (suc fuel) it s = elim (visit s it) [
  | fault ↦ fault
  | out_of_fuel ↦ out_of_fuel
  | ok finished ↦ ok s
  | ok skipped ↦ scan fuel (it + 1) s
  | ok (progressed s') ↦ scan fuel 0 s'
]

-- Messages counted with weights: with weight 1 their number, with the test for one message how
-- often it is there.
unfoldable pub weigh : (Message → ℕ) → List Message → ℕ
weigh w [] = 0
weigh w (m ∷ ms) = w m + weigh w ms

unfoldable pub weigh_all : (Message → ℕ) → List (List Message) → ℕ
unfolding weigh
weigh_all w [] = 0
weigh_all w (q ∷ qs) = weigh w q + weigh_all w qs

-- Rounds that are enough: each message delivered starts the iterator again.
unfoldable pub rounds_for : Causal → ℕ
unfolding weigh_all
rounds_for s = weigh_all (λ _. 1) s.pending * (length s.pending + 1) + length s.pending + 1

abbrev pub seq_num : Message → ℕ
seq_num m = m.bcast_seq_num

-- `pending[msg.originator].push(msg)`
unfoldable pub enqueue : Causal → Message → Run Causal
unfolding PriorityQueue.push
enqueue s msg = do
  queue ← access (get_elem? s.pending msg.originator)
  ok (record s { pending = set s.pending msg.originator (PriorityQueue.push seq_num msg queue) })

unfoldable pub deliver : Causal → Message → Run Causal
unfolding enqueue scan rounds_for
deliver s msg = do s' ← enqueue s msg; scan (rounds_for s') 0 s'
