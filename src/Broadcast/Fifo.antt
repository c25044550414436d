-- ===== src/Broadcast/Fifo.antt =====
-- code/src/include/monotonic-queue.hpp and code/src/src/fifo-broadcast.cpp. The messages handed to
-- the observer are kept in `log`, the last one first.
pub mod Deliver
pub mod Tests
use cs451_2020_project.Base.{
  ℕ, zero, suc, ◌+◌, ◌%◌, ◌^◌, Bool, true, false, List, [], ◌∷◌, ◌==◌, if◌then◌else◌, length,
  get_elem?, set, replicate, Run, ok, fault, out_of_fuel, ◌>>=◌, access,
}
use cs451_2020_project.StaticVec.{new}
use cs451_2020_project.Message.{Message, max_processes}
use cs451_2020_project.Link.Perfect.{Stack}
use cs451_2020_project.Broadcast.Uniform.{Upper}
use cs451_2020_project.Broadcast.Uniform
use cs451_2020_project.PriorityQueue

-- `Entry` of a queue of messages, with a 32-bit index.
pub record Entry : Type 0 where
  pub val : Message
  pub id : ℕ

abbrev pub entry_id : Entry → ℕ
entry_id e = e.id

pub record MonotonicQueue : Type 0 where
  pub queue : List Entry
  pub expected_next : ℕ

abbrev pub new_queue : MonotonicQueue
new_queue = record { queue = []; expected_next = 0 }

pub add : MonotonicQueue → Message → ℕ → MonotonicQueue
unfolding PriorityQueue.push
add q item seq_num = record q {
  queue = PriorityQueue.push entry_id (record { val = item; id = seq_num }) q.queue;
}

-- `queue.top()` of an empty queue is undefined.
pub has_next : MonotonicQueue → Run Bool
has_next q = elim q.queue [ [] ↦ fault | e ∷ es ↦ ok (e.id == q.expected_next) ]

pub pop_next : MonotonicQueue → Run (Message × MonotonicQueue)
pop_next q = elim q.queue [
  | [] ↦ fault
  | e ∷ es ↦ ok (e.val, record { queue = es; expected_next = (q.expected_next + 1) % 2 ^ 32 })
]

-- `while (queue.has_next()) observer.deliver(queue.pop_next());`, with fuel
pub drain : ℕ → MonotonicQueue → List Message → Run (MonotonicQueue × List Message)
unfolding has_next pop_next
drain zero q log = out_of_fuel
drain (suc fuel) q log = has_next q >>= λ more.
    let rest = pop_next q >>= λ (item, q'). drain fuel q' (item ∷ log) in
    if more then rest else ok (q, log)

pub record Fifo : Type 0 where
  pub ordered : List MonotonicQueue
  pub log : List Message

-- The constructor, for `n` hosts.
pub start : ℕ → Fifo
start n = record { ordered = replicate n new_queue; log = [] }

pub deliver : Fifo → Message → Run Fifo
unfolding add drain
deliver s msg = do
  queue ← access (get_elem? s.ordered msg.originator)
  let queue' = add queue msg msg.bcast_seq_num
  drain (length queue'.queue + 1) queue' s.log >>= λ (q, log).
      ok (record { ordered = set s.ordered msg.originator q; log = log })

-- `send`, over the uniform reliable broadcast and its observer.
unfoldable pub send {ℓ} :
    {T : Type ℓ} → (Message → T → Run T) → ℕ → Stack (Upper T) → Run (Stack (Upper T))
unfolding new
send observer seq_num st =
    Uniform.send observer 2 seq_num
      (record {
        link_seq_num = 0;
        bcast_seq_num = 0;
        originator = 0;
        sender = 0;
        vector_clock = new max_processes 0 0;
      })
      st
