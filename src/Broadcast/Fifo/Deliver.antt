-- ===== src/Broadcast/Fifo/Deliver.antt =====
-- The loop of `deliver` in code/src/src/fifo-broadcast.cpp.
use cs451_2020_project.Base.{
  ℕ, zero, suc, ◌+◌, ◌%◌, ◌^◌, ◌<◌, ◌≡◌, refl, ap, ◌>>=◌, true, List, [], ◌∷◌, some, arith, length,
  get_elem?, set, ok, fault,
}
use cs451_2020_project.Message.{Message}
use cs451_2020_project.PriorityQueue
use cs451_2020_project.Broadcast.Fifo.{
  Entry, MonotonicQueue, add, has_next, pop_next, drain, Fifo, deliver,
}

-- The queue holds the indices from `next` on without a gap, and nothing else.
abbrev pub IsRun : ℕ → List Entry → Type 0
IsRun next [] = Unit {0}
IsRun next (e ∷ es) = (e.id ≡ next) × IsRun (next + 1) es

-- The loop reads the top of an empty queue whenever it can empty the queue.
pub drain_empties :
    (fuel : ℕ) (q : MonotonicQueue) (log : List Message) (es : List Entry)
    → q.queue ≡ es
    → length es < fuel
    → IsRun q.expected_next es
    → q.expected_next + length es < 2 ^ 32
    → drain fuel q log ≡ fault
unfolding drain has_next pop_next
drain_empties zero q log es e h r small = absurd (omega arith)
drain_empties (suc fuel) q log [] e h r small = rw (e, has_next) refl
drain_empties (suc fuel) q log (x ∷ es) e h r small =
    let more : has_next q ≡ ok true = rw (e, has_next) (ground arith) in
    let popped : pop_next q
        ≡ ok (x.val, record { queue = es; expected_next = (q.expected_next + 1) % 2 ^ 32 }) =
      rw (e, pop_next) refl in
    let wrapped : (q.expected_next + 1) % 2 ^ 32 ≡ q.expected_next + 1 = omega arith in
    rw (more, popped)
      (drain_empties fuel _ (x.val ∷ log) es refl (omega arith) (rw wrapped r.1)
        (omega (arith, wrapped)))

-- In-order delivery: `deliver` of the next message of an originator of whom nothing is waiting
-- reads the top of an empty queue.
pub deliver_in_order :
    (s : Fifo) (m : Message) (q : MonotonicQueue)
    → get_elem? s.ordered m.originator ≡ some q
    → q.queue ≡ []
    → m.bcast_seq_num ≡ q.expected_next
    → q.expected_next + 1 < 2 ^ 32
    → deliver s m ≡ fault
unfolding deliver add PriorityQueue.push
deliver_in_order s m q found empty next small =
    rw (found, empty)
      (ap
        (λ r. r >>= λ (q', log). ok (record { ordered = set s.ordered m.originator q'; log = log }))
        (drain_empties 2 _ s.log (record { val = m; id = m.bcast_seq_num } ∷ []) refl (omega arith)
          (next, tt) (omega arith)))
