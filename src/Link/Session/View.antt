-- ===== src/Link/Session/View.antt =====
-- One side of a session of two processes, without what the other one does not see, and what the
-- threads of code/src/src/perfect-link.cpp do to it.
use cs451_2020_project.Base.{
  ℕ, ◌+◌, ◌<◌, ◌≤◌, ◌^◌, ◌≡◌, ◌⊎◌, true, false, ◌||◌, List, ◌∷◌, some, if◌then◌else◌, elem,
  get_elem?, All, u64_mod,
}
use cs451_2020_project.Message.{Message}
use cs451_2020_project.PriorityQueue
use cs451_2020_project.RollingSet.{RollingBitset, insert, contains}
use cs451_2020_project.RollingSet.Refine.{IsValid}
use cs451_2020_project.Link.SeqNum.{is_syn, seq_num, set_ack}
use cs451_2020_project.Link.FairLoss.{Address}
use cs451_2020_project.Link.Queue
use cs451_2020_project.Link.Perfect.{Peer}
use cs451_2020_project.Link.Perfect.Arrival.{times}
use cs451_2020_project.Link.Worker.{Entry, ExponentialBackoff, due, insert_number, erase_number}
use cs451_2020_project.Link.Worker.Retry.{is_scheduled, is_incoming}
use cs451_2020_project.Link.Session.{Side}

pub record View : Type 0 where
  pub next : ℕ
  pub delivered : RollingBitset
  pub incoming : List Message
  pub scheduled : List Entry
  pub acknowledged : List ℕ
  pub sent : List (Address × Message)
  pub upper : List Message

abbrev pub view : Side → Peer → View
view s p = record {
  next = p.next_seq_num;
  delivered = p.delivered;
  incoming = p.incoming;
  scheduled = s.scheduled;
  acknowledged = s.acknowledged;
  sent = s.log.perfect.link.sent;
  upper = s.log.upper;
}

-- What `Act` does to the view of process `a`, the other being `w`.
pub data Move (a : ℕ) (v w v' : View) : Type 0 where
  sends :
      (m : Message) (to : Address)
      → m.link_seq_num ≡ v.next
      → m.sender ≡ a
      → v.next < 2 ^ 63
      → v' ≡ record v {
        next = v.next + 1;
        incoming = Queue.push m v.incoming;
        sent = (to, m) ∷ v.sent;
      }
      → Move a v w v'
  schedules :
      (m : Message) (rest : List Message) (t : ExponentialBackoff)
      → v.incoming ≡ m ∷ rest
      → is_syn m ≡ true
      → v' ≡ record v {
        incoming = rest;
        scheduled = PriorityQueue.push due (record { msg = m; backoff = t }) v.scheduled;
      }
      → Move a v w v'
  notes :
      (m : Message) (rest : List Message)
      → v.incoming ≡ m ∷ rest
      → is_syn m ≡ false
      → v' ≡ record v { incoming = rest; acknowledged = insert_number (seq_num m) v.acknowledged }
      → Move a v w v'
  gives_up :
      (e : Entry) (es : List Entry)
      → v.scheduled ≡ e ∷ es
      → elem (seq_num e.msg) v.acknowledged ≡ true
      → v' ≡ record v { scheduled = es; acknowledged = erase_number (seq_num e.msg) v.acknowledged }
      → Move a v w v'
  repeats :
      (e : Entry) (es : List Entry) (to : Address) (t : ExponentialBackoff)
      → v.scheduled ≡ e ∷ es
      → v' ≡ record v {
        scheduled =
            PriorityQueue.push due (record { msg = record e.msg { sender = a }; backoff = t }) es;
        sent = (to, record e.msg { sender = a }) ∷ v.sent;
      }
      → Move a v w v'
  idles : v' ≡ v → Move a v w v'
  gets_ack :
      (i : ℕ) (from : Address) (m : Message)
      → get_elem? w.sent i ≡ some (from, m)
      → is_syn m ≡ false
      → v' ≡ record v { incoming = Queue.push m v.incoming }
      → Move a v w v'
  gets_old :
      (i : ℕ) (from to : Address) (m : Message)
      → get_elem? w.sent i ≡ some (from, m)
      → is_syn m ≡ true
      → contains v.delivered (seq_num m) ≡ true
      → v' ≡ record v { sent = (to, record (set_ack m) { sender = a }) ∷ v.sent }
      → Move a v w v'
  gets_new :
      (i : ℕ) (from to : Address) (m : Message)
      → get_elem? w.sent i ≡ some (from, m)
      → is_syn m ≡ true
      → contains v.delivered (seq_num m) ≡ false
      → v' ≡ record v {
        delivered = insert v.delivered (seq_num m);
        upper = m ∷ v.upper;
        sent = (to, record (set_ack m) { sender = a }) ∷ v.sent;
      }
      → Move a v w v'

-- A message that process `a` may have sent: a "Syn" has a number that it has given out, an "Ack"
-- one that it has delivered.
pub record IsOwn (a next : ℕ) (delivered : RollingBitset) (m : Message) : Type 0 where
  pub from : m.sender ≡ a
  pub fits : m.link_seq_num < u64_mod
  pub given : is_syn m ≡ true → seq_num m < next
  pub heard : is_syn m ≡ false → contains delivered (seq_num m) ≡ true

-- A message in the queue of the thread, or in its heap.
pub record IsQueued (next : ℕ) (m : Message) : Type 0 where
  pub fits : m.link_seq_num < u64_mod
  pub given : is_syn m ≡ true → seq_num m < next

abbrev pub IsRepeated : ℕ → Entry → Type 0
IsRepeated next e = IsQueued next e.msg × (is_syn e.msg ≡ true)

-- An "Ack" is about a number that has been delivered.
abbrev pub IsTruthful : RollingBitset → Message → Type 0
IsTruthful delivered m = is_syn m ≡ false → contains delivered (seq_num m) ≡ true

-- What holds of the side of process `a`, the other being `b`.
pub record IsLocal (a b : ℕ) (v : View) : Type 0 where
  pub own : All (λ (e : Address × Message). IsOwn a v.next v.delivered e.1) v.sent
  pub queued : All (IsQueued v.next) v.incoming
  pub repeated : All (IsRepeated v.next) v.scheduled
  pub valid : IsValid v.delivered
  pub once : (k : ℕ) → k < u64_mod → times b k v.upper ≡ (if contains v.delivered k then 1 else 0)
  pub small : v.next ≤ 2 ^ 63

-- What holds of the messages from `v` to a process that has delivered `heard_by`: an acknowledgement tells the truth, nothing is heard
-- that was not sent, and what has not been heard is still in the hands of the thread.
pub record IsCrossed (v : View) (heard_by : RollingBitset) : Type 0 where
  pub acked : (k : ℕ) → elem k v.acknowledged ≡ true → (k < u64_mod) × (contains heard_by k ≡ true)
  pub acks : All (IsTruthful heard_by) v.incoming
  pub heard : (k : ℕ) → k < u64_mod → contains heard_by k ≡ true → k < v.next
  pub held :
      (k : ℕ)
      → k < v.next
      → ((is_scheduled k v.scheduled || is_incoming k v.incoming) ≡ true)
        ⊎ (contains heard_by k ≡ true)
