-- ===== src/Link/Worker.antt =====
-- The worker thread of a peer, in code/src/src/perfect-link.cpp, with the timer of
-- code/src/include/exponential-backoff.hpp. Times are numbers; what the clock shows is an argument.
pub mod Retry
pub mod Cases
pub mod Carries
pub mod Kept
use cs451_2020_project.Base.{
  ℕ, ◌+◌, ◌*◌, Bool, true, List, [], ◌∷◌, Option, none, some, ltb, ◌==◌, if◌then◌else◌, elem, Run,
  ok, ◌>>=◌,
}
use cs451_2020_project.Message.{Message}
use cs451_2020_project.PriorityQueue
use cs451_2020_project.Link.SeqNum.{is_syn, seq_num}
use cs451_2020_project.Link.FairLoss.{FairLossLink}
use cs451_2020_project.Link.FairLoss
use cs451_2020_project.Link.Queue

pub record ExponentialBackoff : Type 0 where
  pub timeout : ℕ
  pub retry_at : ℕ

abbrev initial_timeout : ℕ
initial_timeout = 100

-- The constructor, at time `now`.
pub new_backoff : ℕ → ExponentialBackoff
new_backoff now = record { timeout = initial_timeout; retry_at = now + initial_timeout }

-- The code's durations are signed numbers of nanoseconds on 64 bits: the first 35 repetitions of a
-- message stay in range, and take more than 100 years; what comes after them is undefined there.
pub retry : ExponentialBackoff → ℕ → ExponentialBackoff
retry b now = record { timeout = b.timeout * 2; retry_at = now + b.timeout * 2 }

pub next_timeout : ExponentialBackoff → ℕ
next_timeout b = b.retry_at

pub record Entry : Type 0 where
  pub msg : Message
  pub backoff : ExponentialBackoff

abbrev pub due : Entry → ℕ
due e = next_timeout e.backoff

-- The local variables of the thread, and the queue that it shares.
pub record Worker : Type 0 where
  pub scheduled : List Entry
  pub acknowledged : List ℕ
  pub incoming : List Message

-- `std::unordered_set`
unfoldable pub insert_number : ℕ → List ℕ → List ℕ
insert_number n s = if elem n s then s else n ∷ s

unfoldable pub erase_number : ℕ → List ℕ → List ℕ
erase_number n [] = []
erase_number n (x ∷ xs) = if n == x then erase_number n xs else x ∷ erase_number n xs

-- Does `try_pop` look into the queue at all, at time `now`?
pub waits : List Entry → ℕ → Bool
unfolding next_timeout
waits [] now = true
waits (e ∷ es) now = ltb now (due e)

pub try_pop : Worker → ℕ → Option (Message × List Message)
unfolding waits Queue.try_pop_until
try_pop w now = if waits w.scheduled now then Queue.try_pop_until w.incoming else none

pub handle_timeout : Worker → ℕ → ℕ → FairLossLink → Run (Worker × FairLossLink)
unfolding retry PriorityQueue.push erase_number seq_num FairLoss.send
handle_timeout w receiver now link = elim w.scheduled [
  | [] ↦ ok (w, link)
  | next ∷ rest ↦
      let num = seq_num next.msg in
      if elem num w.acknowledged
      then ok (record w { scheduled = rest; acknowledged = erase_number num w.acknowledged }, link)
      else (FairLoss.send receiver next.msg link >>= λ (link', msg').
          let again : Entry = record { msg = msg'; backoff = retry next.backoff now } in
          ok (record w { scheduled = PriorityQueue.push due again rest }, link'))
]

-- What the loop does with an item: a "Syn" is scheduled, an "Ack" is noted.
pub take_item : Worker → Message → ℕ → Worker
unfolding is_syn seq_num insert_number new_backoff PriorityQueue.push
take_item w msg now =
    if is_syn msg
    then record w {
      scheduled =
          PriorityQueue.push due (record { msg = msg; backoff = new_backoff now }) w.scheduled;
    }
    else record w { acknowledged = insert_number (seq_num msg) w.acknowledged }

-- One round of the loop: the clock shows `now` when `try_pop` looks, and `later` afterwards.
pub round : Worker → ℕ → ℕ → ℕ → FairLossLink → Run (Worker × FairLossLink)
unfolding try_pop handle_timeout take_item
round w receiver now later link = elim (try_pop w now) [
  | none ↦ handle_timeout w receiver later link
  | some (msg, rest) ↦ ok (take_item (record w { incoming = rest }) msg later, link)
]
