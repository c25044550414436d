-- ===== src/Broadcast/Uniform.antt =====
-- `UniformReliableBroadcast` of code/src/src/uniform-reliable-broadcast.cpp. A message that is sent
-- comes back to the process itself while `send` runs, so `deliver` is entered again from inside;
-- its first argument bounds how deep.
pub mod Ack
pub mod Links
pub mod Quorum
pub mod Majority
pub mod Crash
pub mod Meeting
pub mod Sets
pub mod Upward
pub mod Tests
use cs451_2020_project.Base.{
  ℕ, zero, suc, ◌+◌, ◌/◌, Bool, true, false, not, ◌&&◌, List, [], ◌∷◌, ltb, ◌==◌, if◌then◌else◌,
  get_elem?, set, replicate, update, Run, ok, fault, out_of_fuel, ◌>>=◌, access,
}
use cs451_2020_project.Message.{Message, max_processes}
use cs451_2020_project.RollingSet.{RollingBitset, insert, contains, empty}
use cs451_2020_project.Link.Perfect.{Stack}
use cs451_2020_project.Broadcast.BestEffort.{BestEffort}
use cs451_2020_project.Broadcast.BestEffort
use Ack.{AckMap, ack_bits, ack_touch, ack_put, ack_erase, count}

pub record Uniform : Type 0 where
  pub id : ℕ
  pub num_processes : ℕ
  pub ack : AckMap
  pub pending : List RollingBitset
  pub delivered : List RollingBitset
  pub bc : BestEffort

-- The constructor.
unfoldable pub start : ℕ → ℕ → Uniform
unfolding BestEffort.start
start id num_hosts = record {
  id = id;
  num_processes = num_hosts;
  ack = [];
  pending = replicate num_hosts empty;
  delivered = replicate num_hosts empty;
  bc = BestEffort.start id num_hosts;
}

-- The file's `insert` and `contains`.
unfoldable pub insert_in : List RollingBitset → Message → Run (List RollingBitset)
insert_in sets msg = do
  s ← access (get_elem? sets msg.originator)
  ok (set sets msg.originator (insert s msg.bcast_seq_num))

unfoldable pub contains_in : List RollingBitset → Message → Run Bool
contains_in sets msg = do
  s ← access (get_elem? sets msg.originator)
  ok (contains s msg.bcast_seq_num)

-- The layer and its observer, above the links.
pub record Upper {ℓ} (T : Type ℓ) : Type ℓ where
  pub urb : Uniform
  pub top : T

-- `ack[msg].set(msg.sender)`: the bit set throws on a position that it does not have.
unfoldable pub record_ack : Uniform → Message → Run Uniform
record_ack u msg =
    if ltb msg.sender max_processes
    then ok (record u { ack = ack_put u.ack msg (update (ack_bits u.ack msg) msg.sender true) })
    else fault

-- `ack[msg].count() > (num_processes / 2)`
unfoldable pub has_quorum : Uniform → Message → Bool
unfolding ack_bits count
has_quorum u msg = ltb (u.num_processes / 2) (count (ack_bits u.ack msg))

-- `can_deliver`, which nothing calls: the conditions are tested one after the other, and reading
-- `ack[msg]` adds an empty entry if there is none.
unfoldable pub can_deliver : Uniform → Message → Run (Bool × Uniform)
unfolding contains_in has_quorum ack_touch
can_deliver u msg = contains_in u.delivered msg >>= λ done.
    if done
    then ok (false, u)
    else (let read : Uniform = record u { ack = ack_touch u.ack msg } in
        if has_quorum read msg
        then (contains_in u.pending msg >>= λ known. ok (known, read))
        else ok (false, read))

module _ {ℓ} {T : Type ℓ} (observer : Message → T → Run T) where
  abbrev set_urb : Stack (Upper T) → Uniform → Stack (Upper T)
  set_urb st u = record st { upper = record st.upper { urb = u } }

  -- Reading `ack[msg]` adds an empty entry if there is none.
  unfoldable pub try_deliver : Message → Stack (Upper T) → Run (Stack (Upper T))
  try_deliver msg st =
      let u : Uniform = record st.upper.urb { ack = ack_touch st.upper.urb.ack msg } in
      if has_quorum u msg
      then (do
        delivered ← insert_in u.delivered msg
        let u' : Uniform = record u { delivered = delivered; ack = ack_erase u.ack msg }
        top ← observer msg st.upper.top
        ok (record st { upper = record { urb = u'; top = top } }))
      else ok (set_urb st u)

  -- A message that is not pending becomes so, and is sent on. `again` is `deliver`, for the copy that
  -- the process sends to itself.
  unfoldable pub relay :
      (Message → Stack (Upper T) → Run (Stack (Upper T)))
      → Message
      → Stack (Upper T)
      → Run (Stack (Upper T))
  relay again msg st = do
    known ← contains_in st.upper.urb.pending msg
    if known
        then ok st
        else (insert_in st.upper.urb.pending msg >>= λ pending.
            BestEffort.send again st.upper.urb.bc msg
              (set_urb st (record st.upper.urb { pending = pending }))
            >>= λ (_, st'). ok st')

  unfoldable pub deliver : ℕ → Message → Stack (Upper T) → Run (Stack (Upper T))
  deliver zero msg st = out_of_fuel
  deliver (suc depth) msg st = do
    done ← contains_in st.upper.urb.delivered msg
    if done
        then ok st
        else (record_ack st.upper.urb msg >>= λ u.
            relay (deliver depth) msg (set_urb st u) >>= λ st'. try_deliver msg st')

  -- `send`; the messages that come back meanwhile are handled at the given depth.
  unfoldable pub send : ℕ → ℕ → Message → Stack (Upper T) → Run (Stack (Upper T))
  send depth seq_num msg st = do
    let u = st.upper.urb
    let msg' : Message = record msg { originator = u.id; bcast_seq_num = seq_num }
    pending ← insert_in u.pending msg'
    BestEffort.send (deliver depth) u.bc msg' (set_urb st (record u { pending = pending }))
        >>= λ (_, st'). ok st'
