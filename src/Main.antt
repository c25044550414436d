-- ===== src/Main.antt =====
-- The loop of code/src/src/main.cpp that takes turns between sending and receiving, and the one that
-- receives for ever. The layers stand behind `receive` and `broadcast`; what the receiver task puts
-- into the queue before each round is given for the round.
pub mod Turns
pub mod Tests
use cs451_2020_project.Base.{
  ℕ, zero, suc, ◌+◌, ◌-◌, ◌*◌, ◌%◌, ◌^◌, Bool, true, false, List, [], ◌∷◌, ◌++◌, Option, none, some,
  ltb, if◌then◌else◌, Run, ok, fault, out_of_fuel, ◌>>=◌,
}
use cs451_2020_project.Message.{Message}
use cs451_2020_project.Link.Queue

-- The variables of the loop.
pub record Turn {ℓ} (S : Type ℓ) : Type ℓ where
  pub next_msg : ℕ  -- 32 bits
  pub subsequent_recvs : ℕ
  pub message_queue : List Message
  pub layers : S

module _ {ℓ} {S : Type ℓ} (receive : Message → S → Run S) (broadcast : ℕ → S → Run S)
    (num_messages : ℕ) where
  -- `broadcast.send(next_msg); log.log_broadcast(next_msg);` are one operation here.
  unfoldable pub send_next : Turn S → Run (Turn S)
  send_next t = broadcast t.next_msg t.layers >>= λ layers. ok (record t {
    subsequent_recvs = num_messages;
    next_msg = (t.next_msg + 1) % 2 ^ 32;
    layers = layers;
  })

  unfoldable pub take_next : Message → List Message → Turn S → Run (Turn S)
  take_next msg rest t = receive msg t.layers >>= λ layers. ok (record t {
    subsequent_recvs = t.subsequent_recvs - 1;
    message_queue = rest;
    layers = layers;
  })

  -- The body of the loop.
  unfoldable pub turn : Turn S → Run (Turn S)
  unfolding send_next take_next Queue.try_pop
  turn t =
      if ltb 0 t.subsequent_recvs
      then elim (Queue.try_pop t.message_queue) [
        | none ↦ send_next t
        | some (msg, rest) ↦ take_next msg rest t
      ]
      else send_next t

  -- The loop with fuel; `arrivals n` comes when `n` rounds are left.
  unfoldable pub loop : ℕ → (ℕ → List Message) → Turn S → Run (Turn S)
  unfolding turn
  loop zero arrivals t = if ltb t.next_msg num_messages then out_of_fuel else ok t
  loop (suc rounds) arrivals t = elim (ltb t.next_msg num_messages) [
    | false ↦ ok t
    | true ↦
        turn (record t { message_queue = t.message_queue ++ arrivals rounds })
        >>= loop rounds arrivals
  ]

  -- From `BroadcastSeqNum next_msg = 0` on.
  unfoldable pub sending : ℕ → (ℕ → List Message) → S → Run (Turn S)
  unfolding loop
  sending rounds arrivals layers = loop rounds arrivals (record {
    next_msg = 0;
    subsequent_recvs = num_messages;
    message_queue = [];
    layers = layers;
  })

  -- `while (true) link.receive(message_queue.pop());`, for the messages that come.
  unfoldable pub receiving : List Message → S → Run S
  receiving [] layers = ok layers
  receiving (msg ∷ msgs) layers = receive msg layers >>= receiving msgs
