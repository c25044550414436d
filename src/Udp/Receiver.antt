-- ===== src/Udp/Receiver.antt =====
-- What the receiver task of code/src/src/main.cpp puts into the queue.
use mathlib.Core.List.{append_assoc, append-nil}
use cs451_2020_project.Base.{ℕ, ◌≡◌, sym, ap, ◌∙◌, true, false, List, [], ◌∷◌, ◌++◌, ok}
use cs451_2020_project.Message.{Message}
use cs451_2020_project.Message.Wire.{IsWellFormed, IsSame, datagram, receive-datagram}
use cs451_2020_project.Udp.{Received, arrived, broken, receiver}

-- A message on its way, with the two bytes of padding in its datagram.
pub record Packet : Type 0 where
  pub message : Message
  pub padding : ℕ
  pub padding' : ℕ

abbrev pub bytes : Packet → List ℕ
bytes x = datagram x.message x.padding x.padding'

abbrev pub all_arrived : List Packet → List Received
all_arrived [] = []
all_arrived (x ∷ xs) = arrived (bytes x) ∷ all_arrived xs

abbrev pub AreWellFormed : List Packet → Type 0
AreWellFormed [] = Unit {0}
AreWellFormed (x ∷ xs) = IsWellFormed x.message × AreWellFormed xs

-- The same messages in the same order.
abbrev pub AreSame : List Packet → List Message → Type 0
AreSame [] [] = Unit {0}
AreSame (x ∷ xs) (m ∷ ms) = IsSame x.message m × AreSame xs ms
AreSame _ _ = ⊥

-- When the datagrams of messages whose values fit their types arrive, the receiver task puts the same
-- messages into the queue, behind those that wait, in the order in which they arrive, and
-- nothing is read outside an array; and when a call
-- of `recvfrom` then fails, the program ends.
pub receiver-datagrams :
    (xs : List Packet) (queue : List Message)
    → AreWellFormed xs
    → (got : List Message) × (receiver (all_arrived xs) queue ≡ ok (queue ++ got, true))
      × (receiver (all_arrived xs ++ broken ∷ []) queue ≡ ok (queue ++ got, false))
      × AreSame xs got
unfolding receiver
receiver-datagrams [] queue h =
    let whole = sym (append-nil queue) in
    ([], ap (λ l. ok (l, true)) whole, ap (λ l. ok (l, false)) whole, tt)
receiver-datagrams (x ∷ xs) queue h =
    let (m, read, alike) = receive-datagram x.message x.padding x.padding' h.0 in
    let (got, run, run', same) = receiver-datagrams xs (queue ++ m ∷ []) h.1 in
    let behind = append_assoc queue (m ∷ []) got in
    (
      m ∷ got,
      rw read (run ∙ ap (λ l. ok (l, true)) behind),
      rw read (run' ∙ ap (λ l. ok (l, false)) behind),
      (alike, same),
    )
