-- ===== src/Udp.antt =====
-- `udp::Socket` of code/src/src/udp.cpp, over what the system calls answer, and the receiver task of
-- code/src/src/main.cpp.
pub mod Receiver
pub mod Tests
use cs451_2020_project.Base.{
  ℕ, Bool, true, false, List, [], ◌∷◌, Option, none, some, if◌then◌else◌, Run, ok, fault, ◌>>=◌,
}
use cs451_2020_project.Message.{Message}
use cs451_2020_project.Message.Wire
use cs451_2020_project.Link.FairLoss.{Address}
use cs451_2020_project.Link.Queue

-- A method that may throw.
pub data Called {ℓ} (A : Type ℓ) : Type ℓ where
  returned : A → Called A
  thrown : Called A

-- What `recvfrom` answers: a datagram, `EWOULDBLOCK`, or another error.
pub data Received : Type 0 where
  arrived : List ℕ → Received
  would_block : Received
  broken : Received

unfoldable pub socket_address : ℕ → ℕ → Address
socket_address ip port = record { ip = ip; port = port }

-- What `socket` and `bind` return.
unfoldable pub open_socket : Bool → Bool → Called (Unit {0})
open_socket made bound = if made then (if bound then returned tt else thrown) else thrown

-- What `sendto` returns.
pub send : Bool → Called (Unit {0})
send sent = if sent then returned tt else thrown

-- The length and the buffer are one here: `Wire.receive` cuts a datagram to the buffer.
pub try_recv : Received → Called (Option (List ℕ))
try_recv (arrived packet) = returned (some packet)
try_recv would_block = returned none
try_recv broken = thrown

pub recv : Received → Called (List ℕ)
recv (arrived packet) = returned packet
recv would_block = thrown
recv broken = thrown

-- The loop of the receiver task, for the answers that come until it is cancelled: the messages in the
-- queue, and whether no exception has ended the program.
pub receiver : List Received → List Message → Run (List Message × Bool)
unfolding recv Queue.push Wire.receive
receiver [] message_queue = ok (message_queue, true)
receiver (answer ∷ answers) message_queue = elim (recv answer) [
  | returned buf ↦ Wire.receive buf >>= λ msg. receiver answers (Queue.push msg message_queue)
  | thrown ↦ ok (message_queue, false)
]
