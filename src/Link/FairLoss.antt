-- ===== src/Link/FairLoss.antt =====
-- code/src/include/fair-loss-link.hpp and code/src/src/fair-loss-link.cpp. What is sent is kept in
-- `sent`, the last one first; `Message/Wire` has the bytes of each. A `sendto` that fails throws
-- (`Udp.send`) and ends the program: that is not part of the stack, whose socket takes each datagram.
use cs451_2020_project.Base.{ℕ, List, ◌∷◌, get_elem?, Run, ok, ◌>>=◌, access}
use cs451_2020_project.Message.{Message}

-- What `udp::socket_address` keeps of a host.
pub record Address : Type 0 where
  pub ip : ℕ
  pub port : ℕ

pub record FairLossLink : Type 0 where
  pub id : ℕ
  pub addrs : List Address
  pub sent : List (Address × Message)

-- The caller's message has its sender set; it comes back with the new state.
unfoldable pub send : ℕ → Message → FairLossLink → Run (FairLossLink × Message)
send receiver msg link = do
  let msg' : Message = record msg { sender = link.id }
  addr ← access (get_elem? link.addrs receiver)
  ok (record link { sent = (addr, msg') ∷ link.sent }, msg')
