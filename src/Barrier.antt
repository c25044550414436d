-- ===== src/Barrier.antt =====
-- `Coordinator` of code/src/include/barrier.hpp: how a process reports to the barrier and to the
-- signal server. The answers of the system calls are given in order; bytes are numbers.
pub mod Write
pub mod Tests
use cs451_2020_project.Base.{
  ℕ, Option, none, some, zero, suc, ◌+◌, Bool, true, false, List, [], ◌∷◌, ◌++◌, Run, ok, fault,
  out_of_fuel, ◌>>=◌, if◌then◌else◌, take, drop,
}
use cs451_2020_project.Message.Wire.{bytes_of}

-- What `write` returns: a number of bytes, an error after which the call is repeated (`EINTR`,
-- `EAGAIN`, `EWOULDBLOCK`), or another error.
pub data Answer : Type 0 where
  wrote : ℕ → Answer
  try_again : Answer
  broken : Answer

-- The bytes that have gone out, and whether all went well.
pub record Written : Type 0 where
  pub bytes : List ℕ
  pub complete : Bool

-- `out_of_fuel`: the last answer that is given does not end the loop.
unfoldable pub write_with_retry : List Answer → List ℕ → List ℕ → Run Written
write_with_retry answers [] done = ok (record { bytes = done; complete = true })
write_with_retry [] (b ∷ buf) done = out_of_fuel
write_with_retry (wrote n ∷ answers) (b ∷ buf) done =
    write_with_retry answers (drop n (b ∷ buf)) (done ++ take n (b ∷ buf))
write_with_retry (try_again ∷ answers) (b ∷ buf) done = write_with_retry answers (b ∷ buf) done
write_with_retry (broken ∷ answers) (b ∷ buf) done = ok (record { bytes = done; complete = false })

unfoldable pub reverse_bytes : List ℕ → List ℕ → List ℕ
reverse_bytes [] acc = acc
reverse_bytes (b ∷ bs) acc = reverse_bytes bs (b ∷ acc)

-- `htonT` on a little-endian machine, as the bytes of its result in memory.
unfoldable pub hton : ℕ → ℕ → List ℕ
unfolding bytes_of reverse_bytes
hton size value = reverse_bytes (bytes_of size value) []

-- What `socket` and `connect` return, and the answers of `write`.
pub record Network : Type 0 where
  pub socket_made : Bool
  pub connected : Bool
  pub answers : List Answer

pub data Connection : Type 0 where
  open_with : List ℕ → Connection
  no_socket : Connection
  no_connection : Connection
  not_sent : List ℕ → Connection

-- `connectToHost`; all but `open_with` are exceptions.
unfoldable pub connect_to_host : ℕ → Network → Run Connection
unfolding hton write_with_retry
connect_to_host id net =
    if net.socket_made
    then (if net.connected
        then (write_with_retry net.answers (hton 8 id) [] >>= λ w.
            ok (if w.complete then open_with w.bytes else not_sent w.bytes))
        else ok no_connection)
    else ok no_socket

pub data Waited : Type 0 where
  passed : List ℕ → Waited
  not_reached : Connection → Waited
  not_read : Waited

-- Once there is a connection, `recv` blocks until the barrier lets go, and may fail.
abbrev pub read_dummy : Bool → Connection → Waited
read_dummy heard (open_with sent) = if heard then passed sent else not_read
read_dummy heard other = not_reached other

-- `waitOnBarrier`; all but `passed` are exceptions.
unfoldable pub wait_on_barrier : ℕ → Network → Bool → Run Waited
unfolding connect_to_host
wait_on_barrier id net heard = connect_to_host id net >>= λ c. ok (read_dummy heard c)

-- The members that change: what has gone out over the connection to the signal server, and `none` once
-- it is closed.
pub record Coordinator : Type 0 where
  pub id : ℕ
  pub signal_fd : Option (List ℕ)

-- The constructor, with the connection that it has made.
unfoldable pub new_coordinator : ℕ → List ℕ → Coordinator
new_coordinator id sent = record { id = id; signal_fd = some sent }

unfoldable pub finished_broadcasting : Coordinator → Coordinator
finished_broadcasting c = record c { signal_fd = none }
