-- ===== src/Lib.antt =====
-- A message broadcast for a fixed set of processes over UDP (code/src): each process sends numbered
-- messages to all, and logs its own and those of the others in an order that respects the causal
-- dependencies of a configuration file. The program is a stack of layers, each the observer of the
-- one below; code/src/src/main.cpp puts them together.
--
--   LocalizedCausalBroadcast   waits for the messages that a message depends on   Broadcast/Causal
--   UniformReliableBroadcast   waits for acknowledgements by more than half       Broadcast/Uniform
--   BestEffortBroadcast        sends to neighbours on a ring and to itself        Broadcast/BestEffort
--                              create_n_connected_ring                            Broadcast/Ring
--   PerfectLink                numbers, retries and drops doubles                 Link/Perfect
--                              its "Syn" and "Ack" bits                           Link/SeqNum
--                              the worker thread of a peer                        Link/Worker
--                              that thread beside the layers of its process       Link/Thread
--   FairLossLink               sends a datagram                                   Link/FairLoss
--   FifoBroadcast              an alternative top layer, which main.cpp does not use
--                                                                                 Broadcast/Fifo
--
-- What they share: RollingSet (RollingBitset of code/src/src/rolling-set.cpp), StaticVec
-- (code/src/include/static-vec.hpp), Message and its bytes in Message/Wire
-- (code/src/include/message.hpp, the receiver task of main.cpp), PriorityQueue
-- (std::priority_queue), Link/Queue (code/src/include/concurrent-queue.hpp), Config
-- (code/src/include/config-parser.hpp), Hosts (the hosts file) and Args (the command line), both
-- of code/src/include/parser.hpp, Barrier (code/src/include/barrier.hpp, how a process reports to
-- the barrier and the signal server), Udp (code/src/src/udp.cpp, with the receiver task) and
-- Logger (code/src/src/logger.cpp). Main is the loop of main.cpp that takes turns between sending
-- and receiving, over any layers, and Process the layers put together; Startup is what main does
-- before, and main as a whole. Task (code/src/include/task.hpp) is a thread that is cancelled and
-- joined. Link/Session puts two processes, with main thread and worker thread each, and a network
-- that loses, repeats and reorders into one step relation. System does so for all processes: the
-- layers of each with the worker threads of all its peers, broadcasts, and a network that also
-- misdirects. Base has lists, tests and bits on the native numbers, and `Run`, the result of code
-- that may fault. Proofs stand in child modules named for what they are about, examples in the
-- modules Tests.
--
-- How code is modelled. A class is a record of its members, a method a function from the state to
-- the state and what the method returns. A vector, deque or array is a list, a bit set a function
-- to Bool, an unordered map a list of entries. A read outside an array or a vector, or the top of
-- an empty heap, which C++ leaves undefined, is `fault` or `none`. Unsigned arithmetic wraps as
-- written out in each place; the 8-bit ProcessId and the 32-bit BroadcastSeqNum wrap where the code
-- stores a result. The layers above a link travel with its state (`Stack`), because a message that
-- a process sends to itself comes back up while `send` runs. Heaps keep entries sorted; which of
-- two equal keys is first is not used. The lock of a queue makes each method one step, and what a
-- clock shows is an argument.
--
-- Bounds and fuel. The loop of LocalizedCausalBroadcast::deliver has as many rounds as there are
-- messages waiting, times the number of heaps and one, and a last pass: a message that goes up is
-- one less waiting and starts the iterator again, and a pass without one ends the loop.
-- UniformReliableBroadcast::deliver takes the depth to which it is entered from inside; a message
-- is pending by the time it comes back to the process itself, so that depth 2 is enough. The loop
-- of FifoBroadcast::deliver has one round for each entry of the queue and one more. The loop of
-- main.cpp, for n messages, has n * (n + 1) + n rounds: at most n messages are taken between two
-- that are sent. The loop of writeWithRetry has one round for each answer of `write`; when none is
-- left it is out of fuel. `join` waits while the thread makes a number of tests of its token. The other
-- loops are structural.
--
-- System sets the processes side by side: `Step` is a broadcast, a round of a worker thread, or the
-- arrival of something that any process has sent, and `Reach` what steps lead to. Its history is not
-- part of the program: it remembers each broadcast, and what its originator had handed up by then.
--
-- Not modelled: a sendto that fails, which throws and ends the program in the middle of a step
-- (the sockets of the stack take each datagram; Udp has the exception), the overflow of a time
-- (the first 35 repetitions of a message are in range), signals that interrupt a step, what is
-- printed, the scripts, and the serialization helpers, which nothing calls. In Process the
-- observer on top is the log of Broadcast/Causal; Process/Output puts Logger there, which gets
-- what is new in that log after each step. The text of the hosts and configuration files is
-- modelled from what the standard streams read of each line.
pub mod Base
pub mod RollingSet
pub mod StaticVec
pub mod Message
pub mod PriorityQueue
pub mod Process
pub mod System
pub mod Startup
pub mod Task
pub mod Args
pub mod Config
pub mod Hosts
pub mod Barrier
pub mod Broadcast
pub mod Link
pub mod Logger
pub mod Main
pub mod Udp
