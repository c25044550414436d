-- ===== src/Link.antt =====
-- The point-to-point layer of code/src/src: fair-loss and perfect links, and the worker thread that
-- sends again.
pub mod SeqNum
pub mod FairLoss
pub mod Queue
pub mod Worker
pub mod Perfect
pub mod Thread
pub mod Session
pub mod Tests
