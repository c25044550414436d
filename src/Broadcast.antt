-- ===== src/Broadcast.antt =====
-- The broadcast layers of code/src/src, from the bottom up.
pub mod Ring
pub mod BestEffort
pub mod Uniform
pub mod Fifo
pub mod Causal
