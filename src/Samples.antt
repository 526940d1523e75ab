-- ===== src/Samples.antt =====
-- Concrete instances of the parameters of the model, and small messages, on which its theorems are
-- run: a clock whose texts hold one number, and Redis in memory.
pub mod Clock
pub mod Memory
pub mod Messages
