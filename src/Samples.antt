-- ===== src/Samples.antt =====
-- Concrete values for the parameters of the other modules, on which the tests run.
pub mod Value
pub mod Channels
pub mod Queue
