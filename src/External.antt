-- ===== src/External.antt =====
-- The libraries that src/ calls and does not implement, or holds a copy of: each is a record of
-- operations, with the documented facts that the code relies on. Everything that uses one takes
-- it as a parameter.
pub mod Boost
pub mod Queue
pub mod Accumulators
pub mod Random
pub mod Fluid
