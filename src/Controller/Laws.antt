-- ===== src/Controller/Laws.antt =====
-- What the sending thread and the callbacks do, over any interleaving of them.
pub mod Steps
pub mod Sending
pub mod Connection
pub mod Ready
pub mod Turns
pub mod Progress
pub mod Stopping
pub mod Bytes
pub mod Waiting
pub mod Measured
pub mod Rising
pub mod Ordered
pub mod Order
pub mod Report
