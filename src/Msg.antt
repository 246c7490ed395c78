-- ===== src/Msg.antt =====
-- `enum OFPT_T` and its tables (src/globals.h).
mod Types
pub mod Packets
pub mod Messages
pub mod Laws
unfoldable pub use Types.*
