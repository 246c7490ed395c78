-- ===== src/Node.antt =====
-- The data plane: `class Node` (src/Node.cpp) and `HVBenchNode` (src/HVBenchNode.h and .cpp), the
-- switch that answers a hypervisor's messages. What it does to libfluid's connection is an effect.
pub mod Switch
pub mod Client
pub mod Life
