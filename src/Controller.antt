-- ===== src/Controller.antt =====
-- `HVBenchController` (src/HVBenchController.h and .cpp): the controller that a tenant runs.
pub mod Defs
pub mod Run
pub mod Laws
