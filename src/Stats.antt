-- ===== src/Stats.antt =====
-- The statistics (src/statistics).
pub mod Latency
pub mod Collector
pub mod Figures
pub mod Output
