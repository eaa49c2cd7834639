-- ===== src/Timing.antt =====
-- src/timing.hpp
pub mod Tsc
pub mod Flush
pub mod Scrub
pub mod Stats
pub mod Stamp
pub mod Calibrate
