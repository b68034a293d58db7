-- ===== src/Plots.antt =====
-- src/backup: what the plotting scripts read from the log of a migrater.
pub mod Metrics
pub mod Ratio
pub mod Drawing
