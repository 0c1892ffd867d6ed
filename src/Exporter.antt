-- ===== src/Exporter.antt =====
-- Packages lib/exporter, lib/exporter/prometheus and lib/utils.
pub mod Errors
pub mod Metric
pub mod World
pub mod Ups
pub mod Volume
pub mod Write
pub mod Disk
pub mod Environment
pub mod System
pub mod Nvme
pub mod Machine
pub mod Shapes
pub mod Labels
pub mod Scrape
pub mod Tests
