-- ===== src/Libconfig.antt =====
-- The configuration curator, src/libconfig/libconfig.py: its tables, `configPackage`, the status of the
-- targets and the cache of the values.
pub mod Rows
pub mod Package
pub mod Status
pub mod Cache
pub mod Database
pub mod Witnesses
