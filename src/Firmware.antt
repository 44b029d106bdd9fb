-- ===== src/Firmware.antt =====
-- The firmware job: disks/firmware/root/firmware.py and the planner beside it.
pub mod Planner
pub mod Run
pub mod Witnesses
