-- ===== src/DiskTest.antt =====
-- The drives of the disk test: disks/disk-test/root/pylib/DriveManager.py and `LocalEvaluator` of
-- disks/disk-test/root/pylib/Evaluator.py. A drive is the name of its object; what libdrive and the
-- kernel say of it is a parameter.
pub mod Limits
pub mod Lists
pub mod Evaluate
pub mod Kept
pub mod Witnesses
