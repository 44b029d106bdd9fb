-- ===== src/Filesystem.antt =====
-- The disk layout of the installer: disks/linux-installer/root/installer/filesystem.py.
pub mod Model
pub mod Parted
pub mod Recipes
pub mod Targets
pub mod Settings
pub mod Plan
pub mod Trace
pub mod Arrays
pub mod Volumes
pub mod Sync
pub mod Partition
pub mod Mount
pub mod Fstab
pub mod Samples
pub mod Witnesses
