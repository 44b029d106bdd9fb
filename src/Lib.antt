-- ===== src/Lib.antt =====
-- The jobs of this repository's disk images, as far as they are verified.
--
-- A disk image boots a machine and runs one job on it: the Linux installer, a firmware update, a
-- disk test, a BIOS configuration. The development is about the most intricate of these jobs, the
-- disk layout of the installer, disks/linux-installer/root/installer/filesystem.py, about the
-- loop of the firmware job, disks/firmware/root/firmware.py, about the drives that the disk test
-- keeps, disks/disk-test/root/pylib, and about two libraries that the jobs
-- are built on: the client of the contractor, src/contractor, and the configuration curator,
-- src/libconfig. The jobs do not share state: each runs in its own boot. A job asks the contractor
-- for its config and reports to it; the installer hands the config to the curator.
--
-- The parts and the files:
-- - Prelude and the files below it: shared names and lemmas. Prelude/Exec is the small monad for
--   code that changes state and may raise: an error comes back beside the state, so that what was
--   written before stays written. Prelude/Exec/Keeps has the rules for invariants.
-- - Filesystem/Model: the data. A recipe is a list of items, dicts of which any key may be
--   missing; `State` has the module's globals (filesystem_list, mount_list, partition_map,
--   boot_drives, parted_task_map, partition_counter, partition_pos), the local variables of
--   `partition` that one item leaves for the next, and the log of everything that was executed. A
--   list of mount options is an object that several entries may share: entries and the variable
--   hold its place in `option_lists`.
-- - Filesystem/Parted: `_addPartition`. Filesystem/Recipes: the tables. Filesystem/Targets:
--   `_targetsWithMount`, `_getTargetDrives` and the wait for the drives.
-- - Filesystem/Settings, Plan, Arrays, Volumes, Sync and Partition: `partition`, in the order of
--   its code: what it reads and refuses, the layout of the drives, the RAID arrays and bcache
--   devices, the volume groups, the wait for the arrays, and the composition. Filesystem/Parted has
--   child modules on the numbers, the places and the scripts of the partitions; Arrays/Made and
--   Partition/Commands are about the commands that are run.
-- - Filesystem/Mount: `mkfs`, `mount`, `remount` and `unmount`. Filesystem/Fstab: `writefstab`,
--   `fsConfigValues` and `_getFirstMDMember`.
-- - Firmware/Planner: `findStep` of disks/firmware/root/firmware/planner.py, with Python's `re` as
--   the parameter `Patterns`. Firmware/Run: the script disks/firmware/root/firmware.py, which
--   updates what the handlers list; `Outside` has the handlers, which are plugins, and the
--   network, `Progress` the variables and the events. Firmware/Run/Handlers and
--   Firmware/Run/Settled are about its runs.
-- - Procutils: `_execute` of disks/linux-installer/root/installer/procutils.py, its ten attempts
--   and the return codes that it retries. The disk layout gives it none, so that a command runs
--   once there.
-- - Cinp: src/contractor/contractor/cinp, a client of the CInP protocol. Cinp/Uri is the class `URI`
--   of common.py, its regular expression written out as a walk over the characters; the rest is
--   client.py: Cinp/Check is `_checkRequest`, Cinp/Request `_request` and `setAuth`, Cinp/Client the
--   operations. `Cinp` has the host, the root path, the opener, the JSON library and `int`;
--   `Session` what changes, the headers and the requests that were sent. A text is a list of code
--   points there.
-- - Contractor: `HTTPClient` of src/contractor/contractor/client.py, its retries and the calls of
--   the job. The delays between the retries only pass time.
-- - Libconfig: src/libconfig/libconfig.py. Libconfig/Rows are the two tables, Libconfig/Package is
--   `configPackage`, Libconfig/Status `getTargetStatus`, Libconfig/Cache the cache of the values,
--   Libconfig/Database `_checkDB`. `Package` has what a run is given: the
--   texts of the templates, the blocks that the template engine makes of each, the hash, the paths
--   and the time; `World` has the files and the tables.
-- - DiskTest: disks/disk-test/root/pylib. DiskTest/Limits has the SMART limits of Evaluator.py,
--   DiskTest/Lists the lists of DriveManager.py and their pruning, DiskTest/Evaluate the local
--   evaluator. `Drives` has what libdrive and the kernel say of a drive.
-- - Filesystem/Trace: which commands an action runs. Filesystem/Samples and Filesystem/Witnesses:
--   a small machine, tests and examples; the Witnesses of the other parts: the same for them.
--
-- Parameters. `Host` has what the code only calls: the exit status and the output of each command,
-- the directories, /proc/mounts, the answers of libdrive's enumeration, `re.search`, the clock.
-- The n-th answer is the one behind n commands, so that it may change from one call to the next.
--
-- Loops are structural recursions, but for three of filesystem.py. The wait for the drives makes
-- 10 enumerations at most, as its counter does. The wait for the arrays runs on fuel 12, enough
-- where every sleep of 30 seconds lasts that long. The loop of `unmount` that kills processes has
-- no bound in the code: its fuel is an argument, and `still_running` says that it did not suffice.
-- In the client, `getMulti` runs on the number of its ids as fuel, enough for every block size from
-- 1 on, and `HTTPClient.request` on one more than the number of its retries; where that number is
-- -1, which retries without end, an argument says how often.
--
-- Sizes are integers or quotients of integers where Python computes with floats. Opening files and
-- making directories is taken to succeed. What `writefstab` writes is the list of its lines; a
-- raise on the way leaves a part of the file, which is not modelled.
--
-- Not modelled: `grubConfigValues`, `installFilesystemUtils`, the text of the commands, the
-- plugins of the firmware job, and the other jobs; what the disk test reports
-- and runs on its drives; `getFile`, `getFilteredURIs` and the clients of
-- the contractor that read a file; the lists of the curator's packages and templates, and what its
-- commands print. C programs, shell scripts, vendored jinja2 and
-- markupsafe, and the image build are outside of the development.
pub mod Prelude
pub mod Filesystem
pub mod Firmware
pub mod Procutils
pub mod Cinp
pub mod Contractor
pub mod Libconfig
pub mod DiskTest
