-- ===== src/Filesystem/Partition.antt =====
-- `partition` of filesystem.py: the settings, the plan of every drive, and then the commands.
pub mod Others
pub mod Commands
use disks.Filesystem.Arrays.{make_array, make_cache}
use disks.Filesystem.Model.{Action, FsEntry, Host, execute, parted}
use disks.Filesystem.Parted.Numbering.{script}
use disks.Filesystem.Plan.{lift, plan, with_key}
use disks.Filesystem.Settings.{Profile, Settings, Values, settings}
use disks.Filesystem.Sync.{speed_sync}
use disks.Filesystem.Targets.{is_some}
use disks.Filesystem.Volumes.{make_volumes}
use disks.Prelude.{List, String, [], map, nat_key, none, option_key, some, string_key, ◌∷◌}
use disks.Prelude.Dict.{Dict, insert}
use disks.Prelude.Exec.{for_each, gets, modify, ◌>>=◌, ◌>>◌}
use disks.Prelude.Int.{Frac}

-- `_parted` on every drive that has a script
unfoldable pub run_parted : Host → Action (Unit {0})
run_parted host = do
  scripts ← gets (λ s. s.parted_task_map)
  for_each scripts (λ script. execute host (parted script.0 script.1))

-- the loop that fills `partition_map`
unfoldable pub mapped : List FsEntry → Dict String String → Dict String String
mapped [] map = map
mapped (fs ∷ entries) map = mapped entries (elim fs.mount_point [
  | none ↦ map
  | some here ↦ elim here [ none ↦ map | some point ↦ insert point fs.block_device map ]
])

unfoldable pub map_partitions : Action (Unit {0})
map_partitions = modify (λ s. record s { partition_map = mapped s.filesystem_list s.partition_map })

-- `partition` behind the scripts
unfoldable pub build : Host → Profile → Settings → Frac × Frac → Action (Unit {0})
build host profile settings sizes = do
  run_parted host
  for_each (with_key (λ i. is_some i.md) settings.recipe) (make_array host profile settings)
  for_each (with_key (λ i. is_some i.bcache) settings.recipe) (make_cache host profile settings)
  make_volumes host profile settings sizes.0 sizes.1
  map_partitions
  speed_sync host

-- The local variables of a call: dicts that are empty, and names that are not bound.
unfoldable pub new_locals : Action (Unit {0})
new_locals = modify (λ s. record s {
  mount_options = none;
  priority = none;
  part_type = none;
  size = none;
  md_list = [];
  pv_list = [];
  bcache_cache_list = [];
  bcache_backing_list = [];
})

unfoldable pub partition : Host → Profile → Values → Action (Unit {0})
partition host profile values = do
  chosen ← lift (settings host profile values)
  new_locals
  sizes ← plan host profile chosen
  build host profile chosen sizes
