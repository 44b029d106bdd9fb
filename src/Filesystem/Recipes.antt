-- ===== src/Filesystem/Recipes.antt =====
-- The tables at the top of filesystem.py: what can be made, and the partition recipes by name.
use disks.Filesystem.Model.{Item, Recipe, Size, Sizes, boot, end, minus_swap, percent, swap}
use disks.Prelude.{
  List, String, [], if◌then◌else◌, nat_key, none, option_key, some, string_key, ℕ, ◌∷◌,
}
use disks.Prelude.Dict.{Dict}
use disks.Prelude.Int.{Frac, gt_frac, pos, sub_frac, whole}

-- `mkfs_map.keys()`
abbrev pub mkfs_types : List String
mkfs_types = "ext2" ∷ "ext3" ∷ "ext4" ∷ "xfs" ∷ "vfat" ∷ "swap" ∷ []

abbrev pub fs_with_trim : List String
fs_with_trim = "ext4" ∷ "xfs" ∷ []

-- An item with no key.
abbrev pub no_keys : Item
no_keys = record {
  target = none;
  type = none;
  group = none;
  size = none;
  mount_point = none;
  mount_options = none;
  mkfs_options = none;
  priority = none;
  used_as = none;
  md = none;
  level = none;
  meta_version = none;
  bcache = none;
  mode = none;
  vg = none;
  lv = none;
  name = none;
  ref_size = none;
  lambda = none;
}

-- { 'target': .., 'mount_point': .., 'size': .. }
abbrev pub mounted : ℕ → String → Size → Item
mounted drive point how_big = record no_keys {
  target = some drive;
  mount_point = some (some point);
  size = some how_big;
}

abbrev pub swap_on : ℕ → Size → Item
swap_on drive how_big = record no_keys {
  target = some drive;
  type = some "swap";
  size = some how_big;
}

-- { 'target': .., 'type': <md, pv or bcache>, 'group': .., 'size': .. }
abbrev pub member : ℕ → String → ℕ → Size → Item
member drive kind number how_big = record no_keys {
  target = some drive;
  type = some kind;
  group = some number;
  size = some how_big;
}

-- { 'md': .., 'level': .., 'mount_point': .. }
abbrev pub array : ℕ → ℕ → String → Item
array number raid point = record no_keys {
  md = some number;
  level = some raid;
  mount_point = some (some point);
}

abbrev pub volume_group : ℕ → String → Item
volume_group number label = record no_keys { vg = some number; name = some label }

abbrev pub volume : ℕ → String → String → Size → Item
volume number label point how_big = record no_keys {
  lv = some number;
  name = some label;
  mount_point = some (some point);
  size = some how_big;
}

abbrev pub ref : String → (Sizes → Frac) → Item
ref which f = record no_keys { ref_size = some which; lambda = some f }

-- the two lambdas of 'raid10' and 'raid6'
unfoldable pub larger : Sizes → Frac
larger sizes = if gt_frac sizes.swap sizes.boot then sizes.swap else sizes.boot

unfoldable pub larger_unreserved : Sizes → Frac
larger_unreserved sizes =
    if gt_frac sizes.swap sizes.boot
    then sub_frac sizes.swap sizes.boot_rsvd
    else sub_frac sizes.boot sizes.boot_rsvd

abbrev pub single : Recipe
single = mounted 0 "/boot" boot ∷ mounted 0 "/" minus_swap ∷ swap_on 0 end ∷ []

abbrev pub mirror : Recipe
mirror =
    member 0 "md" 0 boot
    ∷ member 1 "md" 0 boot
    ∷ member 0 "md" 1 minus_swap
    ∷ member 1 "md" 1 minus_swap
    ∷ swap_on 0 end
    ∷ swap_on 1 end
    ∷ array 0 1 "/boot"
    ∷ array 1 1 "/"
    ∷ []

abbrev pub raid10 : Recipe
raid10 =
    member 0 "md" 0 boot
    ∷ member 1 "md" 0 boot
    ∷ swap_on 2 swap
    ∷ swap_on 3 swap
    ∷ member 0 "md" 1 end
    ∷ member 1 "md" 1 end
    ∷ member 2 "md" 1 end
    ∷ member 3 "md" 1 end
    ∷ array 0 1 "/boot"
    ∷ array 1 10 "/"
    ∷ ref "boot" larger
    ∷ ref "swap" larger_unreserved
    ∷ []

abbrev pub raid6 : Recipe
raid6 =
    member 0 "md" 0 boot
    ∷ member 1 "md" 0 boot
    ∷ swap_on 2 swap
    ∷ swap_on 3 swap
    ∷ member 0 "md" 1 end
    ∷ member 1 "md" 1 end
    ∷ member 2 "md" 1 end
    ∷ member 3 "md" 1 end
    ∷ array 0 1 "/boot"
    ∷ array 1 6 "/"
    ∷ ref "boot" larger
    ∷ ref "swap" larger_unreserved
    ∷ []

abbrev pub single_lvm : Recipe
single_lvm =
    mounted 0 "/boot" boot
    ∷ member 0 "pv" 0 minus_swap
    ∷ swap_on 0 end
    ∷ volume_group 0 "VG0"
    ∷ volume 0 "root" "/" (percent (whole (pos 1)))
    ∷ []

abbrev pub dual_lvm : Recipe
dual_lvm =
    member 0 "md" 0 boot
    ∷ member 1 "md" 0 boot
    ∷ member 0 "pv" 0 minus_swap
    ∷ swap_on 0 end
    ∷ member 1 "pv" 0 minus_swap
    ∷ swap_on 1 end
    ∷ array 0 1 "/boot"
    ∷ volume_group 0 "VG0"
    ∷ volume 0 "root" "/" (percent (record { num = pos 95; den = 100 }))
    ∷ []

abbrev pub bcache_var : Recipe
bcache_var =
    mounted 0 "/boot" boot
    ∷ mounted 0 "/" minus_swap
    ∷ swap_on 0 end
    ∷ record (member 1 "bcache" 0 end) { used_as = some "cache" }
    ∷ record (member 2 "bcache" 0 end) { used_as = some "backing" }
    ∷ record no_keys {
      bcache = some 0;
      mount_point = some (some "/var");
      type = some "ext4";
      mode = some "writeback";
    }
    ∷ []

unfoldable pub partition_recipes : Dict String Recipe
partition_recipes =
    ("single", single)
    ∷ ("mirror", mirror)
    ∷ ("raid10", raid10)
    ∷ ("raid6", raid6)
    ∷ ("single-lvm", single_lvm)
    ∷ ("dual-lvm", dual_lvm)
    ∷ ("bcache-var", bcache_var)
    ∷ []
