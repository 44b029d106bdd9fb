-- ===== src/Libconfig/Witnesses.antt =====
-- A package with one template, which makes one file.
use disks.Cinp.Json.{Json, boolean, null}
use disks.Libconfig.Cache.{
  Codec, Store, cached_from, get_contractor_values, get_values, is_falsy, keep_rows, update_cache,
  update_rows, write_row,
}
use disks.Libconfig.Cache.Fresh.{update_cache-lookup}
use disks.Libconfig.Database.{check_db, check_db-twice, no_tables}
use disks.Libconfig.Package.{Flags, Package, World, config_package, config_template}
use disks.Libconfig.Package.Guarded.{config_template-IsChanged}
use disks.Libconfig.Package.Overwrite.{config_template-overwrites}
use disks.Libconfig.Package.Safe.{config_package-dry_run}
use disks.Libconfig.Rows.{TargetRow, targets_from}
use disks.Libconfig.Status.{Status, answer_no, map_result, target_status}
use disks.Libconfig.Status.Agree.{template_status-config_template}
use disks.Prelude.{
  String, [], false, if◌then◌else◌, nat_key, none, option_key, option_same, refl, some, string_key,
  true, ◌<>◌, ◌==◌, ◌∷◌, ◌≡◌,
}
use disks.Prelude.Dict.{Dict, has_key, insert, keys, lookup}
use disks.Prelude.Exec.{for_each}

abbrev ntp : Package
ntp = record {
  name = "base";
  template_list = "ntp" ∷ [];
  template_text = λ template. some "server {{ntp}}";
  render = λ template. ("/etc/ntp.conf", "server a") ∷ [];
  sha1 = λ content. content;
  target_file =
      λ dest_rootdir target. if dest_rootdir == "" then target else dest_rootdir <> target;
  written_file =
      λ dest_rootdir target. if dest_rootdir == "" then target else dest_rootdir <> target;
  status_file = λ target. target;
  saved_name = λ path. path <> ".old";
  last_modified = 10;
  now = 20;
}

abbrev careful : Flags
careful = record {
  force = false;
  dry_run = false;
  no_backups = false;
  re_generate = false;
  dest_rootdir = "";
}

abbrev trial : Flags
trial = record {
  force = true;
  dry_run = true;
  no_backups = false;
  re_generate = true;
  dest_rootdir = "";
}

-- The file is there, with this text, and nothing is known of it.
abbrev unknown : String → World
unknown content = record { files = ("/etc/ntp.conf", content) ∷ []; templates = []; targets = [] }

-- The file is there, with this text, and was built with another one.
abbrev built_row : TargetRow
built_row = record {
  in_package = "base";
  template = "ntp";
  target = "/etc/ntp.conf";
  target_hash = some "server a";
  last_checked = some 15;
  last_built = some 15;
}

abbrev built : String → World
built content = record {
  files = ("/etc/ntp.conf", content) ∷ [];
  templates = [];
  targets = built_row ∷ [];
}

config_package-dry_run_example :
    (config_package ntp ("ntp" ∷ []) trial (unknown "mine")).1 ≡ unknown "mine"
config_package-dry_run_example = config_package-dry_run ntp ("ntp" ∷ []) trial (unknown "mine") refl

config_template-IsChanged_example :
    (config_template ntp careful (("ntp", some "server {{ntp}}") ∷ []) "ntp" (built "mine")).1
    ≡ built "mine"
unfolding targets_from lookup insert option_same
config_template-IsChanged_example =
    config_template-IsChanged ntp careful (("ntp", some "server {{ntp}}") ∷ []) "ntp" []
      "/etc/ntp.conf" [] (built "mine") refl refl (built_row, "mine", refl, refl, refl)

config_template-overwrites_example :
    (config_template ntp careful [] "ntp" (unknown "mine")).1.files
    ≡ insert "/etc/ntp.conf" "server a" (("/etc/ntp.conf", "mine") ∷ [])
unfolding targets_from lookup
config_template-overwrites_example =
    config_template-overwrites ntp careful [] "ntp" "server {{ntp}}" "/etc/ntp.conf" "server a"
      "mine" (unknown "mine") refl refl refl refl refl refl refl refl refl

abbrev settled : Status
settled = record {
  template = "ntp";
  target = "/etc/ntp.conf";
  need_update = answer_no;
  localmod = answer_no;
  last_built = some 15;
  referenced = true;
}

template_status-config_template_example :
    (config_template ntp careful
      (("ntp", some "server {{ntp}}") ∷ [])
      "ntp"
      (built "server a")).1.files
    ≡ (("/etc/ntp.conf", "server a") ∷ [])
unfolding targets_from lookup insert option_same target_status map_result
template_status-config_template_example =
    template_status-config_template ntp careful (built "server a") "ntp" "server {{ntp}}"
      "/etc/ntp.conf" [] (("ntp", some "server {{ntp}}") ∷ []) (settled ∷ []) refl refl (λ t. refl)
      refl refl refl ((refl, refl), tt)

-- A codec that can tell two values, a store with an old row and one that has to go, and a config.
abbrev flag_codec : Codec
flag_codec = record {
  encode = λ j. if is_falsy j then "no" else "yes";
  decode = λ stored. if stored == "no" then null else boolean true;
  parse_time = λ j. some j;
  same_value = λ i j. true;
}

abbrev stale : Store
stale = record {
  value_cache =
      record { name = "gone"; stored = "yes" } ∷ record { name = "kept"; stored = "no" } ∷ [];
  last_modified = null;
  extra_values = [];
  config_uuid = none;
}

abbrev config : Dict String Json
config =
    ("_structure_config_uuid", boolean true)
    ∷ ("__last_modified", null)
    ∷ ("kept", boolean true)
    ∷ ("new", null)
    ∷ []

update_cache-lookup_example :
    lookup "kept" (get_values flag_codec true null (update_cache flag_codec null config stale).1)
    ≡ lookup "kept" config
unfolding update_cache get_contractor_values get_values cached_from for_each keys lookup insert
    has_key write_row update_rows keep_rows
update_cache-lookup_example =
    update_cache-lookup flag_codec null null config stale (refl, (refl, (refl, (refl, tt)))) refl
      "kept" (refl, refl, refl)

check_db-twice_example :
    check_db 7 (check_db 5 (record { control = none; tables = no_tables 3 }))
    ≡ check_db 5 (record { control = none; tables = no_tables 3 })
check_db-twice_example = (check_db-twice 5 7 (record { control = none; tables = no_tables 3 })).0
