-- ===== src/Examples/Autosnap.antt =====
-- A cron file of zfs-auto-snapshot.
use pve_zfs_tool.Common.{◌≡◌, none, some, false, String, List, [], ◌∷◌}
use pve_zfs_tool.Autosnap.{parse_level, update_level_content}
use pve_zfs_tool.Autosnap.Enabled.{first_off, parse_level-turned_off}

abbrev hourly : List String
hourly =
    "#!/bin/sh" ∷ "# zfs-auto-snapshot --quiet --label=hourly --keep=24 //"
    ∷ "  exec zfs-auto-snapshot --quiet --label=hourly --keep=96 //" ∷ []

parse_level-turned_off_example :
    parse_level (update_level_content hourly "hourly" none (some false)) "hourly"
    ≡ first_off "hourly" hourly
parse_level-turned_off_example = parse_level-turned_off "hourly" hourly
