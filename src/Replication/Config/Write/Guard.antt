-- ===== src/Replication/Config/Write/Guard.antt =====
-- What `write_config` of app/replication.py refuses and what it writes.
use pve_zfs_tool.Common.{
  ◌≡◌, refl, String, Bool, true, false, Option, arith, if◌then◌else◌, string_eq,
}
use pve_zfs_tool.Common.Dict.{get}
use pve_zfs_tool.Common.Words.{is_space, strip}
use pve_zfs_tool.Replication.Pairs.{source_ip}
use pve_zfs_tool.Replication.Config.{parse_config, serialize_config, lines_of}
use pve_zfs_tool.Replication.Config.Kept.{is_writable, is_distinct, parse_config-serialize_config}
use pve_zfs_tool.Replication.Config.Write.{
  Answers, Values, Outcome, refused, written, cleaned, is_source_pool, pool_of, tag_of, target_of,
  source_or_value, overlaps, write_config, config_path_for,
}

module _ (o : Answers) (values : Values) (source : Option String) (k : String) where
  abbrev is_own_source : Bool
  is_own_source = o.same_host (source_ip (strip is_space (source_or_value source values)))

  -- refused only for a source on the host itself with the target in one of its source pools;
  -- else what is written reads back as the values that are not empty
  abbrev pub Handled : Outcome → Type 0
  Handled (refused path pool) =
      (is_own_source ≡ true) × (is_source_pool pool (o.tagged (tag_of values)) ≡ true)
  Handled (written path text) =
      (overlaps o values source ≡ false)
      × (get k (parse_config text).values ≡ get k (cleaned values))

  handled :
      (b : Bool)
      → overlaps o values source ≡ b
      → is_writable (cleaned values) ≡ true
      → is_distinct (cleaned values) ≡ true
      → Handled (
          if b
          then refused
              (config_path_for (source_or_value source values))
              (pool_of (target_of values))
          else written
              (config_path_for (source_or_value source values))
              (serialize_config (cleaned values) (lines_of o.existing)))
  unfolding overlaps
  handled true h w u = (ground arith, ground arith)
  handled false h w u = (h, parse_config-serialize_config k (cleaned values) o.existing w u)

  -- A write is refused only where the source is the host itself and the pool of the target is one
  -- that it sends from. Otherwise the file reads back as the values that are not empty, whatever
  -- file was there, if these are values of names, each listed once, without line breaks and
  -- the characters that are escaped.
  pub write_config-Handled :
      is_writable (cleaned values) ≡ true
      → is_distinct (cleaned values) ≡ true
      → Handled (write_config o values source)
  unfolding write_config
  write_config-Handled w u = handled (overlaps o values source) refl w u
