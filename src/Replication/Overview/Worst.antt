-- ===== src/Replication/Overview/Worst.antt =====
-- What `source_health_map` of app/replication_monitor.py says of a source.
use Prim.Native.Nat.{suc}
use pve_zfs_tool.Common.{
  ℕ, ◌≡◌, String, Bool, Option, none, some, [], ◌∷◌, if◌then◌else◌, string_eq, arith, max, ◌==◌,
  not, ◌&&◌, eq_iff,
}
use pve_zfs_tool.Common.Dict.{Dict, get, get-put, get-nil}
use pve_zfs_tool.Common.Words.{is_empty}
use pve_zfs_tool.Replication.Pairs.{Status}
use pve_zfs_tool.Replication.Alerts.{Row, Store}
use pve_zfs_tool.Replication.Overview.{
  status_rank, ip_of, put_worse, add_row, add_rows, source_health_map,
}

-- 0 where a source is not listed, 1 more than the rank of its status where it is
abbrev pub level : Option Status → ℕ
level none = 0
level (some status) = suc (status_rank status)

module _ (ip : String) where
  abbrev pub is_of : Row → Bool
  is_of row = not (is_empty row.source) && ip_of row.source == ip

  -- the worst level of the source's rows
  abbrev pub worst : Store → ℕ
  worst [] = 0
  worst ((key, row) ∷ rows) =
      let rest = worst rows in if is_of row then max (level (some row.status)) rest else rest

  level-put_worse :
      (j : String) (status : Status) (out : Dict String Status)
      → level (get ip (put_worse j status out))
        ≡ (if j == ip then max (level (some status)) (level (get ip out)) else level (get ip out))
  unfolding put_worse
  level-put_worse j status out = ground (arith, get-put ip j status out, eq_iff j ip, eq_iff ip j)

  level-add_rows :
      (rows : Store) (out : Dict String Status)
      → level (get ip (add_rows rows out)) ≡ max (level (get ip out)) (worst rows)
  unfolding add_rows add_row
  level-add_rows [] out = omega arith
  level-add_rows ((key, row) ∷ rows) out = ground (
    arith,
    level-put_worse (ip_of row.source) row.status out,
    level-add_rows rows (add_row row out),
  )

  -- The overview gives each source the worst status of its pairs, and lists no source without one:
  -- the order of the rows does not matter to the rank.
  pub level-source_health_map :
      (rows : Store) → level (get ip (source_health_map rows)) ≡ worst rows
  unfolding source_health_map
  level-source_health_map rows = ground (arith, level-add_rows rows [], get-nil {V = Status} ip)
