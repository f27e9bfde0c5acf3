-- ===== src/HostBackup.antt =====
-- app/hostbackup.py: the names of the stored host backups and which of them to prune. Texts are
-- ASCII, so that `\d` is 0 to 9.
pub mod Due
pub mod Prune
pub mod Scheduler
use pve_zfs_tool.Common.{
  ℕ, zero, suc, ◌-◌, String, Bool, true, false, not, ◌&&◌, Option, none, some, List, [], ◌∷◌, leb,
  nat_beq, ◌==◌, string_eq, if◌then◌else◌, length, take, filter,
}
use pve_zfs_tool.Common.Scan.{◌>>=◌, skip, read_digits, has_char, has_dots, at_end}
use pve_zfs_tool.Common.Sort.{sorted}
use pve_zfs_tool.Common.Text.{str_le}

-- `^pve-backup-(\d{8})-(\d{6})`: the fourteen digits as one number, and the text behind them
unfoldable pub scan_stamp : String → Option (ℕ × String)
scan_stamp name = do
  dated ← skip "pve-backup-" name
  p ← read_digits 8 0 dated
  timed ← skip "-" p.1
  read_digits 6 p.0 timed

abbrev pub is_some {ℓ} : {A : Type ℓ} → Option A → Bool
is_some none = false
is_some (some _) = true

-- `(?:-withpriv)?\.tar\.gz$`
unfoldable pub is_suffix : String → Bool
is_suffix rest =
    let behind : String → Option String = λ s. skip ".tar.gz" s in
    let ends : Option String → Bool = λ o. elim o [ none ↦ false | some s ↦ at_end s ] in
    if is_some (skip "-withpriv" rest)
    then ends (skip "-withpriv" rest >>= behind)
    else ends (behind rest)

-- `_FILE_RE.match(name)`
unfoldable pub matches_file : String → Bool
matches_file name = elim (scan_stamp name) [ none ↦ false | some (n, rest) ↦ is_suffix rest ]

unfoldable pub is_valid_backup_name : String → Bool
is_valid_backup_name name =
    not (name == "") && not (has_char b'/' name) && not (has_dots name) && matches_file name

unfoldable pub select_prunable : List String → ℕ → List String
select_prunable filenames keep =
    let valid = sorted str_le (filter is_valid_backup_name filenames) in
    if nat_beq keep 0
    then valid
    else if leb (length valid) keep
    then []
    else take (length valid - keep) valid

-- `os.remove` of the named file, where the system lets it
unfoldable pub remove_file : (String → Bool) → String → List String → List String
remove_file removable name dir = if removable name then filter (λ f. not (f == name)) dir else dir

-- the loop of `prune_backups`, with the count of the files deleted
unfoldable pub remove_all : (String → Bool) → List String → List String → ℕ → List String × ℕ
remove_all removable [] dir deleted = (dir, deleted)
remove_all removable (name ∷ names) dir deleted =
    remove_all removable names (remove_file removable name dir)
      (if removable name then suc deleted else deleted)

-- the directory of a host, listed, and the count that is returned
unfoldable pub prune_backups : (String → Bool) → List String → ℕ → List String × ℕ
prune_backups removable dir keep =
    remove_all removable (select_prunable (filter is_valid_backup_name dir) keep) dir 0
