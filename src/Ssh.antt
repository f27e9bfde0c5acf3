-- ===== src/Ssh.antt =====
-- The hosts and the results of app/ssh_manager.py. What the SSH library and the remote shell do
-- is an argument of the definitions.
pub mod Command
pub mod Pool
pub mod Rotation
use pve_zfs_tool.Common.{
  ℕ, String, Bool, true, false, Option, none, some, nat_beq, nat_eq, string_eq, pair_eq, ◌==◌, not,
  if◌then◌else◌,
}

-- the entries of a host that a connection uses
pub record Host : Type 0 where
  pub address : String
  pub port : Option ℕ
  pub user : Option String
  pub password : Option String

-- what `run_command` returns
pub record Result : Type 0 where
  pub success : Bool
  pub stdout : String
  pub stderr : String

abbrev pub failure : String → Result
failure e = record { success = false; stdout = ""; stderr = e }

-- `int(host.get("port", 22) or 22)`
abbrev pub port_of : Option ℕ → ℕ
port_of none = 22
port_of (some p) = if nat_beq p 0 then 22 else p

-- `(address, port, user)`
abbrev pub Key : Type 0
Key = (String × ℕ) × String

abbrev pub user_of : Option String → String
user_of none = "root"
user_of (some u) = u

abbrev pub host_key : Host → Key
host_key host = ((host.address, port_of host.port), user_of host.user)

-- `if host.get("password")`
abbrev pub has_password : Host → Bool
has_password host = elim host.password [ none ↦ false | some p ↦ not (p == "") ]
