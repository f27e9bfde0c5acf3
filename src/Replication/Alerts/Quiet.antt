-- ===== src/Replication/Alerts/Quiet.antt =====
-- Which pairs `run_checks_for_host` of app/replication_monitor.py sends no notification about.
use pve_zfs_tool.Common.{
  ℕ, ◌≡◌, refl, ap, Bool, true, not, Option, none, some, String, List, [], ◌∷◌, all, all-append,
  arith, string_eq, ◌&&◌, contains,
}
use pve_zfs_tool.Common.Words.{strip, strip_idem, is_space}
use pve_zfs_tool.Replication.Pairs.{
  standby, Snapshot, Config, Answer, source_ip, behind_at, check_pair,
}
use pve_zfs_tool.Replication.Alerts.{
  Host, Store, recovered, Note, headline_of, is_source_muted, maybe_alert, standby_sources, judged,
  check_configs, run_checks_for_host, is_troubled, is_ok,
}

module _ (hosts : List Host) (now : ℕ) (address : String) where
  abbrev is_expected_off : Snapshot → Bool
  is_expected_off snap = contains (source_ip snap.source) (standby_sources hosts)

  -- the source is neither muted nor expected to be off, and the status is worth a message
  abbrev pub is_worth : Note → Bool
  is_worth note =
      not (is_source_muted hosts note.pair)
      && not (is_expected_off note.pair)
      && elim note.headline [
        | recovered ↦ is_ok note.pair.status
        | _ ↦ is_troubled note.pair.status
      ]

  worth-maybe_alert :
      (snap : Snapshot) (s : Store)
      → (is_expected_off snap ≡ true → snap.status ≡ standby)
      → all is_worth (maybe_alert hosts now address snap s).1 ≡ true
  unfolding maybe_alert headline_of
  worth-maybe_alert snap s h = ground arith

  source_ip-strip : (source : String) → source_ip (strip is_space source) ≡ source_ip source
  unfolding source_ip
  source_ip-strip source = ap behind_at (strip_idem is_space source)

  off-judged :
      (cfg : Config) (answer : Answer)
      → is_expected_off (judged hosts cfg answer now) ≡ true
      → (judged hosts cfg answer now).status ≡ standby
  unfolding judged check_pair
  off-judged cfg answer h = ground (arith, source_ip-strip cfg.source)

  check_configs-worth :
      (cs : List (Config × Option Answer)) (s : Store)
      → all is_worth (check_configs hosts now address cs s).2 ≡ true
  unfolding check_configs
  check_configs-worth [] s = refl
  check_configs-worth ((cfg, none) ∷ cs) s = check_configs-worth cs s
  check_configs-worth ((cfg, some answer) ∷ cs) s =
      let snap = judged hosts cfg answer now in
      let (s', a) = maybe_alert hosts now address snap s in
      ground (
        arith,
        check_configs-worth cs s,
        all-append is_worth a (check_configs hosts now address cs s').2,
        worth-maybe_alert snap s (off-judged cfg answer),
        check_configs-worth cs s',
      )

  -- A check of a host sends no notification about a pair whose source host is muted or expected to
  -- be off; each one is about a pair that is warn or crit, or about one that is ok again.
  pub run_checks_for_host-worth :
      (cs : Option (List (Config × Option Answer))) (s : Store)
      → all is_worth (run_checks_for_host hosts now address cs s).2 ≡ true
  unfolding run_checks_for_host
  run_checks_for_host-worth none s = refl
  run_checks_for_host-worth (some cs) s = check_configs-worth cs s
