-- ===== src/Examples/Settings.antt =====
-- Checked inputs and the ARC (app/validators.py and app/tuning.py).
use pve_zfs_tool.Common.{◌≡◌, refl, true, false, none, some, inr, arith, string_eq}
use pve_zfs_tool.Common.Dict.{get, put, remove}
use pve_zfs_tool.Common.Scan.{has_char, skip}
use pve_zfs_tool.Common.Words.{len, strip, lstrip, rstrip}
use pve_zfs_tool.Validators.{validate_zfs_name, matches, match_rest, check_text}
use pve_zfs_tool.Validators.Laws.{zfs_name, check_of, Passed, accepted-Passed}
use pve_zfs_tool.Tuning.{
  arc_suggestions, Host, Outside, refused, set_arc_limit, apply_runtime, build_arc_conf,
  collect_zfs_params, collect_from, put_all, conf_body, joined,
}
use pve_zfs_tool.Tuning.Laws.{Ordered, arc_suggestions-Ordered}
use pve_zfs_tool.Common.Breaks.{split_lines, concat}
use pve_zfs_tool.Replication.Cron.{split_words, words_behind, cut}
use pve_zfs_tool.Common.Decimal.{str}

accepted : check_of zfs_name (some " rpool/data@daily\n") ≡ inr "rpool/data@daily"
unfolding validate_zfs_name check_text matches match_rest strip lstrip rstrip len has_char
accepted = refl

accepted-Passed_example : Passed (check_of zfs_name) "rpool/data@daily"
accepted-Passed_example =
    accepted-Passed zfs_name (some " rpool/data@daily\n") "rpool/data@daily" accepted

arc_suggestions-Ordered_example :
    Ordered 68719476736 (arc_suggestions (some 8796093022208) (some 68719476736))
arc_suggestions-Ordered_example =
    arc_suggestions-Ordered 8796093022208 68719476736 (omega arith) (omega arith)

abbrev host : Host
host = record {
  conf = "# ARC\noptions zfs zfs_txg_timeout=10 zfs_arc_max=1\n";
  runtime_max = some 1;
  runtime_min = none;
}

abbrev meets : Outside
meets = record {
  probed = true;
  memory = some 68719476736;
  writes = true;
  initramfs = true;
  applies = true;
}

limit_set :
    (set_arc_limit meets 8589934592 none host).0.conf
    ≡ "# ARC\noptions zfs zfs_txg_timeout=10 zfs_arc_max=8589934592\n"
unfolding set_arc_limit refused apply_runtime build_arc_conf collect_zfs_params collect_from put_all
    conf_body joined split_lines concat strip lstrip rstrip skip split_words words_behind cut get
    put remove str
limit_set = refl

unprobed :
    (set_arc_limit (record meets { probed = false }) 8589934592 none host).0.conf
    ≡ "options zfs zfs_arc_max=8589934592\n"
unfolding set_arc_limit refused apply_runtime build_arc_conf collect_zfs_params collect_from put_all
    conf_body joined split_lines concat strip lstrip rstrip skip split_words words_behind cut get
    put remove str
unprobed = refl
