-- ===== src/Scanner.antt =====
-- The scan of downloader/sftp-scanner.go around scan_once: how long it sleeps between two scans.
pub mod Sleeps
use ugoku.Base.{
  ℤ, pos, leb_ℤ, ltb_ℤ, mul64, Bool, true, false, not, Option, none, some, List, [], ◌∷◌,
  if◌then◌else◌,
}

-- SftpScanner.init, for the sleep time.
unfoldable pub init_default : ℤ → ℤ
init_default default_sleep_time =
    if leb_ℤ default_sleep_time (pos 0) then pos 1 else default_sleep_time

-- `sleep_time` after a scan that found files, or did not.
unfoldable pub next_sleep_time : ℤ → Bool → ℤ → ℤ
next_sleep_time default_sleep_time files_found sleep_time =
    if not files_found
    then (if ltb_ℤ sleep_time (pos 16) then mul64 sleep_time (pos 2) else sleep_time)
    else default_sleep_time

-- One round of the loop: whether the scanner is started when it begins and when scan_once returns,
-- and what scan_once returns.
pub record Round : Type 0 where
  pub started : Bool
  pub files_found : Bool
  pub still_started : Bool

-- The sleeps of the loop over some rounds, in seconds, from a sleep time on.
unfoldable pub scan : ℤ → Bool → List Round → ℤ → List ℤ
scan default_sleep_time one_time [] sleep_time = []
scan default_sleep_time one_time (r ∷ rs) sleep_time =
    let next = next_sleep_time default_sleep_time r.files_found sleep_time in
    let rest = scan default_sleep_time one_time rs next in
    if not r.started
    then []
    else if one_time
    then pos 1 ∷ []
    else if r.still_started
    then next ∷ rest
    else rest

unfoldable pub start : ℤ → Bool → List Round → List ℤ
start default_sleep_time one_time rounds =
    let d = init_default default_sleep_time in scan d one_time rounds d
