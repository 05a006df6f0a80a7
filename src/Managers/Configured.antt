-- ===== src/Managers/Configured.antt =====
-- A transfer from its configuration on: what the managers make of a configuration that ReadConfig filled in.
use ugoku.Base.{
  ℕ, zero, suc, ◌*◌, ◌^◌, ◌<◌, ◌≡◌, refl, ℤ, pos, negsuc, wrap64_pos, mul64, pos_part, Text, Bool,
  true, false, some, List, arith,
}
use mathlib.Core.Path.{subst}
use ugoku.Config.{
  ServerConfig, at_least_one, fill_downloader, fill_uploader, fill_syncer, fill_streamer,
}
use ugoku.Dispatch.{Entry, returned}
use ugoku.Dispatch.Counts.{weight, files_of}
use ugoku.Dispatch.Complete.{AnyFile}
use ugoku.System.{System, Event, run}
use ugoku.System.Complete.{IsIdle, system_scan_complete, held-new_workers}
use ugoku.Scanner.{init_default}
use ugoku.FolderScanner.{init_sleep_time}
use ugoku.Managers.{
  Scanner, sftp_scanner, folder_scanner, sleep_or_minute, streamer_proxy, server_proxy, local_proxy,
  Manager, Job, download, upload, stream, sync_server, sync_local, new_downloader,
  new_one_time_downloader, new_uploader, new_one_time_uploader, new_streamer, new_one_time_streamer,
  start_sync_server, start_sync_local, kind, filled, manage, started, scanned_path,
}

-- The workers that a configuration asks for.
abbrev pub worker_of : Job → ℤ
worker_of (download c) = c.worker
worker_of (upload c) = c.worker
worker_of (stream c) = c.worker
worker_of (sync_server c) = c.worker
worker_of (sync_local c) = c.worker

-- At least one worker, and channels of twice as many places.
abbrev Fits : Manager → Type 0
Fits m = (0 < pos_part m.worker) × (pos_part m.capacity ≡ pos_part m.worker * 2)

-- The workers after `if worker < 1 { worker = 1 }`.
one_or_more :
    (w : ℤ) → pos_part w < 2 ^ 62 → (n : ℕ) × (at_least_one w ≡ pos n) × (0 < n) × (n < 2 ^ 62)
one_or_more (pos zero) h = (1, ground arith, omega arith, omega arith)
one_or_more (pos (suc n)) h = (suc n, ground arith, omega arith, h)
one_or_more (negsuc n) h = (1, ground arith, omega arith, omega arith)

doubled :
    (w : ℤ)
    → pos_part w < 2 ^ 62
    → (0 < pos_part (at_least_one w))
      × (pos_part (mul64 (at_least_one w) (pos 2)) ≡ pos_part (at_least_one w) * 2)
doubled w h =
    let (n, is_it, some_worker, few) = one_or_more w h in
    rw (is_it, wrap64_pos (n * 2) (omega arith)) (some_worker, refl)

filled-Fits :
    (servers : List ServerConfig) (one_time : Bool) (job : Job)
    → pos_part (worker_of job) < 2 ^ 62
    → Fits (manage one_time (filled servers job))
unfolding new_downloader new_one_time_downloader new_uploader new_one_time_uploader new_streamer
    new_one_time_streamer start_sync_server start_sync_local fill_downloader fill_uploader
    fill_streamer fill_syncer
filled-Fits servers false (download c) few = doubled c.worker few
filled-Fits servers true (download c) few = doubled c.worker few
filled-Fits servers false (upload c) few = doubled c.worker few
filled-Fits servers true (upload c) few = doubled c.worker few
filled-Fits servers false (stream c) few = doubled c.worker few
filled-Fits servers true (stream c) few = doubled c.worker few
filled-Fits servers one_time (sync_server c) few = doubled c.worker few
filled-Fits servers one_time (sync_local c) few = doubled c.worker few

-- Take a downloader, an uploader, a streamer or a syncer in either direction, with any configuration
-- that asks for fewer than 2^62 workers, after ReadConfig has filled in its defaults, in service mode or in
-- one-time mode. In any run of what its manager starts: if the first scan_once returns without having
-- been stopped and without an error of the walk, then nothing is on its way, every file of the walk has
-- been finished exactly as often as the walk gave it (all weights agree), and the result says whether
-- there was a file at all.
pub job_scan_complete :
    {A : Type 0} (servers : List ServerConfig) (job : Job) (one_time : Bool)
    (entries : List (Entry A)) (es : List Event) (s : System A) (b : Bool)
    → pos_part (worker_of job) < 2 ^ 62
    → let m = manage one_time (filled servers job) in
      run (kind job) m.one_time (pos_part m.capacity) es (started m entries) ≡ some s
      → s.scan.pc ≡ returned b
      → s.scan.started ≡ true
      → IsIdle (kind job) (pos_part (manage one_time (filled servers job)).worker) s
        × ((f : A → ℕ) → weight f s.scan.finished ≡ weight f (files_of entries))
        × AnyFile b (files_of entries)
job_scan_complete servers job one_time entries es s b few r at on =
    let m = manage one_time (filled servers job) in
    let (some_worker, places) = filled-Fits servers one_time job few in
    system_scan_complete (kind job) (pos_part m.worker) m.one_time entries es (started m entries) s
      b some_worker refl (held-new_workers (kind job) (pos_part m.worker) (pos_part m.worker))
      (subst (λ c. run (kind job) m.one_time c es (started m entries) ≡ some s) places r) at on

-- What a job scans, and how long its scanner sleeps at least, in the words of its configuration.
abbrev pub source_of : Job → Text
source_of (download c) = c.source_path
source_of (upload c) = c.source_path
source_of (stream c) = c.source_path
source_of (sync_server c) = c.server_path
source_of (sync_local c) = c.local_path

abbrev pub interval_of : Job → ℤ
interval_of (download c) = pos 1
interval_of (upload c) = pos 1
interval_of (stream c) = at_least_one c.sleep_interval
interval_of (sync_server c) = at_least_one c.sleep_interval
interval_of (sync_local c) = at_least_one c.sleep_interval

-- init of the scanner, for its sleep time.
abbrev pub sleep_of : Scanner → ℤ
unfolding init_default init_sleep_time
sleep_of (sftp_scanner c t) = init_default t
sleep_of (folder_scanner c t w) = init_sleep_time t

positive : (i : ℤ) → init_default (sleep_or_minute (at_least_one i)) ≡ at_least_one i
unfolding init_default
positive (pos zero) = ground arith
positive (pos (suc n)) = ground arith
positive (negsuc n) = ground arith

-- The scanner of a transfer walks the source of its configuration, on the disk or on the server. With a
-- configuration that ReadConfig filled in, its sleep time is the configured interval, at least a second,
-- for streamers and syncers, whatever `Default_sleep_time = 60` before it says, and one second for
-- downloaders and uploaders.
pub job_scanner :
    (servers : List ServerConfig) (one_time : Bool) (job : Job)
    → (scanned_path (manage one_time (filled servers job)).scanner ≡ source_of job)
      × (sleep_of (manage one_time (filled servers job)).scanner ≡ interval_of job)
unfolding new_downloader new_one_time_downloader new_uploader new_one_time_uploader new_streamer
    new_one_time_streamer start_sync_server start_sync_local fill_downloader fill_uploader
    fill_streamer fill_syncer streamer_proxy server_proxy local_proxy init_default init_sleep_time
job_scanner servers false (download c) = (refl, refl)
job_scanner servers true (download c) = (refl, refl)
job_scanner servers false (upload c) = (refl, refl)
job_scanner servers true (upload c) = (refl, refl)
job_scanner servers false (stream c) = (refl, positive c.sleep_interval)
job_scanner servers true (stream c) = (refl, positive c.sleep_interval)
job_scanner servers one_time (sync_server c) = (refl, positive c.sleep_interval)
job_scanner servers one_time (sync_local c) = (refl, positive c.sleep_interval)
