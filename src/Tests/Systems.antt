-- ===== src/Tests/Systems.antt =====
-- A downloader whose first worker fails on its first file and is replaced, over two scans.
use mathlib.Core.List.{Perm}
use ugoku.Base.{
  ◌+◌, ℕ, ◌≤◌, ◌≡◌, refl, pos, pos_part, incr, decr, wrap64, true, false, some, List, [], ◌∷◌, ◌++◌,
  arith,
}
use ugoku.Config.{DownloaderConfig, zero_server, fill_downloader}
use ugoku.Dispatch.{Entry, file, directory, Scan, returned, begin}
use ugoku.Dispatch
use ugoku.Dispatch.Counts.{weight, files_of}
use ugoku.Dispatch.Complete.{AnyFile}
use ugoku.System.{
  WorkerState, ended, deciding, receiving, working, stopped, in_start, gone, Turn, inits, connects,
  tests, takes, works, breaks, reports, decides, returns, System, Event, scans, turns, renews, step,
  run, turn, own_turn, get_elem?, set, stop_flags, new_workers, launch, next_scan,
}
use ugoku.System
use ugoku.System.Held.{held}
use ugoku.System.Matching.{with_busy}
use ugoku.System.Refine.{system_refines}
use ugoku.System.Complete.{IsIdle, Served, first, one_more, Served-complete}
use ugoku.System.Slots.{current, workers_remain}
use ugoku.System.Conserve.{on_its_way, system_scan_conserves}
use ugoku.System.Budget.{takes_by}
use ugoku.System.Leftover.{stopped_worker_takes_one}
use ugoku.Managers.{download, kind, filled, manage, started, new_downloader}
use ugoku.Managers.Configured.{job_scan_complete}

abbrev config : DownloaderConfig
config = record {
  name = [];
  source = [];
  source_path = 7 ∷ [];
  target_path = [];
  enabled = true;
  worker = pos 0;
  max_timeout = pos 0;
  throughput = pos 0;
  source_server = zero_server;
}

abbrev entries : List (Entry ℕ)
entries = file 1 ∷ directory ∷ file 2 ∷ []

-- Up to the exit of the first worker.
abbrev before : List Event
before =
    scans
    ∷ scans
    ∷ scans
    ∷ scans
    ∷ scans
    ∷ scans
    ∷ turns 0 inits
    ∷ turns 0 (connects false)
    ∷ turns 0 tests
    ∷ turns 0 takes
    ∷ turns 0 breaks
    ∷ turns 0 returns
    ∷ []

abbrev after : List Event
after =
    renews 0
    ∷ turns 0 works
    ∷ turns 0 reports
    ∷ turns 0 decides
    ∷ turns 1 inits
    ∷ turns 1 (connects false)
    ∷ turns 1 tests
    ∷ turns 1 takes
    ∷ turns 1 works
    ∷ turns 1 reports
    ∷ scans
    ∷ scans
    ∷ []

abbrev after_scan : List ℕ → Scan ℕ
after_scan finished = record {
  pc = returned true;
  todo = [];
  started = true;
  files_found = true;
  dispatched = pos 0;
  chan = [];
  done = 0;
  busy = [];
  finished = finished;
  alive = 0;
}

abbrev exited : WorkerState ℕ
exited = record { loop = ended; manager = gone; started = false; to_exit = true }

abbrev running : WorkerState ℕ
running = record { loop = deciding; manager = in_start; started = true; to_exit = false }

abbrev final : System ℕ
final = record { scan = after_scan (2 ∷ 1 ∷ []); workers = exited ∷ running ∷ []; term = false }

reaches : run System.downloader false 2 (before ++ after) (launch entries 1) ≡ some final
unfolding run step turn own_turn get_elem? set stop_flags new_workers incr decr
reaches = refl

system_refines_example :
    (ds : List Dispatch.Event) × (busy : List ℕ) × Perm busy (held final.workers)
    × (Dispatch.run 2 false ds
          (with_busy (held (launch entries 1).workers) 2 (launch entries 1).scan)
        ≡ some (with_busy busy 2 final.scan))
system_refines_example =
    system_refines System.downloader false 2 2 (before ++ after) (launch entries 1) final
      (omega arith) reaches

workers_remain_example : current final.workers ≡ 1
workers_remain_example =
    workers_remain System.downloader false 2 1 entries (before ++ after) final reaches

job_reaches :
    let m = manage false (filled [] (download config)) in
    run
      (kind (download config))
      m.one_time
      (pos_part m.capacity)
      (before ++ after)
      (started m entries)
    ≡ some final
unfolding run step turn own_turn get_elem? set stop_flags new_workers incr decr new_downloader
    fill_downloader wrap64
job_reaches = refl

job_scan_complete_example :
    IsIdle
      (kind (download config))
      (pos_part (manage false (filled [] (download config))).worker)
      final
    × ((f : ℕ → ℕ) → weight f final.scan.finished ≡ weight f (files_of entries))
    × AnyFile true (files_of entries)
job_scan_complete_example =
    job_scan_complete [] (download config) false entries (before ++ after) final true (omega arith)
      job_reaches refl refl

-- The next scan, with one more file.
abbrev more : List (Entry ℕ)
more = file 3 ∷ []

abbrev rescanned : System ℕ
rescanned = record { scan = begin more 0 [] [] 0; workers = exited ∷ running ∷ []; term = false }

next : next_scan more final ≡ some rescanned
unfolding next_scan
next = refl

abbrev later : List Event
later =
    turns 1 decides
    ∷ scans
    ∷ scans
    ∷ scans
    ∷ turns 1 tests
    ∷ turns 1 takes
    ∷ turns 1 works
    ∷ turns 1 reports
    ∷ scans
    ∷ []

abbrev last : System ℕ
last = record { scan = after_scan (3 ∷ []); workers = exited ∷ running ∷ []; term = false }

reaches_last : run System.downloader false 2 later rescanned ≡ some last
unfolding run step turn own_turn get_elem? set stop_flags incr decr
reaches_last = refl

served : Served System.downloader 1 (3 ∷ 1 ∷ 2 ∷ []) (3 ∷ 2 ∷ 1 ∷ []) last
served =
    one_more more later (first entries (before ++ after) reaches ((true, refl), refl)) next
      reaches_last ((true, refl), refl)

Served-complete_example :
    IsIdle System.downloader 1 last
    × ((f : ℕ → ℕ) → weight f (3 ∷ 2 ∷ 1 ∷ []) ≡ weight f (3 ∷ 1 ∷ 2 ∷ []))
Served-complete_example =
    Served-complete System.downloader 1 (3 ∷ 1 ∷ 2 ∷ []) (3 ∷ 2 ∷ 1 ∷ []) last (omega arith) served

-- A streamer that connected at its second attempt: its Start returns, and it takes a file all the same.
abbrev told_to_exit : List Event
told_to_exit =
    scans ∷ scans ∷ turns 0 inits ∷ turns 0 (connects true) ∷ turns 0 tests ∷ turns 0 returns ∷ []

abbrev one_file : Scan ℕ
one_file = record (begin [] 0 (5 ∷ []) [] 0) { files_found = true; dispatched = pos 1 }

abbrev waiting_worker : WorkerState ℕ
waiting_worker = record { loop = receiving; manager = stopped; started = false; to_exit = true }

abbrev told : System ℕ
told = record { scan = one_file; workers = waiting_worker ∷ []; term = false }

reaches_told : run System.streamer false 2 told_to_exit (launch (file 5 ∷ []) 1) ≡ some told
unfolding run step turn own_turn get_elem? set stop_flags new_workers incr
reaches_told = refl

abbrev taking : System ℕ
taking = record {
  scan = record one_file { chan = [] };
  workers = record waiting_worker { loop = working 5 } ∷ [];
  term = false;
}

takes_it : run System.streamer false 2 (turns 0 takes ∷ []) told ≡ some taking
unfolding run step turn own_turn get_elem? set
takes_it = refl

at_first : get_elem? told.workers 0 ≡ some waiting_worker
unfolding get_elem?
at_first = refl

stopped_worker_takes_one_example : takes_by 0 (turns 0 takes ∷ []) ≤ 1
stopped_worker_takes_one_example =
    stopped_worker_takes_one System.streamer false 2 1 (file 5 ∷ []) told_to_exit
      (turns 0 takes ∷ []) told taking 0 waiting_worker reaches_told at_first tt takes_it

-- A scan_once that begins while the worker has a file from before.
abbrev leftover : System ℕ
leftover = record {
  scan = begin (file 4 ∷ []) 0 (5 ∷ []) [] 0;
  workers = record running { loop = working 6 } ∷ [];
  term = false;
}

abbrev early : List Event
early = turns 0 works ∷ turns 0 reports ∷ scans ∷ scans ∷ scans ∷ scans ∷ []

abbrev left : System ℕ
left = record {
  scan = record (after_scan (6 ∷ [])) { chan = 5 ∷ 4 ∷ [] };
  workers = running ∷ [];
  term = false;
}

reaches_left : run System.uploader false 2 early leftover ≡ some left
unfolding run step turn own_turn get_elem? set incr decr
reaches_left = refl

system_scan_conserves_example :
    (on_its_way left ≤ on_its_way leftover)
    × ((f : ℕ → ℕ)
        → weight f left.scan.finished + weight f (held left.workers) + weight f left.scan.chan
          ≡ weight f (4 ∷ []) + weight f (held leftover.workers) + weight f leftover.scan.chan)
    × AnyFile {A = ℕ} true (4 ∷ [])
system_scan_conserves_example =
    system_scan_conserves System.uploader false 2 (file 4 ∷ []) early leftover left true
      (omega arith) refl (omega arith) (omega arith) reaches_left refl refl
