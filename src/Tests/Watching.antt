-- ===== src/Tests/Watching.antt =====
-- Two passes of a watcher over two files, handed to one worker.
use ugoku.Base.{
  ◌≡◌, refl, pos, Text, codes, same, true, false, Option, none, some, List, [], ◌∷◌, if◌then◌else◌,
}
use ugoku.Services.{FileInfo}
use ugoku.FolderScanner.{
  FileObj, can_dispatch, store, Item, listed, empty_map, scan_pass, walk_list, View,
  start_with_watcher,
}
use ugoku.FolderScanner.Passes.{lists, sent_for, news}
use ugoku.FolderScanner.Watch.{observed, changes, start_with_watcher-changes}
use ugoku.FolderScanner.Handed.{named, new_files_finished_once}
use ugoku.Dispatch.{file, Scan, Event, scans, takes, finishes, returned, begin, run, step, pick}
use ugoku.Dispatch.Counts.{weight}
use ugoku.Base.{map, length, incr, decr, arith}

abbrev info : FileInfo
info = record { size = pos 2; mod_time = pos 7000000000; is_dir = false }

abbrev stat : Text → Option FileInfo
stat name = some info

abbrev items : List Item
items = listed (codes "a") ∷ listed (codes "b") ∷ []

-- The folder has both files, then only the second, and then both, the second changed.
abbrev changed : Text → Option FileInfo
changed name = some (record info { mod_time = pos 9000000000 })

abbrev views : List View
views =
    record { stat = stat; listing = some items }
    ∷ record { stat = stat; listing = some (listed (codes "b") ∷ []) }
    ∷ record { stat = changed; listing = some items }
    ∷ []

start_with_watcher-changes_example :
    map (sent_for (codes "b")) (start_with_watcher false views)
    ≡ changes none (map (observed (codes "b")) views)
start_with_watcher-changes_example =
    start_with_watcher-changes views
      ((items, refl, tt), ((listed (codes "b") ∷ [], refl, tt), ((items, refl, tt), tt)))
      (codes "b")

watched :
    changes none (map (observed (codes "b")) views)
    ≡ (info ∷ []) ∷ [] ∷ (record info { mod_time = pos 9000000000 } ∷ []) ∷ []
unfolding lists same
watched = refl

-- Two new files and one worker.
abbrev schedule : List Event
schedule =
    scans
    ∷ scans
    ∷ scans
    ∷ scans
    ∷ scans
    ∷ takes
    ∷ finishes 0
    ∷ scans
    ∷ takes
    ∷ finishes 0
    ∷ scans
    ∷ []

abbrev object : Text → FileObj
object name = record { path = name; stat = info }

abbrev handed : Scan FileObj
handed = record {
  pc = returned true;
  todo = [];
  started = true;
  files_found = true;
  dispatched = pos 0;
  chan = [];
  done = 0;
  busy = [];
  finished = object (codes "b") ∷ object (codes "a") ∷ [];
  alive = 1;
}

hands_out :
    run 2 true schedule
      (begin (map file (scan_pass true (pos 1) stat (some items) empty_map).sent) 1 [] [] 0)
    ≡ some handed
unfolding scan_pass walk_list can_dispatch store empty_map same run step pick incr decr
hands_out = refl

new_files_finished_once_example : weight (named (codes "b")) handed.finished ≡ (
    if lists (codes "b") items then length (news (stat (codes "b")) (empty_map (codes "b"))) else 0)
new_files_finished_once_example =
    new_files_finished_once 1 true schedule handed true (pos 1) stat items empty_map (omega arith)
      hands_out refl refl (codes "b")
