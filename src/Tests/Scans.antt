-- ===== src/Tests/Scans.antt =====
-- One worker, channels of two places, three files and a folder.
use ugoku.Base.{incr, decr, ℕ, ◌≡◌, refl, pos, true, false, some, List, [], ◌∷◌}
use ugoku.Dispatch.{
  draining, stops, quits, pick, Entry, file, directory, Scan, waiting, returned, Event, scans,
  takes, finishes, step, run, begin,
}
use ugoku.Dispatch.Stuck.{one_time_stuck}
use ugoku.Dispatch.Progress.{HasReturned}

abbrev entries : List (Entry ℕ)
entries = file 1 ∷ directory ∷ file 2 ∷ file 3 ∷ []

abbrev filling : List Event
filling = scans ∷ scans ∷ scans ∷ scans ∷ scans ∷ scans ∷ scans ∷ []

abbrev whole_run : List Event
whole_run =
    scans
    ∷ scans
    ∷ scans
    ∷ scans
    ∷ scans
    ∷ scans
    ∷ scans
    ∷ takes
    ∷ finishes 0
    ∷ scans
    ∷ scans
    ∷ scans
    ∷ takes
    ∷ finishes 0
    ∷ scans
    ∷ takes
    ∷ finishes 0
    ∷ scans
    ∷ []

abbrev blocked : Scan ℕ
blocked = record {
  pc = waiting 3;
  todo = [];
  started = true;
  files_found = true;
  dispatched = pos 2;
  chan = 1 ∷ 2 ∷ [];
  done = 0;
  busy = [];
  finished = [];
  alive = 1;
}

abbrev final : Scan ℕ
final = record {
  pc = returned true;
  todo = [];
  started = true;
  files_found = true;
  dispatched = pos 0;
  chan = [];
  done = 0;
  busy = [];
  finished = 3 ∷ 2 ∷ 1 ∷ [];
  alive = 1;
}

reaches : run 2 true whole_run (begin entries 1 [] [] 0) ≡ some final
unfolding run step pick incr decr
reaches = refl

fills : run 2 false filling (begin entries 1 [] [] 0) ≡ some blocked
unfolding run step incr
fills = refl

-- The only worker exits with a file on the channel.
abbrev abandoned : Scan ℕ
abandoned = record {
  pc = draining;
  todo = [];
  started = true;
  files_found = true;
  dispatched = pos 1;
  chan = 1 ∷ [];
  done = 0;
  busy = [];
  finished = [];
  alive = 0;
}

abandons :
    run 2 true (scans ∷ scans ∷ scans ∷ quits ∷ []) (begin (file 1 ∷ []) 1 [] [] 0) ≡ some abandoned
unfolding run step incr
abandons = refl

stops_there : run 2 true (stops ∷ []) abandoned ≡ some (record abandoned { started = false })
unfolding run step
stops_there = refl

one_time_stuck_example : ¬ HasReturned {A = ℕ} draining
one_time_stuck_example =
    one_time_stuck 2 (stops ∷ []) abandoned (record abandoned { started = false })
      (record { waits = refl; nobody = refl; idle = refl; no_value = refl }) stops_there
