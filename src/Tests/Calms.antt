-- ===== src/Tests/Calms.antt =====
-- A streamer in service mode, as a second scan begins with a file and a value in the channels and a file
-- with the worker.
use ugoku.Base.{
  ◌+◌, ◌*◌, ◌≤◌, ◌≡◌, ◌≢◌, ◌⊎◌, refl, ℕ, true, false, none, some, List, [], ◌∷◌, length, arith,
}
use ugoku.Dispatch.{Entry, file, directory, selecting, begin}
use ugoku.Dispatch.Progress.{HasReturned}
use ugoku.System.{
  working, deciding, in_start, works, reports, System, Event, scans, turns, step, run, turn,
  own_turn, get_elem?, set,
}
use ugoku.System
use ugoku.System.Calm.{is_calm, IsCalm}
use ugoku.System.Finishing.{calm_scan_ends}

abbrev entries : List (Entry ℕ)
entries = file 1 ∷ directory ∷ file 2 ∷ []

abbrev begun : System ℕ
begun = record {
  scan = begin entries 0 (5 ∷ []) [] 1;
  workers = record { loop = working 6; manager = in_start; started = true; to_exit = false } ∷ [];
  term = false;
}

begun-IsCalm : IsCalm begun
begun-IsCalm = (((refl, refl, refl), tt), refl)

abbrev schedule : List Event
schedule = turns 0 works ∷ scans ∷ turns 0 reports ∷ []

abbrev under_way : System ℕ
under_way = record {
  scan = record begun.scan {
    pc = selecting 1;
    todo = directory ∷ file 2 ∷ [];
    files_found = true;
    done = 2;
    finished = 6 ∷ [];
  };
  workers = record { loop = deciding; manager = in_start; started = true; to_exit = false } ∷ [];
  term = false;
}

reaches : run System.streamer false 2 schedule begun ≡ some under_way
unfolding run step turn own_turn get_elem? set
reaches = refl

calm_scan_ends_example :
    (length schedule
      ≤ 80 * length entries
        + 30 * length begun.scan.chan
        + 10 * begun.scan.done
        + 21 * length begun.workers
        + 80)
    × (HasReturned under_way.scan.pc
        ⊎ ((e : Event) × (is_calm e ≡ true) × (step System.streamer false 2 e under_way ≢ none)))
calm_scan_ends_example =
    calm_scan_ends System.streamer false entries schedule begun under_way (omega arith) begun-IsCalm
      refl (omega arith) (omega arith) refl reaches
