-- ===== src/Tests/Jams.antt =====
-- A downloader in service mode with one worker, whose first download fails: the worker that takes its
-- place fills the channel before the first one puts its value on it.
use ugoku.Base.{◌≡◌, refl, pos, incr, decr, ℕ, true, false, none, some, List, [], ◌∷◌, ◌++◌, arith}
use ugoku.Dispatch.{Entry, file, sending}
use ugoku.Dispatch.Progress.{HasReturned}
use ugoku.System.{
  reporting, ended, in_start, gone, inits, connects, tests, takes, works, breaks, reports, decides,
  returns, System, Event, scans, turns, renews, run, step, turn, own_turn, stop_flags, get_elem?,
  set, new_workers, launch,
}
use ugoku.System
use ugoku.System.Jam.{IsJammed, jam_stays}

abbrev entries : List (Entry ℕ)
entries = file 1 ∷ file 2 ∷ file 3 ∷ file 4 ∷ file 5 ∷ file 6 ∷ file 7 ∷ []

abbrev first_fails : List Event
first_fails =
    turns 0 inits
    ∷ turns 0 (connects false)
    ∷ turns 0 tests
    ∷ scans
    ∷ scans
    ∷ turns 0 takes
    ∷ scans
    ∷ scans
    ∷ scans
    ∷ scans
    ∷ turns 0 breaks
    ∷ turns 0 returns
    ∷ renews 0
    ∷ []

abbrev second_fills : List Event
second_fills =
    turns 1 inits
    ∷ turns 1 (connects false)
    ∷ turns 1 tests
    ∷ turns 1 takes
    ∷ turns 1 works
    ∷ turns 1 reports
    ∷ turns 1 decides
    ∷ turns 1 tests
    ∷ turns 1 takes
    ∷ turns 1 works
    ∷ turns 1 reports
    ∷ turns 1 decides
    ∷ scans
    ∷ scans
    ∷ turns 1 tests
    ∷ turns 1 takes
    ∷ turns 1 works
    ∷ []

abbrev first_reports : List Event
first_reports =
    scans
    ∷ scans
    ∷ scans
    ∷ scans
    ∷ scans
    ∷ scans
    ∷ scans
    ∷ turns 0 works
    ∷ turns 0 reports
    ∷ turns 0 decides
    ∷ []

abbrev schedule : List Event
schedule = first_fails ++ second_fills ++ first_reports

abbrev jammed : System ℕ
jammed = record {
  scan = record (launch entries 1).scan {
    pc = sending 7;
    todo = [];
    files_found = true;
    dispatched = pos 5;
    chan = 5 ∷ 6 ∷ [];
    done = 2;
    finished = 1 ∷ 3 ∷ 2 ∷ [];
  };
  workers =
      record { loop = ended; manager = gone; started = false; to_exit = true }
      ∷ record { loop = reporting 4; manager = in_start; started = true; to_exit = false }
      ∷ [];
  term = false;
}

reaches : run System.downloader false 2 schedule (launch entries 1) ≡ some jammed
unfolding run step turn own_turn stop_flags get_elem? set new_workers incr decr
reaches = refl

jammed-IsJammed : IsJammed 2 jammed
jammed-IsJammed = record {
  file = 7;
  sends = refl;
  full = omega arith;
  done_full = omega arith;
  wait = (tt, (refl, tt));
}

jam_stays_example :
    (run System.downloader false 2 (schedule ++ turns 1 reports ∷ []) (launch entries 1) ≡ none)
    × (¬ HasReturned jammed.scan.pc)
jam_stays_example =
    jam_stays System.downloader false 2 1 entries schedule [] (turns 1 reports) jammed reaches
      jammed-IsJammed refl
