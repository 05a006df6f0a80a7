-- ===== src/Tests/Processes.antt =====
-- Two downloaders beside each other: the first has come to the end of its scan, and the second is at a file.
use ugoku.Base.{
  wrap64, ℕ, pos, ◌≡◌, refl, Bool, true, false, Option, none, some, List, [], ◌∷◌, ◌++◌, ◌⊎◌,
}
use ugoku.Dispatch.{Entry, file, returned}
use ugoku.System.{
  is_stopped, signals, stops_scanner, stop_flags, inits, connects, tests, takes, System, scans,
  turns, turn, own_turn, get_elem?, set, new_workers, launch,
}
use ugoku.System
use ugoku.Process.{
  Member, waits, sleeps, has_returned, may_panic, callback_panics, makes, in_callback, arrives,
  calls, goes_to_sleep, all_notified, termed, Process, Event, runs, ends, goes_on, member,
  with_member, step, run,
}
use ugoku.Sftplibs.Timeout.{calculate_timeout}
use ugoku.Process.Quiet.{all_quiet}
use ugoku.Process.Shared.{any_told}
use ugoku.Process.TermSignal.{term_signal_shared}
use ugoku.Process.Ends.{Serves, IsService, ends_so, lives_without_signal}

abbrev downloads : Bool → List (Entry ℕ) → Member ℕ
downloads one_time entries = record {
  kind = System.downloader;
  one_time = one_time;
  cap = 2;
  slots = 1;
  made = false;
  throughput = pos 2;
  bad_certificate = false;
  system = launch entries 1;
  handler = waits;
}

-- The first has no files.
abbrev begun : Bool → Process ℕ
begun one_time = record {
  members = downloads one_time [] ∷ downloads one_time (file 5 ∷ []) ∷ [];
  over = false;
}

abbrev schedule : List (Event ℕ)
schedule =
    makes 1
    ∷ makes 0
    ∷ runs 1 scans
    ∷ runs 1 scans
    ∷ runs 1 (turns 0 inits)
    ∷ runs 1 (turns 0 (connects false))
    ∷ runs 1 (turns 0 tests)
    ∷ runs 1 (turns 0 takes)
    ∷ runs 0 scans
    ∷ []

abbrev result : Process ℕ → Option (Process ℕ) → Process ℕ
result p none = p
result p (some q) = q

abbrev reached : Bool → Process ℕ
unfolding step run goes_on member with_member System.step turn own_turn get_elem? set new_workers
reached one_time = result (begun one_time) (run schedule (begun one_time))

reaches : (one_time : Bool) → run schedule (begun one_time) ≡ some (reached one_time)
unfolding step run goes_on member with_member System.step turn own_turn get_elem? set new_workers
    reached
reaches one_time = refl

serves : (entries : List (Entry ℕ)) → Serves (downloads false entries)
unfolding calculate_timeout wrap64
serves entries = (refl, refl, refl, refl, refl)

lives_without_signal_example : IsService (reached false)
lives_without_signal_example =
    lives_without_signal schedule (begun false) (reached false)
      ((serves [], (serves (file 5 ∷ []), tt)), refl) refl (reaches false)

abbrev first : Member ℕ
first = record (downloads true []) {
  made = true;
  system = record (launch [] 1) {
    scan = record (launch {A = ℕ} [] 1).scan { pc = returned false };
  };
}

-- os.Exit of the first.
abbrev last : List (Event ℕ)
last = schedule ++ ends 0 ∷ []

abbrev ended : Process ℕ
unfolding reached
ended = record (reached true) { over = true }

comes_to_end : run last (begun true) ≡ some ended
unfolding step run goes_on member with_member System.step turn own_turn get_elem? set new_workers
    reached
comes_to_end = refl

ends_so_example :
    (i : ℕ) × (m : Member ℕ) × (member ended.members i ≡ some m)
    × (((all_quiet last ≡ false) × ((m.handler ≡ sleeps) ⊎ (callback_panics m ≡ true)))
        ⊎ ((m.one_time ≡ true) × (has_returned m.system.scan.pc ≡ true))
        ⊎ (may_panic m ≡ true))
unfolding ended
ends_so_example = ends_so last (begun true) ended refl (refl, (refl, tt)) comes_to_end refl

-- The signal comes to a process with a downloader and an uploader; the callback of the downloader stops
-- its scanner and its worker.
abbrev both : Process ℕ
both = record {
  members =
      downloads false (file 5 ∷ []) ∷ record (downloads false []) { kind = System.uploader } ∷ [];
  over = false;
}

abbrev shutdown : List (Event ℕ)
shutdown =
    makes 0
    ∷ runs 0 scans
    ∷ runs 0 (turns 0 inits)
    ∷ arrives
    ∷ calls 0 signals
    ∷ calls 0 stops_scanner
    ∷ calls 0 (turns 0 is_stopped)
    ∷ goes_to_sleep 0
    ∷ []

abbrev shut_down : Process ℕ
unfolding step run goes_on member with_member all_notified termed System.step turn own_turn
    stop_flags get_elem? set new_workers
shut_down = result both (run shutdown both)

shuts_down : run shutdown both ≡ some shut_down
unfolding step run goes_on member with_member all_notified termed System.step turn own_turn
    stop_flags get_elem? set new_workers shut_down
shuts_down = refl

abbrev uploader : Member ℕ
uploader = record (downloads false []) { kind = System.uploader; handler = in_callback }

at_uploader : member shut_down.members 1 ≡ some uploader
unfolding shut_down member new_workers
at_uploader = refl

-- The handler of the downloader has set its own term_signal only.
term_signal_shared_example : false ≡ any_told 1 shut_down.members
term_signal_shared_example =
    term_signal_shared shutdown both shut_down 1 uploader ((refl, refl), ((refl, refl), tt))
      shuts_down at_uploader
