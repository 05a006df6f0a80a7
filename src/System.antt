-- ===== src/System.antt =====
-- A transfer as a whole: the managers NewDownloader, NewOneTimeDownloader, NewUploader,
-- NewOneTimeUploader, NewStreamer, NewOneTimeStreamer, startSyncServer and startSyncLocal, the
-- goroutines that Start of a worker runs, and the signal handlers. One scanner and the workers, with
-- the channels between them; the scanner is that of the module Dispatch.
pub mod Held
pub mod Turned
pub mod Runs
pub mod Matching
pub mod Refine
pub mod Complete
pub mod Conserve
pub mod Budget
pub mod Leftover
pub mod Slots
pub mod Calm
pub mod Moves
pub mod Finishing
pub mod Jam
use ugoku.Base.{
  ℕ, zero, suc, ◌+◌, ◌-◌, ltb, pos, Bool, true, false, not, ◌&&◌, ◌||◌, Option, none, some, List,
  [], ◌∷◌, ◌++◌, length, if◌then◌else◌,
}
use ugoku.Dispatch.{Entry, Pc, walking, returned, Scan, begin, scanner}
use ugoku.Dispatch

pub data Kind : Type 0 where
  downloader uploader streamer server_syncer local_syncer : Kind

-- The loop over the channel begins with `if !started { return }`.
abbrev pub tests_started : Kind → Bool
tests_started uploader = true
tests_started streamer = true
tests_started k = false

-- The loop is the body of Start; with the other kinds it is a goroutine of its own, and Start watches
-- the field `to_exit`.
abbrev pub own_loop : Kind → Bool
own_loop server_syncer = true
own_loop local_syncer = true
own_loop k = false

-- Stop sets `to_exit`.
abbrev pub stop_exits : Kind → Bool
stop_exits k = not (own_loop k)

-- init calls Stop after an attempt that failed.
abbrev pub stops_failed : Kind → Bool
stops_failed streamer = true
stops_failed k = false

-- Where the loop over the channel stands: before the first lines of init; in the connection loop of
-- init; at the head of the loop; before `<-c`; with a file; before `done <- 1`; before the test of
-- `to_exit`; at its end.
pub data Loop (A : Type 0) : Type 0 where
  created connecting head receiving : Loop A
  working : A → Loop A
  reporting : A → Loop A
  deciding ended : Loop A

-- Where the goroutine of the manager stands: in Start; after Stop; after its slot in the list of
-- workers was set to nil.
pub data Manager : Type 0 where
  in_start stopped gone : Manager

pub record WorkerState (A : Type 0) : Type 0 where
  pub loop : Loop A
  pub manager : Manager
  pub started : Bool
  pub to_exit : Bool

-- `breaks` is a transfer, or one that goes on after its deadline, which sets `to_exit`. The Boolean of
-- `connects` says that an attempt failed before. `is_stopped` is a Stop by the signal handler.
pub data Turn : Type 0 where
  inits : Turn
  connects : Bool → Turn
  tests takes works breaks reports decides returns is_stopped : Turn

-- A turn that waits for the signal.
abbrev pub is_handler : Turn → Bool
is_handler is_stopped = true
is_handler e = false

module _ {A : Type 0} where
  abbrev pub new_worker : WorkerState A
  new_worker = record { loop = created; manager = in_start; started = false; to_exit = false }

  -- Stop of a worker, for its flags.
  unfoldable pub stop_flags : Kind → WorkerState A → WorkerState A
  stop_flags kind w = record w { started = false; to_exit = w.to_exit || stop_exits kind }

  abbrev pub inited : WorkerState A → Loop A → Option (WorkerState A)
  inited w created = some (record w { loop = connecting; started = false; to_exit = false })
  inited w l = none

  abbrev pub joined : Kind → Bool → WorkerState A → Loop A → Option (WorkerState A)
  joined kind failed w connecting = some (record w {
    loop = head;
    started = true;
    to_exit = w.to_exit || (failed && stops_failed kind);
  })
  joined kind failed w l = none

  abbrev pub tested : Kind → WorkerState A → Loop A → Option (WorkerState A)
  tested kind w head =
      some (record w { loop = if tests_started kind && not w.started then ended else receiving })
  tested kind w l = none

  abbrev pub worked : WorkerState A → Loop A → Option (WorkerState A)
  worked w (working a) = some (record w { loop = reporting a })
  worked w l = none

  abbrev pub broken : WorkerState A → Loop A → Option (WorkerState A)
  broken w created = none
  broken w connecting = none
  broken w l = some (record w { to_exit = true })

  abbrev pub decided : WorkerState A → Loop A → Option (WorkerState A)
  decided w deciding = some (record w { loop = if w.to_exit then ended else head })
  decided w l = none

  -- Whether Start can return.
  abbrev pub start_over : Kind → WorkerState A → Loop A → Bool
  start_over kind w created = false
  start_over kind w connecting = false
  start_over kind w ended = if own_loop kind then true else w.to_exit
  start_over kind w l = if own_loop kind then false else w.to_exit

  -- Start returns, and the manager calls Stop.
  abbrev pub returned_from : Kind → WorkerState A → Manager → Option (WorkerState A)
  unfolding stop_flags
  returned_from kind w in_start =
      if start_over kind w w.loop
      then some (record (stop_flags kind w) { manager = stopped })
      else none
  returned_from kind w m = none

  -- The handler calls Stop of the workers in the list.
  abbrev pub handled : Kind → WorkerState A → Manager → Option (WorkerState A)
  unfolding stop_flags
  handled kind w gone = none
  handled kind w m = some (stop_flags kind w)

  abbrev pub taken : WorkerState A → Scan A → Loop A → List A → Option (WorkerState A × Scan A)
  taken w s receiving (a ∷ rest) = some (record w { loop = working a }, record s { chan = rest })
  taken w s l chan = none

  abbrev pub reported : ℕ → WorkerState A → Scan A → Loop A → Option (WorkerState A × Scan A)
  reported cap w s (reporting a) =
      if ltb s.done cap
      then some
          (record w { loop = deciding }, record s { done = s.done + 1; finished = a ∷ s.finished })
      else none
  reported cap w s l = none

  abbrev pub alone : Scan A → Option (WorkerState A) → Option (WorkerState A × Scan A)
  alone s none = none
  alone s (some w) = some (w, s)

  -- A turn that the worker makes by itself.
  unfoldable pub own_turn : Kind → Turn → WorkerState A → Option (WorkerState A)
  own_turn kind inits w = inited w w.loop
  own_turn kind (connects failed) w = joined kind failed w w.loop
  own_turn kind tests w = tested kind w w.loop
  own_turn kind works w = worked w w.loop
  own_turn kind breaks w = broken w w.loop
  own_turn kind decides w = decided w w.loop
  own_turn kind returns w = returned_from kind w w.manager
  own_turn kind is_stopped w = handled kind w w.manager
  own_turn kind takes w = none
  own_turn kind reports w = none

  -- `none`: the turn cannot happen now.
  unfoldable pub turn : Kind → ℕ → Turn → WorkerState A → Scan A → Option (WorkerState A × Scan A)
  unfolding own_turn
  turn kind cap takes w s = taken w s w.loop s.chan
  turn kind cap reports w s = reported cap w s w.loop
  turn kind cap e w s = alone s (own_turn kind e w)

-- `scan` has the scanner, the channels and the files that were finished; the workers, which it only
-- counts, are in `workers`, those that were replaced among them. `term` is term_signal.
pub record System (A : Type 0) : Type 0 where
  pub scan : Scan A
  pub workers : List (WorkerState A)
  pub term : Bool

-- The scanner makes a step; a worker makes a turn; the manager of a worker goes on after Stop; the
-- handler sets term_signal, and calls Stop of the scanner.
pub data Event : Type 0 where
  scans : Event
  turns : ℕ → Turn → Event
  renews : ℕ → Event
  signals : Event
  stops_scanner : Event

module _ {A : Type 0} where
  -- The worker at an index, and the list with another worker there.
  unfoldable pub get_elem? : List (WorkerState A) → ℕ → Option (WorkerState A)
  get_elem? [] k = none
  get_elem? (w ∷ ws) zero = some w
  get_elem? (w ∷ ws) (suc k) = get_elem? ws k

  unfoldable pub set : List (WorkerState A) → ℕ → WorkerState A → List (WorkerState A)
  set [] k v = []
  set (w ∷ ws) zero v = v ∷ ws
  set (w ∷ ws) (suc k) v = w ∷ set ws k v

  abbrev pub back : System A → ℕ → Option (WorkerState A × Scan A) → Option (System A)
  back s k none = none
  back s k (some (w, scan)) = some (record s { scan = scan; workers = set s.workers k w })

  abbrev pub on_worker : Kind → ℕ → Turn → System A → ℕ → Option (WorkerState A) → Option (System A)
  unfolding turn
  on_worker kind cap e s k none = none
  on_worker kind cap e s k (some w) =
      if is_handler e && not s.term then none else back s k (turn kind cap e w s.scan)

  -- The slot becomes nil; in service mode, unless a signal came, a new worker takes it.
  abbrev pub replaced : Bool → System A → ℕ → WorkerState A → Manager → Option (System A)
  replaced one_time s k w stopped =
      let rest = set s.workers k (record w { manager = gone }) in
      some (record s { workers = if one_time || s.term then rest else rest ++ new_worker ∷ [] })
  replaced one_time s k w m = none

  abbrev pub renewed : Bool → System A → ℕ → Option (WorkerState A) → Option (System A)
  renewed one_time s k none = none
  renewed one_time s k (some w) = replaced one_time s k w w.manager

  abbrev pub scanned : System A → Option (Scan A) → Option (System A)
  scanned s none = none
  scanned s (some scan) = some (record s { scan = scan })

  -- `none`: the event cannot happen now. `cap` is the capacity of both channels.
  unfoldable pub step : Kind → Bool → ℕ → Event → System A → Option (System A)
  unfolding get_elem? set turn
  step kind one_time cap scans s = scanned s (scanner cap s.scan s.scan.pc)
  step kind one_time cap (turns k e) s = on_worker kind cap e s k (get_elem? s.workers k)
  step kind one_time cap (renews k) s = renewed one_time s k (get_elem? s.workers k)
  step kind one_time cap signals s = some (record s { term = true })
  step kind one_time cap stops_scanner s =
      if s.term then some (record s { scan = record s.scan { started = false } }) else none

  unfoldable pub run : Kind → Bool → ℕ → List Event → System A → Option (System A)
  run kind one_time cap [] s = some s
  run kind one_time cap (e ∷ es) s = elim (step kind one_time cap e s) [
    | none ↦ none
    | some t ↦ run kind one_time cap es t
  ]

  unfoldable pub new_workers : ℕ → List (WorkerState A)
  new_workers zero = []
  new_workers (suc n) = new_worker ∷ new_workers n

  -- A manager starts n workers and a scanner, over empty channels.
  abbrev pub launch : List (Entry A) → ℕ → System A
  launch entries n = record {
    scan = begin entries 0 [] [] 0;
    workers = new_workers n;
    term = false;
  }

  -- After scan_once returned, in service mode: the scan of the same scanner begins the next one, or
  -- the manager makes a new scanner if this one is stopped and no signal came.
  abbrev pub again : List (Entry A) → System A → Pc A → Option (System A)
  again entries s (returned b) =
      if not s.scan.started && s.term
      then none
      else some (record s { scan = begin entries 0 s.scan.chan [] s.scan.done })
  again entries s pc = none

  unfoldable pub next_scan : List (Entry A) → System A → Option (System A)
  next_scan entries s = again entries s s.scan.pc
