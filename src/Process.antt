-- ===== src/Process.antt =====
-- The process: the transfers that cmd/service/ugoku.go starts beside each other, with Handle of
-- internal/sigintHandler/siginthandler.go for each, and the ends of the process by os.Exit and by the
-- panic of a goroutine.
pub mod Quiet
pub mod Causes
pub mod Ends
pub mod Shared
pub mod Told
pub mod Shutdown
pub mod TermSignal
use ugoku.Base.{
  ℕ, zero, suc, ◌==◌, ltb, ℤ, pos, Bool, true, false, not, ◌&&◌, ◌||◌, Option, none, some, List, [],
  ◌∷◌, if◌then◌else◌,
}
use ugoku.Dispatch.{Entry, Pc, returned}
use ugoku.System.{
  Kind, downloader, uploader, streamer, server_syncer, local_syncer, Turn, System, turns, signals,
  stops_scanner, is_handler, next_scan, WorkerState, Manager, gone, Loop, created, working,
  is_stopped,
}
use ugoku.System
use ugoku.Sftplibs.Timeout.{calculate_timeout}

-- The goroutine of Handle: before `<-sigs`; at the begin of the callback; before its Stop of the scanner;
-- at its loop over the slots of the workers, with the number of those that are left; in the sleep before
-- os.Exit.
pub data Handler : Type 0 where
  waits in_callback at_scanner sleeps : Handler
  at_workers : ℕ → Handler

-- A transfer with its handler. `cap` is the capacity of its channels, `slots` the number of
-- places in its list of workers, `throughput` that of its configuration. `made`: its first scanner has been
-- made, before which `new_scanner` is nil. `bad_certificate`: the certificate file of a server that it connects to holds a key that is
-- no certificate.
pub record Member (A : Type 0) : Type 0 where
  pub kind : Kind
  pub one_time : Bool
  pub cap : ℕ
  pub slots : ℕ
  pub made : Bool
  pub throughput : ℤ
  pub bad_certificate : Bool
  pub system : System A
  pub handler : Handler

-- `over`: os.Exit was called, or a goroutine has panicked.
pub record Process (A : Type 0) : Type 0 where
  pub members : List (Member A)
  pub over : Bool

-- The package with the variable `term_signal` of the kind.
abbrev pub go_package : Kind → ℕ
go_package downloader = 0
go_package uploader = 1
go_package streamer = 2
go_package server_syncer = 3
go_package local_syncer = 3

-- The workers that call CalculateTimeout.
abbrev pub has_limit : Kind → Bool
has_limit downloader = true
has_limit uploader = true
has_limit server_syncer = true
has_limit kind = false

-- The workers that create files on a server; where Create gives an error, they call Error() of another
-- error, which is nil.
abbrev pub creates_remotely : Kind → Bool
creates_remotely uploader = true
creates_remotely streamer = true
creates_remotely local_syncer = true
creates_remotely kind = false

-- Their Create is in a goroutine, which may go on after the worker.
abbrev pub creates_beside : Kind → Bool
creates_beside uploader = true
creates_beside kind = false

-- The callbacks that call Stop of the scanner also where it is nil.
abbrev pub stops_nil : Kind → Bool
stops_nil downloader = true
stops_nil streamer = true
stops_nil kind = false

-- What a callback does.
abbrev pub of_callback : System.Event → Bool
of_callback (turns k e) = is_handler e
of_callback signals = true
of_callback stops_scanner = true
of_callback e = false

abbrev pub is_scan : System.Event → Bool
is_scan System.scans = true
is_scan e = false

-- The transfer at an index goes on; its first scanner is made; its scanner begins the next scan; the
-- signal arrives at all the handlers; the callback at an index sets term_signal, or calls Stop of the scanner
-- or of the worker in a slot; it goes past a nil; it calls Stop of a nil scanner; it returns; its os.Exit; the
-- os.Exit of a one-time transfer; another goroutine of the transfer panics.
pub data Event (A : Type 0) : Type 0 where
  runs : ℕ → System.Event → Event A
  makes : ℕ → Event A
  scans_again : ℕ → List (Entry A) → Event A
  arrives : Event A
  calls : ℕ → System.Event → Event A
  skips stops_no_scanner goes_to_sleep exits ends panics : ℕ → Event A

abbrev pub is_in_callback : Handler → Bool
is_in_callback in_callback = true
is_in_callback h = false

abbrev pub is_at_scanner : Handler → Bool
is_at_scanner at_scanner = true
is_at_scanner h = false

abbrev pub is_sleeping : Handler → Bool
is_sleeping sleeps = true
is_sleeping h = false

-- A handler waits for one signal only; the channel keeps one more, which nothing receives.
abbrev pub notified : Handler → Handler
notified waits = in_callback
notified h = h

abbrev pub has_returned : {A : Type 0} → Pc A → Bool
has_returned (returned b) = true
has_returned pc = false

abbrev pub is_none : {A : Type 0} → Option A → Bool
is_none none = true
is_none (some x) = false

abbrev pub at_file : {A : Type 0} → Loop A → Bool
at_file (working a) = true
at_file l = false

abbrev pub any_at_file : {A : Type 0} → List (WorkerState A) → Bool
any_at_file [] = false
any_at_file (w ∷ ws) = at_file w.loop || any_at_file ws

module _ {A : Type 0} where
  -- CalculateTimeout divides by zero, as it then does whatever the size.
  abbrev pub divides_by_zero : Member A → Bool
  divides_by_zero m = has_limit m.kind && is_none (calculate_timeout m.throughput (pos 0) (pos 0))

  -- The panics that the code allows beside that of the callback, in this order: in ConnectSftpServer,
  -- of a worker or of the scanner; after a Create; in CalculateTimeout.
  abbrev pub may_panic : Member A → Bool
  may_panic m =
      m.bad_certificate
      || creates_remotely m.kind && (creates_beside m.kind || any_at_file m.system.workers)
      || divides_by_zero m && any_at_file m.system.workers

  -- Before the first scanner is made; and once Start of a scanner has returned: that of a one-time
  -- transfer after its scan, another only if it has been stopped.
  abbrev pub may_be_nil : Member A → Bool
  may_be_nil m =
      not m.made || has_returned m.system.scan.pc && (m.one_time || not m.system.scan.started)

  -- Stop of a nil scanner panics.
  abbrev pub callback_panics : Member A → Bool
  callback_panics m = stops_nil m.kind && is_at_scanner m.handler && may_be_nil m

  abbrev pub with_system : Member A → Option (System A) → Option (Member A)
  with_system m none = none
  with_system m (some s) = some (record m { system = s })

  -- A step of the transfer itself.
  unfoldable pub goes_on : System.Event → Member A → Option (Member A)
  goes_on e m = with_system m (System.step m.kind m.one_time m.cap e m.system)

  -- There is nothing to scan with before the first scanner.
  abbrev pub runs_on : System.Event → Member A → Option (Member A)
  runs_on e m = if is_scan e && not m.made then none else goes_on e m

  abbrev pub first_made : Member A → Option (Member A)
  first_made m = if m.made then none else some (record m { made = true })

  abbrev pub again : List (Entry A) → Member A → Option (Member A)
  again entries m = if m.one_time then none else with_system m (next_scan entries m.system)

  abbrev pub then_at : Handler → Option (Member A) → Option (Member A)
  then_at h none = none
  then_at h (some m) = some (record m { handler = h })

  abbrev pub called : System.Event → Member A → Handler → Option (Member A)
  called stops_scanner m at_scanner =
      if m.made then then_at (at_workers m.slots) (goes_on stops_scanner m) else none
  called (turns k is_stopped) m (at_workers (suc left)) =
      then_at (at_workers left) (goes_on (turns k is_stopped) m)
  called e m h = none

  -- The callback calls Stop of the scanner, or of the worker in the next slot.
  abbrev pub callback : System.Event → Member A → Option (Member A)
  callback e m = called e m m.handler

  -- Whether a worker is in its slot for sure; a new one may not have been put there yet.
  abbrev pub is_present : Manager → Loop A → Bool
  is_present gone l = false
  is_present manager created = false
  is_present manager l = true

  unfoldable pub present : List (WorkerState A) → ℕ
  present [] = zero
  present (w ∷ ws) = let rest = present ws in if is_present w.manager w.loop then suc rest else rest

  abbrev pub past_nil : Member A → Handler → Option (Member A)
  past_nil m at_scanner =
      if not (stops_nil m.kind) && may_be_nil m
      then some (record m { handler = at_workers m.slots })
      else none
  past_nil m (at_workers (suc left)) =
      if ltb (present m.system.workers) m.slots
      then some (record m { handler = at_workers left })
      else none
  past_nil m h = none

  -- The callback finds a nil scanner, where it tests for that, or an empty slot.
  abbrev pub skipped : Member A → Option (Member A)
  skipped m = past_nil m m.handler

  abbrev pub returned_at : Member A → Handler → Option (Member A)
  returned_at m (at_workers zero) = some (record m { handler = sleeps })
  returned_at m h = none

  -- The callback returns after the last slot.
  abbrev pub slept : Member A → Option (Member A)
  slept m = returned_at m m.handler

  unfoldable pub all_notified : List (Member A) → List (Member A)
  all_notified [] = []
  all_notified (m ∷ ms) = record m { handler = notified m.handler } ∷ all_notified ms

  -- term_signal of a package.
  unfoldable pub termed : ℕ → List (Member A) → List (Member A)
  termed p [] = []
  termed p (m ∷ ms) =
      let rest = termed p ms in
      if go_package m.kind == p
      then record m { system = record m.system { term = true } } ∷ rest
      else m ∷ rest

  unfoldable pub member : List (Member A) → ℕ → Option (Member A)
  member [] i = none
  member (m ∷ ms) zero = some m
  member (m ∷ ms) (suc i) = member ms i

  unfoldable pub with_member : List (Member A) → ℕ → Member A → List (Member A)
  with_member [] i n = []
  with_member (m ∷ ms) zero n = n ∷ ms
  with_member (m ∷ ms) (suc i) n = m ∷ with_member ms i n

  abbrev pub put_back : Process A → ℕ → Option (Member A) → Option (Process A)
  put_back p i none = none
  put_back p i (some m) = some (record p { members = with_member p.members i m })

  abbrev pub changed :
      Process A → ℕ → (Member A → Option (Member A)) → Option (Member A) → Option (Process A)
  changed p i f none = none
  changed p i f (some m) = put_back p i (f m)

  abbrev pub exited : Process A → (Member A → Bool) → Option (Member A) → Option (Process A)
  exited p may none = none
  exited p may (some m) = if may m then some (record p { over = true }) else none

  -- The callback sets term_signal first.
  abbrev pub set_term : Process A → ℕ → Option (Member A) → Option (Process A)
  set_term p i none = none
  set_term p i (some m) =
      if is_in_callback m.handler
      then some (record p {
        members =
            with_member (termed (go_package m.kind) p.members) i
              (record m { system = record m.system { term = true }; handler = at_scanner });
      })
      else none

  abbrev pub live : Event A → Process A → Option (Process A)
  live (runs i e) p = if of_callback e then none else changed p i (runs_on e) (member p.members i)
  live (makes i) p = changed p i first_made (member p.members i)
  live (scans_again i entries) p = changed p i (again entries) (member p.members i)
  live arrives p = some (record p { members = all_notified p.members })
  live (calls i signals) p = set_term p i (member p.members i)
  live (calls i e) p = changed p i (callback e) (member p.members i)
  live (skips i) p = changed p i skipped (member p.members i)
  live (stops_no_scanner i) p = exited p callback_panics (member p.members i)
  live (goes_to_sleep i) p = changed p i slept (member p.members i)
  live (exits i) p = exited p (λ m. is_sleeping m.handler) (member p.members i)
  live (panics i) p = exited p may_panic (member p.members i)
  live (ends i) p = exited p (λ m. m.one_time && has_returned m.system.scan.pc) (member p.members i)

  -- `none`: the event cannot happen now, as nothing can after the end of the process.
  unfoldable pub step : Event A → Process A → Option (Process A)
  unfolding goes_on present all_notified termed member with_member
  step e p = if p.over then none else live e p

  unfoldable pub run : List (Event A) → Process A → Option (Process A)
  run [] p = some p
  run (e ∷ es) p = elim (step e p) [ none ↦ none | some q ↦ run es q ]
