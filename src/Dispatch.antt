-- ===== src/Dispatch.antt =====
-- How a scanner hands files to its workers: scan_once of downloader/sftp-scanner.go, with the two
-- channels between them, and the same loop in the scan of uploader/folder-scanner.go. The walk is a
-- list of entries that the environment fixes; the scheduler's choices are events.
pub mod Counts
pub mod Invariant
pub mod Progress
pub mod Complete
pub mod Stuck
use ugoku.Base.{
  ℕ, zero, suc, ◌+◌, ◌-◌, ltb, ℤ, pos, ltb_ℤ, incr, decr, Bool, true, false, not, Option, none,
  some, List, [], ◌∷◌, ◌++◌, length, if◌then◌else◌,
}

-- One round of `for w.Step()`: a file, a directory, or an error of the walk.
pub data Entry (A : Type 0) : Type 0 where
  file : A → Entry A
  directory : Entry A
  fault : Entry A

-- Where the scanner stands: at the head of the loop; at the `select` with a file in hand; in its
-- default case, before `<-done` and before `c <- rf`; in the last loop; or returned.
pub data Pc (A : Type 0) : Type 0 where
  walking : Pc A
  selecting : A → Pc A
  waiting : A → Pc A
  sending : A → Pc A
  draining : Pc A
  returned : Bool → Pc A

pub record Scan (A : Type 0) : Type 0 where
  pub pc : Pc A
  pub todo : List (Entry A)
  pub started : Bool
  pub files_found : Bool
  pub dispatched : ℤ
  pub chan : List A  -- the buffer of c, the oldest first
  pub done : ℕ  -- the values in the buffer of done
  pub busy : List A  -- what the workers are at
  pub finished : List A  -- what they have put a value on done for, the last one first
  pub alive : ℕ  -- the workers that have not exited

-- The scanner makes a step; an idle worker takes a file; a worker puts a value on done for the file
-- at an index of `busy`; Stop is called; an idle worker exits.
pub data Event : Type 0 where
  scans : Event
  takes : Event
  finishes : ℕ → Event
  stops : Event
  quits : Event

module _ {A : Type 0} where
  -- The item at an index and the others.
  unfoldable pub pick : ℕ → List A → Option (A × List A)
  pick k [] = none
  pick zero (x ∷ xs) = some (x, xs)
  pick (suc k) (x ∷ xs) = elim (pick k xs) [ none ↦ none | some (y, ys) ↦ some (y, x ∷ ys) ]

  abbrev pub walk : Scan A → List (Entry A) → Option (Scan A)
  walk s [] =
      some
        (record s { pc = if ltb_ℤ (pos 0) s.dispatched then draining else returned s.files_found })
  walk s (e ∷ rest) =
      if not s.started
      then some (record s { pc = returned false; todo = rest })
      else some (elim e [
        | file a ↦ record s { pc = selecting a; todo = rest; files_found = true }
        | directory ↦ record s { todo = rest }
        | fault ↦ record s { pc = returned false; todo = rest; started = false }
      ])

  abbrev put : Scan A → A → Scan A
  put s a = record s { pc = walking; chan = s.chan ++ a ∷ []; dispatched = incr s.dispatched }

  -- A blocked receive is `none`.
  abbrev receive : ℕ → (ℕ → Scan A) → Option (Scan A)
  receive zero k = none
  receive (suc d) k = some (k d)

  -- scan_once begins, over channels that may still hold files and values.
  abbrev pub begin : List (Entry A) → ℕ → List A → List A → ℕ → Scan A
  begin entries workers chan busy done = record {
    pc = walking;
    todo = entries;
    started = true;
    files_found = false;
    dispatched = pos 0;
    chan = chan;
    done = done;
    busy = busy;
    finished = [];
    alive = workers;
  }

module _ {A : Type 0} (cap : ℕ) where
  abbrev pub scanner : Scan A → Pc A → Option (Scan A)
  scanner s walking = walk s s.todo
  scanner s (selecting a) =
      some (if ltb (length s.chan) cap then put s a else record s { pc = waiting a })
  scanner s (waiting a) =
      receive s.done (λ d. record s { pc = sending a; done = d; dispatched = decr s.dispatched })
  scanner s (sending a) = if ltb (length s.chan) cap then some (put s a) else none
  scanner s draining = receive s.done (λ d.
      let left = decr s.dispatched in
      record s {
        pc = if ltb_ℤ left (pos 1) then returned s.files_found else draining;
        done = d;
        dispatched = left;
      })
  scanner s (returned b) = none

  abbrev pub take_from : Scan A → List A → Option (Scan A)
  take_from s [] = none
  take_from s (a ∷ rest) =
      if ltb (length s.busy) s.alive
      then some (record s { chan = rest; busy = a ∷ s.busy })
      else none

  abbrev pub finish : Scan A → Option (A × List A) → Option (Scan A)
  finish s none = none
  finish s (some (a, rest)) =
      if ltb s.done cap
      then some (record s { busy = rest; done = s.done + 1; finished = a ∷ s.finished })
      else none

  -- `none`: the event cannot happen now. `cap` is the capacity of both channels, and `one_time` says
  -- that a worker which exits is not made again.
  unfoldable pub step : Bool → Event → Scan A → Option (Scan A)
  step one_time scans s = scanner s s.pc
  step one_time takes s = take_from s s.chan
  step one_time (finishes k) s = finish s (pick k s.busy)
  step one_time stops s = if s.started then some (record s { started = false }) else none
  step one_time quits s =
      if one_time
      then (if ltb (length s.busy) s.alive then some (record s { alive = s.alive - 1 }) else none)
      else none

  unfoldable pub run : Bool → List Event → Scan A → Option (Scan A)
  run one_time [] s = some s
  run one_time (e ∷ es) s = elim (step one_time e s) [ none ↦ none | some t ↦ run one_time es t ]
