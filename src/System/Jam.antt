-- ===== src/System/Jam.antt =====
-- How a service stops for good after a worker was replaced.
use ugoku.Base.{
  ℕ, ◌≤◌, ◌≡◌, refl, ap, Bool, true, false, Option, none, some, List, [], ◌∷◌, ◌++◌, length, arith,
  All, ◌∙◌,
}
use mathlib.Core.Option.{some-injective}
use ugoku.Dispatch.{Entry, Pc, sending, Scan}
use ugoku.Dispatch.Progress.{HasReturned}
use ugoku.System.{
  Kind, WorkerState, Manager, in_start, gone, Loop, reporting, ended, Turn, inits, connects, tests,
  takes, works, breaks, reports, decides, returns, is_stopped, own_turn, stop_flags, turn,
  get_elem?, System, Event, scans, turns, renews, signals, stops_scanner, step, run, on_worker,
  renewed, back, launch,
}
use ugoku.System.Budget.{All-get_elem?}
use ugoku.System.Calm.{is_calm_turn, is_calm}
use ugoku.System.Runs.{run-step}

-- The loop waits before `done <- 1`, or has ended, and the manager has nothing to do.
abbrev pub WaitsAt : {A : Type 0} → Manager → Loop A → Bool → Type 0
WaitsAt in_start (reporting a) b = b ≡ false
WaitsAt gone (reporting a) b = Unit {0}
WaitsAt gone ended b = Unit {0}
WaitsAt m l b = ⊥

module _ {A : Type 0} where
  abbrev pub Waits : WorkerState A → Type 0
  Waits w = WaitsAt w.manager w.loop w.to_exit

  -- The scanner waits before `c <- rf`, both channels are full, and the workers wait.
  pub record IsJammed (cap : ℕ) (s : System A) : Type 0 where
    pub file : A
    pub sends : s.scan.pc ≡ sending file
    pub full : cap ≤ length s.scan.chan
    pub done_full : cap ≤ s.scan.done
    pub wait : All Waits s.workers

  turn-Waits :
      (kind : Kind) (cap : ℕ) (e : Turn) (w : WorkerState A) (s : Scan A)
      → is_calm_turn e ≡ true
      → cap ≤ s.done
      → Waits w
      → turn kind cap e w s ≡ none
  unfolding turn own_turn stop_flags
  turn-Waits kind cap takes w s c full st = ground arith
  turn-Waits kind cap reports w s c full st = ground arith
  turn-Waits kind cap inits w s c full st = ground arith
  turn-Waits kind cap (connects b) w s c full st = ground arith
  turn-Waits kind cap tests w s c full st = ground arith
  turn-Waits kind cap works w s c full st = ground arith
  turn-Waits kind cap breaks w s c full st = absurd (ground arith)
  turn-Waits kind cap decides w s c full st = ground arith
  turn-Waits kind cap returns w s c full st = ground arith
  turn-Waits kind cap is_stopped w s c full st = absurd (ground arith)

  module _ (kind : Kind) (one_time : Bool) (cap : ℕ) where
    turns-IsJammed :
        (s : System A) (k : ℕ) (e : Turn) (r : Option (WorkerState A))
        → get_elem? s.workers k ≡ r
        → is_calm_turn e ≡ true
        → IsJammed cap s
        → on_worker kind cap e s k r ≡ none
    unfolding turn
    turns-IsJammed s k e none at c jam = refl
    turns-IsJammed s k e (some w) at c jam =
        let blocked =
          turn-Waits kind cap e w s.scan c jam.done_full
            (All-get_elem? Waits s.workers k w at jam.wait) in
        ground (arith, ap (back s k) blocked)

    renews-IsJammed :
        (s : System A) (k : ℕ) (r : Option (WorkerState A))
        → get_elem? s.workers k ≡ r
        → IsJammed cap s
        → renewed one_time s k r ≡ none
    renews-IsJammed s k none at jam = refl
    renews-IsJammed s k (some w) at jam =
        let st = All-get_elem? Waits s.workers k w at jam.wait in ground (arith, st)

    step-IsJammed :
        (s : System A) (e : Event)
        → is_calm e ≡ true
        → IsJammed cap s
        → step kind one_time cap e s ≡ none
    unfolding step
    step-IsJammed s scans c jam = rw jam.sends (ground (arith, jam.full))
    step-IsJammed s (turns k e) c jam = turns-IsJammed s k e (get_elem? s.workers k) refl c jam
    step-IsJammed s (renews k) c jam = renews-IsJammed s k (get_elem? s.workers k) refl jam
    step-IsJammed s signals c jam = absurd (ground arith)
    step-IsJammed s stops_scanner c jam = absurd (ground arith)

    run_append :
        (es fs : List Event) (s t : System A)
        → run kind one_time cap es s ≡ some t
        → run kind one_time cap (es ++ fs) s ≡ run kind one_time cap fs t
    unfolding run
    run_append [] fs s t h = ap (run kind one_time cap fs) (some-injective s t h)
    run_append (e ∷ es) fs s t h =
        let (u, first, rest) = run-step kind one_time cap e es s t h in
        rw (run, first) (run_append es fs u t rest)

    sends_still : (s : System A) → IsJammed cap s → ¬ HasReturned s.scan.pc
    sends_still s jam = of_pc s.scan.pc jam.sends
      where
        of_pc : (pc : Pc A) → pc ≡ sending jam.file → ¬ HasReturned pc
        of_pc pc e r = rw e at r

  -- A manager of any kind, in either mode, in a run that came to a state in which the channels are full,
  -- the scanner is before `c <- rf`, and each worker is before `done <- 1`, or has ended and was replaced.
  -- Then scan_once has not returned, and the run cannot go on with anything but a further failure or the
  -- signal.
  pub jam_stays :
      (kind : Kind) (one_time : Bool) (cap n : ℕ) (entries : List (Entry A)) (es fs : List Event)
      (e : Event) (s : System A)
      → run kind one_time cap es (launch entries n) ≡ some s
      → IsJammed cap s
      → is_calm e ≡ true
      → (run kind one_time cap (es ++ e ∷ fs) (launch entries n) ≡ none) × (¬ HasReturned s.scan.pc)
  unfolding run
  jam_stays kind one_time cap n entries es fs e s h jam c = (
    run_append kind one_time cap es (e ∷ fs) (launch entries n) s h
        ∙ rw (run, step-IsJammed kind one_time cap s e c jam) refl,
    sends_still kind one_time cap s jam,
  )
