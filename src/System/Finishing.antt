-- ===== src/System/Finishing.antt =====
-- That a scan of a system which nothing disturbs comes to its end.
use ugoku.Base.{
  ℕ, ◌+◌, ◌*◌, ◌≤◌, ◌<◌, ◌≡◌, sym, ap, ◌≢◌, ◌⊎◌, Bool, true, false, none, some, List, [], ◌∷◌,
  length, arith, inl, inr, Shuffled_refl, Shuffled_length,
}
use mathlib.Core.Path.{subst}
use ugoku.Dispatch.{
  Entry, Pc, walking, selecting, waiting, sending, draining, returned, Scan, begin,
}
use ugoku.Dispatch
use ugoku.Dispatch.Progress.{HasReturned, measure, scan_once_no_deadlock}
use ugoku.System.{
  Kind, WorkerState, Loop, created, connecting, head, receiving, working, reporting, deciding,
  ended, System, Event, step, run,
}
use ugoku.System.Held.{held, length-held}
use ugoku.System.Matching.{with_busy}
use ugoku.System.Refine.{run-Matched}
use ugoku.System.Moves.{work_goes}
use ugoku.System.Calm.{is_calm, all_calm, IsCalm, cost, costs, run-Calmer}

module _ {A : Type 0} where
  returned? : (pc : Pc A) → HasReturned pc ⊎ (¬ HasReturned pc)
  returned? (returned b) = inl tt
  returned? walking = inr (λ x. x)
  returned? (selecting a) = inr (λ x. x)
  returned? (waiting a) = inr (λ x. x)
  returned? (sending a) = inr (λ x. x)
  returned? draining = inr (λ x. x)

  costs_bounded : (ws : List (WorkerState A)) → costs ws ≤ 21 * length ws
  costs_bounded [] = omega arith
  costs_bounded (w ∷ ws) = omega (arith, of_loop w.loop, costs_bounded ws)
    where
      of_loop : (l : Loop A) → cost l ≤ 21
      of_loop created = omega arith
      of_loop connecting = omega arith
      of_loop head = omega arith
      of_loop receiving = omega arith
      of_loop (working a) = omega arith
      of_loop (reporting a) = omega arith
      of_loop deciding = omega arith
      of_loop ended = omega arith

  -- A manager of any kind, in either mode, with n > 0 workers, as its scan_once begins, at its launch or
  -- later, with anything in the channels and in the hands of the workers. No worker is told to exit, and
  -- no signal has come. A run of it in which no connection and no transfer fails and no signal comes has
  -- at most 80 events for each entry of the walk, 30 for each file and 10 for each value in the channels,
  -- 21 for each worker, and 80 more; and at its end scan_once has returned, or another such event can
  -- happen.
  pub calm_scan_ends :
      (kind : Kind) (one_time : Bool) (entries : List (Entry A)) (es : List Event) (s t : System A)
      → 0 < length s.workers
      → IsCalm s
      → s.scan ≡ begin entries 0 s.scan.chan [] s.scan.done
      → length s.scan.chan ≤ length s.workers * 2
      → s.scan.done ≤ length s.workers * 2
      → all_calm es ≡ true
      → run kind one_time (length s.workers * 2) es s ≡ some t
      → (length es
          ≤ 80 * length entries
            + 30 * length s.scan.chan
            + 10 * s.scan.done
            + 21 * length s.workers
            + 80)
        × (HasReturned t.scan.pc
            ⊎ ((e : Event) × (is_calm e ≡ true)
                × (step kind one_time (length s.workers * 2) e t ≢ none)))
  unfolding measure
  calm_scan_ends kind one_time entries es s t room calm0 fresh fits_chan fits_done c r =
      let n = length s.workers in
      let (calm, same, few) = run-Calmer kind one_time (n * 2) es s t c calm0 r in
      let (ds, busy, shuffled, runs) =
        run-Matched kind one_time false (n * 2) n es (held s.workers) s t
          (Shuffled_refl (held s.workers)) (omega (arith, same)) r in
      let from_begin =
        subst
          (λ (x : Scan A).
            Dispatch.run (n * 2) false ds (with_busy (held s.workers) n x)
            ≡ some (with_busy busy n t.scan))
          fresh runs in
      (
        omega (arith, few, costs_bounded s.workers, ap measure fresh),
        elim (returned? t.scan.pc) [
          | inl over ↦ inl over
          | inr on ↦
              let (e, work, moves) =
                scan_once_no_deadlock n entries s.scan.chan (held s.workers) s.scan.done ds
                  (with_busy busy n t.scan) room fits_chan (length-held s.workers) fits_done
                  from_begin on in
              inr (
                work_goes kind one_time (n * 2) t busy e work (Shuffled_length shuffled) calm (
                  subst (λ (m : ℕ). Dispatch.step (n * 2) false e (with_busy busy m t.scan) ≢ none)
                    (sym same) moves))
        ],
      )
