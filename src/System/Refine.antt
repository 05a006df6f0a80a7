-- ===== src/System/Refine.antt =====
-- A system of the module System is one of the module Dispatch, which only counts its workers.
use ugoku.Base.{
  ℕ, ◌≤◌, ◌≡◌, refl, Bool, false, Option, none, some, List, [], ◌∷◌, ◌++◌, length, length-append,
  arith, Shuffled, Shuffled_refl, Shuffled-Perm, Bool-cases, inl, inr,
}
use mathlib.Core.List.{Perm}
use ugoku.Dispatch.{
  Pc, walking, selecting, waiting, sending, draining, returned, Entry, file, directory, fault, Scan,
  scanner, walk, pick, take_from, finish, begin,
}
use ugoku.Dispatch
use ugoku.System.{
  Kind, WorkerState, Turn, gone, get_elem?, set, new_worker, System, Event, scans, turns, renews,
  signals, stops_scanner, step, run, turn, on_worker, back, renewed, scanned,
}
use ugoku.System.Runs.{run-step, run-append}
use ugoku.System.Matching.{
  with_busy, scanner-with_busy, length-set, Matched, becomes, turns-Matched, renew-Matched,
}
use ugoku.System.Held.{held}

module _ {A : Type 0} where
  module _ (kind : Kind) (one_time o : Bool) (cap m : ℕ) where
    step-Matched :
        (busy : List A) (s t : System A) (e : Event)
        → Shuffled busy (held s.workers)
        → length s.workers ≤ m
        → step kind one_time cap e s ≡ some t
        → Matched kind one_time o cap m busy s t
    unfolding step Dispatch.run Dispatch.step
    step-Matched busy s t scans p fits h = of_scanner (scanner cap s.scan s.scan.pc) refl h
      where
        of_scanner :
            (r : Option (Scan A))
            → scanner cap s.scan s.scan.pc ≡ r
            → scanned s r ≡ some t
            → Matched kind one_time o cap m busy s t
        of_scanner none e h = absurd (ground arith)
        of_scanner (some v) e h =
            becomes kind one_time o cap m busy s t (record s { scan = v }) h
              (
                Dispatch.scans ∷ [],
                busy,
                p,
                rw (Dispatch.run, scanner-with_busy cap busy m s.scan v s.scan.pc e) refl,
              )
    step-Matched busy s t (turns k e) p fits h =
        turns-Matched kind one_time o cap m busy s t k e p fits (get_elem? s.workers k) refl h
    step-Matched busy s t (renews k) p fits h =
        renew-Matched kind one_time o cap m busy s t k p (get_elem? s.workers k) refl h
    step-Matched busy s t signals p fits h =
        becomes kind one_time o cap m busy s t _ h ([], busy, p, refl)
    step-Matched busy s t stops_scanner p fits h = elim (Bool-cases s.scan.started) [
      | inl on ↦
          becomes kind one_time o cap m busy s t
            (record s { scan = record s.scan { started = false } }) (ground arith)
            (Dispatch.stops ∷ [], busy, p, rw on refl)
      | inr off ↦
          becomes kind one_time o cap m busy s t
            (record s { scan = record s.scan { started = false } }) (ground arith)
            ([], busy, p, ground arith)
    ]

    back_grows :
        (s t : System A) (k : ℕ) (r : Option (WorkerState A × Scan A))
        → back s k r ≡ some t
        → length s.workers ≤ length t.workers
    back_grows s t k none h = absurd (ground arith)
    back_grows s t k (some (w, v)) h = ground (arith, length-set s.workers k w)

    renewed_grows :
        (s t : System A) (k : ℕ) (r : Option (WorkerState A))
        → renewed one_time s k r ≡ some t
        → length s.workers ≤ length t.workers
    renewed_grows s t k none h = absurd (ground arith)
    renewed_grows s t k (some w) h = ground (
      arith,
      length-set s.workers k (record w { manager = gone }),
      length-append (set s.workers k (record w { manager = gone })) (new_worker ∷ []),
    )

    turned_grows :
        (s t : System A) (k : ℕ) (e : Turn) (r : Option (WorkerState A))
        → on_worker kind cap e s k r ≡ some t
        → length s.workers ≤ length t.workers
    unfolding turn
    turned_grows s t k e none h = absurd (ground arith)
    turned_grows s t k e (some w) h = back_grows s t k (turn kind cap e w s.scan) (ground arith)

    -- No event takes a worker away.
    step_grows :
        (s t : System A) (e : Event)
        → step kind one_time cap e s ≡ some t
        → length s.workers ≤ length t.workers
    unfolding step
    step_grows s t scans h = ground arith
    step_grows s t (turns k e) h = turned_grows s t k e (get_elem? s.workers k) h
    step_grows s t (renews k) h = renewed_grows s t k (get_elem? s.workers k) h
    step_grows s t signals h = ground arith
    step_grows s t stops_scanner h = ground arith

    pub run_grows :
        (es : List Event) (s t : System A)
        → run kind one_time cap es s ≡ some t
        → length s.workers ≤ length t.workers
    unfolding run
    run_grows [] s t h = ground arith
    run_grows (e ∷ es) s t h =
        let (u, first, rest) = run-step kind one_time cap e es s t h in
        omega (arith, step_grows s u e first, run_grows es u t rest)

    pub run-Matched :
        (es : List Event) (busy : List A) (s t : System A)
        → Shuffled busy (held s.workers)
        → length t.workers ≤ m
        → run kind one_time cap es s ≡ some t
        → Matched kind one_time o cap m busy s t
    unfolding run Dispatch.run
    run-Matched [] busy s t p fits h =
        becomes kind one_time o cap m busy s t s h ([], busy, p, refl)
    run-Matched (e ∷ es) busy s t p fits h =
        let (u, first, rest) = run-step kind one_time cap e es s t h in
        let (ds, busy1, p1, r1) =
          step-Matched busy s u e p (omega (arith, step_grows s u e first, run_grows es u t rest))
            first in
        let (fs, busy2, p2, r2) = run-Matched es busy1 u t p1 fits rest in
        (ds ++ fs, busy2, p2, run-append o cap ds fs _ _ _ r1 r2)

  -- Take any run of a system, from any state, and a number m that is at least the number of workers
  -- that there are at its end, those that were replaced among them. Then there is a schedule of the
  -- module Dispatch, with m workers of which none exits, from the same scanner and channels and the
  -- files that the workers held, to the same scanner and channels and, in some order, the files that
  -- the workers hold.
  pub system_refines :
      (kind : Kind) (one_time : Bool) (cap m : ℕ) (es : List Event) (s t : System A)
      → length t.workers ≤ m
      → run kind one_time cap es s ≡ some t
      → (ds : List Dispatch.Event) × (busy : List A) × Perm busy (held t.workers)
        × (Dispatch.run cap false ds (with_busy (held s.workers) m s.scan)
            ≡ some (with_busy busy m t.scan))
  system_refines kind one_time cap m es s t fits h =
      let (ds, busy, p, r) =
        run-Matched kind one_time false cap m es (held s.workers) s t
          (Shuffled_refl (held s.workers)) fits h in
      (ds, busy, Shuffled-Perm p, r)
