-- ===== src/System/Conserve.antt =====
-- What is on its way in a system: in the channel, or in the hands of a worker.
use mathlib.Core.Path.{subst}
use ugoku.Base.{
  ℕ, ◌+◌, ◌≤◌, ◌<◌, ◌≡◌, refl, ap, ◌∙◌, Bool, true, false, Option, none, some, List, [], ◌∷◌,
  length, arith, Shuffled, nothing, swapped, both, Shuffled_refl, Shuffled_length,
}
use ugoku.Base.{after}
use ugoku.Dispatch.{
  Entry, file, directory, fault, Pc, walking, selecting, waiting, sending, draining, returned, Scan,
  begin, scanner, walk, take_from, finish, pick,
}
use ugoku.Dispatch
use ugoku.Dispatch.Counts.{weight, weight-append, files_of, pick-Picked}
use ugoku.Dispatch.Complete.{AnyFile, scan_conserves}
use ugoku.System.{Kind, System, Event, run}
use ugoku.System.Held.{held, length-held}
use ugoku.System.Matching.{with_busy}
use ugoku.System.Refine.{run-Matched, run_grows}
use ugoku.System.Runs.{dispatch_step}

weight-Shuffled :
    {A : Type 0} (f : A → ℕ) {xs ys : List A} → Shuffled xs ys → weight f xs ≡ weight f ys
weight-Shuffled f nothing = refl
weight-Shuffled f (after x p) = omega (arith, weight-Shuffled f p)
weight-Shuffled f (swapped x y xs) = omega arith
weight-Shuffled f (both p q) = weight-Shuffled f p ∙ weight-Shuffled f q

-- The files that were handed out, finished or not.
abbrev handed : {A : Type 0} → (A → ℕ) → Scan A → ℕ
handed f s = weight f s.finished + weight f s.busy + weight f s.chan

module _ {A : Type 0} (cap : ℕ) (f : A → ℕ) where
  scanner_keeps : (s t : Scan A) (pc : Pc A) → scanner cap s pc ≡ some t → handed f s ≤ handed f t
  scanner_keeps s t walking h = of_walk s.todo h
    where
      of_walk : (es : List (Entry A)) → walk s es ≡ some t → handed f s ≤ handed f t
      of_walk [] h = ground arith
      of_walk (file a ∷ es) h = ground arith
      of_walk (directory ∷ es) h = ground arith
      of_walk (fault ∷ es) h = ground arith
  scanner_keeps s t (selecting a) h = ground (arith, weight-append f s.chan (a ∷ []))
  scanner_keeps s t (waiting a) h = ground arith
  scanner_keeps s t (sending a) h = ground (arith, weight-append f s.chan (a ∷ []))
  scanner_keeps s t draining h = ground arith
  scanner_keeps s t (returned b) h = cc

  step_keeps :
      (one_time : Bool) (e : Dispatch.Event) (s t : Scan A)
      → Dispatch.step cap one_time e s ≡ some t
      → handed f s ≤ handed f t
  unfolding Dispatch.step
  step_keeps one_time Dispatch.scans s t h = scanner_keeps s t s.pc h
  step_keeps one_time Dispatch.takes s t h = of_chan s.chan refl h
    where
      of_chan :
          (chan : List A) → s.chan ≡ chan → take_from cap s chan ≡ some t → handed f s ≤ handed f t
      of_chan [] e h = cc
      of_chan (a ∷ rest) e h = ground (arith, ap (weight f) e)
  step_keeps one_time (Dispatch.finishes k) s t h = of_pick (pick k s.busy) refl h
    where
      of_pick :
          (r : Option (A × List A))
          → pick k s.busy ≡ r
          → finish cap s r ≡ some t
          → handed f s ≤ handed f t
      of_pick none e h = cc
      of_pick (some (a, rest)) e h =
          let (same_weight, _) = rw e at (pick-Picked f k s.busy) in ground (arith, same_weight)
  step_keeps one_time Dispatch.stops s t h = ground arith
  step_keeps one_time Dispatch.quits s t h = ground arith

  run_keeps :
      (one_time : Bool) (es : List Dispatch.Event) (s t : Scan A)
      → Dispatch.run cap one_time es s ≡ some t
      → handed f s ≤ handed f t
  unfolding Dispatch.run
  run_keeps one_time [] s t h = ground arith
  run_keeps one_time (e ∷ es) s t h =
      let (u, first, rest) = dispatch_step one_time cap e es s t h in
      omega (arith, step_keeps one_time e s u first, run_keeps one_time es u t rest)

module _ {A : Type 0} where
  -- In any run of a system, whatever fails, is stopped or is signalled: no file that was handed out is
  -- lost. For all weights, the files finished, with the workers and in the channel never become fewer.
  pub system_keeps :
      (kind : Kind) (one_time : Bool) (cap : ℕ) (es : List Event) (s t : System A) (f : A → ℕ)
      → run kind one_time cap es s ≡ some t
      → weight f s.scan.finished + weight f (held s.workers) + weight f s.scan.chan
        ≤ weight f t.scan.finished + weight f (held t.workers) + weight f t.scan.chan
  system_keeps kind one_time cap es s t f h =
      let m = length t.workers in
      let (ds, busy, same, runs) =
        run-Matched kind one_time false cap m es (held s.workers) s t
          (Shuffled_refl (held s.workers)) (omega arith) h in
      omega (
        arith,
        run_keeps cap f false ds (with_busy (held s.workers) m s.scan) (with_busy busy m t.scan)
            runs,
        weight-Shuffled f same,
      )

  abbrev pub on_its_way : System A → ℕ
  on_its_way s = length s.scan.chan + length (held s.workers) + s.scan.done

  -- A manager of any kind, in either mode, whose scan_once begins with anything in the channels and in the
  -- hands of the workers, after a scan that was stopped, say. In any run, if this scan_once returns without
  -- having been stopped and without an error of the walk, then no more files and values are on their way
  -- than at its begin; for all weights, the files finished since then, with the workers and in the channel
  -- are those of the walk and those that were on their way; and the result says whether the walk gave a
  -- file.
  pub system_scan_conserves :
      (kind : Kind) (one_time : Bool) (cap : ℕ) (entries : List (Entry A)) (es : List Event)
      (s t : System A) (b : Bool)
      → 0 < cap
      → s.scan ≡ begin entries 0 s.scan.chan [] s.scan.done
      → length s.scan.chan ≤ cap
      → s.scan.done ≤ cap
      → run kind one_time cap es s ≡ some t
      → t.scan.pc ≡ returned b
      → t.scan.started ≡ true
      → (on_its_way t ≤ on_its_way s)
        × ((f : A → ℕ)
            → weight f t.scan.finished + weight f (held t.workers) + weight f t.scan.chan
              ≡ weight f (files_of entries) + weight f (held s.workers) + weight f s.scan.chan)
        × AnyFile b (files_of entries)
  system_scan_conserves kind one_time cap entries es s t b room fresh fits_chan fits_done r at on =
      let m = length t.workers in
      let (ds, busy, same, runs) =
        run-Matched kind one_time false cap m es (held s.workers) s t
          (Shuffled_refl (held s.workers)) (omega arith) r in
      let (fewer, weights, any) =
        scan_conserves cap m entries s.scan.chan (held s.workers) s.scan.done false ds
          (with_busy busy m t.scan) b room fits_chan
          (omega (arith, length-held s.workers, run_grows kind one_time false cap m es s t r))
          fits_done
          (subst (λ x. Dispatch.run cap false ds x ≡ some (with_busy busy m t.scan))
            (ap (λ x. with_busy (held s.workers) m x) fresh) runs)
          at on in
      (
        omega (arith, fewer, Shuffled_length same),
        λ f. omega (arith, weights f, weight-Shuffled f same),
        any,
      )
