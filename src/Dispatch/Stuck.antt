-- ===== src/Dispatch/Stuck.antt =====
-- scan_once of downloader/sftp-scanner.go in one-time mode, when its workers are gone.
use ugoku.Base.{ℕ, ◌≡◌, refl, true, Option, none, some, List, [], ◌∷◌, arith}
use ugoku.Dispatch.{
  Pc, draining, Scan, Event, scans, takes, finishes, stops, quits, pick, take_from, step, run,
}
use ugoku.Dispatch.Progress.{HasReturned}

-- The scanner waits in its last loop, no worker is left, and no value is on the channel.
pub record IsStuck {A : Type 0} (s : Scan A) : Type 0 where
  pub waits : s.pc ≡ draining
  pub nobody : s.alive ≡ 0
  pub idle : s.busy ≡ []
  pub no_value : s.done ≡ 0

module _ {A : Type 0} (cap : ℕ) where
  step-IsStuck : (s t : Scan A) (e : Event) → IsStuck s → step cap true e s ≡ some t → IsStuck t
  unfolding step pick
  step-IsStuck s t scans v h = cc (rw (v.waits, v.no_value) at h)
  step-IsStuck s t takes v h = of_chan s.chan h
    where
      of_chan : (c : List A) → take_from cap s c ≡ some t → IsStuck t
      of_chan [] h = cc
      of_chan (a ∷ rest) h = cc (rw (v.idle, v.nobody) at h)
  step-IsStuck s t (finishes k) v h = cc (rw v.idle at h)
  step-IsStuck s t stops v h = ground arith
  step-IsStuck s t quits v h = cc (rw (v.idle, v.nobody) at h)

  run-IsStuck :
      (es : List Event) (s t : Scan A) → IsStuck s → run cap true es s ≡ some t → IsStuck t
  unfolding run
  run-IsStuck [] s t v h = ground arith
  run-IsStuck (e ∷ es) s t v h = after (step cap true e s) refl h (run-IsStuck es)
    where
      after :
          (r : Option (Scan A))
          → step cap true e s ≡ r
          → (elim r as (λ _. Option (Scan A)) [ none ↦ none | some u ↦ run cap true es u ]) ≡ some t
          → ((u w : Scan A) → IsStuck u → run cap true es u ≡ some w → IsStuck w)
          → IsStuck t
      after none q g ih = cc
      after (some u) q g ih = ih u t (step-IsStuck s u e v q) g

  -- In one-time mode, where a worker that exits is not made again: once the scanner waits in its last
  -- loop with no worker left and no value on the channel, scan_once never returns, in any schedule, also
  -- after Stop.
  pub one_time_stuck :
      (es : List Event) (s t : Scan A) → IsStuck s → run cap true es s ≡ some t → ¬ HasReturned t.pc
  one_time_stuck es s t v h = λ r. waiting t.pc (run-IsStuck es s t v h).waits r
    where
      waiting : (pc : Pc A) → pc ≡ draining → ¬ HasReturned pc
      waiting pc e r = rw e at r
