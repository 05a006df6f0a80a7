-- ===== src/Dispatch/Invariant.antt =====
-- The state of a scan_once of downloader/sftp-scanner.go and of its workers, under any scheduler.
use ugoku.Base.{
  ℕ, ◌+◌, ◌≤◌, ◌<◌, ◌≡◌, refl, ap, pos_part, neg_part, incr_parts, decr_parts, Bool, Option, none,
  some, List, [], ◌∷◌, length, length-append, arith,
}
use ugoku.Dispatch.Counts.{pick-Picked}
use ugoku.Dispatch.{
  Entry, Pc, walking, selecting, waiting, sending, draining, returned, Scan, Event, scans, takes,
  finishes, stops, quits, pick, put, scanner, take_from, finish, step, run, begin,
}

-- The files handed out whose value on done the scanner has not received.
abbrev pub in_flight : {A : Type 0} → Scan A → ℕ
in_flight s = length s.chan + length s.busy + s.done

abbrev pub Stands : {A : Type 0} → ℕ → ℕ → Scan A → Pc A → Type 0
Stands cap workers s (waiting a) = 0 < in_flight s
Stands cap workers s (sending a) = in_flight s < cap + workers + cap
Stands cap workers s draining = neg_part s.dispatched < pos_part s.dispatched
Stands cap workers s pc = Unit {0}

-- `stale` is how many files were in flight when scan_once began.
pub record Inv {A : Type 0} (cap workers stale : ℕ) (s : Scan A) : Type 0 where
  pub balance : pos_part s.dispatched + stale ≡ neg_part s.dispatched + in_flight s
  pub chan_fits : length s.chan ≤ cap
  pub done_fits : s.done ≤ cap
  pub busy_fits : length s.busy ≤ s.alive
  pub alive_fits : s.alive ≤ workers
  pub stands : Stands cap workers s s.pc

module _ {A : Type 0} (cap workers stale : ℕ) (room : 0 < cap) where
  put-Inv :
      (s : Scan A) (a : A)
      → Inv cap workers stale s
      → length s.chan < cap
      → Inv cap workers stale (put s a)
  put-Inv s a v lt = ground (arith, incr_parts s.dispatched, length-append s.chan (a ∷ []))

  scanner-Inv :
      (s t : Scan A) (pc : Pc A)
      → s.pc ≡ pc
      → Inv cap workers stale s
      → scanner cap s pc ≡ some t
      → Inv cap workers stale t
  scanner-Inv s t walking e v h = ground arith
  scanner-Inv s t (selecting a) e v h =
      ground (arith, incr_parts s.dispatched, length-append s.chan (a ∷ []))
  scanner-Inv s t (waiting a) e v h = ground (arith, decr_parts s.dispatched)
  scanner-Inv s t (sending a) e v h =
      ground (arith, incr_parts s.dispatched, length-append s.chan (a ∷ []))
  scanner-Inv s t draining e v h = ground (arith, decr_parts s.dispatched)
  scanner-Inv s t (returned b) e v h = cc

  finish-Inv :
      (k : ℕ) (s t : Scan A) (r : Option (A × List A))
      → pick k s.busy ≡ r
      → Inv cap workers stale s
      → finish cap s r ≡ some t
      → Inv cap workers stale t
  finish-Inv k s t none e v h = cc
  finish-Inv k s t (some (a, rest)) e v h =
      let (_, shorter) = rw e at (pick-Picked (λ (x : A). 0) k s.busy) in ground (arith, shorter)

  take-Inv :
      (s t : Scan A) (chan : List A)
      → s.chan ≡ chan
      → Inv cap workers stale s
      → take_from cap s chan ≡ some t
      → Inv cap workers stale t
  take-Inv s t [] e v h = cc
  take-Inv s t (a ∷ rest) e v h = ground (arith, ap length e)

  -- Every event that can happen keeps the invariant.
  pub step-Inv :
      (one_time : Bool) (e : Event) (s t : Scan A)
      → Inv cap workers stale s
      → step cap one_time e s ≡ some t
      → Inv cap workers stale t
  unfolding step
  step-Inv one_time scans s t v h = scanner-Inv s t s.pc refl v h
  step-Inv one_time takes s t v h = take-Inv s t s.chan refl v h
  step-Inv one_time (finishes k) s t v h = finish-Inv k s t (pick k s.busy) refl v h
  step-Inv one_time stops s t v h = ground arith
  step-Inv one_time quits s t v h = ground arith

  pub run-Inv :
      (one_time : Bool) (es : List Event) (s t : Scan A)
      → Inv cap workers stale s
      → run cap one_time es s ≡ some t
      → Inv cap workers stale t
  unfolding run
  run-Inv one_time [] s t v h = ground arith
  run-Inv one_time (e ∷ es) s t v h = after (step cap one_time e s) refl h (run-Inv one_time es)
    where
      after :
          (r : Option (Scan A))
          → step cap one_time e s ≡ r
          → (elim r as (λ _. Option (Scan A)) [ none ↦ none | some u ↦ run cap one_time es u ])
            ≡ some t
          → ((u w : Scan A)
              → Inv cap workers stale u
              → run cap one_time es u ≡ some w
              → Inv cap workers stale w)
          → Inv cap workers stale t
      after none q g ih = cc
      after (some u) q g ih = ih u t (step-Inv one_time e s u v q) g

-- scan_once begins with the invariant, over channels that hold at most their capacity and workers
-- that are all running.
pub begin-Inv :
    {A : Type 0} (cap workers : ℕ) (entries : List (Entry A)) (chan busy : List A) (done : ℕ)
    → length chan ≤ cap
    → done ≤ cap
    → length busy ≤ workers
    → Inv cap workers (length chan + length busy + done) (begin entries workers chan busy done)
begin-Inv cap workers entries chan busy done h k l = ground arith
