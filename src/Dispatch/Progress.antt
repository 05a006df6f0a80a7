-- ===== src/Dispatch/Progress.antt =====
-- Whether a scan_once of downloader/sftp-scanner.go can go on, and for how long.
use ugoku.Base.{
  ℕ, zero, suc, ◌+◌, ◌*◌, ◌≤◌, ◌<◌, ◌≡◌, refl, ap, ◌∙◌, ◌≢◌, ◌⊎◌, inl, inr, Bool, true, false,
  Option, none, some, List, [], ◌∷◌, length, length-append, arith, Bool-cases, ltb,
}
use ugoku.Dispatch.Counts.{pick-Picked}
use ugoku.Dispatch.Invariant.{Inv, run-Inv, begin-Inv}
use ugoku.Dispatch.{
  Entry, file, directory, fault, Pc, walking, selecting, waiting, sending, draining, returned, Scan,
  Event, scans, takes, finishes, stops, quits, pick, walk, scanner, take_from, finish, step, run,
  begin,
}

-- The scanner, or a worker that takes or finishes a file.
abbrev pub IsWork : Event → Type 0
IsWork stops = ⊥
IsWork quits = ⊥
IsWork e = Unit {0}

abbrev pub HasReturned : {A : Type 0} → Pc A → Type 0
HasReturned (returned b) = Unit {0}
HasReturned pc = ⊥

module _ {A : Type 0} (cap workers stale : ℕ) (room : 0 < cap) where
  abbrev CanWork : Bool → Scan A → Type 0
  CanWork one_time s = (e : Event) × IsWork e × (step cap one_time e s ≢ none)

  workers_move :
      (one_time : Bool) (s : Scan A) (chan busy : List A)
      → s.chan ≡ chan
      → s.busy ≡ busy
      → 0 < s.alive
      → s.done < cap
      → 0 < length chan + length busy
      → CanWork one_time s
  unfolding step pick
  workers_move one_time s [] [] e g a d h = elim h [ ]
  workers_move one_time s (x ∷ chan) [] e g a d h = (takes, tt, ground arith)
  workers_move one_time s chan (y ∷ busy) e g a d h = (finishes 0, tt, ground arith)

  full_chan :
      (one_time : Bool) (s : Scan A) (chan busy : List A)
      → s.chan ≡ chan
      → s.busy ≡ busy
      → 0 < s.alive
      → 0 < length chan
      → (length busy < s.alive) ⊎ (s.done < cap)
      → CanWork one_time s
  unfolding step pick
  full_chan one_time s [] busy e g a h c = elim h [ ]
  full_chan one_time s (x ∷ chan) busy e g a h (inl idle) = (takes, tt, ground arith)
  full_chan one_time s (x ∷ chan) busy e g a h (inr open_done) =
      workers_move one_time s (x ∷ chan) busy e g a open_done (omega arith)

  pub progress :
      (one_time : Bool) (s : Scan A) (pc : Pc A)
      → s.pc ≡ pc
      → Inv cap workers stale s
      → s.alive ≡ workers
      → 0 < workers
      → ¬ HasReturned pc
      → CanWork one_time s
  unfolding step
  progress one_time s walking e v a w n = (scans, tt, ground arith)
  progress one_time s (selecting x) e v a w n = (scans, tt, ground arith)
  progress one_time s (waiting x) e v a w n = received s.done refl
    where
      received : (d : ℕ) → s.done ≡ d → CanWork one_time s
      received zero g =
          workers_move one_time s s.chan s.busy refl refl (ground arith) (ground arith)
            (ground arith)
      received (suc d) g = (scans, tt, ground arith)
  progress one_time s (sending x) e v a w n = elim (Bool-cases (ltb (length s.chan) cap)) [
    | inl has_room ↦ (scans, tt, ground arith)
    | inr full ↦
        full_chan one_time s s.chan s.busy refl refl (ground arith) (ground arith)
          (elim (Bool-cases (ltb (length s.busy) s.alive)) [
            | inl idle ↦ inl (ground arith)
            | inr all_busy ↦ inr (ground arith)
          ])
  ]
  progress one_time s draining e v a w n = received s.done refl
    where
      received : (d : ℕ) → s.done ≡ d → CanWork one_time s
      received zero g =
          workers_move one_time s s.chan s.busy refl refl (ground arith) (ground arith)
            (ground arith)
      received (suc d) g = (scans, tt, ground arith)
  progress one_time s (returned b) e v a w n = absurd (n tt)

-- How much is left to do, in steps at most.
abbrev pc_cost : {A : Type 0} → Pc A → ℕ
pc_cost walking = 7
pc_cost (selecting a) = 14
pc_cost (waiting a) = 13
pc_cost (sending a) = 12
pc_cost draining = 6
pc_cost (returned b) = 0

abbrev started_cost : Bool → ℕ
started_cost true = 1
started_cost false = 0

unfoldable pub measure : {A : Type 0} → Scan A → ℕ
measure s =
    8 * length s.todo
    + pc_cost s.pc
    + 3 * length s.chan
    + 2 * length s.busy
    + s.done
    + s.alive
    + started_cost s.started

module _ {A : Type 0} (cap : ℕ) where
  pub scanner_descends :
      (s t : Scan A) (pc : Pc A) → s.pc ≡ pc → scanner cap s pc ≡ some t → measure t < measure s
  unfolding measure
  scanner_descends s t walking e h = walks s.todo refl h
    where
      walks : (es : List (Entry A)) → s.todo ≡ es → walk s es ≡ some t → measure t < measure s
      walks [] g k = ground (arith, ap length g)
      walks (directory ∷ es) g k = ground (arith, ap length g)
      walks (fault ∷ es) g k = ground (arith, ap length g)
      walks (file a ∷ es) g k = ground (arith, ap length g)
  scanner_descends s t (selecting a) e h = ground (arith, length-append s.chan (a ∷ []))
  scanner_descends s t (waiting a) e h = ground arith
  scanner_descends s t (sending a) e h = ground (arith, length-append s.chan (a ∷ []))
  scanner_descends s t draining e h = ground arith
  scanner_descends s t (returned b) e h = cc

  -- Every event that can happen brings the end nearer.
  step_descends :
      (one_time : Bool) (e : Event) (s t : Scan A)
      → step cap one_time e s ≡ some t
      → measure t < measure s
  unfolding step
  step_descends one_time scans s t h = scanner_descends s t s.pc refl h
  step_descends one_time takes s t h = taken s.chan refl h
    where
      taken :
          (chan : List A) → s.chan ≡ chan → take_from cap s chan ≡ some t → measure t < measure s
      taken [] g k = cc
      taken (a ∷ rest) g k = unfold measure in ground (arith, ap length g)
  step_descends one_time (finishes k) s t h = done_with (pick k s.busy) refl h
    where
      done_with :
          (r : Option (A × List A))
          → pick k s.busy ≡ r
          → finish cap s r ≡ some t
          → measure t < measure s
      done_with none g c = cc
      done_with (some (a, rest)) g c =
          let (_, shorter) = rw g at (pick-Picked (λ (x : A). 0) k s.busy) in
          unfold measure in ground (arith, shorter)
  step_descends one_time stops s t h = unfold measure in ground arith
  step_descends one_time quits s t h = unfold measure in ground arith

  run_descends :
      (one_time : Bool) (es : List Event) (s t : Scan A)
      → run cap one_time es s ≡ some t
      → length es + measure t ≤ measure s
  unfolding run
  run_descends one_time [] s t h =
      ground
        (arith, ap {B = ℕ} (λ (o : Option (Scan A)). elim o [ none ↦ 0 | some u ↦ measure u ]) h)
  run_descends one_time (e ∷ es) s t h =
      after (step cap one_time e s) refl h (run_descends one_time es)
    where
      after :
          (r : Option (Scan A))
          → step cap one_time e s ≡ r
          → (elim r as (λ _. Option (Scan A)) [ none ↦ none | some u ↦ run cap one_time es u ])
            ≡ some t
          → ((u w : Scan A) → run cap one_time es u ≡ some w → length es + measure w ≤ measure u)
          → suc (length es) + measure t ≤ measure s
      after none q g ih = cc
      after (some u) q g ih = omega (arith, ih u t g, step_descends one_time e s u q)

  service_alive_step : (e : Event) (s t : Scan A) → step cap false e s ≡ some t → t.alive ≡ s.alive
  unfolding step
  service_alive_step scans s t h = ground arith
  service_alive_step takes s t h = ground arith
  service_alive_step (finishes k) s t h = ground arith
  service_alive_step stops s t h = ground arith
  service_alive_step quits s t h = cc

  service_alive : (es : List Event) (s t : Scan A) → run cap false es s ≡ some t → t.alive ≡ s.alive
  unfolding run
  service_alive [] s t h = ground arith
  service_alive (e ∷ es) s t h = after (step cap false e s) refl h (service_alive es)
    where
      after :
          (r : Option (Scan A))
          → step cap false e s ≡ r
          → (elim r as (λ _. Option (Scan A)) [ none ↦ none | some u ↦ run cap false es u ])
            ≡ some t
          → ((u w : Scan A) → run cap false es u ≡ some w → w.alive ≡ u.alive)
          → t.alive ≡ s.alive
      after none q g ih = cc
      after (some u) q g ih = ih u t g ∙ service_alive_step e s u q

module _ {A : Type 0} (workers : ℕ) (entries : List (Entry A)) (chan busy : List A) (done : ℕ) where
  -- While every worker that exits is made again (service mode), with at least one worker and channels
  -- of twice as many places, a scan_once that has not returned can always go on: the scanner can
  -- make a step, or a worker can take or finish a file. This holds at any moment, whatever was left
  -- in the channels and with the workers when it began, as long as that fitted.
  pub scan_once_no_deadlock :
      (es : List Event) (s : Scan A)
      → 0 < workers
      → length chan ≤ workers * 2
      → length busy ≤ workers
      → done ≤ workers * 2
      → run (workers * 2) false es (begin entries workers chan busy done) ≡ some s
      → ¬ HasReturned s.pc
      → (e : Event) × IsWork e × (step (workers * 2) false e s ≢ none)
  scan_once_no_deadlock es s w hc hb hd r n =
      progress (workers * 2) workers (length chan + length busy + done) (omega arith) false s s.pc
        refl
        (run-Inv (workers * 2) workers _ (omega arith) false es _ s
          (begin-Inv (workers * 2) workers entries chan busy done hc hd hb) r)
        (service_alive (workers * 2) es _ s r) w n

  -- No schedule of a scan_once, in service mode or in one-time mode, has more steps than this bound
  -- in the length of the walk, what the channels and the workers held at the start, and the number
  -- of workers.
  pub scan_once_bounded :
      (one_time : Bool) (es : List Event) (s : Scan A)
      → run (workers * 2) one_time es (begin entries workers chan busy done) ≡ some s
      → length es ≤ 8 * length entries + 8 + 3 * length chan + 2 * length busy + done + workers
  unfolding measure
  scan_once_bounded one_time es s r = omega (arith, run_descends (workers * 2) one_time es _ s r)
