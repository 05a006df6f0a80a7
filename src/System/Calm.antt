-- ===== src/System/Calm.antt =====
-- A system in which no connection and no transfer fails, and to which no signal comes.
use ugoku.Base.{
  ℕ, zero, suc, ◌+◌, ◌*◌, ◌≤◌, ◌<◌, ◌≡◌, refl, ap, ◌∙◌, Bool, true, false, not, ◌&&◌, Option, none,
  some, List, [], ◌∷◌, length, arith, All,
}
use mathlib.Core.Path.{subst}
use mathlib.Core.Option.{some-injective}
use ugoku.Dispatch.{Entry, Scan, scanner}
use ugoku.Dispatch.Progress.{measure, scanner_descends}
use ugoku.System.{
  Kind, WorkerState, in_start, Loop, created, connecting, head, receiving, working, reporting,
  deciding, ended, Turn, inits, connects, tests, takes, works, breaks, reports, decides, returns,
  is_stopped, own_turn, stop_flags, turn, taken, get_elem?, set, new_worker, new_workers, System,
  Event, scans, turns, renews, signals, stops_scanner, step, run, on_worker, back, renewed, scanned,
  launch,
}
use ugoku.System.Budget.{All-get_elem?, All-set}
use ugoku.System.Matching.{length-set}
use ugoku.System.Runs.{run-step}

abbrev pub is_calm_turn : Turn → Bool
is_calm_turn (connects failed) = not failed
is_calm_turn breaks = false
is_calm_turn is_stopped = false
is_calm_turn e = true

-- Neither a failure nor a part of the shutdown.
abbrev pub is_calm : Event → Bool
is_calm (turns k e) = is_calm_turn e
is_calm signals = false
is_calm stops_scanner = false
is_calm e = true

abbrev pub all_calm : List Event → Bool
all_calm [] = true
all_calm (e ∷ es) = is_calm e && all_calm es

-- What is left for the loop to do with what it has, weighted so that each turn makes it less.
abbrev pub cost : {A : Type 0} → Loop A → ℕ
cost created = 5
cost connecting = 4
cost head = 2
cost receiving = 1
cost (working a) = 21
cost (reporting a) = 20
cost deciding = 3
cost ended = 0

-- The loop goes on, with `started` set once init is over.
abbrev GoesOn : {A : Type 0} → Loop A → Bool → Type 0
GoesOn created b = Unit {0}
GoesOn connecting b = Unit {0}
GoesOn ended b = ⊥
GoesOn l b = b ≡ true

module _ {A : Type 0} where
  abbrev pub Steady : WorkerState A → Type 0
  Steady w = GoesOn w.loop w.started × (w.to_exit ≡ false) × (w.manager ≡ in_start)

  abbrev pub costs : List (WorkerState A) → ℕ
  costs [] = 0
  costs (w ∷ ws) = cost w.loop + costs ws

  costs-set :
      (ws : List (WorkerState A)) (k : ℕ) (w v : WorkerState A)
      → get_elem? ws k ≡ some w
      → costs (set ws k v) + cost w.loop ≡ costs ws + cost v.loop
  unfolding get_elem? set
  costs-set [] k w v h = cc
  costs-set (x ∷ ws) zero w v h = ground arith
  costs-set (x ∷ ws) (suc k) w v h = omega (arith, costs-set ws k w v h)

  -- After a turn of a worker that is steady: it still is, and less is left to do.
  abbrev Nearer : WorkerState A → Scan A → WorkerState A → Scan A → Type 0
  Nearer w s v t = Steady v × (10 * measure t + cost v.loop < 10 * measure s + cost w.loop)

  taken-Nearer :
      (w v : WorkerState A) (s t : Scan A) (l : Loop A) (chan : List A)
      → w.loop ≡ l
      → s.chan ≡ chan
      → Steady w
      → taken w s l chan ≡ some (v, t)
      → Nearer w s v t
  unfolding measure
  taken-Nearer w v s t receiving (a ∷ rest) e g st h = ground (arith, ap length g)
  taken-Nearer w v s t l chan e g st h = cc

  turn-Nearer :
      (kind : Kind) (cap : ℕ) (e : Turn) (w : WorkerState A) (s : Scan A) (v : WorkerState A)
      (t : Scan A)
      → is_calm_turn e ≡ true
      → Steady w
      → turn kind cap e w s ≡ some (v, t)
      → Nearer w s v t
  unfolding turn own_turn stop_flags measure
  turn-Nearer kind cap takes w s v t c st h = taken-Nearer w v s t w.loop s.chan refl refl st h
  turn-Nearer kind cap reports w s v t c st h = ground arith
  turn-Nearer kind cap inits w s v t c st h = ground arith
  turn-Nearer kind cap (connects b) w s v t c st h = ground arith
  turn-Nearer kind cap tests w s v t c st h = ground arith
  turn-Nearer kind cap works w s v t c st h = ground arith
  turn-Nearer kind cap breaks w s v t c st h = absurd (ground arith)
  turn-Nearer kind cap decides w s v t c st h = ground arith
  turn-Nearer kind cap returns w s v t c st h = ground arith
  turn-Nearer kind cap is_stopped w s v t c st h = absurd (ground arith)

  -- All workers are steady, and no signal came.
  abbrev pub IsCalm : System A → Type 0
  IsCalm s = All Steady s.workers × (s.term ≡ false)

  abbrev pub left_over : System A → ℕ
  left_over s = 10 * measure s.scan + costs s.workers

  -- A system goes on calmly, nearer to its end.
  abbrev pub Calmer : System A → System A → Type 0
  Calmer s t = IsCalm t × (length t.workers ≡ length s.workers) × (left_over t < left_over s)

  module _ (kind : Kind) (one_time : Bool) (cap : ℕ) where
    turn-Calmer :
        (s t : System A) (k : ℕ) (e : Turn) (w : WorkerState A)
        (r : Option (WorkerState A × Scan A))
        → get_elem? s.workers k ≡ some w
        → turn kind cap e w s.scan ≡ r
        → is_calm_turn e ≡ true
        → IsCalm s
        → back s k r ≡ some t
        → Calmer s t
    turn-Calmer s t k e w none at g c (all, quiet) h = absurd (ground arith)
    turn-Calmer s t k e w (some (v, u)) at g c (all, quiet) h =
        let (st, less) =
          turn-Nearer kind cap e w s.scan v u c (All-get_elem? Steady s.workers k w at all) g in
        subst (Calmer s) (some-injective (record s { scan = u; workers = set s.workers k v }) t h) (
          (All-set Steady s.workers k v st all, quiet),
          length-set s.workers k v,
          omega (arith, less, costs-set s.workers k w v at),
        )

    turns-Calmer :
        (s t : System A) (k : ℕ) (e : Turn) (r : Option (WorkerState A))
        → get_elem? s.workers k ≡ r
        → is_calm_turn e ≡ true
        → IsCalm s
        → on_worker kind cap e s k r ≡ some t
        → Calmer s t
    unfolding turn
    turns-Calmer s t k e none at c calm h = absurd (ground arith)
    turns-Calmer s t k e (some w) at c calm h =
        turn-Calmer s t k e w (turn kind cap e w s.scan) at refl c calm (ground arith)

    -- No worker is to be replaced.
    renew-Calmer :
        (s t : System A) (k : ℕ) (r : Option (WorkerState A))
        → get_elem? s.workers k ≡ r
        → IsCalm s
        → renewed one_time s k r ≡ some t
        → Calmer s t
    renew-Calmer s t k none at calm h = absurd (ground arith)
    renew-Calmer s t k (some w) at calm h =
        let (_, _, in_place) = All-get_elem? Steady s.workers k w at calm.0 in
        absurd (ground (arith, in_place))

    scan-Calmer :
        (s t : System A) (r : Option (Scan A))
        → scanner cap s.scan s.scan.pc ≡ r
        → IsCalm s
        → scanned s r ≡ some t
        → Calmer s t
    scan-Calmer s t none g calm h = absurd (ground arith)
    scan-Calmer s t (some u) g calm h =
        subst (Calmer s) (some-injective (record s { scan = u }) t h)
          (calm, refl, omega (arith, scanner_descends cap s.scan u s.scan.pc refl g))

    step-Calmer :
        (s t : System A) (e : Event)
        → is_calm e ≡ true
        → IsCalm s
        → step kind one_time cap e s ≡ some t
        → Calmer s t
    unfolding step
    step-Calmer s t scans c calm h = scan-Calmer s t (scanner cap s.scan s.scan.pc) refl calm h
    step-Calmer s t (turns k e) c calm h =
        turns-Calmer s t k e (get_elem? s.workers k) refl c calm h
    step-Calmer s t (renews k) c calm h = renew-Calmer s t k (get_elem? s.workers k) refl calm h
    step-Calmer s t signals c calm h = absurd (ground arith)
    step-Calmer s t stops_scanner c calm h = absurd (ground arith)

    pub run-Calmer :
        (es : List Event) (s t : System A)
        → all_calm es ≡ true
        → IsCalm s
        → run kind one_time cap es s ≡ some t
        → IsCalm t × (length t.workers ≡ length s.workers) × (length es + left_over t ≤ left_over s)
    unfolding run
    run-Calmer [] s t c calm h =
        subst
          (λ (x : System A).
            IsCalm x × (length x.workers ≡ length s.workers) × (0 + left_over x ≤ left_over s))
          (some-injective s t h) (calm, refl, omega arith)
    run-Calmer (e ∷ es) s t c calm h =
        let (u, first, rest) = run-step kind one_time cap e es s t h in
        let (calm1, same1, less) = step-Calmer s u e (ground arith) calm first in
        let (calm2, same2, few) = run-Calmer es u t (ground arith) calm1 rest in
        (calm2, same2 ∙ same1, omega (arith, less, few))

  -- So a manager is at its launch.
  pub launch-IsCalm : (entries : List (Entry A)) (n : ℕ) → IsCalm (launch entries n)
  unfolding new_workers
  launch-IsCalm entries zero = (tt, refl)
  launch-IsCalm entries (suc n) = ((refl_worker, (launch-IsCalm entries n).0), refl)
    where
      refl_worker : Steady new_worker
      refl_worker = (tt, refl, refl)
