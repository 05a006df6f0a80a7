-- ===== src/Delivery/Progress.antt =====
-- That workers do not wait for each other for ever, with the calls that they are in.
use ugoku.Base.{
  ℕ, ◌*◌, ◌<◌, ◌≡◌, ◌≢◌, ◌⊎◌, inl, inr, refl, sym, ap, ◌∙◌, Bool, true, false, ◌&&◌, Option, none,
  some, List, [], ◌∷◌, length, arith, Bool-cases,
}
use ugoku.Dispatch.{Entry, Scan, begin}
use ugoku.Dispatch.Progress.{HasReturned}
use ugoku.System.{
  Kind, WorkerState, Loop, receiving, working, Turn, takes, works, breaks, turns, scans, renews,
  signals, stops_scanner, System, turn, own_turn, taken, worked, alone, get_elem?, on_worker, back,
  launch,
}
use ugoku.System
use ugoku.System.Calm.{is_calm, all_calm, IsCalm}
use ugoku.System.Held.{held}
use ugoku.System.Finishing.{calm_scan_ends}
use ugoku.System.Turned.{turns-Turned}
use ugoku.Delivery.{
  Method, JobOf, Delivery, Event, systems, works_on, goes_on, stepped, worked_on, step, run,
}
use ugoku.Delivery.Jobs.{Keeps, Inv, Has}
use ugoku.Delivery.Runs.{systems_of, run-Inv, run-system}
use ugoku.Delivery.Complete.{start-Inv}

-- A call that has not returned is never blocked: it has a step of those that `progress` tells, which
-- leaves out what happens to a call from outside.
pub record Advances {A : Type 0} (m : Method A) (P : A → m.State → Type 0)
    (progress : m.Step → Bool) : Type 0 where
  pub advances :
      (a : A) (s : m.State)
      → P a s
      → m.returned s ≡ false
      → (e : m.Step) × (progress e ≡ true) × (m.step a e s ≢ none)

-- No failure that makes a worker exit, and no part of the shutdown.
abbrev pub is_calm_event : {E : Type 0} → Event E → Bool
is_calm_event (systems e) = is_calm e
is_calm_event e = true

-- A calm step of the scanner, a worker or a manager, or progress of the call that a worker is in. What
-- goes on beside the workers does not count.
abbrev pub moves : {E : Type 0} → (E → Bool) → Event E → Bool
moves progress (systems e) = is_calm e
moves progress (works_on k e) = progress e
moves progress (goes_on i e) = false

abbrev pub all_calm_events : {E : Type 0} → List (Event E) → Bool
all_calm_events [] = true
all_calm_events (e ∷ es) = is_calm_event e && all_calm_events es

systems_of-calm :
    {E : Type 0} (es : List (Event E)) → all_calm_events es ≡ true → all_calm (systems_of es) ≡ true
systems_of-calm [] calm = refl
systems_of-calm (systems e ∷ es) calm = ground (arith, systems_of-calm es)
systems_of-calm (works_on k e ∷ es) calm = systems_of-calm es calm
systems_of-calm (goes_on i e ∷ es) calm = systems_of-calm es calm

module _ {A : Type 0} (m : Method A) (P : A → m.State → Type 0) (progress : m.Step → Bool)
    (can : Advances m P progress) where
  module _ (one_time : Bool) (cap : ℕ) where
    abbrev CanGo : Delivery m → Type 0
    CanGo d = (e : Event m.Step) × (moves progress e ≡ true) × (step m one_time cap e d ≢ none)

    stepped_some : (job : JobOf m) (r : Option m.State) → r ≢ none → stepped m job r ≢ none
    stepped_some job none h = absurd (h refl)
    stepped_some job (some s) h = λ x. cc

    worked_some :
        (d : Delivery m) (k : ℕ) (r : Option (JobOf m)) → r ≢ none → worked_on m d k r ≢ none
    worked_some d k none h = absurd (h refl)
    worked_some d k (some job) h = λ x. cc

    -- The call that a worker is in makes a step, or the worker goes on.
    works_go :
        (d : Delivery m) (k : ℕ) (s : System A) (a : A)
        → Has m P (d.current k) a
        → System.step m.kind one_time cap (turns k works) d.system ≡ some s
        → CanGo d
    unfolding step
    works_go d k s a (job, at, is_a, p) moves = elim (Bool-cases (m.returned job.state)) [
      | inl back ↦ (systems (turns k works), refl, rw (moves, at, back) (λ x. cc))
      | inr on ↦
          let (e, does, goes) = can.advances job.file job.state p on in
          (
            works_on k e,
            does,
            rw at (
                worked_some d k (stepped m job (m.step job.file e job.state))
                  (stepped_some job (m.step job.file e job.state) goes)),
          )
    ]

    takes_go :
        (d : Delivery m) (k : ℕ) (s : System A) (w v : WorkerState A) (u : Scan A) (l : Loop A)
        (chan : List A)
        → d.system.scan.chan ≡ chan
        → taken w d.system.scan l chan ≡ some (v, u)
        → System.step m.kind one_time cap (turns k takes) d.system ≡ some s
        → CanGo d
    unfolding step
    takes_go d k s w v u receiving (a ∷ rest) at h moves =
        (systems (turns k takes), refl, rw (moves, at) (λ x. cc))
    takes_go d k s w v u l chan at h moves = absurd (ground arith)

    works_at :
        (d : Delivery m) (k : ℕ) (s : System A) (w v : WorkerState A) (u : Scan A) (l : Loop A)
        → Inv m P d
        → get_elem? d.system.workers k ≡ some w
        → w.loop ≡ l
        → alone d.system.scan (worked w l) ≡ some (v, u)
        → System.step m.kind one_time cap (turns k works) d.system ≡ some s
        → CanGo d
    works_at d k s w v u (working a) inv at is h moves =
        works_go d k s a (inv.placed k w a at is) moves
    works_at d k s w v u l inv at is h moves = absurd (ground arith)

    turns_go :
        (d : Delivery m) (k : ℕ) (e : Turn) (s : System A)
        → Inv m P d
        → is_calm (turns k e) ≡ true
        → System.step m.kind one_time cap (turns k e) d.system ≡ some s
        → CanGo d
    unfolding step turn own_turn
    turns_go d k takes s inv calm moves =
        let (w, v, u, at, made, _) = turns-Turned m.kind one_time cap d.system s k takes moves in
        takes_go d k s w v u w.loop d.system.scan.chan refl made moves
    turns_go d k works s inv calm moves =
        let (w, v, u, at, made, _) = turns-Turned m.kind one_time cap d.system s k works moves in
        works_at d k s w v u w.loop inv at refl made moves
    turns_go d k breaks s inv calm moves = absurd (ground arith)
    turns_go d k e s inv calm moves = (systems (turns k e), calm, rw moves (λ x. cc))

    event_goes :
        (d : Delivery m) (e : System.Event) (r : Option (System A))
        → Inv m P d
        → is_calm e ≡ true
        → System.step m.kind one_time cap e d.system ≡ r
        → r ≢ none
        → CanGo d
    unfolding step
    event_goes d e none inv calm moves some_step = absurd (some_step refl)
    event_goes d (turns k e) (some s) inv calm moves some_step = turns_go d k e s inv calm moves
    event_goes d e (some s) inv calm moves some_step = (systems e, calm, rw moves (λ x. cc))

  -- Workers of a kind whose calls are never blocked, n > 0 of them, in either mode, with all that their
  -- calls do, as a scan_once begins over empty channels, no worker has a file or is told to exit, and no
  -- signal has come. A run in which no connection fails, no worker is told to exit and no signal comes is
  -- never at its end before scan_once has returned: a calm step of the system or progress of the call of a
  -- worker is possible.
  pub delivery_goes_on :
      Keeps m P
      → (one_time : Bool) (entries : List (Entry A)) (es : List (Event m.Step)) (d t : Delivery m)
      → 0 < length d.system.workers
      → IsCalm d.system
      → d.system.scan ≡ begin entries 0 [] [] 0
      → held d.system.workers ≡ []
      → d.past ≡ []
      → all_calm_events es ≡ true
      → run m one_time (length d.system.workers * 2) es d ≡ some t
      → HasReturned t.system.scan.pc
        ⊎ ((e : Event m.Step) × (moves progress e ≡ true)
            × (step m one_time (length d.system.workers * 2) e t ≢ none))
  delivery_goes_on law one_time entries es d t room quiet fresh free nothing calm r =
      let cap = length d.system.workers * 2 in
      let inv =
        run-Inv m one_time cap P law es d t (start-Inv m P law entries d fresh free nothing) r in
      let begins : d.system.scan ≡ begin entries 0 d.system.scan.chan [] d.system.scan.done =
        fresh ∙ (λ i.
          begin entries 0 (sym (ap (λ (x : Scan A). x.chan) fresh) i) []
            (sym (ap (λ (x : Scan A). x.done) fresh) i)) in
      elim (calm_scan_ends m.kind one_time entries (systems_of es) d.system t.system room quiet
        begins (omega (arith, ap (λ (x : Scan A). length x.chan) fresh))
        (omega (arith, ap (λ (x : Scan A). x.done) fresh)) (systems_of-calm es calm)
        (run-system m one_time cap es d t r)).1 [
          | inl over ↦ inl over
          | inr (e, mine, moves) ↦ inr (
              event_goes one_time cap t e (System.step m.kind one_time cap e t.system) inv mine refl
                moves)
        ]
