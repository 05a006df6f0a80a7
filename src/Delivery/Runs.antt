-- ===== src/Delivery/Runs.antt =====
-- Runs of a delivery: what they keep, and the run of the system in them.
use ugoku.Base.{
  ℕ, ◌≡◌, inl, inr, refl, sym, ap, ◌∙◌, Bool, ◌||◌, Option, none, some, List, [], ◌∷◌, arith,
  Bool-cases,
}
use mathlib.Core.Path.{subst}
use mathlib.Core.Option.{some-injective}
use ugoku.System.{
  WorkerState, Loop, working, reporting, Turn, takes, works, breaks, reports, inits, connects,
  tests, decides, returns, is_stopped, System, get_elem?, scans, turns, renews, signals,
  stops_scanner,
}
use ugoku.System
use ugoku.Delivery.{
  Method, JobOf, Delivery, begun, closed, follow, followed, now_exits, any_exits, Event, systems,
  works_on, goes_on, worked_on, at_hand, advance, gone_on, step, run,
}
use ugoku.Delivery.Jobs.{Keeps, Inv}
use ugoku.Delivery.Steps.{step-Inv}

abbrev pub systems_of : {E : Type 0} → List (Event E) → List System.Event
systems_of [] = []
systems_of (systems e ∷ es) = e ∷ systems_of es
systems_of (e ∷ es) = systems_of es

module _ {A : Type 0} (m : Method A) where
  module _ (one_time : Bool) (cap : ℕ) where
    run-step :
        (e : Event m.Step) (es : List (Event m.Step)) (d t : Delivery m)
        → run m one_time cap (e ∷ es) d ≡ some t
        → (u : Delivery m) × (step m one_time cap e d ≡ some u) × (run m one_time cap es u ≡ some t)
    unfolding run
    run-step e es d t h = of_step (step m one_time cap e d) refl h
      where
        of_step :
            (r : Option (Delivery m))
            → step m one_time cap e d ≡ r
            → (elim r as (λ _. Option (Delivery m)) [
              | none ↦ none
              | some u ↦ run m one_time cap es u
            ])
              ≡ some t
            → (u : Delivery m) × (step m one_time cap e d ≡ some u)
              × (run m one_time cap es u ≡ some t)
        of_step none g h = absurd (ground arith)
        of_step (some u) g h = (u, g, h)

    pub run-Inv :
        (P : A → m.State → Type 0)
        → Keeps m P
        → (es : List (Event m.Step)) (d t : Delivery m) → Inv m P d
        → run m one_time cap es d ≡ some t
        → Inv m P t
    unfolding run
    run-Inv P law [] d t inv h = subst (Inv m P) (some-injective d t h) inv
    run-Inv P law (e ∷ es) d t inv h =
        let (u, first, rest) = run-step e es d t h in
        run-Inv P law es u t (step-Inv m P law one_time cap d u e inv first) rest

    -- An event of a delivery is one of its system, or leaves the system as it is.
    abbrev Moves : Delivery m → Event m.Step → Delivery m → Type 0
    Moves d (systems e) t = System.step m.kind one_time cap e d.system ≡ some t.system
    Moves d e t = d.system ≡ t.system

    begun-system :
        (d t : Delivery m) (k : ℕ) (chan : List A) (s : System A)
        → begun m d k chan s ≡ some t
        → s ≡ t.system
    begun-system d t k [] s h = absurd (ground arith)
    begun-system d t k (a ∷ rest) s h = ap (λ (x : Delivery m). x.system) (some-injective _ t h)

    closed-system :
        (d t : Delivery m) (k : ℕ) (r : Option (JobOf m)) (s : System A)
        → closed m d k r s ≡ some t
        → s ≡ t.system
    closed-system d t k none s h = absurd (ground arith)
    closed-system d t k (some job) s h = elim (Bool-cases (m.returned job.state)) [
      | inl back ↦ ap (λ (x : Delivery m). x.system) (some-injective _ t (rw back at h))
      | inr on ↦ absurd (ground (arith, rw on at h))
    ]

    follow-system :
        (d t : Delivery m) (e : System.Event) (s : System A)
        → follow m d e s ≡ some t
        → s ≡ t.system
    follow-system d t (turns k takes) s h = begun-system d t k d.system.scan.chan s h
    follow-system d t (turns k works) s h = closed-system d t k (d.current k) s h
    follow-system d t (turns k breaks) s h =
        elim (Bool-cases (now_exits m (d.current k) || any_exits m k d.past)) [
          | inl broke ↦ ap (λ (x : Delivery m). x.system) (some-injective _ t (rw broke at h))
          | inr still ↦ absurd (ground (arith, rw still at h))
        ]
    follow-system d t e s h = ap (λ (x : Delivery m). x.system) (some-injective _ t h)

    step-Moves :
        (d t : Delivery m) (e : Event m.Step) → step m one_time cap e d ≡ some t → Moves d e t
    unfolding step
    step-Moves d t (systems e) h = of_system (System.step m.kind one_time cap e d.system) refl h
      where
        of_system :
            (r : Option (System A))
            → System.step m.kind one_time cap e d.system ≡ r
            → followed m d e r ≡ some t
            → Moves d (systems e) t
        of_system none g h = absurd (ground arith)
        of_system (some s) g h = g ∙ ap some (follow-system d t e s h)
    step-Moves d t (works_on k e) h = of_job (at_hand m e (d.current k)) h
      where
        of_job : (r : Option (JobOf m)) → worked_on m d k r ≡ some t → d.system ≡ t.system
        of_job none h = absurd (ground arith)
        of_job (some job) h = ap (λ (x : Delivery m). x.system) (some-injective _ t h)
    step-Moves d t (goes_on i e) h = elim (Bool-cases (m.is_main e)) [
      | inl mine ↦ absurd (ground (arith, rw mine at h))
      | inr aside ↦ of_rest (advance m i e d.past) (rw aside at h)
    ]
      where
        of_rest : (r : Option (List (JobOf m))) → gone_on m d r ≡ some t → d.system ≡ t.system
        of_rest none h = absurd (ground arith)
        of_rest (some jobs) h = ap (λ (x : Delivery m). x.system) (some-injective _ t h)

    -- The events of the system in a run are a run of the system.
    pub run-system :
        (es : List (Event m.Step)) (d t : Delivery m)
        → run m one_time cap es d ≡ some t
        → System.run m.kind one_time cap (systems_of es) d.system ≡ some t.system
    unfolding run System.run
    run-system [] d t h = ap some (ap (λ (x : Delivery m). x.system) (some-injective d t h))
    run-system (systems e ∷ es) d t h =
        let (u, first, rest) = run-step (systems e) es d t h in
        rw (System.run, step-Moves d u (systems e) first) (run-system es u t rest)
    run-system (e ∷ es) d t h =
        let (u, first, rest) = run-step e es d t h in
        subst (λ x. System.run m.kind one_time cap (systems_of es) x ≡ some t.system)
          (sym (step-Moves d u e first)) (run-system es u t rest)
