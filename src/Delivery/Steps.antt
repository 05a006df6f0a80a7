-- ===== src/Delivery/Steps.antt =====
-- Each step of a delivery keeps what the module Jobs says.
use ugoku.Base.{
  ℕ, zero, suc, ◌==◌, ◌≡◌, inl, inr, refl, sym, ap, ◌∙◌, Bool, true, false, Option, none, some,
  List, [], ◌∷◌, arith, Bool-cases, All, ==_iff,
}
use mathlib.Core.Path.{subst}
use mathlib.Core.Option.{some-injective}
use ugoku.Dispatch.Counts.{weight}
use ugoku.System.{
  Turn, takes, works, breaks, reports, inits, connects, tests, decides, returns, is_stopped, System,
  working, get_elem?, WorkerState, scans, turns, renews, signals, stops_scanner,
}
use ugoku.System
use ugoku.Delivery.{
  Method, JobOf, Delivery, assign, followed, Event, systems, works_on, goes_on, worked_on, at_hand,
  stepped, files, advance, first_of, behind, gone_on, step,
}
use ugoku.Delivery.Jobs.{Keeps, Inv, Has, Placed, Closed, assign_same, assign_other}
use ugoku.Delivery.Follow.{follow-Inv}

module _ {A : Type 0} (m : Method A) where
  module _ (P : A → m.State → Type 0) (law : Keeps m P) where
    -- The job at hand makes a step.
    stepped-Keeps :
        (job next : JobOf m) (e : m.Step) (r : Option m.State)
        → m.step job.file e job.state ≡ r
        → stepped m job r ≡ some next
        → P job.file job.state
        → P next.file next.state × (next.file ≡ job.file)
    stepped-Keeps job next e none g h p = absurd (ground arith)
    stepped-Keeps job next e (some s) g h p =
        let is : record job { state = s } ≡ next = some-injective _ next h in
        (
          subst (λ (x : JobOf m). P x.file x.state) is (law.goes job.file e job.state s p g),
          sym (ap (λ (x : JobOf m). x.file) is),
        )

    stepped-Closed :
        (job next : JobOf m) (e : m.Step) (r : Option m.State)
        → m.is_main e ≡ false
        → m.step job.file e job.state ≡ r
        → stepped m job r ≡ some next
        → Closed m P job
        → Closed m P next × (next.file ≡ job.file)
    stepped-Closed job next e none aside g h (p, back) = absurd (ground arith)
    stepped-Closed job next e (some s) aside g h (p, back) =
        let is : record job { state = s } ≡ next = some-injective _ next h in
        let (keeps, same) = stepped-Keeps job next e (some s) g h p in
        (
          (
            keeps,
            subst (λ (x : JobOf m). m.returned x.state ≡ true) is
                (law.lasts job.file e job.state s aside back g),
          ),
          same,
        )

    advance-Closed :
        (i : ℕ) (e : m.Step) (jobs later : List (JobOf m))
        → m.is_main e ≡ false
        → All (Closed m P) jobs
        → advance m i e jobs ≡ some later
        → All (Closed m P) later × (files m later ≡ files m jobs)
    unfolding advance
    advance-Closed i e [] later aside all h = absurd (ground arith)
    advance-Closed zero e (job ∷ jobs) later aside all h =
        of_step (stepped m job (m.step job.file e job.state)) refl h
      where
        of_step :
            (r : Option (JobOf m))
            → stepped m job (m.step job.file e job.state) ≡ r
            → first_of m r jobs ≡ some later
            → All (Closed m P) later × (files m later ≡ files m (job ∷ jobs))
        of_step none g h = absurd (ground arith)
        of_step (some next) g h =
            let (closes, same) =
              stepped-Closed job next e (m.step job.file e job.state) aside refl g all.0 in
            subst (λ (x : List (JobOf m)). All (Closed m P) x × (files m x ≡ files m (job ∷ jobs)))
              (some-injective _ later h) ((closes, all.1), ap (λ a. a ∷ files m jobs) same)
    advance-Closed (suc i) e (job ∷ jobs) later aside all h =
        of_rest (advance m i e jobs) h (λ x g. advance-Closed i e jobs x aside all.1 g) refl
      where
        of_rest :
            (r : Option (List (JobOf m)))
            → behind m job r ≡ some later
            → ((x : List (JobOf m))
                → advance m i e jobs ≡ some x
                → All (Closed m P) x × (files m x ≡ files m jobs))
            → advance m i e jobs ≡ r
            → All (Closed m P) later × (files m later ≡ files m (job ∷ jobs))
        of_rest none h ih g = absurd (ground arith)
        of_rest (some x) h ih g =
            let (closes, same) = ih x g in
            subst (λ (y : List (JobOf m)). All (Closed m P) y × (files m y ≡ files m (job ∷ jobs)))
              (some-injective _ later h) ((all.0, closes), ap (λ y. job.file ∷ y) same)

    worked-Inv :
        (d t : Delivery m) (k : ℕ) (e : m.Step) (r : Option (JobOf m)) (job : JobOf m)
        → Inv m P d
        → d.current k ≡ some job
        → stepped m job (m.step job.file e job.state) ≡ r
        → worked_on m d k r ≡ some t
        → Inv m P t
    worked-Inv d t k e none job inv at_k g h = absurd (ground arith)
    worked-Inv d t k e (some next) job inv at_k g h =
        subst (Inv m P) (some-injective _ t h)
          (record { placed = still; over = inv.over; counted = inv.counted })
      where
        still : Placed m P (assign m d.current k (some next)) d.system.workers
        still j w a at is = elim (Bool-cases (k == j)) [
          | inl same ↦
              let equal : k ≡ j = (==_iff k j).0 same in
              let (mine, has, is_a, p) = inv.placed j w a at is in
              let is_job : mine ≡ job =
                some-injective mine job (sym has ∙ ap d.current (sym equal) ∙ at_k) in
              let (keeps, same_file) =
                stepped-Keeps job next e (m.step job.file e job.state) refl g
                  (subst (λ (x : JobOf m). P x.file x.state) is_job p) in
              subst (λ i. Has m P (assign m d.current k (some next) i) a) equal
                (
                  next,
                  assign_same m P d.current k (some next),
                  same_file ∙ ap (λ (x : JobOf m). x.file) (sym is_job) ∙ is_a,
                  keeps,
                )
          | inr other ↦
              subst (λ r. Has m P r a) (sym (assign_other m P d.current k j (some next) other))
                (inv.placed j w a at is)
        ]

    module _ (one_time : Bool) (cap : ℕ) where
      pub step-Inv :
          (d t : Delivery m) (e : Event m.Step)
          → Inv m P d
          → step m one_time cap e d ≡ some t
          → Inv m P t
      unfolding step
      step-Inv d t (systems e) inv h = of_system (System.step m.kind one_time cap e d.system) refl h
        where
          of_system :
              (r : Option (System A))
              → System.step m.kind one_time cap e d.system ≡ r
              → followed m d e r ≡ some t
              → Inv m P t
          of_system none g h = absurd (ground arith)
          of_system (some s) g h = follow-Inv m P law one_time cap d t e s inv g h
      step-Inv d t (works_on k e) inv h = of_job (d.current k) refl h
        where
          of_job :
              (r : Option (JobOf m))
              → d.current k ≡ r
              → worked_on m d k (at_hand m e r) ≡ some t
              → Inv m P t
          of_job none g h = absurd (ground arith)
          of_job (some job) g h =
              worked-Inv d t k e (stepped m job (m.step job.file e job.state)) job inv g refl h
      step-Inv d t (goes_on i e) inv h = elim (Bool-cases (m.is_main e)) [
        | inl mine ↦ absurd (ground (arith, rw mine at h))
        | inr aside ↦ of_rest aside (advance m i e d.past) refl (rw aside at h)
      ]
        where
          of_rest :
              m.is_main e ≡ false
              → (r : Option (List (JobOf m))) → advance m i e d.past ≡ r
              → gone_on m d r ≡ some t
              → Inv m P t
          of_rest aside none g h = absurd (ground arith)
          of_rest aside (some jobs) g h =
              let (closes, same) = advance-Closed i e d.past jobs aside inv.over g in
              subst (Inv m P) (some-injective _ t h) (record {
                placed = inv.placed;
                over = closes;
                counted = λ f. ap (weight f) same ∙ inv.counted f;
              })
