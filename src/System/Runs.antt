-- ===== src/System/Runs.antt =====
-- The first event of a run.
use mathlib.Core.Path.{subst}
use mathlib.Core.Option.{some-injective}
use ugoku.Base.{ℕ, ◌≡◌, refl, sym, Bool, Option, none, some, List, [], ◌∷◌, ◌++◌, arith}
use ugoku.Dispatch.{Scan}
use ugoku.Dispatch
use ugoku.System.{Kind, System, Event, step, run}

module _ {A : Type 0} where
  pub run-step :
      (kind : Kind) (one_time : Bool) (cap : ℕ) (e : Event) (es : List Event) (s t : System A)
      → run kind one_time cap (e ∷ es) s ≡ some t
      → (u : System A) × (step kind one_time cap e s ≡ some u)
        × (run kind one_time cap es u ≡ some t)
  unfolding run
  run-step kind one_time cap e es s t h = of_step (step kind one_time cap e s) refl h
    where
      of_step :
          (r : Option (System A))
          → step kind one_time cap e s ≡ r
          → (elim r as (λ _. Option (System A)) [
            | none ↦ none
            | some u ↦ run kind one_time cap es u
          ])
            ≡ some t
          → (u : System A) × (step kind one_time cap e s ≡ some u)
            × (run kind one_time cap es u ≡ some t)
      of_step none g h = absurd (ground arith)
      of_step (some u) g h = (u, g, h)

  pub dispatch_step :
      (one_time : Bool) (cap : ℕ) (e : Dispatch.Event) (es : List Dispatch.Event) (s t : Scan A)
      → Dispatch.run cap one_time (e ∷ es) s ≡ some t
      → (u : Scan A) × (Dispatch.step cap one_time e s ≡ some u)
        × (Dispatch.run cap one_time es u ≡ some t)
  unfolding Dispatch.run
  dispatch_step one_time cap e es s t h = of_step (Dispatch.step cap one_time e s) refl h
    where
      of_step :
          (r : Option (Scan A))
          → Dispatch.step cap one_time e s ≡ r
          → (elim r as (λ _. Option (Scan A)) [
            | none ↦ none
            | some u ↦ Dispatch.run cap one_time es u
          ])
            ≡ some t
          → (u : Scan A) × (Dispatch.step cap one_time e s ≡ some u)
            × (Dispatch.run cap one_time es u ≡ some t)
      of_step none g h = absurd (ground arith)
      of_step (some u) g h = (u, g, h)

  pub run-append :
      (one_time : Bool) (cap : ℕ) (ds es : List Dispatch.Event) (s t u : Scan A)
      → Dispatch.run cap one_time ds s ≡ some t
      → Dispatch.run cap one_time es t ≡ some u
      → Dispatch.run cap one_time (ds ++ es) s ≡ some u
  unfolding Dispatch.run
  run-append one_time cap [] es s t u g h =
      subst (λ x. Dispatch.run cap one_time es x ≡ some u) (sym (some-injective s t g)) h
  run-append one_time cap (d ∷ ds) es s t u g h =
      let (v, first, rest) = dispatch_step one_time cap d ds s t g in
      rw (Dispatch.run, first) (run-append one_time cap ds es v t u rest h)
