-- ===== src/System/Leftover.antt =====
-- What a worker of a system still does after its manager has stopped it.
use ugoku.Base.{
  ℕ, ◌≤◌, ◌==◌, ◌≡◌, refl, sym, ◌∙◌, Bool, ◌||◌, Option, none, some, List, [], ◌∷◌, ◌++◌, arith,
  inl, inr, Bool-cases, if◌then◌else◌, All,
}
use mathlib.Core.Path.{subst}
use mathlib.Core.Option.{some-injective}
use ugoku.Dispatch.{Entry, Scan}
use ugoku.System.{
  Kind, WorkerState, Manager, in_start, stopped, gone, Turn, turn, get_elem?, set, new_worker,
  System, Event, scans, turns, renews, signals, stops_scanner, step, run, on_worker, back, renewed,
  replaced, launch,
}
use ugoku.System.Runs.{run-step}
use ugoku.System.Budget.{
  HasReturned, is_take, takes_of, takes_by, Stops, turn-Stops, turn-budget, All-get_elem?,
  All-launch, AllGo, set-AllGo, append-AllGo, same-AllGo, fewer-AllGo, then-AllGo, budget-le-1,
}

module _ {A : Type 0} where
  module _ (kind : Kind) (one_time : Bool) (cap : ℕ) where
    becomes :
        (taking : ℕ → ℕ) (s t u : System A)
        → some u ≡ some t
        → AllGo taking s.workers u.workers
        → AllGo taking s.workers t.workers
    becomes taking s t u e go =
        subst (λ (x : System A). AllGo taking s.workers x.workers) (some-injective u t e) go

    turn-AllGo :
        (s t : System A) (j : ℕ) (e : Turn) (x : WorkerState A)
        (r : Option (WorkerState A × Scan A))
        → get_elem? s.workers j ≡ some x
        → turn kind cap e x s.scan ≡ r
        → back s j r ≡ some t
        → All Stops s.workers
        → AllGo (λ k. if j == k then is_take e else 0) s.workers t.workers
    turn-AllGo s t j e x none at g h all = absurd (ground arith)
    turn-AllGo s t j e x (some (y, u)) at g h all =
        let st = All-get_elem? Stops s.workers j x at all in
        becomes (λ k. if j == k then is_take e else 0) s t
          (record s { scan = u; workers = set s.workers j y }) h
          (set-AllGo s.workers j (is_take e) x y at all (turn-Stops kind cap e x s.scan y u g st)
            (turn-budget kind cap e x s.scan y u g st))

    turns-AllGo :
        (s t : System A) (j : ℕ) (e : Turn) (r : Option (WorkerState A))
        → get_elem? s.workers j ≡ r
        → on_worker kind cap e s j r ≡ some t
        → All Stops s.workers
        → AllGo (λ k. if j == k then is_take e else 0) s.workers t.workers
    unfolding turn
    turns-AllGo s t j e none at h all = absurd (ground arith)
    turns-AllGo s t j e (some x) at h all =
        turn-AllGo s t j e x (turn kind cap e x s.scan) at refl (ground arith) all

    renew-AllGo :
        (s t : System A) (j : ℕ) (r : Option (WorkerState A))
        → get_elem? s.workers j ≡ r
        → renewed one_time s j r ≡ some t
        → All Stops s.workers
        → AllGo (λ k. 0) s.workers t.workers
    renew-AllGo s t j none at h all = absurd (ground arith)
    renew-AllGo s t j (some x) at h all = of_manager x.manager refl h
      where
        slot : List (WorkerState A)
        slot = set s.workers j (record x { manager = gone })

        left : x.manager ≡ stopped → AllGo (λ k. 0) s.workers slot
        left e =
            let st = All-get_elem? Stops s.workers j x at all in
            fewer-AllGo (λ k. if j == k then 0 else 0) (λ k. 0) s.workers slot (λ k. omega arith)
              (set-AllGo s.workers j 0 x (record x { manager = gone }) at all (ground arith)
                (λ r. (tt, omega arith)))

        of_manager :
            (m : Manager)
            → x.manager ≡ m
            → replaced one_time s j x m ≡ some t
            → AllGo (λ k. 0) s.workers t.workers
        of_manager in_start e h = absurd (ground arith)
        of_manager gone e h = absurd (ground arith)
        of_manager stopped e h = elim (Bool-cases (one_time || s.term)) [
          | inl last ↦
              becomes (λ k. 0) s t (record s { workers = slot }) (sym (rw last refl) ∙ h) (left e)
          | inr new ↦
              let both_go =
                then-AllGo (λ k. 0) (λ k. 0) s.workers slot (slot ++ new_worker ∷ []) (left e)
                  (append-AllGo slot (left e).0) in
              becomes (λ k. 0) s t (record s { workers = slot ++ new_worker ∷ [] })
                (sym (rw new refl) ∙ h) both_go
        ]

    step-AllGo :
        (s t : System A) (e : Event)
        → step kind one_time cap e s ≡ some t
        → All Stops s.workers
        → AllGo (λ k. takes_of k e) s.workers t.workers
    unfolding step
    step-AllGo s t scans h all =
        subst (AllGo (λ k. 0) s.workers) (ground arith) (same-AllGo s.workers all)
    step-AllGo s t (turns j e) h all = turns-AllGo s t j e (get_elem? s.workers j) refl h all
    step-AllGo s t (renews j) h all = renew-AllGo s t j (get_elem? s.workers j) refl h all
    step-AllGo s t signals h all =
        subst (AllGo (λ k. 0) s.workers) (ground arith) (same-AllGo s.workers all)
    step-AllGo s t stops_scanner h all =
        subst (AllGo (λ k. 0) s.workers) (ground arith) (same-AllGo s.workers all)

    run-AllGo :
        (es : List Event) (s t : System A)
        → run kind one_time cap es s ≡ some t
        → All Stops s.workers
        → AllGo (λ k. takes_by k es) s.workers t.workers
    unfolding run
    run-AllGo [] s t h all = becomes (λ k. 0) s t s h (same-AllGo s.workers all)
    run-AllGo (e ∷ es) s t h all =
        let (u, first, rest) = run-step kind one_time cap e es s t h in
        let now = step-AllGo s u e first all in
        then-AllGo (λ k. takes_of k e) (λ k. takes_by k es) s.workers u.workers t.workers now
          (run-AllGo es u t rest now.0)

  -- Take a system that was launched with some workers, of any kind and in either mode, and at any
  -- moment a worker whose Start has returned. However the system goes on, this worker takes at most one
  -- more file.
  pub stopped_worker_takes_one :
      (kind : Kind) (one_time : Bool) (cap n : ℕ) (entries : List (Entry A)) (es fs : List Event)
      (s t : System A) (k : ℕ) (w : WorkerState A)
      → run kind one_time cap es (launch entries n) ≡ some s
      → get_elem? s.workers k ≡ some w
      → HasReturned w.manager
      → run kind one_time cap fs s ≡ some t
      → takes_by k fs ≤ 1
  stopped_worker_takes_one kind one_time cap n entries es fs s t k w h at r g =
      let all = (run-AllGo kind one_time cap es (launch entries n) s h (All-launch entries n)).0 in
      let (v, _, _, few) = (run-AllGo kind one_time cap fs s t g all).1 k w at r in
      omega (arith, few, budget-le-1 w.loop)
