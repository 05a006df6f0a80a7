-- ===== src/System/Slots.antt =====
-- How many workers the managers of a system keep.
use ugoku.Base.{
  true, ap, length, ℕ, zero, suc, ◌+◌, ◌≤◌, ◌≡◌, refl, Bool, false, Option, none, some, List, [],
  ◌∷◌, ◌++◌, arith,
}
use ugoku.Dispatch.{Entry, Scan}
use ugoku.System.{
  Kind, WorkerState, Manager, gone, Turn, inits, connects, tests, takes, works, breaks, reports,
  decides, returns, is_stopped, own_turn, stop_flags, turn, get_elem?, set, new_worker, System,
  Event, scans, turns, renews, signals, stops_scanner, step, run, on_worker, back, renewed,
  new_workers, launch,
}
use ugoku.System.Matching.{length-set}
use ugoku.System.Runs.{run-step}

-- One for a worker whose place no other has taken, and zero for the others.
abbrev pub in_place : Manager → ℕ
in_place gone = 0
in_place m = 1

module _ {A : Type 0} where
  abbrev pub current : List (WorkerState A) → ℕ
  current [] = 0
  current (w ∷ ws) = in_place w.manager + current ws

  current-set :
      (ws : List (WorkerState A)) (k : ℕ) (w v : WorkerState A)
      → get_elem? ws k ≡ some w
      → current (set ws k v) + in_place w.manager ≡ current ws + in_place v.manager
  unfolding get_elem? set
  current-set [] k w v h = cc
  current-set (x ∷ ws) zero w v h = ground arith
  current-set (x ∷ ws) (suc k) w v h = omega (arith, current-set ws k w v h)

  current_append : (ws : List (WorkerState A)) → current (ws ++ new_worker ∷ []) ≡ suc (current ws)
  current_append [] = omega arith
  current_append (w ∷ ws) = omega (arith, current_append ws)

  turn-in_place :
      (kind : Kind) (cap : ℕ) (e : Turn) (w : WorkerState A) (s : Scan A) (v : WorkerState A)
      (t : Scan A)
      → turn kind cap e w s ≡ some (v, t)
      → in_place v.manager ≡ in_place w.manager
  unfolding turn own_turn stop_flags
  turn-in_place kind cap takes w s v t h = ground arith
  turn-in_place kind cap reports w s v t h = ground arith
  turn-in_place kind cap inits w s v t h = ground arith
  turn-in_place kind cap (connects b) w s v t h = ground arith
  turn-in_place kind cap tests w s v t h = ground arith
  turn-in_place kind cap works w s v t h = ground arith
  turn-in_place kind cap breaks w s v t h = ground arith
  turn-in_place kind cap decides w s v t h = ground arith
  turn-in_place kind cap returns w s v t h = ground arith
  turn-in_place kind cap is_stopped w s v t h = ground arith

  current-launch : (entries : List (Entry A)) (n : ℕ) → current (launch entries n).workers ≡ n
  unfolding new_workers
  current-launch entries zero = omega arith
  current-launch entries (suc n) = omega (arith, current-launch entries n)

  pub length-launch : (entries : List (Entry A)) (n : ℕ) → length (launch entries n).workers ≡ n
  unfolding new_workers
  length-launch entries zero = refl
  length-launch entries (suc n) = ap suc (length-launch entries n)

  -- The managers have n workers, or fewer once a worker is not replaced.
  abbrev Slots : Bool → ℕ → System A → Type 0
  Slots one_time n s =
      (current s.workers ≤ n)
      × (one_time ≡ false → s.term ≡ false → current s.workers ≡ n)
      × (one_time ≡ true → length s.workers ≡ n)

  module _ (kind : Kind) (one_time : Bool) (cap n : ℕ) where
    worker-Slots :
        (s t : System A) (k : ℕ) (w : WorkerState A) (r : Option (WorkerState A × Scan A))
        → get_elem? s.workers k ≡ some w
        → ((v : WorkerState A) (u : Scan A)
            → r ≡ some (v, u)
            → in_place v.manager ≡ in_place w.manager)
        → Slots one_time n s
        → back s k r ≡ some t
        → Slots one_time n t
    worker-Slots s t k w none at same inv h = absurd (ground arith)
    worker-Slots s t k w (some (v, u)) at same inv h =
        let still = same v u refl in
        ground (arith, current-set s.workers k w v at, length-set s.workers k v, still)

    turns-Slots :
        (s t : System A) (k : ℕ) (e : Turn) (r : Option (WorkerState A))
        → get_elem? s.workers k ≡ r
        → Slots one_time n s
        → on_worker kind cap e s k r ≡ some t
        → Slots one_time n t
    unfolding turn
    turns-Slots s t k e none at inv h = absurd (ground arith)
    turns-Slots s t k e (some w) at inv h =
        worker-Slots s t k w (turn kind cap e w s.scan) at
          (λ v u g. turn-in_place kind cap e w s.scan v u g) inv (ground arith)

    renew-Slots :
        (s t : System A) (k : ℕ) (r : Option (WorkerState A))
        → get_elem? s.workers k ≡ r
        → Slots one_time n s
        → renewed one_time s k r ≡ some t
        → Slots one_time n t
    renew-Slots s t k none at inv h = absurd (ground arith)
    renew-Slots s t k (some w) at inv h = ground (
      arith,
      current-set s.workers k w (record w { manager = gone }) at,
      current_append (set s.workers k (record w { manager = gone })),
      length-set s.workers k (record w { manager = gone }),
    )

    step-Slots :
        (s t : System A) (e : Event)
        → Slots one_time n s
        → step kind one_time cap e s ≡ some t
        → Slots one_time n t
    unfolding step
    step-Slots s t scans inv h = ground arith
    step-Slots s t (turns k e) inv h = turns-Slots s t k e (get_elem? s.workers k) refl inv h
    step-Slots s t (renews k) inv h = renew-Slots s t k (get_elem? s.workers k) refl inv h
    step-Slots s t signals inv h = ground arith
    step-Slots s t stops_scanner inv h = ground arith

    run-Slots :
        (es : List Event) (s t : System A)
        → Slots one_time n s
        → run kind one_time cap es s ≡ some t
        → Slots one_time n t
    unfolding run
    run-Slots [] s t inv h = ground arith
    run-Slots (e ∷ es) s t inv h =
        let (u, first, rest) = run-step kind one_time cap e es s t h in
        run-Slots es u t (step-Slots s u e inv first) rest

  -- The workers that a manager launched with n has: those that nothing took the place of, and all that
  -- it made.
  abbrev pub Kept : Bool → Bool → ℕ → System A → Type 0
  Kept true term n s = (current s.workers ≤ n) × (length s.workers ≡ n)
  Kept false true n s = current s.workers ≤ n
  Kept false false n s = current s.workers ≡ n

  Slots-Kept :
      (one_time term : Bool) (n : ℕ) (s : System A)
      → s.term ≡ term
      → Slots one_time n s
      → Kept one_time term n s
  Slots-Kept true term n s e (few, _, made) = (few, made refl)
  Slots-Kept false true n s e (few, _, _) = few
  Slots-Kept false false n s e (_, all, _) = all refl e

  -- A manager that is launched with n workers: in one-time mode it never makes another; in service mode it
  -- has, until the signal comes, exactly n that no other took the place of, whatever connects, fails and
  -- exits, and after the signal at most n.
  pub workers_remain :
      (kind : Kind) (one_time : Bool) (cap n : ℕ) (entries : List (Entry A)) (es : List Event)
      (s : System A)
      → run kind one_time cap es (launch entries n) ≡ some s
      → Kept one_time s.term n s
  workers_remain kind one_time cap n entries es s h = Slots-Kept one_time s.term n s refl (
      run-Slots kind one_time cap n es (launch entries n) s
        (
          omega (arith, current-launch entries n),
          λ x y. current-launch entries n,
          λ x. length-launch entries n,
        )
        h)
