-- ===== src/System/Budget.antt =====
-- The files that a worker of a system can still take once its Start has returned.
use ugoku.Base.{
  ℕ, zero, suc, ◌+◌, ◌≤◌, ◌==◌, ◌≡◌, ◌≢◌, refl, sym, ap, ◌∙◌, Bool, true, some, List, [], ◌∷◌, ◌++◌,
  arith, inl, inr, Bool-cases, if◌then◌else◌, All, ==_iff,
}
use mathlib.Core.Path.{subst}
use mathlib.Core.Option.{some-injective}
use ugoku.Dispatch.{Entry, Scan}
use ugoku.System.{
  Kind, WorkerState, Manager, in_start, Turn, inits, connects, tests, takes, works, breaks, reports,
  decides, returns, is_stopped, own_turn, stop_flags, turn, get_elem?, set, new_worker, Event,
  turns, new_workers, launch, Loop, created, connecting, head, receiving, working, reporting,
  deciding, ended,
}

-- The files that the loop can still take if `to_exit` is set.
abbrev pub budget : {A : Type 0} → Loop A → ℕ
budget head = 1
budget receiving = 1
budget l = 0

-- Once Start has returned, the loop has ended, or is past init with `to_exit` set.
abbrev pub StopsAt : {A : Type 0} → Manager → Loop A → Bool → Type 0
StopsAt in_start l b = Unit {0}
StopsAt m created b = ⊥
StopsAt m connecting b = ⊥
StopsAt m ended b = Unit {0}
StopsAt m l b = b ≡ true

abbrev pub HasReturned : Manager → Type 0
HasReturned in_start = ⊥
HasReturned m = Unit {0}

abbrev pub is_take : Turn → ℕ
is_take takes = 1
is_take e = 0

-- How often the worker at an index takes a file.
abbrev pub takes_of : ℕ → Event → ℕ
takes_of k (turns j e) = if j == k then is_take e else 0
takes_of k e = 0

abbrev pub takes_by : ℕ → List Event → ℕ
takes_by k [] = 0
takes_by k (e ∷ es) = takes_of k e + takes_by k es

module _ {A : Type 0} where
  abbrev pub Stops : WorkerState A → Type 0
  Stops w = StopsAt w.manager w.loop w.to_exit

  pub turn-Stops :
      (kind : Kind) (cap : ℕ) (e : Turn) (w : WorkerState A) (s : Scan A) (v : WorkerState A)
      (t : Scan A)
      → turn kind cap e w s ≡ some (v, t)
      → Stops w
      → Stops v
  unfolding turn own_turn stop_flags
  turn-Stops kind cap takes w s v t h st = ground arith
  turn-Stops kind cap reports w s v t h st = ground arith
  turn-Stops kind cap inits w s v t h st = ground arith
  turn-Stops kind cap (connects b) w s v t h st = ground arith
  turn-Stops kind cap tests w s v t h st = ground arith
  turn-Stops kind cap works w s v t h st = ground arith
  turn-Stops kind cap breaks w s v t h st = ground arith
  turn-Stops kind cap decides w s v t h st = ground arith
  turn-Stops kind cap returns w s v t h st = ground arith
  turn-Stops kind cap is_stopped w s v t h st = ground arith

  pub turn-budget :
      (kind : Kind) (cap : ℕ) (e : Turn) (w : WorkerState A) (s : Scan A) (v : WorkerState A)
      (t : Scan A)
      → turn kind cap e w s ≡ some (v, t)
      → Stops w
      → HasReturned w.manager
      → HasReturned v.manager × (is_take e + budget v.loop ≤ budget w.loop)
  unfolding turn own_turn stop_flags
  turn-budget kind cap takes w s v t h st r = ground arith
  turn-budget kind cap reports w s v t h st r = ground arith
  turn-budget kind cap inits w s v t h st r = ground arith
  turn-budget kind cap (connects b) w s v t h st r = ground arith
  turn-budget kind cap tests w s v t h st r = ground arith
  turn-budget kind cap works w s v t h st r = ground arith
  turn-budget kind cap breaks w s v t h st r = ground arith
  turn-budget kind cap decides w s v t h st r = ground arith
  turn-budget kind cap returns w s v t h st r = ground arith
  turn-budget kind cap is_stopped w s v t h st r = ground arith

  pub get_elem?-set_same :
      (ws : List (WorkerState A)) (k : ℕ) (w v : WorkerState A)
      → get_elem? ws k ≡ some w
      → get_elem? (set ws k v) k ≡ some v
  unfolding get_elem? set
  get_elem?-set_same [] k w v h = absurd (ground arith)
  get_elem?-set_same (x ∷ ws) zero w v h = refl
  get_elem?-set_same (x ∷ ws) (suc k) w v h = get_elem?-set_same ws k w v h

  pub get_elem?-set_other :
      (ws : List (WorkerState A)) (j k : ℕ) (v : WorkerState A)
      → j ≢ k
      → get_elem? (set ws j v) k ≡ get_elem? ws k
  unfolding get_elem? set
  get_elem?-set_other [] j k v n = refl
  get_elem?-set_other (x ∷ ws) zero zero v n = absurd (n refl)
  get_elem?-set_other (x ∷ ws) zero (suc k) v n = refl
  get_elem?-set_other (x ∷ ws) (suc j) zero v n = refl
  get_elem?-set_other (x ∷ ws) (suc j) (suc k) v n =
      get_elem?-set_other ws j k v (λ e. n (ap suc e))

  pub get_elem?_append :
      (ws : List (WorkerState A)) (k : ℕ) (w v : WorkerState A)
      → get_elem? ws k ≡ some w
      → get_elem? (ws ++ v ∷ []) k ≡ some w
  unfolding get_elem?
  get_elem?_append [] k w v h = absurd (ground arith)
  get_elem?_append (x ∷ ws) zero w v h = h
  get_elem?_append (x ∷ ws) (suc k) w v h = get_elem?_append ws k w v h

  pub All-get_elem? :
      (P : WorkerState A → Type 0) (ws : List (WorkerState A)) (k : ℕ) (w : WorkerState A)
      → get_elem? ws k ≡ some w
      → All P ws
      → P w
  unfolding get_elem?
  All-get_elem? P [] k w h all = absurd (ground arith)
  All-get_elem? P (x ∷ ws) zero w h all = subst P (some-injective x w h) all.0
  All-get_elem? P (x ∷ ws) (suc k) w h all = All-get_elem? P ws k w h all.1

  pub All-set :
      (P : WorkerState A → Type 0) (ws : List (WorkerState A)) (k : ℕ) (v : WorkerState A)
      → P v
      → All P ws
      → All P (set ws k v)
  unfolding set
  All-set P [] k v st all = tt
  All-set P (x ∷ ws) zero v st all = (st, all.1)
  All-set P (x ∷ ws) (suc k) v st all = (all.0, All-set P ws k v st all.1)

  pub All-append : (ws : List (WorkerState A)) → All Stops ws → All Stops (ws ++ new_worker ∷ [])
  All-append [] all = (tt, tt)
  All-append (x ∷ ws) all = (all.0, All-append ws all.1)

  pub All-launch : (entries : List (Entry A)) (n : ℕ) → All Stops (launch entries n).workers
  unfolding new_workers
  All-launch entries zero = tt
  All-launch entries (suc n) = (tt, All-launch entries n)

  -- What is left of the worker at an index, whose Start has returned, and which may have taken a file.
  abbrev pub Goes : ℕ → ℕ → ℕ → List (WorkerState A) → Type 0
  Goes k taking before ws =
      (v : WorkerState A) × (get_elem? ws k ≡ some v)
      × HasReturned v.manager
      × (taking + budget v.loop ≤ before)

  -- What an event does to all of them.
  abbrev pub AllGo : (ℕ → ℕ) → List (WorkerState A) → List (WorkerState A) → Type 0
  AllGo taking ws vs =
      All Stops vs
      × ((k : ℕ) (w : WorkerState A)
          → get_elem? ws k ≡ some w
          → HasReturned w.manager
          → Goes k (taking k) (budget w.loop) vs)

  pub set-AllGo :
      (ws : List (WorkerState A)) (j n : ℕ) (x y : WorkerState A)
      → get_elem? ws j ≡ some x
      → All Stops ws
      → Stops y
      → (HasReturned x.manager → HasReturned y.manager × (n + budget y.loop ≤ budget x.loop))
      → AllGo (λ k. if j == k then n else 0) ws (set ws j y)
  set-AllGo ws j n x y at all st less = (
    All-set Stops ws j y st all,
    λ k w g r. elim (Bool-cases (j == k)) [
      | inl same ↦
          let equal : j ≡ k = (==_iff j k).0 same in
          let here =
            subst (λ i. get_elem? (set ws j y) i ≡ some y) equal (get_elem?-set_same ws j x y at) in
          let was : x ≡ w = some-injective x w (sym at ∙ ap (λ i. get_elem? ws i) equal ∙ g) in
          let (ran, few) =
            subst
              (λ (z : WorkerState A).
                HasReturned z.manager → HasReturned y.manager × (n + budget y.loop ≤ budget z.loop))
              was less r in
          (y, here, ran, ground arith)
      | inr other ↦
          (w, get_elem?-set_other ws j k y (λ e. absurd (ground arith)) ∙ g, r, ground arith)
    ],
  )

  pub append-AllGo :
      (ws : List (WorkerState A)) → All Stops ws → AllGo (λ k. 0) ws (ws ++ new_worker ∷ [])
  append-AllGo ws all =
      (All-append ws all, λ k w g r. (w, get_elem?_append ws k w new_worker g, r, omega arith))

  pub same-AllGo : (ws : List (WorkerState A)) → All Stops ws → AllGo (λ k. 0) ws ws
  same-AllGo ws all = (all, λ k w g r. (w, g, r, omega arith))

  pub fewer-AllGo :
      (f g : ℕ → ℕ) (ws vs : List (WorkerState A))
      → ((k : ℕ) → g k ≤ f k)
      → AllGo f ws vs
      → AllGo g ws vs
  fewer-AllGo f g ws vs less (all, goes) = (
    all,
    λ k w at r. let (v, at', r', few) = goes k w at r in (v, at', r', omega (arith, few, less k)),
  )

  pub then-AllGo :
      (f g : ℕ → ℕ) (ws vs us : List (WorkerState A))
      → AllGo f ws vs
      → AllGo g vs us
      → AllGo (λ k. f k + g k) ws us
  then-AllGo f g ws vs us (all, goes) (all', later) = (
    all',
    λ k w at r.
        let (v, at', r', few) = goes k w at r in
        let (u, at'', r'', fewer) = later k v at' r' in (u, at'', r'', omega (arith, few, fewer)),
  )

  pub budget-le-1 : (l : Loop A) → budget l ≤ 1
  budget-le-1 created = omega arith
  budget-le-1 connecting = omega arith
  budget-le-1 head = omega arith
  budget-le-1 receiving = omega arith
  budget-le-1 (working a) = omega arith
  budget-le-1 (reporting a) = omega arith
  budget-le-1 deciding = omega arith
  budget-le-1 ended = omega arith
